-- ===== src/Chat/Sessions/Restart/Restored.antt =====
-- The owners and their sessions after a restart: `persist` followed by `load` in
-- src/robotsix_chat/chat/conversation.py.
use robotsix_chat.Base.{
  ℕ, String, true, false, none, some, List, [], ◌∷◌, str_eq, eq_iff, elem, ◌≡◌, ◌⊎◌, refl, sym,
  subst, ap, ◌∙◌, arith, Bool-cases, inl, inr, if◌then◌else◌,
}
use robotsix_chat.Base.Dict.{Dict, get, put}
use robotsix_chat.Base.Dict.All.{All}
use robotsix_chat.Base.Dict.Laws.{get-put}
use robotsix_chat.Chat.Conversation.{Session}
use robotsix_chat.Chat.SessionFile.{Json, items, present, session_dict, lookup, Reader}
use robotsix_chat.Chat.Sessions.{
  OwnerState, ConversationStore, stored_sessions, stored_owners, owner_json, persist,
}
use robotsix_chat.Chat.Sessions.Loading.{
  read_entries, load_current, loaded, load, is_legacy, fold_owner,
}
use robotsix_chat.Chat.Sessions.Restart.{
  AllReadable, entries_back, is_held, SameOwner, AreOwners, fold_back,
}

module _ (r : Reader) (max now : ℕ) (d : Dict Session) where
  -- What `load_current` leaves of the owners that were written, from a state without them.
  record Back (os : Dict OwnerState) (sessions : Dict Session) (owners : Dict OwnerState)
      (sessions' : Dict Session) (owners' : Dict OwnerState) : Type 0 where
    result :
        load_current r max now (present (stored_owners os d)) sessions owners
        ≡ loaded sessions' owners'
    got : (j : String) → get j sessions' ≡ (if is_held j os then get j d else get j sessions)
    there :
        (owner id : String) (o : OwnerState)
        → get owner os ≡ some o
        → elem id o.session_ids ≡ true
        → (o' : OwnerState) × (get owner owners' ≡ some o') × SameOwner o o'
    others : (owner : String) → get owner os ≡ none → get owner owners' ≡ get owner owners

  -- None of the owners is there yet.
  abbrev AreNew : Dict OwnerState → Dict OwnerState → Type 0
  AreNew owners os = All (λ (k : String) (o : OwnerState). get k owners ≡ none) os

  still_new :
      (owner : String) (o : OwnerState) (owners os : Dict OwnerState)
      → get owner os ≡ none
      → AreNew owners os
      → AreNew (put owner o owners) os
  unfolding get
  still_new owner o owners [] e h = h
  still_new owner o owners ((k, p) ∷ os) e h = elim (Bool-cases (str_eq k owner)) [
    | inl q ↦ absurd (ground (arith, e, q))
    | inr q ↦ (
      ground (arith, get-put k owner o owners, eq_iff k owner, eq_iff owner k, q, h.0),
      still_new owner o owners os (ground (arith, e, q)) h.1,
    )
  ]

  -- An owner without sessions is not written.
  skip_owner :
      (owner : String) (o : OwnerState) (os : Dict OwnerState) (sessions : Dict Session)
      (owners : Dict OwnerState)
      → o.session_ids ≡ []
      → load_current r max now (present (stored_owners ((owner, o) ∷ os) d)) sessions owners
        ≡ load_current r max now (present (stored_owners os d)) sessions owners
  unfolding stored_owners stored_sessions
  skip_owner owner o os sessions owners e = rw e refl

  -- One with sessions is read and enters the owners.
  read_owner :
      (owner id : String) (ids : List String) (o : OwnerState) (os : Dict OwnerState)
      (sessions sessions' : Dict Session) (seen : List String) (owners : Dict OwnerState)
      → o.session_ids ≡ id ∷ ids
      → AllReadable r max now d (id ∷ ids)
      → read_entries r max now (items (stored_sessions (id ∷ ids) d)) sessions []
        ≡ some (sessions', seen)
      → load_current r max now (present (stored_owners ((owner, o) ∷ os) d)) sessions owners
        ≡ load_current r max now
            (present (stored_owners os d))
            sessions'
            (fold_owner owner (some o.active_session_id) seen sessions' owners)
  unfolding stored_owners stored_sessions load_current lookup
  read_owner owner id ids o os sessions sessions' seen owners e h read =
      let (s, f, k, a, l) = h id (ground (arith, eq_iff id id)) in
      let one : stored_sessions (id ∷ ids) d ≡ session_dict s ∷ stored_sessions ids d =
        rw (stored_sessions, f) refl in
      let read' : read_entries r max now (items (session_dict s ∷ stored_sessions ids d)) sessions
            []
          ≡ some (sessions', seen) =
        subst (λ l. read_entries r max now (items l) sessions [] ≡ some (sessions', seen)) one
          read in
      rw e (rw one (rw (load_current, read') refl))

  -- The first owner of the list, where the others are back.
  module _ (owner : String) (o : OwnerState) (os : Dict OwnerState) (sessions middle : Dict Session)
      (owners new : Dict OwnerState)
      (step : load_current r max now (present (stored_owners ((owner, o) ∷ os) d)) sessions owners
        ≡ load_current r max now (present (stored_owners os d)) middle new)
      (read : (j : String)
        → get j middle ≡ (if elem j o.session_ids then get j d else get j sessions))
      (kept : (k : String) → str_eq owner k ≡ false → get k new ≡ get k owners)
      (alone : get owner os ≡ none)
      (entered : (id : String)
        → elem id o.session_ids ≡ true
        → (o' : OwnerState) × (get owner new ≡ some o') × SameOwner o o')
      (sessions' : Dict Session) (owners' : Dict OwnerState)
      (b : Back os middle new sessions' owners') where
    there_first :
        (k id : String) (p : OwnerState)
        → get k ((owner, o) ∷ os) ≡ some p
        → elem id p.session_ids ≡ true
        → (o' : OwnerState) × (get k owners' ≡ some o') × SameOwner p o'
    unfolding get
    there_first k id p g m = elim (Bool-cases (str_eq owner k)) [
      | inl q ↦
          let same : o ≡ p = ground (arith, g, q) in
          let here : owner ≡ k = (eq_iff owner k).0 q in
          let (o', e, s) =
            entered id (subst (λ (x : OwnerState). elem id x.session_ids ≡ true) (sym same) m) in
          (
            o',
            subst (λ x. get x owners' ≡ some o') here (b.others owner alone ∙ e),
            subst (λ x. SameOwner x o') same s,
          )
      | inr q ↦ b.there k id p (ground (arith, g, q)) m
    ]

    Back-first : Back ((owner, o) ∷ os) sessions owners sessions' owners'
    unfolding get
    Back-first = record {
      result = step ∙ b.result;
      got = λ j. ground (arith, b.got j, read j);
      there = there_first;
      others = λ k e. elim (Bool-cases (str_eq owner k)) [
        | inl q ↦ absurd (ground (arith, e, q))
        | inr q ↦ b.others k (ground (arith, e, q)) ∙ kept k q
      ];
    }

  List-cases : (xs : List String) → (xs ≡ []) ⊎ ((x : String) × (ys : List String) × (xs ≡ x ∷ ys))
  List-cases [] = inl refl
  List-cases (x ∷ ys) = inr (x, ys, refl)

  owners-Back :
      (os : Dict OwnerState) (sessions : Dict Session) (owners : Dict OwnerState)
      → AreOwners r max now d os
      → AreNew owners os
      → (sessions' : Dict Session) × (owners' : Dict OwnerState) × Back os sessions owners sessions'
          owners'
  unfolding stored_owners load_current get
  owners-Back [] sessions owners h fresh = (
    sessions,
    owners,
    record {
      result = refl;
      got = λ j. refl;
      there = λ k id p g m. absurd (cc g);
      others = λ owner e. refl;
    },
  )
  owners-Back ((owner, o) ∷ os) sessions owners h fresh = elim (List-cases o.session_ids) [
    | inl e ↦
        let (sessions', owners', b) = owners-Back os sessions owners h.3 fresh.1 in
        (
          sessions',
          owners',
          Back-first owner o os sessions sessions owners owners
              (skip_owner owner o os sessions owners e) (λ j. ground (arith, e)) (λ k q. refl) h.1
              (λ id m. absurd (ground (arith, e, m))) sessions' owners' b,
        )
    | inr (id, ids, e) ↦
        let readable = subst (AllReadable r max now d) e h.2 in
        let (middle, seen, read, got, held) =
          entries_back r max now d (id ∷ ids) sessions [] readable in
        let (o', fold, same) =
          fold_back r max now d owner o seen middle owners id h.0 fresh.0
            (ground (arith, held id, eq_iff id id)) (λ j. ground (arith, held j, e)) in
        let (sessions', owners', b) =
          owners-Back os middle (put owner o' owners) h.3
            (still_new owner o' owners os h.1 fresh.1) in
        (
          sessions',
          owners',
          Back-first owner o os sessions middle owners (put owner o' owners)
              (read_owner owner id ids o os sessions middle seen owners e readable read
                ∙ ap (λ w. load_current r max now (present (stored_owners os d)) middle w) fold)
              (λ j. ground (arith, got j, e)) (λ k q. ground (arith, get-put k owner o' owners, q))
              h.1
              (λ j m. (o', ground (arith, get-put owner owner o' owners, eq_iff owner owner), same))
              sessions' owners' b,
        )
  ]

-- What is written is not in the legacy format.
not_legacy :
    (os : Dict OwnerState) (d : Dict Session) → is_legacy (present (stored_owners os d)) ≡ false
unfolding stored_owners lookup
not_legacy [] d = refl
not_legacy ((owner, o) ∷ os) d = go (stored_sessions o.session_ids d) (not_legacy os d)
  where
    go :
        (vs : List Json)
        → is_legacy (present (stored_owners os d)) ≡ false
        → is_legacy (present ((owner, owner_json o.active_session_id vs) ∷ stored_owners os d))
          ≡ false
    go [] rest = rest
    go (v ∷ vs) rest = refl

-- What was written is loaded again: exactly the sessions that some owner holds, as they were, and each
-- owner of a session with the same sessions and the same active one if it is one of them. No other
-- owner is there. The file takes writes, the owners stand once each under their canonical ids, and
-- their sessions are there, aligned, at a level of the library.
pub restored :
    (r : Reader) (now : ℕ) (c : ConversationStore)
    → c.has_serializer ≡ true
    → c.writable ≡ true
    → AreOwners r c.max_history_turns now c.sessions c.owners
    → (sessions' : Dict Session) × (owners' : Dict OwnerState) × (load r c.max_history_turns now
          (persist c).file
        ≡ loaded sessions' owners')
      × ((id : String)
          → get id sessions' ≡ (if is_held id c.owners then get id c.sessions else none))
      × ((owner id : String) (o : OwnerState)
          → get owner c.owners ≡ some o
          → elem id o.session_ids ≡ true
          → (o' : OwnerState) × (get owner owners' ≡ some o') × SameOwner o o')
      × ((owner : String) → get owner c.owners ≡ none → get owner owners' ≡ none)
unfolding persist load get
restored r now c ser w h =
    let (sessions', owners', b) =
      owners-Back r c.max_history_turns now c.sessions c.owners [] [] h (all_new c.owners) in
    (
      sessions',
      owners',
      rw (ser, w) (rw (not_legacy c.owners c.sessions) b.result),
      b.got,
      b.there,
      b.others,
    )
  where
    all_new :
        (os : Dict OwnerState)
        → All (λ (k : String) (o : OwnerState). get {V = OwnerState} k [] ≡ none) os
    all_new [] = record {}
    all_new ((k, o) ∷ os) = (refl, all_new os)
