-- ===== src/Chat/Sessions/Restart.antt =====
-- What a restart of the server keeps: `persist` followed by `load` in
-- src/robotsix_chat/chat/conversation.py.
pub mod Restored
use robotsix_chat.Base.{
  ℕ, ◌≤◌, String, Bool, true, false, ◌||◌, Option, none, some, List, [], ◌∷◌, length, str_eq,
  eq_iff, elem, elem-set_add, set_add, ◌≡◌, refl, sym, subst, ap, ◌∙◌, arith, Bool-cases, inl, inr,
  if◌then◌else◌,
}
use robotsix_chat.Base.Dict.{Dict, get, put, keys}
use robotsix_chat.Base.Dict.All.{All}
use robotsix_chat.Base.Dict.Laws.{get-put, elem-keys}
use robotsix_chat.Chat.Conversation.{Session}
use robotsix_chat.Chat.Conversation.Turns.{IsAligned}
use robotsix_chat.Chat.SessionFile.{
  Json, obj, arr, items, present, session_dict, parse_session, read_session, Reader,
}
use robotsix_chat.Chat.SessionFile.RoundTrip.{IsLevel, session_back}
use robotsix_chat.Chat.Sessions.{
  OwnerState, ConversationStore, FileContent, canonical_owner_id, stored_sessions, stored_owners,
  owner_json, persist,
}
use robotsix_chat.Chat.Sessions.Loading.{
  read_entries, load_current, loaded, load, is_legacy, merge_owner, fold_owner, chosen, Loaded,
}

-- Some owner of the list holds the session.
abbrev pub is_held : String → Dict OwnerState → Bool
is_held j [] = false
is_held j ((owner, o) ∷ rest) = elem j o.session_ids || is_held j rest

-- The same sessions, and the same active one if it is one of them.
abbrev pub SameOwner : OwnerState → OwnerState → Type 0
SameOwner o o' =
    ((id : String) → elem id o'.session_ids ≡ elem id o.session_ids)
    × (elem o.active_session_id o.session_ids ≡ true → o'.active_session_id ≡ o.active_session_id)

module _ (r : Reader) (max now : ℕ) (d : Dict Session) where
  -- The session is there, under its id, in order, at a level of the library.
  abbrev pub Readable : String → Type 0
  Readable id =
      (s : Session) × (get id d ≡ some s)
      × (s.session_id ≡ id)
      × IsAligned max s
      × IsLevel r s.model_level

  abbrev pub AllReadable : List String → Type 0
  AllReadable ids = (id : String) → elem id ids ≡ true → Readable id

  read_one :
      (id : String) (s : Session) (ids : List String) (sessions : Dict Session) (seen : List String)
      → get id d ≡ some s
      → s.session_id ≡ id
      → IsAligned max s
      → IsLevel r s.model_level
      → read_entries r max now (items (stored_sessions (id ∷ ids) d)) sessions seen
        ≡ read_entries r max now
            (items (stored_sessions ids d))
            (put id s sessions)
            (set_add id seen)
  unfolding read_entries stored_sessions
  read_one id s ids sessions seen e k a l =
      rw (stored_sessions, e) (rw (read_entries, session_back r max now s a l) (rw k refl))

  got_on :
      (id j : String) (ids : List String) (s : Session) (found : Option Session)
      (sessions : Dict Session)
      → get id d ≡ some s
      → found ≡ (if elem j ids then get j d else get j (put id s sessions))
      → found ≡ (if str_eq j id || elem j ids then get j d else get j sessions)
  got_on id j ids s found sessions e g = elim (Bool-cases (str_eq id j)) [
    | inl q ↦
        let p : id ≡ j = (eq_iff id j).0 q in
        let f : get j d ≡ some s = subst (λ x. get x d ≡ some s) p e in
        ground (arith, g, get-put j id s sessions, eq_iff j id, p, f, q)
    | inr q ↦ ground (arith, g, get-put j id s sessions, eq_iff j id, eq_iff id j, q)
  ]

  pub entries_back :
      (ids : List String) (sessions : Dict Session) (seen : List String)
      → AllReadable ids
      → (sessions' : Dict Session) × (seen' : List String) × (read_entries r max now
            (items (stored_sessions ids d))
            sessions
            seen
          ≡ some (sessions', seen'))
        × ((j : String) → get j sessions' ≡ (if elem j ids then get j d else get j sessions))
        × ((j : String) → elem j seen' ≡ (elem j ids || elem j seen))
  unfolding read_entries stored_sessions
  entries_back [] sessions seen h = (sessions, seen, refl, (λ j. refl), (λ j. refl))
  entries_back (id ∷ ids) sessions seen h =
      let (s, e, k, a, l) = h id (ground (arith, eq_iff id id)) in
      let (sessions', seen', read, got, held) =
        entries_back ids (put id s sessions) (set_add id seen) (λ j m. h j (ground (arith, m))) in
      (
        sessions',
        seen',
        read_one id s ids sessions seen e k a l ∙ read,
        (λ j. got_on id j ids s (get j sessions') sessions e (got j)),
        (λ j. ground (arith, held j, elem-set_add j id seen)),
      )

  -- The owners stand once each, under their canonical ids.
  abbrev pub AreOwners : Dict OwnerState → Type 0
  AreOwners [] = Unit {0}
  AreOwners ((owner, o) ∷ rest) =
      (canonical_owner_id owner ≡ owner)
      × (get owner rest ≡ none)
      × AllReadable o.session_ids
      × AreOwners rest

  -- A new owner enters, with the active session that was written if it is one of its sessions.
  fold_back :
      (owner : String) (o : OwnerState) (seen : List String) (sessions : Dict Session)
      (owners : Dict OwnerState) (id : String)
      → canonical_owner_id owner ≡ owner
      → get owner owners ≡ none
      → elem id seen ≡ true
      → ((j : String) → elem j seen ≡ elem j o.session_ids)
      → (o' : OwnerState) × (fold_owner owner (some o.active_session_id) seen sessions owners
          ≡ put owner o' owners)
        × SameOwner o o'
  unfolding merge_owner
  fold_back owner o [] sessions owners id c e m same = absurd (cc m)
  fold_back owner o (first ∷ seen) sessions owners id c e m same = (
    record {
      active_session_id = chosen (some o.active_session_id) first (first ∷ seen);
      session_ids = first ∷ seen;
    },
    rw c (rw (merge_owner, e) refl),
    (same, λ active. ground (arith, same o.active_session_id, active)),
  )
