-- ===== src/Chat/Sessions/Sound.antt =====
-- The invariant of ConversationStore in src/robotsix_chat/chat/conversation.py, and what the steps that
-- the operations are made of leave of it.
pub mod Operations
pub mod Owned
pub mod Deleted
pub mod Kept
use robotsix_chat.Base.{
  ℕ, zero, suc, ◌+◌, ◌≤◌, String, Bool, true, false, ◌||◌, Option, none, some, List, [], ◌∷◌, ◌++◌,
  length, length-append, ltb, str_eq, eq_iff, elem, discard, elem-discard, is_empty, ◌≡◌, refl, sym,
  subst, ap, arith, Bool-cases, Option-cases, inl, inr, if◌then◌else◌,
}
use robotsix_chat.Base.Dict.{Dict, get, put, remove, keys}
use robotsix_chat.Base.Dict.All.{
  All, All-put, All-remove, All-snoc, All-get, All-mono, elem-keys-put, elem-keys-remove,
  elem-keys-snoc, length-put_present, length-remove-le, length-remove_present,
}
use robotsix_chat.Base.Dict.Laws.{get-put, get-put_same, elem-keys}
use robotsix_chat.Chat.Conversation.{Session}
use robotsix_chat.Chat.Conversation.Turns.{IsAligned}
use robotsix_chat.Chat.Sessions.{
  OwnerState, ConversationStore, move_to_end, discard_from_all, evict_from, evict_overflow, persist,
}
use robotsix_chat.Chat.Sessions.Turns.{with_session, to_end, changed}
use robotsix_chat.Chat.Sessions.Owners.{with_owner}

-- A session stands under its id, with its actions, indices and cap in order.
abbrev pub IsGood : ℕ → String → Session → Type 0
IsGood max id s = (s.session_id ≡ id) × IsAligned max s

-- The sessions of an owner are there.
abbrev pub Refers : Dict Session → String → OwnerState → Type 0
Refers sessions owner o =
    (id : String) → elem id o.session_ids ≡ true → elem id (keys sessions) ≡ true

pub record IsLinked (c : ConversationStore) : Type 0 where
  pub good : All (IsGood c.max_history_turns) c.sessions
  pub refers : All (Refers c.sessions) c.owners
  pub positive : 1 ≤ c.max_history_turns

pub record IsSound (c : ConversationStore) : Type 0 where
  pub linked : IsLinked c
  pub bounded : length c.sessions ≤ c.max_conversations

Refers-mono :
    (d e : Dict Session) (owners : Dict OwnerState)
    → ((id : String) → elem id (keys d) ≡ true → elem id (keys e) ≡ true)
    → All (Refers d) owners
    → All (Refers e) owners
Refers-mono d e owners f h = All-mono (Refers d) (Refers e) owners (λ k o r id m. f id (r id m)) h

pub IsLinked-with_session :
    (id : String) (s : Session) (c : ConversationStore)
    → IsGood c.max_history_turns id s
    → IsLinked c
    → IsLinked (with_session id s c)
IsLinked-with_session id s c g h = record {
  good = All-put (IsGood c.max_history_turns) id s c.sessions g h.good;
  refers =
      Refers-mono c.sessions (put id s c.sessions) c.owners
        (λ j m. ground (arith, elem-keys-put j id s c.sessions, m)) h.refers;
  positive = h.positive;
}

module _ (id : String) (sessions : Dict Session) where
  good-move_to_end :
      (P : String → Session → Type 0) → All P sessions → All P (move_to_end id sessions)
  unfolding move_to_end
  good-move_to_end P h = elim (Option-cases (get id sessions)) [
    | inl e ↦ rw (move_to_end, e) h
    | inr (s, e) ↦
        rw (move_to_end, e)
          (All-snoc P id s (remove id sessions) (All-get P id s sessions e h)
            (All-remove P id sessions h))
  ]

  pub elem-move_to_end :
      (j : String) → elem j (keys sessions) ≡ true → elem j (keys (move_to_end id sessions)) ≡ true
  unfolding move_to_end
  elem-move_to_end j m = elim (Option-cases (get id sessions)) [
    | inl e ↦ rw (move_to_end, e) m
    | inr (s, e) ↦
        rw (move_to_end, e)
          (ground
            (arith, elem-keys-snoc j id s (remove id sessions), elem-keys-remove j id sessions, m))
  ]

  pub length-move_to_end : length (move_to_end id sessions) ≤ length sessions
  unfolding move_to_end
  length-move_to_end = elim (Option-cases (get id sessions)) [
    | inl e ↦ rw (move_to_end, e) (omega arith)
    | inr (s, e) ↦
        rw (move_to_end, e)
          (omega (
            arith,
            length-append (remove id sessions) ((id, s) ∷ []),
            length-remove_present id s sessions e,
          ))
  ]

pub IsLinked-to_end : (id : String) (c : ConversationStore) → IsLinked c → IsLinked (to_end id c)
IsLinked-to_end id c h = record {
  good = good-move_to_end id c.sessions (IsGood c.max_history_turns) h.good;
  refers =
      Refers-mono c.sessions (move_to_end id c.sessions) c.owners (elem-move_to_end id c.sessions)
        h.refers;
  positive = h.positive;
}

pub IsLinked-with_owner :
    (owner : String) (o : OwnerState) (c : ConversationStore)
    → Refers c.sessions owner o
    → IsLinked c
    → IsLinked (with_owner owner o c)
IsLinked-with_owner owner o c r h = record {
  good = h.good;
  refers = All-put (Refers c.sessions) owner o c.owners r h.refers;
  positive = h.positive;
}

pub IsLinked-persist : (c : ConversationStore) → IsLinked c → IsLinked (persist c)
unfolding persist
IsLinked-persist c h = ground arith

-- Evicting the first session takes it out of every owner.
Refers-drop :
    (id : String) (s : Session) (rest : Dict Session) (owners : Dict OwnerState)
    → All (Refers ((id, s) ∷ rest)) owners
    → All (Refers rest) (discard_from_all id owners)
unfolding discard_from_all keys
Refers-drop id s rest [] h = h
Refers-drop id s rest ((owner, o) ∷ owners) h = (
  λ j m. ground (arith, elem-discard j id o.session_ids, h.0 j, m),
  Refers-drop id s rest owners h.1,
)

module _ (max turns : ℕ) where
  evict_from_sound :
      (sessions : Dict Session) (owners : Dict OwnerState)
      → All (IsGood turns) sessions
      → All (Refers sessions) owners
      → All (IsGood turns) (evict_from max sessions owners).0
        × All (Refers (evict_from max sessions owners).0) (evict_from max sessions owners).1
        × (length (evict_from max sessions owners).0 ≤ max)
  unfolding evict_from
  evict_from_sound [] owners g r = (g, r, omega arith)
  evict_from_sound ((id, s) ∷ rest) owners g r =
      elim (Bool-cases (ltb max (length ((id, s) ∷ rest)))) [
        | inl e ↦
            rw (evict_from, e)
              (evict_from_sound rest (discard_from_all id owners) g.1
                (Refers-drop id s rest owners r))
        | inr e ↦ rw (evict_from, e) (g, r, ground (arith, e))
      ]

pub IsSound-evict_overflow : (c : ConversationStore) → IsLinked c → IsSound (evict_overflow c)
unfolding evict_overflow
IsSound-evict_overflow c h =
    let (g, r, b) =
      evict_from_sound c.max_conversations c.max_history_turns c.sessions c.owners h.good
        h.refers in
    record { linked = record { good = g; refers = r; positive = h.positive }; bounded = b }

pub IsSound-persist : (c : ConversationStore) → IsSound c → IsSound (persist c)
unfolding persist
IsSound-persist c h = ground arith

-- A session that is there is replaced by a good one.
pub IsSound-with_session :
    (id : String) (s t : Session) (c : ConversationStore)
    → get id c.sessions ≡ some t
    → IsGood c.max_history_turns id s
    → IsSound c
    → IsSound (with_session id s c)
IsSound-with_session id s t c e g h = record {
  linked = IsLinked-with_session id s c g h.linked;
  bounded = omega (arith, length-put_present id s t c.sessions e, h.bounded);
}

pub IsSound-to_end : (id : String) (c : ConversationStore) → IsSound c → IsSound (to_end id c)
IsSound-to_end id c h = record {
  linked = IsLinked-to_end id c h.linked;
  bounded = omega (arith, length-move_to_end id c.sessions, h.bounded);
}

pub IsSound-with_owner :
    (owner : String) (o : OwnerState) (c : ConversationStore)
    → Refers c.sessions owner o
    → IsSound c
    → IsSound (with_owner owner o c)
IsSound-with_owner owner o c r h = record {
  linked = IsLinked-with_owner owner o c r h.linked;
  bounded = h.bounded;
}

pub IsGood-of :
    (id : String) (s : Session) (c : ConversationStore)
    → get id c.sessions ≡ some s
    → IsLinked c
    → IsGood c.max_history_turns id s
IsGood-of id s c e h = All-get (IsGood c.max_history_turns) id s c.sessions e h.good

pub Refers-of :
    (owner : String) (o : OwnerState) (c : ConversationStore)
    → get owner c.owners ≡ some o
    → IsLinked c
    → Refers c.sessions owner o
Refers-of owner o c e h = All-get (Refers c.sessions) owner o c.owners e h.refers

-- A change of one session that keeps it good.
pub IsSound-changed :
    (id : String) (f : Session → Session) (c : ConversationStore)
    → ((s : Session) → IsGood c.max_history_turns id s → IsGood c.max_history_turns id (f s))
    → IsSound c
    → IsSound (changed id f c).0
IsSound-changed id f c k h = elim (Option-cases (get id c.sessions)) [
  | inl e ↦ rw (changed, e) h
  | inr (s, e) ↦
      rw (changed, e)
        (IsSound-persist (with_session id (f s) c)
          (IsSound-with_session id (f s) s c e (k s (IsGood-of id s c e h.linked)) h))
]
