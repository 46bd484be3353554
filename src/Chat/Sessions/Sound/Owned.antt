-- ===== src/Chat/Sessions/Sound/Owned.antt =====
-- The operations on owners and on one session's fields keep the invariant of ConversationStore
-- (src/robotsix_chat/chat/conversation.py).
use robotsix_chat.Base.{
  String, Bool, true, false, Option, none, some, [], ◌∷◌, eq_iff, elem, is_empty, ◌≡◌, arith,
  Bool-cases, Option-cases, inl, inr, if◌then◌else◌,
}
use robotsix_chat.Base.Dict.{Dict, get, put, remove, keys}
use robotsix_chat.Base.Dict.All.{All, All-remove, elem-keys-remove, length-remove-le}
use robotsix_chat.Chat.Conversation.{Session}
use robotsix_chat.Chat.Sessions.{
  OwnerState, ConversationStore, canonical_owner_id, new_session, evict_overflow, owner_ids_for,
}
use robotsix_chat.Chat.Sessions.Turns.{with_session, to_end}
use robotsix_chat.Chat.Sessions.Owners.{
  with_owner, sole, list_sessions, registered, joined, register_session, create_session,
  forget_unowned,
}
use robotsix_chat.Chat.Sessions.Sound.{
  IsGood, Refers, IsLinked, IsSound, IsLinked-with_session, IsLinked-to_end, IsLinked-with_owner,
  IsSound-evict_overflow, IsSound-persist, IsGood-of, Refers-of, elem-move_to_end,
}
use robotsix_chat.Chat.Sessions.Sound.Operations.{IsGood-new_session, Refers-set_add, is_there}

Refers-sole :
    (owner id : String) (sessions : Dict Session)
    → elem id (keys sessions) ≡ true
    → Refers sessions owner (sole id)
Refers-sole owner id sessions m j k = ground (arith, eq_iff j id, k, m)

Refers-joined :
    (owner id : String) (make_active : Bool) (c : ConversationStore)
    → elem id (keys c.sessions) ≡ true
    → IsLinked c
    → Refers c.sessions owner (joined id make_active (get owner c.owners))
Refers-joined owner id make_active c m h = elim (Option-cases (get owner c.owners)) [
  | inl e ↦ rw e (Refers-sole owner id c.sessions m)
  | inr (o, e) ↦ rw e (
      Refers-set_add owner id (if make_active then id else o.active_session_id) o c.sessions m
        (Refers-of owner o c e h))
]

IsGood-registered :
    (id : String) (title : Option String) (c : ConversationStore)
    → IsLinked c
    → IsGood c.max_history_turns id (registered id title c.now (get id c.sessions))
IsGood-registered id title c h = elim (Option-cases (get id c.sessions)) [
  | inl e ↦ let g = IsGood-new_session c.max_history_turns c.now id in rw e (ground (arith, g))
  | inr (s, e) ↦ let g = IsGood-of id s c e h in rw e (titled_by title s g)
]
  where
    titled_by :
        (title : Option String) (s : Session)
        → IsGood c.max_history_turns id s
        → IsGood c.max_history_turns id (registered id title c.now (some s))
    titled_by none s g = g
    titled_by (some t) s g = ground (arith, g)

pub IsSound-register_session :
    (owner id : String) (title : Option String) (make_active : Bool) (c : ConversationStore)
    → IsSound c
    → IsSound (register_session owner id title make_active c)
unfolding register_session
IsSound-register_session owner id title make_active c h =
    let key = canonical_owner_id owner in
    let s = registered id title c.now (get id c.sessions) in
    let moved = to_end id (with_session id s c) in
    let linked =
      IsLinked-to_end id (with_session id s c)
        (IsLinked-with_session id s c (IsGood-registered id title c h.linked) h.linked) in
    let o = joined id make_active (get key c.owners) in
    IsSound-persist (evict_overflow (with_owner key o moved)) (
      IsSound-evict_overflow (with_owner key o moved) (
        IsLinked-with_owner key o moved
          (Refers-joined key id make_active moved
            (elem-move_to_end id (put id s c.sessions) id (is_there id s c)) linked)
          linked))

pub IsSound-create_session :
    (owner fresh : String) (c : ConversationStore)
    → IsSound c
    → IsSound (create_session owner fresh c).0
unfolding create_session
IsSound-create_session owner fresh c h =
    let key = canonical_owner_id owner in
    let made = with_session fresh (new_session fresh c.now) c in
    let linked =
      IsLinked-with_session fresh (new_session fresh c.now) c
        (IsGood-new_session c.max_history_turns c.now fresh) h.linked in
    let o = joined fresh true (get key c.owners) in
    let moved = to_end fresh (with_owner key o made) in
    IsSound-persist (evict_overflow moved) (
      IsSound-evict_overflow moved (
        IsLinked-to_end fresh (with_owner key o made) (
          IsLinked-with_owner key o made
            (Refers-joined key fresh true made (is_there fresh (new_session fresh c.now) c) linked)
            linked)))

pub IsSound-list_sessions :
    (owner : String) (create_default : Bool) (fresh : String) (c : ConversationStore)
    → IsSound c
    → IsSound (list_sessions owner create_default fresh c).0
unfolding list_sessions
IsSound-list_sessions owner false fresh c h =
    elim (Option-cases (get (canonical_owner_id owner) c.owners)) [
      | inl e ↦ rw (list_sessions, e) h
      | inr (o, e) ↦ rw (list_sessions, e) h
    ]
IsSound-list_sessions owner true fresh c h =
    elim (Option-cases (get (canonical_owner_id owner) c.owners)) [
      | inl e ↦
          let made = with_session fresh (new_session fresh c.now) c in
          let joined_by = with_owner (canonical_owner_id owner) (sole fresh) made in
          rw (list_sessions, e)
            (IsSound-persist (evict_overflow joined_by) (
              IsSound-evict_overflow joined_by (
                IsLinked-with_owner (canonical_owner_id owner) (sole fresh) made
                  (Refers-sole (canonical_owner_id owner) fresh made.sessions
                    (is_there fresh (new_session fresh c.now) c))
                  (IsLinked-with_session fresh (new_session fresh c.now) c
                    (IsGood-new_session c.max_history_turns c.now fresh) h.linked))))
      | inr (o, e) ↦ rw (list_sessions, e) h
    ]

-- No owner holds the session.
unowned :
    (id : String) (owners : Dict OwnerState)
    → is_empty (owner_ids_for id owners) ≡ true
    → All (λ (k : String) (o : OwnerState). elem id o.session_ids ≡ false) owners
unfolding owner_ids_for
unowned id [] e = record {}
unowned id ((owner, o) ∷ rest) e = elim (Bool-cases (elem id o.session_ids)) [
  | inl m ↦ absurd (ground (arith, e, m))
  | inr m ↦ (m, unowned id rest (ground (arith, e, m)))
]

Refers-remove :
    (id : String) (sessions : Dict Session) (owners : Dict OwnerState)
    → All (λ (k : String) (o : OwnerState). elem id o.session_ids ≡ false) owners
    → All (Refers sessions) owners
    → All (Refers (remove id sessions)) owners
Refers-remove id sessions [] u r = r
Refers-remove id sessions ((owner, o) ∷ rest) u r = (
  λ j m. ground (arith, elem-keys-remove j id sessions, eq_iff j id, u.0, r.0 j, m),
  Refers-remove id sessions rest u.1 r.1,
)

pub IsSound-forget_unowned :
    (id : String) (c : ConversationStore) → IsSound c → IsSound (forget_unowned id c)
IsSound-forget_unowned id c h = elim (Bool-cases (is_empty (owner_ids_for id c.owners))) [
  | inl e ↦ rw e (record {
    linked = record {
      good = All-remove (IsGood c.max_history_turns) id c.sessions h.linked.good;
      refers = Refers-remove id c.sessions c.owners (unowned id c.owners e) h.linked.refers;
      positive = h.linked.positive;
    };
    bounded = omega (arith, length-remove-le id c.sessions, h.bounded);
  })
  | inr e ↦ rw e h
]
