-- ===== src/Chat/Sessions/Sound/Deleted.antt =====
-- Deleting and closing a session keep the invariant of ConversationStore
-- (src/robotsix_chat/chat/conversation.py).
use robotsix_chat.Base.{
  String, Bool, true, false, some, str_eq, elem, elem-discard, set_add, discard, ◌≡◌, arith,
  Bool-cases, Option-cases, inl, inr, if◌then◌else◌,
}
use robotsix_chat.Base.Dict.{Dict, get, put}
use robotsix_chat.Base.Dict.Laws.{get-put_same}
use robotsix_chat.Chat.Conversation.{Session}
use robotsix_chat.Chat.Sessions.{
  OwnerState, ConversationStore, canonical_owner_id, new_session, evict_overflow,
}
use robotsix_chat.Chat.Sessions.Turns.{with_session, to_end}
use robotsix_chat.Chat.Sessions.Owners.{
  with_owner, newest, forget_unowned, replace_active, delete_owned, delete_session, close_session,
}
use robotsix_chat.Chat.Sessions.Sound.{
  Refers, IsSound, IsLinked-with_session, IsLinked-to_end, IsLinked-with_owner,
  IsSound-evict_overflow, IsSound-persist, IsSound-with_owner, IsSound-changed, Refers-of,
  elem-move_to_end,
}
use robotsix_chat.Chat.Sessions.Sound.Operations.{IsGood-new_session, Refers-set_add, is_there}
use robotsix_chat.Chat.Sessions.Sound.Owned.{IsSound-forget_unowned}

owners-forget_unowned :
    (id : String) (c : ConversationStore) → (forget_unowned id c).owners ≡ c.owners
owners-forget_unowned id c = ground arith

Refers-discard :
    (owner id : String) (o : OwnerState) (sessions : Dict Session)
    → Refers sessions owner o
    → Refers sessions owner (record o { session_ids = discard id o.session_ids })
Refers-discard owner id o sessions r j m = ground (arith, elem-discard j id o.session_ids, r j, m)

-- `o` is the owner's state in `c`.
IsSound-replace_active :
    (key : String) (create_replacement : Bool) (fresh : String) (o : OwnerState)
    (c : ConversationStore)
    → get key c.owners ≡ some o
    → IsSound c
    → IsSound (replace_active key create_replacement fresh o c)
IsSound-replace_active key create_replacement fresh o c e h =
    let r = Refers-of key o c e h.linked in
    elim (Option-cases (newest o.session_ids c.sessions)) [
      | inl n ↦ rw (replace_active, n) (without create_replacement)
      | inr (s, n) ↦
          rw (replace_active, n)
            (IsSound-with_owner key (record o { active_session_id = s.session_id }) c r h)
    ]
  where
    without :
        (create : Bool)
        → IsSound (
            if create
            then evict_overflow (
                with_owner key
                  (record { active_session_id = fresh; session_ids = set_add fresh o.session_ids })
                  (to_end fresh (with_session fresh (new_session fresh c.now) c)))
            else with_owner key (record o { active_session_id = "" }) c)
    without false =
        IsSound-with_owner key (record o { active_session_id = "" }) c
          (Refers-of key o c e h.linked) h
    without true =
        let made = with_session fresh (new_session fresh c.now) c in
        let moved = to_end fresh made in
        let linked = IsLinked-to_end fresh made (
          IsLinked-with_session fresh (new_session fresh c.now) c
            (IsGood-new_session c.max_history_turns c.now fresh) h.linked) in
        let o' : OwnerState = record {
          active_session_id = fresh;
          session_ids = set_add fresh o.session_ids;
        } in
        IsSound-evict_overflow (with_owner key o' moved) (
          IsLinked-with_owner key o' moved
            (Refers-set_add key fresh fresh o moved.sessions
              (elem-move_to_end fresh (put fresh (new_session fresh c.now) c.sessions) fresh
                (is_there fresh (new_session fresh c.now) c))
              (Refers-of key o moved e linked))
            linked)

pub IsSound-delete_session :
    (owner id : String) (create_replacement : Bool) (fresh : String) (c : ConversationStore)
    → IsSound c
    → IsSound (delete_session owner id create_replacement fresh c).0
unfolding delete_session
IsSound-delete_session owner id create fresh c h =
    elim (Option-cases (get (canonical_owner_id owner) c.owners)) [
      | inl e ↦ rw (delete_session, e) h
      | inr (o, e) ↦ elim (Bool-cases (elem id o.session_ids)) [
        | inr m ↦ rw (delete_session, e, m) h
        | inl m ↦
            rw (delete_session, e, m)
              (IsSound-persist (delete_owned (canonical_owner_id owner) id create fresh o c)
                (IsSound-delete_owned (canonical_owner_id owner) o e))
      ]
    ]
  where
    IsSound-delete_owned :
        (key : String) (o : OwnerState)
        → get key c.owners ≡ some o
        → IsSound (delete_owned key id create fresh o c)
    IsSound-delete_owned key o e =
        let o' = record o { session_ids = discard id o.session_ids } in
        let d = with_owner key o' c in
        let sound = IsSound-forget_unowned id d (
          IsSound-with_owner key o' c
            (Refers-discard key id o c.sessions (Refers-of key o c e h.linked)) h) in
        elim (Bool-cases (str_eq o.active_session_id id)) [
          | inl q ↦ rw q (
              IsSound-replace_active key create fresh o' (forget_unowned id d)
                (rw (owners-forget_unowned id d) (get-put_same key o' c.owners)) sound)
          | inr q ↦ rw q sound
        ]

pub IsSound-close_session :
    (owner id : String) (c : ConversationStore) → IsSound c → IsSound (close_session owner id c).0
unfolding close_session
IsSound-close_session owner id c h = elim (Option-cases (get (canonical_owner_id owner) c.owners)) [
  | inl e ↦ rw (close_session, e) h
  | inr (o, e) ↦ elim (Bool-cases (elem id o.session_ids)) [
    | inr m ↦ rw (close_session, e, m) h
    | inl m ↦
        rw (close_session, e, m)
          (IsSound-changed id (λ s. record s { closed = true }) c (λ s g. ground (arith, g)) h)
  ]
]
