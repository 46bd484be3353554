-- ===== src/Chat/Sessions/Sound/Operations.antt =====
-- The operations that open sessions and record turns keep the invariant of ConversationStore
-- (src/robotsix_chat/chat/conversation.py).
use robotsix_chat.Base.{
  ℕ, ◌≤◌, String, true, Option, none, some, List, [], str_eq, eq_iff, elem, elem-set_add, set_add,
  ◌≡◌, refl, ◌∙◌, arith, Bool-cases, Option-cases, inl, inr,
}
use robotsix_chat.Base.Dict.{Dict, get, put, keys}
use robotsix_chat.Base.Dict.Laws.{get-put_same, elem-keys}
use robotsix_chat.Chat.Conversation.{Session, append_turn}
use robotsix_chat.Chat.Conversation.Turns.{turn_recorded}
use robotsix_chat.Chat.Sessions.{
  OwnerState, ConversationStore, canonical_owner_id, new_session, evict_overflow,
}
use robotsix_chat.Chat.Sessions.Turns.{
  with_session, to_end, touched, begin, titled, recorded, activate, link, record_turn,
  record_for_owner, ensure_session, record_for_session,
}
use robotsix_chat.Chat.Sessions.Sound.{
  IsGood, Refers, IsLinked, IsSound, IsLinked-with_session, IsLinked-to_end, IsSound-evict_overflow,
  IsSound-persist, IsSound-with_session, IsSound-to_end, IsSound-with_owner, IsGood-of, Refers-of,
  elem-move_to_end,
}

pub IsGood-new_session : (max now : ℕ) (id : String) → IsGood max id (new_session id now)
IsGood-new_session max now id = (
  refl,
  record {
    same_length = refl;
    compacted_le = omega arith;
    trimmed_le = omega arith;
    capped = omega arith;
  },
)

-- A session, or a new one where there is none.
IsGood-touched :
    (id : String) (c : ConversationStore)
    → IsLinked c
    → IsGood c.max_history_turns id (touched id c.now (get id c.sessions))
IsGood-touched id c h = elim (Option-cases (get id c.sessions)) [
  | inl e ↦ rw e (IsGood-new_session c.max_history_turns c.now id)
  | inr (s, e) ↦ let g = IsGood-of id s c e h in rw e (ground (arith, g))
]

pub IsSound-begin : (id : String) (c : ConversationStore) → IsSound c → IsSound (begin id c).0
unfolding begin
IsSound-begin id c h =
    let s = touched id c.now (get id c.sessions) in
    IsSound-evict_overflow (to_end id (with_session id s c)) (
      IsLinked-to_end id (with_session id s c)
        (IsLinked-with_session id s c (IsGood-touched id c h.linked) h.linked))

-- The clock of a session does not matter.
pub IsGood-timed :
    (max now : ℕ) (id : String) (s : Session)
    → IsGood max id s
    → IsGood max id (record s { wall_last_active = now })
IsGood-timed max now id s g = ground (arith, g)

session_id-append_turn :
    (max : ℕ) (turn : String × String) (actions : List String) (s : Session)
    → (append_turn max turn actions s).session_id ≡ s.session_id
unfolding append_turn
session_id-append_turn max turn actions s = refl

IsGood-recorded :
    (max now : ℕ) (id message reply : String) (actions : List String) (s : Session)
    → 1 ≤ max
    → IsGood max id s
    → IsGood max id (recorded max now message reply actions s)
IsGood-recorded max now id message reply actions s m g =
    let named : IsGood max id (titled message s) = ground (arith, g) in
    IsGood-timed max now id (append_turn max (message, reply) actions (titled message s)) (
      session_id-append_turn max (message, reply) actions (titled message s) ∙ named.0,
      (turn_recorded max (message, reply) actions (titled message s) m named.1).0,
    )

-- A session that is there joins an owner's.
pub Refers-set_add :
    (owner id active : String) (o : OwnerState) (sessions : Dict Session)
    → elem id (keys sessions) ≡ true
    → Refers sessions owner o
    → Refers sessions owner
        (record { active_session_id = active; session_ids = set_add id o.session_ids })
Refers-set_add owner id active o sessions m r j k =
    ground (arith, elem-set_add j id o.session_ids, eq_iff j id, r j, k, m)

IsSound-activate :
    (owner id : String) (c : ConversationStore)
    → elem id (keys c.sessions) ≡ true
    → IsSound c
    → IsSound (record c { owners = activate owner (get owner c.owners) id c.owners })
IsSound-activate owner id c m h = elim (Option-cases (get owner c.owners)) [
  | inl e ↦ rw e h
  | inr (o, e) ↦ rw e (
      IsSound-with_owner owner
        (record { active_session_id = id; session_ids = set_add id o.session_ids }) c
        (Refers-set_add owner id id o c.sessions m (Refers-of owner o c e h.linked)) h)
]

IsSound-link :
    (owner : Option String) (id : String) (c : ConversationStore)
    → elem id (keys c.sessions) ≡ true
    → IsSound c
    → IsSound (link owner id c)
IsSound-link none id c m h = h
IsSound-link (some owner) id c m h = elim (Bool-cases (str_eq owner "")) [
  | inl e ↦ rw e h
  | inr e ↦ rw e (IsSound-activate (canonical_owner_id owner) id c m h)
]

pub is_there :
    (id : String) (s : Session) (c : ConversationStore)
    → elem id (keys (put id s c.sessions)) ≡ true
is_there id s c = elem-keys id s (put id s c.sessions) (get-put_same id s c.sessions)

pub IsSound-record_turn :
    (id : String) (owner : Option String) (message reply : String) (actions : List String)
    (c : ConversationStore)
    → 1 ≤ c.max_history_turns
    → IsSound c
    → IsSound (record_turn id owner message reply actions c)
unfolding record_turn
IsSound-record_turn id owner message reply actions c m h = elim (Option-cases (get id c.sessions)) [
  | inl e ↦ rw (record_turn, e) h
  | inr (s, e) ↦
      let t = recorded c.max_history_turns c.now message reply actions s in
      let moved = to_end id (with_session id t c) in
      rw (record_turn, e)
        (IsSound-persist (link owner id moved) (
          IsSound-link owner id moved
            (elem-move_to_end id (put id t c.sessions) id (is_there id t c))
            (IsSound-to_end id (with_session id t c) (
              IsSound-with_session id t s c e
                (IsGood-recorded c.max_history_turns c.now id message reply actions s m
                  (IsGood-of id s c e h.linked))
                h))))
]

pub IsSound-record_for_owner :
    (owner message reply : String) (c : ConversationStore)
    → 1 ≤ c.max_history_turns
    → IsSound c
    → IsSound (record_for_owner owner message reply c)
unfolding record_for_owner
IsSound-record_for_owner owner message reply c m h =
    elim (Option-cases (get (canonical_owner_id owner) c.owners)) [
      | inl e ↦ rw (record_for_owner, e) h
      | inr (o, e) ↦
          rw (record_for_owner, e)
            (IsSound-record_turn o.active_session_id (some (canonical_owner_id owner)) message reply
              [] c m h)
    ]

IsSound-ensure_session :
    (id : String) (c : ConversationStore)
    → IsSound c
    → IsSound (ensure_session id c)
      × ((ensure_session id c).max_history_turns ≡ c.max_history_turns)
unfolding evict_overflow
IsSound-ensure_session id c h = elim (Option-cases (get id c.sessions)) [
  | inl e ↦
      let made = with_session id (new_session id c.now) c in
      rw (ensure_session, e)
        (
          IsSound-evict_overflow (to_end id made) (
              IsLinked-to_end id made (
                IsLinked-with_session id (new_session id c.now) c
                  (IsGood-new_session c.max_history_turns c.now id) h.linked)),
          refl,
        )
  | inr (s, e) ↦ rw (ensure_session, e) (h, refl)
]

pub IsSound-record_for_session :
    (id message reply : String) (c : ConversationStore)
    → 1 ≤ c.max_history_turns
    → IsSound c
    → IsSound (record_for_session id message reply c)
unfolding record_for_session
IsSound-record_for_session id message reply c m h =
    let (sound, same) = IsSound-ensure_session id c h in
    IsSound-record_turn id none message reply [] (ensure_session id c) (omega (arith, same, m))
      sound
