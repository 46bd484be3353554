-- ===== src/Chat/Sessions/Sound/Kept.antt =====
-- The invariant of ConversationStore (src/robotsix_chat/chat/conversation.py) over any operations.
use robotsix_chat.Base.{
  ℕ, String, Bool, false, Option, none, some, List, [], ◌∷◌, str_eq, ◌≡◌, refl, ◌∙◌, arith,
  Bool-cases, Option-cases, inl, inr, if◌then◌else◌, leb,
}
use robotsix_chat.Base.Dict.{get}
use robotsix_chat.Chat.Conversation
use robotsix_chat.Chat.Conversation.{Session}
use robotsix_chat.Chat.Conversation.Turns.{session_trimmed}
use robotsix_chat.Chat.Sessions.{ConversationStore}
use robotsix_chat.Chat.Sessions.Turns.{
  changed, begin, record_turn, record_for_owner, record_for_session, set_title, set_model_level,
  reopen_session, is_session_closed,
}
use robotsix_chat.Chat.Sessions.Owners.{
  list_sessions, register_session, create_session, delete_session, close_session,
}
use robotsix_chat.Chat.Sessions.Compaction.{
  compacted, compact_session, backfill_compacted_summary, trim, has_summary,
}
use robotsix_chat.Chat.Sessions.Sound.{IsGood, IsSound, IsSound-changed}
use robotsix_chat.Chat.Sessions.Sound.Operations.{
  IsSound-begin, IsSound-record_turn, IsSound-record_for_owner, IsSound-record_for_session,
}
use robotsix_chat.Chat.Sessions.Sound.Owned.{
  IsSound-register_session, IsSound-create_session, IsSound-list_sessions,
}
use robotsix_chat.Chat.Sessions.Sound.Deleted.{IsSound-delete_session, IsSound-close_session}

-- The operations that change the store, with the id that the session factory would give.
pub data StoreOp : Type 0 where
  begins : String → StoreOp
  records : String → Option String → String → String → List String → StoreOp
  records_for_owner : String → String → String → StoreOp
  records_for_session : String → String → String → StoreOp
  sets_title : String → String → StoreOp
  sets_level : String → ℕ → StoreOp
  lists : String → Bool → String → StoreOp
  registers : String → String → Option String → Bool → StoreOp
  creates : String → String → StoreOp
  deletes : String → String → Bool → String → StoreOp
  closes : String → String → StoreOp
  reopens : String → StoreOp
  compacts : String → String → ℕ → Option ℕ → StoreOp
  backfills : String → String → StoreOp
  trims : String → ℕ → ℕ → StoreOp

unfoldable pub apply : StoreOp → ConversationStore → ConversationStore
apply (begins id) c = (begin id c).0
apply (records id owner message reply actions) c = record_turn id owner message reply actions c
apply (records_for_owner owner message reply) c = record_for_owner owner message reply c
apply (records_for_session id message reply) c = record_for_session id message reply c
apply (sets_title id title) c = (set_title id title c).0
apply (sets_level id level) c = (set_model_level id level c).0
apply (lists owner create_default fresh) c = (list_sessions owner create_default fresh c).0
apply (registers owner id title make_active) c = register_session owner id title make_active c
apply (creates owner fresh) c = (create_session owner fresh c).0
apply (deletes owner id create fresh) c = (delete_session owner id create fresh c).0
apply (closes owner id) c = (close_session owner id c).0
apply (reopens id) c = (reopen_session id c).0
apply (compacts id summary keep cover) c = compact_session id summary keep cover c
apply (backfills id summary) c = (backfill_compacted_summary id summary c).0
apply (trims id index keep) c = (trim id index keep c).0

-- Each operation at a reading of the clock.
unfoldable pub run : List (ℕ × StoreOp) → ConversationStore → ConversationStore
unfolding apply
run [] c = c
run ((now, op) ∷ ops) c = run ops (apply op (record c { now = now }))

IsGood-compacted :
    (max now keep : ℕ) (cover : Option ℕ) (id summary : String) (s : Session)
    → IsGood max id s
    → IsGood max id (compacted now summary keep cover s)
IsGood-compacted max now keep none id summary s g = (
  g.0,
  record {
    same_length = g.1.same_length;
    compacted_le = ground (arith, g.1.compacted_le);
    trimmed_le = g.1.trimmed_le;
    capped = g.1.capped;
  },
)
IsGood-compacted max now keep (some n) id summary s g = (
  g.0,
  record {
    same_length = g.1.same_length;
    compacted_le = ground (arith, g.1.compacted_le);
    trimmed_le = g.1.trimmed_le;
    capped = g.1.capped;
  },
)

session_id-trim_session :
    (now index keep : ℕ) (s : Session)
    → (Conversation.trim_session now index keep s).session_id ≡ s.session_id
unfolding Conversation.trim_session
session_id-trim_session now index keep s = refl

IsSound-compact_session :
    (id summary : String) (keep : ℕ) (cover : Option ℕ) (c : ConversationStore)
    → IsSound c
    → IsSound (compact_session id summary keep cover c)
unfolding compact_session
IsSound-compact_session id summary keep cover c h = elim (Bool-cases (str_eq summary "")) [
  | inl e ↦ rw (compact_session, e) h
  | inr e ↦
      rw (compact_session, e)
        (IsSound-changed id (compacted c.now summary keep cover) c
          (λ s g. IsGood-compacted c.max_history_turns c.now keep cover id summary s g) h)
]

IsSound-backfill :
    (id summary : String) (c : ConversationStore)
    → IsSound c
    → IsSound (backfill_compacted_summary id summary c).0
unfolding backfill_compacted_summary
IsSound-backfill id summary c h =
    let written =
      IsSound-changed id (λ s. record s { compacted_summary = some summary }) c
        (λ s g. ground (arith, g)) h in
    elim (Option-cases (get id c.sessions)) [
      | inl e ↦ rw (backfill_compacted_summary, e) h
      | inr (s, e) ↦ rw (backfill_compacted_summary, e) (go s written)
    ]
  where
    go :
        (s : Session)
        → IsSound (changed id (λ (t : Session). record t { compacted_summary = some summary }) c).0
        → IsSound
            (if str_eq summary ""
              then (c, false)
              else if has_summary s.compacted_summary
              then (c, false)
              else if leb s.compacted_turn_index s.trimmed_turn_index
              then (c, false)
              else changed id (λ (t : Session). record t { compacted_summary = some summary }) c).0
    go s written = elim (Bool-cases (str_eq summary "")) [
      | inl e ↦ rw e h
      | inr e ↦ elim (Bool-cases (has_summary s.compacted_summary)) [
        | inl f ↦ rw (e, f) h
        | inr f ↦ elim (Bool-cases (leb s.compacted_turn_index s.trimmed_turn_index)) [
          | inl g ↦ rw (e, f, g) h
          | inr g ↦ rw (e, f, g) written
        ]
      ]
    ]

IsSound-trim :
    (id : String) (index keep : ℕ) (c : ConversationStore)
    → IsSound c
    → IsSound (trim id index keep c).0
unfolding trim
IsSound-trim id index keep c h = elim (Option-cases (get id c.sessions)) [
  | inl e ↦ rw (trim, e) h
  | inr (s, e) ↦
      let sound =
        IsSound-changed id (Conversation.trim_session c.now index keep) c
          (λ t g. (
            session_id-trim_session c.now index keep t ∙ g.0,
            (session_trimmed c.max_history_turns c.now index keep t g.1).0,
          ))
          h in
      rw (trim, e) sound
]

IsSound-reopen_session :
    (id : String) (c : ConversationStore) → IsSound c → IsSound (reopen_session id c).0
unfolding reopen_session
IsSound-reopen_session id c h = elim (Bool-cases (is_session_closed id c)) [
  | inl e ↦
      rw (reopen_session, e)
        (IsSound-changed id (λ s. record s { closed = false }) c (λ s g. ground (arith, g)) h)
  | inr e ↦ rw (reopen_session, e) h
]

apply-IsSound : (op : StoreOp) (c : ConversationStore) → IsSound c → IsSound (apply op c)
unfolding apply set_title set_model_level
apply-IsSound (begins id) c h = IsSound-begin id c h
apply-IsSound (records id owner message reply actions) c h =
    IsSound-record_turn id owner message reply actions c h.linked.positive h
apply-IsSound (records_for_owner owner message reply) c h =
    IsSound-record_for_owner owner message reply c h.linked.positive h
apply-IsSound (records_for_session id message reply) c h =
    IsSound-record_for_session id message reply c h.linked.positive h
apply-IsSound (sets_title id title) c h =
    IsSound-changed id (λ s. record s { title = title }) c (λ s g. ground (arith, g)) h
apply-IsSound (sets_level id level) c h =
    IsSound-changed id (λ s. record s { model_level = some level }) c (λ s g. ground (arith, g)) h
apply-IsSound (lists owner create fresh) c h = IsSound-list_sessions owner create fresh c h
apply-IsSound (registers owner id title make_active) c h =
    IsSound-register_session owner id title make_active c h
apply-IsSound (creates owner fresh) c h = IsSound-create_session owner fresh c h
apply-IsSound (deletes owner id create fresh) c h = IsSound-delete_session owner id create fresh c h
apply-IsSound (closes owner id) c h = IsSound-close_session owner id c h
apply-IsSound (reopens id) c h = IsSound-reopen_session id c h
apply-IsSound (compacts id summary keep cover) c h =
    IsSound-compact_session id summary keep cover c h
apply-IsSound (backfills id summary) c h = IsSound-backfill id summary c h
apply-IsSound (trims id index keep) c h = IsSound-trim id index keep c h

-- Any operations, each at a reading of the clock, keep all this: there are at most
-- `max_conversations` sessions, every session of an owner is there, each session stands under its id,
-- has one list of actions for each turn and at most `max_history_turns` turns, and its indices lie
-- within them. That cap is positive.
pub store-IsSound :
    (ops : List (ℕ × StoreOp)) (c : ConversationStore) → IsSound c → IsSound (run ops c)
unfolding run
store-IsSound [] c h = h
store-IsSound ((now, op) ∷ ops) c h =
    let timed : IsSound (record c { now = now }) = record {
      linked = record {
        good = h.linked.good;
        refers = h.linked.refers;
        positive = h.linked.positive;
      };
      bounded = h.bounded;
    } in
    store-IsSound ops (apply op (record c { now = now }))
      (apply-IsSound op (record c { now = now }) timed)
