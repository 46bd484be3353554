-- ===== src/Subsessions/Registry/Messages.antt =====
-- The transcript, the turn history and the inbox of a record
-- (src/robotsix_chat/subsessions/registry.py).
pub mod Open
pub mod Delivery
use robotsix_chat.Base.{
  ℕ, String, Bool, true, false, Option, none, some, List, [], ◌∷◌, ◌++◌, length, last_n, ltb, ◌==◌,
  is_empty, if◌then◌else◌,
}
use robotsix_chat.Base.Dict.{Dict, get, put, remove, get_or}
use robotsix_chat.Subsessions.Model.{
  SubsessionInfo, TranscriptEntry, InboxMessage, is_active, active_status, subsession_message,
}
use robotsix_chat.Subsessions.Registry.State.{Registry, publish, persist}

abbrev pub max_turn_history_entries : ℕ
max_turn_history_entries = 20

-- `if len(xs) > n: del xs[:-n]`. With `n = 0` the slice `[:-0]` is empty and nothing is deleted.
unfoldable pub clip {ℓ} : {A : Type ℓ} → ℕ → List A → List A
clip n xs = if ltb n (length xs) then (if n == 0 then xs else last_n n xs) else xs

unfoldable pub append_transcript : String → String → String → Registry → Registry
unfolding publish persist
append_transcript sub_id role text r = elim (get sub_id r.subs) [
  | none ↦ r
  | some i ↦
      let entry : TranscriptEntry = record { role = role; text = text; timestamp = r.now } in
      let i' = record i {
        transcript = clip r.transcript_max_entries (i.transcript ++ entry ∷ []);
        last_activity_at = r.now;
      } in
      persist (
        publish i.owner_session_id (subsession_message i.id role text r.now)
          (record r { subs = put sub_id i' r.subs }))
]

unfoldable pub append_turn_history : String → String → String → Registry → Registry
unfolding persist
append_turn_history sub_id turn_input reply r = elim (get sub_id r.subs) [
  | none ↦ r
  | some i ↦
      let i' = record i {
        turn_history = clip max_turn_history_entries (i.turn_history ++ (turn_input, reply) ∷ []);
      } in
      persist (record r { subs = put sub_id i' r.subs; in_flight = remove sub_id r.in_flight })
]

-- `if event is not None: event.set()`, and `event.clear()`.
abbrev pub signal : Bool → String → Dict Bool → Dict Bool
signal value sub_id events = elim (get sub_id events) [
  | none ↦ events
  | some _ ↦ put sub_id value events
]

unfoldable pub enqueue_active : String → String → String → Registry → Registry × Bool
unfolding append_transcript
enqueue_active sub_id role text r = elim (get sub_id r.inboxes) [
  | none ↦ (r, false)
  | some inbox ↦
      let message : InboxMessage = record { role = role; text = text; timestamp = r.now } in
      let queued = record r { inboxes = put sub_id (inbox ++ message ∷ []) r.inboxes } in
      let shown = append_transcript sub_id role text queued in
      (record shown { wake_events = signal true sub_id shown.wake_events }, true)
]

unfoldable pub enqueue_message : String → String → String → Registry → Registry × Bool
unfolding enqueue_active
enqueue_message sub_id role text r = elim (get sub_id r.subs) [
  | none ↦ (r, false)
  | some i ↦ if is_active i then enqueue_active sub_id role text r else (r, false)
]

drain : String → List InboxMessage → Registry → Registry × List InboxMessage
unfolding persist
drain sub_id [] r = (r, [])
drain sub_id (m ∷ ms) r = (
  persist (record r {
    inboxes = put sub_id [] r.inboxes;
    in_flight = put sub_id (get_or sub_id [] r.in_flight ++ m ∷ ms) r.in_flight;
  }),
  m ∷ ms,
)

unfoldable pub drain_inbox : String → Registry → Registry × List InboxMessage
unfolding drain
drain_inbox sub_id r =
    drain sub_id (get_or sub_id [] r.inboxes)
      (record r { wake_events = signal false sub_id r.wake_events })

unfoldable pub restore_inbox : String → List InboxMessage → Registry → Registry
unfolding persist
restore_inbox sub_id messages r = if is_empty messages then r else elim (get sub_id r.inboxes) [
  | none ↦ r
  | some inbox ↦ persist (record r {
    inboxes = put sub_id (inbox ++ messages) r.inboxes;
    wake_events = signal true sub_id r.wake_events;
  })
]

unfoldable pub restore_transcript : String → List TranscriptEntry → Registry → Registry
unfolding persist
restore_transcript sub_id entries r = if is_empty entries then r else elim (get sub_id r.subs) [
  | none ↦ r
  | some i ↦
      if is_empty i.transcript
      then persist (record r { subs = put sub_id (record i { transcript = entries }) r.subs })
      else r
]
