-- ===== src/Tests/Records.antt =====
-- What happens to the records of a registry, at concrete inputs.
use robotsix_chat.Base.{
  String, true, false, Option, some, List, [], ◌∷◌, ◌++◌, ◌≡◌, ◌≤◌, refl, map, str_eq,
}
use robotsix_chat.Base.Dict.{get, values, count_values}
use robotsix_chat.Subsessions.Model.{
  SubsessionInfo, str, int, pos, Checkpoint, is_active, active_status,
}
use robotsix_chat.Subsessions.Checkpoint.{
  preserved, cp_get, any_arr, or_key, checkpoint_ticket_id, checkpoint_auto_stop_no_change_runs,
  checkpoint_no_change_pause_count,
}
use robotsix_chat.Subsessions.Checkpoint.Preserve.{
  or_else, periodic_key, periodic_keys_kept, event_ticket_kept,
}
use robotsix_chat.Subsessions.Registry.State.{Registry, persist, stored_entries}
use robotsix_chat.Subsessions.Registry.Create.{dedup_error, create, new_info}
use robotsix_chat.Subsessions.Registry.Create.Dedup.{second_refused}
use robotsix_chat.Subsessions.Registry.Retention.{prune_terminal, max_terminal_entries}
use robotsix_chat.Subsessions.Registry.Retention.Bounded.{is_terminal, pruned}
use robotsix_chat.Subsessions.Registry.Messages.Open.{Open, inbox_of, flight_of}
use robotsix_chat.Subsessions.Registry.Messages.Delivery.{
  InboxOp, enqueued, drained, acted, run as run_messages, begin, said, sent, messages_accounted,
}
use robotsix_chat.Subsessions.Registry.Closing.Once.{EndCall}
use robotsix_chat.Subsessions.Registry.Lifecycle.Evolution.{Change}
use robotsix_chat.Subsessions.Registry.Lifecycle.Runs.{RecordOp, run}
use robotsix_chat.Subsessions.Registry.Lifecycle.History.{records_evolve}
use robotsix_chat.Tests.Sample.{monitor, dependent, busy, busy-Keyed, busy-KeysMatch, request}

abbrev message_ops : List InboxOp
message_ops = enqueued "user" "one" ∷ drained ∷ enqueued "user" "two" ∷ acted "one" "done" ∷ []

abbrev synced : Registry
unfolding persist
synced = persist busy

synced-Open : Open "a" synced
unfolding persist get active_status stored_entries
synced-Open = record {
  info = monitor;
  inbox = [];
  registered = refl;
  active = refl;
  has_inbox = refl;
  on_disk = λ w. refl;
}

messages_accounted_example :
    let t = run_messages "a" message_ops (begin synced) in
    (map said t.accepted ≡ sent message_ops)
    × (t.returned ++ inbox_of "a" t.registry ≡ inbox_of "a" synced ++ t.accepted)
    × (t.released ++ flight_of "a" t.registry ++ inbox_of "a" t.registry
        ≡ (flight_of "a" synced ++ inbox_of "a" synced) ++ t.accepted)
    × (t.registry.writable ≡ true → t.registry.disk ≡ stored_entries t.registry)
messages_accounted_example = messages_accounted "a" message_ops synced synced-Open

second_refused_example :
    let r' = (create "x" request busy).0 in create "y" request r' ≡ (r', dedup_error "x")
unfolding create get values active_status
second_refused_example =
    second_refused "x" "y" "T-2" request request busy (new_info "x" request 10) busy-Keyed refl refl
      refl refl refl

pruned_example :
    (count_values is_terminal (prune_terminal busy).subs ≤ max_terminal_entries)
    × ((id : String) (i : SubsessionInfo)
        → is_active i ≡ true
        → get id busy.subs ≡ some i
        → get id (prune_terminal busy).subs ≡ some i)
    × ((id : String) (i : SubsessionInfo)
        → get id (prune_terminal busy).subs ≡ some i
        → get id busy.subs ≡ some i)
pruned_example = pruned busy busy-Keyed

abbrev record_ops : List (String × RecordOp)
record_ops =
    ("a", RecordOp.claims 1)
    ∷ ("b", RecordOp.receives "user" "hello")
    ∷ ("a", RecordOp.ends (EndCall.fails "crash"))
    ∷ []

records_evolve_example :
    (j : SubsessionInfo) × (get "a" (run [] record_ops busy).subs ≡ some j) × Change monitor j
unfolding get
records_evolve_example =
    records_evolve [] record_ops busy (record {}) busy-KeysMatch "a" monitor refl

abbrev limited : SubsessionInfo
limited = record monitor { checkpoint = some (("auto_stop_no_change_runs", int (pos 9)) ∷ []) }

abbrev replacement : Option Checkpoint
replacement = some (("note", str "seen") ∷ [])

periodic_keys_kept_example :
    (checkpoint_auto_stop_no_change_runs (preserved limited replacement)
      ≡ or_else
          (checkpoint_auto_stop_no_change_runs replacement)
          (checkpoint_auto_stop_no_change_runs limited.checkpoint))
    × (checkpoint_no_change_pause_count (preserved limited replacement)
        ≡ or_else
            (checkpoint_no_change_pause_count replacement)
            (checkpoint_no_change_pause_count limited.checkpoint))
    × (any_arr (cp_get (preserved limited replacement) "recent_progress_flags")
        ≡ or_else
            (any_arr (cp_get replacement "recent_progress_flags"))
            (any_arr (cp_get limited.checkpoint "recent_progress_flags")))
    × ((k : String)
        → periodic_key k ≡ false
        → cp_get (preserved limited replacement) k ≡ cp_get replacement k)
periodic_keys_kept_example = periodic_keys_kept limited replacement refl

event_ticket_kept_example :
    (checkpoint_ticket_id (preserved dependent replacement)
      ≡ or_else
          (checkpoint_ticket_id replacement)
          (or_key (checkpoint_ticket_id dependent.checkpoint) dependent.dedup_key))
    × ((k : String)
        → str_eq "ticket_id" k ≡ false
        → cp_get (preserved dependent replacement) k ≡ cp_get replacement k)
event_ticket_kept_example = event_ticket_kept dependent replacement refl
