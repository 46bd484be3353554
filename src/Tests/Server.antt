-- ===== src/Tests/Server.antt =====
-- The drain before a restart, the idempotency store and a session's turns, at concrete inputs.
use robotsix_chat.Base.{
  ℕ, ◌+◌, ◌≤◌, ◌<◌, String, false, ◌&&◌, none, some, List, [], ◌∷◌, ◌++◌, ◌≡◌, refl, ◌⊎◌, length,
  drop, ltb, ◌==◌, if◌then◌else◌, str_eq, arith, bit,
}
use robotsix_chat.Base.Dict.{get}
use robotsix_chat.Subsessions.Model.{pos}
use robotsix_chat.Drain.{
  DrainState, Round, drained, expired, wait_for_drain, deferred_restart_pending,
}
use robotsix_chat.Drain.Waiting.{
  Drains, RestartOp, all_scheduled, all_ended, final, wait_ends, restarts_balance,
}
use robotsix_chat.Chat.Idempotency.{MessageIdempotencyStore, get_reply, mark_completed}
use robotsix_chat.Chat.Idempotency.Capped.{IsCapped, completed_replies, oldest_evicted}
use robotsix_chat.Chat.Conversation.{
  Session, append_turn, first_replayed, trim_session, has_new_input_since_trim,
}
use robotsix_chat.Chat.Conversation.Turns.{IsAligned, replayed, turn_recorded, session_trimmed}

abbrev turns : ℕ → DrainState
turns n = record {
  probes = ("chat", some (pos n)) ∷ ("broken", none) ∷ [];
  deferred_task = none;
  tracked_turns = pos 0;
}

-- Two turns, then one, then none.
abbrev rounds : List Round
rounds =
    record { seen = turns 2; clock = 10 }
    ∷ record { seen = turns 1; clock = 12 }
    ∷ record { seen = turns 0; clock = 14 }
    ∷ []

wait_ends_example :
    ((wait_for_drain 0 10 4 rounds ≡ drained) ⊎ (wait_for_drain 0 10 4 rounds ≡ expired))
    × (wait_for_drain 0 10 4 rounds ≡ drained → Drains 0 (10 + 4) rounds)
    × (Drains 0 (10 + 4) rounds → wait_for_drain 0 10 4 rounds ≡ drained)
wait_ends_example =
    wait_ends 0 2 10 4 rounds (omega arith) (omega arith, (omega arith, (omega arith, record {})))
      (omega arith)

abbrev restart_ops : List RestartOp
restart_ops =
    RestartOp.schedules ∷ RestartOp.schedules ∷ RestartOp.finishes ∷ RestartOp.schedules ∷ []

restarts_balance_example :
    all_scheduled restart_ops (turns 1) + bit (deferred_restart_pending (turns 1))
    ≡ all_ended restart_ops (turns 1) + bit (deferred_restart_pending (final restart_ops (turns 1)))
restarts_balance_example = restarts_balance restart_ops (turns 1)

abbrev replies : MessageIdempotencyStore
replies = record { max_per_session = 2; store = ("s1", ("m1", "one") ∷ ("m2", "two") ∷ []) ∷ [] }

replies-IsCapped : IsCapped replies
unfolding get
replies-IsCapped session = ground arith

completed_replies_example :
    (get_reply "s1" "m3" (mark_completed "s1" "m3" "three" replies) ≡ some "three")
    × ((other id : String)
        → str_eq "s1" other ≡ false
        → get_reply other id (mark_completed "s1" "m3" "three" replies)
          ≡ get_reply other id replies)
    × IsCapped (mark_completed "s1" "m3" "three" replies)
completed_replies_example =
    completed_replies "s1" "m3" "three" replies (omega arith) replies-IsCapped

oldest_evicted_example :
    get_reply "s1" "m1"
      (mark_completed "s1" "m3" "three" (mark_completed "s1" "m1" "again" replies))
    ≡ none
unfolding get
oldest_evicted_example =
    oldest_evicted "s1" "m1" "m3" "one" "again" "three" (("m2", "two") ∷ []) replies refl refl refl
      refl refl

abbrev session : Session
session = record {
  session_id = "s1";
  title = "talk";
  wall_last_active = 5;
  turns = ("one", "1") ∷ ("two", "2") ∷ [];
  actions = [] ∷ ("look up" ∷ []) ∷ [];
  turn_count = 2;
  closed = false;
  compacted_summary = some "one was said";
  compacted_turn_index = 1;
  model_level = none;
  compacted_into = none;
  trimmed_turn_index = 0;
  last_trim_turn_count = 0;
}

session-IsAligned : IsAligned 2 session
session-IsAligned = record {
  same_length = refl;
  compacted_le = omega arith;
  trimmed_le = omega arith;
  capped = omega arith;
}

turn_recorded_example :
    let s' = append_turn 2 ("three", "3") [] session in
    IsAligned 2 s'
    × (replayed s' ≡ (
        if ltb 2 (length (session.turns ++ ("three", "3") ∷ [])) && (first_replayed session == 0)
        then drop 1 (replayed session ++ ("three", "3") ∷ [])
        else replayed session ++ ("three", "3") ∷ []))
turn_recorded_example = turn_recorded 2 ("three", "3") [] session (omega arith) session-IsAligned

session_trimmed_example :
    let s' = trim_session 9 2 1 session in
    IsAligned 2 s'
    × (session.trimmed_turn_index ≤ s'.trimmed_turn_index)
    × ((s'.trimmed_turn_index ≡ session.trimmed_turn_index)
        ⊎ (s'.trimmed_turn_index + 1 ≤ length session.turns))
    × (has_new_input_since_trim s' ≡ false)
    × ((s'.compacted_turn_index ≤ s'.trimmed_turn_index → s'.compacted_summary ≡ none)
        × (s'.trimmed_turn_index < s'.compacted_turn_index
            → s'.compacted_summary ≡ session.compacted_summary))
session_trimmed_example = session_trimmed 2 9 2 1 session session-IsAligned
