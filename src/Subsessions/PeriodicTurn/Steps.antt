-- ===== src/Subsessions/PeriodicTurn/Steps.antt =====
-- The steps of `_run_periodic_turn` in src/robotsix_chat/subsessions/worker_periodic.py, in the order of the
-- code. `info` is the registry's own record, so each step reads it there.
use robotsix_chat.Base.{
  ℕ, suc, ◌+◌, ◌-◌, String, Bool, true, false, not, ◌&&◌, ◌||◌, Option, none, some, [], ◌∷◌, ◌++◌,
  leb, ltb, any_if, str_eq, if◌then◌else◌,
}
use robotsix_chat.Base.Dict.{get, put}
use robotsix_chat.Chat.Conversation.{smaller}
use robotsix_chat.Chat.SessionFile.{or_else}
use robotsix_chat.Subsessions.Model.{
  SubsessionInfo, SubsessionStatus, Value, bool, int, arr, ℤ, pos, Summary, run_limit,
  run_limit_again, pause_limit, no_change_pause, no_change_stop,
}
use robotsix_chat.Subsessions.Checkpoint.{or_empty, cp_get, text_value}
use robotsix_chat.Subsessions.Registry.State.{Registry}
use robotsix_chat.Subsessions.Registry.Create.{set_status}
use robotsix_chat.Subsessions.Registry.Closing.{mark_closed}
use robotsix_chat.Subsessions.Registry.Lifecycle.{update_checkpoint, mark_paused}
use robotsix_chat.Subsessions.Schedule.{anchored_next_run_at, interval_or_60}
use robotsix_chat.Subsessions.Replies.{is_no_change, is_queued, is_duplicate_reply}
use robotsix_chat.Subsessions.PeriodicTurn.{
  TurnOutside, Notice, result, needs_review, auto_closed, auto_paused, auto_stopped, followup,
  TurnEnv, Next, stopped, raised, waits_queued, waits_paused, sleeps, Turn, ends, on, ◌>>=◌, truthy,
  flags_of, flag_items, kept_flags, suc_int, at_least, exhausted_before, pauses_before, number_of,
  has_elapsed, stop_after, fire_time, has_text,
}

module _ (w : TurnOutside) (sub_id reply : String) (info : SubsessionInfo) where
  -- `info` after what was done so far.
  abbrev pub current : TurnEnv → SubsessionInfo
  current e = or_else (get sub_id e.registry.subs) info

  abbrev pub checkpoint_at : String → TurnEnv → Option Value
  checkpoint_at k e = cp_get (current e).checkpoint k

  -- An assignment to fields of `info`.
  abbrev pub assign : SubsessionInfo → TurnEnv → TurnEnv
  assign i e = record e { registry = record e.registry { subs = put sub_id i e.registry.subs } }

  -- `checkpoint[k] = v`, then `update_checkpoint`.
  abbrev pub note : String → Value → TurnEnv → TurnEnv
  note k v e = record e {
    registry =
        (update_checkpoint sub_id (some (put k v (or_empty (current e).checkpoint))) e.registry).0;
  }

  abbrev pub asleep : ℕ → Option ℕ → TurnEnv → TurnEnv
  asleep runs next_run_at e = record e {
    registry =
        set_status sub_id SubsessionStatus.sleeping (some runs) next_run_at (some reply) e.registry;
  }

  -- `registry.now() + (info.interval_seconds or 60.0)`
  abbrev pub relative_next : TurnEnv → ℕ
  relative_next e = e.registry.now + interval_or_60 (current e).interval_seconds

  abbrev pub notify : Notice → TurnEnv → TurnEnv
  notify n e = if w.has_event_sink then record e { notices = e.notices ++ n ∷ [] } else e

  abbrev pub deliver : String → TurnEnv → TurnEnv
  deliver reason e = record e { delivered = e.delivered ++ (sub_id, reason) ∷ [] }

  abbrev pub deliver_if : Option SubsessionInfo → String → TurnEnv → TurnEnv
  deliver_if none reason e = e
  deliver_if (some i) reason e = deliver reason e

  -- `mark_closed` by the system, and the delivery of its summary.
  abbrev pub close_as : Summary → String → TurnEnv → TurnEnv
  close_as summary reason e =
      let (r, closed) = mark_closed w.callbacks sub_id summary reason "system" e.registry in
      deliver_if closed reason (record e { registry = r })

  -- The branch of the queued sentinel.
  abbrev pub queued_turn : TurnEnv → TurnEnv × Next
  queued_turn e =
      let runs = suc (current e).runs in
      (
        notify (result sub_id runs reply) (asleep runs (some (relative_next e)) e),
        waits_queued (some reply) 0,
      )

  abbrev pub no_change : Bool
  no_change = is_no_change w.upper reply

  abbrev pub is_suppressed : Option String → Bool
  is_suppressed previous = no_change || is_duplicate_reply w.casefold reply previous

  abbrev pub counted : ℕ → ℕ
  counted consecutive = if no_change then suc consecutive else 0

  -- Progress clears the count of the pauses.
  abbrev pub clear_pauses : TurnEnv → TurnEnv
  clear_pauses e =
      if not no_change && truthy w (checkpoint_at "no_change_pause_count" e)
      then note "no_change_pause_count" (int (pos 0)) e
      else e

  -- The rolling window of the run budget.
  abbrev pub record_flag : Bool → TurnEnv → TurnEnv
  record_flag suppressed e =
      let i = current e in
      let window = w.settings.max_runs_progress_window in
      let flags = flags_of w (checkpoint_at "recent_progress_flags" e) ++ not suppressed ∷ [] in
      let flagged =
        assign
          (record i {
            checkpoint = some (
                put "recent_progress_flags" (arr (flag_items (kept_flags window flags)))
                  (or_empty i.checkpoint));
          })
          e in
      elim i.max_runs [ none ↦ e | some m ↦ if ltb 0 window then flagged else e ]

  -- The run is counted and the next one scheduled.
  abbrev pub count_run : Bool → TurnEnv → Turn TurnEnv
  count_run suppressed e =
      let i = current e in
      let scheduled =
        asleep (suc i.runs) (fire_time (anchored_next_run_at w.zones e.registry.now i)) e in
      elim i.interval_seconds [
        | none ↦ ends e raised
        | some n ↦
            on (
              if suppressed then scheduled else notify (result sub_id (suc i.runs) reply) scheduled)
      ]

  abbrev pub extended_to : ℕ → ℕ
  extended_to max =
      smaller (max + w.settings.max_runs_progress_extension) w.settings.periodic_max_total_runs

  abbrev pub may_extend : ℕ → ℕ → TurnEnv → Bool
  may_extend runs max e =
      leb max runs
      && ltb 0 w.settings.max_runs_progress_extension
      && any_if (λ (b : Bool). b) (flags_of w (checkpoint_at "recent_progress_flags" e))
      && ltb max (extended_to max)

  -- The extension of the run budget after recent progress.
  abbrev pub extend : ℕ → TurnEnv → TurnEnv
  extend runs e = elim (current e).max_runs [
    | none ↦ e
    | some max ↦
        if may_extend runs max e
        then note "recent_progress_flags" (arr (flag_items []))
            (assign (record (current e) { max_runs = some (extended_to max) }) e)
        else e
  ]

  abbrev pub ask_board : ℤ → TurnEnv → TurnEnv
  ask_board count e =
      if w.has_board then record e { notices = e.notices ++ followup sub_id count ∷ [] } else e

  -- The run budget is used up.
  abbrev pub exhausted : ℕ → TurnEnv → TurnEnv
  exhausted max e =
      let threshold = w.settings.max_runs_escalation_threshold in
      let count = suc_int (exhausted_before (checkpoint_at "max_runs_exhausted_count" e)) in
      if ltb 0 threshold && at_least threshold count
      then close_as (run_limit_again max count reply) "max_runs_escalated" (ask_board count e)
      else close_as (run_limit max reply) "max_runs" (note "max_runs_exhausted_count" (int count) e)

  abbrev pub limit_runs : ℕ → TurnEnv → Turn TurnEnv
  limit_runs runs e = elim (current e).max_runs [
    | none ↦ on e
    | some max ↦ elim (leb max runs) [ true ↦ ends (exhausted max e) stopped | false ↦ on e ]
  ]

  -- Whether `last_known_state` is this one.
  abbrev pub state_is : String → TurnEnv → Bool
  state_is state e = elim (text_value (checkpoint_at "last_known_state" e)) [
    | none ↦ false
    | some s ↦ str_eq (w.lower s) state
  ]

  -- A draft that waits for the operator.
  abbrev pub draft_wait : ℕ → ℕ → TurnEnv → Turn TurnEnv
  draft_wait runs consecutive e =
      elim (state_is "draft" e && truthy w (checkpoint_at "auto_drive_comment_posted" e)) [
        | false ↦ on e
        | true ↦
            ends (asleep runs (some (relative_next e)) e) (waits_queued (some reply) consecutive)
      ]

  -- The decision is delivered once.
  abbrev pub surface : TurnEnv → TurnEnv
  surface e =
      if truthy w (checkpoint_at "operator_decision_surfaced" e)
      then e
      else note "operator_decision_surfaced" (bool true) (deliver "needs_operator" e)

  -- The switch to the wait for the approval.
  abbrev pub await_approval : TurnEnv → TurnEnv
  await_approval e =
      let e' = surface (notify (needs_review sub_id) e) in
      asleep (suc (current e').runs) (some (relative_next e')) e'

  abbrev pub approval_since : TurnEnv → TurnEnv × ℤ
  approval_since e = elim (number_of w (checkpoint_at "human_approval_since" e)) [
    | some since ↦ (e, since)
    | none ↦ (note "human_approval_since" (int (pos e.registry.now)) e, pos e.registry.now)
  ]

  abbrev pub approval_wait : ℕ → TurnEnv → Turn TurnEnv
  approval_wait consecutive e =
      let (e', since) = approval_since e in
      let switch =
        has_elapsed e.registry.now w.settings.human_approval_timeout_seconds since
        || leb w.settings.human_approval_timeout_runs consecutive in
      elim (state_is "human_issue_approval" e) [
        | false ↦ on e
        | true ↦ elim switch [
          | false ↦ on e'
          | true ↦ ends (await_approval e') (waits_queued (some reply) 0)
        ]
      ]

  abbrev pub paused_turn : Registry × Option SubsessionInfo → TurnEnv → TurnEnv × Next
  paused_turn (r, none) e = (record e { registry = r }, stopped)
  paused_turn (r, some i) e = (
    notify (auto_paused sub_id) (deliver "paused" (record e { registry = r })),
    waits_paused (some reply),
  )

  -- The pause after too many idle runs, or the close after too many such pauses.
  abbrev pub pause_turn : TurnEnv → TurnEnv × Next
  pause_turn e =
      let cap = w.settings.max_no_change_pauses in
      let count = suc_int (pauses_before (checkpoint_at "no_change_pause_count" e)) in
      let e' = note "no_change_pause_count" (int count) e in
      if ltb 0 cap && at_least cap count
      then (
        notify (auto_closed sub_id) (close_as (pause_limit count) "no_change_pause_limit" e),
        stopped,
      )
      else paused_turn
          (mark_paused sub_id (no_change_pause w.settings.max_idle_runs count cap) "paused"
            e'.registry)
          e'

  abbrev pub ended : TurnEnv × Next → Turn TurnEnv
  ended (e, n) = ends e n

  abbrev pub idle_pause : ℕ → TurnEnv → Turn TurnEnv
  idle_pause consecutive e =
      elim (ltb 0 w.settings.max_idle_runs && leb w.settings.max_idle_runs consecutive) [
        | false ↦ on e
        | true ↦ ended (pause_turn e)
      ]

  abbrev pub stop_threshold : TurnEnv → ℕ
  stop_threshold e =
      stop_after w.settings.auto_stop_no_change_runs (checkpoint_at "auto_stop_no_change_runs" e)

  abbrev pub auto_stop : ℕ → TurnEnv → Turn TurnEnv
  auto_stop consecutive e = elim (leb (stop_threshold e) consecutive) [
    | false ↦ on e
    | true ↦
        ends
          (notify (auto_stopped sub_id)
            (close_as (no_change_stop (stop_threshold e)) "no_change_auto_stop" e))
          stopped
  ]

  -- How long the worker sleeps.
  abbrev pub sleep_time : TurnEnv → Option ℕ
  sleep_time e =
      let i = current e in
      if has_text i.anchor_time
      then elim i.next_run_at [
        | none ↦ i.interval_seconds
        | some next ↦ some (next - e.registry.now)
      ]
      else i.interval_seconds

  abbrev pub to_sleep : ℕ → TurnEnv → Turn TurnEnv
  to_sleep consecutive e = ends e (sleeps (sleep_time e) (some reply) consecutive)

  -- The turn after the count of the run.
  abbrev pub after_count : ℕ → ℕ → TurnEnv → Turn TurnEnv
  after_count runs consecutive e = do
    e1 ← limit_runs runs (extend runs e)
    e2 ← draft_wait runs consecutive e1
    e3 ← approval_wait consecutive e2
    e4 ← idle_pause consecutive e3
    e5 ← auto_stop consecutive e4
    to_sleep consecutive e5

  abbrev pub reported_turn : Option String → ℕ → TurnEnv → Turn TurnEnv
  reported_turn previous consecutive e =
      let suppressed = is_suppressed previous in
      count_run suppressed (record_flag suppressed (clear_pauses e))
      >>= after_count (suc (current e).runs) (counted consecutive)

abbrev pub outcome : Turn TurnEnv → TurnEnv × Next
outcome (ends e n) = (e, n)
outcome (on e) = (e, stopped)

unfoldable pub run_periodic_turn :
    TurnOutside → String → String → SubsessionInfo → Option String → ℕ → TurnEnv → TurnEnv × Next
run_periodic_turn w sub_id reply info previous consecutive e = elim (is_queued w.upper reply) [
  | true ↦ queued_turn w sub_id reply info e
  | false ↦ outcome (reported_turn w sub_id reply info previous consecutive e)
]
