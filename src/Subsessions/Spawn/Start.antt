-- ===== src/Subsessions/Spawn/Start.antt =====
-- The second part of `spawn_subsession` in src/robotsix_chat/subsessions/worker.py: the checks from the depth
-- on, the arguments of `create`, and the launch of the worker.
use robotsix_chat.Base.{String, false, not, Option, none, some, ltb, str_eq, if◌then◌else◌}
use robotsix_chat.Subsessions.Model.{SubsessionKind, Checkpoint, int, str, ℤ, is_periodic}
use robotsix_chat.Subsessions.Checkpoint.{merge}
use robotsix_chat.Subsessions.Registry.State.{Registry}
use robotsix_chat.Subsessions.Registry.Create.{
  Request, Created, created, dedup_error, create, attach_task,
}
use robotsix_chat.Subsessions.Spawn.{
  periodic_spawn, no_change_threshold, user_chat_spawn, Outside, SpawnEnv, SpawnRequest, Spawned,
  Step, admit, anchor, bad_anchor, bad_threshold, capacity, capped_level, chat_child, clamp_timeout,
  depth, existing, go, halt, interval, is_level, key_taken, known_already, level, make_room,
  monitor_child, parent_of, refuse_if, returned, session_full, short_interval, spawned, ◌>>=◌,
}

abbrev pub context_prompt : Outside → SpawnRequest → SpawnEnv → String
context_prompt w q e = elim q.args.parent_id [
  | none ↦ q.args.prompt
  | some p ↦
      if q.inherit_context then w.ancestor_context e.registry p q.args.prompt else q.args.prompt
]

abbrev pub with_ticket : SubsessionKind → Option String → Option Checkpoint → Option Checkpoint
with_ticket SubsessionKind.wait_for_event (some key) cp =
    if str_eq key "" then cp else merge "ticket_id" (str key) cp
with_ticket _ key cp = cp

abbrev pub with_threshold : SubsessionKind → Option ℤ → Option Checkpoint → Option Checkpoint
with_threshold SubsessionKind.periodic (some n) cp = merge "auto_stop_no_change_runs" (int n) cp
with_threshold _ n cp = cp

abbrev pub if_periodic {ℓ} : {A : Type ℓ} → SubsessionKind → Option A → Option A
if_periodic kind a = if is_periodic kind then a else none

-- The arguments that `create` is called with.
abbrev pub create_args : Outside → SpawnRequest → SpawnEnv → Request
create_args w q e = record q.args {
  model_level = capped_level w q;
  interval_seconds = if_periodic q.args.kind q.args.interval_seconds;
  anchor_time = if_periodic q.args.kind q.args.anchor_time;
  prompt = context_prompt w q e;
  run_timeout_seconds = clamp_timeout w.settings.max_run_timeout_seconds q.args.run_timeout_seconds;
  checkpoint =
      with_threshold q.args.kind q.auto_stop_no_change_runs
        (with_ticket q.args.kind q.args.dedup_key q.args.checkpoint);
}

abbrev pub launch : SpawnEnv → Registry × Created → SpawnEnv × Spawned
launch e (r, dedup_error id) = (record e { registry = r }, returned (existing id))
launch e (r, created i) = (
  record e { registry = attach_task i.id (record { done = false; cancelled = false }) r },
  spawned i.id,
)

-- The checks from the depth on, in the order of the code.
abbrev pub checks : Outside → SpawnRequest → SpawnEnv → Step SpawnEnv
checks w q e = do
  e1 ← refuse_if (ltb w.settings.max_depth q.args.depth) depth e
  e2 ← refuse_if (not (is_level w q.args.model_level)) level e1
  e3 ← refuse_if (not (is_level w (capped_level w q))) level e2
  e4 ← refuse_if (monitor_child q.args.kind (parent_of q e)) periodic_spawn e3
  e5 ← refuse_if (chat_child q.args.kind (parent_of q e)) user_chat_spawn e4
  e6 ← refuse_if (short_interval w.settings q) interval e5
  refuse_if (bad_anchor w q) anchor e6

-- All that stands before `create`.
abbrev pub prepare : Outside → SpawnRequest → SpawnEnv → Step SpawnEnv
prepare w q e = do
  e1 ← known_already q e
  e2 ← key_taken q e1
  e3 ← refuse_if (bad_threshold q.auto_stop_no_change_runs) no_change_threshold e2
  e4 ← admit w q e3
  e5 ← refuse_if (session_full w.settings q e4) capacity e4
  e6 ← make_room w q e5
  checks w q e6

abbrev pub start : Outside → String → SpawnRequest → Step SpawnEnv → SpawnEnv × Spawned
start w fresh q (halt e s) = (e, returned s)
start w fresh q (go e) = launch e (create fresh (create_args w q e) e.registry)

unfoldable pub spawn_subsession : Outside → String → SpawnRequest → SpawnEnv → SpawnEnv × Spawned
spawn_subsession w fresh q e = start w fresh q (prepare w q e)
