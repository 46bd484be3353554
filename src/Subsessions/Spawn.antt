-- ===== src/Subsessions/Spawn.antt =====
-- `spawn_subsession` of src/robotsix_chat/subsessions/worker.py, with the level check of
-- worker_validation.py. The prompt that an ancestor's context is put before, the time zones, the levels of the language-model library, and what the close callbacks do are inputs.
pub mod Start
pub mod Steps
pub mod Admitted
pub mod Queued
pub mod Unanchored
use robotsix_chat.Base.{
  ℕ, suc, zero, String, Bool, true, false, not, ◌&&◌, ◌||◌, Option, none, some, List, [], ◌∷◌, leb,
  ltb, ◌==◌, any_if, str_eq, if◌then◌else◌,
}
use robotsix_chat.Base.Dict.{get}
use robotsix_chat.Subsessions.Model.{
  SubsessionInfo, SubsessionKind, Checkpoint, Value, int, str, ℤ, pos, negsuc, is_monitor,
  is_periodic, is_user_chat,
}
use robotsix_chat.Subsessions.Checkpoint.{merge}
use robotsix_chat.Subsessions.Registry.State.{Registry, Task}
use robotsix_chat.Subsessions.Registry.Create.{
  Request, Created, created, dedup_error, create, attach_task, known,
  find_active_periodic_by_ticket_id,
}
use robotsix_chat.Subsessions.Registry.Closing.{Callback, cancel_and_close}
use robotsix_chat.Subsessions.Registry.Index.{
  count_active, count_active_for_owner, count_occupied_for_owner, find_paused_for_reuse,
  find_stale_for_reclaim,
}
use robotsix_chat.Subsessions.Registry.Tickets.{is_dedup_key_active}
use robotsix_chat.Subsessions.Schedule.{Zones, parse_anchor_time}
use robotsix_chat.Subsessions.SlotBudget.{
  SlotBudget, Enqueued, accepted, queue_full, enabled, enqueue,
}

-- The settings that a spawn reads.
pub record Settings : Type 0 where
  pub max_concurrent_per_session : ℕ
  pub max_concurrent : ℕ
  pub stale_reclaim_seconds : ℕ
  pub max_depth : ℕ
  pub monitor_max_model_level : ℕ
  pub min_interval_seconds : ℕ
  pub max_run_timeout_seconds : ℕ

-- The arguments of a spawn: those that `create` takes, and two more.
pub record SpawnRequest : Type 0 where
  pub args : Request
  pub auto_stop_no_change_runs : Option ℤ
  pub inherit_context : Bool

pub record SpawnEnv : Type 0 where
  pub registry : Registry
  pub slot_budget : Option (SlotBudget SpawnRequest)

pub record Outside : Type 0 where
  pub settings : Settings
  pub callbacks : List Callback
  pub queues_after : SubsessionInfo → Registry → SlotBudget SpawnRequest → SlotBudget SpawnRequest
  pub valid_levels : List ℕ
  pub zones : Zones
  pub ancestor_context : Registry → String → String → String

-- The exceptions, by their classes.
pub data Refusal : Type 0 where
  capacity depth level interval anchor no_change_threshold periodic_spawn user_chat_spawn : Refusal

-- What is returned without a new record: the id of one that is there, SLOT_BUDGET_QUEUED, or an
-- exception.
pub data Returned : Type 0 where
  existing : String → Returned
  queued : Returned
  refused : Refusal → Returned

pub data Spawned : Type 0 where
  spawned : String → Spawned
  returned : Returned → Spawned

-- A step of the spawn returns early or goes on.
pub data Step {ℓ} (A : Type ℓ) : Type ℓ where
  halt : SpawnEnv → Returned → Step A
  go : A → Step A

infixl 5 ◌>>=◌
abbrev pub ◌>>=◌ {ℓ κ} : {A : Type ℓ} {B : Type κ} → Step A → (A → Step B) → Step B
halt e s >>= f = halt e s
go a >>= f = f a

-- `if …: raise …`
abbrev pub refuse_if : Bool → Refusal → SpawnEnv → Step SpawnEnv
refuse_if true why e = halt e (refused why)
refuse_if false why e = go e

abbrev pub id_or_empty : Option String → String
id_or_empty none = ""
id_or_empty (some id) = id

-- The idempotency guard.
abbrev pub known_already : SpawnRequest → SpawnEnv → Step SpawnEnv
known_already q e = elim (known q.args.sub_id e.registry) [
  | some i ↦ halt e (existing (id_or_empty q.args.sub_id))
  | none ↦ go e
]

abbrev pub or_go : Option String → SpawnEnv → Step SpawnEnv
or_go none e = go e
or_go (some id) e = halt e (existing id)

abbrev pub cross_match : Bool → String → Registry × Option String → SpawnEnv → Step SpawnEnv
cross_match monitor key (r, some id) e = halt (record e { registry = r }) (existing id)
cross_match monitor key (r, none) e =
    or_go (if monitor then find_active_periodic_by_ticket_id key r else none)
      (record e { registry = r })

-- The deduplication guard.
abbrev pub key_taken : SpawnRequest → SpawnEnv → Step SpawnEnv
key_taken q e = elim q.args.dedup_key [
  | none ↦ go e
  | some key ↦ cross_match (is_monitor q.args.kind) key (is_dedup_key_active key e.registry) e
]

abbrev pub bad_threshold : Option ℤ → Bool
bad_threshold none = false
bad_threshold (some (pos (suc n))) = false
bad_threshold (some (pos zero)) = true
bad_threshold (some (negsuc n)) = true

-- `cancel_and_close` with its callbacks, by the system.
abbrev pub close_for_room : Outside → String → String → SpawnEnv → SpawnEnv
close_for_room w id reason e =
    let (r, closed) = cancel_and_close w.callbacks id reason "system" none e.registry in
    record {
      registry = r;
      slot_budget = elim closed [
        | none ↦ e.slot_budget
        | some i ↦ elim e.slot_budget [ none ↦ none | some b ↦ some (w.queues_after i r b) ]
      ];
    }

abbrev pub clamp_timeout : ℕ → Option ℕ → Option ℕ
clamp_timeout cap none = none
clamp_timeout cap (some n) = some (if ltb cap n then cap else n)

-- The dict that is queued: all the arguments but the anchor and the inbox.
abbrev pub queued_request : Settings → SpawnRequest → SpawnRequest
queued_request s q = record q {
  args = record q.args {
    anchor_time = none;
    inbox = [];
    run_timeout_seconds = clamp_timeout s.max_run_timeout_seconds q.args.run_timeout_seconds;
  };
}

abbrev pub after_enqueue : SpawnEnv → Enqueued SpawnRequest → Step SpawnEnv
after_enqueue e queue_full = halt e (refused capacity)
after_enqueue e (accepted b) = halt (record e { slot_budget = some b }) queued

abbrev pub put_in_queue :
    Settings → SlotBudget SpawnRequest → SpawnRequest → SpawnEnv → Step SpawnEnv
put_in_queue s b q e = after_enqueue e (enqueue q.args.owner_session_id (queued_request s q) b)

abbrev pub is_none {ℓ} : {A : Type ℓ} → Option A → Bool
is_none none = true
is_none (some a) = false

-- The slot-budget admission of a new monitor.
abbrev pub at_budget : SlotBudget SpawnRequest → SpawnRequest → SpawnEnv → Bool
at_budget b q e =
    is_none q.args.sub_id
    && enabled b
    && is_monitor q.args.kind
    && leb b.budget (count_occupied_for_owner q.args.owner_session_id e.registry)

abbrev pub admit_by :
    Outside → SpawnRequest → SpawnEnv → Option (SlotBudget SpawnRequest) → Step SpawnEnv
admit_by w q e none = go e
admit_by w q e (some b) = elim (at_budget b q e) [
  | false ↦ go e
  | true ↦ elim (find_paused_for_reuse q.args.owner_session_id e.registry) [
    | none ↦ put_in_queue w.settings b q e
    | some paused ↦ go (close_for_room w paused "slot_reclaimed" e)
  ]
]

abbrev pub admit : Outside → SpawnRequest → SpawnEnv → Step SpawnEnv
admit w q e = admit_by w q e e.slot_budget

abbrev pub session_full : Settings → SpawnRequest → SpawnEnv → Bool
session_full s q e =
    ltb 0 s.max_concurrent_per_session
    && leb s.max_concurrent_per_session (count_active_for_owner q.args.owner_session_id e.registry)

abbrev pub pool_full : Settings → SpawnEnv → Bool
pool_full s e = leb s.max_concurrent (count_active e.registry)

abbrev pub stale_of : Settings → SpawnRequest → SpawnEnv → Option SubsessionInfo
stale_of s q e =
    if ltb 0 s.stale_reclaim_seconds
    then find_stale_for_reclaim q.args.owner_session_id s.stale_reclaim_seconds e.registry
    else none

-- The global capacity check with its fallback.
abbrev pub make_room : Outside → SpawnRequest → SpawnEnv → Step SpawnEnv
make_room w q e = elim (pool_full w.settings e) [
  | false ↦ go e
  | true ↦ elim (stale_of w.settings q e) [
    | none ↦ halt e (refused capacity)
    | some i ↦
        let e' = close_for_room w i.id "stale_reclaimed" e in
        refuse_if (pool_full w.settings e') capacity e'
  ]
]

abbrev pub is_level : Outside → ℕ → Bool
is_level w n = any_if (λ m. m == n) w.valid_levels

-- The level that is used: a monitor's is capped.
abbrev pub capped_level : Outside → SpawnRequest → ℕ
capped_level w q =
    if is_monitor q.args.kind && ltb w.settings.monitor_max_model_level q.args.model_level
    then w.settings.monitor_max_model_level
    else q.args.model_level

abbrev pub parent_of : SpawnRequest → SpawnEnv → Option SubsessionInfo
parent_of q e = known q.args.parent_id e.registry

abbrev pub is_on_close : SubsessionKind → Bool
is_on_close SubsessionKind.on_close = true
is_on_close _ = false

-- A monitor may not spawn a monitor or an `on_close` child.
abbrev pub monitor_child : SubsessionKind → Option SubsessionInfo → Bool
monitor_child kind none = false
monitor_child kind (some p) = is_monitor p.kind && (is_monitor kind || is_on_close kind)

abbrev pub chat_child : SubsessionKind → Option SubsessionInfo → Bool
chat_child kind none = false
chat_child kind (some p) = is_user_chat kind && is_user_chat p.kind

abbrev pub short_interval : Settings → SpawnRequest → Bool
short_interval s q =
    is_periodic q.args.kind
    && elim q.args.interval_seconds [ none ↦ true | some n ↦ ltb n s.min_interval_seconds ]

-- `parse_anchor_time` does not raise.
abbrev pub anchor_ok : Outside → String → Bool
anchor_ok w a = not (is_none (parse_anchor_time w.zones "UTC" a))

abbrev pub bad_anchor : Outside → SpawnRequest → Bool
bad_anchor w q =
    is_periodic q.args.kind
    && elim q.args.anchor_time [ none ↦ false | some a ↦ not (anchor_ok w a) ]
