-- ===== src/Subsessions/Registry/Create.antt =====
-- `create`, `restore`, `attach_task` and `set_status` of src/robotsix_chat/subsessions/registry.py.
pub mod Dedup
use robotsix_chat.Base.{
  ℕ, String, Bool, true, false, not, ◌&&◌, ◌||◌, Option, none, some, List, [], ◌∷◌, str_eq, set_add,
  is_empty, if◌then◌else◌, Option-cases, find_if,
}
use robotsix_chat.Base.Dict.{Dict, get, put, remove, values, get_or}
use robotsix_chat.Subsessions.Model.{
  SubsessionInfo, SubsessionKind, SubsessionStatus, InboxMessage, Checkpoint, Frame, is_active,
  active_status, is_monitor, subsession_started, subsession_updated,
}
use robotsix_chat.Subsessions.Checkpoint.{tracks}
use robotsix_chat.Subsessions.Registry.State.{Registry, Task, get_info, put_info, publish, persist}
use robotsix_chat.Subsessions.Registry.Retention.{prune_terminal}

-- The keyword arguments of `create`.
pub record Request : Type 0 where
  pub kind : SubsessionKind
  pub owner_session_id : String
  pub parent_id : Option String
  pub depth : ℕ
  pub title : String
  pub prompt : String
  pub model_level : ℕ
  pub interval_seconds : Option ℕ
  pub anchor_time : Option String
  pub include_previous_result : Bool
  pub max_runs : Option ℕ
  pub sub_id : Option String
  pub runs : ℕ
  pub completed_runs : List ℕ
  pub turn_history : List (String × String)
  pub checkpoint : Option Checkpoint
  pub dedup_key : Option String
  pub depends_on_ticket_id : Option String
  pub retry_count : ℕ
  pub event_timeout_seconds : Option ℕ
  pub run_timeout_seconds : Option ℕ
  pub inbox : List InboxMessage

-- `create` returns a record or raises SubsessionDedupError with the id of the active subsession.
pub data Created : Type 0 where
  created : SubsessionInfo → Created
  dedup_error : String → Created

-- `find_active_periodic_by_ticket_id`, as a test on a record.
abbrev pub is_active_monitor_of : String → SubsessionInfo → Bool
unfolding tracks
is_active_monitor_of ticket i = is_monitor i.kind && is_active i && tracks i.checkpoint ticket

abbrev id_of : Option SubsessionInfo → Option String
id_of none = none
id_of (some i) = some i.id

unfoldable pub find_active_periodic_by_ticket_id : String → Registry → Option String
unfolding tracks
find_active_periodic_by_ticket_id ticket r =
    id_of (find_if (is_active_monitor_of ticket) (values r.subs))

unfoldable pub new_info : String → Request → ℕ → SubsessionInfo
new_info id q now = record {
  id = id;
  kind = q.kind;
  owner_session_id = q.owner_session_id;
  parent_id = q.parent_id;
  depth = q.depth;
  title = q.title;
  prompt = q.prompt;
  model_level = q.model_level;
  status = SubsessionStatus.running;
  created_at = now;
  last_activity_at = now;
  interval_seconds = q.interval_seconds;
  anchor_time = q.anchor_time;
  next_run_at = none;
  include_previous_result = q.include_previous_result;
  runs = q.runs;
  max_runs = q.max_runs;
  last_result = none;
  completed_runs = q.completed_runs;
  event_timeout_seconds = q.event_timeout_seconds;
  run_timeout_seconds = q.run_timeout_seconds;
  summary = none;
  close_reason = none;
  error = none;
  transcript = [];
  turn_history = q.turn_history;
  checkpoint = q.checkpoint;
  consecutive_no_change = 0;
  consecutive_errored_runs = 0;
  dedup_key = q.dedup_key;
  depends_on_ticket_id = q.depends_on_ticket_id;
  retry_count = q.retry_count;
}

abbrev add_owned : String → String → Registry → Registry
add_owned owner id r = record r {
  by_owner = put owner (set_add id (get_or owner [] r.by_owner)) r.by_owner;
}

abbrev pub index_key : Option String → String → Dict String → Dict String
index_key none id d = d
index_key (some k) id d = put k id d

-- The record and its entries in the registry's dictionaries.
unfoldable pub entered : SubsessionInfo → List InboxMessage → Registry → Registry
entered info inbox r =
    let r' = add_owned info.owner_session_id info.id (record r {
      subs = put info.id info r.subs;
      inboxes = put info.id inbox r.inboxes;
      wake_events = put info.id (not (is_empty inbox)) r.wake_events;
    }) in
    record r' { active_dedup_keys = index_key info.dedup_key info.id r'.active_dedup_keys }

-- The part of `create` from `self._subs[info.id] = info` on.
unfoldable pub register : SubsessionInfo → List InboxMessage → Registry → Registry
unfolding entered
register info inbox r = persist (
    publish info.owner_session_id (subsession_started info) (prune_terminal (entered info inbox r)))

abbrev dead : Option SubsessionInfo → Bool
dead none = true
dead (some i) = not (is_active i)

-- The dedup checks: the id of the active subsession that holds the key, and the index without a
-- stale entry.
unfoldable pub check_dedup : SubsessionKind → Option String → Registry → Registry × Option String
unfolding find_active_periodic_by_ticket_id
check_dedup kind none r = (r, none)
check_dedup kind (some key) r =
    let cross = λ (r' : Registry).
      if is_monitor kind then (r', find_active_periodic_by_ticket_id key r') else (r', none) in
    elim (get key r.active_dedup_keys) [
      | none ↦ cross r
      | some holder ↦
          if dead (get holder r.subs)
          then cross (record r { active_dedup_keys = remove key r.active_dedup_keys })
          else (r, some holder)
    ]

abbrev pub known : Option String → Registry → Option SubsessionInfo
known none r = none
known (some id) r = get id r.subs

-- `sub_id or self._id_factory()`; `fresh` is the text that the factory returns.
abbrev resolve : Option String → String → String
resolve none fresh = fresh
resolve (some id) fresh = if str_eq id "" then fresh else id

unfoldable pub finish : String → Request → Registry × Option String → Registry × Created
unfolding register new_info
finish id q (r, some holder) = (r, dedup_error holder)
finish id q (r, none) = let info = new_info id q r.now in (register info q.inbox r, created info)

unfoldable pub create : String → Request → Registry → Registry × Created
unfolding check_dedup finish
create fresh q r = elim (known q.sub_id r) [
  | some info ↦ (r, created info)
  | none ↦ finish (resolve q.sub_id fresh) q (check_dedup q.kind q.dedup_key r)
]

unfoldable pub attach_task : String → Task → Registry → Registry
attach_task sub_id task r = record r { tasks = put sub_id task r.tasks }

-- The done callback that `attach_task` installs.
unfoldable pub task_done : String → Registry → Registry
task_done sub_id r = record r { tasks = remove sub_id r.tasks }

unfoldable pub restore : SubsessionInfo → Registry → Registry
restore info r = elim (get info.id r.subs) [
  | some _ ↦ r
  | none ↦ add_owned info.owner_session_id info.id (record r {
    subs = put info.id info r.subs;
    inboxes = put info.id [] r.inboxes;
    wake_events = put info.id false r.wake_events;
  })
]

abbrev keep_or {ℓ} : {A : Type ℓ} → Option A → A → A
keep_or none old = old
keep_or (some new) old = new

abbrev pub keep_or_opt {ℓ} : {A : Type ℓ} → Option A → Option A → Option A
keep_or_opt none old = old
keep_or_opt (some new) old = some new

-- The frame of an update that carries the next run.
abbrev status_frame : SubsessionInfo → Frame
status_frame i =
    subsession_updated i.id i.status i.runs i.next_run_at i.last_activity_at i.last_result

unfoldable pub set_status :
    String → SubsessionStatus → Option ℕ → Option ℕ → Option String → Registry → Registry
set_status sub_id status runs next_run_at last_result r = elim (get sub_id r.subs) [
  | none ↦ r
  | some i ↦
      if not (is_active i) && active_status status
      then r
      else let i' = record i {
        status = status;
        last_activity_at = r.now;
        runs = keep_or runs i.runs;
        next_run_at = keep_or_opt next_run_at i.next_run_at;
        last_result = keep_or_opt last_result i.last_result;
      } in
        persist
          (publish i.owner_session_id (status_frame i') (record r { subs = put sub_id i' r.subs }))
]
