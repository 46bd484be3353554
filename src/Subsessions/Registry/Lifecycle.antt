-- ===== src/Subsessions/Registry/Lifecycle.antt =====
-- The pause and resume transitions, the run guard and the periodic configuration of
-- src/robotsix_chat/subsessions/registry_lifecycle.py.
pub mod Evolution
pub mod Runs
pub mod History
pub mod Reopened
use robotsix_chat.Base.{
  ℕ, zero, suc, String, Bool, true, false, not, ◌&&◌, ◌||◌, Option, none, some, List, [], ◌∷◌, ◌++◌,
  str_eq, keep_if, any_if, ◌==◌, if◌then◌else◌,
}
use robotsix_chat.Base.Dict.{Dict, get, put, remove, keys, values, count_values}
use robotsix_chat.Subsessions.Model.{
  SubsessionInfo, SubsessionKind, SubsessionStatus, TranscriptEntry, Summary, Frame, Checkpoint,
  Value, is_active, active_status, is_paused, is_closed, is_monitor, is_periodic, opt_eq, opt_in,
  text, closed_externally, failed_with, waits_for, subsession_closed, subsession_failed,
  subsession_updated,
}
use robotsix_chat.Subsessions.Checkpoint.{tracks, cp_get, preserved}
use robotsix_chat.Subsessions.Registry.State.{Registry, Task, publish, persist}

-- The frame of a pause, a resume and a reopening: the next run is left out.
abbrev unscheduled_frame : SubsessionInfo → Frame
unscheduled_frame i = subsession_updated i.id i.status i.runs none i.last_activity_at i.last_result

abbrev announce : SubsessionInfo → Registry → Registry
announce i r =
    persist
      (publish i.owner_session_id (unscheduled_frame i) (record r { subs = put i.id i r.subs }))

unfoldable pub mark_paused : String → Summary → String → Registry → Registry × Option SubsessionInfo
unfolding publish persist
mark_paused sub_id summary reason r = elim (get sub_id r.subs) [
  | none ↦ (r, none)
  | some i ↦
      if is_active i
      then (let i' = record i {
        status = SubsessionStatus.paused;
        summary = some summary;
        close_reason = some reason;
        last_activity_at = r.now;
      } in
          (announce i' r, some i'))
      else (r, none)
]

-- `checkpoint.pop("human_approval_since", None)`
unfoldable pub forget_approval : Option Checkpoint → Option Checkpoint
forget_approval none = none
forget_approval (some cp) = some (remove "human_approval_since" cp)

unfoldable pub resume : String → Registry → Registry × Option SubsessionInfo
unfolding publish persist forget_approval
resume sub_id r = elim (get sub_id r.subs) [
  | none ↦ (r, none)
  | some i ↦
      if is_paused i.status
      then (let i' = record i {
        status = SubsessionStatus.running;
        last_activity_at = r.now;
        close_reason = none;
        summary = none;
        checkpoint = forget_approval i.checkpoint;
      } in
          (announce i' r, some i'))
      else (r, none)
]

abbrev pub reopenable_reasons : List String
reopenable_reasons =
    "paused" ∷ "human_approval_timeout" ∷ "pre_authorized_approval" ∷ "max_runs"
    ∷ "waiting_for_prerequisite" ∷ []

-- The two guards of `reopen` together: they leave only closed or paused monitors with such a reason.
unfoldable pub is_reopenable : SubsessionInfo → Bool
is_reopenable i =
    (is_closed i.status || is_paused i.status)
    && is_monitor i.kind
    && opt_in i.close_reason reopenable_reasons

abbrev is_null : Option Value → Bool
is_null none = true
is_null (some Value.null) = true
is_null (some _) = false

unfoldable pub reopen : String → Registry → Registry × Option SubsessionInfo
unfolding publish persist forget_approval is_reopenable
reopen sub_id r = elim (get sub_id r.subs) [
  | none ↦ (r, none)
  | some i ↦
      if is_reopenable i
      then (let fresh =
            opt_eq i.close_reason "max_runs"
            || not (is_null (cp_get i.checkpoint "max_runs_exhausted_count")) in
          let i' = record i {
            status = SubsessionStatus.running;
            last_activity_at = r.now;
            close_reason = none;
            summary = none;
            runs = if fresh then 0 else i.runs;
            checkpoint = forget_approval i.checkpoint;
          } in
          (announce i' r, some i'))
      else (r, none)
]

unfoldable pub find_paused_periodic : Registry → List SubsessionInfo
find_paused_periodic r =
    keep_if
      (λ i.
        is_monitor i.kind
        && (is_paused i.status || is_closed i.status && opt_in i.close_reason reopenable_reasons))
      (values r.subs)

unfoldable pub find_paused_periodic_by_ticket_id : String → Registry → List SubsessionInfo
find_paused_periodic_by_ticket_id ticket r =
    keep_if (λ i. is_monitor i.kind && is_paused i.status && tracks i.checkpoint ticket)
      (values r.subs)

unfoldable pub claim_run : String → ℕ → Registry → Registry × Bool
unfolding persist
claim_run sub_id run_n r = elim (get sub_id r.subs) [
  | none ↦ (r, false)
  | some i ↦
      if not (is_active i) || any_if (λ n. n == run_n) i.completed_runs
      then (r, false)
      else let i' = record i { completed_runs = i.completed_runs ++ run_n ∷ [] } in
        (persist (record r { subs = put sub_id i' r.subs }), true)
]

abbrev given {ℓ} : {A : Type ℓ} → Option A → A → A
given none old = old
given (some new) old = new

abbrev given_opt {ℓ} : {A : Type ℓ} → Option A → Option A → Option A
given_opt none old = old
given_opt (some new) old = some new

unfoldable pub update_periodic_config :
    String → Option String → Option ℕ → Option ℕ → Registry → Registry × Bool
unfolding persist
update_periodic_config sub_id prompt interval_seconds max_runs r = elim (get sub_id r.subs) [
  | none ↦ (r, false)
  | some i ↦
      if is_active i && is_periodic i.kind
      then (let i' = record i {
        prompt = given prompt i.prompt;
        interval_seconds = given_opt interval_seconds i.interval_seconds;
        max_runs = given_opt max_runs i.max_runs;
      } in
          (persist (record r { subs = put sub_id i' r.subs }), true))
      else (r, false)
]

unfoldable pub update_checkpoint : String → Option Checkpoint → Registry → Registry × Bool
unfolding preserved persist
update_checkpoint sub_id checkpoint r = elim (get sub_id r.subs) [
  | none ↦ (r, false)
  | some i ↦
      let i' = record i { checkpoint = preserved i checkpoint } in
      (persist (record r { subs = put sub_id i' r.subs }), true)
]
