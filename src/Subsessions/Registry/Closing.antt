-- ===== src/Subsessions/Registry/Closing.antt =====
-- The terminal transitions of src/robotsix_chat/subsessions/registry_lifecycle.py.
-- `callbacks` are the observers of `add_close_callback`, each a function on the registry. They get
-- the closed record, and are taken to leave that record itself as it is.
pub mod Rule
pub mod Once
pub mod Dependents
pub mod Depth
use robotsix_chat.Base.{
  ℕ, zero, suc, String, Bool, true, false, not, ◌&&◌, ◌||◌, Option, none, some, List, [], ◌∷◌, ◌++◌,
  str_eq, keep_if, any_if, ◌==◌, if◌then◌else◌,
}
use robotsix_chat.Base.Dict.{Dict, get, put, remove, keys, values, count_values}
use robotsix_chat.Subsessions.Model.{
  SubsessionInfo, SubsessionKind, SubsessionStatus, TranscriptEntry, Summary, Frame, Checkpoint,
  Value, is_active, active_status, is_paused, is_closed, is_monitor, is_periodic, opt_eq, opt_in,
  text, closed_externally, failed_with, waits_for, subsession_closed, subsession_failed,
  subsession_updated,
}
use robotsix_chat.Subsessions.Checkpoint.{checkpoint_ticket_id, tracks, cp_get}
use robotsix_chat.Subsessions.Registry.State.{Registry, Task, publish, persist}

abbrev pub Callback : Type 0
Callback = SubsessionInfo → Registry → Registry

abbrev pub ticket_terminal_close_reasons : List String
ticket_terminal_close_reasons =
    "ticket_terminal" ∷ "ticket_terminal_without_pr" ∷ "ticket_terminal_on_resume" ∷ "completed"
    ∷ []

-- The keyword arguments of `_close_and_publish`.
pub record Closing : Type 0 where
  pub status : SubsessionStatus
  pub summary : Summary
  pub reason : String
  pub closed_by : String
  pub error : Option String

-- The record after `_close_and_publish` has mutated it.
unfoldable pub closed_info : ℕ → Closing → SubsessionInfo → SubsessionInfo
closed_info now c i = elim c.status [
  | SubsessionStatus.failed ↦ record i {
    status = c.status;
    summary = some c.summary;
    last_activity_at = now;
    error = c.error;
  }
  | _ ↦ record i {
    status = c.status;
    summary = some c.summary;
    last_activity_at = now;
    close_reason = some c.reason;
  }
]

unfoldable pub closed_frame : Closing → SubsessionInfo → Frame
closed_frame c i = elim c.status [
  | SubsessionStatus.failed ↦ subsession_failed i.id i.kind i.title c.error c.summary i.parent_id
  | _ ↦ subsession_closed i.id i.kind i.title c.reason c.summary c.closed_by i.parent_id
]

abbrev pub drop_key : Option String → Dict String → Dict String
drop_key none d = d
drop_key (some k) d = remove k d

-- `_close_and_publish` up to the persist.
unfoldable pub settle : Closing → SubsessionInfo → Registry → Registry
unfolding publish persist
settle c i r =
    let r' = record r {
      subs = put i.id (closed_info r.now c i) r.subs;
      active_dedup_keys = drop_key i.dedup_key r.active_dedup_keys;
      inboxes = remove i.id r.inboxes;
      in_flight = remove i.id r.in_flight;
    } in
    persist (publish i.owner_session_id (closed_frame c i) r')

unfoldable pub run_callbacks : List Callback → SubsessionInfo → Registry → Registry
run_callbacks [] i r = r
run_callbacks (f ∷ fs) i r = run_callbacks fs i (f i r)

-- The test of `_pause_dependents` on another record.
abbrev pub is_dependent : SubsessionInfo → String → SubsessionInfo → Bool
is_dependent closed ticket i =
    not (str_eq i.id closed.id)
    && opt_eq i.depends_on_ticket_id ticket
    && is_active i
    && not (is_paused i.status)

abbrev pub pause_one :
    (SubsessionInfo → Registry → Registry)
    → SubsessionInfo
    → String
    → Option SubsessionInfo
    → Registry
    → Registry
pause_one close closed ticket none r = r
pause_one close closed ticket (some i) r = if is_dependent closed ticket i then close i r else r

-- The loop of `_pause_dependents` over the records that were registered when it began; each is
-- looked at in the state that its predecessors left.
unfoldable pub pause_each :
    (SubsessionInfo → Registry → Registry)
    → SubsessionInfo
    → String
    → List String
    → Registry
    → Registry
pause_each close closed ticket [] r = r
pause_each close closed ticket (id ∷ ids) r =
    pause_each close closed ticket ids (pause_one close closed ticket (get id r.subs) r)

-- The ticket whose dependents are to be paused, if any.
unfoldable pub blocking_ticket : SubsessionInfo → Option String
blocking_ticket closed =
    if opt_in closed.close_reason ticket_terminal_close_reasons
    then none
    else checkpoint_ticket_id closed.checkpoint

unfoldable pub pause_dependents :
    (String → SubsessionInfo → Registry → Registry) → SubsessionInfo → Registry → Registry
unfolding pause_each
pause_dependents close closed r = elim (blocking_ticket closed) [
  | none ↦ r
  | some ticket ↦ pause_each (close ticket) closed ticket (keys r.subs) r
]

abbrev cancel_if_live : Task → Task
cancel_if_live t = if t.done then t else record t { cancelled = true }

unfoldable pub cancel_task : String → Registry → Registry
cancel_task sub_id r = elim (get sub_id r.tasks) [
  | none ↦ r
  | some t ↦ record r { tasks = put sub_id (cancel_if_live t) r.tasks }
]

-- What `_pause_dependents` closes a dependent with.
abbrev pub dependency_pause : String → SubsessionInfo → Closing
dependency_pause ticket closed = record {
  status = SubsessionStatus.closed;
  summary = waits_for ticket closed.close_reason;
  reason = "waiting_for_prerequisite";
  closed_by = "system";
  error = none;
}

-- `_close_and_publish`. The fuel bounds how deep closing a dependent closes its own dependents.
unfoldable pub close_and_publish :
    List Callback → ℕ → Closing → SubsessionInfo → Registry → Registry
unfolding settle run_callbacks pause_dependents cancel_task
close_and_publish callbacks zero c i r =
    run_callbacks callbacks (closed_info r.now c i) (settle c i r)
close_and_publish callbacks (suc fuel) c i r =
    let closed = closed_info r.now c i in
    pause_dependents
      (λ ticket j s.
        close_and_publish callbacks fuel (dependency_pause ticket closed) j (cancel_task j.id s))
      closed (run_callbacks callbacks closed (settle c i r))

-- Every nested close makes an active record terminal, so this depth is never reached.
abbrev pub depth_bound : Registry → ℕ
depth_bound r = suc (count_values is_active r.subs)

-- The guard of the terminal transitions, on the record that stands under the id: unknown and terminal
-- records are left alone. `prepare` is what a transition does before it closes.
unfoldable pub close_found :
    List Callback
    → (SubsessionInfo → Closing)
    → (Registry → Registry)
    → Option SubsessionInfo
    → Registry
    → Registry × Option SubsessionInfo
close_found callbacks c prepare none r = (r, none)
close_found callbacks c prepare (some i) r =
    if is_active i
    then (
      close_and_publish callbacks (depth_bound r) (c i) i (prepare r),
      some (closed_info r.now (c i) i),
    )
    else (r, none)

unfoldable pub mark_closed :
    List Callback → String → Summary → String → String → Registry → Registry × Option SubsessionInfo
mark_closed callbacks sub_id summary reason closed_by r =
    close_found callbacks
      (λ i. record {
        status = SubsessionStatus.closed;
        summary = summary;
        reason = reason;
        closed_by = closed_by;
        error = none;
      })
      (λ s. s) (get sub_id r.subs) r

-- The most recent assistant entry, or the empty text.
abbrev newest_assistant : String → List TranscriptEntry → String
newest_assistant found [] = found
newest_assistant found (e ∷ es) =
    newest_assistant (if str_eq e.role "assistant" then e.text else found) es

unfoldable pub last_assistant_text : SubsessionInfo → String
last_assistant_text i = newest_assistant "" i.transcript

unfoldable pub fail : List Callback → String → String → Registry → Registry × Option SubsessionInfo
fail callbacks sub_id error r =
    close_found callbacks
      (λ i. record {
        status = SubsessionStatus.failed;
        summary = failed_with error (last_assistant_text i);
        reason = "";
        closed_by = "agent";
        error = some error;
      })
      (λ s. s) (get sub_id r.subs) r

unfoldable pub mark_interrupted :
    List Callback → String → Summary → Registry → Registry × Option SubsessionInfo
mark_interrupted callbacks sub_id summary r =
    close_found callbacks
      (λ i. record {
        status = SubsessionStatus.interrupted;
        summary = summary;
        reason = "interrupted";
        closed_by = "system";
        error = none;
      })
      (λ s. s) (get sub_id r.subs) r

abbrev summary_or : Option Summary → String → SubsessionInfo → Summary
summary_or (some s) reason i = s
summary_or none reason i = closed_externally reason (last_assistant_text i)

-- The worker's task is cancelled before the record is closed.
unfoldable pub cancel_and_close :
    List Callback
    → String
    → String
    → String
    → Option Summary
    → Registry
    → Registry × Option SubsessionInfo
cancel_and_close callbacks sub_id reason closed_by summary r =
    close_found callbacks
      (λ i. record {
        status = SubsessionStatus.closed;
        summary = summary_or summary reason i;
        reason = reason;
        closed_by = closed_by;
        error = none;
      })
      (cancel_task sub_id) (get sub_id r.subs) r
