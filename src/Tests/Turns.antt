-- ===== src/Tests/Turns.antt =====
-- The end of a periodic turn, at a concrete monitor.
use robotsix_chat.Base.{ℕ, ◌<◌, String, true, false, Option, none, some, [], ◌∷◌, ◌≡◌, refl}
use robotsix_chat.Base.Dict.{get, put}
use robotsix_chat.Subsessions.Model.{SubsessionInfo, SubsessionStatus, str, active_status}
use robotsix_chat.Chat.Titles.{rstrip, is_space}
use robotsix_chat.Subsessions.Replies.{
  is_queued, starts_with, lstrip, is_no_change, is_duplicate_reply,
}
use robotsix_chat.Subsessions.Registry.State.{persist, publish}
use robotsix_chat.Subsessions.Registry.Create.{set_status}
use robotsix_chat.Subsessions.Registry.Lifecycle.{update_checkpoint}
use robotsix_chat.Subsessions.PeriodicTurn.{TurnSettings, TurnOutside, TurnEnv, Next}
use robotsix_chat.Subsessions.PeriodicTurn.Steps.{run_periodic_turn, counted, stop_threshold}
use robotsix_chat.Subsessions.PeriodicTurn.Kept.{Budget}
use robotsix_chat.Subsessions.PeriodicTurn.Sleeping.{periodic_sleeps}
use robotsix_chat.Tests.Sample.{monitor, busy}
use robotsix_chat.Tests.Spawns.{zones}

abbrev turn_settings : TurnSettings
turn_settings = record {
  max_runs_progress_window = 3;
  max_runs_progress_extension = 2;
  periodic_max_total_runs = 10;
  max_runs_escalation_threshold = 2;
  human_approval_timeout_seconds = 100;
  human_approval_timeout_runs = 1;
  max_idle_runs = 4;
  max_no_change_pauses = 2;
  auto_stop_no_change_runs = 6;
}

abbrev turn_outside : TurnOutside
turn_outside = record {
  settings = turn_settings;
  callbacks = [];
  zones = zones;
  has_event_sink = true;
  has_board = false;
  upper = λ s. s;
  lower = λ s. s;
  casefold = λ s. s;
  opaque_truth = λ n. true;
  opaque_number = λ n. none;
}

-- The monitor has one run, which used its budget up but for the progress that it reports.
abbrev budgeted : SubsessionInfo
budgeted = record monitor { max_runs = some 1 }

abbrev watched : TurnEnv
watched = record {
  registry = record busy { subs = ("a", budgeted) ∷ [] };
  notices = [];
  delivered = [];
}

abbrev moved : String
moved = "The ticket moved on."

abbrev moved_turn : TurnEnv × Next
moved_turn = run_periodic_turn turn_outside "a" moved budgeted none 0 watched

periodic_sleeps_example :
    (j : SubsessionInfo) × (get "a" moved_turn.0.registry.subs ≡ some j)
    × (j.status ≡ SubsessionStatus.sleeping)
    × (j.runs ≡ 1)
    × ((max : ℕ) → j.max_runs ≡ some max → j.runs < max)
    × Budget 10 (some 1) j.max_runs
    × (some moved ≡ some moved)
    × (0 ≡ counted turn_outside "a" moved budgeted 0)
    × (0 < stop_threshold turn_outside "a" moved budgeted moved_turn.0)
unfolding run_periodic_turn get active_status is_queued starts_with rstrip lstrip is_space
    is_no_change put is_duplicate_reply set_status persist publish update_checkpoint
periodic_sleeps_example =
    periodic_sleeps turn_outside "a" moved budgeted none 0 watched moved_turn.0 (some 60)
      (some moved) 0 refl refl refl

-- A ticket that waits for an approval.
abbrev awaiting : SubsessionInfo
awaiting = record monitor {
  checkpoint =
      some (("ticket_id", str "T-1") ∷ ("last_known_state", str "human_issue_approval") ∷ []);
}

abbrev at_gate : TurnEnv
at_gate = record {
  registry = record busy { subs = ("a", awaiting) ∷ [] };
  notices = [];
  delivered = [];
}

-- The turn that switches to the wait for the approval counts two runs.
abbrev runs_of : Option SubsessionInfo → ℕ
runs_of none = 0
runs_of (some i) = i.runs

counted_twice :
    runs_of (
      get "a"
        (run_periodic_turn turn_outside "a" "NO_CHANGE" awaiting none 0 at_gate).0.registry.subs)
    ≡ 2
unfolding run_periodic_turn get is_queued starts_with rstrip lstrip is_space is_no_change set_status
    active_status persist publish put update_checkpoint
counted_twice = refl
