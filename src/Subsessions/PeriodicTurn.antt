-- ===== src/Subsessions/PeriodicTurn.antt =====
-- `_run_periodic_turn` of src/robotsix_chat/subsessions/worker_periodic.py: what follows a reply of a
-- periodic monitor. A wait loop that it calls is the last of its steps, and stands in the result with
-- its arguments. The texts of notices are left out.
pub mod Steps
pub mod Kept
pub mod Goes
pub mod Sleeping
use robotsix_chat.Base.{
  ℕ, zero, suc, ◌+◌, ◌-◌, ◌≤◌, String, Bool, true, false, not, ◌&&◌, ◌||◌, Option, none, some, List,
  [], ◌∷◌, ◌++◌, map, length, leb, ltb, any_if, bit, str_eq, if◌then◌else◌,
}
use robotsix_chat.Base.Dict.{get, put}
use robotsix_chat.Chat.Conversation.{from_end, smaller}
use robotsix_chat.Chat.SessionFile.{or_else}
use robotsix_chat.Subsessions.Model.{
  SubsessionInfo, SubsessionStatus, Checkpoint, Value, null, bool, int, str, arr, opaque_value,
  Items, nil, cons, ℤ, pos, negsuc, Summary, run_limit, run_limit_again, pause_limit,
  no_change_pause, no_change_stop,
}
use robotsix_chat.Subsessions.Checkpoint.{or_empty, cp_get, text_value}
use robotsix_chat.Subsessions.Registry.State.{Registry}
use robotsix_chat.Subsessions.Registry.Create.{set_status}
use robotsix_chat.Subsessions.Registry.Closing.{Callback, mark_closed}
use robotsix_chat.Subsessions.Registry.Lifecycle.{update_checkpoint, mark_paused}
use robotsix_chat.Subsessions.Schedule.{Zones, Fire, fires, anchored_next_run_at, interval_or_60}
use robotsix_chat.Subsessions.Replies.{is_no_change, is_queued, is_duplicate_reply}

-- The settings that the turn reads.
pub record TurnSettings : Type 0 where
  pub max_runs_progress_window : ℕ
  pub max_runs_progress_extension : ℕ
  pub periodic_max_total_runs : ℕ
  pub max_runs_escalation_threshold : ℕ
  pub human_approval_timeout_seconds : ℕ
  pub human_approval_timeout_runs : ℕ
  pub max_idle_runs : ℕ
  pub max_no_change_pauses : ℕ
  pub auto_stop_no_change_runs : ℕ

-- What comes from outside, with the truth and the number of the checkpoint values that are not looked
-- into.
pub record TurnOutside : Type 0 where
  pub settings : TurnSettings
  pub callbacks : List Callback
  pub zones : Zones
  pub has_event_sink : Bool
  pub has_board : Bool
  pub upper : String → String
  pub lower : String → String
  pub casefold : String → String
  pub opaque_truth : ℕ → Bool
  pub opaque_number : ℕ → Option ℕ

-- What is sent to the browser, and the ticket that is asked of the board.
pub data Notice : Type 0 where
  result : String → ℕ → String → Notice
  needs_review auto_closed auto_paused auto_stopped : String → Notice
  followup : String → ℤ → Notice

pub record TurnEnv : Type 0 where
  pub registry : Registry
  pub notices : List Notice
  pub delivered : List (String × String)

-- How the turn goes on: the worker stops, or waits in a loop, or sleeps; RuntimeError.
pub data Next : Type 0 where
  stopped raised : Next
  waits_queued : Option String → ℕ → Next
  waits_paused : Option String → Next
  sleeps : Option ℕ → Option String → ℕ → Next

-- A step is the last one or goes on.
pub data Turn {ℓ} (A : Type ℓ) : Type ℓ where
  ends : TurnEnv → Next → Turn A
  on : A → Turn A

infixl 5 ◌>>=◌
abbrev pub ◌>>=◌ {ℓ κ} : {A : Type ℓ} {B : Type κ} → Turn A → (A → Turn B) → Turn B
ends e n >>= f = ends e n
on a >>= f = f a

abbrev pub is_nil : Items → Bool
is_nil nil = true
is_nil (cons v vs) = false

abbrev pub is_zero : ℤ → Bool
is_zero (pos zero) = true
is_zero _ = false

-- `bool(v)`, also of a missing value.
abbrev pub truthy : TurnOutside → Option Value → Bool
truthy w none = false
truthy w (some null) = false
truthy w (some (bool b)) = b
truthy w (some (int n)) = not (is_zero n)
truthy w (some (str s)) = not (str_eq s "")
truthy w (some (arr xs)) = not (is_nil xs)
truthy w (some (opaque_value n)) = w.opaque_truth n

abbrev pub flags_in : TurnOutside → Items → List Bool
flags_in w nil = []
flags_in w (cons v vs) = truthy w (some v) ∷ flags_in w vs

abbrev pub flags_of : TurnOutside → Option Value → List Bool
flags_of w (some (arr xs)) = flags_in w xs
flags_of w _ = []

abbrev pub flag_items : List Bool → Items
flag_items [] = nil
flag_items (b ∷ bs) = cons (bool b) (flag_items bs)

-- `flags[-window:]` where there are more.
abbrev pub kept_flags : ℕ → List Bool → List Bool
kept_flags window flags = if ltb window (length flags) then from_end window flags else flags

abbrev pub suc_int : ℤ → ℤ
suc_int (pos n) = pos (suc n)
suc_int (negsuc zero) = pos 0
suc_int (negsuc (suc n)) = negsuc n

abbrev pub at_least : ℕ → ℤ → Bool
at_least cap (pos n) = leb cap n
at_least cap (negsuc n) = false

-- The number under a key, a `bool` counting as one or not.
abbrev pub exhausted_before : Option Value → ℤ
exhausted_before (some (int n)) = n
exhausted_before (some (bool b)) = pos (bit b)
exhausted_before _ = pos 0

abbrev pub pauses_before : Option Value → ℤ
pauses_before (some (int n)) = n
pauses_before _ = pos 0

-- `isinstance(v, (int, float))`
abbrev pub number_of : TurnOutside → Option Value → Option ℤ
number_of w (some (int n)) = some n
number_of w (some (bool b)) = some (pos (bit b))
number_of w (some (opaque_value n)) = elim (w.opaque_number n) [
  | none ↦ none
  | some m ↦ some (pos m)
]
number_of w _ = none

-- `now - since >= timeout`
abbrev pub has_elapsed : ℕ → ℕ → ℤ → Bool
has_elapsed now timeout (pos n) = leb (n + timeout) now
has_elapsed now timeout (negsuc n) = leb timeout (now + suc n)

abbrev pub stop_after : ℕ → Option Value → ℕ
stop_after default (some (int (pos (suc n)))) = suc n
stop_after default _ = default

abbrev pub fire_time : Fire → Option ℕ
fire_time (fires t) = some t
fire_time _ = none

abbrev pub has_text : Option String → Bool
has_text none = false
has_text (some s) = not (str_eq s "")
