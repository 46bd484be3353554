-- ===== src/Subsessions/Model.antt =====
-- src/robotsix_chat/subsessions/models.py: the enums and the records, and the frames of
-- src/robotsix_chat/chat/events.py that announce a record's changes.
-- Times and intervals are whole numbers of a fixed small unit. A summary is kept as the template
-- that the code fills in and the texts that it is filled with.
use robotsix_chat.Base.{ℕ, String, Bool, true, false, Option, none, some, List, elem, str_eq}

pub data SubsessionKind : Type 0 where
  task periodic wait_for_event user_chat on_close : SubsessionKind

pub data SubsessionStatus : Type 0 where
  running waiting sleeping paused closed failed interrupted : SubsessionStatus

-- The members of ACTIVE_STATUSES.
unfoldable pub active_status : SubsessionStatus → Bool
active_status SubsessionStatus.running = true
active_status SubsessionStatus.waiting = true
active_status SubsessionStatus.sleeping = true
active_status SubsessionStatus.paused = true
active_status SubsessionStatus.closed = false
active_status SubsessionStatus.failed = false
active_status SubsessionStatus.interrupted = false

abbrev pub is_paused : SubsessionStatus → Bool
is_paused SubsessionStatus.paused = true
is_paused _ = false

abbrev pub is_closed : SubsessionStatus → Bool
is_closed SubsessionStatus.closed = true
is_closed _ = false

-- The members of `_MONITOR_KINDS`.
abbrev pub is_monitor : SubsessionKind → Bool
is_monitor SubsessionKind.periodic = true
is_monitor SubsessionKind.wait_for_event = true
is_monitor _ = false

abbrev pub is_user_chat : SubsessionKind → Bool
is_user_chat SubsessionKind.user_chat = true
is_user_chat _ = false

abbrev pub is_periodic : SubsessionKind → Bool
is_periodic SubsessionKind.periodic = true
is_periodic _ = false

-- `n` and -(n + 1)
pub data ℤ : Type 0 where
  pos : ℕ → ℤ
  negsuc : ℕ → ℤ

-- What a checkpoint's JSON dict holds under a key. Floats and nested dicts are never looked into.
mutual
  pub data Value : Type 0 where
    null : Value
    bool : Bool → Value
    int : ℤ → Value
    str : String → Value
    arr : Items → Value
    opaque_value : ℕ → Value

  pub data Items : Type 0 where
    nil : Items
    cons : Value → Items → Items

abbrev pub Checkpoint : Type 0
Checkpoint = List (String × Value)

pub data Summary : Type 0 where
  text : String → Summary
  closed_externally : String → String → Summary
  failed_with : String → String → Summary
  waits_for : String → Option String → Summary
  record_lost : Summary
  ticket_moved : String → String → String → Summary
  run_limit : ℕ → String → Summary
  run_limit_again : ℕ → ℤ → String → Summary
  pause_limit : ℤ → Summary
  no_change_pause : ℕ → ℤ → ℕ → Summary
  no_change_stop : ℕ → Summary

pub record TranscriptEntry : Type 0 where
  pub role : String
  pub text : String
  pub timestamp : ℕ

pub record InboxMessage : Type 0 where
  pub role : String
  pub text : String
  pub timestamp : ℕ

pub record SubsessionInfo : Type 0 where
  pub id : String
  pub kind : SubsessionKind
  pub owner_session_id : String
  pub parent_id : Option String
  pub depth : ℕ
  pub title : String
  pub prompt : String
  pub model_level : ℕ
  pub status : SubsessionStatus
  pub created_at : ℕ
  pub last_activity_at : ℕ
  pub interval_seconds : Option ℕ
  pub anchor_time : Option String
  pub next_run_at : Option ℕ
  pub include_previous_result : Bool
  pub runs : ℕ
  pub max_runs : Option ℕ
  pub last_result : Option String
  pub completed_runs : List ℕ
  pub event_timeout_seconds : Option ℕ
  pub run_timeout_seconds : Option ℕ
  pub summary : Option Summary
  pub close_reason : Option String
  pub error : Option String
  pub transcript : List TranscriptEntry
  pub turn_history : List (String × String)
  pub checkpoint : Option Checkpoint
  pub consecutive_no_change : ℕ
  pub consecutive_errored_runs : ℕ
  pub dedup_key : Option String
  pub depends_on_ticket_id : Option String
  pub retry_count : ℕ

abbrev pub is_active : SubsessionInfo → Bool
is_active i = active_status i.status

-- A comparison of an optional text with a text, and its membership in a tuple of literals.
abbrev pub opt_eq : Option String → String → Bool
opt_eq none s = false
opt_eq (some t) s = str_eq t s

abbrev pub opt_in : Option String → List String → Bool
opt_in none l = false
opt_in (some t) l = elem t l

-- The frames that the registry publishes; a started frame carries the record's snapshot.
pub data Frame : Type 0 where
  subsession_started : SubsessionInfo → Frame
  subsession_updated : String → SubsessionStatus → ℕ → Option ℕ → ℕ → Option String → Frame
  subsession_message : String → String → String → ℕ → Frame
  subsession_closed :
      String → SubsessionKind → String → String → Summary → String → Option String → Frame
  subsession_failed :
      String → SubsessionKind → String → Option String → Summary → Option String → Frame
