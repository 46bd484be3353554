-- ===== src/Subsessions/Checkpoint.antt =====
-- src/robotsix_chat/subsessions/registry_checkpoint.py: what a checkpoint says of its ticket, and
-- the system-owned keys that survive when an agent replaces the whole dict.
pub mod Preserve
use robotsix_chat.Base.{
  ℕ, suc, zero, String, Bool, true, false, Option, none, some, List, [], ◌∷◌, str_eq, if◌then◌else◌,
}
use robotsix_chat.Base.Dict.{get, put, get_or}
use robotsix_chat.Subsessions.Model.{
  Value, str, int, arr, ℤ, pos, negsuc, Items, Checkpoint, SubsessionInfo, SubsessionKind,
}

-- `checkpoint or {}`
abbrev pub or_empty : Option Checkpoint → Checkpoint
or_empty none = []
or_empty (some cp) = cp

abbrev pub cp_get : Option Checkpoint → String → Option Value
cp_get none k = none
cp_get (some cp) k = get k cp

abbrev pub text_value : Option Value → Option String
text_value (some (str s)) = some s
text_value _ = none

-- The non-empty text under `ticket_id`; `none` is the code's empty string.
unfoldable pub checkpoint_ticket_id : Option Checkpoint → Option String
checkpoint_ticket_id cp = elim (text_value (cp_get cp "ticket_id")) [
  | none ↦ none
  | some s ↦ if str_eq s "" then none else some s
]

-- The test that the registry's queries write out: `ticket_id` is a text equal to the given one.
unfoldable pub tracks : Option Checkpoint → String → Bool
tracks cp ticket = elim (text_value (cp_get cp "ticket_id")) [
  | none ↦ false
  | some s ↦ str_eq s ticket
]

-- `previous or info.dedup_key`, then `if not ticket_id`.
abbrev pub or_key : Option String → Option String → Option String
or_key (some s) key = some s
or_key none none = none
or_key none (some k) = if str_eq k "" then none else some k

abbrev pub merge : String → Value → Option Checkpoint → Option Checkpoint
merge k v cp = some (put k v (or_empty cp))

abbrev pub merge_some : String → Option Value → Option Checkpoint → Option Checkpoint
merge_some k none cp = cp
merge_some k (some v) cp = merge k v cp

abbrev pub as_str : Option String → Option Value
as_str none = none
as_str (some s) = some (str s)

pub preserve_event_ticket_id : SubsessionInfo → Option Checkpoint → Option Checkpoint
unfolding checkpoint_ticket_id
preserve_event_ticket_id info cp = elim (checkpoint_ticket_id cp) [
  | some s ↦ cp
  | none ↦
      merge_some "ticket_id" (as_str (or_key (checkpoint_ticket_id info.checkpoint) info.dedup_key))
        cp
]

-- A positive `int` that is no `bool`.
abbrev pub positive_int : Option Value → Option Value
positive_int (some (int (pos (suc n)))) = some (int (pos (suc n)))
positive_int _ = none

pub checkpoint_auto_stop_no_change_runs : Option Checkpoint → Option Value
checkpoint_auto_stop_no_change_runs cp = positive_int (cp_get cp "auto_stop_no_change_runs")

pub preserve_periodic_auto_stop_no_change_runs :
    SubsessionInfo → Option Checkpoint → Option Checkpoint
unfolding checkpoint_auto_stop_no_change_runs
preserve_periodic_auto_stop_no_change_runs info cp = elim (checkpoint_auto_stop_no_change_runs cp) [
  | some v ↦ cp
  | none ↦
      merge_some "auto_stop_no_change_runs" (checkpoint_auto_stop_no_change_runs info.checkpoint) cp
]

-- Any `int` that is no `bool`; zero counts as present.
abbrev pub any_int : Option Value → Option Value
any_int (some (int n)) = some (int n)
any_int _ = none

pub checkpoint_no_change_pause_count : Option Checkpoint → Option Value
checkpoint_no_change_pause_count cp = any_int (cp_get cp "no_change_pause_count")

pub preserve_periodic_no_change_pause_count : SubsessionInfo → Option Checkpoint → Option Checkpoint
unfolding checkpoint_no_change_pause_count
preserve_periodic_no_change_pause_count info cp = elim (checkpoint_no_change_pause_count cp) [
  | some v ↦ cp
  | none ↦ merge_some "no_change_pause_count" (checkpoint_no_change_pause_count info.checkpoint) cp
]

abbrev pub any_arr : Option Value → Option Value
any_arr (some (arr xs)) = some (arr xs)
any_arr _ = none

pub preserve_periodic_progress_flags : SubsessionInfo → Option Checkpoint → Option Checkpoint
preserve_periodic_progress_flags info cp = elim (any_arr (cp_get cp "recent_progress_flags")) [
  | some v ↦ cp
  | none ↦
      merge_some "recent_progress_flags" (any_arr (cp_get info.checkpoint "recent_progress_flags"))
        cp
]

-- The replacement that `update_checkpoint` stores.
unfoldable pub preserved : SubsessionInfo → Option Checkpoint → Option Checkpoint
unfolding preserve_event_ticket_id preserve_periodic_auto_stop_no_change_runs
    preserve_periodic_no_change_pause_count preserve_periodic_progress_flags
preserved info cp = elim info.kind [
  | SubsessionKind.wait_for_event ↦ preserve_event_ticket_id info cp
  | SubsessionKind.periodic ↦ preserve_periodic_progress_flags info (
      preserve_periodic_no_change_pause_count info
        (preserve_periodic_auto_stop_no_change_runs info cp))
  | _ ↦ cp
]
