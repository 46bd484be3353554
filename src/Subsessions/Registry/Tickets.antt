-- ===== src/Subsessions/Registry/Tickets.antt =====
-- The queries by ticket and the event waiters of src/robotsix_chat/subsessions/registry_tickets.py.
pub mod Owners
pub mod Waiters
use robotsix_chat.Base.{
  ℕ, String, Bool, true, false, not, ◌&&◌, ◌||◌, Option, none, some, List, [], ◌∷◌, ◌++◌, str_eq,
  elem, any_if, is_empty, set_add, discard, if◌then◌else◌,
}
use robotsix_chat.Base.Dict.{Dict, get, put, remove, values, get_or}
use robotsix_chat.Subsessions.Model.{
  SubsessionInfo, SubsessionStatus, is_active, is_monitor, is_paused, is_closed, opt_eq, opt_in,
}
use robotsix_chat.Subsessions.Checkpoint.{tracks}
use robotsix_chat.Subsessions.Registry.State.{Registry}
use robotsix_chat.Subsessions.Registry.Closing.{ticket_terminal_close_reasons}
use robotsix_chat.Subsessions.Registry.Lifecycle.{find_paused_periodic_by_ticket_id}

abbrev gone : Option SubsessionInfo → Bool
gone none = true
gone (some i) = not (is_active i)

unfoldable pub is_dedup_key_active : String → Registry → Registry × Option String
is_dedup_key_active key r = elim (get key r.active_dedup_keys) [
  | none ↦ (r, none)
  | some sub_id ↦
      if gone (get sub_id r.subs)
      then (record r { active_dedup_keys = remove key r.active_dedup_keys }, none)
      else (r, some sub_id)
]

unfoldable pub register_event_waiter : String → String → Registry → Registry
register_event_waiter sub_id ticket r = record r {
  event_waiters = put ticket (set_add sub_id (get_or ticket [] r.event_waiters)) r.event_waiters;
}

unfoldable pub unregister_event_waiter : String → String → Registry → Registry
unregister_event_waiter sub_id ticket r = elim (get ticket r.event_waiters) [
  | none ↦ r
  | some waiters ↦
      let rest = discard sub_id waiters in
      record r {
        event_waiters =
            if is_empty rest
            then remove ticket r.event_waiters
            else put ticket rest r.event_waiters;
      }
]

-- `if info is not None and info.owner_session_id: sessions.add(info.owner_session_id)`
abbrev pub add_owner : Option SubsessionInfo → List String → List String
add_owner none sessions = sessions
add_owner (some i) sessions =
    if str_eq i.owner_session_id "" then sessions else set_add i.owner_session_id sessions

unfoldable pub add_waiters : List String → Registry → List String → List String
add_waiters [] r sessions = sessions
add_waiters (id ∷ ids) r sessions = add_waiters ids r (add_owner (get id r.subs) sessions)

unfoldable pub add_owners : List SubsessionInfo → List String → List String
add_owners [] sessions = sessions
add_owners (i ∷ is) sessions = add_owners is (add_owner (some i) sessions)

-- The test of the catch-all scan; an owner that is there already is passed over.
abbrev pub is_tracking : String → SubsessionInfo → Bool
is_tracking ticket i = is_monitor i.kind && is_active i && tracks i.checkpoint ticket

unfoldable pub add_tracking : String → List SubsessionInfo → List String → List String
add_tracking ticket [] sessions = sessions
add_tracking ticket (i ∷ is) sessions =
    add_tracking ticket is
      (if is_tracking ticket i then set_add i.owner_session_id sessions else sessions)

unfoldable pub get_owner_session_ids_for_ticket : String → Registry → List String
unfolding add_waiters add_owners add_tracking
get_owner_session_ids_for_ticket ticket r = add_tracking ticket (values r.subs) (
    add_owners (find_paused_periodic_by_ticket_id ticket r)
      (add_waiters (get_or ticket [] r.event_waiters) r []))

unfoldable pub is_duplicate_ticket_terminal : String → String → Registry → Bool
is_duplicate_ticket_terminal ticket exclude r =
    any_if
      (λ i.
        not (str_eq i.id exclude)
        && is_closed i.status
        && tracks i.checkpoint ticket
        && opt_in i.close_reason ("ticket_terminal" ∷ "completed" ∷ []))
      (values r.subs)

unfoldable pub has_terminal_report_for_ticket : String → Registry → Bool
has_terminal_report_for_ticket ticket r =
    any_if
      (λ i.
        is_closed i.status
        && (tracks i.checkpoint ticket || opt_eq i.dedup_key ticket)
        && opt_in i.close_reason (ticket_terminal_close_reasons ++ "completed" ∷ []))
      (values r.subs)

unfoldable pub is_duplicate_auto_pause : String → String → Registry → Bool
is_duplicate_auto_pause ticket exclude r =
    any_if
      (λ i.
        not (str_eq i.id exclude)
        && (is_closed i.status || is_paused i.status)
        && tracks i.checkpoint ticket
        && opt_in i.close_reason
            ("paused" ∷ "no_change_auto_stop" ∷ "ticket_terminal" ∷ "completed" ∷ []))
      (values r.subs)
