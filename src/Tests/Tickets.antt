-- ===== src/Tests/Tickets.antt =====
-- The event waiters, the owners of a ticket and a reopened monitor, at a concrete registry.
use robotsix_chat.Base.{
  String, true, false, not, ◌&&◌, ◌||◌, none, some, [], ◌≡◌, refl, str_eq, elem, any_if,
}
use robotsix_chat.Base.Dict.{get, get_or, values}
use robotsix_chat.Subsessions.Model.{SubsessionInfo, text, is_active, active_status}
use robotsix_chat.Subsessions.Registry.State.{Registry}
use robotsix_chat.Subsessions.Registry.Messages.{enqueue_message}
use robotsix_chat.Subsessions.Registry.Closing.{mark_closed}
use robotsix_chat.Subsessions.Registry.Lifecycle.{reopen}
use robotsix_chat.Subsessions.Registry.Lifecycle.Reopened.{reopened_deaf}
use robotsix_chat.Subsessions.Registry.Tickets.{
  is_tracking, get_owner_session_ids_for_ticket, register_event_waiter, unregister_event_waiter,
}
use robotsix_chat.Subsessions.Registry.Tickets.Owners.{owns_waiter, owners_exact}
use robotsix_chat.Subsessions.Registry.Tickets.Waiters.{is_waiter, waiters_lem}
use robotsix_chat.Tests.Sample.{monitor, busy, busy-KeysMatch}

abbrev reopened : Registry
reopened = (reopen "a" (mark_closed [] "a" (text "out of runs") "max_runs" "agent" busy).0).0

reopened_deaf_example :
    ((j : SubsessionInfo) × (get "a" reopened.subs ≡ some j) × (is_active j ≡ true))
    × ((role line : String) → enqueue_message "a" role line reopened ≡ (reopened, false))
    × (get "T-1" reopened.active_dedup_keys ≡ none)
unfolding get active_status
reopened_deaf_example =
    reopened_deaf [] "T-1" "a" (text "out of runs") "max_runs" "agent" busy monitor busy-KeysMatch
      refl refl refl refl refl (record {})

owners_exact_example : elem "s1" (get_owner_session_ids_for_ticket "T-1" busy) ≡ (
    owns_waiter "s1" (get_or "T-1" [] busy.event_waiters) busy
    || any_if (λ i. is_tracking "T-1" i && str_eq "s1" i.owner_session_id) (values busy.subs))
owners_exact_example = owners_exact "s1" "T-1" busy refl

waiters_lem_example :
    (is_waiter "b" "T-1" (register_event_waiter "b" "T-1" busy)
      ≡ (is_waiter "b" "T-1" busy || (str_eq "b" "b" && str_eq "T-1" "T-1")))
    × (is_waiter "b" "T-1" (unregister_event_waiter "b" "T-1" busy)
        ≡ (is_waiter "b" "T-1" busy && not (str_eq "b" "b" && str_eq "T-1" "T-1")))
    × (is_waiter "b" "T-1" busy ≡ false
        → is_waiter "b" "T-1"
            (unregister_event_waiter "b" "T-1" (register_event_waiter "b" "T-1" busy))
          ≡ is_waiter "b" "T-1" busy)
waiters_lem_example = waiters_lem "b" "T-1" "b" "T-1" busy
