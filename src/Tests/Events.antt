-- ===== src/Tests/Events.antt =====
-- A ticket's event, at a concrete registry.
use robotsix_chat.Base.{none, some, [], ◌∷◌, ◌≡◌, refl, str_eq}
use robotsix_chat.Base.Dict.{get, keys}
use robotsix_chat.Subsessions.Model.{SubsessionInfo, SubsessionKind, active_status}
use robotsix_chat.Subsessions.Registry.State.{Registry}
use robotsix_chat.Subsessions.Registry.Routing.{
  Patterns, wake_waiters, find_active_user_chat_by_ticket_id, user_chat_ticket_id,
  close_user_chats_for_moved_ticket, close_panels,
}
use robotsix_chat.Subsessions.Registry.Routing.Waking.{
  Waking, live_among, waiters_of, wake_waiters_lem,
}
use robotsix_chat.Subsessions.Registry.Closing.{cancel_and_close, close_found}
use robotsix_chat.Tests.Sample.{dependent, monitor, busy}

-- An open panel about the ticket, found by its key.
abbrev panel : SubsessionInfo
panel = record monitor {
  id = "p";
  kind = SubsessionKind.user_chat;
  checkpoint = none;
  parent_id = none;
}

abbrev tickets : Patterns
tickets = record { full_match = λ s. str_eq s "T-1"; search = λ s. none; lower = λ s. s }

-- One waiter is running, the other has ended.
abbrev waited : Registry
waited = record busy { event_waiters = ("T-1", "b" ∷ "c" ∷ []) ∷ [] }

wake_waiters_lem_example :
    Waking "T-1" "moved" waited
      (live_among (waiters_of "T-1" waited) waited)
      (wake_waiters "T-1" "moved" waited)
unfolding get
wake_waiters_lem_example = wake_waiters_lem "T-1" "moved" waited (refl, (refl, record {}))

-- The panel is found.
panel_found :
    find_active_user_chat_by_ticket_id tickets "T-1" (("b", dependent) ∷ ("p", panel) ∷ [])
    ≡ some "p"
unfolding find_active_user_chat_by_ticket_id user_chat_ticket_id active_status
panel_found = refl

abbrev with_panel : Registry
with_panel = record busy { subs = ("b", dependent) ∷ ("p", panel) ∷ [] }

-- The ticket has left its gate: the panel is closed.
panel_closed :
    (close_user_chats_for_moved_ticket [] tickets "T-1" "blocked" "open" with_panel).1 ≡ 1
unfolding close_user_chats_for_moved_ticket close_panels user_chat_ticket_id get active_status keys
    cancel_and_close close_found
panel_closed = refl

-- The ticket is still at a gate.
panel_kept :
    close_user_chats_for_moved_ticket [] tickets "T-1" "open" "blocked" with_panel ≡ (with_panel, 0)
unfolding close_user_chats_for_moved_ticket
panel_kept = refl
