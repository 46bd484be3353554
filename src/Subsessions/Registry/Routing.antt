-- ===== src/Subsessions/Registry/Routing.antt =====
-- The routing of a ticket's events in src/robotsix_chat/subsessions/registry_tickets.py, with
-- `user_chat_ticket_id` of registry_checkpoint.py. The pattern of a ticket id is an input.
pub mod Delivered
pub mod Waking
use Prim.Native.String
use robotsix_chat.Base.{
  ℕ, zero, suc, ◌+◌, String, Bool, true, false, not, ◌&&◌, ◌||◌, Option, none, some, List, [], ◌∷◌,
  ◌++◌, str_eq, elem, is_empty, if◌then◌else◌,
}
use robotsix_chat.Base.Dict.{Dict, get, put, remove, keys, get_or}
use robotsix_chat.Subsessions.Model.{
  SubsessionInfo, Summary, ticket_moved, is_active, is_user_chat, opt_eq,
}
use robotsix_chat.Subsessions.Registry.State.{Registry}
use robotsix_chat.Subsessions.Registry.Messages.{enqueue_message}
use robotsix_chat.Subsessions.Registry.Closing.{Callback, cancel_and_close}
use robotsix_chat.Subsessions.Registry.Lifecycle.{find_paused_periodic_by_ticket_id}

-- TICKET_ID_RE, and Python's `lower`.
pub record Patterns : Type 0 where
  pub full_match : String → Bool
  pub search : String → Option String
  pub lower : String → String

abbrev pub decision_gate_states : List String
decision_gate_states =
    "human_issue_approval" ∷ "human_mr_approval" ∷ "awaiting_user_reply" ∷ "blocked" ∷ []

abbrev pub key_ticket : Patterns → Option String → Option String
key_ticket p none = none
key_ticket p (some key) = if not (str_eq key "") && p.full_match key then some key else none

unfoldable pub user_chat_ticket_id : Patterns → SubsessionInfo → Option String
user_chat_ticket_id p i = elim (is_user_chat i.kind) [
  | false ↦ none
  | true ↦ elim (key_ticket p i.dedup_key) [
    | some key ↦ some key
    | none ↦ p.search (String.◌++◌ i.title (String.◌++◌ "\n" i.prompt))
  ]
]

-- Whether the record is an active panel about the ticket.
abbrev pub is_panel : Patterns → String → Option SubsessionInfo → Bool
is_panel p ticket none = false
is_panel p ticket (some i) = is_active i && opt_eq (user_chat_ticket_id p i) ticket

unfoldable pub find_active_user_chat_by_ticket_id :
    Patterns → String → Dict SubsessionInfo → Option String
find_active_user_chat_by_ticket_id p ticket [] = none
find_active_user_chat_by_ticket_id p ticket ((id, i) ∷ rest) =
    if is_panel p ticket (some i)
    then some i.id
    else find_active_user_chat_by_ticket_id p ticket rest

abbrev pub one_if {ℓ} : {A : Type ℓ} → Option A → ℕ
one_if none = 0
one_if (some a) = 1

-- The loop over the records that were there at its start.
unfoldable pub close_panels :
    List Callback → Patterns → Summary → String → List String → Registry → Registry × ℕ
close_panels callbacks p summary ticket [] r = (r, 0)
close_panels callbacks p summary ticket (id ∷ ids) r =
    let (r1, closed) : Registry × Option SubsessionInfo =
      if is_panel p ticket (get id r.subs)
      then cancel_and_close callbacks id "ticket_moved" "system" (some summary) r
      else (r, none) in
    let (r2, n) = close_panels callbacks p summary ticket ids r1 in (r2, one_if closed + n)

unfoldable pub close_user_chats_for_moved_ticket :
    List Callback → Patterns → String → String → String → Registry → Registry × ℕ
unfolding close_panels
close_user_chats_for_moved_ticket callbacks p ticket old_state new_state r =
    if str_eq new_state "" || elem (p.lower new_state) decision_gate_states
    then (r, 0)
    else close_panels callbacks p (ticket_moved ticket old_state new_state) ticket (keys r.subs) r

-- The loop over the waiters: what is left of them, and how many were woken.
pub record Woken : Type 0 where
  pub registry : Registry
  pub waiters : List String
  pub woken : ℕ

abbrev pub add_woken : String → Bool → Woken → Woken
add_woken id true k = record k { waiters = id ∷ k.waiters; woken = suc k.woken }
add_woken id false k = k

unfoldable pub wake_each : String → List String → Registry → Woken
wake_each text [] r = record { registry = r; waiters = []; woken = 0 }
wake_each text (id ∷ ids) r =
    let (r', queued) = enqueue_message id "system" text r in
    add_woken id queued (wake_each text ids r')

abbrev pub with_waiters : String → Woken → Woken
with_waiters ticket k = record k {
  registry = record k.registry {
    event_waiters =
        if is_empty k.waiters
        then remove ticket k.registry.event_waiters
        else put ticket k.waiters k.registry.event_waiters;
  };
}

abbrev pub wake_listed : String → String → List String → Registry → Woken
wake_listed ticket text [] r = record { registry = r; waiters = []; woken = 0 }
wake_listed ticket text (id ∷ ids) r = with_waiters ticket (wake_each text (id ∷ ids) r)

-- The first part of `route_mill_event`.
unfoldable pub wake_waiters : String → String → Registry → Woken
unfolding wake_each
wake_waiters ticket text r = wake_listed ticket text (get_or ticket [] r.event_waiters) r

unfoldable pub wake_paused : String → List SubsessionInfo → Registry → Registry × ℕ
wake_paused text [] r = (r, 0)
wake_paused text (i ∷ is) r =
    let (r1, queued) = enqueue_message i.id "system" text r in
    let (r2, n) = wake_paused text is r1 in (r2, if queued then suc n else n)

-- `event_text`
abbrev pub event_text : String → String → String → String → String
event_text ticket old_state new_state timestamp = String.◌++◌ "Mill event: ticket " (
    String.◌++◌ ticket (
      String.◌++◌ " state changed from '" (
        String.◌++◌ old_state (
          String.◌++◌ "' to '" (
            String.◌++◌ new_state (
              String.◌++◌ "' at " (
                String.◌++◌ timestamp
                  ". This event was pushed from the mill — you MUST verify the current state via a live GET of the ticket API before acting on it.")))))))

-- `route_mill_event`, with the texts of the payload.
unfoldable pub route_mill_event :
    List Callback → Patterns → String → String → String → String → Registry → Registry × ℕ
unfolding wake_paused
route_mill_event callbacks p ticket old_state new_state timestamp r =
    let text = event_text ticket old_state new_state timestamp in
    let k = wake_waiters ticket text r in
    let (r', n) =
      wake_paused text (find_paused_periodic_by_ticket_id ticket k.registry) k.registry in
    ((close_user_chats_for_moved_ticket callbacks p ticket old_state new_state r').0, k.woken + n)
