-- ===== src/Subsessions/Registry/Tickets/Owners.antt =====
-- Whom `get_owner_session_ids_for_ticket` names.
use robotsix_chat.Base.{
  String, Bool, true, false, ◌&&◌, ◌||◌, Option, none, some, List, [], ◌∷◌, ◌≡◌, ap, ◌∙◌, arith,
  str_eq, eq_iff, elem, any_if, keep_if, set_add, elem-set_add, if◌then◌else◌,
}
use robotsix_chat.Base.Dict.{get, get_or, values}
use robotsix_chat.Subsessions.Model.{SubsessionInfo, is_paused, is_monitor, active_status}
use robotsix_chat.Subsessions.Checkpoint.{tracks}
use robotsix_chat.Subsessions.Registry.State.{Registry}
use robotsix_chat.Subsessions.Registry.Lifecycle.{find_paused_periodic_by_ticket_id}
use robotsix_chat.Subsessions.Registry.Tickets.{
  add_owner, add_waiters, add_owners, add_tracking, is_tracking, get_owner_session_ids_for_ticket,
}

-- The session is the owner of one of the ids' records, of one of the records that track the ticket.
abbrev pub owns : String → Option SubsessionInfo → Bool
owns s none = false
owns s (some i) = str_eq s i.owner_session_id

abbrev pub owns_waiter : String → List String → Registry → Bool
owns_waiter s [] r = false
owns_waiter s (id ∷ ids) r = owns s (get id r.subs) || owns_waiter s ids r

elem-add_owner :
    (s : String) (o : Option SubsessionInfo) (l : List String)
    → str_eq s "" ≡ false
    → elem s (add_owner o l) ≡ (elem s l || owns s o)
elem-add_owner s none l e = ground arith
elem-add_owner s (some i) l e = ground (
  arith,
  e,
  elem-set_add s i.owner_session_id l,
  eq_iff i.owner_session_id "",
  eq_iff s i.owner_session_id,
)

elem-add_waiters :
    (s : String) (ids : List String) (r : Registry) (l : List String)
    → str_eq s "" ≡ false
    → elem s (add_waiters ids r l) ≡ (elem s l || owns_waiter s ids r)
unfolding add_waiters
elem-add_waiters s [] r l e = ground arith
elem-add_waiters s (id ∷ ids) r l e = ground (
  arith,
  elem-add_waiters s ids r (add_owner (get id r.subs) l) e,
  elem-add_owner s (get id r.subs) l e,
)

elem-add_owners :
    (s : String) (is : List SubsessionInfo) (l : List String)
    → str_eq s "" ≡ false
    → elem s (add_owners is l) ≡ (elem s l || any_if (λ i. str_eq s i.owner_session_id) is)
unfolding add_owners
elem-add_owners s [] l e = ground arith
elem-add_owners s (i ∷ is) l e =
    ground (arith, elem-add_owners s is (add_owner (some i) l) e, elem-add_owner s (some i) l e)

elem-add_tracking :
    (s ticket : String) (is : List SubsessionInfo) (l : List String)
    → elem s (add_tracking ticket is l)
      ≡ (elem s l || any_if (λ i. is_tracking ticket i && str_eq s i.owner_session_id) is)
unfolding add_tracking
elem-add_tracking s ticket [] l = ground arith
elem-add_tracking s ticket (i ∷ is) l = ground (
  arith,
  elem-add_tracking s ticket is (if is_tracking ticket i then set_add i.owner_session_id l else l),
  elem-set_add s i.owner_session_id l,
)

-- A paused monitor of the ticket is found by the scan of the active ones too.
paused_tracks :
    (s ticket : String) (is : List SubsessionInfo)
    → any_if
        (λ i. str_eq s i.owner_session_id)
        (keep_if (λ i. is_monitor i.kind && is_paused i.status && tracks i.checkpoint ticket) is)
      ≡ true
    → any_if (λ i. is_tracking ticket i && str_eq s i.owner_session_id) is ≡ true
unfolding active_status
paused_tracks s ticket [] e = absurd (ground (arith, e))
paused_tracks s ticket (i ∷ is) e = ground (arith, e, paused_tracks s ticket is)

absorbed : (w p t : Bool) → (p ≡ true → t ≡ true) → (((false || w) || p) || t) ≡ (w || t)
absorbed w p t h = ground (arith, h)

-- A session, with a name, is among the owners of a ticket exactly when it owns the record of an event
-- waiter of the ticket or an active monitor whose checkpoint tracks it. The separate search for paused
-- monitors adds none.
pub owners_exact :
    (s ticket : String) (r : Registry)
    → str_eq s "" ≡ false
    → elem s (get_owner_session_ids_for_ticket ticket r) ≡ (
        owns_waiter s (get_or ticket [] r.event_waiters) r
        || any_if (λ i. is_tracking ticket i && str_eq s i.owner_session_id) (values r.subs))
unfolding get_owner_session_ids_for_ticket find_paused_periodic_by_ticket_id
owners_exact s ticket r e =
    let waiting = add_waiters (get_or ticket [] r.event_waiters) r [] in
    let paused = find_paused_periodic_by_ticket_id ticket r in
    elem-add_tracking s ticket (values r.subs) (add_owners paused waiting)
    ∙ ap (λ b. b || tracking) (elem-add_owners s paused waiting e)
    ∙ ap (λ b. (b || any_if (λ i. str_eq s i.owner_session_id) paused) || tracking)
        (elem-add_waiters s (get_or ticket [] r.event_waiters) r [] e)
    ∙ absorbed (owns_waiter s (get_or ticket [] r.event_waiters) r)
        (any_if (λ i. str_eq s i.owner_session_id) paused) tracking
        (paused_tracks s ticket (values r.subs))
  where
    tracking : Bool
    tracking = any_if (λ i. is_tracking ticket i && str_eq s i.owner_session_id) (values r.subs)
