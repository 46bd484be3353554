-- ===== src/Subsessions/Registry/Tickets/Waiters.antt =====
-- The event waiters of a ticket as a set.
use robotsix_chat.Base.{
  String, Bool, true, false, not, ◌&&◌, ◌||◌, List, [], ◌∷◌, ◌≡◌, refl, arith, str_eq, eq_iff, elem,
  is_empty, set_add, discard, elem-set_add, elem-discard, Option-cases, Bool-cases, inl, inr,
}
use robotsix_chat.Base.Dict.{get, get_or}
use robotsix_chat.Base.Dict.Laws.{get_or-put, get_or-remove}
use robotsix_chat.Subsessions.Registry.State.{Registry}
use robotsix_chat.Subsessions.Registry.Tickets.{register_event_waiter, unregister_event_waiter}

abbrev pub is_waiter : String → String → Registry → Bool
is_waiter sub_id ticket r = elem sub_id (get_or ticket [] r.event_waiters)

register_event_waiter-waits :
    (s t sub_id ticket : String) (r : Registry)
    → is_waiter s t (register_event_waiter sub_id ticket r)
      ≡ (is_waiter s t r || (str_eq s sub_id && str_eq t ticket))
unfolding register_event_waiter
register_event_waiter-waits s t sub_id ticket r = ground (
  arith,
  get_or-put t ticket [] (set_add sub_id (get_or ticket [] r.event_waiters)) r.event_waiters,
  elem-set_add s sub_id (get_or ticket [] r.event_waiters),
  eq_iff t ticket,
  eq_iff ticket t,
)

empty-lacks : (s : String) (l : List String) → is_empty l ≡ true → elem s l ≡ false
empty-lacks s [] e = refl
empty-lacks s (x ∷ l) e = absurd (ground (arith, e))

unregister_event_waiter-waits :
    (s t sub_id ticket : String) (r : Registry)
    → is_waiter s t (unregister_event_waiter sub_id ticket r)
      ≡ (is_waiter s t r && not (str_eq s sub_id && str_eq t ticket))
unfolding unregister_event_waiter
unregister_event_waiter-waits s t sub_id ticket r =
    elim (Option-cases (get ticket r.event_waiters)) [
      | inl e ↦ rw (e, unregister_event_waiter) (ground (arith, e, eq_iff t ticket))
      | inr (ws, e) ↦ elim (Bool-cases (is_empty (discard sub_id ws))) [
        | inl q ↦
            rw (e, unregister_event_waiter)
              (rw q (
                ground (
                  arith,
                  q,
                  e,
                  get_or-remove t ticket [] r.event_waiters,
                  elem-discard s sub_id ws,
                  empty-lacks s (discard sub_id ws),
                  eq_iff t ticket,
                  eq_iff ticket t,
                )))
        | inr q ↦
            rw (e, unregister_event_waiter)
              (rw q (
                ground (
                  arith,
                  q,
                  e,
                  get_or-put t ticket [] (discard sub_id ws) r.event_waiters,
                  elem-discard s sub_id ws,
                  empty-lacks s (discard sub_id ws),
                  eq_iff t ticket,
                  eq_iff ticket t,
                )))
      ]
    ]

-- Registering adds the subsession to the ticket's waiters and unregistering takes it out; every other
-- subsession and every other ticket is left as it was, so unregistering what was not there undoes a
-- registration.
pub waiters_lem :
    (s t sub_id ticket : String) (r : Registry)
    → (is_waiter s t (register_event_waiter sub_id ticket r)
        ≡ (is_waiter s t r || (str_eq s sub_id && str_eq t ticket)))
      × (is_waiter s t (unregister_event_waiter sub_id ticket r)
          ≡ (is_waiter s t r && not (str_eq s sub_id && str_eq t ticket)))
      × (is_waiter sub_id ticket r ≡ false
          → is_waiter s t
              (unregister_event_waiter sub_id ticket (register_event_waiter sub_id ticket r))
            ≡ is_waiter s t r)
waiters_lem s t sub_id ticket r =
    let r' = register_event_waiter sub_id ticket r in
    (
      register_event_waiter-waits s t sub_id ticket r,
      unregister_event_waiter-waits s t sub_id ticket r,
      λ e.
          undone s t sub_id ticket (is_waiter s t r)
            (λ p q. ground (arith, e, eq_iff s sub_id, eq_iff t ticket, p, q))
            (unregister_event_waiter-waits s t sub_id ticket r')
            (register_event_waiter-waits s t sub_id ticket r),
    )
  where
    undone :
        (s t sub_id ticket : String) (w : Bool) {a b : Bool}
        → (str_eq s sub_id ≡ true → str_eq t ticket ≡ true → w ≡ false)
        → a ≡ (b && not (str_eq s sub_id && str_eq t ticket))
        → b ≡ (w || (str_eq s sub_id && str_eq t ticket))
        → a ≡ w
    undone s t sub_id ticket w h p q = ground (arith, h, p, q)
