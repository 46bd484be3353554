-- ===== src/Subsessions/Registry/Routing/Waking.antt =====
-- Whom an event wakes (src/robotsix_chat/subsessions/registry_tickets.py).
use robotsix_chat.Base.{
  suc, String, Bool, true, false, ◌||◌, Option, none, some, List, [], ◌∷◌, ◌++◌, length, keep_if,
  elem, is_empty, str_eq, eq_iff, ◌≡◌, refl, arith, sym, ap, ◌∙◌, subst, Bool-cases, inl, inr,
  if◌then◌else◌,
}
use robotsix_chat.Base.Dict.{Dict, get, get_or}
use robotsix_chat.Base.Dict.Laws.{get_or-put, get_or-remove}
use robotsix_chat.Subsessions.Model.{InboxMessage}
use robotsix_chat.Subsessions.Registry.State.{Registry}
use robotsix_chat.Subsessions.Registry.Messages.{enqueue_message}
use robotsix_chat.Subsessions.Registry.Messages.Open.{inbox_of}
use robotsix_chat.Subsessions.Registry.Routing.{
  Woken, wake_each, with_waiters, wake_listed, wake_waiters,
}
use robotsix_chat.Subsessions.Registry.Routing.Delivered.{
  delivered, undelivered, is_live, event, set_event,
}

abbrev pub NoRepeat : List String → Type 0
NoRepeat [] = Unit
NoRepeat (x ∷ xs) = (elem x xs ≡ false) × NoRepeat xs

-- The waiters that are live.
abbrev pub live_among : List String → Registry → List String
live_among ids r = keep_if (λ id. is_live id r) ids

keep_if-same :
    (p q : String → Bool) (ids : List String)
    → ((id : String) → p id ≡ q id)
    → keep_if p ids ≡ keep_if q ids
keep_if-same p q [] h = refl
keep_if-same p q (id ∷ ids) h =
    rw (h id) (ap (λ (l : List String). if q id then id ∷ l else l) (keep_if-same p q ids h))

-- What the loop over the waiters does.
record WokenFrom (text : String) (ids : List String) (r : Registry) (k : Woken) : Type 0 where
  left : k.waiters ≡ live_among ids r
  count : k.woken ≡ length k.waiters
  waiting : k.registry.event_waiters ≡ r.event_waiters
  inbox :
      (j : String)
      → inbox_of j k.registry ≡ (
          if elem j (live_among ids r) then inbox_of j r ++ event text r.now ∷ [] else inbox_of j r)
  wakes :
      (j : String)
      → get j k.registry.wake_events ≡ (
          if elem j (live_among ids r)
          then set_event (get j r.wake_events)
          else get j r.wake_events)

-- A name that is not among the waiters is not among the live ones.
elem-live_among :
    (j : String) (ids : List String) (r : Registry)
    → elem j ids ≡ false
    → elem j (live_among ids r) ≡ false
elem-live_among j [] r new = refl
elem-live_among j (id ∷ ids) r new = elim (Bool-cases (str_eq j id)) [
  | inl q ↦ absurd (cc (rw q at new))
  | inr q ↦ elim (Bool-cases (is_live id r)) [
    | inl live ↦ rw live (rw q (elem-live_among j ids r (rw q at new)))
    | inr dead ↦ rw dead (elem-live_among j ids r (rw q at new))
  ]
]

-- The inbox of `j` after one delivery to `id` and one to each of `live`.
inbox_twice :
    (id j : String) (live : List String) (inbox : List InboxMessage) (m : InboxMessage)
    → elem id live ≡ false
    → (if elem j live
        then (if str_eq id j then inbox ++ m ∷ [] else inbox) ++ m ∷ []
        else (if str_eq id j then inbox ++ m ∷ [] else inbox))
      ≡ (if str_eq j id || elem j live then inbox ++ m ∷ [] else inbox)
inbox_twice id j live inbox m new = elim (Bool-cases (str_eq id j)) [
  | inl q ↦
      let same : id ≡ j = (eq_iff id j).0 q in
      let back : str_eq j id ≡ true = (eq_iff j id).1 (sym same) in
      let out : elem j live ≡ false = subst (λ k. elem k live ≡ false) same new in
      rw (out, q, back) refl
  | inr q ↦ elim (Bool-cases (str_eq j id)) [
    | inl back ↦ absurd (cc (sym q ∙ (eq_iff id j).1 (sym ((eq_iff j id).0 back))))
    | inr back ↦ rw (q, back) refl
  ]
]

set_again : (value : Option Bool) → set_event (set_event value) ≡ set_event value
set_again none = refl
set_again (some value) = refl

-- The wake event of `j` after the same.
set_twice :
    (id j : String) (live : List String) (value : Option Bool)
    → (if elem j live
        then set_event (if str_eq id j then set_event value else value)
        else (if str_eq id j then set_event value else value))
      ≡ (if str_eq j id || elem j live then set_event value else value)
set_twice id j live value = ground (arith, eq_iff id j, eq_iff j id, set_again value)

WokenFrom-wake_each :
    (text : String) (ids : List String) (r : Registry)
    → NoRepeat ids
    → WokenFrom text ids r (wake_each text ids r)
unfolding wake_each
WokenFrom-wake_each text [] r u = record {
  left = refl;
  count = refl;
  waiting = refl;
  inbox = λ j. refl;
  wakes = λ j. refl;
}
WokenFrom-wake_each text (id ∷ ids) r (new, u) = elim (Bool-cases (is_live id r)) [
  | inr dead ↦
      let h = WokenFrom-wake_each text ids r u in
      rw (wake_each, undelivered id text r dead)
        (record {
          left = rw dead h.left;
          count = h.count;
          waiting = h.waiting;
          inbox = λ j. rw dead (h.inbox j);
          wakes = λ j. rw dead (h.wakes j);
        })
  | inl live ↦
      let r1 = (enqueue_message id "system" text r).0 in
      let (queued, d) = delivered id text r live in
      let h = WokenFrom-wake_each text ids r1 u in
      let same : live_among ids r1 ≡ live_among ids r =
        keep_if-same (λ j. is_live j r1) (λ j. is_live j r) ids d.lives in
      rw (wake_each, queued)
        (record {
          left = rw live (ap (id ∷◌) (h.left ∙ same));
          count = ap suc h.count;
          waiting = h.waiting ∙ d.waiters;
          inbox = λ j.
              rw (h.inbox j, same, d.clock, d.inbox j, live)
                (inbox_twice id j (live_among ids r) (inbox_of j r) (event text r.now)
                  (elem-live_among id ids r new));
          wakes = λ j.
              rw (h.wakes j, same, d.wakes j, live)
                (set_twice id j (live_among ids r) (get j r.wake_events));
        })
]

abbrev pub waiters_of : String → Registry → List String
waiters_of ticket r = get_or ticket [] r.event_waiters

nothing_left : (waiters : List String) → is_empty waiters ≡ true → waiters ≡ []
nothing_left [] e = refl
nothing_left (id ∷ ids) e = absurd (cc e)

waiters-with_waiters :
    (ticket other : String) (k : Woken)
    → waiters_of other (with_waiters ticket k).registry
      ≡ (if str_eq ticket other then k.waiters else waiters_of other k.registry)
waiters-with_waiters ticket other k = elim (Bool-cases (is_empty k.waiters)) [
  | inl e ↦ rw e (
      rw (get_or-remove other ticket [] k.registry.event_waiters)
        (rw (nothing_left k.waiters e) refl))
  | inr e ↦ rw e (get_or-put other ticket [] k.waiters k.registry.event_waiters)
]

-- What an event does to the registry, when `live` are the live waiters for its ticket.
pub record Waking (ticket text : String) (r : Registry) (live : List String) (k : Woken)
    : Type 0 where
  left : waiters_of ticket k.registry ≡ live
  count : k.woken ≡ length live
  others :
      (other : String)
      → str_eq ticket other ≡ false
      → waiters_of other k.registry ≡ waiters_of other r
  inbox :
      (j : String)
      → inbox_of j k.registry
        ≡ (if elem j live then inbox_of j r ++ event text r.now ∷ [] else inbox_of j r)
  wakes :
      (j : String)
      → get j k.registry.wake_events
        ≡ (if elem j live then set_event (get j r.wake_events) else get j r.wake_events)

Waking-wake_listed :
    (ticket text : String) (ids : List String) (r : Registry)
    → waiters_of ticket r ≡ ids
    → NoRepeat ids
    → Waking ticket text r (live_among ids r) (wake_listed ticket text ids r)
unfolding wake_each
Waking-wake_listed ticket text [] r e u = record {
  left = e;
  count = refl;
  others = λ other n. refl;
  inbox = λ j. refl;
  wakes = λ j. refl;
}
Waking-wake_listed ticket text (id ∷ ids) r e u =
    let h = WokenFrom-wake_each text (id ∷ ids) r u in
    let k = wake_each text (id ∷ ids) r in
    record {
      left = waiters-with_waiters ticket ticket k ∙ (rw ((eq_iff ticket ticket).1 refl) h.left);
      count = h.count ∙ ap length h.left;
      others = λ other n.
          waiters-with_waiters ticket other k
          ∙ (rw n (ap (λ (d : Dict (List String)). get_or other [] d) h.waiting));
      inbox = h.inbox;
      wakes = h.wakes;
    }

-- The first part of `route_mill_event` wakes each registered waiter that is live, which is one that is
-- active and has an inbox: its inbox gets the event once, at the end, and its wake event, where it has
-- one, is set. The inbox and the wake event of every other subsession are as before. The live ones stay
-- registered for the ticket and are counted, the other waiters for it are dropped, and the waiters for
-- other tickets stay. The waiters are a set.
pub wake_waiters_lem :
    (ticket text : String) (r : Registry)
    → NoRepeat (waiters_of ticket r)
    → Waking ticket text r (live_among (waiters_of ticket r) r) (wake_waiters ticket text r)
unfolding wake_waiters
wake_waiters_lem ticket text r u = Waking-wake_listed ticket text (waiters_of ticket r) r refl u
