-- ===== src/Subsessions/Registry/Routing/Delivered.antt =====
-- What `enqueue_message` of src/robotsix_chat/subsessions/registry.py does to a record that is active and
-- has an inbox, and to the others.
use robotsix_chat.Base.{
  ℕ, String, Bool, true, false, Option, none, some, List, [], ◌∷◌, ◌++◌, str_eq, eq_iff, ◌≡◌, refl,
  arith, sym, ap, subst, Bool-cases, Option-cases, inl, inr, if◌then◌else◌,
}
use robotsix_chat.Base.Dict.{Dict, get, put, get_or}
use robotsix_chat.Base.Dict.Laws.{get-put, get-put_same, get_or-put, get_or-some}
use robotsix_chat.Subsessions.Model.{SubsessionInfo, InboxMessage, is_active}
use robotsix_chat.Subsessions.Registry.State.{Registry, publish, persist}
use robotsix_chat.Subsessions.Registry.Messages.{
  append_transcript, enqueue_message, enqueue_active, signal, clip,
}
use robotsix_chat.Subsessions.Registry.Messages.Open.{inbox_of}

abbrev live_of : Option SubsessionInfo → Option (List InboxMessage) → Bool
live_of (some i) (some inbox) = is_active i
live_of _ _ = false

-- The record is active and has an inbox.
abbrev pub is_live : String → Registry → Bool
is_live id r = live_of (get id r.subs) (get id r.inboxes)

abbrev pub event : String → ℕ → InboxMessage
event text now = record { role = "system"; text = text; timestamp = now }

-- A wake event, where there is one, that is set.
abbrev pub set_event : Option Bool → Option Bool
set_event none = none
set_event (some value) = some true

-- What one delivery does.
pub record Delivered (id text : String) (r r' : Registry) : Type 0 where
  pub lives : (j : String) → is_live j r' ≡ is_live j r
  pub inbox :
      (j : String)
      → inbox_of j r'
        ≡ (if str_eq id j then inbox_of j r ++ event text r.now ∷ [] else inbox_of j r)
  pub wakes :
      (j : String)
      → get j r'.wake_events
        ≡ (if str_eq id j then set_event (get j r.wake_events) else get j r.wake_events)
  pub waiters : r'.event_waiters ≡ r.event_waiters
  pub clock : r'.now ≡ r.now

pub undelivered :
    (id text : String) (r : Registry)
    → is_live id r ≡ false
    → enqueue_message id "system" text r ≡ (r, false)
unfolding enqueue_message enqueue_active
undelivered id text r h = elim (Option-cases (get id r.subs)) [
  | inl n ↦ rw (enqueue_message, n) refl
  | inr (i, e) ↦ elim (Bool-cases (is_active i)) [
    | inr a ↦ rw (enqueue_message, e, a) refl
    | inl a ↦ elim (Option-cases (get id r.inboxes)) [
      | inl f ↦ rw (enqueue_message, e, a) (rw (enqueue_active, f) refl)
      | inr (inbox, f) ↦ absurd (cc (rw (e, f, a) at h))
    ]
  ]
]

-- The records and inboxes after a delivery.
module _ (id : String) (i i' : SubsessionInfo) (inbox : List InboxMessage) (m : InboxMessage)
    (r : Registry) (e : get id r.subs ≡ some i) (f : get id r.inboxes ≡ some inbox)
    (same : is_active i' ≡ is_active i) where
  lives_on :
      (j : String)
      → live_of (get j (put id i' r.subs)) (get j (put id (inbox ++ m ∷ []) r.inboxes))
        ≡ is_live j r
  lives_on j = elim (Bool-cases (str_eq id j)) [
    | inl q ↦
        subst
          (λ k.
            live_of (get k (put id i' r.subs)) (get k (put id (inbox ++ m ∷ []) r.inboxes))
            ≡ is_live k r)
          ((eq_iff id j).0 q)
          (rw (get-put_same id i' r.subs, get-put_same id (inbox ++ m ∷ []) r.inboxes, e, f) same)
    | inr q ↦ rw (get-put j id i' r.subs, get-put j id (inbox ++ m ∷ []) r.inboxes) (rw q refl)
  ]

  inbox_after :
      (j : String)
      → get_or j [] (put id (inbox ++ m ∷ []) r.inboxes)
        ≡ (if str_eq id j then inbox_of j r ++ m ∷ [] else inbox_of j r)
  inbox_after j = elim (Bool-cases (str_eq id j)) [
    | inl q ↦
        let there : get j r.inboxes ≡ some inbox =
          subst (λ k. get k r.inboxes ≡ some inbox) ((eq_iff id j).0 q) f in
        rw q (
          rw (get_or-put j id [] (inbox ++ m ∷ []) r.inboxes) (
            rw q (
              ap (λ (l : List InboxMessage). l ++ m ∷ [])
                (sym (get_or-some j [] inbox r.inboxes there)))))
    | inr q ↦ rw q (rw (get_or-put j id [] (inbox ++ m ∷ []) r.inboxes) (rw q refl))
  ]

get-signal :
    (j id : String) (events : Dict Bool)
    → get j (signal true id events)
      ≡ (if str_eq id j then set_event (get j events) else get j events)
get-signal j id events = elim (Option-cases (get id events)) [
  | inl n ↦ ground (arith, n, eq_iff id j)
  | inr (value, e) ↦ ground (arith, e, eq_iff id j, get-put j id true events)
]

pub delivered :
    (id text : String) (r : Registry)
    → is_live id r ≡ true
    → ((enqueue_message id "system" text r).1 ≡ true)
      × Delivered id text r (enqueue_message id "system" text r).0
unfolding enqueue_message enqueue_active append_transcript publish persist
delivered id text r h = elim (Option-cases (get id r.subs)) [
  | inl n ↦ absurd (cc (rw n at h))
  | inr (i, e) ↦ elim (Option-cases (get id r.inboxes)) [
    | inl n ↦ absurd (cc (rw (e, n) at h))
    | inr (inbox, f) ↦
        let a : is_active i ≡ true = rw (e, f) at h in
        let i' = record i {
          transcript =
              clip r.transcript_max_entries
                (i.transcript ++ record { role = "system"; text = text; timestamp = r.now } ∷ []);
          last_activity_at = r.now;
        } in
        rw (enqueue_message, e, a)
          (rw (enqueue_active, f)
            (rw (append_transcript, e)
              (
                refl,
                record {
                  lives = lives_on id i i' inbox (event text r.now) r e f refl;
                  inbox = inbox_after id i i' inbox (event text r.now) r e f refl;
                  wakes = λ j. get-signal j id r.wake_events;
                  waiters = refl;
                  clock = refl;
                },
              )))
  ]
]
