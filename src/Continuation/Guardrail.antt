-- ===== src/Continuation/Guardrail.antt =====
-- The guardrail of continuation/store.py over any history, restarts included, and the delivery of a
-- continuation exactly once.
use robotsix_chat.Base.{
  ℕ, ◌+◌, ◌≤◌, ◌<◌, String, Bool, true, false, Option, none, some, List, [], ◌∷◌, ◌++◌, ◌≡◌, refl,
  ap, ◌∙◌, arith, length, length-last_n, str_eq, eq_iff, bit,
}
use robotsix_chat.Continuation.{
  ContinuationState, ContinuationStore, AuditEntry, Happening, happening, entry,
  armed as armed_entry, blocked, trim, load, schedule, cancel, consume_pending, reset_consecutive,
}

-- What happens to the store between two interventions of the operator, with the clock's text.
pub data Event : Type 0 where
  schedules : String → String → String → Event
  cancels consumes : String → Event
  restarts : Event

abbrev pub after : Event → ContinuationStore → ContinuationStore
after (schedules now session_id prompt) c = schedule now session_id prompt c
after (cancels now) c = cancel now c
after (consumes now) c = (consume_pending now c).0
after restarts c = load c

abbrev is_some {ℓ} : {A : Type ℓ} → Option A → Bool
is_some none = false
is_some (some a) = true

-- How many continuations a history fires.
abbrev fires : Event → ContinuationStore → ℕ
fires (consumes now) c = bit (is_some (consume_pending now c).1)
fires _ c = 0

abbrev pub fired : List Event → ContinuationStore → ℕ
fired [] c = 0
fired (e ∷ es) c = fires e c + fired es (after e c)

-- The file takes every write, and it holds the state (or is missing while the state is the initial
-- one).
pub record IsSynced (c : ContinuationStore) : Type 0 where
  pub writable : c.writable ≡ true
  pub synced : (load c).state ≡ c.state

after-IsSynced : (e : Event) (c : ContinuationStore) → IsSynced c → IsSynced (after e c)
unfolding schedule cancel consume_pending load
after-IsSynced (schedules now session_id prompt) c s = ground arith
after-IsSynced (cancels now) c s = ground arith
after-IsSynced (consumes now) c s = ground arith
after-IsSynced restarts c s = ground arith

fires-count :
    (e : Event) (c : ContinuationStore)
    → IsSynced c
    → c.state.consecutive_count + fires e c ≡ (after e c).state.consecutive_count
unfolding schedule cancel consume_pending load
fires-count (schedules now session_id prompt) c s = ground arith
fires-count (cancels now) c s = ground arith
fires-count (consumes now) c s = ground arith
fires-count restarts c s = ground arith

after-le :
    (e : Event) (c : ContinuationStore)
    → IsSynced c
    → c.state.consecutive_count ≤ c.max_consecutive
    → ((after e c).state.consecutive_count ≤ c.max_consecutive)
      × ((after e c).max_consecutive ≡ c.max_consecutive)
unfolding schedule cancel consume_pending load
after-le (schedules now session_id prompt) c s h = ground arith
after-le (cancels now) c s h = ground arith
after-le (consumes now) c s h = ground arith
after-le restarts c s h = ground arith

-- Between two interventions of the operator at most `max_consecutive` continuations are fired, those
-- counted before included, whatever is scheduled, cancelled and restarted. The store's file takes
-- the writes and holds the store's state, and the count is within the maximum at first.
pub fired_bounded :
    (es : List Event) (c : ContinuationStore)
    → IsSynced c
    → c.state.consecutive_count ≤ c.max_consecutive
    → c.state.consecutive_count + fired es c ≤ c.max_consecutive
fired_bounded [] c s h = omega arith
fired_bounded (e ∷ es) c s h = omega (
  arith,
  fires-count e c s,
  after-le e c s h,
  fired_bounded es (after e c) (after-IsSynced e c s) (omega (arith, after-le e c s h)),
)

schedule-pending :
    (now session_id prompt : String) (c : ContinuationStore)
    → let s = (schedule now session_id prompt c).state in
      (s.pending_session_id ≡ session_id)
      × (s.pending_prompt ≡ prompt)
      × (s.consecutive_count ≡ c.state.consecutive_count)
unfolding schedule
schedule-pending now session_id prompt c = (refl, refl, refl)

consume_pending-fires :
    (now : String) (c : ContinuationStore)
    → str_eq c.state.pending_session_id "" ≡ false
    → c.state.consecutive_count < c.max_consecutive
    → ((consume_pending now c).1 ≡ some (c.state.pending_session_id, c.state.pending_prompt))
      × ((consume_pending now c).0.state.pending_session_id ≡ "")
unfolding consume_pending
consume_pending-fires now c ne h = ground arith

consume_pending-none :
    (now : String) (c : ContinuationStore)
    → c.state.pending_session_id ≡ ""
    → (consume_pending now c).1 ≡ none
unfolding consume_pending
consume_pending-none now c e = ground (arith, eq_iff c.state.pending_session_id "")

max_consecutive-schedule :
    (now session_id prompt : String) (c : ContinuationStore)
    → (load (schedule now session_id prompt c)).max_consecutive ≡ c.max_consecutive
unfolding schedule load
max_consecutive-schedule now session_id prompt c = refl

-- Where the store's file takes every write and holds the store's state, a continuation that is armed
-- below the guardrail, for a session whose id is not empty, is handed out after the restart with its own
-- session and prompt, and neither a second call nor another restart hands it out again.
pub fired_once :
    (t₁ t₂ t₃ session_id prompt : String) (c : ContinuationStore)
    → IsSynced c
    → str_eq session_id "" ≡ false
    → c.state.consecutive_count < c.max_consecutive
    → let armed = load (schedule t₁ session_id prompt c) in
      let (c', out) = consume_pending t₂ armed in
      (out ≡ some (session_id, prompt))
      × ((consume_pending t₃ c').1 ≡ none)
      × ((consume_pending t₃ (load c')).1 ≡ none)
fired_once t₁ t₂ t₃ session_id prompt c s ne h = (
  cc (fires.0, pending.0, pending.1),
  consume_pending-none t₃ (consume_pending t₂ armed).0 fires.1,
  consume_pending-none t₃ (load (consume_pending t₂ armed).0)
      (ap (λ (x : ContinuationState). x.pending_session_id) again.synced ∙ fires.1),
)
  where
    armed : ContinuationStore
    armed = load (schedule t₁ session_id prompt c)

    synced : IsSynced (schedule t₁ session_id prompt c)
    synced = after-IsSynced (schedules t₁ session_id prompt) c s

    again : IsSynced (consume_pending t₂ armed).0
    again =
        after-IsSynced (consumes t₂) armed
          (after-IsSynced restarts (schedule t₁ session_id prompt c) synced)

    same : armed.state ≡ (schedule t₁ session_id prompt c).state
    same = synced.synced

    pending :
        (armed.state.pending_session_id ≡ session_id)
        × (armed.state.pending_prompt ≡ prompt)
        × (armed.state.consecutive_count ≡ c.state.consecutive_count)
    pending = rw same (schedule-pending t₁ session_id prompt c)

    fires :
        ((consume_pending t₂ armed).1
          ≡ some (armed.state.pending_session_id, armed.state.pending_prompt))
        × ((consume_pending t₂ armed).0.state.pending_session_id ≡ "")
    fires =
        consume_pending-fires t₂ armed (ap (λ (x : String). str_eq x "") pending.0 ∙ ne)
          (omega (arith, pending.2, max_consecutive-schedule t₁ session_id prompt c))

abbrev pub Audited : ContinuationStore → Type 0
Audited c = length c.state.audit_log ≤ 200

trim-le : (log : List AuditEntry) → length (trim log) ≤ 200
unfolding trim
trim-le log = ground (arith, length-last_n 200 log)

abbrev noted : String → Happening → ContinuationStore → List AuditEntry
noted now h c = c.state.audit_log ++ entry now h ∷ []

-- The audit log never holds more than its cap of 200 entries: every operation keeps it so.
audit_bounded :
    (now session_id prompt : String) (c : ContinuationStore)
    → Audited c
    → Audited (schedule now session_id prompt c)
      × Audited (cancel now c)
      × Audited (consume_pending now c).0
      × Audited (reset_consecutive now c)
unfolding schedule cancel consume_pending reset_consecutive
audit_bounded now session_id prompt c h =
    let sid : Option String = some c.state.pending_session_id in
    (
      trim-le (noted now (armed_entry session_id prompt) c),
      ground (arith, trim-le (noted now (happening "cancelled" sid) c)),
      ground (
        arith,
        trim-le (noted now (happening "fired" sid) c),
        trim-le (noted now (blocked c.state.pending_session_id c) c),
      ),
      ground (arith, trim-le (noted now (happening "consecutive_reset" none) c)),
    )
