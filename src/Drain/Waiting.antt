-- ===== src/Drain/Waiting.antt =====
-- The wait ends, and ends right; deferred restarts do not stack.
use robotsix_chat.Base.{
  ℕ, ◌+◌, ◌≤◌, ◌<◌, List, [], ◌∷◌, ◌≡◌, refl, arith, leb, if◌then◌else◌, bit, ◌⊎◌, inl, inr,
  Bool-cases, leb→le, leb-false→lt,
}
use robotsix_chat.Drain.{
  DrainState, Round, drained, expired, inflight_count, wait_rounds, wait_for_drain,
  deferred_restart_pending, schedule_deferred_restart, deferred_done,
}

-- The loop sleeps for `poll`, or for what is left until the deadline, between two readings of the
-- clock. `earliest` is when the next reading is at the earliest.
abbrev pub wakes : ℕ → ℕ → ℕ → ℕ
wakes poll deadline clock = if leb (clock + poll) deadline then clock + poll else deadline

abbrev pub Paced : ℕ → ℕ → ℕ → List Round → Type 0
Paced poll deadline earliest [] = Unit {0}
Paced poll deadline earliest (round ∷ rounds) =
    (earliest ≤ round.clock) × Paced poll deadline (wakes poll deadline round.clock) rounds

-- `poll` times the number of rounds.
abbrev pub slept : ℕ → List Round → ℕ
slept poll [] = 0
slept poll (round ∷ rounds) = poll + slept poll rounds

-- A round that found few enough turns, all before it being too busy and in time.
pub data Drains (threshold deadline : ℕ) : List Round → Type 0 where
  now :
      (round : Round) (rounds : List Round)
      → inflight_count round.seen ≤ threshold
      → Drains threshold deadline (round ∷ rounds)
  later :
      (round : Round) (rounds : List Round)
      → threshold < inflight_count round.seen
      → round.clock < deadline
      → Drains threshold deadline rounds
      → Drains threshold deadline (round ∷ rounds)

drained-Drains :
    (threshold deadline : ℕ) (rounds : List Round)
    → wait_rounds threshold deadline rounds ≡ drained
    → Drains threshold deadline rounds
unfolding wait_rounds
drained-Drains threshold deadline [] e = absurd (ground (arith, e))
drained-Drains threshold deadline (round ∷ rounds) e =
    elim (Bool-cases (leb (inflight_count round.seen) threshold)) [
      | inl q ↦ Drains.now round rounds (leb→le _ _ q)
      | inr q ↦ elim (Bool-cases (leb deadline round.clock)) [
        | inl p ↦ absurd (ground (arith, e, q, p))
        | inr p ↦
            Drains.later round rounds (leb-false→lt _ _ q) (leb-false→lt _ _ p)
              (drained-Drains threshold deadline rounds (ground (arith, e, q, p)))
      ]
    ]

Drains-drained :
    (threshold deadline : ℕ) (rounds : List Round)
    → Drains threshold deadline rounds
    → wait_rounds threshold deadline rounds ≡ drained
unfolding wait_rounds
Drains-drained threshold deadline rounds (now round rest h) = ground (arith, h)
Drains-drained threshold deadline rounds (later round rest b t d) =
    ground (arith, b, t, Drains-drained threshold deadline rest d)

slept-some : (poll : ℕ) (rounds : List Round) → 1 ≤ slept poll rounds → poll ≤ slept poll rounds
slept-some poll [] h = absurd (omega (arith, h))
slept-some poll (round ∷ rounds) h = omega arith

rounds-end :
    (threshold poll deadline earliest : ℕ) (rounds : List Round)
    → 1 ≤ poll
    → earliest ≤ deadline
    → Paced poll deadline earliest rounds
    → deadline + poll ≤ earliest + slept poll rounds
    → (wait_rounds threshold deadline rounds ≡ drained)
      ⊎ (wait_rounds threshold deadline rounds ≡ expired)
unfolding wait_rounds
rounds-end threshold poll deadline earliest [] h l p q = absurd (omega (arith, h, l, q))
rounds-end threshold poll deadline earliest (round ∷ rounds) h l (e, p) q =
    elim (Bool-cases (leb (inflight_count round.seen) threshold)) [
      | inl few ↦ inl (ground (arith, few))
      | inr many ↦ elim (Bool-cases (leb deadline round.clock)) [
        | inl late ↦ inr (ground (arith, many, late))
        | inr early ↦
            let t : round.clock < deadline = leb-false→lt _ _ early in
            rw many (
              rw early (
                rounds-end threshold poll deadline (wakes poll deadline round.clock) rounds h
                  (ground arith) p (ground (arith, e, q, t, slept-some poll rounds))))
      ]
    ]

-- `wait_for_drain` ends: with a positive poll, in at most as many rounds as polls fill the timeout and
-- one more, it has drained or expired. And it has drained exactly when some round found no more turns
-- in flight than the threshold, every round before it having found more, in time.
pub wait_ends :
    (threshold poll start timeout : ℕ) (rounds : List Round)
    → 1 ≤ poll
    → Paced poll (start + timeout) start rounds
    → timeout + poll ≤ slept poll rounds
    → ((wait_for_drain threshold start timeout rounds ≡ drained)
        ⊎ (wait_for_drain threshold start timeout rounds ≡ expired))
      × (wait_for_drain threshold start timeout rounds ≡ drained
          → Drains threshold (start + timeout) rounds)
      × (Drains threshold (start + timeout) rounds
          → wait_for_drain threshold start timeout rounds ≡ drained)
unfolding wait_for_drain
wait_ends threshold poll start timeout rounds h p q = (
  rounds-end threshold poll (start + timeout) start rounds h (omega arith) p (omega (arith, q)),
  drained-Drains threshold (start + timeout) rounds,
  Drains-drained threshold (start + timeout) rounds,
)

-- What may happen to the deferred restart.
pub data RestartOp : Type 0 where
  schedules finishes : RestartOp

abbrev pub scheduled : RestartOp → DrainState → ℕ
scheduled schedules s = bit (schedule_deferred_restart s).1
scheduled finishes s = 0

abbrev pub after : RestartOp → DrainState → DrainState
after schedules s = (schedule_deferred_restart s).0
after finishes s = deferred_done s

-- The restarts scheduled and the deferred tasks that ended while one was pending.
abbrev pub all_scheduled : List RestartOp → DrainState → ℕ
all_scheduled [] s = 0
all_scheduled (op ∷ ops) s = scheduled op s + all_scheduled ops (after op s)

abbrev pub ended : RestartOp → DrainState → ℕ
ended schedules s = 0
ended finishes s = bit (deferred_restart_pending s)

abbrev pub all_ended : List RestartOp → DrainState → ℕ
all_ended [] s = 0
all_ended (op ∷ ops) s = ended op s + all_ended ops (after op s)

abbrev pub final : List RestartOp → DrainState → DrainState
final [] s = s
final (op ∷ ops) s = final ops (after op s)

one_op :
    (op : RestartOp) (s : DrainState)
    → scheduled op s + bit (deferred_restart_pending s)
      ≡ ended op s + bit (deferred_restart_pending (after op s))
unfolding schedule_deferred_restart deferred_restart_pending deferred_done
one_op schedules s = ground arith
one_op finishes s = ground arith

-- Deferred restarts do not stack: over any calls and endings, the restarts scheduled are those that
-- ended, and one more exactly when one is pending, counting one that was pending at first.
pub restarts_balance :
    (ops : List RestartOp) (s : DrainState)
    → all_scheduled ops s + bit (deferred_restart_pending s)
      ≡ all_ended ops s + bit (deferred_restart_pending (final ops s))
restarts_balance [] s = refl
restarts_balance (op ∷ ops) s = omega (arith, one_op op s, restarts_balance ops (after op s))
