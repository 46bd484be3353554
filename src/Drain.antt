-- ===== src/Drain.antt =====
-- src/robotsix_chat/lifecycle/drain.py: counting the agent turns in flight, and waiting for them before
-- a restart. A probe's call gives a number or raises; the clock is read once in each round.
pub mod Waiting
use robotsix_chat.Base.{
  ℕ, zero, suc, ◌+◌, ◌-◌, String, Bool, true, false, not, Option, none, some, List, [], ◌∷◌, leb,
  if◌then◌else◌,
}
use robotsix_chat.Base.Dict.{Dict, put, values}
use robotsix_chat.Subsessions.Model.{ℤ, pos, negsuc}

-- `max(0, n)`
abbrev pub clamp : ℤ → ℕ
clamp (pos n) = n
clamp (negsuc n) = 0

abbrev pub increment : ℤ → ℤ
increment (pos n) = pos (suc n)
increment (negsuc zero) = pos 0
increment (negsuc (suc n)) = negsuc n

abbrev pub decrement : ℤ → ℤ
decrement (pos zero) = negsuc 0
decrement (pos (suc n)) = pos n
decrement (negsuc n) = negsuc (suc n)

-- The module's variables. A probe is what its next call gives, `none` if it raises; the deferred task
-- is whether it is done.
pub record DrainState : Type 0 where
  pub probes : Dict (Option ℤ)
  pub deferred_task : Option Bool
  pub tracked_turns : ℤ

unfoldable pub register_inflight_probe : String → Option ℤ → DrainState → DrainState
register_inflight_probe name probe s = record s { probes = put name probe s.probes }

unfoldable pub clear_inflight_probes : DrainState → DrainState
clear_inflight_probes s = record s { probes = [] }

-- The two ends of `track_inflight_turn`.
unfoldable pub enter_turn : DrainState → DrainState
enter_turn s = record s { tracked_turns = increment s.tracked_turns }

unfoldable pub leave_turn : DrainState → DrainState
leave_turn s = record s { tracked_turns = decrement s.tracked_turns }

abbrev pub probe_count : Option ℤ → ℕ
probe_count none = 0
probe_count (some n) = clamp n

abbrev pub total_count : List (Option ℤ) → ℕ
total_count [] = 0
total_count (p ∷ ps) = probe_count p + total_count ps

unfoldable pub inflight_count : DrainState → ℕ
inflight_count s = clamp s.tracked_turns + total_count (values s.probes)

-- One round of the wait: the state that the count sees, and the clock after it.
pub record Round : Type 0 where
  pub seen : DrainState
  pub clock : ℕ

pub data Waited : Type 0 where
  drained expired waiting : Waited

-- The loop of `wait_for_drain`, over the rounds that take place; `waiting` if they end before it does.
unfoldable pub wait_rounds : ℕ → ℕ → List Round → Waited
wait_rounds threshold deadline [] = waiting
wait_rounds threshold deadline (round ∷ rounds) =
    let rest = wait_rounds threshold deadline rounds in
    if leb (inflight_count round.seen) threshold
    then drained
    else if leb deadline round.clock
    then expired
    else rest

unfoldable pub wait_for_drain : ℕ → ℕ → ℕ → List Round → Waited
unfolding wait_rounds
wait_for_drain threshold start timeout rounds = wait_rounds threshold (start + timeout) rounds

unfoldable pub deferred_restart_pending : DrainState → Bool
deferred_restart_pending s = elim s.deferred_task [ none ↦ false | some done ↦ not done ]

unfoldable pub schedule_deferred_restart : DrainState → DrainState × Bool
unfolding deferred_restart_pending
schedule_deferred_restart s =
    if deferred_restart_pending s
    then (s, false)
    else (record s { deferred_task = some false }, true)

-- The task has issued the restart, or the call failed.
unfoldable pub deferred_done : DrainState → DrainState
deferred_done s = record s { deferred_task = some true }
