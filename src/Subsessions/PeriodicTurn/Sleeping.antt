-- ===== src/Subsessions/PeriodicTurn/Sleeping.antt =====
-- What is known of a periodic monitor that sleeps until its next run
-- (src/robotsix_chat/subsessions/worker_periodic.py).
use robotsix_chat.Base.{
  ℕ, suc, ◌<◌, String, true, Option, none, some, ◌≡◌, refl, sym, subst, ap, ◌∙◌, arith, Bool-cases,
  inl, inr,
}
use robotsix_chat.Base.Dict.{get}
use robotsix_chat.Subsessions.Model.{SubsessionInfo, SubsessionStatus, is_active}
use robotsix_chat.Subsessions.Replies.{is_queued}
use robotsix_chat.Subsessions.PeriodicTurn.{TurnOutside, TurnEnv, Next, sleeps, Turn, ends, on}
use robotsix_chat.Subsessions.PeriodicTurn.Steps.{
  current, clear_pauses, record_flag, extend, stop_threshold, to_sleep, after_count, reported_turn,
  outcome, run_periodic_turn, counted, is_suppressed,
}
use robotsix_chat.Subsessions.PeriodicTurn.Kept.{
  core, Budget, At, At-current, At-clear_pauses, At-record_flag, At-extend,
}
use robotsix_chat.Subsessions.PeriodicTurn.Goes.{
  gone_on, Goes-count_run, Within, Goes-limit_runs, Goes-draft_wait, Goes-approval_wait,
  Goes-idle_pause, Goes-auto_stop,
}

abbrev as_turn : TurnEnv × Next → Turn TurnEnv
as_turn (e, n) = ends e n

ended_as :
    (m : Turn TurnEnv) (e' : TurnEnv) (t : Option ℕ) (p : Option String) (n : ℕ)
    → outcome m ≡ (e', sleeps t p n)
    → m ≡ ends e' (sleeps t p n)
ended_as (ends e k) e' t p n h = ap as_turn h
ended_as (on e) e' t p n h = absurd (cc h)

abbrev previous_in : Turn TurnEnv → Option String
previous_in (ends e (sleeps t p n)) = p
previous_in (ends e _) = none
previous_in (on e) = none

abbrev count_in : Turn TurnEnv → ℕ
count_in (ends e (sleeps t p n)) = n
count_in (ends e _) = 0
count_in (on e) = 0

module _ (w : TurnOutside) (sub_id reply : String) (info : SubsessionInfo) where
  -- The whole turn, from the count of the run on.
  slept_after :
      (r runs consecutive : ℕ) (m : Option ℕ) (e e' : TurnEnv) (t : Option ℕ) (p : Option String)
      (n : ℕ)
      → At w sub_id reply info (r, SubsessionStatus.sleeping, m) e
      → after_count w sub_id reply info runs consecutive e ≡ ends e' (sleeps t p n)
      → (m' : Option ℕ) × Budget w.settings.periodic_max_total_runs m m'
        × At w sub_id reply info (r, SubsessionStatus.sleeping, m') e'
        × Within w sub_id reply info runs m'
        × (consecutive < stop_threshold w sub_id reply info e')
        × (to_sleep w sub_id reply info consecutive e' ≡ ends e' (sleeps t p n))
  slept_after r runs consecutive m e e' t p n h eq =
      let (m', budget, h0) = At-extend w sub_id reply info r runs SubsessionStatus.sleeping m e h in
      let c : ℕ × SubsessionStatus × Option ℕ = (r, SubsessionStatus.sleeping, m') in
      let P : TurnEnv → Type 0 =
        λ x. At w sub_id reply info c x × Within w sub_id reply info runs m' in
      let (e1, (h1, within), eq1) =
        gone_on P _ _ e' t p n
          (Goes-limit_runs w sub_id reply info r runs SubsessionStatus.sleeping m'
            (extend w sub_id reply info runs e) h0)
          eq in
      let (e2, h2, eq2) =
        gone_on (At w sub_id reply info c) _ _ e' t p n
          (Goes-draft_wait w sub_id reply info (At w sub_id reply info c) runs consecutive e1 h1)
          eq1 in
      let (e3, h3, eq3) =
        gone_on (At w sub_id reply info c) _ _ e' t p n
          (Goes-approval_wait w sub_id reply info c consecutive e2 h2) eq2 in
      let (e4, h4, eq4) =
        gone_on (At w sub_id reply info c) _ _ e' t p n
          (Goes-idle_pause w sub_id reply info (At w sub_id reply info c) consecutive e3 h3) eq3 in
      let (e5, (h5, few), eq5) =
        gone_on
          (λ x. At w sub_id reply info c x × (consecutive < stop_threshold w sub_id reply info x)) _
          _ e' t p n
          (Goes-auto_stop w sub_id reply info (At w sub_id reply info c) consecutive e4 h4) eq4 in
      let same : e5 ≡ e' = ap (λ (x : Turn TurnEnv). elim x [ ends d k ↦ d | on d ↦ d ]) eq5 in
      (
        m',
        budget,
        subst (At w sub_id reply info c) same h5,
        within,
        subst (λ x. consecutive < stop_threshold w sub_id reply info x) same few,
        subst (λ x. to_sleep w sub_id reply info consecutive x ≡ ends e' (sleeps t p n)) same eq5,
      )

  slept :
      (previous : Option String) (consecutive : ℕ) (e e' : TurnEnv) (t : Option ℕ)
      (p : Option String) (n : ℕ)
      → get sub_id e.registry.subs ≡ some info
      → is_active info ≡ true
      → reported_turn w sub_id reply info previous consecutive e ≡ ends e' (sleeps t p n)
      → (j : SubsessionInfo) × (get sub_id e'.registry.subs ≡ some j)
        × (j.status ≡ SubsessionStatus.sleeping)
        × (j.runs ≡ suc info.runs)
        × ((max : ℕ) → j.max_runs ≡ some max → j.runs < max)
        × Budget w.settings.periodic_max_total_runs info.max_runs j.max_runs
        × (p ≡ some reply)
        × (n ≡ counted w sub_id reply info consecutive)
        × (n < stop_threshold w sub_id reply info e')
  slept previous consecutive e e' t p n there active h =
      let suppressed = is_suppressed w sub_id reply info previous in
      let c = core info in
      let begun : At w sub_id reply info c e = record { here = info; there = there; same = refl } in
      let runs : (current w sub_id reply info e).runs ≡ info.runs =
        ap (λ c. c.0) (At-current w sub_id reply info c e begun) in
      let (e1, h1, eq1) =
        gone_on (At w sub_id reply info (suc info.runs, SubsessionStatus.sleeping, info.max_runs)) _
          _ e' t p n
          (Goes-count_run w sub_id reply info info.runs info.status info.max_runs suppressed
            (record_flag w sub_id reply info suppressed (clear_pauses w sub_id reply info e)) active
            (At-record_flag w sub_id reply info c suppressed (clear_pauses w sub_id reply info e)
              (At-clear_pauses w sub_id reply info c e begun)))
          h in
      let (m', budget, at, within, few, asleep_eq) =
        slept_after (suc info.runs) (suc (current w sub_id reply info e).runs)
          (counted w sub_id reply info consecutive) info.max_runs e1 e' t p n h1 eq1 in
      let here_runs : at.here.runs ≡ suc info.runs = ap (λ c. c.0) at.same in
      let here_max : at.here.max_runs ≡ m' = ap (λ c. c.2) at.same in
      let count : n ≡ counted w sub_id reply info consecutive = sym (ap count_in asleep_eq) in
      (
        at.here,
        at.there,
        ap (λ c. c.1) at.same,
        here_runs,
        λ max eq. omega (arith, within max (sym here_max ∙ eq), here_runs, runs),
        subst (Budget w.settings.periodic_max_total_runs info.max_runs) (sym here_max) budget,
        sym (ap previous_in asleep_eq),
        count,
        subst (λ k. k < stop_threshold w sub_id reply info e') (sym count) few,
      )

-- A periodic monitor that sleeps until its next run has counted the run, and the reply is its previous
-- result. It has runs left, in a budget that is the one it had or lies under the ceiling of the
-- settings. The runs without a change are counted, and they are fewer than those that stop it. The
-- monitor was registered and active.
pub periodic_sleeps :
    (w : TurnOutside) (sub_id reply : String) (info : SubsessionInfo) (previous : Option String)
    (consecutive : ℕ) (e e' : TurnEnv) (t : Option ℕ) (p : Option String) (n : ℕ)
    → get sub_id e.registry.subs ≡ some info
    → is_active info ≡ true
    → run_periodic_turn w sub_id reply info previous consecutive e ≡ (e', sleeps t p n)
    → (j : SubsessionInfo) × (get sub_id e'.registry.subs ≡ some j)
      × (j.status ≡ SubsessionStatus.sleeping)
      × (j.runs ≡ suc info.runs)
      × ((max : ℕ) → j.max_runs ≡ some max → j.runs < max)
      × Budget w.settings.periodic_max_total_runs info.max_runs j.max_runs
      × (p ≡ some reply)
      × (n ≡ counted w sub_id reply info consecutive)
      × (n < stop_threshold w sub_id reply info e')
unfolding run_periodic_turn
periodic_sleeps w sub_id reply info previous consecutive e e' t p n there active h =
    elim (Bool-cases (is_queued w.upper reply)) [
      | inl q ↦ absurd (cc (rw (run_periodic_turn, q) at h))
      | inr q ↦
          let reported : reported_turn w sub_id reply info previous consecutive e
              ≡ ends e' (sleeps t p n) =
            ended_as _ e' t p n (rw (run_periodic_turn, q) at h) in
          slept w sub_id reply info previous consecutive e e' t p n there active reported
    ]
