-- ===== src/Subsessions/PeriodicTurn/Goes.antt =====
-- The steps of a periodic turn that go on, each with what it leaves
-- (src/robotsix_chat/subsessions/worker_periodic.py).
use robotsix_chat.Base.{
  ℕ, suc, ◌<◌, String, Bool, true, ◌&&◌, ◌||◌, Option, none, some, leb, ltb, leb-false→lt, ◌≡◌,
  subst, ap, Bool-cases, Option-cases, inl, inr,
}
use robotsix_chat.Subsessions.Model.{
  SubsessionInfo, SubsessionStatus, active_status, int, pos, no_change_pause,
}
use robotsix_chat.Subsessions.Registry.State.{Registry}
use robotsix_chat.Subsessions.Registry.Lifecycle.{mark_paused}
use robotsix_chat.Subsessions.Schedule.{anchored_next_run_at}
use robotsix_chat.Subsessions.PeriodicTurn.{
  TurnOutside, TurnEnv, stopped, raised, waits_queued, waits_paused, sleeps, Turn, ends, on, ◌>>=◌,
  truthy, number_of, has_elapsed, result, suc_int, pauses_before, at_least, fire_time,
}
use robotsix_chat.Subsessions.PeriodicTurn.Steps.{
  current, checkpoint_at, note, asleep, count_run, limit_runs, draft_wait, approval_since,
  approval_wait, idle_pause, stop_threshold, auto_stop, ended, pause_turn, paused_turn, state_is,
}
use robotsix_chat.Subsessions.PeriodicTurn.Kept.{
  At, At-current, At-note, At-asleep, At-told, same_max,
}

-- A step that goes on with `P`, and that does not put the worker to sleep.
abbrev pub Goes : (TurnEnv → Type 0) → Turn TurnEnv → Type 0
Goes P (on e) = P e
Goes P (ends e stopped) = Unit
Goes P (ends e raised) = Unit
Goes P (ends e (waits_queued p n)) = Unit
Goes P (ends e (waits_paused p)) = Unit
Goes P (ends e (sleeps t p n)) = ⊥

pub gone_on :
    (P : TurnEnv → Type 0) (m : Turn TurnEnv) (f : TurnEnv → Turn TurnEnv) (e' : TurnEnv)
    (t : Option ℕ) (p : Option String) (n : ℕ)
    → Goes P m
    → (m >>= f) ≡ ends e' (sleeps t p n)
    → (e : TurnEnv) × P e × (f e ≡ ends e' (sleeps t p n))
gone_on P (on e) f e' t p n g h = (e, g, h)
gone_on P (ends e stopped) f e' t p n g h = absurd (cc h)
gone_on P (ends e raised) f e' t p n g h = absurd (cc h)
gone_on P (ends e (waits_queued q m)) f e' t p n g h = absurd (cc h)
gone_on P (ends e (waits_paused q)) f e' t p n g h = absurd (cc h)
gone_on P (ends e (sleeps u q m)) f e' t p n g h = absurd g

module _ (w : TurnOutside) (sub_id reply : String) (info : SubsessionInfo) where
  Goes-scheduled :
      (P : TurnEnv → Type 0) (o : Option ℕ) (e x : TurnEnv)
      → P x
      → Goes P (elim o [ none ↦ ends e raised | some n ↦ on x ])
  Goes-scheduled P none e x h = record {}
  Goes-scheduled P (some n) e x h = h

  pub Goes-count_run :
      (r : ℕ) (s : SubsessionStatus) (m : Option ℕ) (suppressed : Bool) (e : TurnEnv)
      → active_status s ≡ true
      → At w sub_id reply info (r, s, m) e
      → Goes
          (At w sub_id reply info (suc r, SubsessionStatus.sleeping, m))
          (count_run w sub_id reply info suppressed e)
  Goes-count_run r s m suppressed e a h =
      let i = current w sub_id reply info e in
      let next = fire_time (anchored_next_run_at w.zones e.registry.now i) in
      let x = asleep w sub_id reply info (suc i.runs) next e in
      let runs : i.runs ≡ r = ap (λ c. c.0) (At-current w sub_id reply info (r, s, m) e h) in
      let slept =
        subst (λ k. At w sub_id reply info (suc k, SubsessionStatus.sleeping, m) x) runs
          (At-asleep w sub_id reply info (suc i.runs) r s m next e a h) in
      Goes-scheduled (At w sub_id reply info (suc r, SubsessionStatus.sleeping, m))
        i.interval_seconds e _
        (At-told w sub_id reply info (suc r, SubsessionStatus.sleeping, m) suppressed
          (result sub_id (suc i.runs) reply) x slept)

  abbrev pub Within : ℕ → Option ℕ → Type 0
  Within runs m = (max : ℕ) → m ≡ some max → runs < max

  pub Goes-limit_runs :
      (r runs : ℕ) (s : SubsessionStatus) (m : Option ℕ) (e : TurnEnv)
      → At w sub_id reply info (r, s, m) e
      → Goes
          (λ e'. At w sub_id reply info (r, s, m) e' × Within runs m)
          (limit_runs w sub_id reply info runs e)
  Goes-limit_runs r runs s m e h =
      let at = ap (λ c. c.2) (At-current w sub_id reply info (r, s, m) e h) in
      elim (Option-cases (current w sub_id reply info e).max_runs) [
        | inl n ↦ rw (limit_runs, n) (h, λ max eq. absurd (cc (at, n, eq)))
        | inr (max, n) ↦ elim (Bool-cases (leb max runs)) [
          | inl f ↦ rw (limit_runs, n, f) (record {})
          | inr f ↦
              rw (limit_runs, n, f)
                (
                  h,
                  λ other eq.
                      subst (λ k. runs < k) (same_max max other at n eq) (leb-false→lt max runs f),
                )
        ]
      ]

  pub Goes-draft_wait :
      (P : TurnEnv → Type 0) (runs consecutive : ℕ) (e : TurnEnv)
      → P e
      → Goes P (draft_wait w sub_id reply info runs consecutive e)
  Goes-draft_wait P runs consecutive e h =
      elim (Bool-cases (
        state_is w sub_id reply info "draft" e
        && truthy w (checkpoint_at w sub_id reply info "auto_drive_comment_posted" e))) [
          | inl f ↦ rw (draft_wait, f) (record {})
          | inr f ↦ rw (draft_wait, f) h
        ]

  At-approval_since :
      (c : ℕ × SubsessionStatus × Option ℕ) (e : TurnEnv)
      → At w sub_id reply info c e
      → At w sub_id reply info c (approval_since w sub_id reply info e).0
  At-approval_since c e h =
      elim (Option-cases
        (number_of w (checkpoint_at w sub_id reply info "human_approval_since" e))) [
          | inl n ↦
              rw (approval_since, n)
                (At-note w sub_id reply info c "human_approval_since" (int (pos e.registry.now)) e
                  h)
          | inr (since, n) ↦ rw (approval_since, n) h
        ]

  pub Goes-approval_wait :
      (c : ℕ × SubsessionStatus × Option ℕ) (consecutive : ℕ) (e : TurnEnv)
      → At w sub_id reply info c e
      → Goes (At w sub_id reply info c) (approval_wait w sub_id reply info consecutive e)
  Goes-approval_wait c consecutive e h =
      let p = approval_since w sub_id reply info e in
      elim (Bool-cases (state_is w sub_id reply info "human_issue_approval" e)) [
        | inr f ↦ rw (approval_wait, f) h
        | inl f ↦
            elim (Bool-cases (
              has_elapsed e.registry.now w.settings.human_approval_timeout_seconds p.1
              || leb w.settings.human_approval_timeout_runs consecutive)) [
                | inl g ↦ rw (approval_wait, f, g) (record {})
                | inr g ↦ rw (approval_wait, f, g) (At-approval_since c e h)
              ]
      ]

  Goes-paused_turn :
      (P : TurnEnv → Type 0) (p : Registry × Option SubsessionInfo) (e : TurnEnv)
      → Goes P (ended w sub_id reply info (paused_turn w sub_id reply info p e))
  Goes-paused_turn P (r, none) e = record {}
  Goes-paused_turn P (r, some i) e = record {}

  Goes-pause_turn :
      (P : TurnEnv → Type 0) (e : TurnEnv)
      → Goes P (ended w sub_id reply info (pause_turn w sub_id reply info e))
  Goes-pause_turn P e =
      let cap = w.settings.max_no_change_pauses in
      let count =
        suc_int (pauses_before (checkpoint_at w sub_id reply info "no_change_pause_count" e)) in
      let e' = note w sub_id reply info "no_change_pause_count" (int count) e in
      elim (Bool-cases (ltb 0 cap && at_least cap count)) [
        | inl f ↦ rw (pause_turn, f) (record {})
        | inr f ↦
            rw (pause_turn, f)
              (Goes-paused_turn P
                (mark_paused sub_id (no_change_pause w.settings.max_idle_runs count cap) "paused"
                  e'.registry)
                e')
      ]

  pub Goes-idle_pause :
      (P : TurnEnv → Type 0) (consecutive : ℕ) (e : TurnEnv)
      → P e
      → Goes P (idle_pause w sub_id reply info consecutive e)
  Goes-idle_pause P consecutive e h =
      elim (Bool-cases
        (ltb 0 w.settings.max_idle_runs && leb w.settings.max_idle_runs consecutive)) [
          | inl f ↦ rw (idle_pause, f) (Goes-pause_turn P e)
          | inr f ↦ rw (idle_pause, f) h
        ]

  pub Goes-auto_stop :
      (P : TurnEnv → Type 0) (consecutive : ℕ) (e : TurnEnv)
      → P e
      → Goes
          (λ x. P x × (consecutive < stop_threshold w sub_id reply info x))
          (auto_stop w sub_id reply info consecutive e)
  Goes-auto_stop P consecutive e h =
      elim (Bool-cases (leb (stop_threshold w sub_id reply info e) consecutive)) [
        | inl f ↦ rw (auto_stop, f) (record {})
        | inr f ↦
            rw (auto_stop, f) (h, leb-false→lt (stop_threshold w sub_id reply info e) consecutive f)
      ]
