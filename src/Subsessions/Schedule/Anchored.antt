-- ===== src/Subsessions/Schedule/Anchored.antt =====
-- When an anchored monitor runs next (src/robotsix_chat/subsessions/schedule.py).
use native.Mathlib.Nat.{mod-add-div', mod-lt, suc-mul}
use robotsix_chat.Base.{
  ℕ, zero, suc, ◌+◌, ◌-◌, ◌*◌, ◌/◌, ◌≤◌, ◌<◌, String, true, false, some, leb, leb→le, leb-false→lt,
  ◌==◌, ◌≡◌, ◌⊎◌, refl, arith, Bool-cases, inl, inr,
}
use robotsix_chat.Subsessions.Schedule.{
  ParsedAnchor, Zones, fires, is_whole_day, next_day, next_aligned, aligned_from, next_fire,
  seconds_per_day, next_anchored_run_at, parse_anchor_time,
}

-- A whole number of intervals lies between the two instants.
abbrev pub InPhase : ℕ → ℕ → ℕ → Type 0
InPhase interval base t = (k : ℕ) × ((t ≡ base + k * interval) ⊎ (base ≡ t + k * interval))

lt→leb-false : (a b : ℕ) → b < a → leb a b ≡ false
lt→leb-false a b h = ground (arith, h)

module _ (i : ℕ) (h : 1 ≤ i) where
  floor_bounds : (a : ℕ) → (a / i * i ≤ a) × (a < a / i * i + i)
  floor_bounds a =
      (omega (arith, mod-add-div' a i, mod-lt a h), omega (arith, mod-add-div' a i, mod-lt a h))

  ceil_bounds : (a : ℕ) → (a ≤ (a + (i - 1)) / i * i) × ((a + (i - 1)) / i * i < a + i)
  ceil_bounds a =
      let (low, high) = floor_bounds (a + (i - 1)) in
      (omega (arith, low, high), omega (arith, low, h))

  -- Where the loop of the aligned schedule starts.
  aligned_bounds :
      (now base : ℕ)
      → (now ≤ aligned_from now i base)
        × (aligned_from now i base < now + i)
        × InPhase i base (aligned_from now i base)
  aligned_bounds now base = elim (Bool-cases (leb base now)) [
    | inl le ↦
        let (low, high) = ceil_bounds (now - base) in
        rw (aligned_from, le)
          (
            omega (arith, low, leb→le base now le),
            omega (arith, high, leb→le base now le),
            ((now - base + (i - 1)) / i, inl refl),
          )
    | inr gt ↦
        let (low, high) = floor_bounds (base - now) in
        rw (aligned_from, gt)
          (
            omega (arith, low, leb-false→lt base now gt),
            omega (arith, high, leb-false→lt base now gt),
            ((base - now) / i, inr (omega (arith, low))),
          )
  ]

  InPhase-next : (base t : ℕ) → InPhase i base t → InPhase i base (t + i)
  InPhase-next base t (k, inl e) = (suc k, inl omega (arith, e, suc-mul k i))
  InPhase-next base t (zero, inr e) = (1, inl omega (arith, e))
  InPhase-next base t (suc k, inr e) = (k, inr omega (arith, e, suc-mul k i))

  -- The aligned schedule.
  next_aligned_lem :
      (now base : ℕ)
      → (t : ℕ) × (next_aligned 2 now i (aligned_from now i base) ≡ fires t)
        × (now < t)
        × (t ≤ now + i)
        × InPhase i base t
  unfolding next_aligned
  next_aligned_lem now base =
      let (low, high, phase) = aligned_bounds now base in
      let t = aligned_from now i base in
      elim (Bool-cases (leb t now)) [
        | inr gt ↦ (t, rw gt refl, leb-false→lt t now gt, omega (arith, high), phase)
        | inl le ↦
            let gt : leb (t + i) now ≡ false = lt→leb-false (t + i) now (omega (arith, low, h)) in
            (
              t + i,
              rw (le, gt) refl,
              omega (arith, low, h),
              omega (arith, leb→le t now le),
              InPhase-next base t phase,
            )
      ]

-- The schedule by whole days: today's anchor, or the first one after it.
abbrev pub IsNextDay : Zones → ParsedAnchor → ℕ → ℕ → ℕ → ℕ → Type 0
IsNextDay z p now step today day =
    (day ≡ today) ⊎ ((day ≡ today + step) × (z.instant p today ≤ now))

next_day_lem :
    (z : Zones) (p : ParsedAnchor) (now step today : ℕ)
    → 1 ≤ step
    → ((day : ℕ) → today < day → now < z.instant p day)
    → (day : ℕ) × (next_day 2 z p now step today ≡ fires (z.instant p day))
      × (now < z.instant p day)
      × IsNextDay z p now step today day
unfolding next_day
next_day_lem z p now step today h later = elim (Bool-cases (leb (z.instant p today) now)) [
  | inr gt ↦ (today, rw gt refl, leb-false→lt (z.instant p today) now gt, inl refl)
  | inl le ↦
      let after : now < z.instant p (today + step) = later (today + step) (omega (arith, h)) in
      let gt : leb (z.instant p (today + step)) now ≡ false =
        lt→leb-false (z.instant p (today + step)) now after in
      (today + step, rw (le, gt) refl, after, inr (refl, leb→le (z.instant p today) now le))
]

whole_days : (interval : ℕ) → is_whole_day interval ≡ true → 1 ≤ interval / seconds_per_day
whole_days interval w = let le : seconds_per_day ≤ interval = ground (arith, w) in omega (arith, le)

-- The next run of an anchor that parses is after now, both loops ending within their fuel. With an
-- interval of whole days it is today's anchor in its zone, or that of the day one interval later where
-- today's is past. With another interval it is at most one interval away, and a whole number of
-- intervals from today's anchor. The interval is at least a second, and the anchors of later days of the zone are
-- after now.
pub next_anchored_lem :
    (z : Zones) (default_tz anchor : String) (now interval : ℕ) (p : ParsedAnchor)
    → parse_anchor_time z default_tz anchor ≡ some p
    → 1 ≤ interval
    → ((day : ℕ) → z.day_of p.tz now < day → now < z.instant p day)
    → (t : ℕ) × (next_anchored_run_at z default_tz now interval anchor ≡ fires t)
      × (now < t)
      × (((is_whole_day interval ≡ true)
            × (day : ℕ) × (t ≡ z.instant p day)
            × IsNextDay z p now (interval / seconds_per_day) (z.day_of p.tz now) day)
          ⊎ ((is_whole_day interval ≡ false)
              × (t ≤ now + interval)
              × InPhase interval (z.instant p (z.day_of p.tz now)) t))
unfolding next_anchored_run_at
next_anchored_lem z default_tz anchor now interval p parsed h later =
    elim (Bool-cases (is_whole_day interval)) [
      | inl w ↦
          let (day, eq, after, next) =
            next_day_lem z p now (interval / seconds_per_day) (z.day_of p.tz now)
              (whole_days interval w) later in
          (
            z.instant p day,
            rw (next_anchored_run_at, parsed, next_fire, w) eq,
            after,
            inl (w, day, refl, next),
          )
      | inr w ↦
          let base = z.instant p (z.day_of p.tz now) in
          let (t, eq, after, near, phase) = next_aligned_lem interval h now base in
          let nonzero : (interval == 0) ≡ false = ground (arith, h) in
          (
            t,
            rw (next_anchored_run_at, parsed, next_fire, w, nonzero) eq,
            after,
            inr (w, near, phase),
          )
    ]
