-- ===== src/Subsessions/PeriodicTurn/Kept.antt =====
-- What the steps of a periodic turn keep of the monitor's record
-- (src/robotsix_chat/subsessions/worker_periodic.py).
use robotsix_chat.Base.{
  ℕ, ◌+◌, ◌≤◌, String, Bool, true, false, not, ◌&&◌, Option, some, [], ltb, ◌≡◌, ◌⊎◌, refl, ap, ◌∙◌,
  arith, Bool-cases, Option-cases, inl, inr, if◌then◌else◌,
}
use robotsix_chat.Base.Dict.{get, put}
use robotsix_chat.Base.Dict.Laws.{get-put_same}
use robotsix_chat.Chat.Conversation.{smaller}
use robotsix_chat.Subsessions.Model.{
  SubsessionInfo, SubsessionStatus, active_status, is_active, Value, Checkpoint, arr, int, pos,
}
use robotsix_chat.Subsessions.Registry.State.{Registry, persist, publish}
use robotsix_chat.Subsessions.Registry.Create.{set_status, keep_or_opt}
use robotsix_chat.Subsessions.Registry.Lifecycle.{update_checkpoint}
use robotsix_chat.Subsessions.Checkpoint.{preserved, or_empty}
use robotsix_chat.Subsessions.PeriodicTurn.{TurnOutside, TurnEnv, truthy, flag_items, Notice}
use robotsix_chat.Subsessions.PeriodicTurn.Steps.{
  current, checkpoint_at, assign, note, asleep, notify, clear_pauses, record_flag, extended_to,
  may_extend, extend, no_change,
}

-- What a turn of a record assigns besides its checkpoint, its schedule and its last result.
abbrev pub core : SubsessionInfo → ℕ × SubsessionStatus × Option ℕ
core i = (i.runs, i.status, i.max_runs)

-- The budget stays, or was raised up to the ceiling.
abbrev pub Budget : ℕ → Option ℕ → Option ℕ → Type 0
Budget ceiling before after = (before ≡ after) ⊎ ((max : ℕ) × (after ≡ some max) × (max ≤ ceiling))

get-update_checkpoint :
    (sub_id : String) (cp : Option Checkpoint) (r : Registry) (i : SubsessionInfo)
    → get sub_id r.subs ≡ some i
    → get sub_id (update_checkpoint sub_id cp r).0.subs
      ≡ some (record i { checkpoint = preserved i cp })
unfolding update_checkpoint persist
get-update_checkpoint sub_id cp r i h =
    rw (update_checkpoint, h)
      (get-put_same sub_id (record i { checkpoint = preserved i cp }) r.subs)

get-asleep :
    (sub_id reply : String) (runs : ℕ) (next : Option ℕ) (r : Registry) (i : SubsessionInfo)
    → get sub_id r.subs ≡ some i
    → is_active i ≡ true
    → (j : SubsessionInfo) × (get sub_id
          (set_status sub_id SubsessionStatus.sleeping (some runs) next (some reply) r).subs
        ≡ some j)
      × (core j ≡ (runs, SubsessionStatus.sleeping, i.max_runs))
unfolding set_status publish persist active_status
get-asleep sub_id reply runs next r i h a =
    let b : (not (is_active i) && true) ≡ false = rw a refl in
    let j = record i {
      status = SubsessionStatus.sleeping;
      last_activity_at = r.now;
      runs = runs;
      next_run_at = keep_or_opt next i.next_run_at;
      last_result = some reply;
    } in
    (j, rw (set_status, h) (rw b (get-put_same sub_id j r.subs)), refl)

smaller-le : (a b : ℕ) → smaller a b ≤ b
smaller-le a b = ground arith

pub same_max :
    (max other : ℕ) {o m : Option ℕ} → o ≡ m → o ≡ some max → m ≡ some other → max ≡ other
same_max max other at n eq = cc (at, n, eq)

module _ (w : TurnOutside) (sub_id reply : String) (info : SubsessionInfo) where
  -- The record is there with these values.
  pub record At (c : ℕ × SubsessionStatus × Option ℕ) (e : TurnEnv) : Type 0 where
    pub here : SubsessionInfo
    pub there : get sub_id e.registry.subs ≡ some here
    pub same : core here ≡ c

  pub At-current :
      (c : ℕ × SubsessionStatus × Option ℕ) (e : TurnEnv)
      → At c e
      → core (current w sub_id reply info e) ≡ c
  At-current c e h = rw (current, h.there) h.same

  At-put :
      (c : ℕ × SubsessionStatus × Option ℕ) (i : SubsessionInfo) (e : TurnEnv)
      → core i ≡ c
      → At c (assign w sub_id reply info i e)
  At-put c i e h = record { here = i; there = get-put_same sub_id i e.registry.subs; same = h }

  pub At-note :
      (c : ℕ × SubsessionStatus × Option ℕ) (k : String) (v : Value) (e : TurnEnv)
      → At c e
      → At c (note w sub_id reply info k v e)
  At-note c k v e h =
      let cp = some (put k v (or_empty (current w sub_id reply info e).checkpoint)) in
      record {
        here = record h.here { checkpoint = preserved h.here cp };
        there = get-update_checkpoint sub_id cp e.registry h.here h.there;
        same = h.same;
      }

  pub At-asleep :
      (runs r : ℕ) (s : SubsessionStatus) (m next : Option ℕ) (e : TurnEnv)
      → active_status s ≡ true
      → At (r, s, m) e
      → At (runs, SubsessionStatus.sleeping, m) (asleep w sub_id reply info runs next e)
  At-asleep runs r s m next e a h =
      let active : is_active h.here ≡ true = ap (λ c. active_status c.1) h.same ∙ a in
      let (j, there, same) = get-asleep sub_id reply runs next e.registry h.here h.there active in
      record {
        here = j;
        there = there;
        same = same ∙ ap (λ c. (runs, SubsessionStatus.sleeping, c.2)) h.same;
      }

  pub At-clear_pauses :
      (c : ℕ × SubsessionStatus × Option ℕ) (e : TurnEnv)
      → At c e
      → At c (clear_pauses w sub_id reply info e)
  At-clear_pauses c e h =
      elim (Bool-cases (
        not (no_change w sub_id reply info)
        && truthy w (checkpoint_at w sub_id reply info "no_change_pause_count" e))) [
          | inl f ↦ rw (clear_pauses, f) (At-note c "no_change_pause_count" (int (pos 0)) e h)
          | inr f ↦ rw (clear_pauses, f) h
        ]

  pub At-record_flag :
      (c : ℕ × SubsessionStatus × Option ℕ) (suppressed : Bool) (e : TurnEnv)
      → At c e
      → At c (record_flag w sub_id reply info suppressed e)
  At-record_flag c suppressed e h = elim (Option-cases (current w sub_id reply info e).max_runs) [
    | inl n ↦ rw (record_flag, n) h
    | inr (m, n) ↦ elim (Bool-cases (ltb 0 w.settings.max_runs_progress_window)) [
      | inr f ↦ rw (record_flag, n, f) h
      | inl f ↦ rw (record_flag, n, f) (At-put c _ e (At-current c e h))
    ]
  ]

  At-if :
      (c : ℕ × SubsessionStatus × Option ℕ) (b : Bool) (x e : TurnEnv)
      → At c x
      → At c e
      → At c (if b then x else e)
  At-if c true x e h k = h
  At-if c false x e h k = k

  pub At-told :
      (c : ℕ × SubsessionStatus × Option ℕ) (quiet : Bool) (n : Notice) (e : TurnEnv)
      → At c e
      → At c (if quiet then e else notify w sub_id reply info n e)
  At-told c true n e h = h
  At-told c false n e h =
      At-if c w.has_event_sink _ e (record { here = h.here; there = h.there; same = h.same }) h

  -- What the budget is after an extension.
  pub At-extend :
      (r runs : ℕ) (s : SubsessionStatus) (m : Option ℕ) (e : TurnEnv)
      → At (r, s, m) e
      → (m' : Option ℕ) × Budget w.settings.periodic_max_total_runs m m'
        × At (r, s, m') (extend w sub_id reply info runs e)
  At-extend r runs s m e h = elim (Option-cases (current w sub_id reply info e).max_runs) [
    | inl n ↦ (m, inl refl, rw (extend, n) h)
    | inr (max, n) ↦ elim (Bool-cases (may_extend w sub_id reply info runs max e)) [
      | inr f ↦ (m, inl refl, rw (extend, n, f) h)
      | inl f ↦
          let i = current w sub_id reply info e in
          let to = extended_to w sub_id reply info max in
          (
            some to,
            inr (
              to,
              refl,
              smaller-le (max + w.settings.max_runs_progress_extension)
                  w.settings.periodic_max_total_runs,
            ),
            rw (extend, n, f)
                (At-note (r, s, some to) "recent_progress_flags" (arr (flag_items [])) _
                  (At-put (r, s, some to) (record i { max_runs = some to }) e
                    (ap (λ c. (c.0, c.1, some to)) (At-current (r, s, m) e h)))),
          )
    ]
  ]
