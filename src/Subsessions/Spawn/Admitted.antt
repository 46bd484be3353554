-- ===== src/Subsessions/Spawn/Admitted.antt =====
-- What a spawn that makes a new record has checked (src/robotsix_chat/subsessions/worker.py).
use robotsix_chat.Base.{
  ℕ, ◌≤◌, ◌<◌, String, Bool, true, false, not, Option, none, some, ltb, leb-false→lt, ◌≡◌, refl,
  sym, subst, ap, ◌∙◌, arith, Bool-cases, Option-cases, inl, inr,
}
use robotsix_chat.Subsessions.Model.{SubsessionInfo, is_monitor, is_periodic}
use robotsix_chat.Subsessions.Registry.State.{Registry}
use robotsix_chat.Subsessions.Registry.Create.{
  Request, Created, created, dedup_error, create, attach_task, new_info, finish, check_dedup,
}
use robotsix_chat.Subsessions.Registry.Index.{count_active}
use robotsix_chat.Subsessions.Spawn.Steps.{
  from_room, from_session, from_admission, from_threshold, from_key,
}
use robotsix_chat.Subsessions.Spawn.{
  anchor_ok, SpawnRequest, SpawnEnv, Outside, Refusal, Spawned, spawned, returned, Step, halt, go,
  ◌>>=◌, refuse_if, known_already, key_taken, bad_threshold, admit, close_for_room, session_full,
  pool_full, stale_of, make_room, is_level, capped_level, parent_of, monitor_child, chat_child,
  short_interval, bad_anchor, clamp_timeout,
}
use robotsix_chat.Subsessions.Spawn.Start.{
  create_args, if_periodic, launch, checks, prepare, start, spawn_subsession,
}

pub >>=-eq-go {ℓ κ} :
    {A : Type ℓ} {B : Type κ} (m : Step A) (f : A → Step B) {b : B}
    → (m >>= f) ≡ go b
    → (a : A) × (m ≡ go a) × (f a ≡ go b)
>>=-eq-go (go a) f h = (a, refl, h)
>>=-eq-go (halt e s) f h = cc

pub refuse_if-eq-go :
    (b : Bool) (why : Refusal) (e e' : SpawnEnv)
    → refuse_if b why e ≡ go e'
    → (b ≡ false) × (e ≡ e')
refuse_if-eq-go true why e e' h = cc
refuse_if-eq-go false why e e' h = (refl, cc)

-- What the checks from the depth on let through.
pub record IsValid (w : Outside) (q : SpawnRequest) (e : SpawnEnv) : Type 0 where
  pub depth : q.args.depth ≤ w.settings.max_depth
  pub level : is_level w (capped_level w q) ≡ true
  pub no_monitor_child : monitor_child q.args.kind (parent_of q e) ≡ false
  pub no_chat_child : chat_child q.args.kind (parent_of q e) ≡ false
  pub interval : short_interval w.settings q ≡ false
  pub anchor : bad_anchor w q ≡ false

-- The checks, from the values that they look at.
passed :
    (b1 b2 b3 b4 b5 b6 b7 : Bool) (e e' : SpawnEnv)
    → (do
      e1 ← refuse_if b1 Refusal.depth e
      e2 ← refuse_if b2 Refusal.level e1
      e3 ← refuse_if b3 Refusal.level e2
      e4 ← refuse_if b4 Refusal.periodic_spawn e3
      e5 ← refuse_if b5 Refusal.user_chat_spawn e4
      e6 ← refuse_if b6 Refusal.interval e5
      refuse_if b7 Refusal.anchor e6)
      ≡ go e'
    → (e ≡ e')
      × (b1 ≡ false)
      × (b3 ≡ false)
      × (b4 ≡ false)
      × (b5 ≡ false)
      × (b6 ≡ false)
      × (b7 ≡ false)
passed false false false false false false false e e' h = (cc, refl, refl, refl, refl, refl, refl)
passed true _ _ _ _ _ _ e e' h = absurd (cc h)
passed false true _ _ _ _ _ e e' h = absurd (cc h)
passed false false true _ _ _ _ e e' h = absurd (cc h)
passed false false false true _ _ _ e e' h = absurd (cc h)
passed false false false false true _ _ e e' h = absurd (cc h)
passed false false false false false true _ e e' h = absurd (cc h)
passed false false false false false false true e e' h = absurd (cc h)

pool_full-make_room :
    (w : Outside) (q : SpawnRequest) (e e' : SpawnEnv)
    → make_room w q e ≡ go e'
    → pool_full w.settings e' ≡ false
pool_full-make_room w q e e' h = elim (Bool-cases (pool_full w.settings e)) [
  | inr n ↦
      let h' = rw (make_room, n) at h in
      let same : e ≡ e' = cc h' in subst (λ x. pool_full w.settings x ≡ false) same n
  | inl f ↦ elim (Option-cases (stale_of w.settings q e)) [
    | inl n ↦ let h' = rw (make_room, f, n) at h in absurd (cc h')
    | inr (i, n) ↦
        let made = close_for_room w i.id "stale_reclaimed" e in
        let h' = rw (make_room, f, n) at h in
        let (fits, same) =
          refuse_if-eq-go (pool_full w.settings made) Refusal.capacity made e' h' in
        subst (λ x. pool_full w.settings x ≡ false) same fits
  ]
]

pub finish-created :
    (id : String) (q : Request) (p : Registry × Option String) (r : Registry) (i : SubsessionInfo)
    → finish id q p ≡ (r, created i)
    → (now : ℕ) × (i ≡ new_info id q now)
unfolding finish
finish-created id q (s, some holder) r i h = absurd (cc h)
finish-created id q (s, none) r i h =
    let made : created (new_info id q s.now) ≡ created i = ap (λ (p : Registry × Created). p.1) h in
    (s.now, cc made)

checks-eq-go :
    (w : Outside) (q : SpawnRequest) (e m : SpawnEnv)
    → checks w q e ≡ go m
    → (e ≡ m) × IsValid w q m
checks-eq-go w q e m h =
    let (same, depth, level, monitor, chat, interval, anchor) =
      passed (ltb w.settings.max_depth q.args.depth) (not (is_level w q.args.model_level))
        (not (is_level w (capped_level w q))) (monitor_child q.args.kind (parent_of q e))
        (chat_child q.args.kind (parent_of q e)) (short_interval w.settings q) (bad_anchor w q) e m
        h in
    (
      same,
      subst (IsValid w q) same (record {
        depth = ground (arith, depth);
        level = ground (arith, level);
        no_monitor_child = monitor;
        no_chat_child = chat;
        interval = interval;
        anchor = anchor;
      }),
    )

prepare-eq-go :
    (w : Outside) (q : SpawnRequest) (e m : SpawnEnv)
    → prepare w q e ≡ go m
    → (pool_full w.settings m ≡ false) × IsValid w q m
prepare-eq-go w q e m h =
    let (e1, h1, k1) = >>=-eq-go (known_already q e) (from_key w q) h in
    let (e2, h2, k2) = >>=-eq-go (key_taken q e1) (from_threshold w q) k1 in
    let (e3, h3, k3) =
      >>=-eq-go
        (refuse_if (bad_threshold q.auto_stop_no_change_runs) Refusal.no_change_threshold e2)
        (from_admission w q) k2 in
    let (e4, h4, k4) = >>=-eq-go (admit w q e3) (from_session w q) k3 in
    let (e5, h5, k5) =
      >>=-eq-go (refuse_if (session_full w.settings q e4) Refusal.capacity e4) (from_room w q) k4 in
    let (e6, h6, k6) = >>=-eq-go (make_room w q e5) (checks w q) k5 in
    let (same, valid) = checks-eq-go w q e6 m k6 in
    (pool_full-make_room w q e5 m (h6 ∙ ap go same), valid)

-- What holds of a record that a spawn makes, given the record of its parent.
pub record IsAllowed (w : Outside) (parent : Option SubsessionInfo) (i : SubsessionInfo)
    : Type 0 where
  pub depth : i.depth ≤ w.settings.max_depth
  pub level : is_level w i.model_level ≡ true
  pub monitor_level : is_monitor i.kind ≡ true → i.model_level ≤ w.settings.monitor_max_model_level
  pub interval :
      is_periodic i.kind ≡ true
      → (n : ℕ) × (i.interval_seconds ≡ some n) × (w.settings.min_interval_seconds ≤ n)
  pub anchored : (a : String) → i.anchor_time ≡ some a → anchor_ok w a ≡ true
  pub timeout : (n : ℕ) → i.run_timeout_seconds ≡ some n → n ≤ w.settings.max_run_timeout_seconds
  pub no_monitor_child : monitor_child i.kind parent ≡ false
  pub no_chat_child : chat_child i.kind parent ≡ false

module _ (w : Outside) (q : SpawnRequest) (e : SpawnEnv) (v : IsValid w q e) (id : String)
    (now : ℕ) where
  abbrev made : SubsessionInfo
  made = new_info id (create_args w q e) now

  made_interval :
      is_periodic q.args.kind ≡ true
      → (n : ℕ) × (if_periodic q.args.kind q.args.interval_seconds ≡ some n)
        × (w.settings.min_interval_seconds ≤ n)
  made_interval p = elim (Option-cases q.args.interval_seconds) [
    | inl n ↦ absurd (ground (arith, v.interval, p, n))
    | inr (k, n) ↦ (k, rw p n, ground (arith, v.interval, p, n))
  ]

  made_anchor :
      (a : String) → if_periodic q.args.kind q.args.anchor_time ≡ some a → anchor_ok w a ≡ true
  made_anchor a h = elim (Bool-cases (is_periodic q.args.kind)) [
    | inl p ↦ let h' : q.args.anchor_time ≡ some a = rw p at h in ground (arith, v.anchor, p, h')
    | inr p ↦ absurd (ground (arith, h, p))
  ]

  made_timeout :
      (t : Option ℕ) (n : ℕ)
      → clamp_timeout w.settings.max_run_timeout_seconds t ≡ some n
      → n ≤ w.settings.max_run_timeout_seconds
  made_timeout none n h = absurd (cc h)
  made_timeout (some m) n h = ground (arith, h)

  IsAllowed-made : IsAllowed w (parent_of q e) made
  unfolding new_info
  IsAllowed-made = record {
    depth = v.depth;
    level = v.level;
    monitor_level = λ m. ground (arith, m);
    interval = made_interval;
    anchored = made_anchor;
    timeout = made_timeout q.args.run_timeout_seconds;
    no_monitor_child = v.no_monitor_child;
    no_chat_child = v.no_chat_child;
  }

pub launched :
    (e e' : SpawnEnv) (p : Registry × Created) (id : String)
    → launch e p ≡ (e', spawned id)
    → (r : Registry) × (i : SubsessionInfo) × (p ≡ (r, created i))
      × (i.id ≡ id)
      × (e'.registry ≡ attach_task i.id (record { done = false; cancelled = false }) r)
launched e e' (r, dedup_error other) id h = absurd (cc h)
launched e e' (r, created i) id h = (
  r,
  i,
  refl,
  ap (λ (x : SpawnEnv × Spawned). elim x.1 [ spawned j ↦ j | returned s ↦ i.id ]) h,
  ap (λ (x : SpawnEnv × Spawned). x.0.registry) (sym h),
)

pub started :
    (w : Outside) (fresh : String) (q : SpawnRequest) (s : Step SpawnEnv) (e' : SpawnEnv)
    (id : String)
    → start w fresh q s ≡ (e', spawned id)
    → (m : SpawnEnv) × (s ≡ go m)
      × (launch m (create fresh (create_args w q m) m.registry) ≡ (e', spawned id))
started w fresh q (halt e s) e' id h = absurd (cc h)
started w fresh q (go m) e' id h = (m, refl, h)

pub create-new :
    (fresh : String) (args : Request) (r : Registry)
    → args.sub_id ≡ none
    → create fresh args r ≡ finish fresh args (check_dedup args.kind args.dedup_key r)
unfolding create
create-new fresh args r new = rw new refl

IsAllowed-create :
    (w : Outside) (fresh : String) (q : SpawnRequest) (m : SpawnEnv) (r : Registry)
    (i : SubsessionInfo)
    → q.args.sub_id ≡ none
    → create fresh (create_args w q m) m.registry ≡ (r, created i)
    → IsValid w q m
    → IsAllowed w (parent_of q m) i
IsAllowed-create w fresh q m r i new made_eq valid =
    let (now, same) =
      finish-created fresh (create_args w q m) (check_dedup q.args.kind q.args.dedup_key m.registry)
        r i (sym (create-new fresh (create_args w q m) m.registry new) ∙ made_eq) in
    subst (IsAllowed w (parent_of q m)) (sym same) (IsAllowed-made w q m valid fresh now)

-- Where a spawn of a new subsession returns a new id, what stands before `create` has led to a state in
-- which fewer than `max_concurrent` records are active, the paused ones not counted. There `create` made the record with that id,
-- with the arguments of the request, its worker is attached, and the record is allowed: its depth,
-- level, interval, anchor and timeout are within the settings, and its parent may have such a child.
pub spawn_admitted :
    (w : Outside) (fresh id : String) (q : SpawnRequest) (e e' : SpawnEnv)
    → q.args.sub_id ≡ none
    → spawn_subsession w fresh q e ≡ (e', spawned id)
    → (m : SpawnEnv) × (r : Registry) × (i : SubsessionInfo) × (prepare w q e ≡ go m)
      × (count_active m.registry < w.settings.max_concurrent)
      × (create fresh (create_args w q m) m.registry ≡ (r, created i))
      × (i.id ≡ id)
      × (e'.registry ≡ attach_task i.id (record { done = false; cancelled = false }) r)
      × IsAllowed w (parent_of q m) i
unfolding spawn_subsession
spawn_admitted w fresh id q e e' new h =
    let (m, ready, launch_eq) = started w fresh q (prepare w q e) e' id h in
    let (room, valid) = prepare-eq-go w q e m ready in
    let (r, i, made_eq, same_id, attached) =
      launched m e' (create fresh (create_args w q m) m.registry) id launch_eq in
    (
      m,
      r,
      i,
      ready,
      leb-false→lt _ _ room,
      made_eq,
      same_id,
      attached,
      IsAllowed-create w fresh q m r i new made_eq valid,
    )
