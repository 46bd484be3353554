-- ===== src/Subsessions/Spawn/Queued.antt =====
-- What becomes of a spawn that is put in the queue of its conversation
-- (src/robotsix_chat/subsessions/worker.py).
use robotsix_chat.Base.{String, ◌≡◌, ◌≢◌, refl, ◌∙◌, arith, Option-cases, inl, inr}
use robotsix_chat.Base.Dict.{get}
use robotsix_chat.Subsessions.Registry.Tickets.{is_dedup_key_active}
use robotsix_chat.Subsessions.Registry.State.{Registry}
use robotsix_chat.Subsessions.Spawn.{
  SpawnRequest, SpawnEnv, Outside, Refusal, Returned, existing, queued, refused, Step, halt, go,
  ◌>>=◌, refuse_if, known_already, key_taken, bad_threshold,
}
use robotsix_chat.Subsessions.Spawn.Start.{prepare}
use robotsix_chat.Subsessions.Spawn.Steps.{
  from_key, from_threshold, from_admission, from_session, Holds, Rules, Holds-refuse_if,
  Holds-known_already, Holds-key_taken, Holds-from_session,
}

-- An early return that does not put the request in the queue.
abbrev IsAnswer : SpawnEnv → Returned → Type 0
IsAnswer e queued = ⊥
IsAnswer e (existing id) = Unit
IsAnswer e (refused why) = Unit

answers : (P : SpawnEnv → Type 0) → Rules P IsAnswer
answers P = record { refuses = λ e why h. record {}; finds = λ e id h. record {} }

abbrev pub Unqueued : Step SpawnEnv → Type 0
Unqueued = Holds (λ e. Unit) IsAnswer

-- What follows the admission does not queue.
pub Unqueued-from_session :
    (w : Outside) (q : SpawnRequest) (e : SpawnEnv) → Unqueued (from_session w q e)
Unqueued-from_session w q e =
    Holds-from_session (λ d. Unit) IsAnswer (answers (λ d. Unit)) w (λ id reason d h. record {}) q e
      (record {})

pub not_queued : (m : Step SpawnEnv) (e' : SpawnEnv) → Unqueued m → m ≢ halt e' queued
not_queued (halt m queued) e' u h = u
not_queued (halt m (existing id)) e' u h = cc
not_queued (halt m (refused why)) e' u h = cc
not_queued (go a) e' u h = cc

-- The first steps do not queue, and leave the queues and the records alone.
pub record Passed (e m : SpawnEnv) : Type 0 where
  pub queues : m.slot_budget ≡ e.slot_budget
  pub records : m.registry.subs ≡ e.registry.subs

Passed-refl : (e : SpawnEnv) → Passed e e
Passed-refl e = record { queues = refl; records = refl }

subs-is_dedup_key_active :
    (key : String) (r : Registry) → (is_dedup_key_active key r).0.subs ≡ r.subs
unfolding is_dedup_key_active
subs-is_dedup_key_active key r = elim (Option-cases (get key r.active_dedup_keys)) [
  | inl n ↦ rw (is_dedup_key_active, n) refl
  | inr (id, n) ↦ rw (is_dedup_key_active, n) (ground arith)
]

-- Where the request is queued later, the step went on.
queued_later :
    (m : Step SpawnEnv) (f : SpawnEnv → Step SpawnEnv) (e e' : SpawnEnv)
    → Holds (Passed e) IsAnswer m
    → (m >>= f) ≡ halt e' queued
    → (a : SpawnEnv) × (f a ≡ halt e' queued) × Passed e a
queued_later (halt m queued) f e e' k h = absurd k
queued_later (halt m (existing id)) f e e' k h = absurd (cc h)
queued_later (halt m (refused why)) f e e' k h = absurd (cc h)
queued_later (go a) f e e' k h = (a, h, k)

-- The admission is the step that queues.
pub at_admission :
    (w : Outside) (q : SpawnRequest) (e e' : SpawnEnv)
    → prepare w q e ≡ halt e' queued
    → (m : SpawnEnv) × (from_admission w q m ≡ halt e' queued) × Passed e m
at_admission w q e e' h =
    let b = bad_threshold q.auto_stop_no_change_runs in
    let (e1, k1, p1) =
      queued_later (known_already q e) (from_key w q) e e'
        (Holds-known_already (Passed e) IsAnswer (answers (Passed e)) q e (Passed-refl e)) h in
    let (e2, k2, p2) =
      queued_later (key_taken q e1) (from_threshold w q) e1 e'
        (Holds-key_taken (Passed e1) IsAnswer (answers (Passed e1)) q e1
          (λ key. record { queues = refl; records = subs-is_dedup_key_active key e1.registry })
          (Passed-refl e1))
        k1 in
    let (e3, k3, p3) =
      queued_later (refuse_if b Refusal.no_change_threshold e2) (from_admission w q) e2 e'
        (Holds-refuse_if (Passed e2) IsAnswer (answers (Passed e2)) b Refusal.no_change_threshold e2
          (Passed-refl e2))
        k2 in
    (
      e3,
      k3,
      record {
        queues = p3.queues ∙ p2.queues ∙ p1.queues;
        records = p3.records ∙ p2.records ∙ p1.records;
      },
    )
