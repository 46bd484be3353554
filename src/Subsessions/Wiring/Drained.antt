-- ===== src/Subsessions/Wiring/Drained.antt =====
-- The drain of a conversation's queue ends (src/robotsix_chat/subsessions/slot_budget_wiring.py).
use robotsix_chat.Base.{
  ℕ, zero, suc, ◌≤◌, ◌<◌, String, Bool, true, false, ltb, Option, none, some, [], eq_iff, ◌≡◌, refl,
  arith, Bool-cases, Option-cases, inl, inr,
}
use robotsix_chat.Subsessions.Model.{SubsessionInfo}
use robotsix_chat.Subsessions.Registry.State.{Registry}
use robotsix_chat.Subsessions.Registry.Create.{Created, created, dedup_error, create}
use robotsix_chat.Subsessions.Registry.Closing.{cancel_and_close}
use robotsix_chat.Subsessions.Registry.Index.{count_occupied_for_owner, find_paused_for_reuse}
use robotsix_chat.Subsessions.SlotBudget.{
  SlotBudget, Enqueued, accepted, queue_full, enqueue, enabled, pending_count, pop_next,
  requeue_front,
}
use robotsix_chat.Subsessions.SlotBudget.Fifo.{waiting, pop_next_lem}
use robotsix_chat.Subsessions.Spawn.{
  Returned, SpawnRequest, SpawnEnv, Outside, Refusal, Spawned, spawned, returned, existing, queued,
  refused, Step, halt, go, refuse_if, known_already, key_taken, bad_threshold, admit, admit_by,
  at_budget, after_enqueue, queued_request, close_for_room,
}
use robotsix_chat.Subsessions.Spawn.Start.{create_args, prepare, start, launch, spawn_subsession}
use robotsix_chat.Subsessions.Spawn.Steps.{
  from_key, from_threshold, from_admission, from_session, Holds, Rules, Holds->>=, Holds-refuse_if,
  Holds-known_already, Holds-key_taken, Holds-from_session,
}
use robotsix_chat.Subsessions.Wiring.{
  with_queues, after_spawn, after_pop, drain_one, drain_turn, drain_queue, pending, drain_with,
  drain_slot_budget_queue,
}

-- Where a drain ends.
pub data Drained (w : Outside) (owner : String) : SpawnEnv → Type 0 where
  no_budget : (e : SpawnEnv) → e.slot_budget ≡ none → Drained w owner e
  disabled :
      (e : SpawnEnv) (b : SlotBudget SpawnRequest)
      → e.slot_budget ≡ some b
      → enabled b ≡ false
      → Drained w owner e
  at_full :
      (e : SpawnEnv) (b : SlotBudget SpawnRequest)
      → e.slot_budget ≡ some b
      → b.budget ≤ count_occupied_for_owner owner e.registry
      → Drained w owner e
  emptied :
      (e : SpawnEnv) (b : SlotBudget SpawnRequest)
      → e.slot_budget ≡ some b
      → waiting owner b ≡ []
      → Drained w owner e
  put_back :
      (id : String) (q : SpawnRequest) (d e : SpawnEnv) (why : Refusal)
      → spawn_subsession w id q d ≡ (e, returned (refused why))
      → Drained w owner (with_queues (requeue_front owner q) e)
  queued_again :
      (id : String) (q : SpawnRequest) (d e : SpawnEnv)
      → spawn_subsession w id q d ≡ (e, returned queued)
      → Drained w owner e

module _ (w : Outside) (owner : String)
    (shrinks : (i : SubsessionInfo) (r : Registry) (b : SlotBudget SpawnRequest)
      → pending_count owner (w.queues_after i r b) ≤ pending_count owner b) where
  abbrev AtMost : ℕ → SpawnEnv → Type 0
  AtMost n e = pending owner e ≤ n

  -- An id that is returned with no more requests waiting than `n`.
  abbrev FoundAtMost : ℕ → SpawnEnv → Returned → Type 0
  FoundAtMost n e (existing id) = pending owner e ≤ n
  FoundAtMost n e queued = Unit
  FoundAtMost n e (refused why) = Unit

  abbrev Within : ℕ → Step SpawnEnv → Type 0
  Within n = Holds (AtMost n) (FoundAtMost n)

  rules : (n : ℕ) → Rules (AtMost n) (FoundAtMost n)
  rules n = record { refuses = λ e why h. record {}; finds = λ e id h. h }

  pending-close_for_room :
      (id reason : String) (e : SpawnEnv)
      → pending owner (close_for_room w id reason e) ≤ pending owner e
  pending-close_for_room id reason e =
      let p = cancel_and_close w.callbacks id reason "system" none e.registry in
      elim (Option-cases p.1) [
        | inl n ↦ rw (close_for_room, n) (omega arith)
        | inr (i, n) ↦ elim (Option-cases e.slot_budget) [
          | inl b ↦ rw (close_for_room, n, b) (omega arith)
          | inr (b, k) ↦ rw (close_for_room, n, k) (shrinks i p.0 b)
        ]
      ]

  AtMost-close_for_room :
      (n : ℕ) (id reason : String) (e : SpawnEnv)
      → AtMost n e
      → AtMost n (close_for_room w id reason e)
  AtMost-close_for_room n id reason e h = omega (arith, pending-close_for_room id reason e, h)

  Within-after_enqueue :
      (n : ℕ) (o : Enqueued SpawnRequest) (e : SpawnEnv) → Within n (after_enqueue e o)
  Within-after_enqueue n queue_full e = record {}
  Within-after_enqueue n (accepted b) e = record {}

  Within-admit :
      (n : ℕ) (q : SpawnRequest) (e : SpawnEnv) (o : Option (SlotBudget SpawnRequest))
      → AtMost n e
      → Within n (admit_by w q e o)
  Within-admit n q e none h = h
  Within-admit n q e (some b) h = elim (Bool-cases (at_budget b q e)) [
    | inr f ↦ rw (admit_by, f) h
    | inl f ↦ elim (Option-cases (find_paused_for_reuse q.args.owner_session_id e.registry)) [
      | inl p ↦
          rw (admit_by, f, p)
            (Within-after_enqueue n
              (enqueue q.args.owner_session_id (queued_request w.settings q) b) e)
      | inr (paused, p) ↦ rw (admit_by, f, p) (AtMost-close_for_room n paused "slot_reclaimed" e h)
    ]
  ]

  Within-prepare : (q : SpawnRequest) (e : SpawnEnv) → Within (pending owner e) (prepare w q e)
  Within-prepare q e =
      let n = pending owner e in
      let P = AtMost n in
      let Q = FoundAtMost n in
      let b = bad_threshold q.auto_stop_no_change_runs in
      Holds->>= P Q (known_already q e) (from_key w q)
        (Holds-known_already P Q (rules n) q e (omega arith))
        λ e1 h1.
          Holds->>= P Q (key_taken q e1) (from_threshold w q)
            (Holds-key_taken P Q (rules n) q e1 (λ key. h1) h1)
            λ e2 h2.
              Holds->>= P Q (refuse_if b Refusal.no_change_threshold e2) (from_admission w q)
                (Holds-refuse_if P Q (rules n) b Refusal.no_change_threshold e2 h2)
                λ e3 h3.
                  Holds->>= P Q (admit w q e3) (from_session w q)
                    (Within-admit n q e3 e3.slot_budget h3)
                    λ e4 h4. Holds-from_session P Q (rules n) w (AtMost-close_for_room n) q e4 h4

  -- A spawn that returns an id.
  abbrev Kept : ℕ → SpawnEnv × Spawned → Type 0
  Kept n (e, spawned id) = pending owner e ≤ n
  Kept n (e, returned (existing id)) = pending owner e ≤ n
  Kept n (e, returned queued) = Unit
  Kept n (e, returned (refused why)) = Unit

  Kept-launch :
      (n : ℕ) (e : SpawnEnv) (p : Registry × Created) → pending owner e ≤ n → Kept n (launch e p)
  Kept-launch n e (r, dedup_error id) h = h
  Kept-launch n e (r, created i) h = h

  Kept-start :
      (n : ℕ) (fresh : String) (q : SpawnRequest) (s : Step SpawnEnv)
      → Within n s
      → Kept n (start w fresh q s)
  Kept-start n fresh q (halt e (existing id)) h = h
  Kept-start n fresh q (halt e queued) h = record {}
  Kept-start n fresh q (halt e (refused why)) h = record {}
  Kept-start n fresh q (go e) h = Kept-launch n e (create fresh (create_args w q e) e.registry) h

  Kept-spawn_subsession :
      (fresh : String) (q : SpawnRequest) (e : SpawnEnv)
      → Kept (pending owner e) (spawn_subsession w fresh q e)
  unfolding spawn_subsession
  Kept-spawn_subsession fresh q e =
      Kept-start (pending owner e) fresh q (prepare w q e) (Within-prepare q e)

  -- A turn goes on with fewer requests, or the loop is done.
  abbrev Turned : ℕ → SpawnEnv × Bool → Type 0
  Turned n (e, true) = pending owner e < n
  Turned n (e, false) = Drained w owner e

  Turned-after_spawn :
      (n : ℕ) (id : String) (q : SpawnRequest) (d : SpawnEnv) (p : SpawnEnv × Spawned)
      → spawn_subsession w id q d ≡ p
      → Kept n p
      → Turned (suc n) (after_spawn owner q p)
  Turned-after_spawn n id q d (e, spawned j) h k = omega (arith, k)
  Turned-after_spawn n id q d (e, returned (existing j)) h k = omega (arith, k)
  Turned-after_spawn n id q d (e, returned queued) h k = queued_again id q d e h
  Turned-after_spawn n id q d (e, returned (refused why)) h k = put_back id q d e why h

  Turned-after_pop :
      (id : String) (e : SpawnEnv) (b : SlotBudget SpawnRequest)
      → Turned (pending_count owner b) (after_pop w id owner e (pop_next owner b))
  unfolding waiting pending_count
  Turned-after_pop id e b = elim (pop_next_lem owner b) [
    | inl (empty, popped) ↦ rw popped (emptied (record e { slot_budget = some b }) b refl empty)
    | inr (q, rest, b', eq, popped, others) ↦
        let d : SpawnEnv = record e { slot_budget = some b' } in
        let len : pending_count owner b ≡ suc (pending owner d) =
          ground (arith, eq, others owner, eq_iff owner owner) in
        rw (popped, len)
          (Turned-after_spawn (pending owner d) id q d (spawn_subsession w id q d) refl
            (Kept-spawn_subsession id q d))
  ]

  Turned-drain_one :
      (id : String) (e : SpawnEnv) (b : SlotBudget SpawnRequest)
      → e.slot_budget ≡ some b
      → Turned (pending_count owner b) (drain_one w id owner b e)
  Turned-drain_one id e b k =
      elim (Bool-cases (ltb (count_occupied_for_owner owner e.registry) b.budget)) [
        | inl f ↦ rw (drain_one, f) (Turned-after_pop id e b)
        | inr f ↦ rw (drain_one, f) (at_full e b k (ground (arith, f)))
      ]

  Turned-drain_turn :
      (id : String) (e : SpawnEnv) → Turned (pending owner e) (drain_turn w id owner e)
  Turned-drain_turn id e = elim (Option-cases e.slot_budget) [
    | inl n ↦ rw (drain_turn, n) (no_budget e n)
    | inr (b, k) ↦ rw (drain_turn, k) (Turned-drain_one id e b k)
  ]

  -- What the loop is to give.
  abbrev Ends : Option SpawnEnv → Type 0
  Ends o = (e' : SpawnEnv) × (o ≡ some e') × Drained w owner e'

  Ends-next :
      (fresh : ℕ → String) (n m : ℕ) (p : SpawnEnv × Bool)
      → Turned m p
      → ((e : SpawnEnv) → pending owner e < m → Ends (drain_queue w fresh n owner e))
      → Ends (elim p.1 [ false ↦ some p.0 | true ↦ drain_queue w fresh n owner p.0 ])
  Ends-next fresh n m (e, true) h k = k e h
  Ends-next fresh n m (e, false) h k = (e, refl, h)

  Ends-drain_queue :
      (fresh : ℕ → String) (n : ℕ) (e : SpawnEnv)
      → pending owner e < n
      → Ends (drain_queue w fresh n owner e)
  unfolding drain_queue
  Ends-drain_queue fresh zero e h = absurd (omega (arith, h))
  Ends-drain_queue fresh (suc n) e h =
      Ends-next fresh n (pending owner e) (drain_turn w (fresh n) owner e)
        (Turned-drain_turn (fresh n) e) (λ d l. Ends-drain_queue fresh n d (omega (arith, l, h)))

  Ends-drain_with :
      (fresh : ℕ → String) (e : SpawnEnv) (o : Option (SlotBudget SpawnRequest))
      → e.slot_budget ≡ o
      → Ends (drain_with w fresh owner o e)
  Ends-drain_with fresh e none k = (e, refl, no_budget e k)
  Ends-drain_with fresh e (some b) k = elim (Bool-cases (enabled b)) [
    | inl f ↦ rw (drain_with, f) (Ends-drain_queue fresh (suc (pending owner e)) e (omega arith))
    | inr f ↦ rw (drain_with, f) (e, refl, disabled e b k f)
  ]

  -- Where no close lengthens the queue of the conversation, the drain of that queue ends. At its end there
  -- is no slot budget or it is off, or the conversation is at its budget, or nothing waits, or the last
  -- request was refused and is put back, or it was queued again.
  pub drain_ends :
      (fresh : ℕ → String) (e : SpawnEnv)
      → (e' : SpawnEnv) × (drain_slot_budget_queue w fresh owner e ≡ some e') × Drained w owner e'
  unfolding drain_slot_budget_queue
  drain_ends fresh e = Ends-drain_with fresh e e.slot_budget refl
