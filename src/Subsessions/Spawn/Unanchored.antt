-- ===== src/Subsessions/Spawn/Unanchored.antt =====
-- When a spawn is queued, and what its request has lost by then
-- (src/robotsix_chat/subsessions/worker.py).
use robotsix_chat.Base.{
  ◌≤◌, String, true, Option, none, some, [], ◌∷◌, ◌++◌, str_eq, ◌≡◌, ◌≢◌, refl, sym, subst, ap, ◌∙◌,
  arith, Bool-cases, Option-cases, inl, inr, if◌then◌else◌,
}
use robotsix_chat.Subsessions.Model.{SubsessionInfo}
use robotsix_chat.Subsessions.Registry.State.{Registry}
use robotsix_chat.Subsessions.Registry.Create.{
  Created, created, dedup_error, create, check_dedup, new_info,
}
use robotsix_chat.Subsessions.Registry.Index.{count_occupied_for_owner, find_paused_for_reuse}
use robotsix_chat.Subsessions.SlotBudget.{SlotBudget, Enqueued, accepted, queue_full, enqueue}
use robotsix_chat.Subsessions.SlotBudget.Fifo.{waiting, enqueue_lem}
use robotsix_chat.Subsessions.Spawn.{
  SpawnRequest, SpawnEnv, Outside, spawned, returned, queued, Step, halt, go, ◌>>=◌, admit_by,
  at_budget, after_enqueue, queued_request, close_for_room,
}
use robotsix_chat.Subsessions.Spawn.Start.{create_args, prepare, start, launch, spawn_subsession}
use robotsix_chat.Subsessions.Spawn.Admitted.{started, launched, create-new, finish-created}
use robotsix_chat.Subsessions.Spawn.Steps.{from_session}
use robotsix_chat.Subsessions.Spawn.Queued.{at_admission, not_queued, Unqueued-from_session}

unqueued : (w : Outside) (q : SpawnRequest) (m e' : SpawnEnv) → from_session w q m ≢ halt e' queued
unqueued w q m e' = not_queued (from_session w q m) e' (Unqueued-from_session w q m)

put_halts :
    (w : Outside) (q : SpawnRequest) (m e' : SpawnEnv) (o : Enqueued SpawnRequest)
    → (after_enqueue m o >>= from_session w q) ≡ halt e' queued
    → (b' : SlotBudget SpawnRequest) × (o ≡ accepted b') × (e' ≡ record m { slot_budget = some b' })
put_halts w q m e' queue_full h = absurd (cc h)
put_halts w q m e' (accepted b') h = (b', refl, cc h)

full_by :
    (w : Outside) (q : SpawnRequest) (m e' : SpawnEnv) (o : Option (SlotBudget SpawnRequest))
    → (admit_by w q m o >>= from_session w q) ≡ halt e' queued
    → (b b' : SlotBudget SpawnRequest) × (o ≡ some b)
      × (at_budget b q m ≡ true)
      × (find_paused_for_reuse q.args.owner_session_id m.registry ≡ none)
      × (enqueue q.args.owner_session_id (queued_request w.settings q) b ≡ accepted b')
      × (e' ≡ record m { slot_budget = some b' })
full_by w q m e' none h = absurd (unqueued w q m e' h)
full_by w q m e' (some b) h = elim (Bool-cases (at_budget b q m)) [
  | inr f ↦ absurd (unqueued w q m e' (rw (admit_by, f) at h))
  | inl f ↦ elim (Option-cases (find_paused_for_reuse q.args.owner_session_id m.registry)) [
    | inl p ↦
        let (b', entered, same) =
          put_halts w q m e' (enqueue q.args.owner_session_id (queued_request w.settings q) b)
            (rw (admit_by, f, p) at h) in
        (b, b', refl, f, p, entered, same)
    | inr (paused, p) ↦
        absurd
          (unqueued w q (close_for_room w paused "slot_reclaimed" m) e' (rw (admit_by, f, p) at h))
  ]
]

-- A record that is made for a queued request.
made_without_anchor :
    (w : Outside) (fresh : String) (q : SpawnRequest) (m : SpawnEnv) (r : Registry)
    (i : SubsessionInfo)
    → q.args.sub_id ≡ none
    → q.args.anchor_time ≡ none
    → create fresh (create_args w q m) m.registry ≡ (r, created i)
    → i.anchor_time ≡ none
unfolding new_info
made_without_anchor w fresh q m r i new none_given made =
    let (now, same) =
      finish-created fresh (create_args w q m) (check_dedup q.args.kind q.args.dedup_key m.registry)
        r i (sym (create-new fresh (create_args w q m) m.registry new) ∙ made) in
    subst (λ (j : SubsessionInfo). j.anchor_time ≡ none) (sym same) (ground (arith, none_given))

not_launched : (d e' : SpawnEnv) (p : Registry × Created) → launch d p ≢ (e', returned queued)
not_launched d e' (r, dedup_error id) h = cc h
not_launched d e' (r, created i) h = cc h

stopped :
    (w : Outside) (fresh : String) (q : SpawnRequest) (s : Step SpawnEnv) (e' : SpawnEnv)
    → start w fresh q s ≡ (e', returned queued)
    → s ≡ halt e' queued
stopped w fresh q (halt d s) e' h = cc h
stopped w fresh q (go d) e' h =
    absurd (not_launched d e' (create fresh (create_args w q d) d.registry) h)

later_record :
    (w : Outside) (q : SpawnRequest) (later id : String) (f f' : SpawnEnv)
    → q.args.sub_id ≡ none
    → q.args.anchor_time ≡ none
    → start w later q (prepare w q f) ≡ (f', spawned id)
    → (m : SpawnEnv) × (r : Registry) × (i : SubsessionInfo) × (create later
          (create_args w q m)
          m.registry
        ≡ (r, created i))
      × (i.id ≡ id)
      × (i.anchor_time ≡ none)
later_record w q later id f f' new none_given h =
    let (m, ready, launch_eq) = started w later q (prepare w q f) f' id h in
    let (r, i, made, same_id, attached) =
      launched m f' (create later (create_args w q m) m.registry) id launch_eq in
    (m, r, i, made, same_id, made_without_anchor w later q m r i new none_given made)

-- How the queues stand after a request was put in.
queues_later :
    (c : String) (q : SpawnRequest) (b b' : SlotBudget SpawnRequest) (other : String)
    → enqueue c q b ≡ accepted b'
    → waiting other b' ≡ (if str_eq c other then waiting c b ++ q ∷ [] else waiting other b)
queues_later c q b b' other entered = elim (enqueue_lem c q b) [
  | inl (f, r) ↦ absurd (cc (r, entered))
  | inr (d, d_eq, room, capped, queues) ↦
      let same_queue : d ≡ b' = cc (d_eq, entered) in
      subst
        (λ (x : SlotBudget SpawnRequest).
          waiting other x ≡ (if str_eq c other then waiting c b ++ q ∷ [] else waiting other b))
        same_queue (queues other)
]

at_budget-occupied :
    (b : SlotBudget SpawnRequest) (q : SpawnRequest) (m : SpawnEnv)
    → at_budget b q m ≡ true
    → b.budget ≤ count_occupied_for_owner q.args.owner_session_id m.registry
at_budget-occupied b q m h = ground (arith, h)

at_budget-new :
    (b : SlotBudget SpawnRequest) (q : SpawnRequest) (m : SpawnEnv)
    → at_budget b q m ≡ true
    → q.args.sub_id ≡ none
at_budget-new b q m h = elim (Option-cases q.args.sub_id) [
  | inl n ↦ n
  | inr (i, n) ↦ absurd (cc (rw (at_budget, n) at h))
]

-- A spawn that is answered with SLOT_BUDGET_QUEUED found the conversation's monitors at their budget
-- and none of them paused. The records are as before, and the request waits at the end of the
-- conversation's queue, the other queues unchanged. But it has no anchor there: a record that any later
-- spawn of it makes has none, whatever anchor was asked for.
pub queued_unanchored :
    (w : Outside) (fresh : String) (q : SpawnRequest) (e e' : SpawnEnv)
    → spawn_subsession w fresh q e ≡ (e', returned queued)
    → (b b' : SlotBudget SpawnRequest) × (e.slot_budget ≡ some b)
      × (e'.slot_budget ≡ some b')
      × (b.budget ≤ count_occupied_for_owner q.args.owner_session_id e'.registry)
      × (find_paused_for_reuse q.args.owner_session_id e'.registry ≡ none)
      × (e'.registry.subs ≡ e.registry.subs)
      × ((other : String)
          → waiting other b' ≡ (
              if str_eq q.args.owner_session_id other
              then waiting q.args.owner_session_id b ++ queued_request w.settings q ∷ []
              else waiting other b))
      × ((later id : String) (f f' : SpawnEnv)
          → spawn_subsession w later (queued_request w.settings q) f ≡ (f', spawned id)
          → (m : SpawnEnv) × (r : Registry) × (i : SubsessionInfo) × (create later
                (create_args w (queued_request w.settings q) m)
                m.registry
              ≡ (r, created i))
            × (i.id ≡ id)
            × (i.anchor_time ≡ none))
unfolding spawn_subsession
queued_unanchored w fresh q e e' h =
    let (m, at, kept) = at_admission w q e e' (stopped w fresh q (prepare w q e) e' h) in
    let (b, b', has, full, no_paused, entered, same) = full_by w q m e' m.slot_budget at in
    let registry : m.registry ≡ e'.registry = sym (ap (λ (x : SpawnEnv). x.registry) same) in
    (
      b,
      b',
      sym kept.queues ∙ has,
      ap (λ (x : SpawnEnv). x.slot_budget) same,
      subst (λ (r : Registry). b.budget ≤ count_occupied_for_owner q.args.owner_session_id r)
          registry (at_budget-occupied b q m full),
      subst (λ (r : Registry). find_paused_for_reuse q.args.owner_session_id r ≡ none) registry
          no_paused,
      ap (λ (r : Registry). r.subs) (sym registry) ∙ kept.records,
      λ other.
          queues_later q.args.owner_session_id (queued_request w.settings q) b b' other entered,
      λ later id f f' spawned_eq.
          later_record w (queued_request w.settings q) later id f f' (at_budget-new b q m full) refl
            spawned_eq,
    )
