-- ===== src/Subsessions/Wiring.antt =====
-- src/robotsix_chat/subsessions/slot_budget_wiring.py: what the close of a monitor does to the queue of its
-- conversation. A loop of spawns takes fuel; the ids that they may take are an argument.
pub mod Drained
use robotsix_chat.Base.{
  ℕ, zero, suc, String, Bool, true, false, Option, none, some, List, [], ◌∷◌, length, ltb, ◌==◌,
  str_eq, if◌then◌else◌,
}
use robotsix_chat.Base.Dict.{get_or}
use robotsix_chat.Subsessions.Model.{SubsessionInfo}
use robotsix_chat.Subsessions.Registry.Index.{count_occupied_for_owner}
use robotsix_chat.Subsessions.SlotBudget.{
  SlotBudget, enabled, pending_count, pop_next, requeue_front, discard_pending,
}
use robotsix_chat.Subsessions.Spawn.{
  SpawnRequest, SpawnEnv, Outside, Returned, existing, queued, refused, Spawned, spawned, returned,
}
use robotsix_chat.Subsessions.Spawn.Start.{spawn_subsession}

abbrev pub owner_closed_reason : String
owner_closed_reason = "session closed"

-- `env.slot_budget` changed in place, if there is one.
abbrev pub with_queues : (SlotBudget SpawnRequest → SlotBudget SpawnRequest) → SpawnEnv → SpawnEnv
with_queues f e = record e {
  slot_budget = elim e.slot_budget [ none ↦ none | some b ↦ some (f b) ];
}

-- `attach_slot_budget`, less the callback that it registers.
unfoldable pub attach_slot_budget : ℕ → ℕ → SpawnEnv → SpawnEnv
attach_slot_budget monitor_slot_budget monitor_slot_queue_max e =
    if ltb 0 monitor_slot_budget
    then record e {
      slot_budget = some (record {
        budget = monitor_slot_budget;
        queue_max = monitor_slot_queue_max;
        queues = [];
      });
    }
    else e

-- The state after a spawn, and whether the loop goes on.
abbrev pub after_spawn : String → SpawnRequest → SpawnEnv × Spawned → SpawnEnv × Bool
after_spawn owner request (e, spawned id) = (e, true)
after_spawn owner request (e, returned (existing id)) = (e, true)
after_spawn owner request (e, returned queued) = (e, false)
after_spawn owner request (e, returned (refused why)) =
    (with_queues (requeue_front owner request) e, false)

abbrev pub after_pop :
    Outside
    → String
    → String
    → SpawnEnv
    → SlotBudget SpawnRequest × Option SpawnRequest
    → SpawnEnv × Bool
after_pop w id owner e (b, none) = (record e { slot_budget = some b }, false)
after_pop w id owner e (b, some request) =
    after_spawn owner request (spawn_subsession w id request (record e { slot_budget = some b }))

-- One turn of the loop, while a slot is free.
abbrev pub drain_one :
    Outside → String → String → SlotBudget SpawnRequest → SpawnEnv → SpawnEnv × Bool
drain_one w id owner b e = elim (ltb (count_occupied_for_owner owner e.registry) b.budget) [
  | false ↦ (e, false)
  | true ↦ after_pop w id owner e (pop_next owner b)
]

abbrev pub drain_turn : Outside → String → String → SpawnEnv → SpawnEnv × Bool
drain_turn w id owner e = elim e.slot_budget [
  | none ↦ (e, false)
  | some b ↦ drain_one w id owner b e
]

-- The loop of `_drain_slot_budget_queue`; `none` only where the fuel runs out.
unfoldable pub drain_queue : Outside → (ℕ → String) → ℕ → String → SpawnEnv → Option SpawnEnv
drain_queue w fresh zero owner e = none
drain_queue w fresh (suc n) owner e =
    let (e', more) = drain_turn w (fresh n) owner e in
    elim more [ false ↦ some e' | true ↦ drain_queue w fresh n owner e' ]

abbrev pub pending : String → SpawnEnv → ℕ
pending owner e = elim e.slot_budget [ none ↦ 0 | some b ↦ pending_count owner b ]

abbrev pub drain_with :
    Outside → (ℕ → String) → String → Option (SlotBudget SpawnRequest) → SpawnEnv → Option SpawnEnv
drain_with w fresh owner none e = some e
drain_with w fresh owner (some b) e = elim (enabled b) [
  | false ↦ some e
  | true ↦ drain_queue w fresh (suc (pending owner e)) owner e
]

-- `_drain_slot_budget_queue`
unfoldable pub drain_slot_budget_queue :
    Outside → (ℕ → String) → String → SpawnEnv → Option SpawnEnv
drain_slot_budget_queue w fresh owner e = drain_with w fresh owner e.slot_budget e

abbrev pub has_reason : String → SubsessionInfo → Bool
has_reason reason i = elim i.close_reason [ none ↦ false | some r ↦ str_eq r reason ]

-- `_on_monitor_closed`
unfoldable pub on_monitor_closed :
    Outside → (ℕ → String) → SubsessionInfo → SpawnEnv → Option SpawnEnv
on_monitor_closed w fresh i e = elim (has_reason "slot_reclaimed" i) [
  | true ↦ some e
  | false ↦ elim (has_reason owner_closed_reason i) [
    | true ↦ some (with_queues (discard_pending i.owner_session_id) e)
    | false ↦ drain_slot_budget_queue w fresh i.owner_session_id e
  ]
]
