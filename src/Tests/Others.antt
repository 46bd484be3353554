-- ===== src/Tests/Others.antt =====
-- The slot budget, the event bus and the continuation store at concrete inputs.
use robotsix_chat.Base.{
  ◌+◌, ◌≤◌, ◌<◌, String, true, none, some, List, [], ◌∷◌, ◌++◌, ◌≡◌, refl, ◌⊎◌, length, map, str_eq,
  arith, if◌then◌else◌,
}
use robotsix_chat.Base.Dict.{get}
use robotsix_chat.Subsessions.SlotBudget.{
  SlotBudget, Enqueued.accepted, Enqueued.queue_full, enqueue, pop_next, requeue_front,
}
use robotsix_chat.Subsessions.SlotBudget.Fifo.{
  waiting, enqueue_lem, requeue_front-pop_next, enqueue_all, pop_all, popped_in_order,
}
use robotsix_chat.Chat.EventBus.{EventBus, empty_bus, subscribe}
use robotsix_chat.Chat.EventBus.Replay.{InStep}
use robotsix_chat.Chat.EventBus.Joined.{BusOp, run, joined_mid_turn}
use robotsix_chat.Continuation.{ContinuationStore, initial_state, load, schedule, consume_pending}
use robotsix_chat.Continuation.Guardrail.{Event, fired, IsSynced, fired_bounded, fired_once}

abbrev queued : SlotBudget String
queued = record { budget = 1; queue_max = 3; queues = ("s1", "r1" ∷ []) ∷ [] }

enqueue_lem_example :
    ((queued.queue_max ≤ length (waiting "s1" queued)) × (enqueue "s1" "r2" queued ≡ queue_full))
    ⊎ ((b' : SlotBudget String) × (enqueue "s1" "r2" queued ≡ accepted b')
        × (length (waiting "s1" queued) < queued.queue_max)
        × (b'.queue_max ≡ queued.queue_max)
        × ((other : String)
            → waiting other b' ≡ (
                if str_eq "s1" other
                then waiting "s1" queued ++ "r2" ∷ []
                else waiting other queued)))
enqueue_lem_example = enqueue_lem "s1" "r2" queued

requeue_front-pop_next_example :
    waiting "s1" (requeue_front "s1" "r1" (pop_next "s1" queued).0) ≡ waiting "s1" queued
unfolding pop_next get
requeue_front-pop_next_example =
    requeue_front-pop_next "s1" "s1" "r1" queued (pop_next "s1" queued).0 refl

popped_in_order_example :
    (b' : SlotBudget String) × (enqueue_all "s1" ("r2" ∷ "r3" ∷ []) queued ≡ some b')
    × (pop_all (length (waiting "s1" queued ++ "r2" ∷ "r3" ∷ [])) "s1" b'
        ≡ map some (waiting "s1" queued ++ "r2" ∷ "r3" ∷ []))
unfolding waiting get
popped_in_order_example = popped_in_order "s1" ("r2" ∷ "r3" ∷ []) queued (omega arith)

abbrev mid_turn : EventBus
mid_turn = record empty_bus {
  current_turn = ("s1", record { turn_id = "t1"; parts = "Hel" ∷ []; user_message = "hi" }) ∷ [];
}

abbrev bus_ops : List BusOp
bus_ops =
    BusOp.appends "s1" "t1" "lo" ∷ BusOp.notifies_all "ping" ∷ BusOp.appends "s1" "t1" "!" ∷ []

joined_mid_turn_example :
    InStep "s1" "t1" (subscribe "s1" mid_turn).1 (run bus_ops (subscribe "s1" mid_turn).0)
unfolding get
joined_mid_turn_example =
    joined_mid_turn "s1" mid_turn
      (record { turn_id = "t1"; parts = "Hel" ∷ []; user_message = "hi" }) bus_ops refl
      (record {}, (record {}, (record {}, record {})))

abbrev store : ContinuationStore
store = record {
  max_consecutive = 2;
  writable = true;
  state = initial_state;
  disk = some initial_state;
}

store-IsSynced : IsSynced store
unfolding load
store-IsSynced = record { writable = refl; synced = refl }

abbrev events : List Event
events = Event.schedules "t1" "s1" "go on" ∷ Event.restarts ∷ Event.consumes "t2" ∷ []

fired_bounded_example : store.state.consecutive_count + fired events store ≤ store.max_consecutive
fired_bounded_example = fired_bounded events store store-IsSynced (omega arith)

fired_once_example :
    let armed = load (schedule "t1" "s1" "go on" store) in
    let (c', out) = consume_pending "t2" armed in
    (out ≡ some ("s1", "go on"))
    × ((consume_pending "t3" c').1 ≡ none)
    × ((consume_pending "t3" (load c')).1 ≡ none)
fired_once_example = fired_once "t1" "t2" "t3" "s1" "go on" store store-IsSynced refl (omega arith)
