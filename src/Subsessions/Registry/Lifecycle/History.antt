-- ===== src/Subsessions/Registry/Lifecycle/History.antt =====
-- What the operations on registered records leave of them, over any sequence of operations.
use robotsix_chat.Base.{String, some, List, ◌≡◌}
use robotsix_chat.Base.Dict.{get}
use robotsix_chat.Subsessions.Model.{SubsessionInfo}
use robotsix_chat.Subsessions.Registry.State.{Registry}
use robotsix_chat.Subsessions.Registry.Closing.{Callback}
use robotsix_chat.Subsessions.Registry.Closing.Rule.{KeysMatch, AllKeep}
use robotsix_chat.Subsessions.Registry.Lifecycle.Evolution.{Change, Evolved-refl}
use robotsix_chat.Subsessions.Registry.Lifecycle.Runs.{RecordOp, Since, run, run-Since}

-- Over any sequence of status changes, pauses, resumptions, claims of runs, changes of the periodic
-- configuration, messages and terminal transitions, no record is lost, and each keeps its identity
-- (the id, the kind, the owner, the parent, the depth, the creation time, the deduplication key and
-- the ticket it depends on), is not active again once it was terminal, and keeps the runs it
-- completed. The records stand under their ids, and the callbacks keep all that.
pub records_evolve :
    (callbacks : List Callback) (ops : List (String × RecordOp)) (r : Registry)
    → AllKeep (Since r.subs) callbacks
    → KeysMatch r
    → (id : String) (i : SubsessionInfo) → get id r.subs ≡ some i
    → (j : SubsessionInfo) × (get id (run callbacks ops r).subs ≡ some j) × Change i j
records_evolve callbacks ops r keep k id i e =
    (run-Since r.subs callbacks keep ops r (Evolved-refl r.subs k)).changed id i e
