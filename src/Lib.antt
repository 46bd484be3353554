-- ===== src/Lib.antt =====
-- The chat server's conversation store, its subsessions (the registry, the spawn, the slot budget and
-- the schedule, the end of a periodic turn), the event bus, the continuation store, and the drain before a restart.
--
-- A conversation (an "owner") starts subsessions: tasks, periodic monitors, event waiters and decision
-- panels. The registry keeps one record for each, with its messages, and writes all of them to one
-- file after each change. It publishes a frame for each change on the event bus, which streams turns to
-- browsers. A spawn passes a row of guards before the registry makes its record. A conversation that has
-- too many monitors queues its requests in the slot budget, and the close of a monitor spawns those
-- that waited. The store of the conversations keeps the turns of every session, shortens what the agent
-- is shown by compaction and trimming, evicts the sessions that were used least recently, and writes
-- itself to a file that it reads after a restart. The
-- continuation store lets an agent go on after a restart, a bounded number of times in a row.
--
-- Files and the code they model:
--   Subsessions/Model             src/robotsix_chat/subsessions/models.py, registry_constants.py: enumerations
--                                 are data types, SubsessionInfo is a record with the source's fields, frames
--                                 and summaries are constructors with the values that they show.
--   Subsessions/Checkpoint        src/robotsix_chat/subsessions/registry_checkpoint.py; a checkpoint is a
--                                 dictionary of JSON values.
--   Subsessions/Registry/State    the attributes that src/robotsix_chat/subsessions/registry.py shares with its
--                                 collaborators, as one record; `persist` of registry_store.py.
--   .../Retention                 prune_terminal of registry_store.py.
--   .../Create                    create, restore, attach_task and set_status of registry.py.
--   .../Messages                  transcript, turn history and inbox of registry.py.
--   .../Closing                   _close_and_publish, _pause_dependents and the terminal transitions of
--                                 registry_lifecycle.py; .../Lifecycle has the other transitions.
--   .../Index, Tree, Ownership    registry_index.py: the counts and searches, the tree of an owner, and the
--                                 operations on all the records of an owner.
--   Subsessions/SlotBudget        src/robotsix_chat/subsessions/slot_budget.py.
--   Subsessions/Spawn             spawn_subsession of src/robotsix_chat/subsessions/worker.py, a row of steps
--                                 that return early or go on, and the level check of worker_validation.py.
--   Subsessions/Wiring            src/robotsix_chat/subsessions/slot_budget_wiring.py.
--   Subsessions/Schedule          src/robotsix_chat/subsessions/schedule.py, and _anchored_next_run_at of
--                                 worker_periodic.py.
--   Subsessions/PeriodicTurn      _run_periodic_turn of worker_periodic.py, in steps; Subsessions/Replies has the
--                                 sentinels of worker_errors.py.
--   Registry/Tickets              the event waiters and the queries by ticket of registry_tickets.py.
--   Registry/Routing              the routing of a ticket's event to its waiters, its paused monitors and the
--                                 open panels about it, of registry_tickets.py.
--   Chat/EventBus                 the class EventBus of src/robotsix_chat/chat/events.py.
--   Chat/Conversation             the turns of one session in src/robotsix_chat/chat/conversation.py; the
--                                 indices that a trim is given are natural numbers.
--   Chat/Titles                   _derive_title of conversation.py, and Python's split and strip.
--   Chat/SessionFile              a session's entry in the file, read and written by conversation.py, and
--                                 clamp_persisted_model_level of src/robotsix_chat/config/constants.py.
--   Chat/Sessions                 the class ConversationStore of conversation.py: its state and the file that
--                                 it writes; Loading reads it, Turns, Owners, Compaction and Links have the
--                                 operations. Sound and Restart are about all of them.
--   Chat/Idempotency              src/robotsix_chat/chat/server/idempotency.py.
--   Continuation                  src/robotsix_chat/continuation/store.py.
--   Drain                         src/robotsix_chat/lifecycle/drain.py; a wait is a function of the rounds of
--                                 its loop, each with what it counts and the clock it reads.
-- Base holds what they share: Python's dictionaries as association lists in insertion order, sets as
-- lists, slices and tests. Tests has the theorems at concrete inputs.
--
-- A method is a function from the state to the new state and the returned value; an exception is a
-- constructor of the result. The objects that the source mutates in place stand in one dictionary,
-- and a method reads them there again after each call that may change them. The clock's reading and
-- the new id of a subsession are inputs. Times are natural numbers. Close callbacks are functions on
-- the registry, about which a theorem assumes what it names. A failed write of the file is the flag
-- `writable`. A set is walked in the order of its list. A JSON number of a session file is a natural
-- number. What comes from outside stands in records: Reader for Python's str and int on JSON values and
-- the levels of the language-model library, Zones for the time zones, Outside for the settings of a
-- spawn, its callbacks and the text of the ancestors, TurnOutside for the settings of a turn and Python's
-- upper, lower and casefold, and Patterns for the pattern of a ticket id. What other tasks do while a turn waits for a delivery is left out.
--
-- Some loops run on fuel. A close makes an active record terminal before it closes the records that
-- depend on it, so the number of active records and one bounds the depth of the cascade. A pass of the
-- search for descendants that changes anything adds a record of the tree, so the number of records and
-- one bounds the passes. The walk along the links of old compactions sees a session twice at the latest
-- after as many steps as there are sessions, and two more. Each turn of the drain of a queue takes a
-- request out of it, so the number of requests and one is enough. The loops of the schedule step at
-- most once.
--
-- Not modelled: the agents' turns, the waits of a worker and its turns of other kinds, the watcher,
-- the tools, and every call of a service or of the file system beyond the stored text, the JSON
-- encoding, the waiting itself (asyncio events are flags), the HTTP routes.
pub mod Base
pub mod Chat
pub mod Continuation
pub mod Drain
pub mod Subsessions
pub mod Tests
