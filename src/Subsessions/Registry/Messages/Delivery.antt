-- ===== src/Subsessions/Registry/Messages/Delivery.antt =====
-- The messages of one active record with an inbox between `enqueue_message`, `drain_inbox` and
-- `append_turn_history`: none is lost, repeated or reordered, and the store's file has them all.
use robotsix_chat.Base.{
  String, Bool, true, false, List, [], ◌∷◌, ◌++◌, ◌≡◌, ap, ◌∙◌, sym, map, append_assoc, append-nil,
  map-append,
}
use robotsix_chat.Subsessions.Model.{InboxMessage}
use robotsix_chat.Subsessions.Registry.State.{Registry, stored_entries}
use robotsix_chat.Subsessions.Registry.Messages.{append_turn_history, enqueue_message, drain_inbox}
use robotsix_chat.Subsessions.Registry.Messages.Open.{
  Open, inbox_of, flight_of, enqueue_message-Open, drain_inbox-Open, append_turn_history-Open,
}

-- What the other parts do with one record's messages.
pub data InboxOp : Type 0 where
  enqueued : String → String → InboxOp
  drained : InboxOp
  acted : String → String → InboxOp

pub record Trace : Type 0 where
  pub registry : Registry
  -- what `enqueue_message` accepted, what `drain_inbox` returned, what `append_turn_history` let go
  pub accepted : List InboxMessage
  pub returned : List InboxMessage
  pub released : List InboxMessage

abbrev accepted_by : Bool → InboxMessage → List InboxMessage
accepted_by true m = m ∷ []
accepted_by false m = []

unfoldable pub step : String → InboxOp → Trace → Trace
step id (enqueued role text) t =
    let (r, ok) = enqueue_message id role text t.registry in
    record t {
      registry = r;
      accepted =
          t.accepted
          ++ accepted_by ok (record { role = role; text = text; timestamp = t.registry.now });
    }
step id drained t =
    let (r, messages) = drain_inbox id t.registry in
    record t { registry = r; returned = t.returned ++ messages }
step id (acted turn_input reply) t = record t {
  registry = append_turn_history id turn_input reply t.registry;
  released = t.released ++ flight_of id t.registry;
}

unfoldable pub run : String → List InboxOp → Trace → Trace
run id [] t = t
run id (op ∷ ops) t = run id ops (step id op t)

-- The two accounts of the messages of the record.
pub record Accounted (id : String) (before : Registry) (t : Trace) : Type 0 where
  pub still_open : Open id t.registry
  pub in_order : t.returned ++ inbox_of id t.registry ≡ inbox_of id before ++ t.accepted
  pub kept :
      t.released ++ flight_of id t.registry ++ inbox_of id t.registry
      ≡ (flight_of id before ++ inbox_of id before) ++ t.accepted

shift : (a b c d x : List InboxMessage) → a ++ b ≡ c ++ d → a ++ (b ++ x) ≡ c ++ (d ++ x)
shift a b c d x h = sym (append_assoc a b x) ∙ ap (λ l. l ++ x) h ∙ append_assoc c d x

step-Accounted :
    (id : String) (before : Registry) (op : InboxOp) (t : Trace)
    → Accounted id before t
    → Accounted id before (step id op t)
unfolding step
step-Accounted id before (enqueued role text) t h =
    let m : InboxMessage = record { role = role; text = text; timestamp = t.registry.now } in
    let (o, ok, inbox, flight) = enqueue_message-Open id role text t.registry h.still_open in
    let taken = ap (λ b. accepted_by b m) ok in
    record {
      still_open = o;
      in_order =
          ap (λ l. t.returned ++ l) inbox
          ∙ shift t.returned (inbox_of id t.registry) (inbox_of id before) t.accepted (m ∷ [])
              h.in_order
          ∙ ap (λ l. inbox_of id before ++ (t.accepted ++ l)) (sym taken);
      kept =
          ap (λ l. t.released ++ l ++ inbox_of id (enqueue_message id role text t.registry).0)
            flight
          ∙ ap (λ l. t.released ++ flight_of id t.registry ++ l) inbox
          ∙ shift (t.released ++ flight_of id t.registry) (inbox_of id t.registry)
              (flight_of id before ++ inbox_of id before) t.accepted (m ∷ []) h.kept
          ∙ ap (λ l. (flight_of id before ++ inbox_of id before) ++ (t.accepted ++ l)) (sym taken);
    }
step-Accounted id before drained t h =
    let (o, messages, inbox, flight) = drain_inbox-Open id t.registry h.still_open in
    record {
      still_open = o;
      in_order =
          ap (λ l. t.returned ++ l ++ inbox_of id (drain_inbox id t.registry).0) messages
          ∙ ap (λ l. t.returned ++ inbox_of id t.registry ++ l) inbox
          ∙ append-nil (t.returned ++ inbox_of id t.registry)
          ∙ h.in_order;
      kept =
          ap (λ l. t.released ++ l ++ inbox_of id (drain_inbox id t.registry).0) flight
          ∙ ap (λ l. t.released ++ (flight_of id t.registry ++ inbox_of id t.registry) ++ l) inbox
          ∙ append-nil (t.released ++ (flight_of id t.registry ++ inbox_of id t.registry))
          ∙ sym (append_assoc t.released (flight_of id t.registry) (inbox_of id t.registry))
          ∙ h.kept;
    }
step-Accounted id before (acted turn_input reply) t h =
    let r' = append_turn_history id turn_input reply t.registry in
    let (o, inbox, flight) = append_turn_history-Open id turn_input reply t.registry h.still_open in
    record {
      still_open = o;
      in_order = ap (λ l. t.returned ++ l) inbox ∙ h.in_order;
      kept =
          ap (λ l. (t.released ++ flight_of id t.registry) ++ l ++ inbox_of id r') flight
          ∙ ap (λ l. (t.released ++ flight_of id t.registry) ++ [] ++ l) inbox
          ∙ ap (λ l. l ++ inbox_of id t.registry)
              (append-nil (t.released ++ flight_of id t.registry))
          ∙ h.kept;
    }

run-Accounted :
    (id : String) (before : Registry) (ops : List InboxOp) (t : Trace)
    → Accounted id before t
    → Accounted id before (run id ops t)
unfolding run
run-Accounted id before [] t h = h
run-Accounted id before (op ∷ ops) t h =
    run-Accounted id before ops (step id op t) (step-Accounted id before op t h)

abbrev pub said : InboxMessage → String × String
said m = (m.role, m.text)

abbrev pub sent : List InboxOp → List (String × String)
sent [] = []
sent (enqueued role text ∷ ops) = (role, text) ∷ sent ops
sent (drained ∷ ops) = sent ops
sent (acted turn_input reply ∷ ops) = sent ops

run-sent :
    (id : String) (before : Registry) (ops : List InboxOp) (t : Trace)
    → Accounted id before t
    → map said (run id ops t).accepted ≡ map said t.accepted ++ sent ops
unfolding run step
run-sent id before [] t h = sym (append-nil (map said t.accepted))
run-sent id before (enqueued role text ∷ ops) t h =
    let m : InboxMessage = record { role = role; text = text; timestamp = t.registry.now } in
    let ok = (enqueue_message-Open id role text t.registry h.still_open).1 in
    run-sent id before ops (step id (enqueued role text) t)
      (step-Accounted id before (enqueued role text) t h)
    ∙ ap (λ b. map said (t.accepted ++ accepted_by b m) ++ sent ops) ok
    ∙ ap (λ l. l ++ sent ops) (map-append said t.accepted (m ∷ []))
    ∙ append_assoc (map said t.accepted) ((role, text) ∷ []) (sent ops)
run-sent id before (drained ∷ ops) t h =
    run-sent id before ops (step id drained t) (step-Accounted id before drained t h)
run-sent id before (acted turn_input reply ∷ ops) t h =
    run-sent id before ops (step id (acted turn_input reply) t)
      (step-Accounted id before (acted turn_input reply) t h)

-- A trace that starts now.
abbrev pub begin : Registry → Trace
begin r = record { registry = r; accepted = []; returned = []; released = [] }

-- For a record that is active and has an inbox, in a registry whose file, if it can be written, holds
-- what the registry holds, any calls of `enqueue_message`, `drain_inbox` and `append_turn_history`
-- on it leave these accounts of its messages. Every message sent is accepted, in order. The messages returned by the drains, followed by the
-- inbox, are the first inbox followed by the messages accepted, in order. The messages that were in
-- flight when a turn was recorded, followed by those in flight now and the inbox, are what was
-- undelivered at first followed by the messages accepted. And a file that can be written still holds the
-- registry's records with their inboxes and their messages in flight.
pub messages_accounted :
    (id : String) (ops : List InboxOp) (r : Registry)
    → Open id r
    → let t = run id ops (begin r) in
      (map said t.accepted ≡ sent ops)
      × (t.returned ++ inbox_of id t.registry ≡ inbox_of id r ++ t.accepted)
      × (t.released ++ flight_of id t.registry ++ inbox_of id t.registry
          ≡ (flight_of id r ++ inbox_of id r) ++ t.accepted)
      × (t.registry.writable ≡ true → t.registry.disk ≡ stored_entries t.registry)
messages_accounted id ops r o =
    let start : Accounted id r (begin r) = record {
      still_open = o;
      in_order = sym (append-nil (inbox_of id r));
      kept = sym (append-nil (flight_of id r ++ inbox_of id r));
    } in
    let h = run-Accounted id r ops (begin r) start in
    (run-sent id r ops (begin r) start, h.in_order, h.kept, h.still_open.on_disk)
