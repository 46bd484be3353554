-- ===== src/Subsessions/Registry/Messages/Open.antt =====
-- What `enqueue_message`, `drain_inbox` and `append_turn_history` do to the messages of an active
-- record.
use robotsix_chat.Base.{
  String, true, false, none, some, List, [], ◌∷◌, ◌++◌, ◌≡◌, refl, ap, ◌∙◌, sym, arith, eq_refl,
  ◌⊎◌, inl, inr, Option-cases, append-nil,
}
use robotsix_chat.Base.Dict.{get, put, get_or}
use robotsix_chat.Base.Dict.Laws.{get-put_same, get_or-some, get_or-remove}
use robotsix_chat.Subsessions.Model.{SubsessionInfo, InboxMessage, is_active}
use robotsix_chat.Subsessions.Registry.State.{Registry, publish, persist, stored_entries}
use robotsix_chat.Subsessions.Registry.Messages.{
  append_transcript, append_turn_history, enqueue_active, enqueue_message, drain, drain_inbox,
}

abbrev pub inbox_of : String → Registry → List InboxMessage
inbox_of id r = get_or id [] r.inboxes

abbrev pub flight_of : String → Registry → List InboxMessage
flight_of id r = get_or id [] r.in_flight

-- The record is active and has an inbox, and the file holds what the registry holds.
pub record Open (id : String) (r : Registry) : Type 0 where
  pub info : SubsessionInfo
  pub inbox : List InboxMessage
  pub registered : get id r.subs ≡ some info
  pub active : is_active info ≡ true
  pub has_inbox : get id r.inboxes ≡ some inbox
  pub on_disk : r.writable ≡ true → r.disk ≡ stored_entries r

inboxes-append_transcript :
    (id role text : String) (r : Registry) → (append_transcript id role text r).inboxes ≡ r.inboxes
unfolding append_transcript publish persist
inboxes-append_transcript id role text r = ground arith

in_flight-append_transcript :
    (id role text : String) (r : Registry)
    → (append_transcript id role text r).in_flight ≡ r.in_flight
unfolding append_transcript publish persist
in_flight-append_transcript id role text r = ground arith

-- An operation that writes the record and then the file keeps the record open.
module _ (id role text : String) (r : Registry) (i : SubsessionInfo)
    (e : get id r.subs ≡ some i) where
  disk-append_transcript :
      (append_transcript id role text r).writable ≡ true
      → (append_transcript id role text r).disk ≡ stored_entries (append_transcript id role text r)
  unfolding append_transcript publish persist stored_entries
  disk-append_transcript = rw (e, append_transcript) (λ w. rw w refl)

  subs-append_transcript :
      is_active i ≡ true
      → (j : SubsessionInfo) × (get id (append_transcript id role text r).subs ≡ some j)
        × (is_active j ≡ true)
  unfolding append_transcript publish persist
  subs-append_transcript a = rw (e, append_transcript) (_, get-put_same id _ r.subs, a)

pub enqueue_message-Open :
    (id role text : String) (r : Registry) (o : Open id r)
    → Open id (enqueue_message id role text r).0
      × ((enqueue_message id role text r).1 ≡ true)
      × (inbox_of id (enqueue_message id role text r).0
          ≡ inbox_of id r ++ record { role = role; text = text; timestamp = r.now } ∷ [])
      × (flight_of id (enqueue_message id role text r).0 ≡ flight_of id r)
unfolding enqueue_message enqueue_active stored_entries
enqueue_message-Open id role text r o =
    let m : InboxMessage = record { role = role; text = text; timestamp = r.now } in
    let queued : Registry = record r { inboxes = put id (o.inbox ++ m ∷ []) r.inboxes } in
    let (j, there, alive) =
      subs-append_transcript id role text queued o.info o.registered o.active in
    let same_inboxes = inboxes-append_transcript id role text queued in
    let has_inbox =
      ap (λ d. get id d) same_inboxes ∙ get-put_same id (o.inbox ++ m ∷ []) r.inboxes in
    rw (o.registered, enqueue_message)
      (rw o.active (
        rw (o.has_inbox, enqueue_active)
          (
            record {
              info = j;
              inbox = o.inbox ++ m ∷ [];
              registered = there;
              active = alive;
              has_inbox = has_inbox;
              on_disk = disk-append_transcript id role text queued o.info o.registered;
            },
            refl,
            get_or-some id [] (o.inbox ++ m ∷ []) _ has_inbox
                ∙ ap (λ l. l ++ m ∷ []) (sym (get_or-some id [] o.inbox r.inboxes o.has_inbox)),
            ap (λ d. get_or id [] d) (in_flight-append_transcript id role text queued),
          )))

pub drain_inbox-Open :
    (id : String) (r : Registry) (o : Open id r)
    → Open id (drain_inbox id r).0
      × ((drain_inbox id r).1 ≡ inbox_of id r)
      × (inbox_of id (drain_inbox id r).0 ≡ [])
      × (flight_of id (drain_inbox id r).0 ≡ flight_of id r ++ inbox_of id r)
unfolding drain_inbox drain persist stored_entries
drain_inbox-Open id r o =
    let same = get_or-some id [] o.inbox r.inboxes o.has_inbox in go o.inbox same
  where
    go :
        (ms : List InboxMessage)
        → inbox_of id r ≡ ms
        → Open id (drain_inbox id r).0
          × ((drain_inbox id r).1 ≡ inbox_of id r)
          × (inbox_of id (drain_inbox id r).0 ≡ [])
          × (flight_of id (drain_inbox id r).0 ≡ flight_of id r ++ inbox_of id r)
    go [] e =
        rw (e, drain_inbox)
          (
            record {
              info = o.info;
              inbox = o.inbox;
              registered = o.registered;
              active = o.active;
              has_inbox = o.has_inbox;
              on_disk = o.on_disk;
            },
            refl,
            e,
            sym (append-nil (flight_of id r)),
          )
    go (m ∷ ms) e =
        rw (e, drain_inbox)
          (
            record {
              info = o.info;
              inbox = [];
              registered = o.registered;
              active = o.active;
              has_inbox = get-put_same id [] r.inboxes;
              on_disk = λ w. rw w refl;
            },
            refl,
            get_or-some id [] [] _ (get-put_same id [] r.inboxes),
            get_or-some id [] _ _ (get-put_same id (flight_of id r ++ m ∷ ms) r.in_flight),
          )

pub append_turn_history-Open :
    (id turn_input reply : String) (r : Registry) (o : Open id r)
    → Open id (append_turn_history id turn_input reply r)
      × (inbox_of id (append_turn_history id turn_input reply r) ≡ inbox_of id r)
      × (flight_of id (append_turn_history id turn_input reply r) ≡ [])
unfolding append_turn_history persist stored_entries
append_turn_history-Open id turn_input reply r o =
    rw (o.registered, append_turn_history)
      (
        record {
          info = _;
          inbox = o.inbox;
          registered = get-put_same id _ r.subs;
          active = o.active;
          has_inbox = o.has_inbox;
          on_disk = λ w. rw w refl;
        },
        refl,
        get_or-remove id id [] r.in_flight ∙ rw (eq_refl id) refl,
      )

pub subs-drain_inbox : (id : String) (r : Registry) → (drain_inbox id r).0.subs ≡ r.subs
unfolding drain_inbox drain persist
subs-drain_inbox id r = ground arith

-- A message changes the records as its transcript entry does, or not at all.
pub subs-enqueue_message :
    (id role text : String) (r : Registry)
    → ((enqueue_message id role text r).0.subs ≡ r.subs)
      ⊎ ((enqueue_message id role text r).0.subs ≡ (append_transcript id role text r).subs)
unfolding enqueue_message enqueue_active append_transcript publish persist
subs-enqueue_message id role text r = elim (Option-cases (get id r.subs)) [
  | inl e ↦ inl (ground (arith, e))
  | inr (i, e) ↦ ground (arith, e)
]

-- Without an inbox a message is refused.
pub enqueue_message-unboxed :
    (id role text : String) (r : Registry)
    → get id r.inboxes ≡ none
    → enqueue_message id role text r ≡ (r, false)
unfolding enqueue_message enqueue_active
enqueue_message-unboxed id role text r e = ground (arith, e)
