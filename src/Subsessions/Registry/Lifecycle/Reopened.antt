-- ===== src/Subsessions/Registry/Lifecycle/Reopened.antt =====
-- What a monitor has lost when it is closed and `reopen` revives it.
use robotsix_chat.Base.{
  String, true, false, Option, none, some, List, ◌≡◌, refl, ap, ◌∙◌, arith, str_eq, eq_iff, eq_refl,
  elem, Bool-cases, Option-cases, inl, inr,
}
use robotsix_chat.Base.Dict.{Dict, get}
use robotsix_chat.Base.Dict.Laws.{get-put, get-put_at, get-remove}
use robotsix_chat.Subsessions.Model.{
  SubsessionInfo, SubsessionStatus, Summary, is_active, active_status, is_monitor,
}
use robotsix_chat.Subsessions.Registry.State.{Registry, publish, persist}
use robotsix_chat.Subsessions.Registry.Messages.{enqueue_message}
use robotsix_chat.Subsessions.Registry.Messages.Open.{enqueue_message-unboxed}
use robotsix_chat.Subsessions.Registry.Closing.{
  Callback, Closing, closed_info, drop_key, settle, cancel_task, close_found, depth_bound,
  mark_closed,
}
use robotsix_chat.Subsessions.Registry.Closing.Rule.{
  KeysMatch, IsTerminal, AllKeep, Closable, status-closed_info, close_and_publish_settled,
}
use robotsix_chat.Subsessions.Registry.Closing.Once.{KeysMatch-settle}
use robotsix_chat.Subsessions.Registry.Lifecycle.{reopenable_reasons, is_reopenable, reopen}

-- The closed record is there, without an inbox, and its deduplication key is free.
pub record Shelved (key id : String) (closed : SubsessionInfo) (r : Registry) : Type 0 where
  pub own_ids : KeysMatch r
  pub there : get id r.subs ≡ some closed
  pub ended : is_active closed ≡ false
  pub no_inbox : get id r.inboxes ≡ none
  pub key_free : get key r.active_dedup_keys ≡ none

get-drop_key :
    (key : String) (o : Option String) (d : Dict String)
    → get key d ≡ none
    → get key (drop_key o d) ≡ none
get-drop_key key none d e = e
get-drop_key key (some k) d e = ground (arith, e, get-remove key k d)

module _ (key id : String) (closed : SubsessionInfo) where
  -- Closing any other record leaves it so.
  Shelved-settle :
      (c : Closing) (j : SubsessionInfo) (r : Registry)
      → Closable j r
      → Shelved key id closed r
      → Shelved key id closed (settle c j r)
  unfolding settle publish persist
  Shelved-settle c j r l h = record {
    own_ids = KeysMatch-settle c j r h.own_ids;
    there = ground (arith, h.there, get-put id j.id (closed_info r.now c j) r.subs, other);
    ended = h.ended;
    no_inbox = ground (arith, h.no_inbox, get-remove id j.id r.inboxes);
    key_free = get-drop_key key j.dedup_key r.active_dedup_keys h.key_free;
  }
    where
      other : str_eq j.id id ≡ false
      other = elim (Bool-cases (str_eq j.id id)) [
        | inr q ↦ q
        | inl q ↦
            let p : j.id ≡ id = ground (arith, q, eq_iff j.id id) in
            let same : j ≡ closed = cc (l.0, h.there, p) in
            absurd (ground (arith, l.1, h.ended, ap is_active same))
      ]

  Shelved-cancel_task :
      (other : String) (r : Registry)
      → Shelved key id closed r
      → Shelved key id closed (cancel_task other r)
  unfolding cancel_task
  Shelved-cancel_task other r h = elim (Option-cases (get other r.tasks)) [
    | inl e ↦ rw (e, cancel_task) h
    | inr (t, e) ↦
        rw (e, cancel_task)
          (record {
            own_ids = h.own_ids;
            there = h.there;
            ended = h.ended;
            no_inbox = h.no_inbox;
            key_free = h.key_free;
          })
  ]

  -- The record that `reopen` revives is as it left it.
  Shelved-reopen :
      (r : Registry)
      → is_reopenable closed ≡ true
      → Shelved key id closed r
      → ((j : SubsessionInfo) × (get id (reopen id r).0.subs ≡ some j) × (is_active j ≡ true))
        × (get id (reopen id r).0.inboxes ≡ none)
        × (get key (reopen id r).0.active_dedup_keys ≡ none)
  unfolding reopen publish persist active_status
  Shelved-reopen r q h =
      let own = h.own_ids id closed h.there in
      rw (h.there, reopen)
        (rw q ((_, get-put_at id closed.id _ r.subs own, refl), h.no_inbox, h.key_free))

Shelved-settle_self :
    (key id : String) (c : Closing) (i : SubsessionInfo) (r : Registry)
    → KeysMatch r
    → get id r.subs ≡ some i
    → i.dedup_key ≡ some key
    → IsTerminal c
    → Shelved key id (closed_info r.now c i) (settle c i r)
unfolding settle publish persist
Shelved-settle_self key id c i r k e d t = record {
  own_ids = KeysMatch-settle c i r k;
  there = ground (arith, get-put id i.id (closed_info r.now c i) r.subs, k id i e, eq_iff i.id id);
  ended = ap active_status (status-closed_info r.now c i) ∙ t;
  no_inbox = ground (arith, get-remove id i.id r.inboxes, k id i e, eq_iff i.id id);
  key_free = rw d (get-remove key key r.active_dedup_keys ∙ rw (eq_refl key) refl);
}

-- What `mark_closed` closes a record with.
abbrev pub normal_close : Summary → String → String → Closing
normal_close summary reason closed_by = record {
  status = SubsessionStatus.closed;
  summary = summary;
  reason = reason;
  closed_by = closed_by;
  error = none;
}

Shelved-mark_closed :
    (callbacks : List Callback) (key id : String) (summary : Summary) (reason by : String)
    (r : Registry) (i : SubsessionInfo)
    → KeysMatch r
    → get id r.subs ≡ some i
    → is_active i ≡ true
    → i.dedup_key ≡ some key
    → AllKeep (Shelved key id (closed_info r.now (normal_close summary reason by) i)) callbacks
    → Shelved key id
        (closed_info r.now (normal_close summary reason by) i)
        (mark_closed callbacks id summary reason by r).0
unfolding mark_closed close_found active_status
Shelved-mark_closed callbacks key id summary reason by r i k e a d keep =
    let c = normal_close summary reason by in
    let closed = closed_info r.now c i in
    rw (e, close_found)
      (rw a (
        close_and_publish_settled (Shelved key id closed) (λ s h. h.own_ids) callbacks keep
          (λ c' j s t l h. Shelved-settle key id closed c' j s l h)
          (λ j s h. Shelved-cancel_task key id closed j s h) (depth_bound r) c i r
          (Shelved-settle_self key id c i r k e d refl)))

-- A monitor with a deduplication key that is closed for a reason that `reopen` accepts, and reopened,
-- is active again, but refuses every message, since it has no inbox, and its key is free for another
-- one. The records stand under their ids, and the callbacks leave the closed record, its missing inbox
-- and its key alone.
pub reopened_deaf :
    (callbacks : List Callback) (key id : String) (summary : Summary) (reason by : String)
    (r : Registry) (i : SubsessionInfo)
    → KeysMatch r
    → get id r.subs ≡ some i
    → is_active i ≡ true
    → is_monitor i.kind ≡ true
    → elem reason reopenable_reasons ≡ true
    → i.dedup_key ≡ some key
    → AllKeep (Shelved key id (closed_info r.now (normal_close summary reason by) i)) callbacks
    → let r' = (reopen id (mark_closed callbacks id summary reason by r).0).0 in
      ((j : SubsessionInfo) × (get id r'.subs ≡ some j) × (is_active j ≡ true))
      × ((role text : String) → enqueue_message id role text r' ≡ (r', false))
      × (get key r'.active_dedup_keys ≡ none)
unfolding is_reopenable closed_info
reopened_deaf callbacks key id summary reason by r i k e a m q d keep =
    let c = normal_close summary reason by in
    let s = (mark_closed callbacks id summary reason by r).0 in
    let h = Shelved-mark_closed callbacks key id summary reason by r i k e a d keep in
    let (alive, no_inbox, free) =
      Shelved-reopen key id (closed_info r.now c i) s (ground (arith, m, q)) h in
    (alive, (λ role text. enqueue_message-unboxed id role text (reopen id s).0 no_inbox), free)
