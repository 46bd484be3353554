-- ===== src/Subsessions/Spawn/Steps.antt =====
-- The steps of a spawn one by one: what each keeps, whatever is asked of a state and of an early return
-- (src/robotsix_chat/subsessions/worker.py).
use robotsix_chat.Base.{
  String, Bool, true, false, not, Option, none, some, ltb, Bool-cases, Option-cases, inl, inr,
  if◌then◌else◌,
}
use robotsix_chat.Subsessions.Model.{is_monitor}
use robotsix_chat.Subsessions.Registry.State.{Registry}
use robotsix_chat.Subsessions.Registry.Create.{known, find_active_periodic_by_ticket_id}
use robotsix_chat.Subsessions.Registry.Tickets.{is_dedup_key_active}
use robotsix_chat.Subsessions.Spawn.{
  SpawnRequest, SpawnEnv, Outside, Refusal, Returned, existing, refused, Step, halt, go, ◌>>=◌,
  refuse_if, known_already, or_go, cross_match, key_taken, bad_threshold, admit, close_for_room,
  session_full, pool_full, stale_of, make_room, is_level, capped_level, parent_of, monitor_child,
  chat_child, short_interval, bad_anchor,
}
use robotsix_chat.Subsessions.Spawn.Start.{checks}

-- The steps of `prepare` after each other, from the last one.
abbrev pub from_room : Outside → SpawnRequest → SpawnEnv → Step SpawnEnv
from_room w q e = make_room w q e >>= λ e'. checks w q e'

abbrev pub from_session : Outside → SpawnRequest → SpawnEnv → Step SpawnEnv
from_session w q e = refuse_if (session_full w.settings q e) Refusal.capacity e >>= from_room w q

abbrev pub from_admission : Outside → SpawnRequest → SpawnEnv → Step SpawnEnv
from_admission w q e = admit w q e >>= from_session w q

abbrev pub from_threshold : Outside → SpawnRequest → SpawnEnv → Step SpawnEnv
from_threshold w q e =
    refuse_if (bad_threshold q.auto_stop_no_change_runs) Refusal.no_change_threshold e
    >>= from_admission w q

abbrev pub from_key : Outside → SpawnRequest → SpawnEnv → Step SpawnEnv
from_key w q e = key_taken q e >>= from_threshold w q

module _ (P : SpawnEnv → Type 0) (Q : SpawnEnv → Returned → Type 0) where
  -- A step that goes on in a state with `P`, or returns with `Q`.
  abbrev pub Holds : Step SpawnEnv → Type 0
  Holds (halt e s) = Q e s
  Holds (go e) = P e

  -- A state with `P` may be returned with an exception or an id.
  pub record Rules : Type 0 where
    pub refuses : (e : SpawnEnv) (why : Refusal) → P e → Q e (refused why)
    pub finds : (e : SpawnEnv) (id : String) → P e → Q e (existing id)

  pub Holds->>= :
      (m : Step SpawnEnv) (f : SpawnEnv → Step SpawnEnv)
      → Holds m
      → ((e : SpawnEnv) → P e → Holds (f e))
      → Holds (m >>= f)
  Holds->>= (halt e s) f h k = h
  Holds->>= (go e) f h k = k e h

  module _ (rules : Rules) where
    pub Holds-refuse_if :
        (b : Bool) (why : Refusal) (e : SpawnEnv) → P e → Holds (refuse_if b why e)
    Holds-refuse_if true why e h = rules.refuses e why h
    Holds-refuse_if false why e h = h

    pub Holds-known_already : (q : SpawnRequest) (e : SpawnEnv) → P e → Holds (known_already q e)
    Holds-known_already q e h = elim (Option-cases (known q.args.sub_id e.registry)) [
      | inl k ↦ rw (Holds, k) h
      | inr (i, k) ↦ rw (Holds, k) (rules.finds e _ h)
    ]

    Holds-or_go : (o : Option String) (e : SpawnEnv) → P e → Holds (or_go o e)
    Holds-or_go none e h = h
    Holds-or_go (some id) e h = rules.finds e id h

    Holds-cross_match :
        (monitor : Bool) (key : String) (r : Registry) (o : Option String) (e : SpawnEnv)
        → P (record e { registry = r })
        → Holds (cross_match monitor key (r, o) e)
    Holds-cross_match monitor key r (some id) e h = rules.finds (record e { registry = r }) id h
    Holds-cross_match monitor key r none e h =
        Holds-or_go (if monitor then find_active_periodic_by_ticket_id key r else none)
          (record e { registry = r }) h

    -- The lookup of the key may forget a record that is gone.
    pub Holds-key_taken :
        (q : SpawnRequest) (e : SpawnEnv)
        → ((key : String) → P (record e { registry = (is_dedup_key_active key e.registry).0 }))
        → P e
        → Holds (key_taken q e)
    Holds-key_taken q e forget h = elim (Option-cases q.args.dedup_key) [
      | inl k ↦ rw (Holds, k) h
      | inr (key, k) ↦
          let p = is_dedup_key_active key e.registry in
          rw (Holds, k) (Holds-cross_match (is_monitor q.args.kind) key p.0 p.1 e (forget key))
    ]

    Holds-all :
        (b1 b2 b3 b4 b5 b6 b7 : Bool) (e : SpawnEnv)
        → P e
        → Holds (do
          e1 ← refuse_if b1 Refusal.depth e
          e2 ← refuse_if b2 Refusal.level e1
          e3 ← refuse_if b3 Refusal.level e2
          e4 ← refuse_if b4 Refusal.periodic_spawn e3
          e5 ← refuse_if b5 Refusal.user_chat_spawn e4
          e6 ← refuse_if b6 Refusal.interval e5
          refuse_if b7 Refusal.anchor e6)
    Holds-all true _ _ _ _ _ _ e h = rules.refuses e Refusal.depth h
    Holds-all false true _ _ _ _ _ e h = rules.refuses e Refusal.level h
    Holds-all false false true _ _ _ _ e h = rules.refuses e Refusal.level h
    Holds-all false false false true _ _ _ e h = rules.refuses e Refusal.periodic_spawn h
    Holds-all false false false false true _ _ e h = rules.refuses e Refusal.user_chat_spawn h
    Holds-all false false false false false true _ e h = rules.refuses e Refusal.interval h
    Holds-all false false false false false false b e h = Holds-refuse_if b Refusal.anchor e h

    Holds-checks : (w : Outside) (q : SpawnRequest) (e : SpawnEnv) → P e → Holds (checks w q e)
    Holds-checks w q e h =
        Holds-all (ltb w.settings.max_depth q.args.depth) (not (is_level w q.args.model_level))
          (not (is_level w (capped_level w q))) (monitor_child q.args.kind (parent_of q e))
          (chat_child q.args.kind (parent_of q e)) (short_interval w.settings q) (bad_anchor w q) e
          h

    module _ (w : Outside)
        (closes : (id reason : String) (e : SpawnEnv)
          → P e
          → P (close_for_room w id reason e)) where
      Holds-make_room : (q : SpawnRequest) (e : SpawnEnv) → P e → Holds (make_room w q e)
      Holds-make_room q e h = elim (Bool-cases (pool_full w.settings e)) [
        | inr f ↦ rw (make_room, f) h
        | inl f ↦ elim (Option-cases (stale_of w.settings q e)) [
          | inl s ↦ rw (make_room, f, s) (rules.refuses e Refusal.capacity h)
          | inr (i, s) ↦
              let e' = close_for_room w i.id "stale_reclaimed" e in
              rw (make_room, f, s)
                (Holds-refuse_if (pool_full w.settings e') Refusal.capacity e'
                  (closes i.id "stale_reclaimed" e h))
        ]
      ]

      -- The steps after the admission.
      pub Holds-from_session : (q : SpawnRequest) (e : SpawnEnv) → P e → Holds (from_session w q e)
      Holds-from_session q e h =
          Holds->>= (refuse_if (session_full w.settings q e) Refusal.capacity e) (from_room w q)
            (Holds-refuse_if (session_full w.settings q e) Refusal.capacity e h)
            λ e1 h1.
              Holds->>= (make_room w q e1) (checks w q) (Holds-make_room q e1 h1)
                λ e2 h2. Holds-checks w q e2 h2
