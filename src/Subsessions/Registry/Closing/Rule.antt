-- ===== src/Subsessions/Registry/Closing/Rule.antt =====
-- The rule for invariants of `close_and_publish`: what one settled record, a cancelled task and the
-- callbacks keep, the whole cascade keeps.
use robotsix_chat.Base.{
  ℕ, zero, suc, String, true, false, some, List, [], ◌∷◌, ◌≡◌, refl, inl, inr, sym, subst, arith,
  Bool-cases, Option-cases,
}
use robotsix_chat.Base.Dict.{get, put, keys}
use robotsix_chat.Subsessions.Model.{SubsessionInfo, is_active, active_status}
use robotsix_chat.Subsessions.Registry.State.{Registry}
use robotsix_chat.Subsessions.Registry.Closing.{
  Callback, Closing, closed_info, settle, run_callbacks, is_dependent, pause_each, blocking_ticket,
  pause_dependents, cancel_task, dependency_pause, close_and_publish,
}

-- Every record is registered under its own id.
abbrev pub KeysMatch : Registry → Type 0
KeysMatch r = (id : String) (i : SubsessionInfo) → get id r.subs ≡ some i → i.id ≡ id

-- A close ends in a terminal status.
abbrev pub IsTerminal : Closing → Type 0
IsTerminal c = active_status c.status ≡ false

abbrev pub AllKeep : (Registry → Type 0) → List Callback → Type 0
AllKeep P [] = Unit {0}
AllKeep P (f ∷ fs) = ((i : SubsessionInfo) (r : Registry) → P r → P (f i r)) × AllKeep P fs

-- A record that a close may be called on.
abbrev pub Closable : SubsessionInfo → Registry → Type 0
Closable i r = (get i.id r.subs ≡ some i) × (is_active i ≡ true)

pub subs-cancel_task : (id : String) (r : Registry) → (cancel_task id r).subs ≡ r.subs
unfolding cancel_task
subs-cancel_task id r = ground arith

pub id-closed_info : (now : ℕ) (c : Closing) (i : SubsessionInfo) → (closed_info now c i).id ≡ i.id
unfolding closed_info
id-closed_info now c i = ground arith

pub status-closed_info :
    (now : ℕ) (c : Closing) (i : SubsessionInfo) → (closed_info now c i).status ≡ c.status
unfolding closed_info
status-closed_info now c i = ground arith

pub subs-settle :
    (c : Closing) (i : SubsessionInfo) (r : Registry)
    → (settle c i r).subs ≡ put i.id (closed_info r.now c i) r.subs
unfolding settle
subs-settle c i r = refl

pub is_dependent-active :
    (closed : SubsessionInfo) (ticket : String) (i : SubsessionInfo)
    → is_dependent closed ticket i ≡ true
    → is_active i ≡ true
is_dependent-active closed ticket i h = ground arith

module _ (P : Registry → Type 0) (keys_match : (r : Registry) → P r → KeysMatch r) where
  pub run_callbacks_keeps :
      (fs : List Callback) (i : SubsessionInfo) (r : Registry)
      → AllKeep P fs
      → P r
      → P (run_callbacks fs i r)
  unfolding run_callbacks
  run_callbacks_keeps [] i r k p = p
  run_callbacks_keeps (f ∷ fs) i r k p = run_callbacks_keeps fs i (f i r) k.1 (k.0 i r p)

  module _ (close : SubsessionInfo → Registry → Registry)
      (keep : (i : SubsessionInfo) (r : Registry) → Closable i r → P r → P (close i r))
      (closed : SubsessionInfo) (ticket : String) where
    pub pause_each_keeps :
        (ids : List String) (r : Registry) → P r → P (pause_each close closed ticket ids r)
    unfolding pause_each
    pause_each_keeps [] r p = p
    pause_each_keeps (id ∷ ids) r p = elim (Option-cases (get id r.subs)) [
      | inl e ↦ rw (e, pause_each) (pause_each_keeps ids r p)
      | inr (i, e) ↦ elim (Bool-cases (is_dependent closed ticket i)) [
        | inl d ↦
            let m : i.id ≡ id = keys_match r p id i e in
            rw (e, pause_each)
              (rw d (
                pause_each_keeps ids (close i r) (
                  keep i r
                    (
                      subst (λ k. get k r.subs ≡ some i) (sym m) e,
                      is_dependent-active closed ticket i d,
                    )
                    p)))
        | inr d ↦ rw (e, pause_each) (rw d (pause_each_keeps ids r p))
      ]
    ]

  pub pause_dependents_keeps :
      (close : String → SubsessionInfo → Registry → Registry)
      → ((ticket : String) (i : SubsessionInfo) (r : Registry)
          → Closable i r
          → P r
          → P (close ticket i r))
      → (closed : SubsessionInfo) (r : Registry) → P r
      → P (pause_dependents close closed r)
  unfolding pause_dependents
  pause_dependents_keeps close keep closed r p = elim (Option-cases (blocking_ticket closed)) [
    | inl e ↦ rw (e, pause_dependents) p
    | inr (ticket, e) ↦
        rw (e, pause_dependents)
          (pause_each_keeps (close ticket) (keep ticket) closed ticket (keys r.subs) r p)
  ]

module _ (P : Registry → Type 0) (keys_match : (r : Registry) → P r → KeysMatch r)
    (callbacks : List Callback) (callbacks_keep : AllKeep P callbacks)
    (settle_keeps : (c : Closing) (i : SubsessionInfo) (r : Registry)
      → IsTerminal c
      → Closable i r
      → P r
      → P (settle c i r))
    (cancel_keeps : (id : String) (r : Registry) → P r → P (cancel_task id r)) where
  -- It is enough that settling the first record establishes the invariant.
  pub close_and_publish_settled :
      (fuel : ℕ) (c : Closing) (i : SubsessionInfo) (r : Registry)
      → P (settle c i r)
      → P (close_and_publish callbacks fuel c i r)
  unfolding close_and_publish active_status
  close_and_publish_settled zero c i r p =
      run_callbacks_keeps P keys_match callbacks (closed_info r.now c i) (settle c i r)
        callbacks_keep p
  close_and_publish_settled (suc fuel) c i r p =
      pause_dependents_keeps P keys_match _
        (λ ticket j s l q.
          close_and_publish_settled fuel (dependency_pause ticket (closed_info r.now c i)) j
            (cancel_task j.id s)
            (settle_keeps (dependency_pause ticket (closed_info r.now c i)) j (cancel_task j.id s)
              refl (rw subs-cancel_task l) (cancel_keeps j.id s q)))
        (closed_info r.now c i) _
        (run_callbacks_keeps P keys_match callbacks (closed_info r.now c i) (settle c i r)
          callbacks_keep p)

  pub close_and_publish_keeps :
      (fuel : ℕ) (c : Closing) (i : SubsessionInfo) (r : Registry)
      → IsTerminal c
      → Closable i r
      → P r
      → P (close_and_publish callbacks fuel c i r)
  close_and_publish_keeps fuel c i r t l p =
      close_and_publish_settled fuel c i r (settle_keeps c i r t l p)
