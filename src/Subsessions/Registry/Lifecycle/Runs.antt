-- ===== src/Subsessions/Registry/Lifecycle/Runs.antt =====
-- The operations on a registered record, in any order: what they leave of it.
use robotsix_chat.Base.{
  ℕ, String, true, not, ◌&&◌, ◌||◌, Option, none, some, List, [], ◌∷◌, ◌++◌, ◌≡◌, refl, sym, arith,
  Bool-cases, inl, inr, Option-cases, any_if, ◌==◌, subst,
}
use robotsix_chat.Base.Dict.{Dict, get}
use robotsix_chat.Subsessions.Model.{
  SubsessionInfo, SubsessionStatus, Summary, Checkpoint, is_active, active_status, is_paused,
  is_periodic,
}
use robotsix_chat.Subsessions.Registry.State.{Registry, publish, persist}
use robotsix_chat.Subsessions.Registry.Create.{set_status}
use robotsix_chat.Subsessions.Registry.Messages.{
  append_transcript, append_turn_history, enqueue_message, drain_inbox,
}
use robotsix_chat.Subsessions.Registry.Messages.Open.{subs-drain_inbox, subs-enqueue_message}
use robotsix_chat.Subsessions.Registry.Closing.{Callback, close_found, depth_bound}
use robotsix_chat.Subsessions.Registry.Closing.Rule.{
  AllKeep, subs-settle, subs-cancel_task, close_and_publish_keeps,
}
use robotsix_chat.Subsessions.Registry.Closing.Once.{
  EndCall, end_with, end_with-IsGuardedClose, IsGuardedClose,
}
use robotsix_chat.Subsessions.Registry.Lifecycle.{
  mark_paused, resume, claim_run, update_periodic_config, update_checkpoint,
}
use robotsix_chat.Subsessions.Registry.Lifecycle.Evolution.{
  Evolved, Evolved-put, Change-closed_info, has_run, under_own_id,
}

-- The operations that change a registered record, all but `reopen` and those that change its owner.
pub data RecordOp : Type 0 where
  sets_status : SubsessionStatus → Option ℕ → Option ℕ → Option String → RecordOp
  pauses : Summary → String → RecordOp
  resumes : RecordOp
  claims : ℕ → RecordOp
  configures : Option String → Option ℕ → Option ℕ → RecordOp
  checkpoints : Option Checkpoint → RecordOp
  adds_transcript : String → String → RecordOp
  adds_turn : String → String → RecordOp
  receives : String → String → RecordOp
  drains : RecordOp
  ends : EndCall → RecordOp

unfoldable pub apply : List Callback → String → RecordOp → Registry → Registry
apply callbacks id (sets_status status runs next last) r = set_status id status runs next last r
apply callbacks id (pauses summary reason) r = (mark_paused id summary reason r).0
apply callbacks id resumes r = (resume id r).0
apply callbacks id (claims n) r = (claim_run id n r).0
apply callbacks id (configures prompt interval max) r =
    (update_periodic_config id prompt interval max r).0
apply callbacks id (checkpoints cp) r = (update_checkpoint id cp r).0
apply callbacks id (adds_transcript role text) r = append_transcript id role text r
apply callbacks id (adds_turn input reply) r = append_turn_history id input reply r
apply callbacks id (receives role text) r = (enqueue_message id role text r).0
apply callbacks id drains r = (drain_inbox id r).0
apply callbacks id (ends call) r = (end_with callbacks call id r).0

unfoldable pub run : List Callback → List (String × RecordOp) → Registry → Registry
run callbacks [] r = r
run callbacks ((id, op) ∷ ops) r = run callbacks ops (apply callbacks id op r)

is_paused-active : (s : SubsessionStatus) → is_paused s ≡ true → active_status s ≡ true
unfolding active_status
is_paused-active s e = ground (arith, e)

has_run-append :
    (m : ℕ) (runs : List ℕ) (n : ℕ)
    → any_if (λ k. k == m) runs ≡ true
    → any_if (λ k. k == m) (runs ++ n ∷ []) ≡ true
has_run-append m [] n d = absurd (ground (arith, d))
has_run-append m (k ∷ runs) n d = ground (arith, d, has_run-append m runs n)

module _ (before : Dict SubsessionInfo) where
  -- The condition on an operation's result.
  abbrev pub Since : Registry → Type 0
  Since r = Evolved before r.subs

  set_status-Since :
      (id : String) (status : SubsessionStatus) (runs next : Option ℕ) (last : Option String)
      (r : Registry)
      → Since r
      → Since (set_status id status runs next last r)
  unfolding set_status publish persist
  set_status-Since id status runs next last r h = elim (Option-cases (get id r.subs)) [
    | inl e ↦ rw (e, set_status) h
    | inr (i, e) ↦ elim (Bool-cases (not (is_active i) && active_status status)) [
      | inl a ↦ rw (e, set_status) (rw a h)
      | inr a ↦
          rw (e, set_status)
            (rw a (
              Evolved-put before r.subs id i _ e
                (record { same = refl; ended = λ d. ground (arith, a, d); completed = λ n d. d })
                h))
    ]
  ]

  mark_paused-Since :
      (id : String) (summary : Summary) (reason : String) (r : Registry)
      → Since r
      → Since (mark_paused id summary reason r).0
  unfolding mark_paused publish persist
  mark_paused-Since id summary reason r h = elim (Option-cases (get id r.subs)) [
    | inl e ↦ rw (e, mark_paused) h
    | inr (i, e) ↦ elim (Bool-cases (is_active i)) [
      | inr a ↦ rw (e, mark_paused) (rw a h)
      | inl a ↦
          rw (e, mark_paused)
            (rw a (
              Evolved-put before r.subs i.id i _ (under_own_id id i r.subs e (h.own_ids id i e))
                (record { same = refl; ended = λ d. ground (arith, a, d); completed = λ n d. d })
                h))
    ]
  ]

  resume-Since : (id : String) (r : Registry) → Since r → Since (resume id r).0
  unfolding resume publish persist
  resume-Since id r h = elim (Option-cases (get id r.subs)) [
    | inl e ↦ rw (e, resume) h
    | inr (i, e) ↦ elim (Bool-cases (is_paused i.status)) [
      | inr a ↦ rw (e, resume) (rw a h)
      | inl a ↦
          rw (e, resume)
            (rw a (
              Evolved-put before r.subs i.id i _ (under_own_id id i r.subs e (h.own_ids id i e))
                (record {
                  same = refl;
                  ended = λ d. absurd (ground (arith, is_paused-active i.status a, d));
                  completed = λ n d. d;
                })
                h))
    ]
  ]

  pub claim_run-Since : (id : String) (n : ℕ) (r : Registry) → Since r → Since (claim_run id n r).0
  unfolding claim_run persist
  claim_run-Since id n r h = elim (Option-cases (get id r.subs)) [
    | inl e ↦ rw (e, claim_run) h
    | inr (i, e) ↦ elim (Bool-cases (not (is_active i) || has_run n i)) [
      | inl a ↦ rw (e, claim_run) (rw a h)
      | inr a ↦
          rw (e, claim_run)
            (rw a (
              Evolved-put before r.subs id i _ e
                (record {
                  same = refl;
                  ended = λ d. d;
                  completed = λ m d. has_run-append m i.completed_runs n d;
                })
                h))
    ]
  ]

  update_periodic_config-Since :
      (id : String) (prompt : Option String) (interval max : Option ℕ) (r : Registry)
      → Since r
      → Since (update_periodic_config id prompt interval max r).0
  unfolding update_periodic_config persist
  update_periodic_config-Since id prompt interval max r h = elim (Option-cases (get id r.subs)) [
    | inl e ↦ rw (e, update_periodic_config) h
    | inr (i, e) ↦ elim (Bool-cases (is_active i && is_periodic i.kind)) [
      | inr a ↦ rw (e, update_periodic_config) (rw a h)
      | inl a ↦
          rw (e, update_periodic_config)
            (rw a (
              Evolved-put before r.subs id i _ e
                (record { same = refl; ended = λ d. d; completed = λ n d. d }) h))
    ]
  ]

  update_checkpoint-Since :
      (id : String) (cp : Option Checkpoint) (r : Registry)
      → Since r
      → Since (update_checkpoint id cp r).0
  unfolding update_checkpoint persist
  update_checkpoint-Since id cp r h = elim (Option-cases (get id r.subs)) [
    | inl e ↦ rw (e, update_checkpoint) h
    | inr (i, e) ↦
        rw (e, update_checkpoint)
          (Evolved-put before r.subs id i _ e
            (record { same = refl; ended = λ d. d; completed = λ n d. d }) h)
  ]

  append_transcript-Since :
      (id role text : String) (r : Registry) → Since r → Since (append_transcript id role text r)
  unfolding append_transcript publish persist
  append_transcript-Since id role text r h = elim (Option-cases (get id r.subs)) [
    | inl e ↦ rw (e, append_transcript) h
    | inr (i, e) ↦
        rw (e, append_transcript)
          (Evolved-put before r.subs id i _ e
            (record { same = refl; ended = λ d. d; completed = λ n d. d }) h)
  ]

  append_turn_history-Since :
      (id input reply : String) (r : Registry)
      → Since r
      → Since (append_turn_history id input reply r)
  unfolding append_turn_history persist
  append_turn_history-Since id input reply r h = elim (Option-cases (get id r.subs)) [
    | inl e ↦ rw (e, append_turn_history) h
    | inr (i, e) ↦
        rw (e, append_turn_history)
          (Evolved-put before r.subs id i _ e
            (record { same = refl; ended = λ d. d; completed = λ n d. d }) h)
  ]

  enqueue_message-Since :
      (id role text : String) (r : Registry) → Since r → Since (enqueue_message id role text r).0
  enqueue_message-Since id role text r h = elim (subs-enqueue_message id role text r) [
    | inl e ↦ rw e h
    | inr e ↦ rw e (append_transcript-Since id role text r h)
  ]

  module _ (callbacks : List Callback) (callbacks_keep : AllKeep Since callbacks) where
    end-Since :
        (call : EndCall) (id : String) (r : Registry)
        → Since r
        → Since (end_with callbacks call id r).0
    unfolding close_found
    end-Since call id r h =
        subst (λ (o : Registry × Option SubsessionInfo). Since o.0) (sym g.out_eq)
          (go (get id r.subs) refl)
      where
        g : IsGuardedClose callbacks id r (end_with callbacks call id r)
        g = end_with-IsGuardedClose callbacks call id r

        go :
            (o : Option SubsessionInfo)
            → get id r.subs ≡ o
            → Since (close_found callbacks g.closing g.prepare o r).0
        go none e = h
        go (some i) e = elim (Bool-cases (is_active i)) [
          | inr a ↦ rw a h
          | inl a ↦ rw a (
              close_and_publish_keeps Since (λ s q. q.own_ids) callbacks callbacks_keep
                (λ c j s t l q.
                  rw subs-settle
                    (Evolved-put before s.subs j.id j _ l.0 (Change-closed_info s.now c j t) q))
                (λ j s q. rw subs-cancel_task q) (depth_bound r) (g.closing i) i (g.prepare r)
                (g.terminal i)
                (rw g.prepare_subs (under_own_id id i r.subs e (h.own_ids id i e)), a)
                (rw g.prepare_subs h))
        ]

    apply-Since :
        (id : String) (op : RecordOp) (r : Registry) → Since r → Since (apply callbacks id op r)
    unfolding apply
    apply-Since id (sets_status status runs next last) r h =
        set_status-Since id status runs next last r h
    apply-Since id (pauses summary reason) r h = mark_paused-Since id summary reason r h
    apply-Since id resumes r h = resume-Since id r h
    apply-Since id (claims n) r h = claim_run-Since id n r h
    apply-Since id (configures prompt interval max) r h =
        update_periodic_config-Since id prompt interval max r h
    apply-Since id (checkpoints cp) r h = update_checkpoint-Since id cp r h
    apply-Since id (adds_transcript role text) r h = append_transcript-Since id role text r h
    apply-Since id (adds_turn input reply) r h = append_turn_history-Since id input reply r h
    apply-Since id (receives role text) r h = enqueue_message-Since id role text r h
    apply-Since id drains r h = rw subs-drain_inbox h
    apply-Since id (ends call) r h = end-Since call id r h

    pub run-Since :
        (ops : List (String × RecordOp)) (r : Registry) → Since r → Since (run callbacks ops r)
    unfolding run
    run-Since [] r h = h
    run-Since ((id, op) ∷ ops) r h = run-Since ops (apply callbacks id op r) (apply-Since id op r h)
