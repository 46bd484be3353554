-- ===== src/Subsessions/Registry/Closing/Depth.antt =====
-- The cascade of `_close_and_publish` ends: every nested close makes an active record terminal, so a
-- depth above the number of active records is never reached.
use robotsix_chat.Base.{
  ℕ, zero, suc, ◌+◌, ◌≤◌, String, true, some, List, [], ◌∷◌, ◌≡◌, refl, sym, subst, ap, ◌∙◌, arith,
  bit, inl, inr, Bool-cases, Option-cases,
}
use Prim.Native.Nat.add
use robotsix_chat.Base.Dict.{get, keys, count_values}
use robotsix_chat.Base.Dict.Laws.{count_values-put, count_values-pos}
use robotsix_chat.Subsessions.Model.{SubsessionInfo, is_active, active_status}
use robotsix_chat.Subsessions.Registry.State.{Registry}
use robotsix_chat.Subsessions.Registry.Closing.{
  Callback, Closing, closed_info, settle, run_callbacks, is_dependent, pause_each, pause_dependents,
  blocking_ticket, cancel_task, dependency_pause, close_and_publish, depth_bound,
}
use robotsix_chat.Subsessions.Registry.Closing.Rule.{
  KeysMatch, IsTerminal, AllKeep, Closable, subs-cancel_task, status-closed_info,
  is_dependent-active, run_callbacks_keeps, close_and_publish_keeps,
}
use robotsix_chat.Subsessions.Registry.Closing.Once.{KeysMatch-settle}
use robotsix_chat.Subsessions.Registry.Closing.Dependents.{AllQuiet}

abbrev active_count : Registry → ℕ
active_count r = count_values is_active r.subs

abbrev FewActive : ℕ → Registry → Type 0
FewActive n r = KeysMatch r × (active_count r ≤ n)

AllQuiet-FewActive : (fs : List Callback) (n : ℕ) → AllQuiet fs → AllKeep (FewActive n) fs
AllQuiet-FewActive [] n q = tt
AllQuiet-FewActive (f ∷ fs) n q = (
  λ i r p. (q.0.keys_match i r p.0, omega (arith, q.0.count_le i r)),
  AllQuiet-FewActive fs n q.1,
)

-- Settling an active record makes one active record fewer.
active_count-settle :
    (c : Closing) (i : SubsessionInfo) (r : Registry)
    → IsTerminal c
    → Closable i r
    → suc (active_count (settle c i r)) ≡ active_count r
unfolding settle
active_count-settle c i r t l =
    let e = count_values-put is_active i.id (closed_info r.now c i) i r.subs l.0 in
    let a : bit (is_active i) ≡ 1 = ap bit l.1 in
    let b : bit (is_active (closed_info r.now c i)) ≡ 0 =
      ap bit (ap active_status (status-closed_info r.now c i) ∙ t) in
    omega (arith, e, a, b)

FewActive-settle :
    (n : ℕ) (c : Closing) (i : SubsessionInfo) (r : Registry)
    → IsTerminal c
    → Closable i r
    → FewActive n r
    → FewActive n (settle c i r)
FewActive-settle n c i r t l p =
    (KeysMatch-settle c i r p.0, omega (arith, active_count-settle c i r t l))

module _ (n : ℕ) (f g : SubsessionInfo → Registry → Registry)
    (same : (i : SubsessionInfo) (r : Registry) → Closable i r → FewActive n r → f i r ≡ g i r)
    (keep : (i : SubsessionInfo) (r : Registry)
      → Closable i r
      → FewActive n r
      → FewActive n (f i r))
    (closed : SubsessionInfo) (ticket : String) where
  pause_each_congr :
      (ids : List String) (r : Registry)
      → FewActive n r
      → pause_each f closed ticket ids r ≡ pause_each g closed ticket ids r
  unfolding pause_each
  pause_each_congr [] r p = refl
  pause_each_congr (id ∷ ids) r p = elim (Option-cases (get id r.subs)) [
    | inl e ↦ rw (e, pause_each) (pause_each_congr ids r p)
    | inr (i, e) ↦ elim (Bool-cases (is_dependent closed ticket i)) [
      | inl d ↦
          let l : Closable i r = (
            subst (λ k. get k r.subs ≡ some i) (sym (p.0 id i e)) e,
            is_dependent-active closed ticket i d,
          ) in
          rw (e, pause_each)
            (rw d (
              pause_each_congr ids (f i r) (keep i r l p)
              ∙ ap (pause_each g closed ticket ids) (same i r l p)))
      | inr d ↦ rw (e, pause_each) (rw d (pause_each_congr ids r p))
    ]
  ]

module _ (callbacks : List Callback) (quiet : AllQuiet callbacks) where
  close_and_publish-FewActive :
      (n fuel : ℕ) (c : Closing) (i : SubsessionInfo) (r : Registry)
      → IsTerminal c
      → Closable i r
      → FewActive n r
      → FewActive n (close_and_publish callbacks fuel c i r)
  close_and_publish-FewActive n =
      close_and_publish_keeps (FewActive n) (λ s q. q.0) callbacks
        (AllQuiet-FewActive callbacks n quiet) (FewActive-settle n) (λ j s q. rw subs-cancel_task q)

  one_deeper :
      (n : ℕ) (c : Closing) (i : SubsessionInfo) (r : Registry)
      → IsTerminal c
      → Closable i r
      → FewActive n r
      → close_and_publish callbacks n c i r ≡ close_and_publish callbacks (suc n) c i r
  unfolding close_and_publish pause_dependents active_status
  one_deeper zero c i r t l p =
      absurd (omega (arith, count_values-pos is_active i.id i r.subs l.0 l.1))
  one_deeper (suc n) c i r t l p = elim (Option-cases (blocking_ticket closed)) [
    | inl e ↦ rw (e, pause_dependents)
    | inr (ticket, e) ↦
        rw (e, pause_dependents)
          (pause_each_congr n _ _
            (λ j s m q.
              one_deeper n (dependency_pause ticket closed) j (cancel_task j.id s) refl
                (rw subs-cancel_task m) (rw subs-cancel_task q))
            (λ j s m q.
              close_and_publish-FewActive n n (dependency_pause ticket closed) j
                (cancel_task j.id s) refl (rw subs-cancel_task m) (rw subs-cancel_task q))
            closed ticket (keys settled.subs) settled
            (run_callbacks_keeps (FewActive n) (λ s q. q.0) callbacks closed (settle c i r)
              (AllQuiet-FewActive callbacks n quiet)
              (KeysMatch-settle c i r p.0, omega (arith, active_count-settle c i r t l))))
  ]
    where
      closed : SubsessionInfo
      closed = closed_info r.now c i

      settled : Registry
      settled = run_callbacks callbacks closed (settle c i r)

  -- The depth that the transitions give is enough: with any more, the close of an active record
  -- gives the same registry. The records stand under their own ids and the callbacks start nothing.
  pub depth_enough :
      (extra : ℕ) (c : Closing) (i : SubsessionInfo) (r : Registry)
      → IsTerminal c
      → KeysMatch r
      → get i.id r.subs ≡ some i
      → is_active i ≡ true
      → close_and_publish callbacks (depth_bound r) c i r
        ≡ close_and_publish callbacks (extra + depth_bound r) c i r
  depth_enough zero c i r t k e a = rw (add.zero (depth_bound r))
  depth_enough (suc extra) c i r t k e a = rw (add.suc extra (depth_bound r)) (
      depth_enough extra c i r t k e a
      ∙ one_deeper (extra + depth_bound r) c i r t (e, a) (k, omega arith))
