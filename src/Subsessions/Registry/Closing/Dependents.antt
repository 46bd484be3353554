-- ===== src/Subsessions/Registry/Closing/Dependents.antt =====
-- `_pause_dependents`: when a monitor ends without its ticket being resolved, no monitor that waits
-- for the ticket stays live.
use robotsix_chat.Base.{
  ℕ, suc, String, true, false, Option, none, some, List, [], ◌∷◌, ◌≡◌, refl, sym, subst, arith,
  elem, elem-cons, inl, inr, Bool-cases, Option-cases, ap, ◌≤◌,
}
use robotsix_chat.Base.Dict.{get, keys, count_values}
use robotsix_chat.Base.Dict.Laws.{get-put, elem-keys}
use robotsix_chat.Subsessions.Model.{SubsessionInfo, is_active, active_status}
use robotsix_chat.Subsessions.Registry.State.{Registry}
use robotsix_chat.Subsessions.Registry.Closing.{
  Callback, Closing, closed_info, settle, is_dependent, pause_one, pause_each, pause_dependents,
  blocking_ticket, cancel_task, dependency_pause, close_and_publish,
}
use robotsix_chat.Subsessions.Registry.Closing.Rule.{
  KeysMatch, IsTerminal, AllKeep, Closable, subs-cancel_task, status-closed_info,
  is_dependent-active, run_callbacks_keeps, pause_each_keeps, close_and_publish_settled,
  close_and_publish_keeps,
}
use robotsix_chat.Subsessions.Registry.Closing.Once.{
  Halted, HaltedWithKeys, KeysMatch-settle, Halted-close,
}

-- A callback that starts no subsession and leaves the active records alone.
pub record IsQuiet (f : Callback) : Type 0 where
  pub keys_match : (i : SubsessionInfo) (r : Registry) → KeysMatch r → KeysMatch (f i r)
  pub starts_none :
      (i : SubsessionInfo) (r : Registry) (id : String) (j : SubsessionInfo)
      → get id (f i r).subs ≡ some j
      → is_active j ≡ true
      → get id r.subs ≡ some j
  pub count_le :
      (i : SubsessionInfo) (r : Registry)
      → count_values is_active (f i r).subs ≤ count_values is_active r.subs

abbrev pub AllQuiet : List Callback → Type 0
AllQuiet [] = Unit {0}
AllQuiet (f ∷ fs) = IsQuiet f × AllQuiet fs

-- The record under the id is no live monitor that waits for the closed one's ticket.
abbrev pub Unblocked : SubsessionInfo → String → String → Registry → Type 0
Unblocked closed ticket id r =
    (i : SubsessionInfo) → get id r.subs ≡ some i → is_dependent closed ticket i ≡ false

abbrev UnblockedWithKeys : SubsessionInfo → String → String → Registry → Type 0
UnblockedWithKeys closed ticket id r = KeysMatch r × Unblocked closed ticket id r

is_dependent-inactive :
    (closed : SubsessionInfo) (ticket : String) (i : SubsessionInfo)
    → is_active i ≡ false
    → is_dependent closed ticket i ≡ false
is_dependent-inactive closed ticket i h = ground arith

AllQuiet-KeysMatch : (fs : List Callback) → AllQuiet fs → AllKeep KeysMatch fs
AllQuiet-KeysMatch [] q = tt
AllQuiet-KeysMatch (f ∷ fs) q = (q.0.keys_match, AllQuiet-KeysMatch fs q.1)

AllQuiet-Halted : (fs : List Callback) (id : String) → AllQuiet fs → AllKeep (HaltedWithKeys id) fs
AllQuiet-Halted [] id q = tt
AllQuiet-Halted (f ∷ fs) id q = (
  λ i r p. (
    q.0.keys_match i r p.0,
    λ j e. elim (Bool-cases (is_active j)) [
      | inl a ↦ p.1 j (q.0.starts_none i r id j e a)
      | inr a ↦ a
    ],
  ),
  AllQuiet-Halted fs id q.1,
)

AllQuiet-Unblocked :
    (fs : List Callback) (closed : SubsessionInfo) (ticket id : String)
    → AllQuiet fs
    → AllKeep (UnblockedWithKeys closed ticket id) fs
AllQuiet-Unblocked [] closed ticket id q = tt
AllQuiet-Unblocked (f ∷ fs) closed ticket id q = (
  λ i r p. (
    q.0.keys_match i r p.0,
    λ j e. elim (Bool-cases (is_active j)) [
      | inl a ↦ p.1 j (q.0.starts_none i r id j e a)
      | inr a ↦ is_dependent-inactive closed ticket j a
    ],
  ),
  AllQuiet-Unblocked fs closed ticket id q.1,
)

Unblocked-settle :
    (closed : SubsessionInfo) (ticket id : String) (c : Closing) (i : SubsessionInfo) (r : Registry)
    → IsTerminal c
    → Unblocked closed ticket id r
    → Unblocked closed ticket id (settle c i r)
unfolding settle
Unblocked-settle closed ticket id c i r t u j e = ground (
  arith,
  get-put id i.id (closed_info r.now c i) r.subs,
  is_dependent-inactive closed ticket (closed_info r.now c i),
  ap active_status (status-closed_info r.now c i),
  u j,
)

module _ (close : SubsessionInfo → Registry → Registry) (closed : SubsessionInfo) (ticket : String)
    (close_keys : (i : SubsessionInfo) (r : Registry)
      → Closable i r
      → KeysMatch r
      → KeysMatch (close i r))
    (close_keeps : (id : String) (i : SubsessionInfo) (r : Registry)
      → Closable i r
      → UnblockedWithKeys closed ticket id r
      → UnblockedWithKeys closed ticket id (close i r))
    (close_halts : (i : SubsessionInfo) (r : Registry)
      → KeysMatch r
      → Halted i.id (close i r)) where
  pause_one_unblocks :
      (id : String) (r : Registry) (o : Option SubsessionInfo)
      → get id r.subs ≡ o
      → KeysMatch r
      → UnblockedWithKeys closed ticket id (pause_one close closed ticket o r)
  pause_one_unblocks id r none e k = (k, λ j f. cc (e, f))
  pause_one_unblocks id r (some i) e k = elim (Bool-cases (is_dependent closed ticket i)) [
    | inl d ↦
        let m : i.id ≡ id = k id i e in
        let l : Closable i r =
          (subst (λ x. get x r.subs ≡ some i) (sym m) e, is_dependent-active closed ticket i d) in
        rw d (
          close_keys i r l k,
          λ j f.
              is_dependent-inactive closed ticket j
                (close_halts i r k j (subst (λ x. get x (close i r).subs ≡ some j) (sym m) f)),
        )
    | inr d ↦ rw d (k, λ j f. cc (e, f, d))
  ]

  pause_each_unblocks :
      (id : String) (ids : List String) (r : Registry)
      → elem id ids ≡ true
      → KeysMatch r
      → UnblockedWithKeys closed ticket id (pause_each close closed ticket ids r)
  unfolding pause_each
  pause_each_unblocks id [] r h k = cc
  pause_each_unblocks id (x ∷ xs) r h k = elim (elem-cons id x xs h) [
    | inl e ↦
        pause_each_keeps (UnblockedWithKeys closed ticket id) (λ s p. p.0) close (close_keeps id)
          closed ticket xs (pause_one close closed ticket (get x r.subs) r)
          (subst
            (λ (y : String).
              UnblockedWithKeys closed ticket y (pause_one close closed ticket (get x r.subs) r))
            e (pause_one_unblocks x r (get x r.subs) refl k))
    | inr t ↦
        pause_each_unblocks id xs (pause_one close closed ticket (get x r.subs) r) t
          (pause_one_unblocks x r (get x r.subs) refl k).0
  ]

  pub pause_all_unblocks :
      (id : String) (r : Registry)
      → KeysMatch r
      → Unblocked closed ticket id (pause_each close closed ticket (keys r.subs) r)
  pause_all_unblocks id r k = elim (Option-cases (get id r.subs)) [
    | inl e ↦
        (pause_each_keeps (UnblockedWithKeys closed ticket id) (λ s p. p.0) close (close_keeps id)
          closed ticket (keys r.subs) r (k, λ i f. cc (e, f))).1
    | inr (i, e) ↦ (pause_each_unblocks id (keys r.subs) r (elem-keys id i r.subs e) k).1
  ]

module _ (callbacks : List Callback) (quiet : AllQuiet callbacks) where
  pub close_and_publish-KeysMatch :
      (fuel : ℕ) (c : Closing) (i : SubsessionInfo) (r : Registry)
      → KeysMatch r
      → KeysMatch (close_and_publish callbacks fuel c i r)
  close_and_publish-KeysMatch fuel c i r k =
      close_and_publish_settled KeysMatch (λ s q. q) callbacks (AllQuiet-KeysMatch callbacks quiet)
        (λ c' j s t l q. KeysMatch-settle c' j s q) (λ j s q. rw subs-cancel_task q) fuel c i r
        (KeysMatch-settle c i r k)

  close_dependent_keeps :
      (fuel : ℕ) (closed : SubsessionInfo) (ticket id : String) (c : Closing) (i : SubsessionInfo)
      (r : Registry)
      → IsTerminal c
      → Closable i r
      → UnblockedWithKeys closed ticket id r
      → UnblockedWithKeys closed ticket id (close_and_publish callbacks fuel c i r)
  close_dependent_keeps fuel closed ticket id c i r t l p =
      close_and_publish_keeps (UnblockedWithKeys closed ticket id) (λ s q. q.0) callbacks
        (AllQuiet-Unblocked callbacks closed ticket id quiet)
        (λ c' j s t' l' q.
          (KeysMatch-settle c' j s q.0, Unblocked-settle closed ticket id c' j s t' q.1))
        (λ j s q. rw subs-cancel_task q) fuel c i r t l p

  -- After a close that leaves a record with a ticket and no terminal reason, no other record that
  -- waits for the ticket is active and unpaused. The records stand under their own ids and the
  -- callbacks start nothing.
  pub dependents_paused :
      (fuel : ℕ) (c : Closing) (i : SubsessionInfo) (r : Registry) (ticket id : String)
      → KeysMatch r
      → blocking_ticket (closed_info r.now c i) ≡ some ticket
      → Unblocked (closed_info r.now c i) ticket id (close_and_publish callbacks (suc fuel) c i r)
  unfolding close_and_publish pause_dependents active_status
  dependents_paused fuel c i r ticket id k b =
      rw (b, pause_dependents)
        (pause_all_unblocks
          (λ j s.
            close_and_publish callbacks fuel (dependency_pause ticket closed) j
              (cancel_task j.id s))
          closed ticket
          (λ j s l q.
            close_and_publish-KeysMatch fuel _ j (cancel_task j.id s) (rw subs-cancel_task q))
          (λ x j s l q.
            close_dependent_keeps fuel closed ticket x _ j (cancel_task j.id s) refl
              (rw subs-cancel_task l) (rw subs-cancel_task q))
          (λ j s q.
            (Halted-close callbacks j.id (AllQuiet-Halted callbacks j.id quiet) fuel _ j
              (cancel_task j.id s) refl refl (rw subs-cancel_task q)).1)
          id _
          (run_callbacks_keeps KeysMatch (λ s q. q) callbacks closed (settle c i r)
            (AllQuiet-KeysMatch callbacks quiet) (KeysMatch-settle c i r k)))
    where
      closed : SubsessionInfo
      closed = closed_info r.now c i
