-- ===== src/Subsessions/Registry/Ownership/Closed.antt =====
-- Closing a conversation leaves none of its records active.
use robotsix_chat.Base.{
  String, true, none, some, List, [], ◌∷◌, ◌≡◌, refl, arith, elem, elem-cons, Bool-cases, inl, inr,
  Option-cases, subst, sym,
}
use robotsix_chat.Base.Dict.{get, get_or}
use robotsix_chat.Subsessions.Model.{is_active, active_status}
use robotsix_chat.Subsessions.Registry.State.{Registry}
use robotsix_chat.Subsessions.Registry.Closing.{
  Callback, cancel_task, cancel_and_close, close_found, depth_bound,
}
use robotsix_chat.Subsessions.Registry.Closing.Rule.{
  KeysMatch, AllKeep, subs-cancel_task, close_and_publish_keeps,
}
use robotsix_chat.Subsessions.Registry.Closing.Once.{
  Halted, HaltedWithKeys, KeysMatch-settle, Halted-settle, Halted-close,
}
use robotsix_chat.Subsessions.Registry.Ownership.{close_each, close_all_for_owner}

module _ (callbacks : List Callback)
    (callbacks_keep : (id : String) → AllKeep (HaltedWithKeys id) callbacks) (reason : String) where
  -- One call keeps the ids under their records, and every halted record halted.
  keeps-cancel_and_close :
      (id other : String) (r : Registry)
      → HaltedWithKeys id r
      → HaltedWithKeys id (cancel_and_close callbacks other reason "system" none r).0
  unfolding cancel_and_close close_found active_status
  keeps-cancel_and_close id other r h = elim (Option-cases (get other r.subs)) [
    | inl e ↦ rw (e, close_found) h
    | inr (i, e) ↦ elim (Bool-cases (is_active i)) [
      | inr a ↦ rw (e, close_found) (rw a h)
      | inl a ↦
          rw (e, close_found)
            (rw a (
              close_and_publish_keeps (HaltedWithKeys id) (λ s q. q.0) callbacks (callbacks_keep id)
                (λ c j s t l q. (KeysMatch-settle c j s q.0, Halted-settle id c j s t q.1))
                (λ j s q. rw subs-cancel_task q) (depth_bound r) _ i (cancel_task other r) refl
                (
                  rw subs-cancel_task (subst (λ k. get k r.subs ≡ some i) (sym (h.0 other i e)) e),
                  a,
                )
                (rw subs-cancel_task h)))
    ]
  ]

  halts-cancel_and_close :
      (id : String) (r : Registry)
      → KeysMatch r
      → HaltedWithKeys id (cancel_and_close callbacks id reason "system" none r).0
  unfolding cancel_and_close close_found active_status
  halts-cancel_and_close id r k = elim (Option-cases (get id r.subs)) [
    | inl e ↦ rw (e, close_found) (k, λ i f. absurd (ground (arith, e, f)))
    | inr (i, e) ↦ elim (Bool-cases (is_active i)) [
      | inr a ↦ rw (e, close_found) (rw a (k, λ j f. cc (e, f, a)))
      | inl a ↦
          rw (e, close_found)
            (rw a (
              Halted-close callbacks id (callbacks_keep id) (depth_bound r) _ i (cancel_task id r)
                (k id i e) refl (rw subs-cancel_task k)))
    ]
  ]

  keeps-close_each :
      (id : String) (ids : List String) (r : Registry)
      → HaltedWithKeys id r
      → HaltedWithKeys id (close_each callbacks reason ids r).0
  unfolding close_each
  keeps-close_each id [] r h = h
  keeps-close_each id (other ∷ ids) r h =
      keeps-close_each id ids _ (keeps-cancel_and_close id other r h)

  halts-close_each :
      (id : String) (ids : List String) (r : Registry)
      → KeysMatch r
      → elem id ids ≡ true
      → HaltedWithKeys id (close_each callbacks reason ids r).0
  unfolding close_each
  halts-close_each id [] r k m = absurd (ground (arith, m))
  halts-close_each id (other ∷ ids) r k m = elim (elem-cons id other ids m) [
    | inl q ↦ keeps-close_each id ids _ (rw (← q) (halts-cancel_and_close other r k))
    | inr n ↦ halts-close_each id ids _ (halts-cancel_and_close other r k).0 n
  ]

  -- After `close_all_for_owner`, no record that was listed under the owner is active. The records
  -- stand under their own ids, and the callbacks keep that and make no halted record active.
  pub owner_closed :
      (owner id : String) (r : Registry)
      → KeysMatch r
      → elem id (get_or owner [] r.by_owner) ≡ true
      → Halted id (close_all_for_owner callbacks owner reason r).0
  unfolding close_all_for_owner
  owner_closed owner id r k m = (halts-close_each id (get_or owner [] r.by_owner) r k m).1
