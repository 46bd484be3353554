-- ===== src/Subsessions/Registry/Closing/Once.antt =====
-- A terminal transition happens once: after it, its record is terminal, and the other transitions
-- of registry_lifecycle.py find nothing to close.
use robotsix_chat.Base.{
  ℕ, String, false, Option, none, some, List, ◌≡◌, refl, ap, subst, ◌∙◌, sym, arith, eq_iff,
  Bool-cases, inl, inr,
}
use robotsix_chat.Base.Dict.{get}
use robotsix_chat.Base.Dict.Laws.{get-put}
use robotsix_chat.Subsessions.Model.{SubsessionInfo, Summary, is_active, active_status}
use robotsix_chat.Subsessions.Registry.State.{Registry}
use robotsix_chat.Subsessions.Registry.Closing.{
  Callback, Closing, closed_info, settle, cancel_task, close_and_publish, close_found, depth_bound,
  mark_closed, fail, mark_interrupted, cancel_and_close,
}
use robotsix_chat.Subsessions.Registry.Closing.Rule.{
  KeysMatch, IsTerminal, AllKeep, subs-cancel_task, id-closed_info, status-closed_info,
  close_and_publish_settled,
}

-- No active record stands under the id.
abbrev pub Halted : String → Registry → Type 0
Halted id r = (i : SubsessionInfo) → get id r.subs ≡ some i → is_active i ≡ false

abbrev pub HaltedWithKeys : String → Registry → Type 0
HaltedWithKeys id r = KeysMatch r × Halted id r

pub KeysMatch-settle :
    (c : Closing) (i : SubsessionInfo) (r : Registry) → KeysMatch r → KeysMatch (settle c i r)
unfolding settle
KeysMatch-settle c i r k id j e = ground (
  arith,
  get-put id i.id (closed_info r.now c i) r.subs,
  id-closed_info r.now c i,
  eq_iff i.id id,
  k id j,
)

pub Halted-settle :
    (id : String) (c : Closing) (i : SubsessionInfo) (r : Registry)
    → IsTerminal c
    → Halted id r
    → Halted id (settle c i r)
unfolding settle
Halted-settle id c i r t h j e = ground (
  arith,
  get-put id i.id (closed_info r.now c i) r.subs,
  ap active_status (status-closed_info r.now c i),
  h j,
)

pub Halted-settle_self :
    (c : Closing) (i : SubsessionInfo) (r : Registry) → IsTerminal c → Halted i.id (settle c i r)
unfolding settle
Halted-settle_self c i r t j e = ground (
  arith,
  get-put i.id i.id (closed_info r.now c i) r.subs,
  ap active_status (status-closed_info r.now c i),
  eq_iff i.id i.id,
)

module _ (callbacks : List Callback) (id : String)
    (callbacks_keep : AllKeep (HaltedWithKeys id) callbacks) where
  pub Halted-close :
      (fuel : ℕ) (c : Closing) (i : SubsessionInfo) (r : Registry)
      → i.id ≡ id
      → IsTerminal c
      → KeysMatch r
      → HaltedWithKeys id (close_and_publish callbacks fuel c i r)
  Halted-close fuel c i r e t k =
      close_and_publish_settled (HaltedWithKeys id) (λ s q. q.0) callbacks callbacks_keep
        (λ c' j s t' l q. (KeysMatch-settle c' j s q.0, Halted-settle id c' j s t' q.1))
        (λ j s q. rw subs-cancel_task q) fuel c i r
        (KeysMatch-settle c i r k, rw (← e) (Halted-settle_self c i r t))

-- The calls that end a subsession.
pub data EndCall : Type 0 where
  closes : Summary → String → String → EndCall
  fails : String → EndCall
  interrupts : Summary → EndCall
  cancels : String → String → Option Summary → EndCall

abbrev pub end_with : List Callback → EndCall → String → Registry → Registry × Option SubsessionInfo
end_with callbacks (closes summary reason by) id r = mark_closed callbacks id summary reason by r
end_with callbacks (fails error) id r = fail callbacks id error r
end_with callbacks (interrupts summary) id r = mark_interrupted callbacks id summary r
end_with callbacks (cancels reason by summary) id r =
    cancel_and_close callbacks id reason by summary r

-- Each of them is the guarded close, with a terminal status, after a step that changes no record.
pub record IsGuardedClose (callbacks : List Callback) (id : String) (r : Registry)
    (out : Registry × Option SubsessionInfo) : Type 0 where
  pub closing : SubsessionInfo → Closing
  pub prepare : Registry → Registry
  pub out_eq : out ≡ close_found callbacks closing prepare (get id r.subs) r
  pub terminal : (i : SubsessionInfo) → IsTerminal (closing i)
  pub prepare_subs : (prepare r).subs ≡ r.subs

pub end_with-IsGuardedClose :
    (callbacks : List Callback) (call : EndCall) (id : String) (r : Registry)
    → IsGuardedClose callbacks id r (end_with callbacks call id r)
unfolding mark_closed fail mark_interrupted cancel_and_close active_status
end_with-IsGuardedClose callbacks (closes summary reason by) id r = record {
  closing = _;
  prepare = λ s. s;
  out_eq = refl;
  terminal = λ i. refl;
  prepare_subs = refl;
}
end_with-IsGuardedClose callbacks (fails error) id r = record {
  closing = _;
  prepare = λ s. s;
  out_eq = refl;
  terminal = λ i. refl;
  prepare_subs = refl;
}
end_with-IsGuardedClose callbacks (interrupts summary) id r = record {
  closing = _;
  prepare = λ s. s;
  out_eq = refl;
  terminal = λ i. refl;
  prepare_subs = refl;
}
end_with-IsGuardedClose callbacks (cancels reason by summary) id r = record {
  closing = _;
  prepare = cancel_task id;
  out_eq = refl;
  terminal = λ i. refl;
  prepare_subs = subs-cancel_task id r;
}

pub Halted-end :
    (callbacks : List Callback) (call : EndCall) (id : String) (r : Registry)
    → Halted id r
    → end_with callbacks call id r ≡ (r, none)
unfolding close_found
Halted-end callbacks call id r h = g.out_eq ∙ go (get id r.subs) refl
  where
    g : IsGuardedClose callbacks id r (end_with callbacks call id r)
    g = end_with-IsGuardedClose callbacks call id r

    go :
        (o : Option SubsessionInfo)
        → get id r.subs ≡ o
        → close_found callbacks g.closing g.prepare o r ≡ (r, none)
    go none e = refl
    go (some i) e = rw (h i e)

module _ (callbacks : List Callback) (id : String)
    (callbacks_keep : AllKeep (HaltedWithKeys id) callbacks) where
  pub end-Halted :
      (call : EndCall) (r : Registry) → KeysMatch r → Halted id (end_with callbacks call id r).0
  unfolding close_found
  end-Halted call r k =
      subst (λ (s : Registry × Option SubsessionInfo). Halted id s.0) (sym g.out_eq)
        (go (get id r.subs) refl)
    where
      g : IsGuardedClose callbacks id r (end_with callbacks call id r)
      g = end_with-IsGuardedClose callbacks call id r

      go :
          (o : Option SubsessionInfo)
          → get id r.subs ≡ o
          → Halted id (close_found callbacks g.closing g.prepare o r).0
      go none e = λ i f. cc (e, f)
      go (some i) e = elim (Bool-cases (is_active i)) [
        | inl a ↦
            rw a
              (Halted-close callbacks id callbacks_keep (depth_bound r) (g.closing i) i
                (g.prepare r) (k id i e) (g.terminal i) (rw g.prepare_subs k)).1
        | inr a ↦ rw a (λ j f. cc (e, f, a))
      ]

  -- Once one of the terminal transitions has run on a record, whether it ended the record or found
  -- it ended, every further one leaves the registry as it is and returns nothing. The records stand
  -- under their own ids, and the callbacks keep that and start no record under this one's id.
  pub end_once :
      (first second : EndCall) (r : Registry)
      → KeysMatch r
      → let r' = (end_with callbacks first id r).0 in end_with callbacks second id r' ≡ (r', none)
  end_once first second r k = Halted-end callbacks second id _ (end-Halted first r k)
