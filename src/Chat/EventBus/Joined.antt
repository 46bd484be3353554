-- ===== src/Chat/EventBus/Joined.antt =====
-- Any events on the bus, and what they leave of a subscriber's view of a turn.
use robotsix_chat.Base.{
  ℕ, String, false, Option, none, some, List, [], ◌∷◌, ◌++◌, ◌≡◌, refl, ap, ◌∙◌, arith, str_eq,
  eq_iff, append-nil, ◌==◌, ◌&&◌, Option-cases, inl, inr, Bool-cases,
}
use robotsix_chat.Base.Dict.{Dict, get}
use robotsix_chat.Base.Dict.Laws.{get-remove, get_or-put, get_or-remove}
use robotsix_chat.Chat.EventBus.{
  BusFrame, notification, Turn, EventBus, publish, publish_all, subscribe, begin_turn,
  append_turn_token, end_turn, without, unsubscribe, cleared, turn_end, primed,
}
use robotsix_chat.Chat.EventBus.Replay.{
  InStep, received, received-append, carried, publish_silent-InStep, put_turn-InStep,
  append_turn_token-InStep, frames_of-deliver_everywhere, frames_of-without,
}

get-cleared_other :
    (session s t : String) (turns : Dict Turn) (o : Option Turn)
    → str_eq s session ≡ false
    → get session (cleared s t o turns) ≡ get session turns
get-cleared_other session s t turns none e = refl
get-cleared_other session s t turns (some u) e = ground (arith, e, get-remove session s turns)

-- Ending another turn leaves the session's turn in flight.
get-cleared :
    (session turn s t : String) (turns : Dict Turn) (current : Turn)
    → get session turns ≡ some current
    → current.turn_id ≡ turn
    → (str_eq s session && str_eq t turn) ≡ false
    → get session (cleared s t (get s turns) turns) ≡ some current
get-cleared session turn s t turns current h m e = elim (Bool-cases (str_eq s session)) [
  | inl a ↦
      let p : get s turns ≡ some current =
        ap (λ (k : String). get k turns) ((eq_iff s session).0 a) ∙ h in
      rw p (ground (arith, a, e, h, m, eq_iff current.turn_id t, eq_iff t turn))
  | inr a ↦ get-cleared_other session s t turns (get s turns) a ∙ h
]

-- What can happen on the bus.
pub data BusOp : Type 0 where
  subscribes : String → BusOp
  unsubscribes : String → ℕ → BusOp
  begins appends : String → String → String → BusOp
  ends : String → String → Option ℕ → Option String → BusOp
  notifies : String → String → BusOp
  notifies_all : String → BusOp

abbrev pub apply : BusOp → EventBus → EventBus
apply (subscribes s) b = (subscribe s b).0
apply (unsubscribes s q) b = unsubscribe s q b
apply (begins s t user) b = begin_turn s t user b
apply (appends s t content) b = append_turn_token s t content b
apply (ends s t timestamp error) b = end_turn s t timestamp error b
apply (notifies s text) b = publish s (notification text) b
apply (notifies_all text) b = publish_all (notification text) b

abbrev pub run : List BusOp → EventBus → EventBus
run [] b = b
run (op ∷ ops) b = run ops (apply op b)

module _ (session turn : String) (n : ℕ) where
  -- The event neither begins a turn in the session, nor ends this turn, nor takes this queue away.
  abbrev pub Undisturbed : BusOp → Type 0
  Undisturbed (begins s t user) = str_eq s session ≡ false
  Undisturbed (ends s t timestamp error) = (str_eq s session && str_eq t turn) ≡ false
  Undisturbed (unsubscribes s q) = (str_eq s session && (q == n)) ≡ false
  Undisturbed _ = Unit {0}

  abbrev pub AllUndisturbed : List BusOp → Type 0
  AllUndisturbed [] = Unit {0}
  AllUndisturbed (op ∷ ops) = Undisturbed op × AllUndisturbed ops

  unsubscribe-InStep :
      (s : String) (q : ℕ) (b : EventBus)
      → (str_eq s session && (q == n)) ≡ false
      → InStep session turn n b
      → InStep session turn n (unsubscribe s q b)
  unfolding unsubscribe
  unsubscribe-InStep s q b u h = elim (Option-cases (get s b.subscribers)) [
    | inl e ↦ rw (e, unsubscribe) h
    | inr (qs, e) ↦
        rw (e, unsubscribe)
          (record {
            current = h.current;
            frames = h.frames;
            in_flight = h.in_flight;
            same_turn = h.same_turn;
            subscribed = ground (
              arith,
              u,
              e,
              h.subscribed,
              eq_iff s session,
              get_or-put session s [] (without q qs) b.subscribers,
              get_or-remove session s [] b.subscribers,
              frames_of-without n q qs,
            );
            complete = h.complete;
            issued = h.issued;
          })
  ]

  subscribe-InStep :
      (s : String) (b : EventBus)
      → InStep session turn n b
      → InStep session turn n (subscribe s b).0
  unfolding subscribe
  subscribe-InStep s b h = record {
    current = h.current;
    frames = h.frames;
    in_flight = h.in_flight;
    same_turn = h.same_turn;
    subscribed = rw get_or-put (ground (arith, h.subscribed, h.issued, eq_iff s session));
    complete = h.complete;
    issued = omega (arith, h.issued);
  }

  begin_turn-InStep :
      (s t user : String) (b : EventBus)
      → str_eq s session ≡ false
      → InStep session turn n b
      → InStep session turn n (begin_turn s t user b)
  unfolding begin_turn
  begin_turn-InStep s t user b e h =
      publish_silent-InStep session turn n s _ _ refl (put_turn-InStep session turn n s _ b e h)

  end_turn-InStep :
      (s t : String) (timestamp : Option ℕ) (error : Option String) (b : EventBus)
      → (str_eq s session && str_eq t turn) ≡ false
      → InStep session turn n b
      → InStep session turn n (end_turn s t timestamp error b)
  unfolding end_turn
  end_turn-InStep s t timestamp error b e h =
      publish_silent-InStep session turn n s (turn_end s t timestamp error) _ (silent error)
        (record {
          current = h.current;
          frames = h.frames;
          in_flight =
              get-cleared session turn s t b.current_turn h.current h.in_flight h.same_turn e;
          same_turn = h.same_turn;
          subscribed = h.subscribed;
          complete = h.complete;
          issued = h.issued;
        })
    where
      silent : (error : Option String) → carried turn (turn_end s t timestamp error) ≡ []
      silent none = refl
      silent (some message) = refl

  publish_all-InStep :
      (frame : BusFrame) (b : EventBus)
      → carried turn frame ≡ []
      → InStep session turn n b
      → InStep session turn n (publish_all frame b)
  unfolding publish_all
  publish_all-InStep frame b e h = record {
    current = h.current;
    frames = h.frames ++ frame ∷ [];
    in_flight = h.in_flight;
    same_turn = h.same_turn;
    subscribed = frames_of-deliver_everywhere session n frame b.subscribers h.frames h.subscribed;
    complete =
        received-append turn h.frames (frame ∷ [])
        ∙ ground (arith, e, h.complete, append-nil (received turn h.frames));
    issued = h.issued;
  }

  apply-InStep :
      (op : BusOp) (b : EventBus)
      → Undisturbed op
      → InStep session turn n b
      → InStep session turn n (apply op b)
  apply-InStep (subscribes s) b u h = subscribe-InStep s b h
  apply-InStep (unsubscribes s q) b u h = unsubscribe-InStep s q b u h
  apply-InStep (begins s t user) b u h = begin_turn-InStep s t user b u h
  apply-InStep (appends s t content) b u h = append_turn_token-InStep session turn n s t content b h
  apply-InStep (ends s t timestamp error) b u h = end_turn-InStep s t timestamp error b u h
  apply-InStep (notifies s text) b u h =
      publish_silent-InStep session turn n s (notification text) b refl h
  apply-InStep (notifies_all text) b u h = publish_all-InStep (notification text) b refl h

  -- Whatever else happens on the bus, a queue that has been given the whole text of the session's
  -- turn so far goes on having it, until the turn ends, another begins or the queue is taken away.
  pub run-InStep :
      (ops : List BusOp) (b : EventBus)
      → AllUndisturbed ops
      → InStep session turn n b
      → InStep session turn n (run ops b)
  run-InStep [] b u h = h
  run-InStep (op ∷ ops) b u h = run-InStep ops (apply op b) u.1 (apply-InStep op b u.0 h)

-- Subscribing during a turn gives a queue that has all that the turn has emitted.
subscribed-InStep :
    (session : String) (b : EventBus) (current : Turn)
    → get session b.current_turn ≡ some current
    → InStep session current.turn_id (subscribe session b).1 (subscribe session b).0
unfolding subscribe
subscribed-InStep session b current e = record {
  current = current;
  frames = primed session (some current);
  in_flight = e;
  same_turn = refl;
  subscribed = rw get_or-put (ground (arith, e, eq_iff session session));
  complete = ground (arith, eq_iff current.turn_id current.turn_id, append-nil current.parts);
  issued = omega arith;
}

-- A client that subscribes while a turn is in flight has, after any later events that leave the turn
-- and the subscription in place, received the text that the turn's buffer holds then: what was
-- emitted before it joined, and every token since, each once and in order.
pub joined_mid_turn :
    (session : String) (b : EventBus) (current : Turn) (ops : List BusOp)
    → get session b.current_turn ≡ some current
    → AllUndisturbed session current.turn_id (subscribe session b).1 ops
    → InStep session current.turn_id (subscribe session b).1 (run ops (subscribe session b).0)
joined_mid_turn session b current ops e u =
    run-InStep session current.turn_id (subscribe session b).1 ops (subscribe session b).0 u
      (subscribed-InStep session b current e)
