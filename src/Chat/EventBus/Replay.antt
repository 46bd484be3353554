-- ===== src/Chat/EventBus/Replay.antt =====
-- A client that subscribes while a turn is in flight misses nothing of it: the resume frame and the
-- tokens that follow make up the text of the turn.
use robotsix_chat.Base.{
  ℕ, ◌<◌, String, false, Option, none, some, List, [], ◌∷◌, ◌++◌, map, ◌≡◌, ◌≢◌, refl, ◌&&◌, subst,
  sym, ap, ◌∙◌, arith, str_eq, eq_iff, if◌then◌else◌, append_assoc, append-nil, ◌==◌, Option-cases,
  inl, inr, Bool-cases,
}
use robotsix_chat.Base.Dict.{Dict, get, put, get_or}
use robotsix_chat.Base.Dict.Laws.{get-put, get_or-put}
use robotsix_chat.Chat.EventBus.{
  BusFrame, chat_turn_resume, chat_token, Queue, Turn, EventBus, deliver, deliver_everywhere,
  publish, append_turn_token, without, buffered,
}

-- The tokens of a turn that a frame carries, as its reader adds them up.
abbrev pub carried : String → BusFrame → List String
carried turn (chat_turn_resume session t parts user) = if str_eq t turn then parts else []
carried turn (chat_token session t content) = if str_eq t turn then content ∷ [] else []
carried turn _ = []

abbrev pub received : String → List BusFrame → List String
received turn [] = []
received turn (f ∷ fs) = carried turn f ++ received turn fs

abbrev pub frames_of : ℕ → List Queue → Option (List BusFrame)
frames_of n [] = none
frames_of n (q ∷ qs) = if q.ident == n then some q.frames else frames_of n qs

pub received-append :
    (turn : String) (xs ys : List BusFrame)
    → received turn (xs ++ ys) ≡ received turn xs ++ received turn ys
received-append turn [] ys = refl
received-append turn (f ∷ fs) ys =
    ap (λ l. carried turn f ++ l) (received-append turn fs ys)
    ∙ sym (append_assoc (carried turn f) (received turn fs) (received turn ys))

frames_of-deliver :
    (n : ℕ) (frame : BusFrame) (qs : List Queue) (fs : List BusFrame)
    → frames_of n qs ≡ some fs
    → frames_of n (map (deliver frame) qs) ≡ some (fs ++ frame ∷ [])
frames_of-deliver n frame [] fs h = cc
frames_of-deliver n frame (q ∷ qs) fs h = ground (arith, frames_of-deliver n frame qs fs)

pub frames_of-without :
    (n m : ℕ) (qs : List Queue) → n ≢ m → frames_of n (without m qs) ≡ frames_of n qs
frames_of-without n m [] h = refl
frames_of-without n m (q ∷ qs) h = ground (arith, frames_of-without n m qs h)

-- The queue is subscribed to the session, whose turn is in flight, and has been given all of it.
pub record InStep (session turn : String) (n : ℕ) (b : EventBus) : Type 0 where
  pub current : Turn
  pub frames : List BusFrame
  pub in_flight : get session b.current_turn ≡ some current
  pub same_turn : current.turn_id ≡ turn
  pub subscribed : frames_of n (get_or session [] b.subscribers) ≡ some frames
  pub complete : received turn frames ≡ current.parts
  pub issued : n < b.next_ident

subscribers-publish :
    (session other : String) (frame : BusFrame) (b : EventBus)
    → get_or session [] (publish other frame b).subscribers ≡ (
        if str_eq other session
        then map (deliver frame) (get_or session [] b.subscribers)
        else get_or session [] b.subscribers)
unfolding publish
subscribers-publish session other frame b = elim (Option-cases (get other b.subscribers)) [
  | inl e ↦ rw (e, publish) (ground (arith, e, eq_iff other session))
  | inr (qs, e) ↦
      rw (e, publish)
        (ground (
          arith,
          e,
          get_or-put session other [] (map (deliver frame) qs) b.subscribers,
          eq_iff other session,
        ))
]

current_turn-publish :
    (session : String) (frame : BusFrame) (b : EventBus)
    → (publish session frame b).current_turn ≡ b.current_turn
unfolding publish
current_turn-publish session frame b = ground arith

next_ident-publish :
    (session : String) (frame : BusFrame) (b : EventBus)
    → (publish session frame b).next_ident ≡ b.next_ident
unfolding publish
next_ident-publish session frame b = ground arith

pub frames_of-deliver_everywhere :
    (session : String) (n : ℕ) (frame : BusFrame) (subs : Dict (List Queue)) (fs : List BusFrame)
    → frames_of n (get_or session [] subs) ≡ some fs
    → frames_of n (get_or session [] (deliver_everywhere frame subs)) ≡ some (fs ++ frame ∷ [])
unfolding get
frames_of-deliver_everywhere session n frame [] fs h = cc
frames_of-deliver_everywhere session n frame ((s, qs) ∷ rest) fs h =
    ground
      (arith, frames_of-deliver n frame qs fs, frames_of-deliver_everywhere session n frame rest fs)

module _ (session turn : String) (n : ℕ) where
  -- Publishing keeps a queue in step when the frame accounts for what the buffer has gained.
  pub publish-InStep :
      (other : String) (frame : BusFrame) (b : EventBus) (current : Turn) (frames : List BusFrame)
      → get session b.current_turn ≡ some current
      → current.turn_id ≡ turn
      → frames_of n (get_or session [] b.subscribers) ≡ some frames
      → received turn frames ++ (if str_eq other session then carried turn frame else [])
        ≡ current.parts
      → n < b.next_ident
      → InStep session turn n (publish other frame b)
  publish-InStep other frame b current frames f t s c i = elim (Bool-cases (str_eq other session)) [
    | inl e ↦ record {
      current = current;
      frames = frames ++ frame ∷ [];
      in_flight = rw current_turn-publish f;
      same_turn = t;
      subscribed =
          rw subscribers-publish
            (rw e (frames_of-deliver n frame (get_or session [] b.subscribers) frames s));
      complete =
          received-append turn frames (frame ∷ [])
          ∙ (ap (λ l. received turn frames ++ l) (append-nil (carried turn frame)) ∙ (rw e at c));
      issued = rw next_ident-publish i;
    }
    | inr e ↦ record {
      current = current;
      frames = frames;
      in_flight = rw current_turn-publish f;
      same_turn = t;
      subscribed = rw subscribers-publish (rw e s);
      complete = sym (append-nil (received turn frames)) ∙ (rw e at c);
      issued = rw next_ident-publish i;
    }
  ]

  pub publish_silent-InStep :
      (other : String) (frame : BusFrame) (b : EventBus)
      → carried turn frame ≡ []
      → InStep session turn n b
      → InStep session turn n (publish other frame b)
  publish_silent-InStep other frame b e s =
      publish-InStep other frame b s.current s.frames s.in_flight s.same_turn s.subscribed
        (ground (arith, e, s.complete, append-nil (received turn s.frames))) s.issued

  -- A change of another session's turn is not seen.
  pub put_turn-InStep :
      (other : String) (t : Turn) (b : EventBus)
      → str_eq other session ≡ false
      → InStep session turn n b
      → InStep session turn n (record b { current_turn = put other t b.current_turn })
  put_turn-InStep other t b e s = record {
    current = s.current;
    frames = s.frames;
    in_flight = rw get-put (rw e s.in_flight);
    same_turn = s.same_turn;
    subscribed = s.subscribed;
    complete = s.complete;
    issued = s.issued;
  }

  -- The turn after a token: the buffer of the turn that the token belongs to has grown.
  abbrev pub grown : String → String → String → Turn → Turn
  grown other turn' content t =
      if str_eq other session && str_eq t.turn_id turn'
      then record t { parts = t.parts ++ content ∷ [] }
      else t

  get-buffered_other :
      (other turn' content : String) (turns : Dict Turn) (o : Option Turn)
      → str_eq other session ≡ false
      → get session (buffered other turn' content o turns) ≡ get session turns
  get-buffered_other other turn' content turns none e = refl
  get-buffered_other other turn' content turns (some u) e =
      ground (arith, e, get-put session other (record u { parts = u.parts ++ content ∷ [] }) turns)

  get-buffered_self :
      (turn' content : String) (turns : Dict Turn) (t : Turn)
      → get session turns ≡ some t
      → get session (buffered session turn' content (get session turns) turns)
        ≡ some (grown session turn' content t)
  get-buffered_self turn' content turns t h = rw h (
      ground (
        arith,
        h,
        eq_iff session session,
        get-put session session (record t { parts = t.parts ++ content ∷ [] }) turns,
      ))

  get-buffered :
      (other turn' content : String) (turns : Dict Turn) (t : Turn)
      → get session turns ≡ some t
      → get session (buffered other turn' content (get other turns) turns)
        ≡ some (grown other turn' content t)
  get-buffered other turn' content turns t h = elim (Bool-cases (str_eq other session)) [
    | inl e ↦
        subst
          (λ (o : String).
            get session (buffered o turn' content (get o turns) turns)
            ≡ some (grown o turn' content t))
          (sym ((eq_iff other session).0 e)) (get-buffered_self turn' content turns t h)
    | inr e ↦ get-buffered_other other turn' content turns (get other turns) e ∙ rw e h
  ]

  pub append_turn_token-InStep :
      (other turn' content : String) (b : EventBus)
      → InStep session turn n b
      → InStep session turn n (append_turn_token other turn' content b)
  unfolding append_turn_token
  append_turn_token-InStep other turn' content b s =
      publish-InStep other (chat_token other turn' content)
        (record b {
          current_turn = buffered other turn' content (get other b.current_turn) b.current_turn;
        })
        (grown other turn' content s.current) s.frames
        (get-buffered other turn' content b.current_turn s.current s.in_flight)
        (ground (arith, s.same_turn)) s.subscribed
        (ground (
          arith,
          s.complete,
          s.same_turn,
          append-nil (received turn s.frames),
          eq_iff turn' turn,
          eq_iff s.current.turn_id turn',
        ))
        s.issued
