-- ===== src/Subsessions/SlotBudget/Fifo.antt =====
-- What the queues of slot_budget.py promise: the order of arrival, the cap, and that conversations do
-- not touch one another.
use robotsix_chat.Base.{
  ℕ, zero, suc, ◌+◌, ◌≤◌, ◌<◌, String, Option, none, some, List, [], ◌∷◌, ◌++◌, ◌≡◌, refl, ap, ◌∙◌,
  sym, arith, length, ◌⊎◌, Bool-cases, leb→le, map, length-append, str_eq, eq_iff, if◌then◌else◌,
  append-nil, append_assoc, inl, inr, leb, leb-false→lt,
}
use robotsix_chat.Base.Dict.{put, get_or}
use robotsix_chat.Base.Dict.Laws.{get_or-put}
use robotsix_chat.Subsessions.SlotBudget.{
  SlotBudget, accepted, queue_full, enqueue, pop_next, requeue_front, pop_from,
}

module _ {A : Type 0} where
  -- The specification: a queue for each conversation.
  unfoldable pub waiting : String → SlotBudget A → List A
  waiting owner b = get_or owner [] b.queues

  abbrev pub Within : SlotBudget A → Type 0
  Within b = (owner : String) → length (waiting owner b) ≤ b.queue_max

  waiting-put :
      (owner other : String) (q : List A) (b : SlotBudget A)
      → waiting other (record b { queues = put owner q b.queues })
        ≡ (if str_eq owner other then q else waiting other b)
  unfolding waiting
  waiting-put owner other q b = get_or-put other owner [] q b.queues

  -- A request is refused exactly when its conversation has `queue_max` requests waiting. Otherwise it
  -- is put behind them, the cap stays, and no other conversation's queue changes.
  pub enqueue_lem :
      (owner : String) (request : A) (b : SlotBudget A)
      → ((b.queue_max ≤ length (waiting owner b)) × (enqueue owner request b ≡ queue_full))
        ⊎ ((b' : SlotBudget A) × (enqueue owner request b ≡ accepted b')
            × (length (waiting owner b) < b.queue_max)
            × (b'.queue_max ≡ b.queue_max)
            × ((other : String)
                → waiting other b' ≡ (
                    if str_eq owner other
                    then waiting owner b ++ request ∷ []
                    else waiting other b)))
  unfolding enqueue waiting
  enqueue_lem owner request b = elim (Bool-cases (leb b.queue_max (length (waiting owner b)))) [
    | inl full ↦ inl (leb→le _ _ full, rw full)
    | inr room ↦ inr (
      record b { queues = put owner (waiting owner b ++ request ∷ []) b.queues },
      rw room,
      leb-false→lt _ _ room,
      refl,
      λ other. waiting-put owner other _ b,
    )
  ]

  -- The oldest request is taken out, if there is one, and nothing else changes.
  pub pop_next_lem :
      (owner : String) (b : SlotBudget A)
      → ((waiting owner b ≡ []) × (pop_next owner b ≡ (b, none)))
        ⊎ ((request : A) × (rest : List A) × (b' : SlotBudget A) × (waiting owner b
              ≡ request ∷ rest)
            × (pop_next owner b ≡ (b', some request))
            × ((other : String)
                → waiting other b' ≡ (if str_eq owner other then rest else waiting other b)))
  unfolding pop_next waiting
  pop_next_lem owner b = go (waiting owner b) refl
    where
      go :
          (q : List A)
          → waiting owner b ≡ q
          → ((q ≡ []) × (pop_from owner q b ≡ (b, none)))
            ⊎ ((request : A) × (rest : List A) × (b' : SlotBudget A) × (q ≡ request ∷ rest)
                × (pop_from owner q b ≡ (b', some request))
                × ((other : String)
                    → waiting other b' ≡ (if str_eq owner other then rest else waiting other b)))
      go [] e = inl (refl, refl)
      go (request ∷ rest) e = inr (
        request,
        rest,
        record b { queues = put owner rest b.queues },
        refl,
        refl,
        λ other. waiting-put owner other rest b,
      )

  waiting-requeue_front :
      (owner other : String) (request : A) (b : SlotBudget A)
      → waiting other (requeue_front owner request b)
        ≡ (if str_eq owner other then request ∷ waiting owner b else waiting other b)
  unfolding requeue_front waiting
  waiting-requeue_front owner other request b = waiting-put owner other _ b

  -- A request that is popped and put back, as the drain loop does when spawning fails, leaves every
  -- conversation's queue as it was, so the request keeps its place and the cap is respected.
  pub requeue_front-pop_next :
      (owner other : String) (request : A) (b b' : SlotBudget A)
      → pop_next owner b ≡ (b', some request)
      → waiting other (requeue_front owner request b') ≡ waiting other b
  requeue_front-pop_next owner other request b b' h = elim (pop_next_lem owner b) [
    | inl (e, p) ↦ absurd (ground (arith, h, p))
    | inr (q, rest, c, e, p, w) ↦
        let s : (b' ≡ c) × (request ≡ q) = (cc (h, p), cc (h, p)) in
        waiting-requeue_front owner other request b'
        ∙ ground (
          arith,
          s,
          e,
          eq_iff owner other,
          eq_iff owner owner,
          ap (waiting other) s.0,
          ap (waiting owner) s.0,
          w other,
          w owner,
        )
  ]

  abbrev pub enqueue_all : String → List A → SlotBudget A → Option (SlotBudget A)
  enqueue_all owner [] b = some b
  enqueue_all owner (q ∷ qs) b = elim (enqueue owner q b) [
    | queue_full ↦ none
    | accepted b' ↦ enqueue_all owner qs b'
  ]

  abbrev pub pop_all : ℕ → String → SlotBudget A → List (Option A)
  pop_all zero owner b = []
  pop_all (suc n) owner b = let (b', request) = pop_next owner b in request ∷ pop_all n owner b'

  waiting-enqueue_all :
      (owner : String) (requests : List A) (b : SlotBudget A)
      → length (waiting owner b) + length requests ≤ b.queue_max
      → (b' : SlotBudget A) × (enqueue_all owner requests b ≡ some b')
        × (waiting owner b' ≡ waiting owner b ++ requests)
  waiting-enqueue_all owner [] b h = (b, refl, sym (append-nil _))
  waiting-enqueue_all owner (q ∷ qs) b h = elim (enqueue_lem owner q b) [
    | inl (full, e) ↦ absurd (omega arith)
    | inr (c, e, room, kept, w) ↦
        let here : waiting owner c ≡ waiting owner b ++ q ∷ [] =
          ground (arith, w owner, eq_iff owner owner) in
        let (b', f, v) =
          waiting-enqueue_all owner qs c
            (omega (arith, ap length here, length-append (waiting owner b) (q ∷ []))) in
        (
          b',
          rw (e, enqueue_all) f,
          v ∙ (ap (λ (l : List A). l ++ qs) here ∙ append_assoc (waiting owner b) (q ∷ []) qs),
        )
  ]

  pop_all-waiting :
      (owner : String) (queue : List A) (b : SlotBudget A)
      → waiting owner b ≡ queue
      → pop_all (length queue) owner b ≡ map some queue
  pop_all-waiting owner [] b h = refl
  pop_all-waiting owner (q ∷ qs) b h = elim (pop_next_lem owner b) [
    | inl (e, p) ↦ absurd (ground (arith, h, e))
    | inr (r, rest, c, e, p, w) ↦
        let s : (r ≡ q) × (rest ≡ qs) = (cc (h, e), cc (h, e)) in
        rw p
          (cc (s.0, pop_all-waiting owner qs c (ground (arith, w owner, eq_iff owner owner, s.1))))
  ]

  -- Requests that fit under the cap are all accepted, and are popped behind those that waited before
  -- them, in the order in which they came.
  pub popped_in_order :
      (owner : String) (requests : List A) (b : SlotBudget A)
      → length (waiting owner b) + length requests ≤ b.queue_max
      → (b' : SlotBudget A) × (enqueue_all owner requests b ≡ some b')
        × (pop_all (length (waiting owner b ++ requests)) owner b'
            ≡ map some (waiting owner b ++ requests))
  popped_in_order owner requests b h =
      let (b', e, w) = waiting-enqueue_all owner requests b h in
      (b', e, pop_all-waiting owner (waiting owner b ++ requests) b' w)
