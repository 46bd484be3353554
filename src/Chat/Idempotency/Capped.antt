-- ===== src/Chat/Idempotency/Capped.antt =====
-- A completed message is answered from the store, and the store keeps its cap.
use robotsix_chat.Base.{
  ℕ, suc, ◌≤◌, String, false, none, some, [], ◌∷◌, ◌++◌, ◌≡◌, refl, ap, ◌∙◌, arith, length, ltb,
  str_eq, eq_iff, eq_refl, Bool-cases, Option-cases, inl, inr,
}
use robotsix_chat.Base.Dict.{Dict, get, put, get_or}
use robotsix_chat.Base.Dict.Laws.{get-put, get_or-put, get-put_same, get_or-some}
use robotsix_chat.Chat.Idempotency.{MessageIdempotencyStore, get_reply, evict, mark_completed}

-- No session holds more than the cap.
abbrev pub IsCapped : MessageIdempotencyStore → Type 0
IsCapped m = (session : String) → length (get_or session [] m.store) ≤ m.max_per_session

length-evict : (max : ℕ) (d : Dict String) → length (evict max d) ≤ max
unfolding evict
length-evict max [] = omega arith
length-evict max (e ∷ d) = ground (arith, length-evict max d)

evict-small : (max : ℕ) (d : Dict String) → length d ≤ max → evict max d ≡ d
unfolding evict
evict-small max [] h = refl
evict-small max (e ∷ d) h = ground (arith, h)

put-new : (k v : String) (d : Dict String) → get k d ≡ none → put k v d ≡ d ++ (k, v) ∷ []
unfolding put get
put-new k v [] e = refl
put-new k v ((j, w) ∷ d) e = ground (arith, e, put-new k v d)

length-put : (k v w : String) (d : Dict String) → get k d ≡ some w → length (put k v d) ≡ length d
unfolding put get
length-put k v w [] e = absurd (ground (arith, e))
length-put k v w ((j, u) ∷ d) e = ground (arith, e, length-put k v w d)

get-last : (k v : String) (d : Dict String) → get k d ≡ none → get k (d ++ (k, v) ∷ []) ≡ some v
unfolding get
get-last k v [] e = ground (arith, eq_refl k)
get-last k v ((j, w) ∷ d) e = ground (arith, e, get-last k v d)

-- The entry at the end outlives the others.
get-evict_last :
    (max : ℕ) (k v : String) (d : Dict String)
    → 1 ≤ max
    → get k d ≡ none
    → get k (evict max (d ++ (k, v) ∷ [])) ≡ some v
unfolding get evict
get-evict_last max k v [] h e = ground (arith, h, eq_refl k)
get-evict_last max k v ((j, w) ∷ d) h e =
    let d' : Dict String = (j, w) ∷ (d ++ (k, v) ∷ []) in
    elim (Bool-cases (ltb max (length d'))) [
      | inl q ↦ rw (q, evict) (get-evict_last max k v d h (ground (arith, e)))
      | inr q ↦ rw (q, evict) (get-last k v ((j, w) ∷ d) e)
    ]

get-evict-put :
    (max : ℕ) (k v : String) (d : Dict String)
    → 1 ≤ max
    → length d ≤ max
    → get k (evict max (put k v d)) ≡ some v
get-evict-put max k v d h l = elim (Option-cases (get k d)) [
  | inl e ↦ ap (λ x. get k (evict max x)) (put-new k v d e) ∙ get-evict_last max k v d h e
  | inr (w, e) ↦
      ap (get k) (evict-small max (put k v d) (omega (arith, l, length-put k v w d e)))
      ∙ get-put_same k v d
]

-- Where the cap is at least one and no session exceeds it, a completed message is answered with its
-- reply, the replies of every other session are as they were, and no session exceeds the cap.
pub completed_replies :
    (session message reply : String) (m : MessageIdempotencyStore)
    → 1 ≤ m.max_per_session
    → IsCapped m
    → let m' = mark_completed session message reply m in
      (get_reply session message m' ≡ some reply)
      × ((other id : String)
          → str_eq session other ≡ false
          → get_reply other id m' ≡ get_reply other id m)
      × IsCapped m'
unfolding mark_completed get_reply
completed_replies session message reply m h c =
    let d = evict m.max_per_session (put message reply (get_or session [] m.store)) in
    (
      rw (get-put_same session d m.store, get_reply)
          (get-evict-put m.max_per_session message reply (get_or session [] m.store) h (c session)),
      (λ other id q. rw (get-put other session d m.store, get_reply) (rw q refl)),
      λ other. ground (
        arith,
        c other,
        get_or-put other session [] d m.store,
        length-evict m.max_per_session (put message reply (get_or session [] m.store)),
      ),
    )

get-other_last :
    (k j v : String) (d : Dict String)
    → str_eq k j ≡ false
    → get k d ≡ none
    → get k (d ++ (j, v) ∷ []) ≡ none
unfolding get
get-other_last k j v [] q e = ground (arith, q, eq_iff j k, eq_iff k j)
get-other_last k j v ((i, w) ∷ d) q e = ground (arith, e, get-other_last k j v d q)

evict-full :
    (max : ℕ) (e : String × String) (d : Dict String) → length d ≡ max → evict max (e ∷ d) ≡ d
unfolding evict
evict-full max e d h = ground (arith, h, evict-small max d)

-- The two steps on the session's replies.
evict-again :
    (max : ℕ) (k v w : String) (rest : Dict String)
    → suc (length rest) ≡ max
    → evict max (put k v ((k, w) ∷ rest)) ≡ (k, v) ∷ rest
unfolding put
evict-again max k v w rest h =
    ap (evict max) (rw (eq_refl k) refl) ∙ evict-small max ((k, v) ∷ rest) (omega (arith, h))

evict-next :
    (max : ℕ) (k j v w : String) (rest : Dict String)
    → suc (length rest) ≡ max
    → str_eq k j ≡ false
    → get j rest ≡ none
    → evict max (put j w ((k, v) ∷ rest)) ≡ rest ++ (j, w) ∷ []
unfolding put
evict-next max k j v w rest h q e =
    ap (evict max) (rw q (ap (λ d. (k, v) ∷ d) (put-new j w rest e)))
    ∙ evict-full max (k, v) (rest ++ (j, w) ∷ []) (length-last rest ∙ h)
  where
    length-last : (d : Dict String) → length (d ++ (j, w) ∷ []) ≡ suc (length d)
    length-last [] = refl
    length-last (x ∷ d) = omega (arith, length-last d)

-- The reply that was recorded first goes first, even if it was recorded again just before: in a session
-- that is full, recording its oldest message once more and then a new one removes the oldest message.
pub oldest_evicted :
    (session oldest new r₀ r₁ r₂ : String) (rest : Dict String) (m : MessageIdempotencyStore)
    → get session m.store ≡ some ((oldest, r₀) ∷ rest)
    → suc (length rest) ≡ m.max_per_session
    → get oldest rest ≡ none
    → get new rest ≡ none
    → str_eq oldest new ≡ false
    → get_reply session oldest (mark_completed session new r₂ (mark_completed session oldest r₁ m))
      ≡ none
unfolding mark_completed get_reply
oldest_evicted session oldest new r₀ r₁ r₂ rest m e full alone fresh q =
    let max = m.max_per_session in
    let d₁ = evict max (put oldest r₁ (get_or session [] m.store)) in
    let once =
      ap (λ d. evict max (put oldest r₁ d)) (get_or-some session [] _ m.store e)
      ∙ evict-again max oldest r₁ r₀ rest full in
    let m₁ : MessageIdempotencyStore = record m { store = put session d₁ m.store } in
    let d₂ = evict max (put new r₂ (get_or session [] m₁.store)) in
    let twice =
      ap (λ d. evict max (put new r₂ d))
        (get_or-some session [] d₁ m₁.store (get-put_same session d₁ m.store) ∙ once)
      ∙ evict-next max oldest new r₁ r₂ rest full q fresh in
    rw (get-put_same session d₂ m₁.store, get_reply)
      (ap (get oldest) twice ∙ get-other_last oldest new r₂ rest q alone)
