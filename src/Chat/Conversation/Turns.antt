-- ===== src/Chat/Conversation/Turns.antt =====
-- The turns stay aligned with their actions and indices, and the agent sees what it should.
use robotsix_chat.Base.{
  ℕ, zero, suc, ◌+◌, ◌-◌, ◌≤◌, ◌<◌, String, true, false, ◌&&◌, none, List, [], ◌∷◌, ◌++◌, ◌≡◌, ◌⊎◌,
  refl, ap, ◌∙◌, arith, length, drop, ltb, ◌==◌, length-append, length-drop, if◌then◌else◌,
  Bool-cases, inl, inr,
}
use robotsix_chat.Chat.Conversation.{
  Session, larger, from_end, aligned_actions, append_turn, first_replayed, trim_session,
  has_new_input_since_trim,
}

-- Every turn has its actions, the indices lie within the turns, and the cap holds.
pub record IsAligned (max : ℕ) (s : Session) : Type 0 where
  pub same_length : length s.actions ≡ length s.turns
  pub compacted_le : s.compacted_turn_index ≤ length s.turns
  pub trimmed_le : s.trimmed_turn_index ≤ length s.turns
  pub capped : length s.turns ≤ max

-- The turns that are replayed as they are.
abbrev pub replayed : Session → List (String × String)
replayed s = drop (first_replayed s) s.turns

module _ {ℓ} {A : Type ℓ} where
  drop-append : (n : ℕ) (xs ys : List A) → n ≤ length xs → drop n (xs ++ ys) ≡ drop n xs ++ ys
  drop-append zero xs ys h = refl
  drop-append (suc n) [] ys h = absurd (omega (arith, h))
  drop-append (suc n) (x ∷ xs) ys h = drop-append n xs ys (omega (arith, h))

  drop-drop_one : (n : ℕ) (xs : List A) → drop n (drop 1 xs) ≡ drop (suc n) xs
  drop-drop_one zero [] = refl
  drop-drop_one (suc n) [] = refl
  drop-drop_one n (x ∷ xs) = refl

  -- One element too many: the first goes.
  from_end-one : (n : ℕ) (xs : List A) → 1 ≤ n → length xs ≡ suc n → from_end n xs ≡ drop 1 xs
  from_end-one n xs h e = rw (ap (λ m. m - n) e) (go n h)
    where
      go : (n : ℕ) → 1 ≤ n → (if n == 0 then xs else drop (suc n - n) xs) ≡ drop 1 xs
      go zero h = absurd (omega (arith, h))
      go (suc n) h =
          let one : suc (suc n) - suc n ≡ 1 = omega arith in
          let z : (suc n == 0) ≡ false = ground arith in rw z (ap (λ m. drop m xs) one)

larger-pred : (a b : ℕ) → larger (a - 1) (b - 1) ≡ larger a b - 1
larger-pred a b = ground arith

one_dropped :
    (n : ℕ) (xs : List (String × String)) (x : String × String)
    → n ≤ length xs
    → drop (n - 1) (drop 1 (xs ++ x ∷ []))
      ≡ (if n == 0 then drop 1 (drop n xs ++ x ∷ []) else drop n xs ++ x ∷ [])
one_dropped zero xs x h =
    let z : (0 - 1) ≡ 0 = omega arith in ap (λ m. drop m (drop 1 (xs ++ x ∷ []))) z
one_dropped (suc n) xs x h =
    let z : (suc n - 1) ≡ n = omega arith in
    let b : (suc n == 0) ≡ false = ground arith in
    rw b (
      ap (λ m. drop m (drop 1 (xs ++ x ∷ []))) z
      ∙ drop-drop_one n (xs ++ x ∷ [])
      ∙ drop-append (suc n) xs (x ∷ []) h)

module _ (max : ℕ) (turn : String × String) (acts : List String) (s : Session) (h : IsAligned max s)
    (m : 1 ≤ max) where
  aligned : aligned_actions s ≡ s.actions
  unfolding aligned_actions
  aligned = ground (arith, h.same_length)

  turns-over :
      ltb max (length (s.turns ++ turn ∷ [])) ≡ true
      → (append_turn max turn acts s).turns ≡ drop 1 (s.turns ++ turn ∷ [])
  unfolding append_turn
  turns-over q = rw q (
      from_end-one max (s.turns ++ turn ∷ []) m
        (ground (arith, q, h.capped, length-append s.turns (turn ∷ []))))

  actions-over :
      ltb max (length (s.turns ++ turn ∷ [])) ≡ true
      → (append_turn max turn acts s).actions ≡ drop 1 (s.actions ++ acts ∷ [])
  unfolding append_turn
  actions-over q = rw q (
      ap (λ l. from_end max (l ++ acts ∷ [])) aligned
      ∙ from_end-one max (s.actions ++ acts ∷ []) m (
          ground (
            arith,
            q,
            h.capped,
            h.same_length,
            length-append s.turns (turn ∷ []),
            length-append s.actions (acts ∷ []),
          )))

  indices-over :
      ltb max (length (s.turns ++ turn ∷ [])) ≡ true
      → ((append_turn max turn acts s).compacted_turn_index ≡ s.compacted_turn_index - 1)
        × ((append_turn max turn acts s).trimmed_turn_index ≡ s.trimmed_turn_index - 1)
  unfolding append_turn
  indices-over q =
      let one : length (s.turns ++ turn ∷ []) - max ≡ 1 =
        ground (arith, q, h.capped, length-append s.turns (turn ∷ [])) in
      rw q (ap (λ n. s.compacted_turn_index - n) one, ap (λ n. s.trimmed_turn_index - n) one)

  -- Without an overflow.
  record Grown (s' : Session) : Type 0 where
    turns : s'.turns ≡ s.turns ++ turn ∷ []
    actions : s'.actions ≡ s.actions ++ acts ∷ []
    compacted : s'.compacted_turn_index ≡ s.compacted_turn_index
    trimmed : s'.trimmed_turn_index ≡ s.trimmed_turn_index

  Grown-append_turn :
      ltb max (length (s.turns ++ turn ∷ [])) ≡ false → Grown (append_turn max turn acts s)
  unfolding append_turn
  Grown-append_turn q = record {
    turns = rw q refl;
    actions = rw q (ap (λ l. l ++ acts ∷ []) aligned);
    compacted = rw q refl;
    trimmed = rw q refl;
  }

  IsAligned-append_turn : IsAligned max (append_turn max turn acts s)
  IsAligned-append_turn = elim (Bool-cases (ltb max (length (s.turns ++ turn ∷ [])))) [
    | inl q ↦
        let (c, t) = indices-over q in
        let n =
          ap (length {A = String × String}) (turns-over q) ∙ length-drop 1 (s.turns ++ turn ∷ []) in
        let a =
          ap (length {A = List String}) (actions-over q) ∙ length-drop 1 (s.actions ++ acts ∷ []) in
        let x = length-append s.turns (turn ∷ []) in
        let y = length-append s.actions (acts ∷ []) in
        record {
          same_length = omega (arith, n, a, x, y, h.same_length);
          compacted_le = omega (arith, c, n, x, h.compacted_le);
          trimmed_le = omega (arith, t, n, x, h.trimmed_le);
          capped = omega (arith, n, x, h.capped);
        }
    | inr q ↦
        let g = Grown-append_turn q in
        let x = length-append s.turns (turn ∷ []) in
        let y = length-append s.actions (acts ∷ []) in
        let n = ap (length {A = String × String}) g.turns in
        let a = ap (length {A = List String}) g.actions in
        record {
          same_length = omega (arith, n, a, x, y, h.same_length);
          compacted_le = omega (arith, g.compacted, n, x, h.compacted_le);
          trimmed_le = omega (arith, g.trimmed, n, x, h.trimmed_le);
          capped = ground (arith, q, n);
        }
  ]

  first-small : larger s.compacted_turn_index s.trimmed_turn_index ≤ length s.turns
  first-small = ground (arith, h.compacted_le, h.trimmed_le)

  replayed-append_turn : replayed (append_turn max turn acts s) ≡ (
      if ltb max (length (s.turns ++ turn ∷ [])) && (first_replayed s == 0)
      then drop 1 (replayed s ++ turn ∷ [])
      else replayed s ++ turn ∷ [])
  replayed-append_turn = elim (Bool-cases (ltb max (length (s.turns ++ turn ∷ [])))) [
    | inl q ↦
        let (c, t) = indices-over q in
        rw q (
          ap (λ l. drop (first_replayed (append_turn max turn acts s)) l) (turns-over q)
          ∙ ap
              (λ c'.
                drop (larger c' (append_turn max turn acts s).trimmed_turn_index)
                  (drop 1 (s.turns ++ turn ∷ [])))
              c
          ∙ ap (λ t'. drop (larger (s.compacted_turn_index - 1) t') (drop 1 (s.turns ++ turn ∷ [])))
              t
          ∙ ap (λ n. drop n (drop 1 (s.turns ++ turn ∷ [])))
              (larger-pred s.compacted_turn_index s.trimmed_turn_index)
          ∙ one_dropped (first_replayed s) s.turns turn first-small)
    | inr q ↦
        let g = Grown-append_turn q in
        rw q (
          ap (λ l. drop (first_replayed (append_turn max turn acts s)) l) g.turns
          ∙ ap
              (λ c.
                drop (larger c (append_turn max turn acts s).trimmed_turn_index)
                  (s.turns ++ turn ∷ []))
              g.compacted
          ∙ ap (λ t. drop (larger s.compacted_turn_index t) (s.turns ++ turn ∷ [])) g.trimmed
          ∙ drop-append (first_replayed s) s.turns (turn ∷ []) first-small)
  ]

-- Where every turn has its actions, the indices lie within the turns and the cap is positive and
-- respected, recording a turn keeps all that, and the turns that the agent is shown as they are become
-- the former ones followed by the new one, less the first of them if the cap is exceeded and nothing was
-- compacted or trimmed before.
pub turn_recorded :
    (max : ℕ) (turn : String × String) (actions : List String) (s : Session)
    → 1 ≤ max
    → IsAligned max s
    → IsAligned max (append_turn max turn actions s)
      × (replayed (append_turn max turn actions s) ≡ (
          if ltb max (length (s.turns ++ turn ∷ [])) && (first_replayed s == 0)
          then drop 1 (replayed s ++ turn ∷ [])
          else replayed s ++ turn ∷ []))
turn_recorded max turn actions s m h =
    (IsAligned-append_turn max turn actions s h m, replayed-append_turn max turn actions s h m)

-- A trim keeps the turns aligned and never lowers the index of the first turn that is left; if it raises
-- it, at least `keep_min_recent` turns are left. Afterwards no new input is reported. The summary is
-- gone if that index has reached the end of what it covers, and as it was if not.
pub session_trimmed :
    (max now new_trimmed_index keep_min_recent : ℕ) (s : Session)
    → IsAligned max s
    → let s' = trim_session now new_trimmed_index keep_min_recent s in
      IsAligned max s'
      × (s.trimmed_turn_index ≤ s'.trimmed_turn_index)
      × ((s'.trimmed_turn_index ≡ s.trimmed_turn_index)
          ⊎ (s'.trimmed_turn_index + keep_min_recent ≤ length s.turns))
      × (has_new_input_since_trim s' ≡ false)
      × ((s'.compacted_turn_index ≤ s'.trimmed_turn_index → s'.compacted_summary ≡ none)
          × (s'.trimmed_turn_index < s'.compacted_turn_index
              → s'.compacted_summary ≡ s.compacted_summary))
unfolding trim_session has_new_input_since_trim
session_trimmed max now new keep s h = (
  record {
    same_length = h.same_length;
    compacted_le = ground (arith, h.compacted_le, h.trimmed_le);
    trimmed_le = ground (arith, h.trimmed_le);
    capped = h.capped;
  },
  ground arith,
  ground (arith, h.trimmed_le),
  ground arith,
  ((λ q. ground (arith, q)), (λ q. ground (arith, q))),
)
