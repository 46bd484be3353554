-- ===== src/Subsessions/Registry/Retention/Records.antt =====
-- A dictionary of records under their own ids, each id once, and lists of records with distinct ids.
use robotsix_chat.Base.{
  ℕ, suc, ◌+◌, String, Bool, true, false, ◌||◌, none, some, List, [], ◌∷◌, ◌≡◌, refl, ap, ◌∙◌,
  arith, str_eq, eq_iff, leb, keep_if, length, bit, Bool-cases, inl, inr,
}
use robotsix_chat.Base.Dict.{Dict, get, put, remove, values, count_values}
use robotsix_chat.Base.Dict.Laws.{get-put, get-remove}
use robotsix_chat.Subsessions.Model.{SubsessionInfo}
use robotsix_chat.Subsessions.Registry.Retention.{insert_by, sort_by}

abbrev pub Keyed : Dict SubsessionInfo → Type 0
Keyed [] = Unit {0}
Keyed ((k, i) ∷ d) = (i.id ≡ k) × (get k d ≡ none) × Keyed d

abbrev pub id_in : String → List SubsessionInfo → Bool
id_in s [] = false
id_in s (i ∷ is) = str_eq s i.id || id_in s is

-- Distinct ids, each the id of its record in the dictionary, and each record passing the test.
abbrev pub Listed : (SubsessionInfo → Bool) → Dict SubsessionInfo → List SubsessionInfo → Type 0
Listed p d [] = Unit {0}
Listed p d (i ∷ is) = (id_in i.id is ≡ false) × (get i.id d ≡ some i) × (p i ≡ true) × Listed p d is

pub own_id-Keyed :
    (k : String) (i : SubsessionInfo) (d : Dict SubsessionInfo)
    → Keyed d
    → get k d ≡ some i
    → i.id ≡ k
unfolding get
own_id-Keyed k i [] h e = absurd (ground (arith, e))
own_id-Keyed k i ((j, x) ∷ d) (own, once, rest) e = elim (Bool-cases (str_eq j k)) [
  | inl q ↦
      let same : x ≡ i = ground (arith, q, e) in
      let here : j ≡ k = ground (arith, q, eq_iff j k) in
      cc (own, ap (λ (y : SubsessionInfo). y.id) same, here)
  | inr q ↦ own_id-Keyed k i d rest (ground (arith, q, e))
]

pub Keyed-remove : (k : String) (d : Dict SubsessionInfo) → Keyed d → Keyed (remove k d)
unfolding remove
Keyed-remove k [] h = h
Keyed-remove k ((j, i) ∷ d) (own, once, rest) = elim (Bool-cases (str_eq j k)) [
  | inl q ↦ rw q (Keyed-remove k d rest)
  | inr q ↦ rw q (own, ground (arith, once, q, get-remove j k d), Keyed-remove k d rest)
]

pub Keyed-put : (i : SubsessionInfo) (d : Dict SubsessionInfo) → Keyed d → Keyed (put i.id i d)
unfolding put get
Keyed-put i [] h = (refl, refl, h)
Keyed-put i ((j, k) ∷ d) (own, once, rest) = elim (Bool-cases (str_eq j i.id)) [
  | inl q ↦ rw q (ground (arith, q, eq_iff j i.id), once, rest)
  | inr q ↦ rw q (
    own,
    ground (arith, once, q, get-put j i.id i d, eq_iff i.id j, eq_iff j i.id),
    Keyed-put i d rest,
  )
]

-- Removing a record takes one off the count of those that pass a test it passes.
pub count_values-remove :
    (p : SubsessionInfo → Bool) (k : String) (i : SubsessionInfo) (d : Dict SubsessionInfo)
    → Keyed d
    → get k d ≡ some i
    → count_values p (remove k d) + bit (p i) ≡ count_values p d
unfolding get remove count_values
count_values-remove p k i [] h e = absurd (ground (arith, e))
count_values-remove p k i ((j, l) ∷ d) (own, once, rest) e = elim (Bool-cases (str_eq j k)) [
  | inl q ↦ ground (arith, q, e, once, remove_absent k d, eq_iff j k)
  | inr q ↦ ground (arith, q, e, count_values-remove p k i d rest)
]
  where
    remove_absent : (k : String) (d : Dict SubsessionInfo) → get k d ≡ none → remove k d ≡ d
    remove_absent k [] e = refl
    remove_absent k ((j, l) ∷ d) e = ground (arith, e, remove_absent k d)

id_in-insert_by :
    (s : String) (key : SubsessionInfo → ℕ) (x : SubsessionInfo) (xs : List SubsessionInfo)
    → id_in s (insert_by key x xs) ≡ (str_eq s x.id || id_in s xs)
unfolding insert_by
id_in-insert_by s key x [] = refl
id_in-insert_by s key x (y ∷ ys) = ground (arith, id_in-insert_by s key x ys)

id_in-sort_by :
    (s : String) (key : SubsessionInfo → ℕ) (xs : List SubsessionInfo)
    → id_in s (sort_by key xs) ≡ id_in s xs
unfolding sort_by
id_in-sort_by s key [] = refl
id_in-sort_by s key (x ∷ xs) =
    ground (arith, id_in-insert_by s key x (sort_by key xs), id_in-sort_by s key xs)

length-insert_by :
    (key : SubsessionInfo → ℕ) (x : SubsessionInfo) (xs : List SubsessionInfo)
    → length (insert_by key x xs) ≡ suc (length xs)
unfolding insert_by
length-insert_by key x [] = refl
length-insert_by key x (y ∷ ys) = ground (arith, length-insert_by key x ys)

pub length-sort_by :
    (key : SubsessionInfo → ℕ) (xs : List SubsessionInfo) → length (sort_by key xs) ≡ length xs
unfolding sort_by
length-sort_by key [] = refl
length-sort_by key (x ∷ xs) =
    ground (arith, length-insert_by key x (sort_by key xs), length-sort_by key xs)

module _ (p : SubsessionInfo → Bool) where
  Listed-insert_by :
      (d : Dict SubsessionInfo) (key : SubsessionInfo → ℕ) (x : SubsessionInfo)
      (xs : List SubsessionInfo)
      → Listed p d (x ∷ xs)
      → Listed p d (insert_by key x xs)
  unfolding insert_by
  Listed-insert_by d key x [] h = h
  Listed-insert_by d key x (y ∷ ys) (fresh, here, pass, (fresh', here', pass', rest)) =
      elim (Bool-cases (leb (key x) (key y))) [
        | inl q ↦ rw q (fresh, here, pass, (fresh', here', pass', rest))
        | inr q ↦ rw q (
          ground (
            arith,
            id_in-insert_by y.id key x ys,
            fresh,
            fresh',
            eq_iff x.id y.id,
            eq_iff y.id x.id,
          ),
          here',
          pass',
          Listed-insert_by d key x ys (ground (arith, fresh), here, pass, rest),
        )
      ]

  pub Listed-sort_by :
      (d : Dict SubsessionInfo) (key : SubsessionInfo → ℕ) (xs : List SubsessionInfo)
      → Listed p d xs
      → Listed p d (sort_by key xs)
  unfolding sort_by
  Listed-sort_by d key [] h = h
  Listed-sort_by d key (x ∷ xs) (fresh, here, pass, rest) =
      Listed-insert_by d key x (sort_by key xs)
        (id_in-sort_by x.id key xs ∙ fresh, here, pass, Listed-sort_by d key xs rest)

  id_in-values :
      (k : String) (d : Dict SubsessionInfo)
      → Keyed d
      → get k d ≡ none
      → id_in k (keep_if p (values d)) ≡ false
  unfolding get values
  id_in-values k [] h e = refl
  id_in-values k ((j, i) ∷ d) (own, once, rest) e =
      ground (arith, own, e, id_in-values k d rest, eq_iff k i.id, eq_iff j k)

  Listed-cons :
      (k : String) (i : SubsessionInfo) (d : Dict SubsessionInfo) (is : List SubsessionInfo)
      → get k d ≡ none
      → Listed p d is
      → Listed p ((k, i) ∷ d) is
  unfolding get
  Listed-cons k i d [] e h = h
  Listed-cons k i d (x ∷ is) e (fresh, here, pass, rest) =
      (fresh, ground (arith, e, here, eq_iff k x.id), pass, Listed-cons k i d is e rest)

  pub Listed-values : (d : Dict SubsessionInfo) → Keyed d → Listed p d (keep_if p (values d))
  unfolding get values
  Listed-values [] h = h
  Listed-values ((k, i) ∷ d) (own, once, rest) =
      let tail = Listed-cons k i d (keep_if p (values d)) once (Listed-values d rest) in
      elim (Bool-cases (p i)) [
        | inr q ↦ rw q tail
        | inl q ↦
            rw q (rw own (id_in-values k d rest once), ground (arith, own, eq_iff k i.id), q, tail)
      ]

  pub length-values : (d : Dict SubsessionInfo) → length (keep_if p (values d)) ≡ count_values p d
  unfolding values count_values
  length-values [] = refl
  length-values ((k, i) ∷ d) = ground (arith, length-values d)

  pub Listed-remove :
      (i : SubsessionInfo) (is : List SubsessionInfo) (d : Dict SubsessionInfo)
      → id_in i.id is ≡ false
      → Listed p d is
      → Listed p (remove i.id d) is
  Listed-remove i [] d e h = h
  Listed-remove i (x ∷ is) d e (fresh, here, pass, rest) = (
    fresh,
    ground (arith, here, e, get-remove x.id i.id d, eq_iff i.id x.id, eq_iff x.id i.id),
    pass,
    Listed-remove i is d (ground (arith, e)) rest,
  )
