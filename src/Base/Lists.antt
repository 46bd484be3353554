-- ===== src/Base/Lists.antt =====
-- Lists measured by native numbers, Python's slices and sets kept as lists.
use Prim.Native.Nat.{ℕ, zero, suc, ◌+◌, ◌-◌, ◌≤◌}
use Prim.Native.String.{String}
use mathlib.Core.Path.{◌≡◌, refl}
use mathlib.Core.Bool.{Bool, true, false, ◌||◌}
use mathlib.Core.List.{List, [], ◌∷◌, ◌++◌}
use mathlib.Core.Logic.{◌⊎◌}
use mathlib.Core.Option.{Option, none, some}
use native.Mathlib.Omega.{arith}
use text.Mathlib.Text.{◌==◌ as str_eq}
use text.Mathlib.TextEquality.{eq_iff}
use package.robotsix_chat.Base.Tests.{if◌then◌else◌, bit}

module _ {ℓ} {A : Type ℓ} where
  abbrev pub length : List A → ℕ
  length [] = 0
  length (x ∷ xs) = suc (length xs)

  abbrev pub drop : ℕ → List A → List A
  drop zero xs = xs
  drop (suc n) [] = []
  drop (suc n) (x ∷ xs) = drop n xs

  abbrev pub is_empty : List A → Bool
  is_empty [] = true
  is_empty (x ∷ xs) = false

  -- Python's `xs[-n:]` for a positive `n`.
  abbrev pub last_n : ℕ → List A → List A
  last_n n xs = drop (length xs - n) xs

  pub length-append : (xs ys : List A) → length (xs ++ ys) ≡ length xs + length ys
  length-append [] ys = omega arith
  length-append (x ∷ xs) ys = omega (arith, length-append xs ys)

  pub length-drop : (n : ℕ) (xs : List A) → length (drop n xs) ≡ length xs - n
  length-drop zero xs = omega arith
  length-drop (suc n) [] = omega arith
  length-drop (suc n) (x ∷ xs) = omega (arith, length-drop n xs)

  pub length-last_n : (n : ℕ) (xs : List A) → length (last_n n xs) ≤ n
  length-last_n n xs = omega (arith, length-drop (length xs - n) xs)

  -- Python's list comprehension with a test.
  abbrev pub keep_if : (A → Bool) → List A → List A
  keep_if p [] = []
  keep_if p (x ∷ xs) = if p x then x ∷ keep_if p xs else keep_if p xs

  abbrev pub count_if : (A → Bool) → List A → ℕ
  count_if p [] = 0
  count_if p (x ∷ xs) = bit (p x) + count_if p xs

  -- The first element that passes.
  abbrev pub find_if : (A → Bool) → List A → Option A
  find_if p [] = none
  find_if p (x ∷ xs) = if p x then some x else find_if p xs

  -- Python's `any` with a test.
  abbrev pub any_if : (A → Bool) → List A → Bool
  any_if p [] = false
  any_if p (x ∷ xs) = p x || any_if p xs

-- A Python set of texts is a list; membership is by `==`.
abbrev pub elem : String → List String → Bool
elem s [] = false
elem s (x ∷ xs) = str_eq s x || elem s xs

pub elem-cons :
    (s x : String) (xs : List String) → elem s (x ∷ xs) ≡ true → (x ≡ s) ⊎ (elem s xs ≡ true)
elem-cons s x xs h = ground (arith, eq_iff s x)

-- `set.add`
unfoldable pub set_add : String → List String → List String
set_add s xs = if elem s xs then xs else xs ++ s ∷ []

-- `set.discard`
unfoldable pub discard : String → List String → List String
discard s [] = []
discard s (x ∷ xs) = let rest = discard s xs in if str_eq s x then rest else x ∷ rest

pub elem-append : (s : String) (xs ys : List String) → elem s (xs ++ ys) ≡ (elem s xs || elem s ys)
elem-append s [] ys = refl
elem-append s (x ∷ xs) ys = ground (arith, elem-append s xs ys)

pub elem-set_add :
    (s t : String) (xs : List String) → elem s (set_add t xs) ≡ (str_eq s t || elem s xs)
unfolding set_add
elem-set_add s t xs = ground (arith, elem-append s xs (t ∷ []), eq_iff s t)

pub elem-discard :
    (s t : String) (xs : List String)
    → elem s (discard t xs) ≡ (if str_eq s t then false else elem s xs)
unfolding discard
elem-discard s t [] = ground arith
elem-discard s t (x ∷ xs) = ground (arith, elem-discard s t xs, eq_iff s t, eq_iff s x, eq_iff t x)
