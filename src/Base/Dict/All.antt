-- ===== src/Base/Dict/All.antt =====
-- A predicate on every entry of a dictionary, and the keys and the size after each operation.
use package.robotsix_chat.Base.Tests.{if◌then◌else◌, Bool-cases}
use package.robotsix_chat.Base.Lists.{elem, length}
use mathlib.Core.Bool.{false, ◌||◌}
use mathlib.Core.List.{[], ◌∷◌, ◌++◌}
use mathlib.Core.Option.{some}
use mathlib.Core.Logic.{inl, inr}
use mathlib.Core.Path.{◌≡◌, refl, sym, subst}
use Prim.Native.Nat.{◌+◌, ◌≤◌}
use Prim.Native.String.{String}
use native.Mathlib.Omega.{arith}
use text.Mathlib.Text.{◌==◌}
use text.Mathlib.TextEquality.{eq_iff}
use package.robotsix_chat.Base.Dict.{Dict, get, put, remove, keys}

module _ {ℓ} {V : Type ℓ} where
  abbrev pub All {κ} : (String → V → Type κ) → Dict V → Type κ
  All P [] = Unit
  All P ((k, v) ∷ m) = P k v × All P m

  pub All-put {κ} :
      (P : String → V → Type κ) (k : String) (v : V) (m : Dict V)
      → P k v
      → All P m
      → All P (put k v m)
  unfolding put
  All-put P k v [] p h = (p, h)
  All-put P k v ((j, w) ∷ m) p h = elim (Bool-cases (j == k)) [
    | inl e ↦ rw e (subst (λ i. P i v) (sym ((eq_iff j k).0 e)) p, h.1)
    | inr e ↦ rw e (h.0, All-put P k v m p h.1)
  ]

  pub All-remove {κ} :
      (P : String → V → Type κ) (k : String) (m : Dict V) → All P m → All P (remove k m)
  unfolding remove
  All-remove P k [] h = h
  All-remove P k ((j, w) ∷ m) h = elim (Bool-cases (j == k)) [
    | inl e ↦ rw e (All-remove P k m h.1)
    | inr e ↦ rw e (h.0, All-remove P k m h.1)
  ]

  pub All-snoc {κ} :
      (P : String → V → Type κ) (k : String) (v : V) (m : Dict V)
      → P k v
      → All P m
      → All P (m ++ (k, v) ∷ [])
  All-snoc P k v [] p h = (p, h)
  All-snoc P k v ((j, w) ∷ m) p h = (h.0, All-snoc P k v m p h.1)

  pub All-get {κ} :
      (P : String → V → Type κ) (k : String) (v : V) (m : Dict V)
      → get k m ≡ some v
      → All P m
      → P k v
  unfolding get
  All-get P k v [] e h = absurd (cc e)
  All-get P k v ((j, w) ∷ m) e h = elim (Bool-cases (j == k)) [
    | inl q ↦ subst (λ i. P i v) ((eq_iff j k).0 q) (subst (P j) (ground (arith, e, q)) h.0)
    | inr q ↦ All-get P k v m (ground (arith, e, q)) h.1
  ]

  pub All-mono {κ} :
      (P Q : String → V → Type κ) (m : Dict V)
      → ((k : String) (v : V) → P k v → Q k v)
      → All P m
      → All Q m
  All-mono P Q [] f h = h
  All-mono P Q ((j, w) ∷ m) f h = (f j w h.0, All-mono P Q m f h.1)

  pub elem-keys-put :
      (j k : String) (v : V) (m : Dict V) → elem j (keys (put k v m)) ≡ (j == k || elem j (keys m))
  unfolding put keys
  elem-keys-put j k v [] = refl
  elem-keys-put j k v ((i, w) ∷ m) =
      ground (arith, elem-keys-put j k v m, eq_iff i k, eq_iff j k, eq_iff j i)

  pub elem-keys-remove :
      (j k : String) (m : Dict V)
      → elem j (keys (remove k m)) ≡ (if j == k then false else elem j (keys m))
  unfolding remove keys
  elem-keys-remove j k [] = ground arith
  elem-keys-remove j k ((i, w) ∷ m) =
      ground (arith, elem-keys-remove j k m, eq_iff i k, eq_iff j k, eq_iff j i)

  pub elem-keys-snoc :
      (j k : String) (v : V) (m : Dict V)
      → elem j (keys (m ++ (k, v) ∷ [])) ≡ (elem j (keys m) || j == k)
  unfolding keys
  elem-keys-snoc j k v [] = ground arith
  elem-keys-snoc j k v ((i, w) ∷ m) = ground (arith, elem-keys-snoc j k v m)

  pub length-put_present :
      (k : String) (v w : V) (m : Dict V) → get k m ≡ some w → length (put k v m) ≡ length m
  unfolding get put
  length-put_present k v w [] h = absurd (cc h)
  length-put_present k v w ((i, u) ∷ m) h = ground (arith, length-put_present k v w m)

  pub length-remove-le : (k : String) (m : Dict V) → length (remove k m) ≤ length m
  unfolding remove
  length-remove-le k [] = omega arith
  length-remove-le k ((i, u) ∷ m) = ground (arith, length-remove-le k m)

  pub length-remove_present :
      (k : String) (w : V) (m : Dict V) → get k m ≡ some w → length (remove k m) + 1 ≤ length m
  unfolding get remove
  length-remove_present k w [] h = absurd (cc h)
  length-remove_present k w ((i, u) ∷ m) h =
      ground (arith, length-remove_present k w m, length-remove-le k m)
