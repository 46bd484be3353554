-- ===== src/Base/Dict/Laws.antt =====
-- The laws of the dictionary operations.
use package.robotsix_chat.Base.Tests.{if◌then◌else◌, bit}
use package.robotsix_chat.Base.Lists.{elem}
use mathlib.Core.Bool.{Bool, true}
use mathlib.Core.List.{[], ◌∷◌}
use mathlib.Core.Option.{none, some}
use mathlib.Core.Path.{◌≡◌, refl}
use Prim.Native.Nat.{◌+◌, ◌≤◌}
use Prim.Native.String.{String}
use native.Mathlib.Omega.{arith}
use text.Mathlib.Text.{◌==◌}
use text.Mathlib.TextEquality.{eq_iff}
use package.robotsix_chat.Base.Dict.{Dict, get, put, remove, keys, count_values, get_or}

module _ {ℓ} {V : Type ℓ} where
  pub get-put :
      (j k : String) (v : V) (m : Dict V) → get j (put k v m) ≡ (if k == j then some v else get j m)
  unfolding get put
  get-put j k v [] = refl
  get-put j k v ((i, w) ∷ m) = ground (arith, eq_iff k j, eq_iff i k, eq_iff i j, get-put j k v m)

  pub get-put_same : (k : String) (v : V) (m : Dict V) → get k (put k v m) ≡ some v
  get-put_same k v m = ground (arith, get-put k k v m, eq_iff k k)

  pub get-put_at : (k j : String) (v : V) (m : Dict V) → j ≡ k → get k (put j v m) ≡ some v
  get-put_at k j v m p = ground (arith, get-put k j v m, p, eq_iff j k)

  pub get-remove :
      (j k : String) (m : Dict V) → get j (remove k m) ≡ (if k == j then none else get j m)
  unfolding get remove
  get-remove j k [] = ground arith
  get-remove j k ((i, w) ∷ m) = ground (arith, eq_iff k j, eq_iff i k, eq_iff i j, get-remove j k m)

  pub get_or-some : (k : String) (d v : V) (m : Dict V) → get k m ≡ some v → get_or k d m ≡ v
  get_or-some k d v m e = ground (arith, e)

  pub get_or-put :
      (j k : String) (d v : V) (m : Dict V)
      → get_or j d (put k v m) ≡ (if k == j then v else get_or j d m)
  get_or-put j k d v m = ground (arith, get-put j k v m)

  pub get_or-remove :
      (j k : String) (d : V) (m : Dict V)
      → get_or j d (remove k m) ≡ (if k == j then d else get_or j d m)
  get_or-remove j k d m = ground (arith, get-remove j k m)

  pub count_values-put :
      (p : V → Bool) (k : String) (v w : V) (m : Dict V)
      → get k m ≡ some w
      → count_values p (put k v m) + bit (p w) ≡ count_values p m + bit (p v)
  unfolding get put count_values
  count_values-put p k v w [] h = ground arith
  count_values-put p k v w ((i, u) ∷ m) h = ground (arith, count_values-put p k v w m)

  pub count_values-put_new :
      (p : V → Bool) (k : String) (v : V) (m : Dict V)
      → get k m ≡ none
      → count_values p (put k v m) ≡ count_values p m + bit (p v)
  unfolding get put count_values
  count_values-put_new p k v [] h = omega arith
  count_values-put_new p k v ((i, u) ∷ m) h = ground (arith, count_values-put_new p k v m)

  pub keys-put : (k : String) (v w : V) (m : Dict V) → get k m ≡ some w → keys (put k v m) ≡ keys m
  unfolding get put keys
  keys-put k v w [] h = ground arith
  keys-put k v w ((i, u) ∷ m) h = ground (arith, keys-put k v w m)

  pub count_values-pos :
      (p : V → Bool) (k : String) (v : V) (m : Dict V)
      → get k m ≡ some v
      → p v ≡ true
      → 1 ≤ count_values p m
  unfolding get count_values
  count_values-pos p k v [] h t = ground arith
  count_values-pos p k v ((i, u) ∷ m) h t = ground (arith, count_values-pos p k v m)

  pub elem-keys : (k : String) (v : V) (m : Dict V) → get k m ≡ some v → elem k (keys m) ≡ true
  unfolding get keys
  elem-keys k v [] h = ground arith
  elem-keys k v ((i, u) ∷ m) h = ground (arith, elem-keys k v m, eq_iff i k, eq_iff k i)

pub ruleset dict_laws = (get-put, get-remove)
