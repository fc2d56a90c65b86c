-- ===== src/Base/Assoc.antt =====
-- Maps with text keys as association lists. `insert` writes a `HashMap` in place, and
-- `insert_sorted` keeps the key order in which a `BTreeMap` is iterated.
use Prim.Native.String.{String, compare}
use Prim.Native.Nat.{Ordering}
use mathlib.Core.Path.{◌≡◌, refl}
use mathlib.Core.Bool.{Bool, true, false}
use mathlib.Core.Option.{Option, none, some}
use mathlib.Core.List.{List, [], ◌∷◌}
use mathlib.Core.Logic.{◌⊎◌}
use native.Mathlib.Omega.{arith}
use text.Mathlib.Text.{◌==◌}
use text.Mathlib.TextEquality.{eq_iff}
use stdiod.Base.Tests.{if◌then◌else◌, or_else}

module _ {ℓ} {V : Type ℓ} where
  unfoldable pub lookup : String → List (String × V) → Option V
  lookup k [] = none
  lookup k ((j, v) ∷ m) = if j == k then some v else lookup k m

  unfoldable pub insert : String → V → List (String × V) → List (String × V)
  insert k v [] = (k, v) ∷ []
  insert k v ((j, w) ∷ m) = if j == k then (k, v) ∷ m else (j, w) ∷ insert k v m

  unfoldable pub insert_sorted : String → V → List (String × V) → List (String × V)
  insert_sorted k v [] = (k, v) ∷ []
  insert_sorted k v ((j, w) ∷ m) = elim (compare j k) [
    | Ordering.lt ↦ (j, w) ∷ insert_sorted k v m
    | Ordering.eq ↦ (k, v) ∷ m
    | Ordering.gt ↦ (k, v) ∷ (j, w) ∷ m
  ]

  unfoldable pub remove : String → List (String × V) → List (String × V)
  remove k [] = []
  remove k ((j, v) ∷ m) = let rest = remove k m in if j == k then rest else (j, v) ∷ rest

  -- `a.extend(b)` on a `BTreeMap`: the pairs of `b` in their order.
  unfoldable pub extend : List (String × V) → List (String × V) → List (String × V)
  extend m [] = m
  extend m ((k, v) ∷ more) = extend (insert_sorted k v m) more

  unfoldable pub keys : List (String × V) → List String
  keys [] = []
  keys ((k, v) ∷ m) = k ∷ keys m

  unfoldable pub values : List (String × V) → List V
  values [] = []
  values ((k, v) ∷ m) = v ∷ values m

  abbrev pub is_empty : List (String × V) → Bool
  is_empty [] = true
  is_empty (e ∷ m) = false

  -- Every key stands once.
  abbrev pub Distinct : List (String × V) → Type ℓ
  Distinct [] = Unit
  Distinct ((k, v) ∷ m) = (lookup k m ≡ none) × Distinct m

  pub lookup-insert :
      (key sought : String) (value : V) (entries : List (String × V))
      → lookup sought (insert key value entries)
        ≡ (if key == sought then some value else lookup sought entries)
  unfolding lookup insert
  lookup-insert key sought value [] = refl
  lookup-insert key sought value ((first, old) ∷ rest) = ground (
    arith,
    lookup-insert key sought value rest,
    eq_iff first key,
    eq_iff first sought,
    eq_iff key sought,
  )

  pub lookup-insert_sorted :
      (k j : String) (v : V) (m : List (String × V))
      → lookup j (insert_sorted k v m) ≡ (if k == j then some v else lookup j m)
  unfolding lookup insert_sorted
  lookup-insert_sorted k j v [] = refl
  lookup-insert_sorted k j v ((i, w) ∷ m) =
      ground (arith, eq_iff k j, eq_iff i k, eq_iff i j, lookup-insert_sorted k j v m)

  pub lookup-remove :
      (k j : String) (m : List (String × V))
      → lookup j (remove k m) ≡ (if k == j then none else lookup j m)
  unfolding lookup remove
  lookup-remove k j [] = ground arith
  lookup-remove k j ((i, v) ∷ m) =
      ground (arith, lookup-remove k j m, eq_iff i k, eq_iff i j, eq_iff k j)

  pub insert-Distinct :
      (k : String) (v : V) (m : List (String × V)) → Distinct m → Distinct (insert k v m)
  unfolding insert
  insert-Distinct k v [] d = (unfold lookup in refl, tt)
  insert-Distinct k v ((i, w) ∷ m) d =
      ground (arith, eq_iff i k, eq_iff k i, lookup-insert k i v m, insert-Distinct k v m d.1)

  pub remove-Distinct : (k : String) (m : List (String × V)) → Distinct m → Distinct (remove k m)
  unfolding remove
  remove-Distinct k [] d = tt
  remove-Distinct k ((i, w) ∷ m) d =
      ground (arith, eq_iff i k, eq_iff k i, lookup-remove k i m, remove-Distinct k m d.1)

  -- The pairs of the second map win, the other keys of the first stay.
  pub lookup-extend :
      (j : String) (m more : List (String × V))
      → Distinct more
      → lookup j (extend m more) ≡ or_else (lookup j more) (lookup j m)
  unfolding extend lookup
  lookup-extend j m [] d = refl
  lookup-extend j m ((k, v) ∷ more) d = ground (
    arith,
    eq_iff k j,
    lookup-extend j (insert_sorted k v m) more d.1,
    lookup-insert_sorted k j v m,
  )

  pub lookup-insert_cases :
      (j k : String) (v c : V) (m : List (String × V))
      → lookup k (insert j v m) ≡ some c
      → ((j ≡ k) × (v ≡ c)) ⊎ (lookup k m ≡ some c)
  lookup-insert_cases j k v c m h = ground (arith, lookup-insert j k v m, eq_iff j k)
