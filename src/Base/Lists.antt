-- ===== src/Base/Lists.antt =====
-- Lists measured by native numbers, and a predicate on all items.
use Prim.Native.Nat.{ℕ, suc, ◌+◌}
use mathlib.Core.Path.{◌≡◌}
use mathlib.Core.List.{List, [], ◌∷◌, ◌++◌}
use native.Mathlib.Omega.{arith}

module _ {ℓ} {A : Type ℓ} where
  abbrev pub length : List A → ℕ
  length [] = 0
  length (x ∷ xs) = suc (length xs)

  pub length-append : (xs ys : List A) → length (xs ++ ys) ≡ length xs + length ys
  length-append [] ys = omega arith
  length-append (x ∷ xs) ys = omega (arith, length-append xs ys)

abbrev pub All {ℓ κ} : {A : Type ℓ} → (A → Type κ) → List A → Type κ
All P [] = Unit
All P (x ∷ xs) = P x × All P xs

pub All-append {ℓ κ} :
    {A : Type ℓ} (Holds : A → Type κ) (front back : List A)
    → All Holds front
    → All Holds back
    → All Holds (front ++ back)
All-append Holds [] back here there = there
All-append Holds (item ∷ front) back here there = (here.0, All-append Holds front back here.1 there)

pub All-map {ℓ κ} :
    {A : Type ℓ} (P Q : A → Type κ) (items : List A)
    → ((item : A) → P item → Q item)
    → All P items
    → All Q items
All-map P Q [] step h = tt
All-map P Q (item ∷ items) step (here, there) = (step item here, All-map P Q items step there)
