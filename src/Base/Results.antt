-- ===== src/Base/Results.antt =====
-- Fallible code: a value or an error, with the binds that `do` blocks use.
use mathlib.Core.Path.{◌≡◌, refl}
use mathlib.Core.Logic.{◌⊎◌, inl, inr}
use mathlib.Core.Bool.{Bool, true, false}
use mathlib.Core.Option.{Option, none, some}

pub data Result {ℓ} (E : Type ℓ) (A : Type ℓ) : Type ℓ where
  ok : A → Result E A
  err : E → Result E A

infixl 5 ◌>>=◌ ◌>>◌
abbrev pub ◌>>=◌ {ℓ} : {E A B : Type ℓ} → Result E A → (A → Result E B) → Result E B
ok a >>= f = f a
err e >>= f = err e

abbrev pub ◌>>◌ {ℓ} : {E B : Type ℓ} → Result E (Unit {ℓ}) → Result E B → Result E B
m >> k = m >>= λ _. k

-- `ok_or(e)?`
abbrev pub or_fail {ℓ} : {E A : Type ℓ} → Option A → E → Result E A
or_fail none e = err e
or_fail (some a) e = ok a

-- `if !test { return Err(e) }`
abbrev pub require {ℓ} : {E : Type ℓ} → Bool → E → Result E (Unit {ℓ})
require true e = ok tt
require false e = err e

-- `map_err`
abbrev pub map_err {ℓ} : {E F A : Type ℓ} → (E → F) → Result E A → Result F A
map_err f (ok a) = ok a
map_err f (err e) = err (f e)

abbrev pub is_ok {ℓ} : {E A : Type ℓ} → Result E A → Bool
is_ok (ok a) = true
is_ok (err e) = false

pub Result-cases {ℓ} :
    {E A : Type ℓ} (r : Result E A) → ((a : A) × (r ≡ ok a)) ⊎ ((e : E) × (r ≡ err e))
Result-cases (ok a) = inl (a, refl)
Result-cases (err e) = inr (e, refl)

-- What a chain that succeeds went through.
pub bind-inv {ℓ} :
    {E A B : Type ℓ} (first : Result E A) (next : A → Result E B) (last : B)
    → (first >>= next) ≡ ok last
    → (mid : A) × (first ≡ ok mid) × (next mid ≡ ok last)
bind-inv (ok mid) next last done = (mid, refl, done)
bind-inv (err x) next last done = cc

pub map_err-inv {ℓ} :
    {E F A : Type ℓ} (f : E → F) (m : Result E A) (a : A) → map_err f m ≡ ok a → m ≡ ok a
map_err-inv f (ok x) a e = cc
map_err-inv f (err x) a e = cc

pub or_fail-inv {ℓ} :
    {E A : Type ℓ} (o : Option A) (x : E) (a : A) → or_fail o x ≡ ok a → o ≡ some a
or_fail-inv none x a e = cc
or_fail-inv (some y) x a e = cc

pub ok_inj {ℓ} : {E A : Type ℓ} {a b : A} → Path (Result E A) (ok a) (ok b) → a ≡ b
ok_inj e = cc
