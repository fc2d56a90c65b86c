-- ===== src/Base/Text/Decimal.antt =====
-- Numbers in decimal, as `format!` prints them.
use Prim.Native.Nat.{ℕ, zero, suc, ◌/◌, ◌%◌}
use Prim.Native.String.{String}
use mathlib.Core.Bool.{true, false}
use stdiod.Base.Tests.{ltb}
use stdiod.Base.Text.{append}

-- The first character of what is left of the digits after `n` of them.
unfoldable pub digit_in : String → ℕ → String
digit_in String.[] n = ""
digit_in (String.◌∷◌ c s) zero = String.◌∷◌ c ""
digit_in (String.◌∷◌ c s) (suc n) = digit_in s n

unfoldable pub decimal_from : ℕ → ℕ → String
decimal_from zero n = digit_in "0123456789" (n % 10)
decimal_from (suc fuel) n = elim (ltb n 10) [
  | true ↦ digit_in "0123456789" n
  | false ↦ append (decimal_from fuel (n / 10)) (digit_in "0123456789" (n % 10))
]

-- A number below 2 ^ 64 has at most twenty digits.
unfoldable pub decimal : ℕ → String
decimal n = decimal_from 20 n
