-- ===== src/Base/Decimal.antt =====
-- Numbers as text: `String(n)` and `n.toString(16).padStart(2, "0")`.
pub mod Value
use zksettle.Base.{ℕ, map, suc, ◌/◌, ◌+◌, [], ◌∷◌, ◌%◌, true, zero, false, ◌*◌, ◌-◌}
use zksettle.Base.Tests.{ltb, if◌then◌else◌}
use zksettle.Base.Lists.{concat}
use zksettle.Base.Text.{Text}
use zksettle.Base.Bytes.{Bytes}

abbrev pub digit : ℕ → ℕ
digit n = if ltb n 10 then 48 + n else 87 + n

-- The digits of `n` in a base, before `out`; a round strips one digit.
emit : ℕ → ℕ → ℕ → Text → Text
emit base zero n out = out
emit base (suc fuel) n out = elim (ltb n base) [
  | true ↦ digit n ∷ out
  | false ↦ emit base fuel (n / base) (digit (n % base) ∷ out)
]

-- `n.toString()`; `n + 1` rounds are enough.
unfoldable pub decimal : ℕ → Text
unfolding emit
decimal n = emit 10 (suc n) n []

-- Two hexadecimal digits of a byte.
abbrev pub hex_byte : ℕ → Text
hex_byte b = digit (b / 16) ∷ digit (b % 16) ∷ []

abbrev pub hex_of : Bytes → Text
hex_of bs = concat (map hex_byte bs)

-- The number that decimal digits print, behind `acc`: `new BN(digits)`.
abbrev pub digits_value : ℕ → Text → ℕ
digits_value acc [] = acc
digits_value acc (c ∷ s) = digits_value (acc * 10 + (c - 48)) s
