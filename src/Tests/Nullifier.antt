-- ===== src/Tests/Nullifier.antt =====
-- Runs of the theorems on the nullifier's fields, with a `BigInt` for digits only.
use zksettle.Base.{
  some, [], ◌∷◌, refl, ok, ◌++◌, Option, ap, ◌≡◌, ℕ, All, if◌then◌else◌, replicate, drop, ◌*◌,
  arith, ◌+◌, ◌/◌, ◌%◌, ◌∙◌,
}
use zksettle.Base.Text.{Text, codes, starts_with}
use zksettle.Base.Bytes.{Bytes, IsByte, from_be}
use zksettle.Base.Int.{ℤ, pos}
use zksettle.Base.Decimal.{decimal, digits_value, hex_of}
use zksettle.Base.Decimal.Value.{digits_value-decimal, decimal-IsDigit}
use zksettle.Nullifier.{to_field, parse_hex}
use zksettle.Nullifier.Fields.{Laws, not_hex, hex_digit-digit}

unfoldable pub big_int : Text → Option ℤ
unfolding starts_with
big_int s =
    if starts_with s (codes "0x")
    then some (pos (parse_hex 0 (drop 2 s)))
    else some (pos (digits_value 0 s))

parse_hex-hex_of :
    (bs : Bytes) (acc : ℕ) → All IsByte bs → parse_hex acc (hex_of bs) ≡ from_be acc bs
parse_hex-hex_of [] acc h = refl
parse_hex-hex_of (b ∷ bs) acc (p, h) =
    let e : (acc * 16 + b / 16) * 16 + b % 16 ≡ acc * 256 + b = omega arith in
    rw (parse_hex, hex_digit-digit (b / 16) (omega arith), hex_digit-digit (b % 16) (omega arith))
      (ap (λ n. parse_hex n (hex_of bs)) e ∙ parse_hex-hex_of bs (acc * 256 + b) h)

pub big_int-Laws : Laws big_int
unfolding big_int
big_int-Laws = record {
  big_int-decimal = λ n.
      rw (not_hex (decimal n) (decimal-IsDigit n))
        (ap (λ k. some (pos k)) (digits_value-decimal n));
  big_int-hex = λ bs h. ap (λ k. some (pos k)) (parse_hex-hex_of bs 0 h);
}

-- Hexadecimal text of 33 bytes with a zero in front passes the range check, but its last byte is lost.
to_field_long_test :
    to_field big_int (codes "0x" ++ hex_of (replicate 32 0 ++ 5 ∷ [])) ≡ ok (replicate 32 0)
unfolding to_field big_int
to_field_long_test = refl
