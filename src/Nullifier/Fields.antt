-- ===== src/Nullifier/Fields.antt =====
-- `toField` of sdk/src/prove/nullifier.ts encodes the number that the text stands for.
use native.Mathlib.Nat.{pow-suc}
use zksettle.Base.Decimal.Value.{IsDigit, decimal-IsDigit}
use zksettle.Base.{
  zero, suc, some, [], ◌∷◌, false, refl, ok, err, Option, ℕ, All, ◌*◌, length, ◌<◌, ◌≡◌, ◌+◌, ◌^◌,
  ◌/◌, ◌++◌, arith, ◌%◌, ap, sym, replicate, lt→ltb, ◌≤◌, ◌∙◌, if◌then◌else◌, length-append, ◌-◌,
  ltb, length-replicate, All-append,
}
use zksettle.Base.Text.{Text, codes, starts_with}
use zksettle.Base.Bytes.{Bytes, IsByte, from_be}
use zksettle.Base.Decimal.{hex_of, hex_byte, digit, decimal}
use zksettle.Base.Int.{ℤ, pos}
use zksettle.Nullifier.{
  to_field, be_onto, parse_pairs, parse_hex, hex_digit, pad_hex, bn254_prime, out_of_field,
}

-- What `BigInt` does with decimal text and with hexadecimal text.
pub record Laws (big_int : Text → Option ℤ) : Type 0 where
  pub big_int-decimal : (n : ℕ) → big_int (decimal n) ≡ some (pos n)
  pub big_int-hex :
      (bs : Bytes) → All IsByte bs → big_int (codes "0x" ++ hex_of bs) ≡ some (pos (from_be 0 bs))

from_be-be_onto :
    (k n : ℕ) (out : Bytes) → n < 256 ^ k → from_be 0 (be_onto k n out) ≡ from_be n out
from_be-be_onto zero n out h = let z : n ≡ 0 = omega arith in ap (λ m. from_be m out) (sym z)
from_be-be_onto (suc k) n out h =
    let h' : n < 256 ^ k * 256 = rw (pow-suc 256 k) at h in
    let e : n / 256 * 256 + n % 256 ≡ n = omega arith in
    from_be-be_onto k (n / 256) ((n % 256) ∷ out) (omega arith) ∙ ap (λ m. from_be m out) e

length-be_onto : (k n : ℕ) (out : Bytes) → length (be_onto k n out) ≡ k + length out
length-be_onto zero n out = omega arith
length-be_onto (suc k) n out = omega (arith, length-be_onto k (n / 256) ((n % 256) ∷ out))

pub hex_digit-digit : (n : ℕ) → n < 16 → hex_digit (digit n) ≡ some n
hex_digit-digit n h = ground arith

parse_hex-hex_byte : (b : ℕ) → IsByte b → parse_hex 0 (hex_byte b) ≡ b
parse_hex-hex_byte b h =
    rw (parse_hex, hex_digit-digit (b / 16) (omega arith), hex_digit-digit (b % 16) (omega arith))
      (omega arith)

parse_pairs-hex_of : (bs : Bytes) → All IsByte bs → parse_pairs (length bs) (hex_of bs) ≡ bs
parse_pairs-hex_of [] h = refl
parse_pairs-hex_of (b ∷ bs) (p, h) = λ i. parse_hex-hex_byte b p i ∷ parse_pairs-hex_of bs h i

hex_of-zeros :
    (m : ℕ) (bs : Bytes) → hex_of (replicate m 0 ++ bs) ≡ replicate (m + m) 48 ++ hex_of bs
hex_of-zeros zero bs = refl
hex_of-zeros (suc m) bs =
    let e : suc m + suc m ≡ suc (suc (m + m)) = omega arith in
    ap (λ t. 48 ∷ 48 ∷ t) (hex_of-zeros m bs) ∙ ap (λ k. replicate k 48 ++ hex_of bs) (sym e)

pub length-hex_of : (bs : Bytes) → length (hex_of bs) ≡ length bs + length bs
length-hex_of [] = omega arith
length-hex_of (b ∷ bs) = omega (arith, length-hex_of bs)

from_be-zeros : (m : ℕ) (bs : Bytes) → from_be 0 (replicate m 0 ++ bs) ≡ from_be 0 bs
from_be-zeros zero bs = refl
from_be-zeros (suc m) bs = from_be-zeros m bs

zeros-IsByte : (m : ℕ) → All IsByte (replicate m 0)
zeros-IsByte zero = tt
zeros-IsByte (suc m) = (omega arith, zeros-IsByte m)

-- The bytes at the end of a 32-byte buffer.
abbrev pub padded : Bytes → Bytes
padded bs = replicate (32 - length bs) 0 ++ bs

length-padded : (bs : Bytes) → length bs ≤ 32 → length (padded bs) ≡ 32
length-padded bs h = omega (
  arith,
  length-append (replicate (32 - length bs) 0) bs,
  length-replicate {A = ℕ} (32 - length bs) 0,
)

pad_hex-hex_of : (bs : Bytes) → length bs ≤ 32 → pad_hex (hex_of bs) ≡ hex_of (padded bs)
pad_hex-hex_of bs h =
    let e : 64 - length (hex_of bs) ≡ (32 - length bs) + (32 - length bs) =
      omega (arith, length-hex_of bs) in
    ap (λ k. replicate k 48 ++ hex_of bs) e ∙ sym (hex_of-zeros (32 - length bs) bs)

pub not_hex : (s : Text) → All IsDigit s → starts_with s (codes "0x") ≡ false
unfolding starts_with
not_hex [] h = refl
not_hex (c ∷ []) (p, h) = ground arith
not_hex (c ∷ d ∷ s) (p, (q, h)) = ground (arith, q)

module _ (big_int : Text → Option ℤ) (laws : Laws big_int) where
  -- Hexadecimal text of up to 32 bytes becomes these bytes, padded in front to 32, if their number is
  -- in the field, and the range error otherwise.
  pub to_field-hex :
      (bs : Bytes)
      → length bs ≤ 32
      → All IsByte bs
      → to_field big_int (codes "0x" ++ hex_of bs)
        ≡ (if ltb (from_be 0 bs) bn254_prime then ok (padded bs) else err out_of_field)
  unfolding to_field
  to_field-hex bs short h =
      let bytes : All IsByte (padded bs) =
        All-append IsByte (replicate (32 - length bs) 0) bs (zeros-IsByte (32 - length bs)) h in
      let number : big_int (codes "0x" ++ pad_hex (hex_of bs)) ≡ some (pos (from_be 0 bs)) =
        ap (λ t. big_int (codes "0x" ++ t)) (pad_hex-hex_of bs short)
        ∙ laws.big_int-hex (padded bs) bytes
        ∙ ap (λ n. some (pos n)) (from_be-zeros (32 - length bs) bs) in
      let buffer : parse_pairs 32 (pad_hex (hex_of bs)) ≡ padded bs =
        (λ i. parse_pairs (sym (length-padded bs short) i) (pad_hex-hex_of bs short i))
        ∙ parse_pairs-hex_of (padded bs) bytes in
      rw number (ap (λ b. if ltb (from_be 0 bs) bn254_prime then ok b else err out_of_field) buffer)

  -- Decimal text of a number in the field becomes 32 bytes that stand for it.
  pub to_field-decimal :
      (n : ℕ)
      → n < bn254_prime
      → (buf : Bytes) × (to_field big_int (decimal n) ≡ ok buf)
        × (length buf ≡ 32)
        × (from_be 0 buf ≡ n)
  unfolding to_field
  to_field-decimal n h = (
    be_onto 32 n [],
    rw (not_hex (decimal n) (decimal-IsDigit n), laws.big_int-decimal n, lt→ltb n bn254_prime h)
        refl,
    length-be_onto 32 n [] ∙ omega arith,
    from_be-be_onto 32 n [] (omega arith),
  )
