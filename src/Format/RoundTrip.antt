-- ===== src/Format/RoundTrip.antt =====
-- `parseAmountToUnits` reads back what `formatAmount` prints.
use native.Mathlib.Nat.{div-add-mod', mod-lt, one-le-pow}
use zksettle.Base.{
  zero, suc, some, [], ◌∷◌, true, false, inl, inr, refl, ℕ, All, ◌<◌, length, ◌≡◌, replicate, ◌+◌,
  ◌∙◌, ◌++◌, ◌^◌, ltb, sym, ◌≤◌, arith, ◌*◌, ap, ◌&&◌, ltb-false, All-append, length-append,
  length-replicate, all, ◌-◌, ◌/◌, ◌%◌, Bool-cases, lt→ltb, ◌==◌,
}
use zksettle.Base.Text.{Text}
use zksettle.Base.Decimal.{decimal, digits_value}
use zksettle.Base.Decimal.Value.{
  IsDigit, digits_value-decimal, decimal-IsDigit, length-decimal_pos, length-decimal_le,
  digits_value-append, digits_value-shift, digits_value-zeros,
}
use zksettle.Format.{
  pad_start, pad_end, dot, zero_char, trim_trailing_zeros, format_amount, parse_amount_to_units,
  is_digit,
}
use zksettle.Format.Trim.{
  IsAmountChar, trim-amount, split_dot-digits, split_dot-dot, all-is_digit,
  digits_value-strip_zeros, trim_trailing_zeros-restore, trim_trailing_zeros-IsDigit,
  length-trim_trailing_zeros,
}

amount_chars : (s : Text) → All IsDigit s → All IsAmountChar s
amount_chars [] h = tt
amount_chars (c ∷ s) (p, h) = (inr p, amount_chars s h)

is_digits-true :
    (s : Text) → All IsDigit s → 0 < length s → (ltb 0 (length s) && all is_digit s) ≡ true
is_digits-true s h pos = rw (lt→ltb 0 (length s) pos, all-is_digit s h) refl

-- Text without a dot.
parse-whole :
    (whole : Text) (d : ℕ)
    → All IsDigit whole
    → 0 < length whole
    → parse_amount_to_units whole d ≡ some (digits_value 0 (whole ++ pad_end [] d))
unfolding parse_amount_to_units
parse-whole whole d h pos =
    rw
      (
        trim-amount whole (amount_chars whole h),
        split_dot-digits whole h,
        is_digits-true whole h pos,
        ltb-false d 0 (omega arith),
      )
      (ap some (digits_value-strip_zeros (whole ++ pad_end [] d)))

parse-fraction :
    (whole fraction : Text) (d : ℕ)
    → All IsDigit whole
    → 0 < length whole
    → All IsDigit fraction
    → 0 < length fraction
    → length fraction ≤ d
    → parse_amount_to_units (whole ++ dot ∷ fraction) d
      ≡ some (digits_value 0 (whole ++ pad_end fraction d))
unfolding parse_amount_to_units
parse-fraction whole fraction d h pos k some' short =
    let chars : All IsAmountChar (whole ++ dot ∷ fraction) =
      All-append IsAmountChar whole (dot ∷ fraction) (amount_chars whole h)
        (inl refl, amount_chars fraction k) in
    rw
      (
        trim-amount (whole ++ dot ∷ fraction) chars,
        split_dot-dot whole fraction h,
        is_digits-true whole h pos,
        is_digits-true fraction k some',
        ltb-false d (length fraction) short,
      )
      (ap some (digits_value-strip_zeros (whole ++ pad_end fraction d)))

digits_value-replicate : (d : ℕ) → digits_value 0 (replicate d zero_char) ≡ 0
digits_value-replicate zero = refl
digits_value-replicate (suc d) = digits_value-replicate d

-- Digits behind a whole number.
value-of :
    (n : ℕ) (y : Text) (d v : ℕ)
    → length y ≡ d
    → digits_value 0 y ≡ v
    → digits_value 0 (decimal n ++ y) ≡ n * 10 ^ d + v
value-of n y d v l e =
    digits_value-append 0 (decimal n) y
    ∙ ap (λ k. digits_value k y) (digits_value-decimal n)
    ∙ digits_value-shift n y
    ∙ (λ i. n * 10 ^ l i + e i)

plus_zero : (n : ℕ) → n + 0 ≡ n
plus_zero n = omega arith

parse-decimal : (n d : ℕ) → parse_amount_to_units (decimal n) d ≡ some (n * 10 ^ d)
parse-decimal n d =
    parse-whole (decimal n) d (decimal-IsDigit n) (length-decimal_pos n)
    ∙ ap some (
        value-of n (pad_end [] d) d 0 (length-replicate (d - 0) zero_char ∙ omega arith)
          (digits_value-replicate (d - 0))
        ∙ plus_zero (n * 10 ^ d))

-- The fraction's digits, padded to the number of decimals.
length-pad_start : (f k : ℕ) → f < 10 ^ suc k → length (pad_start (decimal f) (suc k)) ≡ suc k
length-pad_start f k h = omega (
  arith,
  length-append (replicate (suc k - length (decimal f)) zero_char) (decimal f),
  length-replicate (suc k - length (decimal f)) zero_char,
  length-decimal_le f k h,
)

replicate-IsDigit : (n : ℕ) → All IsDigit (replicate n zero_char)
replicate-IsDigit zero = tt
replicate-IsDigit (suc n) = ((omega arith, omega arith), replicate-IsDigit n)

fs_pos : (fs : Text) (d f : ℕ) → digits_value 0 (pad_end fs d) ≡ f → 0 < f → 0 < length fs
fs_pos [] d f h pos =
    let empty : f ≡ 0 = sym h ∙ digits_value-replicate (d - 0) in absurd (omega (arith, empty, pos))
fs_pos (c ∷ fs) d f h pos = omega arith

parse-padded :
    (n f k : ℕ)
    → f < 10 ^ suc k
    → 0 < f
    → let fs = trim_trailing_zeros (pad_start (decimal f) (suc k)) in
      (0 < length fs)
      × (parse_amount_to_units (decimal n ++ dot ∷ fs) (suc k) ≡ some (n * 10 ^ suc k + f))
parse-padded n f k h pos =
    let padded : Text = pad_start (decimal f) (suc k) in
    let fs : Text = trim_trailing_zeros padded in
    let l : length padded ≡ suc k = length-pad_start f k h in
    let digits : All IsDigit padded =
      All-append IsDigit (replicate (suc k - length (decimal f)) zero_char) (decimal f)
        (replicate-IsDigit (suc k - length (decimal f))) (decimal-IsDigit f) in
    let restored : pad_end fs (suc k) ≡ padded =
      ap (λ m. fs ++ replicate (m - length fs) zero_char) (sym l)
      ∙ trim_trailing_zeros-restore padded in
    let value : digits_value 0 padded ≡ f =
      digits_value-zeros (suc k - length (decimal f)) (decimal f) ∙ digits_value-decimal f in
    let some' : 0 < length fs = fs_pos fs (suc k) f (ap (digits_value 0) restored ∙ value) pos in
    (
      some',
      parse-fraction (decimal n) fs (suc k) (decimal-IsDigit n) (length-decimal_pos n)
            (trim_trailing_zeros-IsDigit padded digits) some'
            (omega (arith, length-trim_trailing_zeros padded, l))
          ∙ ap (λ t. some (digits_value 0 (decimal n ++ t))) restored
          ∙ ap some (value-of n padded (suc k) f l value),
    )

-- `parseAmountToUnits` gives back the units that `formatAmount` prints, for any amount and any number
-- of decimals.
pub parse_amount_to_units-format_amount :
    (raw decimals : ℕ) → parse_amount_to_units (format_amount raw decimals) decimals ≡ some raw
unfolding format_amount
parse_amount_to_units-format_amount raw zero = parse-decimal raw 0 ∙ ap some (omega arith)
parse_amount_to_units-format_amount raw (suc k) =
    let p : ℕ = 10 ^ suc k in
    let whole : raw / p * p + raw % p ≡ raw = div-add-mod' raw p in
    let small : raw % p < p = mod-lt raw (one-le-pow (suc k) 10 (omega arith)) in
    let decimals : (suc k == 0) ≡ false = ground arith in
    elim (Bool-cases (raw % p == 0)) [
      | inl zero' ↦
          let none_left : raw % p ≡ 0 = ground (arith, zero') in
          rw (decimals, zero')
            (parse-decimal (raw / p) (suc k)
              ∙ ap some (
                  sym (plus_zero (raw / p * p))
                  ∙ ap (λ m. raw / p * p + m) (sym none_left)
                  ∙ whole))
      | inr more ↦
          let pos : 0 < raw % p = ground (arith, more) in
          let (some', parsed) = parse-padded (raw / p) (raw % p) k small pos in
          rw (decimals, more, lt→ltb 0 _ some') (parsed ∙ ap some whole)
    ]
