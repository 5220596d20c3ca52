-- ===== src/Base/Decimal/Value.antt =====
-- Laws of decimal text: its digits, its length and the number that it prints.
use zksettle.Base.Tests.{Bool-cases, ltb, lt→ltb, ltb→lt, ltb-ge}
use zksettle.Base.Lists.{replicate, length, All}
use zksettle.Base.{
  ℕ, ◌<◌, ◌≤◌, ◌≡◌, ◌++◌, All, length, replicate, ◌^◌, ◌∷◌, ◌*◌, suc, ◌+◌, arith, Bool-cases, [],
  ◌-◌, ltb, zero, true, inl, refl, ltb→lt, inr, lt→ltb, ap, ◌/◌, ltb-ge, ◌%◌, ◌∙◌, false, sym,
}
use zksettle.Base.Decimal.{digit, emit, decimal, digits_value, ℕ}
use zksettle.Base.Text.{Text}
use native.Mathlib.Nat.{pow-suc}

abbrev pub IsDigit : ℕ → Type 0
IsDigit c = (48 ≤ c) × (c ≤ 57)

digit-small : (n : ℕ) → n < 10 → digit n ≡ 48 + n
digit-small n h = ground arith

emit-last : (fuel n : ℕ) (out : Text) → ltb n 10 ≡ true → emit 10 (suc fuel) n out ≡ digit n ∷ out
unfolding emit
emit-last fuel n out h =
    ap
      (λ b. elim b as (λ _. Text) [
        | true ↦ digit n ∷ out
        | false ↦ emit 10 fuel (n / 10) (digit (n % 10) ∷ out)
      ])
      h

emit-more :
    (fuel n : ℕ) (out : Text)
    → ltb n 10 ≡ false
    → emit 10 (suc fuel) n out ≡ emit 10 fuel (n / 10) (digit (n % 10) ∷ out)
unfolding emit
emit-more fuel n out h = rw (emit, h) refl

emit-value :
    (fuel n : ℕ) (out : Text) → n < fuel → digits_value 0 (emit 10 fuel n out) ≡ digits_value n out
unfolding emit
emit-value zero n out h = absurd (omega arith)
emit-value (suc fuel) n out h = elim (Bool-cases (ltb n 10)) [
  | inl small ↦
      let e : 0 * 10 + (digit n - 48) ≡ n = omega (arith, digit-small n (ltb→lt _ _ small)) in
      rw (emit-last _ _ _ small) (ap (λ m. digits_value m out) e)
  | inr large ↦
      let big = ltb-ge _ _ large in
      let e : n / 10 * 10 + (digit (n % 10) - 48) ≡ n =
        omega (arith, digit-small (n % 10) (omega arith)) in
      rw (emit-more _ _ _ large) (
        emit-value fuel (n / 10) (digit (n % 10) ∷ out) (omega arith)
        ∙ ap (λ m. digits_value m out) e)
]

pub digits_value-decimal : (n : ℕ) → digits_value 0 (decimal n) ≡ n
unfolding decimal
digits_value-decimal n = emit-value (suc n) n [] (omega arith)

emit-IsDigit :
    (fuel n : ℕ) (out : Text) → n < fuel → All IsDigit out → All IsDigit (emit 10 fuel n out)
unfolding emit
emit-IsDigit zero n out h k = k
emit-IsDigit (suc fuel) n out h k = elim (Bool-cases (ltb n 10)) [
  | inl small ↦
      let lt = ltb→lt _ _ small in
      rw (emit-last _ _ _ small)
        ((omega (arith, digit-small n lt), omega (arith, digit-small n lt)), k)
  | inr large ↦
      let big = ltb-ge _ _ large in
      let e = digit-small (n % 10) (omega arith) in
      rw (emit-more _ _ _ large) (
        emit-IsDigit fuel (n / 10) (digit (n % 10) ∷ out) (omega arith)
          ((omega (arith, e), omega (arith, e)), k))
]

pub decimal-IsDigit : (n : ℕ) → All IsDigit (decimal n)
unfolding decimal
decimal-IsDigit n = emit-IsDigit (suc n) n [] (omega arith) tt

emit-longer : (fuel n : ℕ) (out : Text) → length out ≤ length (emit 10 fuel n out)
unfolding emit
emit-longer zero n out = omega arith
emit-longer (suc fuel) n out = elim (Bool-cases (ltb n 10)) [
  | inl small ↦ rw (emit-last _ _ _ small) (omega arith)
  | inr large ↦
      rw (emit-more _ _ _ large) (omega (arith, emit-longer fuel (n / 10) (digit (n % 10) ∷ out)))
]

pub length-decimal_pos : (n : ℕ) → 0 < length (decimal n)
unfolding decimal emit
length-decimal_pos n = elim (Bool-cases (ltb n 10)) [
  | inl small ↦ rw (emit-last _ _ _ small) (omega arith)
  | inr large ↦
      rw (emit-more _ _ _ large) (omega (arith, emit-longer n (n / 10) (digit (n % 10) ∷ [])))
]

emit-short :
    (fuel n d : ℕ) (out : Text) → n < 10 ^ suc d → length (emit 10 fuel n out) ≤ suc d + length out
unfolding emit
emit-short zero n d out h = omega arith
emit-short (suc fuel) n zero out h =
    let small : ltb n 10 ≡ true = lt→ltb n 10 h in rw (emit-last _ _ _ small) (omega arith)
emit-short (suc fuel) n (suc d) out h = elim (Bool-cases (ltb n 10)) [
  | inl small ↦ rw (emit-last _ _ _ small) (omega arith)
  | inr large ↦
      let h' : n < 10 ^ suc d * 10 = rw (pow-suc 10 (suc d)) at h in
      rw (emit-more _ _ _ large)
        (omega (arith, emit-short fuel (n / 10) d (digit (n % 10) ∷ out) (omega arith)))
]

-- A number below `10 ^ d` has at most `d` digits.
pub length-decimal_le : (n d : ℕ) → n < 10 ^ suc d → length (decimal n) ≤ suc d
unfolding decimal
length-decimal_le n d h = omega (arith, emit-short (suc n) n d [] h)

pub digits_value-append :
    (acc : ℕ) (xs ys : Text) → digits_value acc (xs ++ ys) ≡ digits_value (digits_value acc xs) ys
digits_value-append acc [] ys = refl
digits_value-append acc (x ∷ xs) ys = digits_value-append (acc * 10 + (x - 48)) xs ys

shift_step : (acc y p v : ℕ) → (acc * 10 + y) * p + v ≡ acc * (p * 10) + ((0 * 10 + y) * p + v)
shift_step acc y p v = omega arith

-- What stands before digits counts with their number.
pub digits_value-shift :
    (acc : ℕ) (xs : Text) → digits_value acc xs ≡ acc * 10 ^ length xs + digits_value 0 xs
digits_value-shift acc [] = omega arith
digits_value-shift acc (x ∷ xs) =
    digits_value-shift (acc * 10 + (x - 48)) xs
    ∙ shift_step acc (x - 48) (10 ^ length xs) (digits_value 0 xs)
    ∙ sym (λ i. acc * pow-suc 10 (length xs) i + digits_value-shift (0 * 10 + (x - 48)) xs i)

pub digits_value-zeros :
    (n : ℕ) (s : Text) → digits_value 0 (replicate n 48 ++ s) ≡ digits_value 0 s
digits_value-zeros zero s = refl
digits_value-zeros (suc n) s = digits_value-zeros n s
