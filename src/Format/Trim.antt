-- ===== src/Format/Trim.antt =====
-- What the helpers of frontend/src/lib/stablecoin/format.ts do to text of digits and a dot: trailing
-- zeros, white space, the cut at the dot and leading zeros.
use zksettle.Base.Maybe.{some_inj}
use zksettle.Base.{
  zero, suc, none, some, [], ◌∷◌, true, false, inl, inr, refl, ℕ, take, replicate, ◌≤◌, List, ◌++◌,
  get_elem?, arith, ◌-◌, Option-cases, ◌≡◌, ap, Bool-cases, ◌==◌, length, reverse_onto, ◌⊎◌, All,
  ◌∙◌, reverse, length-take, ◌*◌, all, take_all, ◌+◌, sym, All-imp,
}
use zksettle.Base.Text.{Text}
use zksettle.Base.Decimal.{digits_value}
use zksettle.Base.Decimal.Value.{IsDigit}
use zksettle.Format.{
  trimmed_end, trim_trailing_zeros, zero_char, dot, is_space, drop_spaces, trim, split_dot,
  strip_zeros, is_digit,
}
use mathlib.Core.List.{append_assoc, append-nil}

take-suc :
    {A : Type 0} (n : ℕ) (xs : List A) (x : A)
    → get_elem? xs n ≡ some x
    → take (suc n) xs ≡ take n xs ++ x ∷ []
take-suc n [] x h = cc
take-suc zero (y ∷ xs) x h = ap (λ t. t ∷ []) (some_inj h)
take-suc (suc n) (y ∷ xs) x h = ap (λ t. y ∷ t) (take-suc n xs x h)

replicate-snoc : {A : Type 0} (n : ℕ) (a : A) → replicate n a ++ a ∷ [] ≡ replicate (suc n) a
replicate-snoc zero a = refl
replicate-snoc (suc n) a = ap (λ t. a ∷ t) (replicate-snoc n a)

trimmed_end_le : (s : Text) (e : ℕ) → trimmed_end s e ≤ e
unfolding trimmed_end
trimmed_end_le s zero = omega arith
trimmed_end_le s (suc e) = elim (Option-cases (get_elem? s e)) [
  | inl past ↦ rw (trimmed_end, past) (omega arith)
  | inr (c, there) ↦ elim (Bool-cases (c == zero_char)) [
    | inl same ↦ rw (trimmed_end, there, same) (omega (arith, trimmed_end_le s e))
    | inr other ↦ rw (trimmed_end, there, other) (omega arith)
  ]
]

trimmed_end_step :
    (s : Text) (e : ℕ)
    → (trimmed_end s (suc e) ≡ suc e)
      ⊎ ((get_elem? s e ≡ some zero_char) × (trimmed_end s (suc e) ≡ trimmed_end s e))
unfolding trimmed_end
trimmed_end_step s e = elim (Option-cases (get_elem? s e)) [
  | inl past ↦ rw (trimmed_end, past) (inl refl)
  | inr (c, there) ↦ elim (Bool-cases (c == zero_char)) [
    | inl same ↦
        let zero' : c ≡ zero_char = ground (arith, same) in
        inr (there ∙ ap some zero', rw (trimmed_end, there, same) refl)
    | inr other ↦ rw (trimmed_end, there, other) (inl refl)
  ]
]

-- Zeros put back behind the trimmed text give the text.
trimmed_end-restore :
    (s : Text) (e : ℕ)
    → take (trimmed_end s e) s ++ replicate (e - trimmed_end s e) zero_char ≡ take e s
unfolding trimmed_end
trimmed_end-restore s zero = refl
trimmed_end-restore s (suc e) = elim (trimmed_end_step s e) [
  | inl stays ↦
      let none_left : suc e - suc e ≡ 0 = omega arith in
      (λ i. take (stays i) s ++ replicate (suc e - stays i) zero_char)
      ∙ ap (λ k. take (suc e) s ++ replicate k zero_char) none_left
      ∙ append-nil (take (suc e) s)
  | inr (there, moves) ↦
      let k : ℕ = e - trimmed_end s e in
      let more : suc e - trimmed_end s e ≡ suc k = omega (arith, trimmed_end_le s e) in
      (λ i. take (moves i) s ++ replicate (suc e - moves i) zero_char)
      ∙ ap (λ n. take (trimmed_end s e) s ++ replicate n zero_char) more
      ∙ ap (λ t. take (trimmed_end s e) s ++ t) (sym (replicate-snoc k zero_char))
      ∙ sym (append_assoc (take (trimmed_end s e) s) (replicate k zero_char) (zero_char ∷ []))
      ∙ ap (λ t. t ++ zero_char ∷ []) (trimmed_end-restore s e)
      ∙ sym (take-suc e s zero_char there)
]

pub trim_trailing_zeros-restore :
    (s : Text)
    → trim_trailing_zeros s ++ replicate (length s - length (trim_trailing_zeros s)) zero_char ≡ s
unfolding trim_trailing_zeros
trim_trailing_zeros-restore s =
    let e : ℕ = trimmed_end s (length s) in
    let l : length (take e s) ≡ e = omega (arith, length-take e s, trimmed_end_le s (length s)) in
    ap (λ k. take e s ++ replicate (length s - k) zero_char) l
    ∙ trimmed_end-restore s (length s)
    ∙ take_all (length s) s (omega arith)

pub length-trim_trailing_zeros : (s : Text) → length (trim_trailing_zeros s) ≤ length s
unfolding trim_trailing_zeros
length-trim_trailing_zeros s = omega (arith, length-take (trimmed_end s (length s)) s)

All-take : (P : ℕ → Type 0) (n : ℕ) (s : Text) → All P s → All P (take n s)
All-take P zero s h = tt
All-take P (suc n) [] h = tt
All-take P (suc n) (c ∷ s) (p, h) = (p, All-take P n s h)

pub trim_trailing_zeros-IsDigit : (s : Text) → All IsDigit s → All IsDigit (trim_trailing_zeros s)
unfolding trim_trailing_zeros
trim_trailing_zeros-IsDigit s h = All-take IsDigit (trimmed_end s (length s)) s h

-- The characters of an amount: a digit or the dot.
abbrev pub IsAmountChar : ℕ → Type 0
IsAmountChar c = (c ≡ dot) ⊎ IsDigit c

IsAmountChar-is_space : (c : ℕ) → IsAmountChar c → is_space c ≡ false
IsAmountChar-is_space c h = ground (arith, h)

abbrev pub IsSolid : ℕ → Type 0
IsSolid c = is_space c ≡ false

drop_spaces-solid : (s : Text) → All IsSolid s → drop_spaces s ≡ s
unfolding drop_spaces
drop_spaces-solid [] h = refl
drop_spaces-solid (c ∷ s) (p, h) = rw p refl

All-reverse_onto :
    (P : ℕ → Type 0) (s acc : Text) → All P s → All P acc → All P (reverse_onto s acc)
All-reverse_onto P [] acc h k = k
All-reverse_onto P (c ∷ s) acc (p, h) k = All-reverse_onto P s (c ∷ acc) h (p, k)

reverse_onto-reverse_onto :
    (s a b : Text) → reverse_onto (reverse_onto s a) b ≡ reverse_onto a (s ++ b)
reverse_onto-reverse_onto [] a b = refl
reverse_onto-reverse_onto (c ∷ s) a b = reverse_onto-reverse_onto s (c ∷ a) b

-- `trim` leaves an amount as it is.
pub trim-solid : (s : Text) → All IsSolid s → trim s ≡ s
unfolding trim
trim-solid s h =
    ap (λ t. reverse (drop_spaces (reverse t))) (drop_spaces-solid s h)
    ∙ ap reverse (drop_spaces-solid (reverse s) (All-reverse_onto IsSolid s [] h tt))
    ∙ reverse_onto-reverse_onto s [] []
    ∙ append-nil s

pub trim-amount : (s : Text) → All IsAmountChar s → trim s ≡ s
trim-amount s h = trim-solid s (All-imp IsAmountChar-is_space s h)

IsDigit-dot : (c : ℕ) → IsDigit c → (c == dot) ≡ false
IsDigit-dot c h = ground (arith, h)

pub split_dot-digits : (s : Text) → All IsDigit s → split_dot s ≡ (s, none)
unfolding split_dot
split_dot-digits [] h = refl
split_dot-digits (c ∷ s) (p, h) = rw (IsDigit-dot c p, split_dot-digits s h) refl

pub split_dot-dot : (s t : Text) → All IsDigit s → split_dot (s ++ dot ∷ t) ≡ (s, some t)
unfolding split_dot
split_dot-dot [] t h = refl
split_dot-dot (c ∷ s) t (p, h) = rw (IsDigit-dot c p, split_dot-dot s t h) refl

pub all-is_digit : (s : Text) → All IsDigit s → all is_digit s ≡ true
all-is_digit [] h = refl
all-is_digit (c ∷ s) ((a, b), h) = ground (arith, all-is_digit s h)

pub digits_value-strip_zeros : (s : Text) → digits_value 0 (strip_zeros s) ≡ digits_value 0 s
unfolding strip_zeros
digits_value-strip_zeros [] = refl
digits_value-strip_zeros (c ∷ s) = elim (Bool-cases (c == zero_char)) [
  | inl same ↦
      let zero' : c ≡ zero_char = ground (arith, same) in
      rw same
        (digits_value-strip_zeros s ∙ ap (λ k. digits_value (0 * 10 + (k - 48)) s) (sym zero'))
  | inr other ↦ rw other refl
]
