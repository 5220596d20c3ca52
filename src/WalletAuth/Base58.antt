-- ===== src/WalletAuth/Base58.antt =====
-- The digits that `encodeBase58` of frontend/src/lib/api/wallet-auth.ts computes.
use zksettle.Base.{
  zero, suc, [], ◌∷◌, inl, inr, refl, ℕ, ◌≡◌, List, ◌≤◌, ◌*◌, ◌+◌, ◌<◌, All, arith, ◌∙◌, ◌/◌,
  Bool-cases, ltb, ap, sym, ltb→lt,
}
use zksettle.Base.Bytes.{Bytes, from_be}
use zksettle.WalletAuth.{push_carry, add_byte, base58_digits}

-- The number of digits to the base 58, the least significant first.
abbrev pub value58 : List ℕ → ℕ
value58 [] = 0
value58 (d ∷ ds) = d + 58 * value58 ds

abbrev pub IsBase58 : ℕ → Type 0
IsBase58 d = d < 58

push_carry-value58 :
    (fuel c : ℕ) → c ≤ fuel → (value58 (push_carry fuel c) ≡ c) × All IsBase58 (push_carry fuel c)
push_carry-value58 zero c h = (omega arith, tt)
push_carry-value58 (suc fuel) c h = elim (Bool-cases (ltb 0 c)) [
  | inr none_left ↦
      let z : c ≡ 0 = ground (arith, none_left) in rw (push_carry, none_left) (sym z, tt)
  | inl more ↦
      let pos : 0 < c = ltb→lt 0 c more in
      let (value, small) = push_carry-value58 fuel (c / 58) (omega arith) in
      rw (push_carry, more) (omega (arith, value), (omega arith, small))
]

add_byte-value58 :
    (ds : List ℕ) (carry : ℕ)
    → (value58 (add_byte ds carry) ≡ 256 * value58 ds + carry) × All IsBase58 (add_byte ds carry)
add_byte-value58 [] carry =
    let (value, small) = push_carry-value58 carry carry (omega arith) in
    (omega (arith, value), small)
add_byte-value58 (d ∷ ds) carry =
    let (value, small) = add_byte-value58 ds ((carry + d * 256) / 58) in
    (omega (arith, value), (omega arith, small))

base58_digits-from :
    (ds : List ℕ) (bytes : Bytes)
    → All IsBase58 ds
    → (value58 (base58_digits ds bytes) ≡ from_be (value58 ds) bytes)
      × All IsBase58 (base58_digits ds bytes)
base58_digits-from ds [] h = (refl, h)
base58_digits-from ds (b ∷ bytes) h =
    let (value, small) = add_byte-value58 ds b in
    let (rest, all_small) = base58_digits-from (add_byte ds b) bytes small in
    let e : value58 (add_byte ds b) ≡ value58 ds * 256 + b = omega (arith, value) in
    (rest ∙ ap (λ n. from_be n bytes) e, all_small)

-- The digits stand for the same number as the bytes, and each is below 58.
pub base58_digits-value58 :
    (bytes : Bytes)
    → (value58 (base58_digits (0 ∷ []) bytes) ≡ from_be 0 bytes)
      × All IsBase58 (base58_digits (0 ∷ []) bytes)
base58_digits-value58 bytes = base58_digits-from (0 ∷ []) bytes (omega arith, tt)
