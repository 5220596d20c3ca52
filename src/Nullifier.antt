-- ===== src/Nullifier.antt =====
-- sdk/src/prove/nullifier.ts: the seven field elements that the nullifier hashes. `BigInt(text)` is a
-- parameter, `none` for its SyntaxError; the hash itself is a library's.
pub mod Fields
use zksettle.Base.{
  ◌>>=◌, zero, suc, none, some, [], ◌∷◌, true, false, Option, ℕ, replicate, if◌then◌else◌, ◌*◌,
  List, take, ◌/◌, Result, ◌-◌, ◌+◌, leb, err, length, ok, ◌%◌, drop, ◌++◌, ◌&&◌, ltb,
}
use zksettle.Base.Text.{Text, codes, starts_with}
use zksettle.Base.Bytes.{Bytes}
use zksettle.Base.Int.{ℤ, pos, negsuc}

pub data FieldError : Type 0 where
  syntax_error out_of_field : FieldError

abbrev pub bn254_prime : ℕ
bn254_prime = 21888242871839275222246405745257275088548364400416034343698204186575808495617

-- The low `k` bytes of `n`, the most significant first: `buf[i] = n >> (31 - i) * 8 & 0xff`.
abbrev pub be_onto : ℕ → ℕ → Bytes → Bytes
be_onto zero n out = out
be_onto (suc k) n out = be_onto k (n / 256) ((n % 256) ∷ out)

abbrev pub hex_digit : ℕ → Option ℕ
hex_digit c =
    if leb 48 c && leb c 57
    then some (c - 48)
    else if leb 97 c && leb c 102
    then some (c - 87)
    else if leb 65 c && leb c 70
    then some (c - 55)
    else none

-- `Number.parseInt(text, 16)` reads digits as far as there are; `NaN` is stored as 0.
abbrev pub parse_hex : ℕ → Text → ℕ
parse_hex acc [] = acc
parse_hex acc (c ∷ s) = elim (hex_digit c) [ none ↦ acc | some d ↦ parse_hex (acc * 16 + d) s ]

-- `buf[i] = Number.parseInt(hex.slice(i * 2, i * 2 + 2), 16)` for `k` bytes.
abbrev pub parse_pairs : ℕ → Text → Bytes
parse_pairs zero s = []
parse_pairs (suc k) s = parse_hex 0 (take 2 s) ∷ parse_pairs k (drop 2 s)

abbrev pub pad_hex : Text → Text
pad_hex s = replicate (64 - length s) 48 ++ s

-- The check `n < 0n || n >= BN254_MODULUS`, and the buffer behind it.
abbrev pub in_field : Option ℤ → (ℕ → Bytes) → Result FieldError Bytes
in_field none buf = err syntax_error
in_field (some (negsuc n)) buf = err out_of_field
in_field (some (pos n)) buf = if ltb n bn254_prime then ok (buf n) else err out_of_field

module _ (big_int : Text → Option ℤ) where
  unfoldable pub to_field : Text → Result FieldError Bytes
  unfolding starts_with
  to_field value =
      let digits = pad_hex (drop 2 value) in
      if starts_with value (codes "0x")
      then in_field (big_int (codes "0x" ++ digits)) (λ _. parse_pairs 32 digits)
      else in_field (big_int value) (λ n. be_onto 32 n [])

  -- The inputs of the hash, in the circuit's order: private key, mint, epoch, recipient and amount.
  unfoldable pub nullifier_fields : List Text → Result FieldError (List Bytes)
  unfolding to_field
  nullifier_fields [] = ok []
  nullifier_fields (v ∷ vs) = do
    field ← to_field v
    fields ← nullifier_fields vs
    ok (field ∷ fields)
