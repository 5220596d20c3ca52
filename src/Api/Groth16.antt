-- ===== src/Api/Groth16.antt =====
-- `proveGroth16` of frontend/src/lib/api/endpoints.ts: what it makes of the prover's answer, which is its
-- headers and its body.
pub mod Split
use zksettle.Base.{
  or_throw, ◌>>=◌, ℕ, List, Option, Bool, Result, none, some, ok, err, true, false, [], ◌∷◌, ◌++◌,
  zero, suc, ◌+◌, ◌*◌, ◌-◌, ◌==◌, ltb, length, if◌then◌else◌, leb, ◌&&◌, not,
}
use zksettle.Base.Text.{Text, codes}
use zksettle.Base.Bytes.{Bytes, subarray}
use zksettle.Base.Decimal.{hex_of}
use zksettle.Base.Int.{ℤ, pos, negsuc}
use zksettle.Format.{drop_spaces, is_digit}
use zksettle.Api.Headers.{HeaderList, get}

-- The digits at the start of a text, behind `acc`.
abbrev pub leading_digits : ℕ → Text → ℕ
leading_digits acc [] = acc
leading_digits acc (c ∷ s) = elim (is_digit c) [
  | true ↦ leading_digits (acc * 10 + (c - 48)) s
  | false ↦ acc
]

abbrev pub negate : ℕ → ℤ
negate zero = pos zero
negate (suc n) = negsuc n

-- Digits behind the sign: at least one.
abbrev pub signed_digits : (ℕ → ℤ) → Text → Option ℤ
signed_digits sign [] = none
signed_digits sign (c ∷ s) = if is_digit c then some (sign (leading_digits 0 (c ∷ s))) else none

abbrev pub parse_signed : Text → Option ℤ
parse_signed [] = none
parse_signed (c ∷ s) =
    if c == b'-'
    then signed_digits negate s
    else if c == b'+'
    then signed_digits pos s
    else signed_digits pos (c ∷ s)

-- `Number.parseInt(text, 10)`; `none` is NaN.
unfoldable pub parse_int : Text → Option ℤ
unfolding drop_spaces
parse_int s = parse_signed (drop_spaces s)

abbrev pub groth16_witness_header_len : ℕ
groth16_witness_header_len = 12

abbrev pub groth16_field_len : ℕ
groth16_field_len = 32

abbrev pub groth16_num_public_inputs : ℕ
groth16_num_public_inputs = 11

abbrev pub groth16_public_witness_len : ℕ
groth16_public_witness_len = 12 + 11 * 32

abbrev pub groth16_proof_max_len : ℕ
groth16_proof_max_len = 4096

pub data Groth16Error : Type 0 where
  invalid_length_headers proof_out_of_bounds length_mismatch unexpected_witness_len : Groth16Error

pub record Groth16ProofBundle : Type 0 where
  pub proof : Bytes
  pub public_inputs : List Text

-- `n + w === length`
abbrev pub sums_to : ℕ → ℤ → ℕ → Bool
sums_to n (pos w) len = n + w == len
sums_to n (negsuc w) len = n == len + (w + 1)

abbrev pub is_witness_len : ℤ → Bool
is_witness_len (pos w) = w == groth16_public_witness_len
is_witness_len (negsuc w) = false

-- The loop over the fields: those left, and the offset of the next one.
unfoldable pub fields_from : ℕ → ℕ → Bytes → List Text
fields_from zero off body = []
fields_from (suc k) off body =
    (codes "0x" ++ hex_of (subarray body off groth16_field_len))
    ∷ fields_from k (off + groth16_field_len) body

-- The checks behind the parsed headers.
unfoldable pub check_lengths : ℤ → ℤ → Bytes → Result Groth16Error Groth16ProofBundle
unfolding fields_from
check_lengths (negsuc n) witness_len body = err proof_out_of_bounds
check_lengths (pos proof_len) witness_len body =
    if ltb groth16_proof_max_len proof_len
    then err proof_out_of_bounds
    else if not (sums_to proof_len witness_len (length body))
    then err length_mismatch
    else if not (is_witness_len witness_len)
    then err unexpected_witness_len
    else ok (record {
      proof = body;
      public_inputs = fields_from groth16_num_public_inputs 0 (
          subarray body (proof_len + groth16_witness_header_len)
            (groth16_public_witness_len - groth16_witness_header_len));
    })

unfoldable pub length_header : Text → HeaderList → Option ℤ
length_header name headers = parse_int (elim (get name headers) [ none ↦ [] | some v ↦ v ])

unfoldable pub read_groth16 : HeaderList → Bytes → Result Groth16Error Groth16ProofBundle
read_groth16 headers body = do
  proof_len ← or_throw (length_header (codes "x-proof-len") headers) invalid_length_headers
  witness_len ← or_throw (length_header (codes "x-witness-len") headers) invalid_length_headers
  check_lengths proof_len witness_len body
