-- ===== src/ProveFlow/Inputs/WalletField.antt =====
-- The wallet's field element in `assembleProofInputs` against the issuer's: `wallet_to_fr` of
-- backend/crates/issuer-service/src/convert.rs reads the bytes big-endian, modulo the field's order.
use zksettle.Base.Decimal.Value.{digits_value-decimal}
use zksettle.Base.Decimal.{digits_value}
use zksettle.Base.{refl, List, ℕ, All, ◌≡◌, map, ◌%◌, ◌∷◌, ap, [], ◌∙◌, arith}
use zksettle.Base.Bytes.{from_be, from_le-reverse_onto, IsByte}
use zksettle.ProveFlow.Inputs.{
  wallet_field, bn254_modulus, assemble_proof_inputs, Credential, MembershipProof, SanctionsProof,
  Roots, TransferContext,
}

map-byte : (wallet : List ℕ) → All IsByte wallet → map (λ b. b % 256) wallet ≡ wallet
map-byte [] h = refl
map-byte (b ∷ wallet) (p, h) = let e : b % 256 ≡ b = omega arith in λ i. e i ∷ map-byte wallet h i

wallet_field-from_be :
    (wallet : List ℕ) → All IsByte wallet → wallet_field wallet ≡ from_be 0 wallet % bn254_modulus
unfolding wallet_field
wallet_field-from_be wallet h =
    rw (map-byte wallet h) (ap (λ n. n % bn254_modulus) (from_le-reverse_onto wallet []))

-- The circuit's wallet input, read as a decimal number, is the number that the issuer has put into the
-- membership tree for a credential of bytes: its bytes read big-endian, modulo the order of the field.
pub assemble_proof_inputs-wallet :
    (credential : Credential) (membership : MembershipProof) (sanctions : SanctionsProof)
    (roots : Roots) (ctx : TransferContext)
    → All IsByte credential.wallet
    → digits_value 0 (assemble_proof_inputs credential membership sanctions roots ctx).wallet
      ≡ from_be 0 credential.wallet % bn254_modulus
unfolding assemble_proof_inputs
assemble_proof_inputs-wallet credential membership sanctions roots ctx h =
    digits_value-decimal (wallet_field credential.wallet) ∙ wallet_field-from_be credential.wallet h
