-- ===== src/ProveFlow/Inputs.antt =====
-- `assembleProofInputs` of frontend/src/lib/prove-flow.ts, with the answers of the issuer service that
-- it reads (frontend/src/lib/api/schemas.ts) and the inputs of the circuit (frontend/src/types/proof.ts).
pub mod WalletField
use zksettle.Base.{List, ℕ, map, if◌then◌else◌, Option, Bool, ◌++◌, reverse, none, ◌%◌, some}
use zksettle.Base.Text.{Text, codes, starts_with}
use zksettle.Base.Bytes.{from_le}
use zksettle.Base.Decimal.{decimal}

pub record Credential : Type 0 where
  pub wallet : List ℕ
  pub leaf_index : ℕ
  pub jurisdiction : Text
  pub issued_at : ℕ
  pub revoked : Bool

pub record MembershipProof : Type 0 where
  pub path : List Text
  pub path_indices : List ℕ

pub record SanctionsProof : Type 0 where
  pub path : List Text
  pub path_indices : List ℕ
  pub leaf_value : Text

pub record JurisdictionProof : Type 0 where
  pub path : List Text
  pub path_indices : List ℕ

pub record Roots : Type 0 where
  pub membership_root : Text
  pub sanctions_root : Text
  pub jurisdiction_root : Text

pub record ProofInputs : Type 0 where
  pub merkle_root : Text
  pub nullifier : Text
  pub mint_lo : Text
  pub mint_hi : Text
  pub epoch : Text
  pub recipient_lo : Text
  pub recipient_hi : Text
  pub amount : Text
  pub sanctions_root : Text
  pub jurisdiction_root : Text
  pub timestamp : Text
  pub wallet : Text
  pub path : List Text
  pub path_indices : List ℕ
  pub private_key : Text
  pub sanctions_path : List Text
  pub sanctions_path_indices : List ℕ
  pub sanctions_leaf_value : Text
  pub jurisdiction : Text
  pub jurisdiction_path : List Text
  pub jurisdiction_path_indices : List ℕ
  pub credential_expiry : Text

-- The parameter `transferContext`.
pub record TransferContext : Type 0 where
  pub nullifier : Text
  pub mint_lo : Text
  pub mint_hi : Text
  pub recipient_lo : Text
  pub recipient_hi : Text
  pub amount : Text
  pub epoch : Text
  pub private_key : Text
  pub credential_expiry : Text
  pub jurisdiction : Option Text
  pub jurisdiction_path : List Text
  pub jurisdiction_path_indices : List ℕ
  pub timestamp : Text

-- `v.startsWith("0x") ? v : "0x" + v`
unfoldable pub hex : Text → Text
unfolding starts_with
hex v = if starts_with v (codes "0x") then v else codes "0x" ++ v

abbrev pub bn254_modulus : ℕ
bn254_modulus = 21888242871839275222246405745257275088548364400416034343698204186575808495617

-- `bytes.reverse()` and the sum of `b << i * 8`: the wallet's bytes as one big-endian number.
unfoldable pub wallet_field : List ℕ → ℕ
wallet_field wallet = from_le (reverse (map (λ b. b % 256) wallet)) % bn254_modulus

unfoldable pub assemble_proof_inputs :
    Credential → MembershipProof → SanctionsProof → Roots → TransferContext → ProofInputs
unfolding hex wallet_field decimal
assemble_proof_inputs credential membership sanctions roots ctx = record {
  merkle_root = hex roots.membership_root;
  nullifier = ctx.nullifier;
  mint_lo = ctx.mint_lo;
  mint_hi = ctx.mint_hi;
  epoch = ctx.epoch;
  recipient_lo = ctx.recipient_lo;
  recipient_hi = ctx.recipient_hi;
  amount = ctx.amount;
  sanctions_root = hex roots.sanctions_root;
  jurisdiction_root = hex roots.jurisdiction_root;
  timestamp = ctx.timestamp;
  wallet = decimal (wallet_field credential.wallet);
  path = map hex membership.path;
  path_indices = membership.path_indices;
  private_key = ctx.private_key;
  sanctions_path = map hex sanctions.path;
  sanctions_path_indices = sanctions.path_indices;
  sanctions_leaf_value = hex sanctions.leaf_value;
  jurisdiction = elim ctx.jurisdiction [ none ↦ codes "1" | some j ↦ j ];
  jurisdiction_path = ctx.jurisdiction_path;
  jurisdiction_path_indices = ctx.jurisdiction_path_indices;
  credential_expiry = ctx.credential_expiry;
}
