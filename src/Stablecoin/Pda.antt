-- ===== src/Stablecoin/Pda.antt =====
-- sdk/src/stablecoin/pda.ts: program addresses from seeds. `writeBigUInt64LE` throws unless the
-- number is a `u64`.
use zksettle.Stablecoin.Constants.{
  freeze_authority_seed, treasury_seed, escrow_authority_seed, mint_authority_seed, redemption_seed,
}
use zksettle.Base.{ℕ, [], ◌∷◌, Option, if◌then◌else◌, some, ltb, ◌^◌, none}
use zksettle.Base.Bytes.{Bytes, le_bytes}
use zksettle.Base.Int.{ℤ, pos, negsuc}
use zksettle.Base.Maybe.{◌>>=◌}
use zksettle.Web3.{Web3}

-- `Buffer.alloc(8)` and `writeBigUInt64LE(BigInt(value))`: a `RangeError` outside of `u64`.
unfoldable pub encode_u64 : ℤ → Option Bytes
encode_u64 (pos n) = if ltb n (2 ^ 64) then some (le_bytes 8 n) else none
encode_u64 (negsuc n) = none

module _ (w : Web3) where
  open w use {PublicKey, to_buffer, find_program_address}

  unfoldable pub find_treasury_pda : PublicKey → PublicKey → PublicKey × ℕ
  find_treasury_pda mint program_id =
      find_program_address (treasury_seed ∷ to_buffer mint ∷ []) program_id

  unfoldable pub find_mint_authority_pda : PublicKey → PublicKey → PublicKey × ℕ
  find_mint_authority_pda treasury program_id =
      find_program_address (mint_authority_seed ∷ to_buffer treasury ∷ []) program_id

  unfoldable pub find_freeze_authority_pda : PublicKey → PublicKey → PublicKey × ℕ
  find_freeze_authority_pda treasury program_id =
      find_program_address (freeze_authority_seed ∷ to_buffer treasury ∷ []) program_id

  unfoldable pub find_escrow_authority_pda : PublicKey → PublicKey → PublicKey × ℕ
  find_escrow_authority_pda treasury program_id =
      find_program_address (escrow_authority_seed ∷ to_buffer treasury ∷ []) program_id

  unfoldable pub find_redemption_pda :
      PublicKey → PublicKey → ℤ → PublicKey → Option (PublicKey × ℕ)
  find_redemption_pda treasury holder nonce program_id = do
    nonce_buf ← encode_u64 nonce
    some (
        find_program_address
          (redemption_seed ∷ to_buffer treasury ∷ to_buffer holder ∷ nonce_buf ∷ []) program_id)
