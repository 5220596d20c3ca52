-- ===== src/Stablecoin/Accounts.antt =====
-- sdk/src/stablecoin/accounts.ts: the decoders of the two accounts. `readUInt8` and
-- `readBigUInt64LE` throw past the end of the buffer; `subarray` clamps.
pub mod Layout
pub mod RoundTrip
pub mod Outcome
use zksettle.Base.{
  ℕ, ◌+◌, ◌-◌, ◌^◌, Bool, true, not, Option, none, some, ltb, ◌==◌, if◌then◌else◌, length, Result,
  ok, err, guard, or_throw, ◌>>=◌, ◌>>◌,
}
use zksettle.Base.Bytes.{Bytes, subarray, read_u8, read_u64_le, bytes_eq}
use zksettle.Base.Int.{ℤ, pos, negsuc}
use zksettle.Web3.{Web3}
use zksettle.Stablecoin.Constants.{disc_treasury, disc_redemption_request}

pub record Treasury (Key : Type 0) : Type 0 where
  pub admin : Key
  pub operator : Key
  pub mint : Key
  pub mint_authority_bump : ℕ
  pub freeze_authority_bump : ℕ
  pub bump : ℕ
  pub total_minted : ℕ
  pub total_burned : ℕ
  pub decimals : ℕ
  pub paused : Bool
  pub pending_admin : Option Key
  pub mint_cap : ℕ
  pub redemption_nonce : ℕ
  pub escrow_authority_bump : ℕ

pub record RedemptionRequest (Key : Type 0) : Type 0 where
  pub holder : Key
  pub treasury : Key
  pub mint : Key
  pub token_account : Key
  pub amount : ℕ
  pub nonce : ℕ
  pub requested_at : ℤ
  pub bump : ℕ

-- The errors that the decoders throw; `out_of_range` is Node's `RangeError`.
pub data DecodeError : Type 0 where
  too_short : ℕ → DecodeError
  invalid_discriminator out_of_range : DecodeError

abbrev pub treasury_account_size : ℕ
treasury_account_size = 8 + 167

abbrev pub treasury_min_data_len : ℕ
treasury_min_data_len = 8 + 135

abbrev pub redemption_request_data_len : ℕ
redemption_request_data_len = 8 + 153

-- `readBigInt64LE`: the same eight bytes in two's complement.
abbrev pub signed64 : ℕ → ℤ
signed64 n = if ltb n (2 ^ 63) then pos n else negsuc (2 ^ 64 - n - 1)

module _ (w : Web3) where
  open w use {PublicKey, public_key}

  -- The part of `decodeTreasury` behind `pendingAdmin`, at the offset where it starts.
  pub decode_treasury_tail :
      Bytes
      → ℕ
      → (Option PublicKey → ℕ → ℕ → ℕ → Treasury PublicKey)
      → Option PublicKey
      → Result DecodeError (Treasury PublicKey)
  decode_treasury_tail data' offset finish pending_admin = do
    mint_cap ← or_throw (read_u64_le data' offset) out_of_range
    let offset = offset + 8
    redemption_nonce ← or_throw (read_u64_le data' offset) out_of_range
    let offset = offset + 8
    escrow_authority_bump ← or_throw (read_u8 data' offset) out_of_range
    ok (finish pending_admin mint_cap redemption_nonce escrow_authority_bump)

  pub decode_treasury : Bytes → Result DecodeError (Treasury PublicKey)
  unfolding decode_treasury_tail
  decode_treasury data' = do
    guard (not (ltb (length data') treasury_min_data_len)) (too_short (length data'))
    guard (bytes_eq (subarray data' 0 8) disc_treasury) invalid_discriminator
    let offset : ℕ = 8
    let admin = public_key (subarray data' offset 32)
    let offset = offset + 32
    let operator = public_key (subarray data' offset 32)
    let offset = offset + 32
    let mint = public_key (subarray data' offset 32)
    let offset = offset + 32
    mint_authority_bump ← or_throw (read_u8 data' offset) out_of_range
    let offset = offset + 1
    freeze_authority_bump ← or_throw (read_u8 data' offset) out_of_range
    let offset = offset + 1
    bump ← or_throw (read_u8 data' offset) out_of_range
    let offset = offset + 1
    total_minted ← or_throw (read_u64_le data' offset) out_of_range
    let offset = offset + 8
    total_burned ← or_throw (read_u64_le data' offset) out_of_range
    let offset = offset + 8
    decimals ← or_throw (read_u8 data' offset) out_of_range
    let offset = offset + 1
    paused_byte ← or_throw (read_u8 data' offset) out_of_range
    let paused = not (paused_byte == 0)
    let offset = offset + 1
    pending_admin_tag ← or_throw (read_u8 data' offset) out_of_range
    let offset = offset + 1
    let finish =
        λ (pending_admin : Option PublicKey) (mint_cap : ℕ) (redemption_nonce : ℕ)
            (escrow_authority_bump : ℕ).
          let t : Treasury PublicKey = record {
            admin = admin;
            operator = operator;
            mint = mint;
            mint_authority_bump = mint_authority_bump;
            freeze_authority_bump = freeze_authority_bump;
            bump = bump;
            total_minted = total_minted;
            total_burned = total_burned;
            decimals = decimals;
            paused = paused;
            pending_admin = pending_admin;
            mint_cap = mint_cap;
            redemption_nonce = redemption_nonce;
            escrow_authority_bump = escrow_authority_bump;
          } in
          t
    if pending_admin_tag == 1
        then decode_treasury_tail data' (offset + 32) finish
            (some (public_key (subarray data' offset 32)))
        else decode_treasury_tail data' offset finish none

  unfoldable pub decode_redemption_request :
      Bytes → Result DecodeError (RedemptionRequest PublicKey)
  decode_redemption_request data' = do
    guard (not (ltb (length data') redemption_request_data_len)) (too_short (length data'))
    guard (bytes_eq (subarray data' 0 8) disc_redemption_request) invalid_discriminator
    let offset : ℕ = 8
    let holder = public_key (subarray data' offset 32)
    let offset = offset + 32
    let treasury = public_key (subarray data' offset 32)
    let offset = offset + 32
    let mint = public_key (subarray data' offset 32)
    let offset = offset + 32
    let token_account = public_key (subarray data' offset 32)
    let offset = offset + 32
    amount ← or_throw (read_u64_le data' offset) out_of_range
    let offset = offset + 8
    nonce ← or_throw (read_u64_le data' offset) out_of_range
    let offset = offset + 8
    requested_at ← or_throw (read_u64_le data' offset) out_of_range
    let offset = offset + 8
    bump ← or_throw (read_u8 data' offset) out_of_range
    ok (record {
      holder = holder;
      treasury = treasury;
      mint = mint;
      token_account = token_account;
      amount = amount;
      nonce = nonce;
      requested_at = signed64 requested_at;
      bump = bump;
    })
