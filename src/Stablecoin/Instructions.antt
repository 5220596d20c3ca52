-- ===== src/Stablecoin/Instructions.antt =====
-- sdk/src/stablecoin/instructions.ts: one builder for each instruction of the stablecoin program.
-- `none` is the `RangeError` of Node's `write...` methods. `programId` is an argument; its default is
-- `stablecoin_program_id`. Amounts, nonces and caps are integers, as `BigInt` requires.
pub mod Command
pub mod Payload
pub mod Keys
pub mod Structs
use zksettle.Stablecoin.Encode.{
  TransactionInstruction, encode_disc_only, encode_disc_u8, encode_disc_u64, encode_disc_pubkey,
}
use zksettle.Stablecoin.Constants.{
  disc_set_operator, disc_propose_admin, disc_accept_admin, disc_cancel_pending_admin, disc_pause,
  disc_update_mint_cap, disc_unpause, disc_mint_tokens, disc_initialize_mint, disc_thaw_account,
  disc_freeze_account, disc_cancel_redemption, disc_request_redemption, disc_approve_redemption,
}
use zksettle.Stablecoin.Pda.{
  encode_u64, find_treasury_pda, find_freeze_authority_pda, find_mint_authority_pda,
  find_escrow_authority_pda, find_redemption_pda,
}
use zksettle.Base.{
  ℕ, ◌^◌, Bool, true, false, Option, none, some, List, [], ◌∷◌, ◌++◌, ltb, if◌then◌else◌,
}
use zksettle.Base.Bytes.{Bytes}
use zksettle.Base.Int.{ℤ, pos, negsuc}
use zksettle.Base.Maybe.{◌>>=◌}
use zksettle.Web3.{Web3}

module _ (w : Web3) where
  open w use {PublicKey, system_program, token_2022_program}

  pub build_initialize_mint_ix :
      PublicKey → PublicKey → ℤ → PublicKey → Option (TransactionInstruction PublicKey)
  build_initialize_mint_ix admin mint decimals program_id = do
    let (treasury, _) = find_treasury_pda w mint program_id
    let (mint_authority, _) = find_mint_authority_pda w treasury program_id
    let (freeze_authority, _) = find_freeze_authority_pda w treasury program_id
    let (escrow_authority, _) = find_escrow_authority_pda w treasury program_id
    data_bytes ← encode_disc_u8 disc_initialize_mint decimals
    some (record {
      program_id = program_id;
      keys =
          record { pubkey = admin; is_signer = true; is_writable = true }
          ∷ record { pubkey = mint; is_signer = false; is_writable = true }
          ∷ record { pubkey = treasury; is_signer = false; is_writable = true }
          ∷ record { pubkey = mint_authority; is_signer = false; is_writable = false }
          ∷ record { pubkey = freeze_authority; is_signer = false; is_writable = false }
          ∷ record { pubkey = escrow_authority; is_signer = false; is_writable = false }
          ∷ record { pubkey = token_2022_program; is_signer = false; is_writable = false }
          ∷ record { pubkey = system_program; is_signer = false; is_writable = false }
          ∷ [];
      data_bytes = data_bytes;
    })

  pub build_mint_tokens_ix :
      PublicKey → PublicKey → PublicKey → ℤ → PublicKey → Option (TransactionInstruction PublicKey)
  build_mint_tokens_ix operator mint destination amount program_id = do
    let (treasury, _) = find_treasury_pda w mint program_id
    let (mint_authority, _) = find_mint_authority_pda w treasury program_id
    data_bytes ← encode_disc_u64 disc_mint_tokens amount
    some (record {
      program_id = program_id;
      keys =
          record { pubkey = operator; is_signer = true; is_writable = false }
          ∷ record { pubkey = treasury; is_signer = false; is_writable = true }
          ∷ record { pubkey = mint; is_signer = false; is_writable = true }
          ∷ record { pubkey = mint_authority; is_signer = false; is_writable = false }
          ∷ record { pubkey = destination; is_signer = false; is_writable = true }
          ∷ record { pubkey = token_2022_program; is_signer = false; is_writable = false }
          ∷ [];
      data_bytes = data_bytes;
    })

  pub build_request_redemption_ix :
      PublicKey
      → PublicKey
      → PublicKey
      → ℤ
      → ℤ
      → PublicKey
      → Option (TransactionInstruction PublicKey)
  build_request_redemption_ix holder mint holder_token_account amount nonce program_id = do
    let (treasury, _) = find_treasury_pda w mint program_id
    let (escrow_authority, _) = find_escrow_authority_pda w treasury program_id
    let (freeze_authority, _) = find_freeze_authority_pda w treasury program_id
    (redemption_request, _) ← find_redemption_pda w treasury holder nonce program_id
    data_bytes ← encode_disc_u64 disc_request_redemption amount
    some (record {
      program_id = program_id;
      keys =
          record { pubkey = holder; is_signer = true; is_writable = true }
          ∷ record { pubkey = treasury; is_signer = false; is_writable = true }
          ∷ record { pubkey = mint; is_signer = false; is_writable = false }
          ∷ record { pubkey = holder_token_account; is_signer = false; is_writable = true }
          ∷ record { pubkey = redemption_request; is_signer = false; is_writable = true }
          ∷ record { pubkey = escrow_authority; is_signer = false; is_writable = false }
          ∷ record { pubkey = freeze_authority; is_signer = false; is_writable = false }
          ∷ record { pubkey = token_2022_program; is_signer = false; is_writable = false }
          ∷ record { pubkey = system_program; is_signer = false; is_writable = false }
          ∷ [];
      data_bytes = data_bytes;
    })

  pub build_approve_redemption_ix :
      PublicKey
      → PublicKey
      → PublicKey
      → PublicKey
      → ℤ
      → PublicKey
      → Option (TransactionInstruction PublicKey)
  build_approve_redemption_ix operator holder mint holder_token_account nonce program_id = do
    let (treasury, _) = find_treasury_pda w mint program_id
    let (escrow_authority, _) = find_escrow_authority_pda w treasury program_id
    let (freeze_authority, _) = find_freeze_authority_pda w treasury program_id
    (redemption_request, _) ← find_redemption_pda w treasury holder nonce program_id
    some (record {
      program_id = program_id;
      keys =
          record { pubkey = operator; is_signer = true; is_writable = false }
          ∷ record { pubkey = holder; is_signer = false; is_writable = true }
          ∷ record { pubkey = treasury; is_signer = false; is_writable = true }
          ∷ record { pubkey = mint; is_signer = false; is_writable = true }
          ∷ record { pubkey = redemption_request; is_signer = false; is_writable = true }
          ∷ record { pubkey = holder_token_account; is_signer = false; is_writable = true }
          ∷ record { pubkey = escrow_authority; is_signer = false; is_writable = false }
          ∷ record { pubkey = freeze_authority; is_signer = false; is_writable = false }
          ∷ record { pubkey = token_2022_program; is_signer = false; is_writable = false }
          ∷ [];
      data_bytes = encode_disc_only disc_approve_redemption;
    })

  pub build_cancel_redemption_ix :
      PublicKey
      → PublicKey
      → PublicKey
      → PublicKey
      → ℤ
      → PublicKey
      → Option (TransactionInstruction PublicKey)
  build_cancel_redemption_ix canceller holder mint holder_token_account nonce program_id = do
    let (treasury, _) = find_treasury_pda w mint program_id
    let (escrow_authority, _) = find_escrow_authority_pda w treasury program_id
    let (freeze_authority, _) = find_freeze_authority_pda w treasury program_id
    (redemption_request, _) ← find_redemption_pda w treasury holder nonce program_id
    some (record {
      program_id = program_id;
      keys =
          record { pubkey = canceller; is_signer = true; is_writable = false }
          ∷ record { pubkey = holder; is_signer = false; is_writable = true }
          ∷ record { pubkey = treasury; is_signer = false; is_writable = false }
          ∷ record { pubkey = mint; is_signer = false; is_writable = false }
          ∷ record { pubkey = redemption_request; is_signer = false; is_writable = true }
          ∷ record { pubkey = holder_token_account; is_signer = false; is_writable = true }
          ∷ record { pubkey = escrow_authority; is_signer = false; is_writable = false }
          ∷ record { pubkey = freeze_authority; is_signer = false; is_writable = false }
          ∷ record { pubkey = token_2022_program; is_signer = false; is_writable = false }
          ∷ [];
      data_bytes = encode_disc_only disc_cancel_redemption;
    })

  pub build_freeze_account_ix :
      PublicKey → PublicKey → PublicKey → PublicKey → TransactionInstruction PublicKey
  build_freeze_account_ix admin mint target_account program_id =
      let (treasury, _) = find_treasury_pda w mint program_id in
      let (freeze_authority, _) = find_freeze_authority_pda w treasury program_id in
      record {
        program_id = program_id;
        keys =
            record { pubkey = admin; is_signer = true; is_writable = false }
            ∷ record { pubkey = treasury; is_signer = false; is_writable = false }
            ∷ record { pubkey = mint; is_signer = false; is_writable = false }
            ∷ record { pubkey = freeze_authority; is_signer = false; is_writable = false }
            ∷ record { pubkey = target_account; is_signer = false; is_writable = true }
            ∷ record { pubkey = token_2022_program; is_signer = false; is_writable = false }
            ∷ [];
        data_bytes = encode_disc_only disc_freeze_account;
      }

  pub build_thaw_account_ix :
      PublicKey → PublicKey → PublicKey → PublicKey → TransactionInstruction PublicKey
  build_thaw_account_ix admin mint target_account program_id =
      let (treasury, _) = find_treasury_pda w mint program_id in
      let (freeze_authority, _) = find_freeze_authority_pda w treasury program_id in
      record {
        program_id = program_id;
        keys =
            record { pubkey = admin; is_signer = true; is_writable = false }
            ∷ record { pubkey = treasury; is_signer = false; is_writable = false }
            ∷ record { pubkey = mint; is_signer = false; is_writable = false }
            ∷ record { pubkey = freeze_authority; is_signer = false; is_writable = false }
            ∷ record { pubkey = target_account; is_signer = false; is_writable = true }
            ∷ record { pubkey = token_2022_program; is_signer = false; is_writable = false }
            ∷ [];
        data_bytes = encode_disc_only disc_thaw_account;
      }

  pub build_pause_ix : PublicKey → PublicKey → PublicKey → TransactionInstruction PublicKey
  build_pause_ix admin mint program_id =
      let (treasury, _) = find_treasury_pda w mint program_id in
      record {
        program_id = program_id;
        keys =
            record { pubkey = admin; is_signer = true; is_writable = false }
            ∷ record { pubkey = treasury; is_signer = false; is_writable = true }
            ∷ [];
        data_bytes = encode_disc_only disc_pause;
      }

  pub build_unpause_ix : PublicKey → PublicKey → PublicKey → TransactionInstruction PublicKey
  build_unpause_ix admin mint program_id =
      let (treasury, _) = find_treasury_pda w mint program_id in
      record {
        program_id = program_id;
        keys =
            record { pubkey = admin; is_signer = true; is_writable = false }
            ∷ record { pubkey = treasury; is_signer = false; is_writable = true }
            ∷ [];
        data_bytes = encode_disc_only disc_unpause;
      }

  pub build_propose_admin_ix :
      PublicKey → PublicKey → PublicKey → PublicKey → TransactionInstruction PublicKey
  build_propose_admin_ix admin mint new_admin program_id =
      let (treasury, _) = find_treasury_pda w mint program_id in
      record {
        program_id = program_id;
        keys =
            record { pubkey = admin; is_signer = true; is_writable = true }
            ∷ record { pubkey = treasury; is_signer = false; is_writable = true }
            ∷ record { pubkey = system_program; is_signer = false; is_writable = false }
            ∷ [];
        data_bytes = encode_disc_pubkey w disc_propose_admin new_admin;
      }

  pub build_accept_admin_ix : PublicKey → PublicKey → PublicKey → TransactionInstruction PublicKey
  build_accept_admin_ix new_admin mint program_id =
      let (treasury, _) = find_treasury_pda w mint program_id in
      record {
        program_id = program_id;
        keys =
            record { pubkey = new_admin; is_signer = true; is_writable = false }
            ∷ record { pubkey = treasury; is_signer = false; is_writable = true }
            ∷ [];
        data_bytes = encode_disc_only disc_accept_admin;
      }

  pub build_cancel_pending_admin_ix :
      PublicKey → PublicKey → PublicKey → TransactionInstruction PublicKey
  build_cancel_pending_admin_ix admin mint program_id =
      let (treasury, _) = find_treasury_pda w mint program_id in
      record {
        program_id = program_id;
        keys =
            record { pubkey = admin; is_signer = true; is_writable = false }
            ∷ record { pubkey = treasury; is_signer = false; is_writable = true }
            ∷ [];
        data_bytes = encode_disc_only disc_cancel_pending_admin;
      }

  pub build_set_operator_ix :
      PublicKey → PublicKey → PublicKey → PublicKey → TransactionInstruction PublicKey
  build_set_operator_ix admin mint new_operator program_id =
      let (treasury, _) = find_treasury_pda w mint program_id in
      record {
        program_id = program_id;
        keys =
            record { pubkey = admin; is_signer = true; is_writable = false }
            ∷ record { pubkey = treasury; is_signer = false; is_writable = true }
            ∷ [];
        data_bytes = encode_disc_pubkey w disc_set_operator new_operator;
      }

  pub build_update_mint_cap_ix :
      PublicKey → PublicKey → ℤ → PublicKey → Option (TransactionInstruction PublicKey)
  build_update_mint_cap_ix admin mint new_cap program_id = do
    let (treasury, _) = find_treasury_pda w mint program_id
    data_bytes ← encode_disc_u64 disc_update_mint_cap new_cap
    some (record {
      program_id = program_id;
      keys =
          record { pubkey = admin; is_signer = true; is_writable = false }
          ∷ record { pubkey = treasury; is_signer = false; is_writable = true }
          ∷ [];
      data_bytes = data_bytes;
    })
