-- ===== src/Stablecoin/Instructions/Structs.antt =====
-- The accounts that the instructions of the stablecoin program take, from the `Accounts` structs of
-- backend/programs/stablecoin/src/instructions: their order, the signer, the `mut`s and the seeds.
pub mod Built
use zksettle.Base.{
  ℕ, String, ltb, ◌^◌, Bool-cases, inl, inr, ◌≡◌, sym, ap, ◌∙◌, true, false, some, List, [], ◌∷◌,
}
use zksettle.Base.Text.{codes}
use zksettle.Base.Bytes.{Bytes, le_bytes}
use zksettle.Base.Int.{ℤ, pos, negsuc, pos_part}
use zksettle.Base.Maybe.{>>=-eq-some, some_inj}
use zksettle.Web3.{Web3}
use zksettle.Stablecoin.Pda.{
  encode_u64, find_mint_authority_pda, find_freeze_authority_pda, find_escrow_authority_pda,
  find_redemption_pda, find_treasury_pda,
}
use zksettle.Stablecoin.Encode.{
  TransactionInstruction, AccountMeta, encode_disc_u64, encode_disc_u8,
}
use zksettle.Stablecoin.Constants.{
  disc_initialize_mint, disc_mint_tokens, disc_request_redemption, disc_update_mint_cap,
}
use zksettle.Stablecoin.Instructions.Command.{Command, build}

abbrev pub signer : {Key : Type 0} → Key → AccountMeta Key
signer k = record { pubkey = k; is_signer = true; is_writable = false }

abbrev pub signer_mut : {Key : Type 0} → Key → AccountMeta Key
signer_mut k = record { pubkey = k; is_signer = true; is_writable = true }

abbrev pub account : {Key : Type 0} → Key → AccountMeta Key
account k = record { pubkey = k; is_signer = false; is_writable = false }

abbrev pub account_mut : {Key : Type 0} → Key → AccountMeta Key
account_mut k = record { pubkey = k; is_signer = false; is_writable = true }

module _ (w : Web3) (program mint : w.PublicKey) where
  open w use {PublicKey, to_buffer, find_program_address, system_program, token_2022_program}

  abbrev pub pda : String → PublicKey → PublicKey
  pda seed key = (find_program_address (codes seed ∷ to_buffer key ∷ []) program).0

  abbrev pub treasury : PublicKey
  treasury = pda "treasury" mint

  abbrev pub redemption_request : PublicKey → ℤ → PublicKey
  redemption_request holder nonce =
      (find_program_address
        (codes "redemption"
          ∷ to_buffer treasury
          ∷ to_buffer holder
          ∷ le_bytes 8 (pos_part nonce)
          ∷ [])
        program).0

  abbrev pub initialize_mint_accounts : PublicKey → List (AccountMeta PublicKey)
  initialize_mint_accounts admin =
      signer_mut admin
      ∷ account_mut mint
      ∷ account_mut treasury
      ∷ account (pda "mint-authority" treasury)
      ∷ account (pda "freeze-authority" treasury)
      ∷ account (pda "escrow-authority" treasury)
      ∷ account token_2022_program
      ∷ account system_program
      ∷ []

  abbrev pub mint_tokens_accounts : PublicKey → PublicKey → List (AccountMeta PublicKey)
  mint_tokens_accounts operator destination =
      signer operator
      ∷ account_mut treasury
      ∷ account_mut mint
      ∷ account (pda "mint-authority" treasury)
      ∷ account_mut destination
      ∷ account token_2022_program
      ∷ []

  abbrev pub request_redemption_accounts :
      PublicKey → PublicKey → PublicKey → List (AccountMeta PublicKey)
  request_redemption_accounts holder holder_token_account request =
      signer_mut holder
      ∷ account_mut treasury
      ∷ account mint
      ∷ account_mut holder_token_account
      ∷ account_mut request
      ∷ account (pda "escrow-authority" treasury)
      ∷ account (pda "freeze-authority" treasury)
      ∷ account token_2022_program
      ∷ account system_program
      ∷ []

  abbrev pub approve_redemption_accounts :
      PublicKey → PublicKey → PublicKey → PublicKey → List (AccountMeta PublicKey)
  approve_redemption_accounts operator holder holder_token_account request =
      signer operator
      ∷ account_mut holder
      ∷ account_mut treasury
      ∷ account_mut mint
      ∷ account_mut request
      ∷ account_mut holder_token_account
      ∷ account (pda "escrow-authority" treasury)
      ∷ account (pda "freeze-authority" treasury)
      ∷ account token_2022_program
      ∷ []

  abbrev pub cancel_redemption_accounts :
      PublicKey → PublicKey → PublicKey → PublicKey → List (AccountMeta PublicKey)
  cancel_redemption_accounts canceller holder holder_token_account request =
      signer canceller
      ∷ account_mut holder
      ∷ account treasury
      ∷ account mint
      ∷ account_mut request
      ∷ account_mut holder_token_account
      ∷ account (pda "escrow-authority" treasury)
      ∷ account (pda "freeze-authority" treasury)
      ∷ account token_2022_program
      ∷ []

  abbrev pub freeze_or_thaw_accounts : PublicKey → PublicKey → List (AccountMeta PublicKey)
  freeze_or_thaw_accounts admin target_account =
      signer admin
      ∷ account treasury
      ∷ account mint
      ∷ account (pda "freeze-authority" treasury)
      ∷ account_mut target_account
      ∷ account token_2022_program
      ∷ []

  abbrev pub propose_admin_accounts : PublicKey → List (AccountMeta PublicKey)
  propose_admin_accounts admin =
      signer_mut admin ∷ account_mut treasury ∷ account system_program ∷ []

  -- `AcceptAdmin`, `CancelPendingAdmin`, `SetOperator`, `UpdateMintCap` and `PauseOrUnpause`.
  abbrev pub admin_accounts : PublicKey → List (AccountMeta PublicKey)
  admin_accounts admin = signer admin ∷ account_mut treasury ∷ []

  abbrev pub accounts_of : Command PublicKey → List (AccountMeta PublicKey)
  accounts_of (Command.initialize_mint admin decimals) = initialize_mint_accounts admin
  accounts_of (Command.mint_tokens operator destination amount) =
      mint_tokens_accounts operator destination
  accounts_of (Command.request_redemption holder token_account amount nonce) =
      request_redemption_accounts holder token_account (redemption_request holder nonce)
  accounts_of (Command.approve_redemption operator holder token_account nonce) =
      approve_redemption_accounts operator holder token_account (redemption_request holder nonce)
  accounts_of (Command.cancel_redemption canceller holder token_account nonce) =
      cancel_redemption_accounts canceller holder token_account (redemption_request holder nonce)
  accounts_of (Command.freeze_account admin target) = freeze_or_thaw_accounts admin target
  accounts_of (Command.thaw_account admin target) = freeze_or_thaw_accounts admin target
  accounts_of (Command.pause admin) = admin_accounts admin
  accounts_of (Command.unpause admin) = admin_accounts admin
  accounts_of (Command.propose_admin admin new_admin) = propose_admin_accounts admin
  accounts_of (Command.accept_admin new_admin) = admin_accounts new_admin
  accounts_of (Command.cancel_pending_admin admin) = admin_accounts admin
  accounts_of (Command.set_operator admin new_operator) = admin_accounts admin
  accounts_of (Command.update_mint_cap admin new_cap) = admin_accounts admin
