-- ===== src/Stablecoin/Client.antt =====
-- sdk/src/stablecoin/client.ts. `Connection` is what the client reads of it: `getAccountInfo` as a
-- function to the account's bytes, and `getTokenAccountBalance` as a number. An RPC call that fails
-- rejects before the client's own code goes on, and is left out.
pub mod Redemption
use zksettle.Stablecoin.Instructions.{
  build_accept_admin_ix, build_propose_admin_ix, build_thaw_account_ix, build_approve_redemption_ix,
  build_freeze_account_ix, build_cancel_pending_admin_ix, build_pause_ix, build_unpause_ix,
  build_mint_tokens_ix, build_set_operator_ix, build_request_redemption_ix,
  build_cancel_redemption_ix, build_update_mint_cap_ix,
}
use zksettle.Stablecoin.Pda.{find_redemption_pda, find_treasury_pda}
use zksettle.Base.{ℕ, Option, none, some, Result, ok, err, ◌>>=◌}
use zksettle.Base.Bytes.{Bytes}
use zksettle.Base.Int.{ℤ, pos}
use zksettle.Web3.{Web3}
use zksettle.Stablecoin.Accounts.{
  Treasury, RedemptionRequest, DecodeError, decode_treasury, decode_redemption_request,
}
use zksettle.Stablecoin.Encode.{TransactionInstruction}

pub data ClientError : Type 0 where
  treasury_not_found range_error : ClientError
  decode_failed : DecodeError → ClientError

abbrev decoded : {A : Type 0} → Result DecodeError A → Result ClientError A
decoded (ok a) = ok a
decoded (err e) = err (decode_failed e)

abbrev or_range_error : {A : Type 0} → Option A → Result ClientError A
or_range_error none = err range_error
or_range_error (some a) = ok a

pub record Connection (Key : Type 0) : Type 0 where
  pub get_account_info : Key → Option Bytes
  pub get_token_account_balance : Key → ℕ

pub record StablecoinClient (Key : Type 0) : Type 0 where
  pub connection : Connection Key
  pub mint : Key
  pub program_id : Key
  pub treasury_address : Key

module _ (w : Web3) where
  open w use {PublicKey}

  pub new_client : Connection PublicKey → PublicKey → PublicKey → StablecoinClient PublicKey
  new_client connection mint program_id = record {
    connection = connection;
    mint = mint;
    program_id = program_id;
    treasury_address = (find_treasury_pda w mint program_id).0;
  }

  pub fetch_treasury : StablecoinClient PublicKey → Result ClientError (Treasury PublicKey)
  fetch_treasury c = elim (c.connection.get_account_info c.treasury_address) [
    | none ↦ err treasury_not_found
    | some info ↦ decoded (decode_treasury w info)
  ]

  pub fetch_redemption_request :
      StablecoinClient PublicKey
      → PublicKey
      → ℤ
      → Result ClientError (Option (RedemptionRequest PublicKey))
  fetch_redemption_request c holder nonce = do
    (address, _) ←
        or_range_error (find_redemption_pda w c.treasury_address holder nonce c.program_id)
    elim (c.connection.get_account_info address) [
      | none ↦ ok none
      | some info ↦ do request ← decoded (decode_redemption_request w info); ok (some request)
    ]

  -- `getAssociatedTokenAddressSync(mint, owner, false, TOKEN_2022_PROGRAM_ID)` is a parameter.
  pub get_token_balance :
      (PublicKey → PublicKey → PublicKey) → StablecoinClient PublicKey → PublicKey → ℕ
  get_token_balance associated_token_address c owner =
      c.connection.get_token_account_balance (associated_token_address c.mint owner)

  pub request_redemption :
      StablecoinClient PublicKey
      → PublicKey
      → PublicKey
      → ℤ
      → Result ClientError (TransactionInstruction PublicKey)
  request_redemption c holder holder_token_account amount = do
    treasury ← fetch_treasury c
    or_range_error (
        build_request_redemption_ix w holder c.mint holder_token_account amount
          (pos treasury.redemption_nonce) c.program_id)

  -- The methods that fill in the client's mint and program.

  pub client_mint_tokens_ix :
      StablecoinClient PublicKey
      → PublicKey
      → PublicKey
      → ℤ
      → Option (TransactionInstruction PublicKey)
  client_mint_tokens_ix c operator destination amount =
      build_mint_tokens_ix w operator c.mint destination amount c.program_id

  pub client_request_redemption_ix :
      StablecoinClient PublicKey
      → PublicKey
      → PublicKey
      → ℤ
      → ℤ
      → Option (TransactionInstruction PublicKey)
  client_request_redemption_ix c holder holder_token_account amount nonce =
      build_request_redemption_ix w holder c.mint holder_token_account amount nonce c.program_id

  pub client_approve_redemption_ix :
      StablecoinClient PublicKey
      → PublicKey
      → PublicKey
      → PublicKey
      → ℤ
      → Option (TransactionInstruction PublicKey)
  client_approve_redemption_ix c operator holder holder_token_account nonce =
      build_approve_redemption_ix w operator holder c.mint holder_token_account nonce c.program_id

  pub client_cancel_redemption_ix :
      StablecoinClient PublicKey
      → PublicKey
      → PublicKey
      → PublicKey
      → ℤ
      → Option (TransactionInstruction PublicKey)
  client_cancel_redemption_ix c canceller holder holder_token_account nonce =
      build_cancel_redemption_ix w canceller holder c.mint holder_token_account nonce c.program_id

  pub client_freeze_account_ix :
      StablecoinClient PublicKey → PublicKey → PublicKey → TransactionInstruction PublicKey
  client_freeze_account_ix c admin target_account =
      build_freeze_account_ix w admin c.mint target_account c.program_id

  pub client_thaw_account_ix :
      StablecoinClient PublicKey → PublicKey → PublicKey → TransactionInstruction PublicKey
  client_thaw_account_ix c admin target_account =
      build_thaw_account_ix w admin c.mint target_account c.program_id

  pub client_pause_ix : StablecoinClient PublicKey → PublicKey → TransactionInstruction PublicKey
  client_pause_ix c admin = build_pause_ix w admin c.mint c.program_id

  pub client_unpause_ix : StablecoinClient PublicKey → PublicKey → TransactionInstruction PublicKey
  client_unpause_ix c admin = build_unpause_ix w admin c.mint c.program_id

  pub client_propose_admin_ix :
      StablecoinClient PublicKey → PublicKey → PublicKey → TransactionInstruction PublicKey
  client_propose_admin_ix c admin new_admin =
      build_propose_admin_ix w admin c.mint new_admin c.program_id

  pub client_accept_admin_ix :
      StablecoinClient PublicKey → PublicKey → TransactionInstruction PublicKey
  client_accept_admin_ix c new_admin = build_accept_admin_ix w new_admin c.mint c.program_id

  pub client_cancel_pending_admin_ix :
      StablecoinClient PublicKey → PublicKey → TransactionInstruction PublicKey
  client_cancel_pending_admin_ix c admin = build_cancel_pending_admin_ix w admin c.mint c.program_id

  pub client_set_operator_ix :
      StablecoinClient PublicKey → PublicKey → PublicKey → TransactionInstruction PublicKey
  client_set_operator_ix c admin new_operator =
      build_set_operator_ix w admin c.mint new_operator c.program_id

  pub client_update_mint_cap_ix :
      StablecoinClient PublicKey → PublicKey → ℤ → Option (TransactionInstruction PublicKey)
  client_update_mint_cap_ix c admin new_cap =
      build_update_mint_cap_ix w admin c.mint new_cap c.program_id
