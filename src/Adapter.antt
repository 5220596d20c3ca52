-- ===== src/Adapter.antt =====
-- The page's way to the stablecoin program: frontend/src/lib/stablecoin/sdk-adapter.ts and the hook
-- use-stablecoin-action.ts. A `BN` is an integer; `Number(bigint)` is a
-- parameter, as are the connection and the wallet. That the SDK is loaded lazily is left out.
pub mod Listed
pub mod Actions
use zksettle.Base.{
  ℕ, ◌+◌, Bool, true, false, List, [], ◌∷◌, ◌++◌, Option, none, some, Result, ok, err, or_throw,
  ◌>>=◌, if◌then◌else◌, ◌==◌, ◌&&◌,
}
use zksettle.Base.Text.{Text, codes}
use zksettle.Base.Bytes.{Bytes, bytes_eq}
use zksettle.Base.Int.{ℤ, pos}
use zksettle.Web3.{Web3}
use zksettle.Stablecoin.Constants.{stablecoin_program_id}
use zksettle.Stablecoin.Accounts.{
  Treasury, RedemptionRequest, DecodeError, decode_treasury, decode_redemption_request,
  redemption_request_data_len,
}
use zksettle.Stablecoin.Pda.{find_treasury_pda}
use zksettle.Stablecoin.Encode.{TransactionInstruction}
use zksettle.Stablecoin.Instructions.{
  build_pause_ix, build_mint_tokens_ix, build_approve_redemption_ix, build_cancel_redemption_ix,
  build_freeze_account_ix, build_thaw_account_ix, build_unpause_ix, build_propose_admin_ix,
  build_accept_admin_ix, build_cancel_pending_admin_ix, build_set_operator_ix,
  build_update_mint_cap_ix,
}

pub record LocalTreasury (Key : Type 0) : Type 0 where
  pub admin : Key
  pub operator : Key
  pub mint : Key
  pub total_minted : ℤ
  pub total_burned : ℤ
  pub decimals : ℕ
  pub paused : Bool
  pub pending_admin : Option Key
  pub mint_cap : ℤ
  pub redemption_nonce : ℤ

pub record LocalRedemption (Key Number : Type 0) : Type 0 where
  pub pda : Key
  pub holder : Key
  pub treasury : Key
  pub mint : Key
  pub token_account : Key
  pub amount : ℤ
  pub nonce : ℤ
  pub requested_at : Number

-- `Transaction` of web3.js.
pub record Transaction (Key : Type 0) : Type 0 where
  pub fee_payer : Option Key
  pub recent_blockhash : Text
  pub instructions : List (TransactionInstruction Key)

-- A filter of `getProgramAccounts`.
pub data AccountFilter : Type 0 where
  data_size : ℕ → AccountFilter
  memcmp : (offset : ℕ) (bytes : Bytes) → AccountFilter

-- The actions of the adapter, with their arguments behind the mint.
pub data Action (Key Number : Type 0) : Type 0 where
  set_operator : (new_operator : Key) → Action Key Number
  propose_admin : (new_admin : Key) → Action Key Number
  accept_admin cancel_pending_admin pause unpause : Action Key Number
  update_mint_cap : (new_cap : ℤ) → Action Key Number
  freeze_account thaw_account : (token_account : Key) → Action Key Number
  mint_tokens : (destination : Key) (amount : ℤ) → Action Key Number
  approve_redemption cancel_redemption : LocalRedemption Key Number → Action Key Number

abbrev pub redemption_treasury_offset : ℕ
redemption_treasury_offset = 8 + 32

unfoldable pub to_local_treasury : {Key : Type 0} → Treasury Key → LocalTreasury Key
to_local_treasury sdk = record {
  admin = sdk.admin;
  operator = sdk.operator;
  mint = sdk.mint;
  total_minted = pos sdk.total_minted;
  total_burned = pos sdk.total_burned;
  decimals = sdk.decimals;
  paused = sdk.paused;
  pending_admin = sdk.pending_admin;
  mint_cap = pos sdk.mint_cap;
  redemption_nonce = pos sdk.redemption_nonce;
}

module _ {Number : Type 0} (number : ℤ → Number) where
  unfoldable pub to_local_redemption :
      {Key : Type 0} → Key → RedemptionRequest Key → LocalRedemption Key Number
  to_local_redemption pda sdk = record {
    pda = pda;
    holder = sdk.holder;
    treasury = sdk.treasury;
    mint = sdk.mint;
    token_account = sdk.token_account;
    amount = pos sdk.amount;
    nonce = pos sdk.nonce;
    requested_at = number sdk.requested_at;
  }

unfoldable pub wrap : {Key : Type 0} → Key → TransactionInstruction Key → Transaction Key
wrap payer ix = record { fee_payer = some payer; recent_blockhash = []; instructions = ix ∷ [] }

module _ (w : Web3) where
  abbrev pub program_id : w.PublicKey
  program_id = w.from_base58 stablecoin_program_id

  abbrev pub wrap_some :
      w.PublicKey → Option (TransactionInstruction w.PublicKey) → Option (Transaction w.PublicKey)
  wrap_some payer none = none
  wrap_some payer (some ix) = some (wrap payer ix)

  -- `getTreasury`, of the bytes that `getAccountInfo` gives for the treasury's address.
  unfoldable pub get_treasury :
      (w.PublicKey → Option Bytes)
      → w.PublicKey
      → Result DecodeError (Option (LocalTreasury w.PublicKey))
  unfolding to_local_treasury
  get_treasury get_account_info mint =
      elim (get_account_info (find_treasury_pda w mint program_id).0) [
        | none ↦ ok none
        | some info ↦ decode_treasury w info >>= λ t. ok (some (to_local_treasury t))
      ]

  module _ {Number : Type 0} (number : ℤ → Number) where
    -- The loop of `listRedemptions`; an account that does not decode is skipped.
    unfoldable pub decoded : List (w.PublicKey × Bytes) → List (LocalRedemption w.PublicKey Number)
    unfolding to_local_redemption
    decoded [] = []
    decoded ((pubkey, account) ∷ accounts) =
        let rest = decoded accounts in
        elim (decode_redemption_request w account) [
          | err e ↦ rest
          | ok sdk ↦ to_local_redemption number pubkey sdk ∷ rest
        ]

    unfoldable pub list_redemptions :
        (w.PublicKey → List AccountFilter → List (w.PublicKey × Bytes))
        → w.PublicKey
        → List (LocalRedemption w.PublicKey Number)
    unfolding decoded
    list_redemptions get_program_accounts mint = decoded (
        get_program_accounts program_id (
          data_size redemption_request_data_len
          ∷ memcmp redemption_treasury_offset (w.to_buffer (find_treasury_pda w mint program_id).0)
          ∷ []))

  -- The twelve builders of the adapter. `none` is the SDK's `RangeError`.
  unfoldable pub build_action :
      {Number : Type 0}
      → w.PublicKey
      → w.PublicKey
      → Action w.PublicKey Number
      → Option (Transaction w.PublicKey)
  build_action payer mint (set_operator new_operator) =
      some (wrap payer (build_set_operator_ix w payer mint new_operator program_id))
  build_action payer mint (propose_admin new_admin) =
      some (wrap payer (build_propose_admin_ix w payer mint new_admin program_id))
  build_action payer mint accept_admin =
      some (wrap payer (build_accept_admin_ix w payer mint program_id))
  build_action payer mint cancel_pending_admin =
      some (wrap payer (build_cancel_pending_admin_ix w payer mint program_id))
  build_action payer mint (update_mint_cap new_cap) =
      wrap_some payer (build_update_mint_cap_ix w payer mint new_cap program_id)
  build_action payer mint pause = some (wrap payer (build_pause_ix w payer mint program_id))
  build_action payer mint unpause = some (wrap payer (build_unpause_ix w payer mint program_id))
  build_action payer mint (freeze_account token_account) =
      some (wrap payer (build_freeze_account_ix w payer mint token_account program_id))
  build_action payer mint (thaw_account token_account) =
      some (wrap payer (build_thaw_account_ix w payer mint token_account program_id))
  build_action payer mint (mint_tokens destination amount) =
      wrap_some payer (build_mint_tokens_ix w payer mint destination amount program_id)
  build_action payer mint (approve_redemption r) =
      wrap_some payer
        (build_approve_redemption_ix w payer r.holder mint r.token_account r.nonce program_id)
  build_action payer mint (cancel_redemption r) =
      wrap_some payer
        (build_cancel_redemption_ix w payer r.holder mint r.token_account r.nonce program_id)

-- What the mutation of `useStablecoinAction` throws; `rejected` is from the connection or the wallet.
pub data ActionError : Type 0 where
  no_wallet range_error : ActionError
  rejected : Text → ActionError

pub record StablecoinActionResult : Type 0 where
  pub signature : Text
  pub solscan_url : Text

unfoldable pub build_solscan_url : Text → Text → Text
build_solscan_url network signature =
    let page = codes "https://solscan.io/tx/" ++ signature in
    if bytes_eq network (codes "mainnet-beta") then page else page ++ (codes "?cluster=" ++ network)

-- `tx.feePayer ??= payer`, and a block hash unless there is one.
unfoldable pub ensure_tx_is_sendable :
    {Key : Type 0}
    → Result ActionError Text
    → Key
    → Transaction Key
    → Result ActionError (Transaction Key)
ensure_tx_is_sendable get_latest_blockhash payer tx =
    let paid : Transaction _ = record tx {
      fee_payer = elim tx.fee_payer [ none ↦ some payer | some k ↦ some k ];
    } in
    elim tx.recent_blockhash [
      | [] ↦ get_latest_blockhash >>= λ blockhash. ok (record paid { recent_blockhash = blockhash })
      | _ ∷ _ ↦ ok paid
    ]

-- The `mutationFn`, of the wallet's key and the page's `buildTransaction`.
unfoldable pub submit_action :
    {Key : Type 0}
    → Text
    → Option Key
    → (Key → Option (Transaction Key))
    → Result ActionError Text
    → (Transaction Key → Result ActionError Text)
    → Result ActionError StablecoinActionResult
unfolding ensure_tx_is_sendable build_solscan_url
submit_action network public_key build_transaction get_latest_blockhash send_transaction = do
  payer ← or_throw public_key no_wallet
  built ← or_throw (build_transaction payer) range_error
  tx ← ensure_tx_is_sendable get_latest_blockhash payer built
  signature ← send_transaction tx
  ok (record { signature = signature; solscan_url = build_solscan_url network signature })
