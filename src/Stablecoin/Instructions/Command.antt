-- ===== src/Stablecoin/Instructions/Command.antt =====
-- The calls of the fourteen builders of sdk/src/stablecoin/instructions.ts as one data type, so that
-- a statement can range over all of them.
use zksettle.Base.{Option, some}
use zksettle.Base.Int.{ℤ}
use zksettle.Web3.{Web3}
use zksettle.Stablecoin.Encode.{TransactionInstruction, encode_disc_only, encode_disc_pubkey}
use zksettle.Stablecoin.Instructions.{
  build_pause_ix, build_initialize_mint_ix, build_mint_tokens_ix, build_request_redemption_ix,
  build_approve_redemption_ix, build_cancel_redemption_ix, build_freeze_account_ix,
  build_thaw_account_ix, build_unpause_ix, build_propose_admin_ix, build_accept_admin_ix,
  build_cancel_pending_admin_ix, build_set_operator_ix, build_update_mint_cap_ix,
}

-- A call of a builder: the accounts and arguments other than the mint and the program.
pub data Command (Key : Type 0) : Type 0 where
  initialize_mint : (admin : Key) (decimals : ℤ) → Command Key
  mint_tokens : (operator destination : Key) (amount : ℤ) → Command Key
  request_redemption : (holder account : Key) (amount nonce : ℤ) → Command Key
  approve_redemption : (operator holder account : Key) (nonce : ℤ) → Command Key
  cancel_redemption : (canceller holder account : Key) (nonce : ℤ) → Command Key
  freeze_account : (admin target : Key) → Command Key
  thaw_account : (admin target : Key) → Command Key
  pause : (admin : Key) → Command Key
  unpause : (admin : Key) → Command Key
  propose_admin : (admin new_admin : Key) → Command Key
  accept_admin : (new_admin : Key) → Command Key
  cancel_pending_admin : (admin : Key) → Command Key
  set_operator : (admin new_operator : Key) → Command Key
  update_mint_cap : (admin : Key) (new_cap : ℤ) → Command Key

-- The account that has to sign a call.
abbrev pub authority : {Key : Type 0} → Command Key → Key
authority (initialize_mint admin _) = admin
authority (mint_tokens operator _ _) = operator
authority (request_redemption holder _ _ _) = holder
authority (approve_redemption operator _ _ _) = operator
authority (cancel_redemption canceller _ _ _) = canceller
authority (freeze_account admin _) = admin
authority (thaw_account admin _) = admin
authority (pause admin) = admin
authority (unpause admin) = admin
authority (propose_admin admin _) = admin
authority (accept_admin new_admin) = new_admin
authority (cancel_pending_admin admin) = admin
authority (set_operator admin _) = admin
authority (update_mint_cap admin _) = admin

-- The builder that a call names, on one mint of one deployment.
unfoldable pub build :
    (w : Web3)
    → w.PublicKey
    → w.PublicKey
    → Command w.PublicKey
    → Option (TransactionInstruction w.PublicKey)
unfolding build_initialize_mint_ix build_mint_tokens_ix build_request_redemption_ix
    build_approve_redemption_ix build_cancel_redemption_ix build_freeze_account_ix
    build_thaw_account_ix build_pause_ix build_unpause_ix build_propose_admin_ix
    build_accept_admin_ix build_cancel_pending_admin_ix build_set_operator_ix
    build_update_mint_cap_ix encode_disc_only encode_disc_pubkey
build w program mint (initialize_mint admin decimals) =
    build_initialize_mint_ix w admin mint decimals program
build w program mint (mint_tokens operator destination amount) =
    build_mint_tokens_ix w operator mint destination amount program
build w program mint (request_redemption holder account amount nonce) =
    build_request_redemption_ix w holder mint account amount nonce program
build w program mint (approve_redemption operator holder account nonce) =
    build_approve_redemption_ix w operator holder mint account nonce program
build w program mint (cancel_redemption canceller holder account nonce) =
    build_cancel_redemption_ix w canceller holder mint account nonce program
build w program mint (freeze_account admin target) =
    some (build_freeze_account_ix w admin mint target program)
build w program mint (thaw_account admin target) =
    some (build_thaw_account_ix w admin mint target program)
build w program mint (pause admin) = some (build_pause_ix w admin mint program)
build w program mint (unpause admin) = some (build_unpause_ix w admin mint program)
build w program mint (propose_admin admin new_admin) =
    some (build_propose_admin_ix w admin mint new_admin program)
build w program mint (accept_admin new_admin) =
    some (build_accept_admin_ix w new_admin mint program)
build w program mint (cancel_pending_admin admin) =
    some (build_cancel_pending_admin_ix w admin mint program)
build w program mint (set_operator admin new_operator) =
    some (build_set_operator_ix w admin mint new_operator program)
build w program mint (update_mint_cap admin new_cap) =
    build_update_mint_cap_ix w admin mint new_cap program
