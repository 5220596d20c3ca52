-- ===== src/Adapter/Actions.antt =====
-- An action of the page reaches the wallet as a transaction of one call of the program.
use zksettle.Base.{◌≡◌, refl, [], ◌∷◌, Option, some, Result, ok, ◌>>=◌, subst, ◌∙◌, ap}
use zksettle.Base.Text.{Text}
use zksettle.Web3.{Web3, Laws}
use zksettle.Stablecoin.Encode.{TransactionInstruction}
use zksettle.Stablecoin.Instructions.Command.{Command, build, authority}
use zksettle.Stablecoin.Instructions.Payload.{parse, call_of, parse-build}
use zksettle.Stablecoin.Instructions.Keys.{Fits, IsSignedBy, build_of_Fits}
use zksettle.Stablecoin.Instructions.Structs.{accounts_of}
use zksettle.Stablecoin.Instructions.Structs.Built.{build-accounts_of}
use zksettle.Adapter.{
  Transaction, Action, ActionError, StablecoinActionResult, wrap, wrap_some, build_action,
  build_solscan_url, ensure_tx_is_sendable, submit_action, program_id,
}

-- The call that an action stands for.
abbrev pub command_of : {Key Number : Type 0} → Key → Action Key Number → Command Key
command_of payer (Action.set_operator new_operator) = Command.set_operator payer new_operator
command_of payer (Action.propose_admin new_admin) = Command.propose_admin payer new_admin
command_of payer Action.accept_admin = Command.accept_admin payer
command_of payer Action.cancel_pending_admin = Command.cancel_pending_admin payer
command_of payer Action.pause = Command.pause payer
command_of payer Action.unpause = Command.unpause payer
command_of payer (Action.update_mint_cap new_cap) = Command.update_mint_cap payer new_cap
command_of payer (Action.freeze_account token_account) = Command.freeze_account payer token_account
command_of payer (Action.thaw_account token_account) = Command.thaw_account payer token_account
command_of payer (Action.mint_tokens destination amount) =
    Command.mint_tokens payer destination amount
command_of payer (Action.approve_redemption r) =
    Command.approve_redemption payer r.holder r.token_account r.nonce
command_of payer (Action.cancel_redemption r) =
    Command.cancel_redemption payer r.holder r.token_account r.nonce

module _ (w : Web3) where
  build_action-command_of :
      {Number : Type 0} (payer mint : w.PublicKey) (action : Action w.PublicKey Number)
      → build_action w payer mint action
        ≡ wrap_some w payer (build w (program_id w) mint (command_of payer action))
  unfolding build_action build
  build_action-command_of payer mint (Action.set_operator new_operator) = refl
  build_action-command_of payer mint (Action.propose_admin new_admin) = refl
  build_action-command_of payer mint Action.accept_admin = refl
  build_action-command_of payer mint Action.cancel_pending_admin = refl
  build_action-command_of payer mint Action.pause = refl
  build_action-command_of payer mint Action.unpause = refl
  build_action-command_of payer mint (Action.update_mint_cap new_cap) = refl
  build_action-command_of payer mint (Action.freeze_account token_account) = refl
  build_action-command_of payer mint (Action.thaw_account token_account) = refl
  build_action-command_of payer mint (Action.mint_tokens destination amount) = refl
  build_action-command_of payer mint (Action.approve_redemption r) = refl
  build_action-command_of payer mint (Action.cancel_redemption r) = refl

  authority_payer :
      {Number : Type 0} (payer : w.PublicKey) (action : Action w.PublicKey Number)
      → authority (command_of payer action) ≡ payer
  authority_payer payer (Action.set_operator new_operator) = refl
  authority_payer payer (Action.propose_admin new_admin) = refl
  authority_payer payer Action.accept_admin = refl
  authority_payer payer Action.cancel_pending_admin = refl
  authority_payer payer Action.pause = refl
  authority_payer payer Action.unpause = refl
  authority_payer payer (Action.update_mint_cap new_cap) = refl
  authority_payer payer (Action.freeze_account token_account) = refl
  authority_payer payer (Action.thaw_account token_account) = refl
  authority_payer payer (Action.mint_tokens destination amount) = refl
  authority_payer payer (Action.approve_redemption r) = refl
  authority_payer payer (Action.cancel_redemption r) = refl

module _ (w : Web3) (l : Laws w) where
  -- What an action that is submitted does with its transaction: the wallet sends it, and the page shows
  -- the signature.
  abbrev pub shown : Text → Result ActionError Text → Result ActionError StablecoinActionResult
  shown network sent = sent >>= λ signature.
      ok (record { signature = signature; solscan_url = build_solscan_url network signature })

  -- A transaction of one call on its accounts, which the payer pays for and is alone to sign.
  abbrev pub IsSent :
      w.PublicKey → w.PublicKey → Text → Command w.PublicKey → Transaction w.PublicKey → Type 0
  IsSent payer mint blockhash command tx =
      (ix : TransactionInstruction w.PublicKey) × (tx
        ≡ record { fee_payer = some payer; recent_blockhash = blockhash; instructions = ix ∷ [] })
      × (parse w ix.data_bytes ≡ some (call_of w command))
      × (ix.keys ≡ accounts_of w (program_id w) mint command)
      × IsSignedBy w (program_id w) mint payer ix

  submit_action-built :
      (network blockhash : Text) (payer : w.PublicKey)
      (build_transaction : w.PublicKey → Option (Transaction w.PublicKey))
      (ix : TransactionInstruction w.PublicKey)
      (send_transaction : Transaction w.PublicKey → Result ActionError Text)
      → build_transaction payer ≡ some (wrap payer ix)
      → submit_action network (some payer) build_transaction (ok blockhash) send_transaction
        ≡ shown network (
            send_transaction (record {
              fee_payer = some payer;
              recent_blockhash = blockhash;
              instructions = ix ∷ [];
            }))
  unfolding submit_action ensure_tx_is_sendable wrap
  submit_action-built network blockhash payer build_transaction ix send_transaction h = rw h refl

  -- Whatever action a connected wallet submits, if its numbers fit 64 bits and the node answers with a
  -- block hash: the wallet is handed one transaction, with the payer as fee payer and this block hash,
  -- whose one instruction the program reads as the action's call, with the arguments of the action and
  -- the accounts, in their order and with their flags, that the program takes for the call on those of
  -- the action, and which the payer alone has to sign; the page shows what the wallet answers.
  pub submit_action-IsSent :
      {Number : Type 0} (network blockhash : Text) (payer mint : w.PublicKey)
      (action : Action w.PublicKey Number)
      (send_transaction : Transaction w.PublicKey → Result ActionError Text)
      → Fits (command_of payer action)
      → (tx : Transaction w.PublicKey) × IsSent payer mint blockhash (command_of payer action) tx
        × (submit_action network
              (some payer)
              (λ k. build_action w k mint action)
              (ok blockhash)
              send_transaction
            ≡ shown network (send_transaction tx))
  unfolding wrap
  submit_action-IsSent network blockhash payer mint action send_transaction fits =
      let command = command_of payer action in
      let (ix, built, signed) = build_of_Fits w (program_id w) mint command fits in
      (
        record { fee_payer = some payer; recent_blockhash = blockhash; instructions = ix ∷ [] },
        (
          ix,
          refl,
          parse-build w l (program_id w) mint command built,
          build-accounts_of w (program_id w) mint command built,
          subst (λ k. IsSignedBy w (program_id w) mint k ix) (authority_payer w payer action)
              signed,
        ),
        submit_action-built network blockhash payer (λ k. build_action w k mint action) ix
            send_transaction
            (build_action-command_of w payer mint action ∙ ap (wrap_some w payer) built),
      )
