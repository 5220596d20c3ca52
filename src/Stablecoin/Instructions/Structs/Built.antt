-- ===== src/Stablecoin/Instructions/Structs/Built.antt =====
-- A builder of sdk/src/stablecoin/instructions.ts gives its instruction the accounts of the program's
-- struct.
use zksettle.Base.{ℕ, ltb, ◌^◌, Bool-cases, inl, inr, ◌≡◌, sym, ap, ◌∙◌, some, [], ◌∷◌}
use zksettle.Base.Text.{codes}
use zksettle.Base.Bytes.{Bytes, le_bytes}
use zksettle.Base.Int.{ℤ, pos, negsuc, pos_part}
use zksettle.Base.Maybe.{>>=-eq-some, some_inj}
use zksettle.Web3.{Web3}
use zksettle.Stablecoin.Pda.{
  encode_u64, find_mint_authority_pda, find_freeze_authority_pda, find_escrow_authority_pda,
  find_redemption_pda, find_treasury_pda,
}
use zksettle.Stablecoin.Encode.{TransactionInstruction, encode_disc_u64, encode_disc_u8}
use zksettle.Stablecoin.Constants.{
  disc_initialize_mint, disc_mint_tokens, disc_request_redemption, disc_update_mint_cap,
}
use zksettle.Stablecoin.Instructions.Command.{Command, build}
use zksettle.Stablecoin.Instructions.Structs.{
  accounts_of, treasury, redemption_request, request_redemption_accounts,
  approve_redemption_accounts, cancel_redemption_accounts,
}

encode_u64_lem : (v : ℤ) {bs : Bytes} → encode_u64 v ≡ some bs → bs ≡ le_bytes 8 (pos_part v)
unfolding encode_u64
encode_u64_lem (pos n) h = elim (Bool-cases (ltb n (2 ^ 64))) [
  | inl small ↦ sym (some_inj (rw small at h))
  | inr large ↦ cc (rw large at h)
]
encode_u64_lem (negsuc n) h = cc

module _ (w : Web3) (program mint : w.PublicKey) where
  open w use {PublicKey, to_buffer, find_program_address, system_program, token_2022_program}

  find_redemption_pda-address :
      (holder : PublicKey) (nonce : ℤ) {found : PublicKey × ℕ}
      → find_redemption_pda w (find_treasury_pda w mint program).0 holder nonce program ≡ some found
      → found.0 ≡ redemption_request w program mint holder nonce
  unfolding find_redemption_pda find_treasury_pda
  find_redemption_pda-address holder nonce h =
      let (buf, e, built) = >>=-eq-some (encode_u64 nonce) _ h in
      let same = encode_u64_lem nonce e in
      sym (ap (λ found. found.0) (some_inj built))
      ∙ ap
          (λ b.
            (find_program_address
              (codes "redemption" ∷ to_buffer (treasury w program mint) ∷ to_buffer holder ∷ b ∷ [])
              program).0)
          same

  same_keys :
      (ix' : TransactionInstruction PublicKey) {ix : TransactionInstruction PublicKey}
      → some ix' ≡ some ix
      → ix.keys ≡ ix'.keys
  same_keys ix' h = ap (λ x. x.keys) (sym (some_inj h))

  -- A builder's instruction has the accounts that the program takes for the call.
  pub build-accounts_of :
      (c : Command PublicKey) {ix : TransactionInstruction PublicKey}
      → build w program mint c ≡ some ix
      → ix.keys ≡ accounts_of w program mint c
  unfolding build find_treasury_pda find_mint_authority_pda find_freeze_authority_pda
      find_escrow_authority_pda
  build-accounts_of (Command.initialize_mint admin decimals) h =
      let (_, _, built) = >>=-eq-some (encode_disc_u8 disc_initialize_mint decimals) _ h in
      same_keys _ built
  build-accounts_of (Command.mint_tokens operator destination amount) h =
      let (_, _, built) = >>=-eq-some (encode_disc_u64 disc_mint_tokens amount) _ h in
      same_keys _ built
  build-accounts_of (Command.request_redemption holder token_account amount nonce) h =
      let (_, p, rest) = >>=-eq-some (find_redemption_pda w _ holder nonce program) _ h in
      let (_, _, built) = >>=-eq-some (encode_disc_u64 disc_request_redemption amount) _ rest in
      same_keys _ built
      ∙ ap (request_redemption_accounts w program mint holder token_account)
          (find_redemption_pda-address holder nonce p)
  build-accounts_of (Command.approve_redemption operator holder token_account nonce) h =
      let (_, p, built) = >>=-eq-some (find_redemption_pda w _ holder nonce program) _ h in
      same_keys _ built
      ∙ ap (approve_redemption_accounts w program mint operator holder token_account)
          (find_redemption_pda-address holder nonce p)
  build-accounts_of (Command.cancel_redemption canceller holder token_account nonce) h =
      let (_, p, built) = >>=-eq-some (find_redemption_pda w _ holder nonce program) _ h in
      same_keys _ built
      ∙ ap (cancel_redemption_accounts w program mint canceller holder token_account)
          (find_redemption_pda-address holder nonce p)
  build-accounts_of (Command.update_mint_cap admin new_cap) h =
      let (_, _, built) = >>=-eq-some (encode_disc_u64 disc_update_mint_cap new_cap) _ h in
      same_keys _ built
  build-accounts_of (Command.freeze_account admin target) h = same_keys _ h
  build-accounts_of (Command.thaw_account admin target) h = same_keys _ h
  build-accounts_of (Command.pause admin) h = same_keys _ h
  build-accounts_of (Command.unpause admin) h = same_keys _ h
  build-accounts_of (Command.propose_admin admin new_admin) h = same_keys _ h
  build-accounts_of (Command.accept_admin new_admin) h = same_keys _ h
  build-accounts_of (Command.cancel_pending_admin admin) h = same_keys _ h
  build-accounts_of (Command.set_operator admin new_operator) h = same_keys _ h
