-- ===== src/Stablecoin/Instructions/Payload.antt =====
-- The instruction data that the builders of sdk/src/stablecoin/instructions.ts write is read back by
-- the program's dispatch: the eight-byte discriminator, then the Borsh arguments.
use zksettle.Stablecoin.Pda.{find_redemption_pda}
use zksettle.Stablecoin.Instructions.Command.{Command, build}
use zksettle.Stablecoin.Constants.{
  disc_initialize_mint, disc_propose_admin, disc_accept_admin, disc_mint_tokens,
  disc_request_redemption, disc_cancel_pending_admin, disc_approve_redemption, disc_set_operator,
  disc_update_mint_cap, disc_cancel_redemption, disc_pause, disc_freeze_account, disc_thaw_account,
  disc_unpause,
}
use zksettle.Base.{
  ℕ, ◌^◌, ◌<◌, ◌≡◌, refl, ap, Option, none, some, [], ◌∷◌, ◌++◌, ltb, ◌==◌, if◌then◌else◌, length,
  take, drop, Bool-cases, subst, inl, ltb→lt, inr,
}
use zksettle.Base.Bytes.{Bytes, le_bytes, from_le, bytes_eq, from_le-le_bytes}
use zksettle.Base.Int.{ℤ, pos, negsuc, pos_part}
use zksettle.Base.Maybe.{some_inj}
use zksettle.Base.Maybe.{>>=-eq-some}
use zksettle.Web3.{Web3, Laws}
use zksettle.Stablecoin.Encode.{TransactionInstruction, encode_disc_u64, encode_disc_u8}

-- What the program sees of a call in the instruction data.
pub data Call (Key : Type 0) : Type 0 where
  initialize_mint mint_tokens request_redemption update_mint_cap : ℕ → Call Key
  approve_redemption cancel_redemption freeze_account thaw_account : Call Key
  pause unpause accept_admin cancel_pending_admin : Call Key
  propose_admin set_operator : Key → Call Key

abbrev no_args : {Key : Type 0} → Call Key → Bytes → Option (Call Key)
no_args call [] = some call
no_args call (_ ∷ _) = none

abbrev u8_arg : {Key : Type 0} → (ℕ → Call Key) → Bytes → Option (Call Key)
u8_arg call (b ∷ []) = some (call b)
u8_arg call _ = none

abbrev u64_arg : {Key : Type 0} → (ℕ → Call Key) → Bytes → Option (Call Key)
u64_arg call args = if length args == 8 then some (call (from_le args)) else none

abbrev else_call :
    {Key : Type 0} → Bytes → Bytes → Option (Call Key) → Option (Call Key) → Option (Call Key)
else_call disc bs here later = if bytes_eq (take 8 bs) disc then here else later

module _ (w : Web3) where
  open w use {PublicKey, public_key, to_buffer}

  abbrev key_arg : (PublicKey → Call PublicKey) → Bytes → Option (Call PublicKey)
  key_arg call args = if length args == 32 then some (call (public_key args)) else none

  parse_admin : Bytes → Bytes → Option (Call PublicKey)
  parse_admin bs args = else_call disc_propose_admin bs (key_arg Call.propose_admin args) (
      else_call disc_accept_admin bs (no_args Call.accept_admin args) (
        else_call disc_cancel_pending_admin bs (no_args Call.cancel_pending_admin args) (
          else_call disc_set_operator bs (key_arg Call.set_operator args) (
            else_call disc_update_mint_cap bs (u64_arg Call.update_mint_cap args) (
              else_call disc_pause bs (no_args Call.pause args)
                (else_call disc_unpause bs (no_args Call.unpause args) none))))))

  -- The program's dispatch on its instruction data.
  pub parse : Bytes → Option (Call PublicKey)
  unfolding parse_admin bytes_eq
  parse bs =
      let args = drop 8 bs in
      else_call disc_initialize_mint bs (u8_arg Call.initialize_mint args) (
        else_call disc_mint_tokens bs (u64_arg Call.mint_tokens args) (
          else_call disc_request_redemption bs (u64_arg Call.request_redemption args) (
            else_call disc_approve_redemption bs (no_args Call.approve_redemption args) (
              else_call disc_cancel_redemption bs (no_args Call.cancel_redemption args) (
                else_call disc_freeze_account bs (no_args Call.freeze_account args) (
                  else_call disc_thaw_account bs (no_args Call.thaw_account args)
                    (parse_admin bs args)))))))

  -- The call that a builder's instruction stands for; an integer that it encodes is a number.
  abbrev pub call_of : Command PublicKey → Call PublicKey
  call_of (Command.initialize_mint admin decimals) = Call.initialize_mint (pos_part decimals)
  call_of (Command.mint_tokens operator destination amount) = Call.mint_tokens (pos_part amount)
  call_of (Command.request_redemption holder account amount nonce) =
      Call.request_redemption (pos_part amount)
  call_of (Command.approve_redemption operator holder account nonce) = Call.approve_redemption
  call_of (Command.cancel_redemption canceller holder account nonce) = Call.cancel_redemption
  call_of (Command.freeze_account admin target) = Call.freeze_account
  call_of (Command.thaw_account admin target) = Call.thaw_account
  call_of (Command.pause admin) = Call.pause
  call_of (Command.unpause admin) = Call.unpause
  call_of (Command.propose_admin admin new_admin) = Call.propose_admin new_admin
  call_of (Command.accept_admin new_admin) = Call.accept_admin
  call_of (Command.cancel_pending_admin admin) = Call.cancel_pending_admin
  call_of (Command.set_operator admin new_operator) = Call.set_operator new_operator
  call_of (Command.update_mint_cap admin new_cap) = Call.update_mint_cap (pos_part new_cap)

  -- What the encoders write, where they do not throw.
  encode_disc_u64_lem :
      (disc : Bytes) (v : ℤ) {bs : Bytes}
      → encode_disc_u64 disc v ≡ some bs
      → (disc ++ le_bytes 8 (pos_part v) ≡ bs) × (pos_part v < 2 ^ 64)
  unfolding encode_disc_u64
  encode_disc_u64_lem disc (pos n) h = elim (Bool-cases (ltb n (2 ^ 64))) [
    | inl small ↦ (some_inj (rw small at h), ltb→lt n (2 ^ 64) small)
    | inr large ↦ cc (rw large at h)
  ]
  encode_disc_u64_lem disc (negsuc n) h = cc

  encode_disc_u8_lem :
      (disc : Bytes) (v : ℤ) {bs : Bytes}
      → encode_disc_u8 disc v ≡ some bs
      → disc ++ pos_part v ∷ [] ≡ bs
  unfolding encode_disc_u8
  encode_disc_u8_lem disc (pos n) h = elim (Bool-cases (ltb n 256)) [
    | inl small ↦ some_inj (rw small at h)
    | inr large ↦ cc (rw large at h)
  ]
  encode_disc_u8_lem disc (negsuc n) h = cc

  same_data :
      (ix' : TransactionInstruction PublicKey) {ix : TransactionInstruction PublicKey}
      (call : Call PublicKey)
      → some ix' ≡ some ix
      → parse ix'.data_bytes ≡ some call
      → parse ix.data_bytes ≡ some call
  same_data ix' call e h = subst (λ x. parse x.data_bytes ≡ some call) (some_inj e) h

  u64_arg-encode :
      (call : ℕ → Call PublicKey) (n : ℕ) → n < 2 ^ 64 → u64_arg call (le_bytes 8 n) ≡ some (call n)
  u64_arg-encode call n h = ap (λ m. some (call m)) (from_le-le_bytes 8 n h)

  module _ (l : Laws w) (program mint : PublicKey) where
    key_arg-to_buffer :
        (call : PublicKey → Call PublicKey) (k : PublicKey)
        → key_arg call (to_buffer k) ≡ some (call k)
    key_arg-to_buffer call k =
        rw (l.length-to_buffer k) (ap (λ j. some (call j)) (l.public_key-to_buffer k))

    -- Whatever a builder puts into the instruction data, the program's dispatch reads back: the same
    -- call with the same arguments.
    pub parse-build :
        (c : Command PublicKey) {ix : TransactionInstruction PublicKey}
        → build w program mint c ≡ some ix
        → parse ix.data_bytes ≡ some (call_of c)
    unfolding parse build
    parse-build (Command.initialize_mint admin decimals) h =
        let (bs, e, h') = >>=-eq-some (encode_disc_u8 disc_initialize_mint decimals) _ h in
        same_data _ _ h' (rw (← encode_disc_u8_lem _ decimals e))
    parse-build (Command.mint_tokens operator destination amount) h =
        let (bs, e, h') = >>=-eq-some (encode_disc_u64 disc_mint_tokens amount) _ h in
        let (written, small) = encode_disc_u64_lem _ amount e in
        same_data _ _ h' (rw (← written) (u64_arg-encode (λ n. Call.mint_tokens n) _ small))
    parse-build (Command.request_redemption holder account amount nonce) h =
        let (pda, _, h') = >>=-eq-some (find_redemption_pda w _ holder nonce program) _ h in
        let (bs, e, h'') = >>=-eq-some (encode_disc_u64 disc_request_redemption amount) _ h' in
        let (written, small) = encode_disc_u64_lem _ amount e in
        same_data _ _ h'' (rw (← written) (u64_arg-encode (λ n. Call.request_redemption n) _ small))
    parse-build (Command.approve_redemption operator holder account nonce) h =
        let (pda, _, e) = >>=-eq-some (find_redemption_pda w _ holder nonce program) _ h in
        same_data _ _ e refl
    parse-build (Command.cancel_redemption canceller holder account nonce) h =
        let (pda, _, e) = >>=-eq-some (find_redemption_pda w _ holder nonce program) _ h in
        same_data _ _ e refl
    parse-build (Command.freeze_account admin target) h = same_data _ _ h refl
    parse-build (Command.thaw_account admin target) h = same_data _ _ h refl
    parse-build (Command.pause admin) h = same_data _ _ h refl
    parse-build (Command.unpause admin) h = same_data _ _ h refl
    parse-build (Command.propose_admin admin new_admin) h =
        same_data _ _ h (key_arg-to_buffer (λ k. Call.propose_admin k) new_admin)
    parse-build (Command.accept_admin new_admin) h = same_data _ _ h refl
    parse-build (Command.cancel_pending_admin admin) h = same_data _ _ h refl
    parse-build (Command.set_operator admin new_operator) h =
        same_data _ _ h (key_arg-to_buffer (λ k. Call.set_operator k) new_operator)
    parse-build (Command.update_mint_cap admin new_cap) h =
        let (bs, e, h') = >>=-eq-some (encode_disc_u64 disc_update_mint_cap new_cap) _ h in
        let (written, small) = encode_disc_u64_lem _ new_cap e in
        same_data _ _ h' (rw (← written) (u64_arg-encode (λ n. Call.update_mint_cap n) _ small))
