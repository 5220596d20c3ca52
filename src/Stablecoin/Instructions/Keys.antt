-- ===== src/Stablecoin/Instructions/Keys.antt =====
-- The account lists of the builders of sdk/src/stablecoin/instructions.ts, and when a builder throws.
use zksettle.Stablecoin.Constants.{
  disc_initialize_mint, disc_mint_tokens, disc_request_redemption, disc_update_mint_cap,
}
use zksettle.Base.Bytes.{Bytes}
use zksettle.Base.{
  ℕ, ◌^◌, ◌<◌, ◌≡◌, refl, some, List, [], ◌∷◌, ltb, inl, inr, ◌↔◌, if◌then◌else◌, Bool-cases,
  lt→ltb, ltb→lt,
}
use zksettle.Base.Int.{ℤ, pos, negsuc}
use zksettle.Base.Maybe.{>>=-eq-some}
use zksettle.Web3.{Web3}
use zksettle.Stablecoin.Pda.{encode_u64, find_redemption_pda, find_treasury_pda}
use zksettle.Stablecoin.Encode.{
  TransactionInstruction, AccountMeta, encode_disc_u64, encode_disc_u8,
}
use zksettle.Stablecoin.Instructions.Command.{Command, build, authority}

abbrev pub signers : {Key : Type 0} → List (AccountMeta Key) → List Key
signers [] = []
signers (k ∷ ks) = if k.is_signer then k.pubkey ∷ signers ks else signers ks

abbrev pub IsU64 : ℤ → Type 0
IsU64 (pos n) = n < 2 ^ 64
IsU64 (negsuc n) = ⊥

abbrev pub IsU8 : ℤ → Type 0
IsU8 (pos n) = n < 256
IsU8 (negsuc n) = ⊥

-- Every integer of the call fits the field that it is written to.
abbrev pub Fits : {Key : Type 0} → Command Key → Type 0
Fits (Command.initialize_mint admin decimals) = IsU8 decimals
Fits (Command.mint_tokens operator destination amount) = IsU64 amount
Fits (Command.request_redemption holder account amount nonce) = IsU64 amount × IsU64 nonce
Fits (Command.approve_redemption operator holder account nonce) = IsU64 nonce
Fits (Command.cancel_redemption canceller holder account nonce) = IsU64 nonce
Fits (Command.update_mint_cap admin new_cap) = IsU64 new_cap
Fits _ = Unit

encode_u64-fits : (v : ℤ) → IsU64 v → (bs : Bytes) × (encode_u64 v ≡ some bs)
unfolding encode_u64
encode_u64-fits (pos n) h = rw (lt→ltb n (2 ^ 64) h) (_, refl)
encode_u64-fits (negsuc n) h = absurd h

encode_u64-IsU64 : (v : ℤ) {bs : Bytes} → encode_u64 v ≡ some bs → IsU64 v
unfolding encode_u64
encode_u64-IsU64 (pos n) h = elim (Bool-cases (ltb n (2 ^ 64))) [
  | inl small ↦ ltb→lt n (2 ^ 64) small
  | inr large ↦ cc (rw large at h)
]
encode_u64-IsU64 (negsuc n) h = cc

encode_disc_u64-fits :
    (disc : Bytes) (v : ℤ) → IsU64 v → (bs : Bytes) × (encode_disc_u64 disc v ≡ some bs)
unfolding encode_disc_u64
encode_disc_u64-fits disc (pos n) h = rw (lt→ltb n (2 ^ 64) h) (_, refl)
encode_disc_u64-fits disc (negsuc n) h = absurd h

encode_disc_u64-IsU64 :
    (disc : Bytes) (v : ℤ) {bs : Bytes} → encode_disc_u64 disc v ≡ some bs → IsU64 v
unfolding encode_disc_u64
encode_disc_u64-IsU64 disc (pos n) h = elim (Bool-cases (ltb n (2 ^ 64))) [
  | inl small ↦ ltb→lt n (2 ^ 64) small
  | inr large ↦ cc (rw large at h)
]
encode_disc_u64-IsU64 disc (negsuc n) h = cc

encode_disc_u8-fits :
    (disc : Bytes) (v : ℤ) → IsU8 v → (bs : Bytes) × (encode_disc_u8 disc v ≡ some bs)
unfolding encode_disc_u8
encode_disc_u8-fits disc (pos n) h = rw (lt→ltb n 256 h) (_, refl)
encode_disc_u8-fits disc (negsuc n) h = absurd h

encode_disc_u8-IsU8 : (disc : Bytes) (v : ℤ) {bs : Bytes} → encode_disc_u8 disc v ≡ some bs → IsU8 v
unfolding encode_disc_u8
encode_disc_u8-IsU8 disc (pos n) h = elim (Bool-cases (ltb n 256)) [
  | inl small ↦ ltb→lt n 256 small
  | inr large ↦ cc (rw large at h)
]
encode_disc_u8-IsU8 disc (negsuc n) h = cc

module _ (w : Web3) (program mint : w.PublicKey) where
  open w use {PublicKey}

  find_redemption_pda-fits :
      (t holder : PublicKey) (nonce : ℤ)
      → IsU64 nonce
      → (pda : PublicKey × ℕ) × (find_redemption_pda w t holder nonce program ≡ some pda)
  unfolding find_redemption_pda
  find_redemption_pda-fits t holder nonce h =
      let (bs, e) = encode_u64-fits nonce h in rw e (_, refl)

  find_redemption_pda-IsU64 :
      (t holder : PublicKey) (nonce : ℤ) {pda : PublicKey × ℕ}
      → find_redemption_pda w t holder nonce program ≡ some pda
      → IsU64 nonce
  unfolding find_redemption_pda
  find_redemption_pda-IsU64 t holder nonce h =
      let (bs, e, _) = >>=-eq-some (encode_u64 nonce) _ h in encode_u64-IsU64 nonce e

  -- An instruction for the called program, which exactly this account signs.
  abbrev pub IsSignedBy : PublicKey → TransactionInstruction PublicKey → Type 0
  IsSignedBy key ix = (ix.program_id ≡ program) × (signers ix.keys ≡ key ∷ [])

  pub build_of_Fits :
      (c : Command PublicKey)
      → Fits c
      → (ix : TransactionInstruction PublicKey) × (build w program mint c ≡ some ix)
        × IsSignedBy (authority c) ix
  unfolding build
  build_of_Fits (Command.initialize_mint admin decimals) h =
      let (bs, e) = encode_disc_u8-fits disc_initialize_mint decimals h in
      rw e (_, refl, (refl, refl))
  build_of_Fits (Command.mint_tokens operator destination amount) h =
      let (bs, e) = encode_disc_u64-fits disc_mint_tokens amount h in rw e (_, refl, (refl, refl))
  build_of_Fits (Command.request_redemption holder account amount nonce) (h, k) =
      let (bs, e) = encode_disc_u64-fits disc_request_redemption amount h in
      let (pda, p) = find_redemption_pda-fits (find_treasury_pda w mint program).0 holder nonce k in
      rw (p, e) (_, refl, (refl, refl))
  build_of_Fits (Command.approve_redemption operator holder account nonce) h =
      let (pda, p) = find_redemption_pda-fits (find_treasury_pda w mint program).0 holder nonce h in
      rw p (_, refl, (refl, refl))
  build_of_Fits (Command.cancel_redemption canceller holder account nonce) h =
      let (pda, p) = find_redemption_pda-fits (find_treasury_pda w mint program).0 holder nonce h in
      rw p (_, refl, (refl, refl))
  build_of_Fits (Command.update_mint_cap admin new_cap) h =
      let (bs, e) = encode_disc_u64-fits disc_update_mint_cap new_cap h in
      rw e (_, refl, (refl, refl))
  build_of_Fits _ h = (_, refl, (refl, refl))

  Fits-build :
      (c : Command PublicKey) {ix : TransactionInstruction PublicKey}
      → build w program mint c ≡ some ix
      → Fits c
  unfolding build
  Fits-build (Command.initialize_mint admin decimals) h =
      let (_, e, _) = >>=-eq-some (encode_disc_u8 disc_initialize_mint decimals) _ h in
      encode_disc_u8-IsU8 _ decimals e
  Fits-build (Command.mint_tokens operator destination amount) h =
      let (_, e, _) = >>=-eq-some (encode_disc_u64 disc_mint_tokens amount) _ h in
      encode_disc_u64-IsU64 _ amount e
  Fits-build (Command.request_redemption holder account amount nonce) h =
      let (_, p, h') = >>=-eq-some (find_redemption_pda w _ holder nonce program) _ h in
      let (_, e, _) = >>=-eq-some (encode_disc_u64 disc_request_redemption amount) _ h' in
      (encode_disc_u64-IsU64 _ amount e, find_redemption_pda-IsU64 _ holder nonce p)
  Fits-build (Command.approve_redemption operator holder account nonce) h =
      let (_, p, _) = >>=-eq-some (find_redemption_pda w _ holder nonce program) _ h in
      find_redemption_pda-IsU64 _ holder nonce p
  Fits-build (Command.cancel_redemption canceller holder account nonce) h =
      let (_, p, _) = >>=-eq-some (find_redemption_pda w _ holder nonce program) _ h in
      find_redemption_pda-IsU64 _ holder nonce p
  Fits-build (Command.update_mint_cap admin new_cap) h =
      let (_, e, _) = >>=-eq-some (encode_disc_u64 disc_update_mint_cap new_cap) _ h in
      encode_disc_u64-IsU64 _ new_cap e
  Fits-build _ h = tt

  -- A builder returns an instruction exactly when every integer that it is given fits its field; the
  -- instruction is for the called program, and the call's authority is its one signer.
  pub build_iff :
      (c : Command PublicKey)
      → Fits c ↔ (
          (ix : TransactionInstruction PublicKey) × (build w program mint c ≡ some ix)
          × IsSignedBy (authority c) ix)
  build_iff c = (build_of_Fits c, λ r. Fits-build c r.1)
