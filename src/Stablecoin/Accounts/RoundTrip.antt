-- ===== src/Stablecoin/Accounts/RoundTrip.antt =====
-- The decoders of sdk/src/stablecoin/accounts.ts read back what the program's layout writes.
use zksettle.Base.Int.{ℤ, pos, negsuc}
use zksettle.Stablecoin.Constants.{disc_treasury, disc_redemption_request}
use zksettle.Base.{
  true, false, ℕ, ◌+◌, ◌≡◌, refl, ◌∙◌, ap, Option, ◌++◌, drop, ok, length, ltb, false, Bool, some,
  not, if◌then◌else◌, ◌==◌, ◌<◌, ◌∷◌, [], arith, none, ltb-false, length-drop, length-append, ◌^◌,
  ◌-◌,
}
use zksettle.Base.Bytes.{
  Bytes, le_bytes, length-le_bytes, read_u8-at, read_u64_le-at, subarray-at, advance, subarray,
  read_u8, bytes_eq_refl,
}
use zksettle.Web3.{Web3, Laws}
use zksettle.Stablecoin.Accounts.{
  Treasury, decode_treasury_tail, decode_treasury, decode_redemption_request, RedemptionRequest,
  signed64,
}
use zksettle.Stablecoin.Accounts.Layout.{
  FitsTreasury, encode_treasury_tail, encode_option, encode_treasury, bool_byte, IsI64,
  FitsRedemption, word64, encode_redemption_request,
}

module _ (w : Web3) (l : Laws w) where
  open w use {PublicKey, to_buffer, public_key}

  key-at :
      (buf : Bytes) (o : ℕ) (k : PublicKey) (xs : Bytes)
      → drop o buf ≡ to_buffer k ++ xs
      → public_key (subarray buf o 32) ≡ k
  key-at buf o k xs h =
      ap public_key (subarray-at buf o 32 (to_buffer k) xs h (l.length-to_buffer k))
      ∙ l.public_key-to_buffer k

  past-key :
      (buf : Bytes) (o o' : ℕ) (k : PublicKey) (xs : Bytes)
      → drop o buf ≡ to_buffer k ++ xs
      → o + 32 ≡ o'
      → drop o' buf ≡ xs
  past-key buf o o' k xs h e = advance buf o 32 o' (to_buffer k) xs h (l.length-to_buffer k) e

  past-u64 :
      (buf : Bytes) (o o' n : ℕ) (xs : Bytes)
      → drop o buf ≡ le_bytes 8 n ++ xs
      → o + 8 ≡ o'
      → drop o' buf ≡ xs
  past-u64 buf o o' n xs h e = advance buf o 8 o' (le_bytes 8 n) xs h (length-le_bytes 8 n) e

  decode_treasury_tail-encode :
      (buf : Bytes) (o : ℕ) (t : Treasury PublicKey) (rest : Bytes)
      (finish : Option PublicKey → ℕ → ℕ → ℕ → Treasury PublicKey) (pending : Option PublicKey)
      → FitsTreasury t
      → drop o buf ≡ encode_treasury_tail w t rest
      → decode_treasury_tail w buf o finish pending
        ≡ ok (finish pending t.mint_cap t.redemption_nonce t.escrow_authority_bump)
  unfolding decode_treasury_tail
  decode_treasury_tail-encode buf o t rest finish pending fits h =
      let h8 : drop (o + 8) buf ≡ _ = past-u64 buf o (o + 8) t.mint_cap _ h refl in
      let h16 : drop (o + 8 + 8) buf ≡ _ =
        past-u64 buf (o + 8) (o + 8 + 8) t.redemption_nonce _ h8 refl in
      rw (
        read_u64_le-at buf o t.mint_cap _ h fits.mint_cap,
        read_u64_le-at buf (o + 8) t.redemption_nonce _ h8 fits.redemption_nonce,
        read_u8-at buf (o + 8 + 8) t.escrow_authority_bump rest h16,
      )

  past-bytes :
      (buf : Bytes) (o len o' : ℕ) (ys xs : Bytes)
      → drop o buf ≡ ys ++ xs
      → length ys ≡ len
      → o + len ≡ o'
      → drop o' buf ≡ xs
  past-bytes = advance

  -- The 18 bytes behind `paused`, at least, keep the buffer over the decoder's minimum.
  encode_treasury-long :
      (buf : Bytes) (t : Treasury PublicKey) (rest : Bytes)
      → drop 125 buf ≡ encode_option w t.pending_admin ++ encode_treasury_tail w t rest
      → ltb (length buf) 143 ≡ false
  encode_treasury-long buf t rest h = ltb-false (length buf) 143 (
      omega (
        arith,
        length-drop 125 buf,
        ap length h,
        length-append (encode_option w t.pending_admin) (encode_treasury_tail w t rest),
        encode_option-pos t.pending_admin,
        length-append (le_bytes 8 t.mint_cap)
            (le_bytes 8 t.redemption_nonce ++ (t.escrow_authority_bump ∷ rest)),
        length-append (le_bytes 8 t.redemption_nonce) (t.escrow_authority_bump ∷ rest),
      ))
    where
      encode_option-pos : (p : Option PublicKey) → 0 < length (encode_option w p)
      encode_option-pos none = omega arith
      encode_option-pos (some k) = omega arith

  -- The tag and what is read behind it, for both values of `pendingAdmin`.
  decode_pending-encode :
      (buf : Bytes) (t : Treasury PublicKey) (rest : Bytes)
      (finish : Option PublicKey → ℕ → ℕ → ℕ → Treasury PublicKey) (p : Option PublicKey)
      → FitsTreasury t
      → drop 125 buf ≡ encode_option w p ++ encode_treasury_tail w t rest
      → (tag : ℕ) × (read_u8 buf 125 ≡ some tag)
        × ((if tag == 1
              then decode_treasury_tail w buf 158 finish (some (public_key (subarray buf 126 32)))
              else decode_treasury_tail w buf 126 finish none)
            ≡ ok (finish p t.mint_cap t.redemption_nonce t.escrow_authority_bump))
  decode_pending-encode buf t rest finish none fits h =
      let h126 : drop 126 buf ≡ _ = advance buf 125 1 126 (0 ∷ []) _ h refl refl in
      (
        0,
        read_u8-at buf 125 0 _ h,
        decode_treasury_tail-encode buf 126 t rest finish none fits h126,
      )
  decode_pending-encode buf t rest finish (some k) fits h =
      let h126 : drop 126 buf ≡ _ = advance buf 125 1 126 (1 ∷ []) _ h refl refl in
      let h158 : drop 158 buf ≡ _ = past-key buf 126 158 k _ h126 refl in
      (
        1,
        read_u8-at buf 125 1 _ h,
        rw (key-at buf 126 k _ h126)
            (decode_treasury_tail-encode buf 158 t rest finish (some k) fits h158),
      )

  paused-encode : (b : Bool) → not (bool_byte b == 0) ≡ b
  paused-encode true = refl
  paused-encode false = refl

  -- Decoding an account that holds a treasury in the program's layout, whatever follows it, gives
  -- that treasury.
  pub decode_treasury-encode_treasury :
      (t : Treasury PublicKey) (rest : Bytes)
      → FitsTreasury t
      → decode_treasury w (encode_treasury w t rest) ≡ ok t
  unfolding decode_treasury
  decode_treasury-encode_treasury t rest fits =
      let buf : Bytes = encode_treasury w t rest in
      let h8 : drop 8 buf ≡ _ = refl in
      let h40 : drop 40 buf ≡ _ = past-key buf 8 40 t.admin _ h8 refl in
      let h72 : drop 72 buf ≡ _ = past-key buf 40 72 t.operator _ h40 refl in
      let h104 : drop 104 buf ≡ _ = past-key buf 72 104 t.mint _ h72 refl in
      let h105 : drop 105 buf ≡ _ =
        advance buf 104 1 105 (t.mint_authority_bump ∷ []) _ h104 refl refl in
      let h106 : drop 106 buf ≡ _ =
        advance buf 105 1 106 (t.freeze_authority_bump ∷ []) _ h105 refl refl in
      let h107 : drop 107 buf ≡ _ = advance buf 106 1 107 (t.bump ∷ []) _ h106 refl refl in
      let h115 : drop 115 buf ≡ _ = past-u64 buf 107 115 t.total_minted _ h107 refl in
      let h123 : drop 123 buf ≡ _ = past-u64 buf 115 123 t.total_burned _ h115 refl in
      let h124 : drop 124 buf ≡ _ = advance buf 123 1 124 (t.decimals ∷ []) _ h123 refl refl in
      let h125 : drop 125 buf ≡ _ =
        advance buf 124 1 125 (bool_byte t.paused ∷ []) _ h124 refl refl in
      let finish : Option PublicKey → ℕ → ℕ → ℕ → Treasury PublicKey = λ p cap nonce bump.
        record t {
          pending_admin = p;
          mint_cap = cap;
          redemption_nonce = nonce;
          escrow_authority_bump = bump;
        } in
      let (tag, read_tag, tail) =
        decode_pending-encode buf t rest finish t.pending_admin fits h125 in
      rw
        (
          encode_treasury-long buf t rest h125,
          bytes_eq_refl disc_treasury,
          key-at buf 8 t.admin _ h8,
          key-at buf 40 t.operator _ h40,
          key-at buf 72 t.mint _ h72,
          read_u8-at buf 104 t.mint_authority_bump _ h104,
          read_u8-at buf 105 t.freeze_authority_bump _ h105,
          read_u8-at buf 106 t.bump _ h106,
          read_u64_le-at buf 107 t.total_minted _ h107 fits.total_minted,
          read_u64_le-at buf 115 t.total_burned _ h115 fits.total_burned,
          read_u8-at buf 123 t.decimals _ h123,
          read_u8-at buf 124 (bool_byte t.paused) _ h124,
          paused-encode t.paused,
          read_tag,
        )
        tail

  word64-in : (n : ℤ) → IsI64 n → word64 n < 2 ^ 64
  word64-in (pos n) h = omega arith
  word64-in (negsuc n) h = omega arith

  signed64-word64 : (n : ℤ) → IsI64 n → signed64 (word64 n) ≡ n
  signed64-word64 (pos n) h = ground arith
  signed64-word64 (negsuc n) h =
      let high : ltb (2 ^ 64 - n - 1) (2 ^ 63) ≡ false = ltb-false _ _ (omega arith) in
      let back : 2 ^ 64 - (2 ^ 64 - n - 1) - 1 ≡ n = omega arith in rw (high, back)

  encode_redemption-long :
      (buf : Bytes) (n bump : ℕ) (rest : Bytes)
      → drop 152 buf ≡ le_bytes 8 n ++ (bump ∷ rest)
      → ltb (length buf) 161 ≡ false
  encode_redemption-long buf n bump rest h =
      ltb-false (length buf) 161 (
        omega (arith, length-drop 152 buf, ap length h, length-append (le_bytes 8 n) (bump ∷ rest)))

  -- Decoding an account that holds a redemption request in the program's layout, whatever follows
  -- it, gives that request, its signed time stamp included.
  pub decode_redemption_request-encode :
      (r : RedemptionRequest PublicKey) (rest : Bytes)
      → FitsRedemption r
      → decode_redemption_request w (encode_redemption_request w r rest) ≡ ok r
  unfolding decode_redemption_request
  decode_redemption_request-encode r rest fits =
      let buf : Bytes = encode_redemption_request w r rest in
      let h8 : drop 8 buf ≡ _ = refl in
      let h40 : drop 40 buf ≡ _ = past-key buf 8 40 r.holder _ h8 refl in
      let h72 : drop 72 buf ≡ _ = past-key buf 40 72 r.treasury _ h40 refl in
      let h104 : drop 104 buf ≡ _ = past-key buf 72 104 r.mint _ h72 refl in
      let h136 : drop 136 buf ≡ _ = past-key buf 104 136 r.token_account _ h104 refl in
      let h144 : drop 144 buf ≡ _ = past-u64 buf 136 144 r.amount _ h136 refl in
      let h152 : drop 152 buf ≡ _ = past-u64 buf 144 152 r.nonce _ h144 refl in
      let h160 : drop 160 buf ≡ _ = past-u64 buf 152 160 (word64 r.requested_at) _ h152 refl in
      rw (
        encode_redemption-long buf (word64 r.requested_at) r.bump rest h152,
        bytes_eq_refl disc_redemption_request,
        key-at buf 8 r.holder _ h8,
        key-at buf 40 r.treasury _ h40,
        key-at buf 72 r.mint _ h72,
        key-at buf 104 r.token_account _ h104,
        read_u64_le-at buf 136 r.amount _ h136 fits.amount,
        read_u64_le-at buf 144 r.nonce _ h144 fits.nonce,
        read_u64_le-at buf 152 (word64 r.requested_at) _ h152
            (word64-in r.requested_at fits.requested_at),
        read_u8-at buf 160 r.bump rest h160,
        signed64-word64 r.requested_at fits.requested_at,
      )
