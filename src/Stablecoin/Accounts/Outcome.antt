-- ===== src/Stablecoin/Accounts/Outcome.antt =====
-- When the decoders of sdk/src/stablecoin/accounts.ts return, and what they throw otherwise.
use zksettle.Stablecoin.Constants.{disc_treasury}
use zksettle.Base.{
  length, ℕ, Option, ◌<◌, ◌≡◌, ◌+◌, err, ◌≤◌, Bool-cases, IsOk, ◌≢◌, leb, arith, if◌then◌else◌,
  lt→ltb, ◌==◌, ltb-false, not, ◌⊎◌, ltb, ltb→lt, ltb-ge,
}
use zksettle.Base.Bytes.{
  Bytes, read_u8, subarray, read_u8-in, read_u64_le-in, read_u64_le-past, read_u8-past,
  bytes_eq-false, bytes_eq_iff, from_le, bytes_eq,
}
use zksettle.Web3.{Web3}
use zksettle.Base.{none, some, inl, inr, refl}
use zksettle.Stablecoin.Accounts.{
  decode_treasury, decode_treasury_tail, Treasury, out_of_range, too_short, invalid_discriminator,
}

-- The length that `decodeTreasury` reads: 175 bytes behind the option tag 1, else 143.
pub treasury_len : Bytes → ℕ
treasury_len buf = elim (read_u8 buf 125) [ none ↦ 143 | some tag ↦ if tag == 1 then 175 else 143 ]

module _ (w : Web3) where
  open w use {PublicKey, public_key}

  -- The tail returns exactly when its 17 bytes are there; otherwise a read throws.
  decode_treasury_tail-in :
      (buf : Bytes) (o : ℕ) (finish : Option PublicKey → ℕ → ℕ → ℕ → Treasury PublicKey)
      (p : Option PublicKey)
      → o + 17 ≤ length buf
      → IsOk (decode_treasury_tail w buf o finish p)
  unfolding decode_treasury_tail
  decode_treasury_tail-in buf o finish p h =
      let (b, read_b) = read_u8-in buf (o + 8 + 8) (omega arith) in
      rw (read_u64_le-in buf o (omega arith), read_u64_le-in buf (o + 8) (omega arith), read_b)
        (_, refl)

  decode_treasury_tail-past :
      (buf : Bytes) (o : ℕ) (finish : Option PublicKey → ℕ → ℕ → ℕ → Treasury PublicKey)
      (p : Option PublicKey)
      → length buf < o + 17
      → decode_treasury_tail w buf o finish p ≡ err out_of_range
  unfolding decode_treasury_tail
  decode_treasury_tail-past buf o finish p h = elim (Bool-cases (leb (o + 8) (length buf))) [
    | inr short ↦ rw (read_u64_le-past buf o (ground arith))
    | inl long ↦ elim (Bool-cases (leb (o + 16) (length buf))) [
      | inr short ↦
          rw (read_u64_le-in buf o (ground arith), read_u64_le-past buf (o + 8) (ground arith))
      | inl longer ↦ rw (
        read_u64_le-in buf o (ground arith),
        read_u64_le-in buf (o + 8) (ground arith),
        read_u8-past buf (o + 8 + 8) (ground arith),
      )
    ]
  ]

  -- Where the length and the discriminator pass, every read up to the option tag succeeds.
  decode_treasury_head :
      (buf : Bytes)
      → 143 ≤ length buf
      → subarray buf 0 8 ≡ disc_treasury
      → (finish : (Option PublicKey → ℕ → ℕ → ℕ → Treasury PublicKey)) × (tag : ℕ) × (read_u8 buf
            125
          ≡ some tag)
        × (decode_treasury w buf ≡ (
            if tag == 1
            then decode_treasury_tail w buf 158 finish (some (public_key (subarray buf 126 32)))
            else decode_treasury_tail w buf 126 finish none))
  unfolding decode_treasury
  decode_treasury_head buf h disc =
      let (b104, r104) = read_u8-in buf 104 (omega arith) in
      let (b105, r105) = read_u8-in buf 105 (omega arith) in
      let (b106, r106) = read_u8-in buf 106 (omega arith) in
      let (b123, r123) = read_u8-in buf 123 (omega arith) in
      let (b124, r124) = read_u8-in buf 124 (omega arith) in
      let (b125, r125) = read_u8-in buf 125 (omega arith) in
      let finish : Option PublicKey → ℕ → ℕ → ℕ → Treasury PublicKey = λ pending cap nonce bump.
        record {
          admin = public_key (subarray buf 8 32);
          operator = public_key (subarray buf 40 32);
          mint = public_key (subarray buf 72 32);
          mint_authority_bump = b104;
          freeze_authority_bump = b105;
          bump = b106;
          total_minted = from_le (subarray buf 107 8);
          total_burned = from_le (subarray buf 115 8);
          decimals = b123;
          paused = not (b124 == 0);
          pending_admin = pending;
          mint_cap = cap;
          redemption_nonce = nonce;
          escrow_authority_bump = bump;
        } in
      rw
        (
          ltb-false (length buf) 143 h,
          (bytes_eq_iff (subarray buf 0 8) disc_treasury).1 disc,
          r104,
          r105,
          r106,
          read_u64_le-in buf 107 (omega arith),
          read_u64_le-in buf 115 (omega arith),
          r123,
          r124,
          r125,
        )
        (finish, b125, refl, refl)

  branch_in :
      (buf : Bytes) (finish : Option PublicKey → ℕ → ℕ → ℕ → Treasury PublicKey) (tag : ℕ)
      → (if tag == 1 then 175 else 143) ≤ length buf
      → IsOk (
          if tag == 1
          then decode_treasury_tail w buf 158 finish (some (public_key (subarray buf 126 32)))
          else decode_treasury_tail w buf 126 finish none)
  branch_in buf finish tag h = elim (Bool-cases (tag == 1)) [
    | inl one ↦ rw one (decode_treasury_tail-in buf 158 finish _ (rw one at h))
    | inr other ↦ rw other (decode_treasury_tail-in buf 126 finish none (rw other at h))
  ]

  branch_past :
      (buf : Bytes) (finish : Option PublicKey → ℕ → ℕ → ℕ → Treasury PublicKey) (tag : ℕ)
      → length buf < (if tag == 1 then 175 else 143)
      → (if tag == 1
          then decode_treasury_tail w buf 158 finish (some (public_key (subarray buf 126 32)))
          else decode_treasury_tail w buf 126 finish none)
        ≡ err out_of_range
  branch_past buf finish tag h = elim (Bool-cases (tag == 1)) [
    | inl one ↦ rw one (decode_treasury_tail-past buf 158 finish _ (rw one at h))
    | inr other ↦ rw other (decode_treasury_tail-past buf 126 finish none (rw other at h))
  ]

  treasury_len_of :
      (buf : Bytes) (tag : ℕ)
      → read_u8 buf 125 ≡ some tag
      → treasury_len buf ≡ (if tag == 1 then 175 else 143)
  unfolding treasury_len
  treasury_len_of buf tag r = rw (r, treasury_len)

  decode_treasury_outcome :
      (buf : Bytes)
      → (length buf < 143 → decode_treasury w buf ≡ err (too_short (length buf)))
        × (143 ≤ length buf
            → subarray buf 0 8 ≢ disc_treasury
            → decode_treasury w buf ≡ err invalid_discriminator)
        × (143 ≤ length buf
            → subarray buf 0 8 ≡ disc_treasury
            → length buf < treasury_len buf
            → decode_treasury w buf ≡ err out_of_range)
        × (143 ≤ length buf
            → subarray buf 0 8 ≡ disc_treasury
            → treasury_len buf ≤ length buf
            → IsOk (decode_treasury w buf))
  unfolding decode_treasury
  decode_treasury_outcome buf = (
    λ h. rw (lt→ltb (length buf) 143 h),
    λ h wrong.
        rw (ltb-false (length buf) 143 h, bytes_eq-false (subarray buf 0 8) disc_treasury wrong),
    λ h disc short.
        let (finish, tag, r, e) = decode_treasury_head buf h disc in
        rw e (branch_past buf finish tag (omega (arith, treasury_len_of buf tag r))),
    λ h disc enough.
        let (finish, tag, r, e) = decode_treasury_head buf h disc in
        rw e (branch_in buf finish tag (omega (arith, treasury_len_of buf tag r))),
  )

  -- `decodeTreasury` does one of four things: below 143 bytes it throws "too short"; from there on it
  -- throws "invalid discriminator" for a wrong first eight bytes; behind the right ones it throws a
  -- `RangeError` if the option tag asks for more bytes than there are, and returns a treasury
  -- otherwise.
  pub decode_treasury_cases :
      (buf : Bytes)
      → ((length buf < 143) × (decode_treasury w buf ≡ err (too_short (length buf))))
        ⊎ ((143 ≤ length buf)
            × (subarray buf 0 8 ≢ disc_treasury)
            × (decode_treasury w buf ≡ err invalid_discriminator))
        ⊎ ((143 ≤ length buf)
            × (subarray buf 0 8 ≡ disc_treasury)
            × (length buf < treasury_len buf)
            × (decode_treasury w buf ≡ err out_of_range))
        ⊎ ((143 ≤ length buf)
            × (subarray buf 0 8 ≡ disc_treasury)
            × (treasury_len buf ≤ length buf)
            × IsOk (decode_treasury w buf))
  decode_treasury_cases buf =
      let (short, wrong, past, within) = decode_treasury_outcome buf in
      elim (Bool-cases (ltb (length buf) 143)) [
        | inl less ↦ let h = ltb→lt _ _ less in inl (h, short h)
        | inr more ↦
            let h = ltb-ge _ _ more in
            elim (Bool-cases (bytes_eq (subarray buf 0 8) disc_treasury)) [
              | inr other ↦
                  let differs : subarray buf 0 8 ≢ disc_treasury =
                    λ e. cc ((bytes_eq_iff (subarray buf 0 8) disc_treasury).1 e) in
                  inr (inl (h, differs, wrong h differs))
              | inl same ↦
                  let disc = (bytes_eq_iff (subarray buf 0 8) disc_treasury).0 same in
                  elim (Bool-cases (ltb (length buf) (treasury_len buf))) [
                    | inl less ↦
                        let k = ltb→lt _ _ less in inr (inr (inl (h, disc, k, past h disc k)))
                    | inr enough ↦
                        let k = ltb-ge _ _ enough in inr (inr (inr (h, disc, k, within h disc k)))
                  ]
            ]
      ]
