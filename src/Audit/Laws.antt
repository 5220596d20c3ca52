-- ===== src/Audit/Laws.antt =====
-- What sdk/src/audit promises: the event in the program's layout is read back, the parser never
-- throws, and `audit` returns the first event of the logs.
use zksettle.Base.Text.{Text, starts_with}
use zksettle.Audit.{
  parse_proof_settled, drop, parse_fields, disc_loop, AuditTrail, subarray, length, ok, some, true,
  Text, proof_settled_discriminator, audit, Option, List, scan_logs, starts_with, or_throw,
  program_data, no_event_found, err, get_elem?, ltb,
}
use zksettle.Base.Bytes.{
  Bytes, subarray, subarray-at, advance, le_bytes, length-le_bytes, read_u64_le-at, read_u64_le-in,
}
use zksettle.Base.{
  ℕ, refl, none, some, inl, inr, [], ◌∷◌, suc, ◌≡◌, drop, ◌++◌, ◌≤◌, ap, length, some, arith, ◌∙◌,
  length-drop, length-append, ltb-false, true, IsOk, ◌+◌, take, List, Option, ◌↔◌, ◌<◌,
  if◌then◌else◌, or_throw, ◌⊎◌, ◌≢◌, Bool-cases, Option-cases, get_elem?, ltb, ltb→lt, ltb-ge,
}
use zksettle.Web3.{Web3, Laws}
use zksettle.Audit.Layout.{FitsTrail, encode_event}

module _ (w : Web3) (l : Laws w) where
  open w use {PublicKey, to_buffer, public_key}

  key-at :
      (buf : Bytes) (o : ℕ) (k : PublicKey) (xs : Bytes)
      → drop o buf ≡ to_buffer k ++ xs
      → public_key (subarray buf o 32) ≡ k
  key-at buf o k xs h =
      ap public_key (subarray-at buf o 32 (to_buffer k) xs h (l.length-to_buffer k))
      ∙ l.public_key-to_buffer k

  encode_event-long :
      (buf : Bytes) (k : PublicKey) (rest : Bytes)
      → drop 265 buf ≡ to_buffer k ++ rest
      → 297 ≤ length buf
  encode_event-long buf k rest h = omega (
    arith,
    length-drop 265 buf,
    ap length h,
    length-append (to_buffer k) rest,
    l.length-to_buffer k,
  )

  -- An event that the program emits, of any version and with any bytes behind it, is read back whole.
  pub parse_proof_settled-encode_event :
      (version : ℕ) (t : AuditTrail PublicKey) (rest : Bytes)
      → FitsTrail t
      → parse_proof_settled w (encode_event w version t rest) ≡ ok (some t)
  unfolding parse_proof_settled parse_fields disc_loop
  parse_proof_settled-encode_event version t rest fits =
      let buf : Bytes = encode_event w version t rest in
      let past = advance buf in
      let h9 : drop 9 buf ≡ _ = refl in
      let h41 : drop 41 buf ≡ _ =
        past 9 32 41 (to_buffer t.issuer) _ h9 (l.length-to_buffer _) refl in
      let h73 : drop 73 buf ≡ _ = past 41 32 73 t.nullifier_hash _ h41 fits.nullifier_hash refl in
      let h105 : drop 105 buf ≡ _ = past 73 32 105 t.merkle_root _ h73 fits.merkle_root refl in
      let h137 : drop 137 buf ≡ _ =
        past 105 32 137 t.sanctions_root _ h105 fits.sanctions_root refl in
      let h169 : drop 169 buf ≡ _ =
        past 137 32 169 t.jurisdiction_root _ h137 fits.jurisdiction_root refl in
      let h201 : drop 201 buf ≡ _ =
        past 169 32 201 (to_buffer t.mint) _ h169 (l.length-to_buffer _) refl in
      let h233 : drop 233 buf ≡ _ =
        past 201 32 233 (to_buffer t.recipient) _ h201 (l.length-to_buffer _) refl in
      let h241 : drop 241 buf ≡ _ =
        past 233 8 241 (le_bytes 8 t.amount) _ h233 (length-le_bytes 8 t.amount) refl in
      let h249 : drop 249 buf ≡ _ =
        past 241 8 249 (le_bytes 8 t.epoch) _ h241 (length-le_bytes 8 t.epoch) refl in
      let h257 : drop 257 buf ≡ _ =
        past 249 8 257 (le_bytes 8 t.timestamp) _ h249 (length-le_bytes 8 t.timestamp) refl in
      let h265 : drop 265 buf ≡ _ =
        past 257 8 265 (le_bytes 8 t.slot) _ h257 (length-le_bytes 8 t.slot) refl in
      let long : 297 ≤ length buf = encode_event-long buf t.payer rest h265 in
      rw (
        ltb-false (length buf) 8 (omega (arith, long)),
        ltb-false (length buf) 297 long,
        read_u64_le-at buf 233 t.amount _ h233 fits.amount,
        read_u64_le-at buf 241 t.epoch _ h241 fits.epoch,
        read_u64_le-at buf 249 t.timestamp _ h249 fits.timestamp,
        read_u64_le-at buf 257 t.slot _ h257 fits.slot,
        key-at buf 9 t.issuer _ h9,
        subarray-at buf 41 32 t.nullifier_hash _ h41 fits.nullifier_hash,
        subarray-at buf 73 32 t.merkle_root _ h73 fits.merkle_root,
        subarray-at buf 105 32 t.sanctions_root _ h105 fits.sanctions_root,
        subarray-at buf 137 32 t.jurisdiction_root _ h137 fits.jurisdiction_root,
        key-at buf 169 t.mint _ h169,
        key-at buf 201 t.recipient _ h201,
        key-at buf 265 t.payer _ h265,
      )

disc_loop-shift :
    (x : ℕ) (buf : Bytes) (i : ℕ) (ds : Bytes) → disc_loop (x ∷ buf) (suc i) ds ≡ disc_loop buf i ds
unfolding disc_loop
disc_loop-shift x buf i [] = refl
disc_loop-shift x buf i (d ∷ ds) =
    let e : suc i + 1 ≡ suc (i + 1) = omega arith in
    elim (Option-cases (get_elem? buf i)) [
      | inl past ↦ rw (past, disc_loop)
      | inr (b, there) ↦ rw (there, disc_loop) (rw (e, disc_loop-shift x buf (i + 1) ds))
    ]

-- The loop compares the first bytes of the buffer with the discriminator.
disc_loop_iff : (buf ds : Bytes) → (disc_loop buf 0 ds ≡ true) ↔ (take (length ds) buf ≡ ds)
unfolding disc_loop
disc_loop_iff buf [] = ground arith
disc_loop_iff [] (d ∷ ds) = ground arith
disc_loop_iff (x ∷ buf) (d ∷ ds) =
    rw (disc_loop-shift x buf 0 ds) (ground (arith, disc_loop_iff buf ds))

module _ (w : Web3) where
  open w use {PublicKey}

  parse_fields-in : (buf : Bytes) → 297 ≤ length buf → IsOk (parse_fields w buf)
  unfolding parse_fields
  parse_fields-in buf h =
      rw
        (
          read_u64_le-in buf 233 (omega (arith, h)),
          read_u64_le-in buf 241 (omega (arith, h)),
          read_u64_le-in buf 249 (omega (arith, h)),
          read_u64_le-in buf 257 (omega (arith, h)),
        )
        (_, refl)

  parse_proof_settled_outcome :
      (buf : Bytes)
      → (297 ≤ length buf
          → take 8 buf ≡ proof_settled_discriminator
          → (t : AuditTrail PublicKey) × (parse_proof_settled w buf ≡ ok (some t)))
        × ((length buf < 297) ⊎ (take 8 buf ≢ proof_settled_discriminator)
            → parse_proof_settled w buf ≡ ok none)
  unfolding parse_proof_settled
  parse_proof_settled_outcome buf = (
    λ long disc.
        let (t, parsed) = parse_fields-in buf long in
        rw
          (
            ltb-false (length buf) 8 (omega arith),
            (disc_loop_iff buf proof_settled_discriminator).1 disc,
            ltb-false (length buf) 297 long,
            parsed,
          )
          (t, refl),
    λ other. ground (arith, other, disc_loop_iff buf proof_settled_discriminator),
  )

  -- The parser throws on no input. It finds an event in a buffer of at least 297 bytes that begins
  -- with the discriminator, and returns `null` for every other one.
  pub parse_proof_settled_cases :
      (buf : Bytes)
      → ((297 ≤ length buf)
          × (take 8 buf ≡ proof_settled_discriminator)
          × ((t : AuditTrail PublicKey) × (parse_proof_settled w buf ≡ ok (some t))))
        ⊎ (((length buf < 297) ⊎ (take 8 buf ≢ proof_settled_discriminator))
            × (parse_proof_settled w buf ≡ ok none))
  parse_proof_settled_cases buf =
      let (found, absent) = parse_proof_settled_outcome buf in
      elim (Bool-cases (ltb (length buf) 297)) [
        | inl short ↦ let h = inl (ltb→lt _ _ short) in inr (h, absent h)
        | inr long ↦ elim (Bool-cases (disc_loop buf 0 proof_settled_discriminator)) [
          | inl same ↦
              let h = ltb-ge _ _ long in
              let disc = (disc_loop_iff buf proof_settled_discriminator).0 same in
              inl (h, disc, found h disc)
          | inr other ↦
              let differs : take 8 buf ≢ proof_settled_discriminator =
                λ e. cc ((disc_loop_iff buf proof_settled_discriminator).1 e) in
              inr (inr differs, absent (inr differs))
        ]
      ]

  module _ (from_base64 : Text → Bytes) where
    -- The event that a log message carries, if any.
    abbrev pub event_of : Text → Option (AuditTrail PublicKey)
    event_of log =
        if starts_with log program_data
        then elim (parse_proof_settled w (from_base64 (drop 14 log))) [ ok t ↦ t | err _ ↦ none ]
        else none

    abbrev pub first_event : List Text → Option (AuditTrail PublicKey)
    first_event [] = none
    first_event (log ∷ logs) = elim (event_of log) [ none ↦ first_event logs | some t ↦ some t ]

    scan_logs-first_event :
        (logs : List Text)
        → scan_logs w from_base64 logs ≡ or_throw (first_event logs) no_event_found
    unfolding scan_logs starts_with
    scan_logs-first_event [] = refl
    scan_logs-first_event (log ∷ logs) = elim (Bool-cases (starts_with log program_data)) [
      | inr other ↦ rw other (scan_logs-first_event logs)
      | inl marked ↦ elim (parse_proof_settled_cases (from_base64 (drop 14 log))) [
        | inr (_, absent) ↦ rw (marked, absent) (scan_logs-first_event logs)
        | inl (_, _, (t, found)) ↦ rw (marked, found)
      ]
    ]

    -- `audit` returns the event of the first log message that carries one, whatever stands around it,
    -- and throws its second error exactly if none does.
    pub audit-first_event :
        (logs : List Text)
        → audit w from_base64 (some (some logs)) ≡ or_throw (first_event logs) no_event_found
    unfolding audit
    audit-first_event logs = scan_logs-first_event logs
