-- ===== src/Audit.antt =====
-- sdk/src/audit: the parser of the ProofSettled event and the search for it in a transaction's logs.
-- `Buffer.from(text, "base64")` is a parameter; `getTransaction` is what it resolved to.
pub mod Layout
pub mod Laws
use zksettle.Base.{
  ℕ, ◌+◌, Bool, true, false, not, Option, none, some, List, [], ◌∷◌, ltb, ◌==◌, if◌then◌else◌,
  length, Result, ok, err, or_throw, ◌>>=◌, drop, get_elem?,
}
use zksettle.Base.Bytes.{Bytes, subarray, read_u64_le}
use zksettle.Base.Text.{Text, codes, starts_with}
use zksettle.Web3.{Web3}

pub record AuditTrail (Key : Type 0) : Type 0 where
  pub issuer : Key
  pub nullifier_hash : Bytes
  pub merkle_root : Bytes
  pub sanctions_root : Bytes
  pub jurisdiction_root : Bytes
  pub mint : Key
  pub recipient : Key
  pub amount : ℕ
  pub epoch : ℕ
  pub timestamp : ℕ
  pub slot : ℕ
  pub payer : Key

-- `RangeError` of a read past the end of the buffer, and the two errors of `audit`.
pub data AuditError : Type 0 where
  out_of_range transaction_not_found no_event_found : AuditError

abbrev pub proof_settled_discriminator : Bytes
proof_settled_discriminator = 108 ∷ 6 ∷ 201 ∷ 20 ∷ 0 ∷ 169 ∷ 42 ∷ 135 ∷ []

-- The loop over the eight discriminator bytes.
pub disc_loop : Bytes → ℕ → Bytes → Bool
disc_loop buffer i [] = true
disc_loop buffer i (d ∷ ds) = elim (get_elem? buffer i) [
  | none ↦ false
  | some b ↦ if b == d then disc_loop buffer (i + 1) ds else false
]

abbrev pub program_data : Text
program_data = codes "Program data: "

module _ (w : Web3) where
  open w use {PublicKey, public_key}

  -- `parseProofSettled` behind its length and discriminator checks.
  parse_fields : Bytes → Result AuditError (AuditTrail PublicKey)
  parse_fields buffer = do
    let offset : ℕ = 8
    let offset = offset + 1
    let issuer = public_key (subarray buffer offset 32)
    let offset = offset + 32
    let nullifier_hash = subarray buffer offset 32
    let offset = offset + 32
    let merkle_root = subarray buffer offset 32
    let offset = offset + 32
    let sanctions_root = subarray buffer offset 32
    let offset = offset + 32
    let jurisdiction_root = subarray buffer offset 32
    let offset = offset + 32
    let mint = public_key (subarray buffer offset 32)
    let offset = offset + 32
    let recipient = public_key (subarray buffer offset 32)
    let offset = offset + 32
    amount ← or_throw (read_u64_le buffer offset) out_of_range
    let offset = offset + 8
    epoch ← or_throw (read_u64_le buffer offset) out_of_range
    let offset = offset + 8
    timestamp ← or_throw (read_u64_le buffer offset) out_of_range
    let offset = offset + 8
    slot ← or_throw (read_u64_le buffer offset) out_of_range
    let offset = offset + 8
    let payer = public_key (subarray buffer offset 32)
    ok (record {
      issuer = issuer;
      nullifier_hash = nullifier_hash;
      merkle_root = merkle_root;
      sanctions_root = sanctions_root;
      jurisdiction_root = jurisdiction_root;
      mint = mint;
      recipient = recipient;
      amount = amount;
      epoch = epoch;
      timestamp = timestamp;
      slot = slot;
      payer = payer;
    })

  -- `parseProofSettled` on the decoded bytes; `null` is `none`.
  pub parse_proof_settled : Bytes → Result AuditError (Option (AuditTrail PublicKey))
  parse_proof_settled buffer =
      if ltb (length buffer) 8
      then ok none
      else if not (disc_loop buffer 0 proof_settled_discriminator)
      then ok none
      else if ltb (length buffer) 297
      then ok none
      else parse_fields buffer >>= λ trail. ok (some trail)

  module _ (from_base64 : Text → Bytes) where
    -- The loop of `audit` over the log messages.
    pub scan_logs : List Text → Result AuditError (AuditTrail PublicKey)
    scan_logs [] = err no_event_found
    scan_logs (log ∷ logs) =
        let rest = scan_logs logs in
        if not (starts_with log program_data)
        then rest
        else parse_proof_settled (from_base64 (drop 14 log)) >>= λ parsed. elim parsed [
          | none ↦ rest
          | some trail ↦ ok trail
        ]

    -- `audit`: the transaction, if it is found, with its `meta?.logMessages`.
    pub audit : Option (Option (List Text)) → Result AuditError (AuditTrail PublicKey)
    audit none = err transaction_not_found
    audit (some none) = scan_logs []
    audit (some (some logs)) = scan_logs logs
