-- ===== src/Audit/Layout.antt =====
-- The Borsh layout of the event, from backend/crates/zksettle-types/src/events.rs: the discriminator,
-- a version byte and the fields in order.
use zksettle.Base.{ℕ, ◌^◌, ◌<◌, ◌≡◌, ◌∷◌, ◌++◌, length}
use zksettle.Base.Bytes.{Bytes, le_bytes}
use zksettle.Web3.{Web3}
use zksettle.Audit.{AuditTrail, proof_settled_discriminator}

pub record FitsTrail {Key : Type 0} (t : AuditTrail Key) : Type 0 where
  pub nullifier_hash : length t.nullifier_hash ≡ 32
  pub merkle_root : length t.merkle_root ≡ 32
  pub sanctions_root : length t.sanctions_root ≡ 32
  pub jurisdiction_root : length t.jurisdiction_root ≡ 32
  pub amount : t.amount < 2 ^ 64
  pub epoch : t.epoch < 2 ^ 64
  pub timestamp : t.timestamp < 2 ^ 64
  pub slot : t.slot < 2 ^ 64

module _ (w : Web3) where
  open w use {PublicKey, to_buffer}

  abbrev pub encode_event : ℕ → AuditTrail PublicKey → Bytes → Bytes
  encode_event version t rest =
      proof_settled_discriminator
      ++ (version
          ∷ (to_buffer t.issuer
              ++ (t.nullifier_hash
                  ++ (t.merkle_root
                      ++ (t.sanctions_root
                          ++ (t.jurisdiction_root
                              ++ (to_buffer t.mint
                                  ++ (to_buffer t.recipient
                                      ++ (le_bytes 8 t.amount
                                          ++ (le_bytes 8 t.epoch
                                              ++ (le_bytes 8 t.timestamp
                                                  ++ (le_bytes 8 t.slot
                                                      ++ (to_buffer t.payer ++ rest)))))))))))))
