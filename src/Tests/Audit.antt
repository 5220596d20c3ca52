-- ===== src/Tests/Audit.antt =====
-- Runs of the theorems on the ProofSettled event.
use zksettle.Base.Bytes.{Bytes}
use zksettle.Base.{List, [], replicate, some, arith, ◌≡◌, ◌∷◌, ok, refl}
use zksettle.Base.Text.{Text, codes}
use zksettle.Web3.Concrete.{concrete, concrete-Laws}
use zksettle.Audit.{AuditTrail, parse_proof_settled}
use zksettle.Audit.Layout.{FitsTrail, encode_event}
use zksettle.Audit.Laws.{parse_proof_settled-encode_event}
use zksettle.Tests.{PublicKey, key, replicate, [], Bytes, some}

abbrev trail : AuditTrail PublicKey
trail = record {
  issuer = key 1;
  nullifier_hash = replicate 32 17;
  merkle_root = replicate 32 18;
  sanctions_root = replicate 32 19;
  jurisdiction_root = replicate 32 20;
  mint = key 3;
  recipient = key 4;
  amount = 1_000;
  epoch = 20_000;
  timestamp = 1_728_000_000;
  slot = 300;
  payer = key 5;
}

trail-Fits : FitsTrail trail
trail-Fits = record {
  nullifier_hash = refl;
  merkle_root = refl;
  sanctions_root = refl;
  jurisdiction_root = refl;
  amount = omega arith;
  epoch = omega arith;
  timestamp = omega arith;
  slot = omega arith;
}

parse_proof_settled-encode_event_example :
    parse_proof_settled concrete (encode_event concrete 1 trail []) ≡ ok (some trail)
parse_proof_settled-encode_event_example =
    parse_proof_settled-encode_event concrete concrete-Laws 1 trail [] trail-Fits

abbrev event : Bytes
event = encode_event concrete 1 trail []

abbrev logs : List Text
logs = codes "Program log: settle" ∷ codes "Program data: AAAA" ∷ []
