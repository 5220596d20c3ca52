-- ===== src/Tests/Stablecoin.antt =====
-- Runs of the stablecoin theorems: accounts, instructions and the client.
use zksettle.Stablecoin.Constants.{disc_treasury}
use zksettle.Base.Bytes.{Bytes, subarray}
use zksettle.Stablecoin.Encode.{TransactionInstruction}
use zksettle.Base.{
  ◌∷◌, [], arith, true, ◌≡◌, some, ok, length, none, ◌<◌, err, ◌⊎◌, ◌≤◌, ◌≢◌, IsOk, refl,
}
use zksettle.Web3.Concrete.{concrete, concrete-Laws}
use zksettle.Stablecoin.Accounts.{
  Treasury, RedemptionRequest, decode_treasury, too_short, invalid_discriminator, out_of_range,
}
use zksettle.Stablecoin.Accounts.Layout.{FitsTreasury, FitsRedemption, encode_treasury}
use zksettle.Stablecoin.Accounts.RoundTrip.{decode_treasury-encode_treasury}
use zksettle.Stablecoin.Accounts.Outcome.{decode_treasury_cases, treasury_len}
use zksettle.Stablecoin.Instructions.Command.{Command, build}
use zksettle.Stablecoin.Instructions.Payload.{Call, parse, parse-build}
use zksettle.Stablecoin.Client.{Connection, new_client, request_redemption}
use zksettle.Stablecoin.Client.Redemption.{request_redemption-nonce}
use zksettle.Tests.{PublicKey, key, true, negsuc, ◌∷◌, [], Bytes, pos}

abbrev treasury : Treasury PublicKey
treasury = record {
  admin = key 1;
  operator = key 2;
  mint = key 3;
  mint_authority_bump = 255;
  freeze_authority_bump = 254;
  bump = 253;
  total_minted = 1_000_000;
  total_burned = 400;
  decimals = 6;
  paused = true;
  pending_admin = some (key 4);
  mint_cap = 5_000_000;
  redemption_nonce = 7;
  escrow_authority_bump = 252;
}

abbrev pub request : RedemptionRequest PublicKey
request = record {
  holder = key 1;
  treasury = key 2;
  mint = key 3;
  token_account = key 4;
  amount = 900;
  nonce = 7;
  requested_at = negsuc 41;
  bump = 251;
}

treasury-Fits : FitsTreasury treasury
treasury-Fits = record {
  total_minted = omega arith;
  total_burned = omega arith;
  mint_cap = omega arith;
  redemption_nonce = omega arith;
}

pub request-Fits : FitsRedemption request
request-Fits = record { amount = omega arith; nonce = omega arith; requested_at = omega arith }

decode_treasury-encode_treasury_example :
    decode_treasury concrete (encode_treasury concrete treasury (9 ∷ [])) ≡ ok treasury
decode_treasury-encode_treasury_example =
    decode_treasury-encode_treasury concrete concrete-Laws treasury (9 ∷ []) treasury-Fits

-- A minimal account, without a pending admin and without the spare bytes: 143 bytes.
abbrev minimal : Bytes
minimal = encode_treasury concrete (record treasury { pending_admin = none }) []

decode_treasury_cases_example :
    ((length minimal < 143) × (decode_treasury concrete minimal ≡ err (too_short (length minimal))))
    ⊎ ((143 ≤ length minimal)
        × (subarray minimal 0 8 ≢ disc_treasury)
        × (decode_treasury concrete minimal ≡ err invalid_discriminator))
    ⊎ ((143 ≤ length minimal)
        × (subarray minimal 0 8 ≡ disc_treasury)
        × (length minimal < treasury_len minimal)
        × (decode_treasury concrete minimal ≡ err out_of_range))
    ⊎ ((143 ≤ length minimal)
        × (subarray minimal 0 8 ≡ disc_treasury)
        × (treasury_len minimal ≤ length minimal)
        × IsOk (decode_treasury concrete minimal))
decode_treasury_cases_example = decode_treasury_cases concrete minimal

abbrev redemption : Command PublicKey
redemption = Command.request_redemption (key 5) (key 6) (pos 900) (pos 7)

abbrev proposal : Command PublicKey
proposal = Command.propose_admin (key 5) (key 6)

abbrev proposal_ix : TransactionInstruction PublicKey
unfolding build
proposal_ix = elim (build concrete (key 8) (key 3) proposal) [
  | some ix ↦ ix
  | none ↦ record { program_id = key 0; keys = []; data_bytes = [] }
]

parse-build_example : parse concrete proposal_ix.data_bytes ≡ some (Call.propose_admin (key 6))
unfolding build
parse-build_example = parse-build concrete concrete-Laws (key 8) (key 3) proposal refl

abbrev connection : Connection PublicKey
connection = record {
  get_account_info = λ _. some (encode_treasury concrete treasury []);
  get_token_account_balance = λ _. 0;
}

request_redemption-nonce_example :
    (ix : TransactionInstruction PublicKey) × (request_redemption concrete
        (new_client concrete connection (key 3) (key 8))
        (key 5)
        (key 6)
        (pos 900)
      ≡ ok ix)
    × (build concrete (key 8) (key 3) redemption ≡ some ix)
request_redemption-nonce_example =
    request_redemption-nonce concrete concrete-Laws connection (key 3) (key 8) (key 5) (key 6)
      (pos 900) treasury [] treasury-Fits (omega arith) refl
