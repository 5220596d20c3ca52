-- ===== src/Stablecoin/Client/Redemption.antt =====
-- `requestRedemption` of sdk/src/stablecoin/client.ts on an account in the program's own layout.
use zksettle.Stablecoin.Accounts.RoundTrip.{decode_treasury-encode_treasury}
use zksettle.Stablecoin.Instructions.{build_request_redemption_ix}
use zksettle.Stablecoin.Encode.{TransactionInstruction}
use zksettle.Stablecoin.Pda.{find_treasury_pda}
use zksettle.Base.{◌≡◌, refl, some, ok}
use zksettle.Base.Bytes.{Bytes}
use zksettle.Base.Int.{ℤ, pos}
use zksettle.Web3.{Web3, Laws}
use zksettle.Stablecoin.Accounts.{Treasury}
use zksettle.Stablecoin.Accounts.Layout.{FitsTreasury, encode_treasury}
use zksettle.Stablecoin.Instructions.Command.{Command, build}
use zksettle.Stablecoin.Instructions.Keys.{IsU64, build_of_Fits}
use zksettle.Stablecoin.Client.{
  Connection, new_client, request_redemption, find_treasury_pda, TransactionInstruction,
  fetch_treasury, build_request_redemption_ix,
}

module _ (w : Web3) (l : Laws w) where
  open w use {PublicKey}

  fetch_treasury-stored :
      (conn : Connection PublicKey) (mint program : PublicKey) (t : Treasury PublicKey)
      (rest : Bytes)
      → FitsTreasury t
      → conn.get_account_info (find_treasury_pda w mint program).0 ≡ some (encode_treasury w t rest)
      → fetch_treasury w (new_client w conn mint program) ≡ ok t
  unfolding fetch_treasury new_client
  fetch_treasury-stored conn mint program t rest fits stored =
      rw (stored, decode_treasury-encode_treasury w l t rest fits)

  build-request_redemption :
      (program mint holder account : PublicKey) (amount nonce : ℤ)
      → build w program mint (Command.request_redemption holder account amount nonce)
        ≡ build_request_redemption_ix w holder mint account amount nonce program
  unfolding build
  build-request_redemption program mint holder account amount nonce = refl

  -- A client on a mint whose treasury account holds the treasury `t`, in the program's layout and
  -- with any bytes behind it, asks for a redemption that fits `u64` with the instruction that carries
  -- the treasury's current nonce; it does not throw.
  pub request_redemption-nonce :
      (conn : Connection PublicKey) (mint program holder account : PublicKey) (amount : ℤ)
      (t : Treasury PublicKey) (rest : Bytes)
      → FitsTreasury t
      → IsU64 amount
      → conn.get_account_info (find_treasury_pda w mint program).0 ≡ some (encode_treasury w t rest)
      → (ix : TransactionInstruction PublicKey) × (request_redemption w
            (new_client w conn mint program)
            holder
            account
            amount
          ≡ ok ix)
        × (build w program mint
              (Command.request_redemption holder account amount (pos t.redemption_nonce))
            ≡ some ix)
  unfolding request_redemption new_client
  request_redemption-nonce conn mint program holder account amount t rest fits small stored =
      let (ix, built, _) =
        build_of_Fits w program mint
          (Command.request_redemption holder account amount (pos t.redemption_nonce))
          (small, fits.redemption_nonce) in
      (
        ix,
        rw (
          fetch_treasury-stored conn mint program t rest fits stored,
          ← build-request_redemption program mint holder account amount (pos t.redemption_nonce),
          built,
        ),
        built,
      )
