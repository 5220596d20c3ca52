-- ===== src/Tests/Adapter.antt =====
-- Runs of the theorems on the page's way to the stablecoin program.
use zksettle.Base.{List, ◌≡◌, refl, some, none, [], ◌∷◌, ok, err, arith, keep, map, all}
use zksettle.Base.Text.{codes}
use zksettle.Base.Bytes.{Bytes}
use zksettle.Base.Int.{ℤ, pos}
use zksettle.Web3.Concrete.{concrete, concrete-Laws}
use zksettle.Tests.{PublicKey, key}
use zksettle.Tests.Stablecoin.{request, request-Fits}
use zksettle.Stablecoin.Accounts.{RedemptionRequest, decode_redemption_request, too_short}
use zksettle.Stablecoin.Accounts.Layout.{FitsRedemption}
use zksettle.Stablecoin.Pda.{find_treasury_pda}
use zksettle.Adapter.{
  Action, Transaction, list_redemptions, program_id, submit_action, build_action, no_wallet,
  AccountFilter,
}
use zksettle.Adapter.Listed.{
  Stored, another, account_of, passes, requests_of, list_redemptions-requests_of,
}
use zksettle.Adapter.Actions.{IsSent, shown, command_of, submit_action-IsSent}

abbrev own_request : RedemptionRequest PublicKey
own_request = record request {
  treasury = (find_treasury_pda concrete (key 3) (program_id concrete)).0;
}

own_request-Fits : FitsRedemption own_request
own_request-Fits = record { amount = omega arith; nonce = omega arith; requested_at = omega arith }

-- A request of the treasury, one of another treasury, and an account that is too short.
abbrev stored : List (Stored PublicKey)
stored =
    Stored.request (key 20) own_request ∷ Stored.request (key 21) request ∷ another (key 22) [] ∷ []

abbrev get_program_accounts : PublicKey → List AccountFilter → List (PublicKey × Bytes)
get_program_accounts program filters =
    keep (λ a. all (passes a.1) filters) (map (account_of concrete) stored)

list_redemptions-requests_of_example :
    list_redemptions concrete (λ n. n) get_program_accounts (key 3)
    ≡ requests_of concrete
        (λ n. n)
        (find_treasury_pda concrete (key 3) (program_id concrete)).0
        stored
unfolding decode_redemption_request
list_redemptions-requests_of_example =
    list_redemptions-requests_of concrete concrete-Laws (λ n. n) get_program_accounts (key 3) stored
      (own_request-Fits, (request-Fits, ((too_short 0, refl), tt))) (λ filters. refl)

abbrev mint_action : Action PublicKey ℤ
mint_action = Action.mint_tokens (key 9) (pos 5_000_000)

submit_action-IsSent_example :
    (tx : Transaction PublicKey) × IsSent concrete concrete-Laws
      (key 1)
      (key 3)
      (codes "hash")
      (command_of (key 1) mint_action)
      tx
    × (submit_action
          (codes "devnet")
          (some (key 1))
          (λ k. build_action concrete k (key 3) mint_action)
          (ok (codes "hash"))
          (λ tx. ok (codes "signature"))
        ≡ shown concrete concrete-Laws (codes "devnet") (ok (codes "signature")))
submit_action-IsSent_example =
    submit_action-IsSent concrete concrete-Laws (codes "devnet") (codes "hash") (key 1) (key 3)
      mint_action (λ tx. ok (codes "signature")) (omega arith)

no_wallet_test :
    submit_action {Key = PublicKey}
      (codes "devnet")
      none
      (λ k. none)
      (ok (codes "hash"))
      (λ tx. ok (codes "signature"))
    ≡ err no_wallet
unfolding submit_action
no_wallet_test = refl
