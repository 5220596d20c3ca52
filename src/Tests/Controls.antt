-- ===== src/Tests/Controls.antt =====
-- Runs of the theorems on the controls of the stablecoin's page; a key is its text of three characters.
use zksettle.Base.{
  ℕ, ◌≡◌, ◌↔◌, ◌+◌, ◌<◌, ◌^◌, refl, true, false, Option, none, some, length, ◌==◌, if◌then◌else◌,
}
use zksettle.Base.Text.{Text, codes}
use zksettle.Base.Bytes.{bytes_eq}
use zksettle.Format.{trim, parse_amount_to_units}
use zksettle.Base.Int.{pos, ◌+ℤ◌}
use zksettle.Stablecoin.Accounts.{Treasury}
use zksettle.Adapter.{Action, to_local_treasury}
use zksettle.Controls.{
  Control, PendingAction, MintForm, is_valid_pubkey, page_offers, mint_offered, mint_submitted,
  change_operator_button, freeze_button,
}
use zksettle.Controls.Queued.{queued}
use zksettle.Controls.Permitted.{Permits, IsSound, page_offers-permitted}
use zksettle.Controls.Minted.{PermitsMint, mint_offered-permitted}

abbrev new_public_key : Text → Option Text
new_public_key text = if length text == 3 then some text else none

abbrev to_base58 : Text → Text
to_base58 k = k

abbrev treasury : Treasury Text
treasury = record {
  admin = codes "Adm";
  operator = codes "Opr";
  mint = codes "Mnt";
  mint_authority_bump = 255;
  freeze_authority_bump = 254;
  bump = 253;
  total_minted = 1_000_000;
  total_burned = 400;
  decimals = 2;
  paused = false;
  pending_admin = none;
  mint_cap = 5_000_000;
  redemption_nonce = 7;
  escrow_authority_bump = 252;
}

-- One token account of the mint.
abbrev token_mint : Text → Option Text
token_mint k = if bytes_eq k (codes "Dst") then some (codes "Mnt") else none

abbrev change_operator : Control
change_operator = change_operator_button (codes " New ")

page_offers-permitted_example :
    (p : PendingAction Text) × (queued to_base58 new_public_key
        (to_local_treasury treasury)
        change_operator
      ≡ some p)
    × (Permits (codes "111") token_mint treasury (codes "Adm") p.call
        ↔ IsSound (codes "111") token_mint treasury p.call)
unfolding page_offers to_local_treasury bytes_eq trim
page_offers-permitted_example =
    page_offers-permitted to_base58 new_public_key (λ a b e. e) (codes "111") token_mint
      (codes "Adm") treasury change_operator refl

-- The operator is offered no button of the admin, and a paused stablecoin no freeze.
not_admin_test :
    page_offers to_base58 new_public_key
      (some (codes "Opr"))
      (some (to_local_treasury treasury))
      change_operator
    ≡ false
unfolding page_offers to_local_treasury bytes_eq trim
not_admin_test = refl

paused_freeze_test :
    page_offers to_base58 new_public_key
      (some (codes "Adm"))
      (some (to_local_treasury (record treasury { paused = true })))
      (freeze_button (codes "Acc"))
    ≡ false
unfolding page_offers to_local_treasury bytes_eq trim
paused_freeze_test = refl

abbrev form : MintForm
form = record { destination = codes "Dst"; amount = codes " 12.5" }

mint_offered-permitted_example :
    (mint_submitted to_base58 new_public_key {Number = ℕ} (to_local_treasury treasury) form
      ≡ some (Action.mint_tokens (codes "Dst") (pos 1_250)))
    × (((mint_offered to_base58 new_public_key
              (some (codes "Opr"))
              (some (to_local_treasury treasury))
              form
            ≡ true)
          × (1_000_000 + 1_250 < 2 ^ 64)
          × (token_mint (codes "Dst") ≡ some (codes "Mnt")))
        ↔ PermitsMint token_mint treasury (codes "Opr") (codes "Dst") 1_250)
unfolding to_local_treasury is_valid_pubkey trim parse_amount_to_units
mint_offered-permitted_example =
    mint_offered-permitted to_base58 new_public_key (λ a b e. e) token_mint (codes "Opr") treasury
      form refl refl refl

offered_test :
    mint_offered to_base58 new_public_key
      (some (codes "Opr"))
      (some (to_local_treasury treasury))
      form
    ≡ true
unfolding mint_offered to_local_treasury bytes_eq trim parse_amount_to_units ◌+ℤ◌
offered_test = refl

-- One unit above the cap.
beyond_cap_test :
    mint_offered to_base58 new_public_key
      (some (codes "Opr"))
      (some (to_local_treasury treasury))
      (record form { amount = codes "40000.01" })
    ≡ false
unfolding mint_offered to_local_treasury bytes_eq trim parse_amount_to_units ◌+ℤ◌
beyond_cap_test = refl
