-- ===== src/Controls/Minted.antt =====
-- The Mint button of operator-controls.tsx (frontend/src/components/dashboard) against the guards of
-- backend/programs/stablecoin/src/instructions/mint_tokens.rs.
use zksettle.Base.{
  ℕ, ◌+◌, ◌^◌, ◌≤◌, ◌<◌, ◌≡◌, ◌↔◌, ◌⊎◌, refl, ap, sym, Bool, true, false, not, ◌&&◌, Option, some,
  arith, ◌==◌, ◌∙◌, if◌then◌else◌,
}
use zksettle.Base.Text.{Text}
use zksettle.Base.Bytes.{bytes_eq, bytes_eq_iff}
use zksettle.Base.Int.{pos, ◌+ℤ◌}
use zksettle.Format.{trim, parse_amount_to_units}
use zksettle.Stablecoin.Accounts.{Treasury}
use zksettle.Adapter.{Action, to_local_treasury}
use zksettle.Controls.{
  MintForm, mint_offered, mint_submitted, is_valid_pubkey, would_exceed_cap, use_stablecoin_role,
  show_operator, pubkeys_equal, StablecoinRole, both_roles, admin_role, operator_role, no_role,
}

-- The constraints on the operator and the destination, the `require!`s and the checked additions of the
-- handler. `token_mint` gives the mint of the token account at an address, if there is one.
unfoldable pub PermitsMint :
    {Key : Type 0} → (Key → Option Key) → Treasury Key → Key → Key → ℕ → Type 0
PermitsMint token_mint t signer destination amount =
    (t.operator ≡ signer)
    × (token_mint destination ≡ some t.mint)
    × (t.paused ≡ false)
    × (0 < amount)
    × ((t.mint_cap ≡ 0) ⊎ (t.total_minted + amount ≤ t.mint_cap))
    × (t.total_minted + amount < 2 ^ 64)

would_exceed_cap_iff :
    {Key : Type 0} (t : Treasury Key) (n : ℕ)
    → (would_exceed_cap (to_local_treasury t) (some n) ≡ false)
      ↔ ((t.mint_cap ≡ 0) ⊎ (t.total_minted + n ≤ t.mint_cap))
unfolding would_exceed_cap to_local_treasury ◌+ℤ◌
would_exceed_cap_iff t n = ground arith

abbrev role_of : Bool → Bool → StablecoinRole
role_of is_admin is_operator =
    if is_admin && is_operator
    then both_roles
    else if is_admin
    then admin_role
    else if is_operator
    then operator_role
    else no_role

-- The tests behind the role, for an amount: the wallet is the operator, and no test disables the button.
unblocked :
    (operator exceeds paused : Bool) (n : ℕ)
    → ((operator && true && not (n == 0) && not exceeds && not paused) ≡ true)
      ↔ ((operator ≡ true) × (paused ≡ false) × (0 < n) × (exceeds ≡ false))
unblocked operator exceeds paused n = ground arith

shows_operator :
    (is_admin is_operator is_pending_admin : Bool)
    → show_operator (role_of is_admin is_operator, is_pending_admin) ≡ is_operator
shows_operator true true p = refl
shows_operator true false p = refl
shows_operator false true p = refl
shows_operator false false p = refl

module _ {Key : Type 0} (to_base58 : Key → Text) (new_public_key : Text → Option Key) where
  module _ (injective : (a b : Key) → to_base58 a ≡ to_base58 b → a ≡ b) where
    show_operator-operator :
        (wallet : Key) (t : Treasury Key)
        → (show_operator (
              use_stablecoin_role to_base58 new_public_key
                (some wallet)
                (some (to_local_treasury t)))
            ≡ true)
          ↔ (t.operator ≡ wallet)
    unfolding use_stablecoin_role to_local_treasury
    show_operator-operator wallet t =
        let same = bytes_eq_iff (to_base58 wallet) (to_base58 t.operator) in
        let shown =
          shows_operator (bytes_eq (to_base58 wallet) (to_base58 t.admin))
            (bytes_eq (to_base58 wallet) (to_base58 t.operator))
            (pubkeys_equal to_base58 new_public_key (some wallet) t.pending_admin) in
        (
          (λ h. sym (injective wallet t.operator (same.0 (sym shown ∙ h)))),
          (λ e. shown ∙ same.1 (sym (ap to_base58 e))),
        )

    -- When the page's form holds the text of a key and of an amount of units: submitting it calls for
    -- minting that amount to that key, and the handler's checks permit the wallet this mint, in the
    -- state of the treasury that the page shows, exactly when the page offers it the Mint button, the
    -- sum of the minted and the new amount is below 2^64 and the key is that of a token account of the
    -- mint, which the page does not look at. Distinct keys have distinct texts.
    pub mint_offered-permitted :
        {Number : Type 0} (token_mint : Key → Option Key) (wallet : Key) (t : Treasury Key)
        (form : MintForm) {dest : Key} {n : ℕ}
        → is_valid_pubkey to_base58 new_public_key form.destination ≡ true
        → new_public_key (trim form.destination) ≡ some dest
        → parse_amount_to_units (trim form.amount) t.decimals ≡ some n
        → (mint_submitted to_base58 new_public_key {Number = Number} (to_local_treasury t) form
            ≡ some (Action.mint_tokens dest (pos n)))
          × (((mint_offered to_base58 new_public_key (some wallet) (some (to_local_treasury t)) form
                  ≡ true)
                × (t.total_minted + n < 2 ^ 64)
                × (token_mint dest ≡ some t.mint))
              ↔ PermitsMint token_mint t wallet dest n)
    unfolding mint_offered mint_submitted to_local_treasury PermitsMint would_exceed_cap
        use_stablecoin_role
    mint_offered-permitted token_mint wallet t form {n = n} valid key amount =
        let operator = show_operator-operator wallet t in
        let capped = would_exceed_cap_iff t n in
        let tests =
          unblocked
            (show_operator (
              use_stablecoin_role to_base58 new_public_key (some wallet)
                (some (to_local_treasury t))))
            (would_exceed_cap (to_local_treasury t) (some n)) t.paused n in
        (
          rw (valid, amount, key) refl,
          rw (valid, amount)
              (
                (λ h.
                    let (o, p, some', c) = tests.0 h.0 in
                    (operator.0 o, h.2, p, some', capped.0 c, h.1)),
                (λ q. (tests.1 (operator.1 q.0, q.2, q.3, capped.1 q.4), q.5, q.1)),
              ),
        )
