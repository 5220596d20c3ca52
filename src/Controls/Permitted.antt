-- ===== src/Controls/Permitted.antt =====
-- What the panels of admin-controls.tsx (frontend/src/components/dashboard) offer, against the guards of
-- the program's handlers in backend/programs/stablecoin/src/instructions.
use zksettle.Base.{
  ◌≡◌, ◌≢◌, ◌↔◌, refl, sym, ap, Bool, true, false, not, ◌&&◌, Option, none, some, length, and_left,
  Bool-cases, inl, inr, ◌==◌, ℕ, ◌<◌, ◌^◌,
}
use zksettle.Base.Text.{Text}
use zksettle.Base.Bytes.{bytes_eq_iff}
use zksettle.Base.Int.{pos, ℤ}
use zksettle.Format.{trim}
use zksettle.Stablecoin.Accounts.{Treasury}
use zksettle.Adapter.{to_local_treasury}
use zksettle.Controls.{
  AdminCall, PendingAction, Control, pubkeys_equal, is_valid_pubkey, cap_units, page_offers, offers,
  is_some, use_stablecoin_role, accept_admin_button, cancel_transfer_button, emergency_button,
  change_operator_button, propose_admin_button, update_cap_button, freeze_button, thaw_button,
  set_operator, propose_admin, accept_admin, cancel_pending_admin, pause, unpause, update_mint_cap,
  freeze_account, thaw_account,
}
use zksettle.Controls.Queued.{queued}

-- A cap that the instruction can carry, and not the one in force.
abbrev pub IsNewCap : {Key : Type 0} → Treasury Key → ℤ → Type 0
IsNewCap t cap = (n : ℕ) × (cap ≡ pos n) × (n < 2 ^ 64) × (n ≢ t.mint_cap)

-- The signer's and the accounts' constraints and the `require!`s of a handler, in the state of the
-- treasury. `token_mint` gives the mint of the token account at an address, if there is one; the token
-- program's own checks on a token account that passes them are not those of the handlers.
abbrev pub PermitsSetOperator : {Key : Type 0} → Key → Treasury Key → Key → Key → Type 0
PermitsSetOperator default_key t signer k =
    (t.admin ≡ signer) × (k ≢ default_key) × (k ≢ t.operator)

abbrev pub PermitsProposeAdmin : {Key : Type 0} → Key → Treasury Key → Key → Key → Type 0
PermitsProposeAdmin default_key t signer k = (t.admin ≡ signer) × (k ≢ default_key) × (k ≢ t.admin)

abbrev pub PermitsAcceptAdmin : {Key : Type 0} → Treasury Key → Key → Type 0
PermitsAcceptAdmin t signer = t.pending_admin ≡ some signer

abbrev pub PermitsCancelPendingAdmin : {Key : Type 0} → Treasury Key → Key → Type 0
PermitsCancelPendingAdmin {Key} t signer =
    (t.admin ≡ signer) × ((k : Key) × (t.pending_admin ≡ some k))

abbrev pub PermitsPause : {Key : Type 0} → Treasury Key → Key → Type 0
PermitsPause t signer = (t.admin ≡ signer) × (t.paused ≡ false)

abbrev pub PermitsUnpause : {Key : Type 0} → Treasury Key → Key → Type 0
PermitsUnpause t signer = (t.admin ≡ signer) × (t.paused ≡ true)

-- The cap is an `u64` argument of the handler.
abbrev pub PermitsUpdateMintCap : {Key : Type 0} → Treasury Key → Key → ℤ → Type 0
PermitsUpdateMintCap t signer cap = (t.admin ≡ signer) × IsNewCap t cap

abbrev pub PermitsFreeze : {Key : Type 0} → (Key → Option Key) → Treasury Key → Key → Key → Type 0
PermitsFreeze token_mint t signer target_account =
    (t.admin ≡ signer) × (token_mint target_account ≡ some t.mint) × (t.paused ≡ false)

abbrev pub PermitsThaw : {Key : Type 0} → (Key → Option Key) → Treasury Key → Key → Key → Type 0
PermitsThaw token_mint t signer target_account =
    (t.admin ≡ signer) × (token_mint target_account ≡ some t.mint)

module _ {Key : Type 0} (default_key : Key) (token_mint : Key → Option Key) where
  -- The handler of a call permits it to the signer.
  unfoldable pub Permits : Treasury Key → Key → AdminCall Key → Type 0
  Permits t signer (set_operator k) = PermitsSetOperator default_key t signer k
  Permits t signer (propose_admin k) = PermitsProposeAdmin default_key t signer k
  Permits t signer accept_admin = PermitsAcceptAdmin t signer
  Permits t signer cancel_pending_admin = PermitsCancelPendingAdmin t signer
  Permits t signer pause = PermitsPause t signer
  Permits t signer unpause = PermitsUnpause t signer
  Permits t signer (update_mint_cap cap) = PermitsUpdateMintCap t signer cap
  Permits t signer (freeze_account token_account) = PermitsFreeze token_mint t signer token_account
  Permits t signer (thaw_account token_account) = PermitsThaw token_mint t signer token_account

  -- What the page cannot know or does not look at: the value that the call sets is not the one in
  -- force, a key is not the default one, a cap has 64 bits, and a target is a token account of the mint.
  unfoldable pub IsSound : Treasury Key → AdminCall Key → Type 0
  IsSound t (set_operator k) = (k ≢ default_key) × (k ≢ t.operator)
  IsSound t (propose_admin k) = (k ≢ default_key) × (k ≢ t.admin)
  IsSound t (update_mint_cap cap) = IsNewCap t cap
  IsSound t (freeze_account token_account) = token_mint token_account ≡ some t.mint
  IsSound t (thaw_account token_account) = token_mint token_account ≡ some t.mint
  IsSound t _ = Unit

and_right : (a b : Bool) → (a && b) ≡ true → b ≡ true
and_right true b h = h
and_right false b h = cc

not-true : (b : Bool) → not b ≡ true → b ≡ false
not-true false h = refl
not-true true h = cc

is_some-inv : {A : Type 0} (o : Option A) → is_some o ≡ true → (a : A) × (o ≡ some a)
is_some-inv none h = cc
is_some-inv (some a) h = (a, refl)

module _ {Key : Type 0} (to_base58 : Key → Text) (new_public_key : Text → Option Key) where
  pub is_valid_pubkey-inv :
      (value : Text)
      → is_valid_pubkey to_base58 new_public_key value ≡ true
      → (k : Key) × (new_public_key (trim value) ≡ some k)
  unfolding is_valid_pubkey
  is_valid_pubkey-inv value h = elim (Bool-cases (length (trim value) == 0)) [
    | inl empty ↦ cc
    | inr full ↦ is_some-inv (new_public_key (trim value)) (rw full at h)
  ]

  module _ (injective : (a b : Key) → to_base58 a ≡ to_base58 b → a ≡ b) where
    pub pubkeys_equal-inv :
        (a : Key) (b : Option Key)
        → pubkeys_equal to_base58 new_public_key (some a) b ≡ true
        → b ≡ some a
    unfolding pubkeys_equal
    pubkeys_equal-inv a none h = cc
    pubkeys_equal-inv a (some b) h =
        ap some (sym (injective a b ((bytes_eq_iff (to_base58 a) (to_base58 b)).0 h)))

    is_admin :
        (wallet : Key) (t : Treasury Key)
        → pubkeys_equal to_base58 new_public_key (some wallet) (some t.admin) ≡ true
        → t.admin ≡ wallet
    unfolding pubkeys_equal
    is_admin wallet t h =
        sym (injective wallet t.admin ((bytes_eq_iff (to_base58 wallet) (to_base58 t.admin)).0 h))

    abbrev Outcome : Key → (Key → Option Key) → Key → Treasury Key → Control → Type 0
    Outcome default_key token_mint wallet t control =
        (p : PendingAction Key) × (queued to_base58 new_public_key (to_local_treasury t) control
          ≡ some p)
        × (Permits default_key token_mint t wallet p.call ↔ IsSound default_key token_mint t p.call)

    offered-permitted :
        (default_key : Key) (token_mint : Key → Option Key) (wallet : Key) (t : Treasury Key)
        (control : Control)
        → offers to_base58 new_public_key wallet
            (pubkeys_equal to_base58 new_public_key (some wallet) t.pending_admin)
            (to_local_treasury t)
            control
          ≡ true
        → Outcome default_key token_mint wallet t control
    unfolding offers queued to_local_treasury Permits IsSound
    offered-permitted default_key token_mint wallet t accept_admin_button h =
        let pending = pubkeys_equal-inv wallet t.pending_admin (and_left _ _ h) in
        (_, refl, ((λ _. tt), (λ _. pending)))
    offered-permitted default_key token_mint wallet t cancel_transfer_button h =
        let admin = is_admin wallet t (and_left _ _ h) in
        let proposed = is_some-inv t.pending_admin (and_right _ _ h) in
        (_, refl, ((λ _. tt), (λ _. (admin, proposed))))
    offered-permitted default_key token_mint wallet t emergency_button h =
        let admin = is_admin wallet t h in
        elim (Bool-cases t.paused) [
          | inl paused ↦ rw paused (_, refl, ((λ _. tt), (λ _. (admin, refl))))
          | inr running ↦ rw running (_, refl, ((λ _. tt), (λ _. (admin, refl))))
        ]
    offered-permitted default_key token_mint wallet t (change_operator_button input) h =
        let admin = is_admin wallet t (and_left _ _ h) in
        let valid : is_valid_pubkey to_base58 new_public_key input ≡ true = and_right _ _ h in
        let (k, e) = is_valid_pubkey-inv input valid in
        rw e (_, refl, ((λ p. (p.1, p.2)), (λ n. (admin, n.0, n.1))))
    offered-permitted default_key token_mint wallet t (propose_admin_button input) h =
        let admin = is_admin wallet t (and_left _ _ (and_left _ _ h)) in
        let valid : is_valid_pubkey to_base58 new_public_key input ≡ true = and_right _ _ h in
        let (k, e) = is_valid_pubkey-inv input valid in
        rw e (_, refl, ((λ p. (p.1, p.2)), (λ n. (admin, n.0, n.1))))
    offered-permitted default_key token_mint wallet t (update_cap_button input) h =
        let admin = is_admin wallet t (and_left _ _ h) in
        let (cap, e) = is_some-inv (cap_units input t.decimals) (and_right _ _ h) in
        rw e (_, refl, ((λ p. p.1), (λ n. (admin, n))))
    offered-permitted default_key token_mint wallet t (freeze_button target) h =
        let enabled = and_left _ _ h in
        let admin = is_admin wallet t (and_left _ _ enabled) in
        let valid : is_valid_pubkey to_base58 new_public_key target ≡ true =
          and_right _ _ enabled in
        let (k, e) = is_valid_pubkey-inv target valid in
        let running = not-true t.paused (and_right _ _ h) in
        rw e (_, refl, ((λ p. p.1), (λ token. (admin, token, running))))
    offered-permitted default_key token_mint wallet t (thaw_button target) h =
        let admin = is_admin wallet t (and_left _ _ h) in
        let valid : is_valid_pubkey to_base58 new_public_key target ≡ true = and_right _ _ h in
        let (k, e) = is_valid_pubkey-inv target valid in
        rw e (_, refl, ((λ p. p.1), (λ token. (admin, token))))

    -- For every button of the admin's panels that the page offers a wallet: its click queues an action,
    -- and the handler of the action's call permits it to the wallet, in the state of the treasury that
    -- the page shows, exactly when the call sets no value that is in force already, no default key and
    -- no cap beyond 64 bits, and a target to freeze or thaw is a token account of the mint. Distinct
    -- keys have distinct texts.
    pub page_offers-permitted :
        (default_key : Key) (token_mint : Key → Option Key) (wallet : Key) (t : Treasury Key)
        (control : Control)
        → page_offers to_base58 new_public_key (some wallet) (some (to_local_treasury t)) control
          ≡ true
        → (p : PendingAction Key) × (queued to_base58 new_public_key (to_local_treasury t) control
            ≡ some p)
          × (Permits default_key token_mint t wallet p.call
              ↔ IsSound default_key token_mint t p.call)
    unfolding page_offers use_stablecoin_role to_local_treasury
    page_offers-permitted default_key token_mint wallet t control h =
        offered-permitted default_key token_mint wallet t control (and_right _ _ h)
