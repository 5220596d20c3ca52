-- ===== src/Controls.antt =====
-- The page's controls of the stablecoin: use-stablecoin-role.ts (frontend/src/hooks), what
-- app/dashboard/admin/admin-panels.tsx shows, and the buttons of admin-controls.tsx and
-- operator-controls.tsx (frontend/src/components/dashboard) with what they queue. `new PublicKey(text)`
-- and `toBase58` are parameters; layout and the descriptions of the dialogs are left out.
pub mod Queued
pub mod Permitted
pub mod Minted
use zksettle.Base.{
  ℕ, ◌+◌, ◌-◌, Bool, true, false, not, ◌&&◌, ◌||◌, ◌==◌, leb, Option, none, some, List, ◌∷◌, ◌++◌,
  take, drop, length, if◌then◌else◌,
}
use zksettle.Base.Text.{Text, codes}
use zksettle.Base.Bytes.{bytes_eq}
use zksettle.Base.Int.{ℤ, pos, ◌+ℤ◌, ltb_ℤ, pos_part, neg_part}
use zksettle.Format.{trim, parse_amount_to_units}
use zksettle.Adapter.{LocalTreasury, Action}

pub data StablecoinRole : Type 0 where
  admin_role operator_role both_roles no_role : StablecoinRole

-- The calls of the adapter that the admin's panels make.
pub data AdminCall (Key : Type 0) : Type 0 where
  set_operator propose_admin : (k : Key) → AdminCall Key
  accept_admin cancel_pending_admin pause unpause : AdminCall Key
  update_mint_cap : (cap : ℤ) → AdminCall Key
  freeze_account thaw_account : (token_account : Key) → AdminCall Key

-- The call as an action of the adapter.
abbrev pub action_of : {Key Number : Type 0} → AdminCall Key → Action Key Number
action_of (set_operator k) = Action.set_operator k
action_of (propose_admin k) = Action.propose_admin k
action_of accept_admin = Action.accept_admin
action_of cancel_pending_admin = Action.cancel_pending_admin
action_of pause = Action.pause
action_of unpause = Action.unpause
action_of (update_mint_cap cap) = Action.update_mint_cap cap
action_of (freeze_account token_account) = Action.freeze_account token_account
action_of (thaw_account token_account) = Action.thaw_account token_account

-- `PendingAction`; its `buildTransaction` makes one call of the adapter.
pub record PendingAction (Key : Type 0) : Type 0 where
  pub title : Text
  pub destructive : Bool
  pub summary : Text
  pub confirm_label : Text
  pub call : AdminCall Key

-- The buttons of the panels, with the text of the panel's input.
pub data Control : Type 0 where
  accept_admin_button cancel_transfer_button emergency_button : Control
  change_operator_button propose_admin_button update_cap_button : (input : Text) → Control
  freeze_button thaw_button : (target : Text) → Control

pub record MintForm : Type 0 where
  pub destination : Text
  pub amount : Text

-- `isZero` of a `BN`.
abbrev pub is_zero : ℤ → Bool
is_zero n = (pos_part n == 0) && (neg_part n == 0)

abbrev pub is_some : {A : Type 0} → Option A → Bool
is_some none = false
is_some (some _) = true

unfoldable pub cap_units : Text → ℕ → Option ℤ
cap_units new_cap decimals = elim (parse_amount_to_units (trim new_cap) decimals) [
  | none ↦ none
  | some units ↦ some (pos units)
]

unfoldable pub would_exceed_cap : {Key : Type 0} → LocalTreasury Key → Option ℕ → Bool
would_exceed_cap treasury none = false
would_exceed_cap treasury (some units) =
    not (is_zero treasury.mint_cap) && ltb_ℤ treasury.mint_cap (treasury.total_minted +ℤ pos units)

-- `showAdmin` and `showOperator` of a role and `isPendingAdmin`.
abbrev pub show_admin : StablecoinRole × Bool → Bool
show_admin (admin_role, is_pending_admin) = true
show_admin (both_roles, is_pending_admin) = true
show_admin (operator_role, is_pending_admin) = is_pending_admin
show_admin (no_role, is_pending_admin) = is_pending_admin

abbrev pub show_operator : StablecoinRole × Bool → Bool
show_operator (operator_role, is_pending_admin) = true
show_operator (both_roles, is_pending_admin) = true
show_operator (admin_role, is_pending_admin) = false
show_operator (no_role, is_pending_admin) = false

module _ {Key : Type 0} (to_base58 : Key → Text) (new_public_key : Text → Option Key) where
  unfoldable pub is_valid_pubkey : Text → Bool
  is_valid_pubkey value =
      if length (trim value) == 0 then false else is_some (new_public_key (trim value))

  unfoldable pub format_pubkey : Key → ℕ → ℕ → Text
  format_pubkey pubkey head tail =
      let s = to_base58 pubkey in
      if leb (length s) (head + tail + 1)
      then s
      else take head s ++ 0x2026 ∷ (if tail == 0 then s else drop (length s - tail) s)

  unfoldable pub pubkeys_equal : Option Key → Option Key → Bool
  pubkeys_equal (some a) (some b) = bytes_eq (to_base58 a) (to_base58 b)
  pubkeys_equal (some a) none = false
  pubkeys_equal none b = false

  -- `role` and `isPendingAdmin` of `useStablecoinRole`.
  unfoldable pub use_stablecoin_role :
      Option Key → Option (LocalTreasury Key) → StablecoinRole × Bool
  unfolding pubkeys_equal
  use_stablecoin_role none treasury = (no_role, false)
  use_stablecoin_role (some k) none = (no_role, false)
  use_stablecoin_role (some k) (some treasury) =
      let is_admin = pubkeys_equal (some k) (some treasury.admin) in
      let is_operator = pubkeys_equal (some k) (some treasury.operator) in
      (
        (if is_admin && is_operator
            then both_roles
            else if is_admin
            then admin_role
            else if is_operator
            then operator_role
            else no_role),
        pubkeys_equal (some k) treasury.pending_admin,
      )

  -- Whether `AdminControls` renders a button, and does not disable it.
  unfoldable pub offers : Key → Bool → LocalTreasury Key → Control → Bool
  unfolding is_valid_pubkey pubkeys_equal cap_units
  offers wallet is_pending_admin treasury control =
      let is_admin = pubkeys_equal (some wallet) (some treasury.admin) in
      elim control [
        | accept_admin_button ↦ is_pending_admin && not is_admin
        | cancel_transfer_button ↦ is_admin && is_some treasury.pending_admin
        | emergency_button ↦ is_admin
        | change_operator_button input ↦ is_admin && is_valid_pubkey input
        | propose_admin_button input ↦
            is_admin && not (is_some treasury.pending_admin) && is_valid_pubkey input
        | update_cap_button input ↦ is_admin && is_some (cap_units input treasury.decimals)
        | freeze_button target ↦ is_admin && is_valid_pubkey target && not treasury.paused
        | thaw_button target ↦ is_admin && is_valid_pubkey target
      ]

  -- A button that the page offers to the wallet.
  unfoldable pub page_offers : Option Key → Option (LocalTreasury Key) → Control → Bool
  unfolding use_stablecoin_role offers
  page_offers (some wallet) (some treasury) control =
      let role = use_stablecoin_role (some wallet) (some treasury) in
      show_admin role && offers wallet role.1 treasury control
  page_offers (some wallet) none control = false
  page_offers none treasury control = false

  -- Whether the page offers the Mint button of `OperatorControls`.
  unfoldable pub mint_offered : Option Key → Option (LocalTreasury Key) → MintForm → Bool
  unfolding use_stablecoin_role is_valid_pubkey would_exceed_cap
  mint_offered (some wallet) (some treasury) form =
      let units = parse_amount_to_units (trim form.amount) treasury.decimals in
      show_operator (use_stablecoin_role (some wallet) (some treasury))
      && is_valid_pubkey form.destination
      && elim units [ none ↦ false | some n ↦ not (n == 0) ]
      && not (would_exceed_cap treasury units)
      && not treasury.paused
  mint_offered (some wallet) none form = false
  mint_offered none treasury form = false

  -- The call that `submit` of `OperatorControls` makes, if it makes one.
  unfoldable pub mint_submitted :
      {Number : Type 0} → LocalTreasury Key → MintForm → Option (Action Key Number)
  unfolding is_valid_pubkey
  mint_submitted treasury form =
      if not (is_valid_pubkey form.destination)
      then none
      else elim (parse_amount_to_units (trim form.amount) treasury.decimals) [
        | none ↦ none
        | some units ↦ elim (new_public_key (trim form.destination)) [
          | none ↦ none
          | some dest ↦ some (Action.mint_tokens dest (pos units))
        ]
      ]
