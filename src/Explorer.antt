-- ===== src/Explorer.antt =====
-- frontend/src/components/dashboard/attestation-explorer-panel.tsx: the state of the attestation
-- explorer, with the list of recent wallets in the browser's storage, and the status it derives from
-- its two queries. `Date.now()` is an argument; toasts and the rendering are left out.
pub mod Wallets
pub mod Status
use zksettle.Base.{
  ℕ, ◌+◌, Bool, true, false, not, List, [], ◌∷◌, Option, none, some, if◌then◌else◌, ◌&&◌, ◌||◌,
  ◌==◌, replicate, get_elem?, suc,
}
use zksettle.Base.Text.{Text, codes, includes}
use zksettle.Base.Bytes.{Bytes, bytes_eq}
use zksettle.ProveFlow.Inputs.{MembershipProof, SanctionsProof}
use zksettle.WalletInput.{normalize_wallet_hex, is_valid_wallet_hex, bytes_to_hex}
use zksettle.RecentWallets.{Storage, read, record_wallet, forget_wallet}

pub record ExplorerState : Type 0 where
  pub wallet_input : Text
  pub active_wallet : Option Text
  pub storage : Storage
  -- how often both queries were asked for again
  pub refetches : ℕ

abbrev pub opened : Storage → ExplorerState
opened storage = record {
  wallet_input = [];
  active_wallet = none;
  storage = storage;
  refetches = 0;
}

-- `setActiveWallet(wallet)` and `recordWallet(wallet)`
abbrev pub activate : Text → ℕ → ExplorerState → ExplorerState
activate wallet now s = record s {
  active_wallet = some wallet;
  storage = record_wallet wallet now s.storage;
}

-- `lookup`
unfoldable pub look_up : ℕ → ExplorerState → ExplorerState
look_up now s =
    if is_valid_wallet_hex s.wallet_input
    then activate (normalize_wallet_hex s.wallet_input) now s
    else s

-- `useMyWallet`, with the bytes of the connected key.
unfoldable pub use_my_wallet : Option Bytes → ℕ → ExplorerState → ExplorerState
use_my_wallet none now s = s
use_my_wallet (some key) now s =
    activate (bytes_to_hex key) now (record s { wallet_input = bytes_to_hex key })

abbrev pub is_active : Option Text → Text → Bool
is_active none wallet = false
is_active (some w) wallet = bytes_eq wallet w

unfoldable pub pick_recent : Text → ℕ → ExplorerState → ExplorerState
pick_recent wallet now s =
    let typed : ExplorerState = record s { wallet_input = wallet } in
    if is_active s.active_wallet wallet
    then record typed { refetches = suc s.refetches; storage = record_wallet wallet now s.storage }
    else activate wallet now typed

-- What the visitor does: types, searches, takes the connected wallet, and picks or forgets the n-th
-- wallet of the list.
pub data Visit : Type 0 where
  types : Text → Visit
  searches : (now : ℕ) → Visit
  takes_own : (key : Option Bytes) (now : ℕ) → Visit
  picks : (n now : ℕ) → Visit
  forgets : (n : ℕ) → Visit

unfoldable pub visit : ExplorerState → Visit → ExplorerState
unfolding look_up use_my_wallet pick_recent
visit s (types text) = record s { wallet_input = text }
visit s (searches now) = look_up now s
visit s (takes_own key now) = use_my_wallet key now s
visit s (picks n now) = elim (get_elem? (read s.storage) n) [
  | none ↦ s
  | some e ↦ pick_recent e.wallet now s
]
visit s (forgets n) = elim (get_elem? (read s.storage) n) [
  | none ↦ s
  | some e ↦ record s { storage = forget_wallet e.wallet s.storage }
]

abbrev pub visits : ExplorerState → List Visit → ExplorerState
visits s [] = s
visits s (v ∷ rest) = visits (visit s v) rest

-- A query of React Query. A query that is paused is neither loading nor failed, and may have no data.
pub record Query (A : Type 0) : Type 0 where
  pub is_loading : Bool
  pub is_error : Bool
  pub answer : Option A

pub data ComplianceStatus : Type 0 where
  loading compliant sanctioned unknown error : ComplianceStatus

abbrev pub empty_leaf : Text
empty_leaf = replicate 64 b'0'

-- `sanctions.data && sanctions.data.leaf_value !== EMPTY_LEAF`
abbrev pub has_leaf : Option SanctionsProof → Bool
has_leaf none = false
has_leaf (some a) = not (bytes_eq a.leaf_value empty_leaf)

unfoldable pub derive_status : Query MembershipProof → Query SanctionsProof → ComplianceStatus
derive_status membership sanctions =
    if membership.is_loading || sanctions.is_loading
    then loading
    else if membership.is_error && sanctions.is_error
    then error
    else if membership.is_error
    then unknown
    else if sanctions.is_error
    then error
    else if has_leaf sanctions.answer
    then sanctioned
    else compliant
