-- ===== src/Explorer/Wallets.antt =====
-- The wallets that the explorer asks for and remembers are in canonical form.
use zksettle.Base.Maybe.{some_inj}
use zksettle.Base.{
  ℕ, zero, suc, List, [], ◌∷◌, Option, none, some, ◌≡◌, refl, ap, sym, ◌∙◌, subst, true, false,
  Bool, All, All-keep, get_elem?, if◌then◌else◌, take, keep,
}
use zksettle.Base.Text.{Text}
use zksettle.Base.Bytes.{Bytes}
use zksettle.WalletInput.{is_hex_64, normalize_wallet_hex, is_valid_wallet_hex, bytes_to_hex}
use zksettle.WalletInput.Canonical.{IsKeyBytes, hex_of-is_hex_64, bytes_to_hex-hex_of}
use zksettle.RecentWallets.{
  RecentWallet, Storage, read, record_wallet, forget_wallet, is_other_wallet, max_entries,
}
use zksettle.RecentWallets.Recency.{read-write, All-take}
use zksettle.Explorer.{
  ExplorerState, opened, activate, look_up, use_my_wallet, pick_recent, is_active, Visit, types,
  searches, takes_own, picks, forgets, visit, visits,
}

abbrev pub IsCanonical : Text → Type 0
IsCanonical wallet = is_hex_64 wallet ≡ true

abbrev pub IsListed : RecentWallet → Type 0
IsListed e = IsCanonical e.wallet

abbrev pub AreListed : Storage → Type 0
AreListed storage = All IsListed (read storage)

abbrev pub IsActive : Option Text → Type 0
IsActive none = Unit {0}
IsActive (some wallet) = IsCanonical wallet

abbrev pub IsSound : ExplorerState → Type 0
IsSound s = IsActive s.active_wallet × AreListed s.storage

-- A connected wallet has a key of 32 bytes.
abbrev pub IsVisit : Visit → Type 0
IsVisit (takes_own (some key) now) = IsKeyBytes key
IsVisit _ = Unit {0}

record_wallet-AreListed :
    (wallet : Text) (now : ℕ) (storage : Storage)
    → IsCanonical wallet
    → AreListed storage
    → AreListed (record_wallet wallet now storage)
unfolding record_wallet
record_wallet-AreListed wallet now storage h listed =
    let entries : List RecentWallet =
      record { wallet = wallet; last_seen_at = now }
      ∷ keep (is_other_wallet wallet) (read storage) in
    let all : All IsListed entries =
      (h, All-keep IsListed (is_other_wallet wallet) (read storage) listed) in
    subst (All IsListed) (sym (read-write (take max_entries entries)))
      (All-take IsListed max_entries entries all)

forget_wallet-AreListed :
    (wallet : Text) (storage : Storage)
    → AreListed storage
    → AreListed (forget_wallet wallet storage)
unfolding forget_wallet
forget_wallet-AreListed wallet storage listed =
    subst (All IsListed) (sym (read-write _))
      (All-keep IsListed (is_other_wallet wallet) (read storage) listed)

All-get_elem :
    {A : Type 0} (P : A → Type 0) (xs : List A) (n : ℕ) (x : A)
    → All P xs
    → get_elem? xs n ≡ some x
    → P x
All-get_elem P [] n x h e = cc
All-get_elem P (y ∷ xs) zero x (h, hs) e = subst P (some_inj e) h
All-get_elem P (y ∷ xs) (suc n) x (h, hs) e = All-get_elem P xs n x hs e

activate-IsSound :
    (wallet : Text) (now : ℕ) (s : ExplorerState)
    → IsCanonical wallet
    → IsSound s
    → IsSound (activate wallet now s)
activate-IsSound wallet now s h (active, listed) =
    (h, record_wallet-AreListed wallet now s.storage h listed)

if-IsSound :
    (b : Bool) (s t : ExplorerState)
    → (b ≡ true → IsSound s)
    → IsSound t
    → IsSound (if b then s else t)
if-IsSound true s t h k = h refl
if-IsSound false s t h k = k

look_up-IsSound : (now : ℕ) (s : ExplorerState) → IsSound s → IsSound (look_up now s)
unfolding look_up is_valid_wallet_hex
look_up-IsSound now s h =
    let typed : Text = normalize_wallet_hex s.wallet_input in
    if-IsSound (is_hex_64 typed) (activate typed now s) s
      (λ valid. activate-IsSound typed now s valid h) h

use_my_wallet-IsSound :
    (key : Option Bytes) (now : ℕ) (s : ExplorerState)
    → IsVisit (takes_own key now)
    → IsSound s
    → IsSound (use_my_wallet key now s)
unfolding use_my_wallet
use_my_wallet-IsSound none now s k h = h
use_my_wallet-IsSound (some key) now s k h =
    activate-IsSound (bytes_to_hex key) now (record s { wallet_input = bytes_to_hex key })
      (ap is_hex_64 (bytes_to_hex-hex_of key k.1) ∙ hex_of-is_hex_64 key k) h

pick_recent-IsSound :
    (wallet : Text) (now : ℕ) (s : ExplorerState)
    → IsCanonical wallet
    → IsSound s
    → IsSound (pick_recent wallet now s)
unfolding pick_recent
pick_recent-IsSound wallet now s h (active, listed) =
    let typed : ExplorerState = record s { wallet_input = wallet } in
    if-IsSound (is_active s.active_wallet wallet)
      (record typed { refetches = suc s.refetches; storage = record_wallet wallet now s.storage })
      (activate wallet now typed)
      (λ _. (active, record_wallet-AreListed wallet now s.storage h listed))
      (activate-IsSound wallet now typed h (active, listed))

at-IsSound :
    (o : Option RecentWallet) (f : RecentWallet → ExplorerState) (s : ExplorerState)
    → IsSound s
    → ((e : RecentWallet) → o ≡ some e → IsSound (f e))
    → IsSound (elim o [ none ↦ s | some e ↦ f e ])
at-IsSound none f s h k = h
at-IsSound (some e) f s h k = k e refl

visit-IsSound : (v : Visit) (s : ExplorerState) → IsVisit v → IsSound s → IsSound (visit s v)
unfolding visit
visit-IsSound (types text) s v h = h
visit-IsSound (searches now) s v h = look_up-IsSound now s h
visit-IsSound (takes_own key now) s v h = use_my_wallet-IsSound key now s v h
visit-IsSound (picks n now) s v h =
    at-IsSound (get_elem? (read s.storage) n) (λ e. pick_recent e.wallet now s) s h
      (λ e there.
        pick_recent-IsSound e.wallet now s (All-get_elem IsListed (read s.storage) n e h.1 there) h)
visit-IsSound (forgets n) s v h =
    at-IsSound (get_elem? (read s.storage) n)
      (λ e. record s { storage = forget_wallet e.wallet s.storage }) s h
      (λ e _. (h.0, forget_wallet-AreListed e.wallet s.storage h.1))

-- However a visitor uses the explorer, with a connected wallet of 32 bytes, on a storage whose wallets
-- are 64 hexadecimal digits in lower case: the wallet that it asks for and all wallets that it
-- remembers are of this form.
pub visits-IsSound :
    (storage : Storage) (vs : List Visit)
    → All IsVisit vs
    → AreListed storage
    → IsSound (visits (opened storage) vs)
visits-IsSound storage vs h listed = go vs (opened storage) h (tt, listed)
  where
    go : (vs : List Visit) (s : ExplorerState) → All IsVisit vs → IsSound s → IsSound (visits s vs)
    go [] s h sound = sound
    go (v ∷ vs) s (first, h) sound = go vs (visit s v) h (visit-IsSound v s first sound)
