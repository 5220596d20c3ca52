-- ===== src/Tests/RecentWallets.antt =====
-- Runs of the theorems on recent wallets.
use zksettle.Base.{ℕ, List, ◌∷◌, [], ◌≡◌, refl, take, reverse}
use zksettle.Base.Bytes.{bytes_eq}
use zksettle.RecentWallets.{
  RecentWallet, unreadable, array, entry, other, read, record_wallet, forget_wallet, max_entries,
  write,
}
use zksettle.RecentWallets.Recency.{latest, record_all, record_all-latest}

abbrev seen : ℕ → ℕ → RecentWallet
seen wallet now = record { wallet = wallet ∷ []; last_seen_at = now }

abbrev visits : List RecentWallet
visits =
    seen 1 10
    ∷ seen 2 20
    ∷ seen 1 30
    ∷ seen 3 40
    ∷ seen 4 50
    ∷ seen 5 60
    ∷ seen 6 70
    ∷ seen 7 80
    ∷ seen 8 90
    ∷ seen 9 100
    ∷ []

record_all-latest_example :
    read (record_all visits unreadable) ≡ take max_entries (latest (reverse visits))
unfolding read
record_all-latest_example = record_all-latest visits unreadable refl

-- The second wallet is the one that is forgotten.
latest_test :
    take max_entries (latest (reverse visits))
    ≡ seen 9 100
      ∷ seen 8 90
      ∷ seen 7 80
      ∷ seen 6 70
      ∷ seen 5 60
      ∷ seen 4 50
      ∷ seen 3 40
      ∷ seen 1 30
      ∷ []
unfolding bytes_eq
latest_test = refl

record_wallet_test :
    read (record_wallet (1 ∷ []) 30 (array (entry (seen 2 20) ∷ other ∷ entry (seen 1 10) ∷ [])))
    ≡ seen 1 30 ∷ seen 2 20 ∷ []
unfolding record_wallet read write bytes_eq
record_wallet_test = refl

forget_wallet_test :
    read (forget_wallet (2 ∷ []) (array (entry (seen 2 20) ∷ other ∷ entry (seen 1 10) ∷ [])))
    ≡ seen 1 10 ∷ []
unfolding forget_wallet read write bytes_eq
forget_wallet_test = refl
