-- ===== src/RecentWallets.antt =====
-- frontend/src/hooks/use-recent-wallets.ts: the wallets that the page remembers in the browser's
-- storage. What is stored is JSON that anyone may have written: `JSON.parse` gives no array, or elements
-- of which some are entries.
pub mod Recency
use zksettle.Base.{
  ℕ, List, Option, Bool, none, some, true, false, [], ◌∷◌, not, take, keep, map, if◌then◌else◌,
}
use zksettle.Base.Text.{Text}
use zksettle.Base.Bytes.{bytes_eq}

abbrev pub max_entries : ℕ
max_entries = 8

pub record RecentWallet : Type 0 where
  pub wallet : Text
  pub last_seen_at : ℕ

pub data StoredElement : Type 0 where
  entry : RecentWallet → StoredElement
  other : StoredElement

-- Nothing, text that is no JSON or no array, or an array.
pub data Storage : Type 0 where
  absent unreadable : Storage
  array : List StoredElement → Storage

-- `parsed.filter(…)`
abbrev pub entries_of : List StoredElement → List RecentWallet
entries_of [] = []
entries_of (entry e ∷ rest) = e ∷ entries_of rest
entries_of (other ∷ rest) = entries_of rest

unfoldable pub read : Storage → List RecentWallet
read absent = []
read unreadable = []
read (array elements) = entries_of elements

unfoldable pub write : List RecentWallet → Storage
write entries = array (map entry entries)

abbrev pub is_other_wallet : Text → RecentWallet → Bool
is_other_wallet wallet e = not (bytes_eq e.wallet wallet)

-- `useRecordWallet` and `useForgetWallet`
unfoldable pub record_wallet : Text → ℕ → Storage → Storage
unfolding read write
record_wallet wallet now s = write (
    take max_entries
      (record { wallet = wallet; last_seen_at = now } ∷ keep (is_other_wallet wallet) (read s)))

unfoldable pub forget_wallet : Text → Storage → Storage
unfolding read write
forget_wallet wallet s = write (keep (is_other_wallet wallet) (read s))
