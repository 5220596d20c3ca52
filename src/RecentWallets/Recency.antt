-- ===== src/RecentWallets/Recency.antt =====
-- The list that is shown is the eight wallets recorded last.
use zksettle.Base.{
  ℕ, List, Bool, true, false, [], ◌∷◌, ◌≡◌, refl, ap, sym, ◌∙◌, not, take, keep, All, All-keep,
  zero, suc, Bool-cases, inl, inr, keep_eq, subst, keep-All, reverse_onto, reverse,
}
use zksettle.Base.Text.{Text}
use zksettle.Base.Bytes.{bytes_eq, bytes_eq_iff}
use zksettle.RecentWallets.{
  RecentWallet, Storage, read, write, is_other_wallet, record_wallet, max_entries,
}

pub read-write : (entries : List RecentWallet) → read (write entries) ≡ entries
unfolding read write
read-write [] = refl
read-write (e ∷ entries) = ap (λ t. e ∷ t) (read-write entries)

-- The latest record of each wallet, of records listed from the latest to the earliest.
abbrev pub latest : List RecentWallet → List RecentWallet
latest [] = []
latest (e ∷ earlier) = e ∷ keep (is_other_wallet e.wallet) (latest earlier)

-- Records made one after the other.
abbrev pub record_all : List RecentWallet → Storage → Storage
record_all [] s = s
record_all (e ∷ rest) s = record_all rest (record_wallet e.wallet e.last_seen_at s)

abbrev IsDistinct : List RecentWallet → Type 0
IsDistinct [] = Unit {0}
IsDistinct (e ∷ rest) = All (λ d. is_other_wallet e.wallet d ≡ true) rest × IsDistinct rest

keep-IsDistinct :
    (p : RecentWallet → Bool) (es : List RecentWallet) → IsDistinct es → IsDistinct (keep p es)
keep-IsDistinct p [] h = tt
keep-IsDistinct p (e ∷ es) (h, hs) = elim (Bool-cases (p e)) [
  | inl yes_p ↦
      subst IsDistinct (sym (keep_eq p e es true yes_p))
        (All-keep (λ d. is_other_wallet e.wallet d ≡ true) p es h, keep-IsDistinct p es hs)
  | inr no_p ↦ subst IsDistinct (sym (keep_eq p e es false no_p)) (keep-IsDistinct p es hs)
]

latest-IsDistinct : (es : List RecentWallet) → IsDistinct (latest es)
latest-IsDistinct [] = tt
latest-IsDistinct (e ∷ es) = (
  keep-All (is_other_wallet e.wallet) (latest es),
  keep-IsDistinct (is_other_wallet e.wallet) (latest es) (latest-IsDistinct es),
)

keep_whole :
    (p : RecentWallet → Bool) (es : List RecentWallet) → All (λ e. p e ≡ true) es → keep p es ≡ es
keep_whole p [] h = refl
keep_whole p (e ∷ es) (h, hs) = keep_eq p e es true h ∙ ap (λ t. e ∷ t) (keep_whole p es hs)

take-take : {A : Type 0} (n : ℕ) (xs : List A) → take n (take n xs) ≡ take n xs
take-take zero xs = refl
take-take (suc n) [] = refl
take-take (suc n) (x ∷ xs) = ap (λ t. x ∷ t) (take-take n xs)

pub All-take : {A : Type 0} (P : A → Type 0) (n : ℕ) (xs : List A) → All P xs → All P (take n xs)
All-take P zero xs h = tt
All-take P (suc n) [] h = tt
All-take P (suc n) (x ∷ xs) (h, hs) = (h, All-take P n xs hs)

All-same_wallet :
    (e : RecentWallet) (wallet : Text) (es : List RecentWallet)
    → e.wallet ≡ wallet
    → All (λ d. is_other_wallet e.wallet d ≡ true) es
    → All (λ d. is_other_wallet wallet d ≡ true) es
All-same_wallet e wallet es same h = subst (λ w. All (λ d. is_other_wallet w d ≡ true) es) same h

pub not_eq_false : (b : Bool) → not b ≡ false → b ≡ true
not_eq_false true h = refl
not_eq_false false h = cc

-- Cutting the list first loses none of the first `n` others.
take-keep-take :
    (n : ℕ) (wallet : Text) (es : List RecentWallet)
    → IsDistinct es
    → take n (keep (is_other_wallet wallet) (take (suc n) es))
      ≡ take n (keep (is_other_wallet wallet) es)
take-keep-take zero wallet es h = refl
take-keep-take (suc m) wallet [] h = refl
take-keep-take (suc m) wallet (e ∷ es) (h, hs) = elim (Bool-cases (is_other_wallet wallet e)) [
  | inl other ↦
      ap (take (suc m)) (keep_eq (is_other_wallet wallet) e (take (suc m) es) true other)
      ∙ ap (λ t. e ∷ t) (take-keep-take m wallet es hs)
      ∙ ap (take (suc m)) (sym (keep_eq (is_other_wallet wallet) e es true other))
  | inr same ↦
      let is_wallet : e.wallet ≡ wallet =
        (bytes_eq_iff e.wallet wallet).0 (not_eq_false (bytes_eq e.wallet wallet) same) in
      let others = All-same_wallet e wallet es is_wallet h in
      ap (take (suc m)) (keep_eq (is_other_wallet wallet) e (take (suc m) es) false same)
      ∙ ap (take (suc m)) (
          keep_whole (is_other_wallet wallet) (take (suc m) es)
            (All-take (λ d. is_other_wallet wallet d ≡ true) (suc m) es others))
      ∙ take-take (suc m) es
      ∙ ap (take (suc m)) (
          sym (
            keep_eq (is_other_wallet wallet) e es false same
            ∙ keep_whole (is_other_wallet wallet) es others))
]

record_wallet-latest :
    (e : RecentWallet) (s : Storage) (earlier : List RecentWallet)
    → read s ≡ take max_entries (latest earlier)
    → read (record_wallet e.wallet e.last_seen_at s) ≡ take max_entries (latest (e ∷ earlier))
unfolding record_wallet
record_wallet-latest e s earlier h =
    read-write _
    ∙ ap (λ t. e ∷ take 7 (keep (is_other_wallet e.wallet) t)) h
    ∙ ap (λ t. e ∷ t) (take-keep-take 7 e.wallet (latest earlier) (latest-IsDistinct earlier))

record_all-onto :
    (es : List RecentWallet) (s : Storage) (earlier : List RecentWallet)
    → read s ≡ take max_entries (latest earlier)
    → read (record_all es s) ≡ take max_entries (latest (reverse_onto es earlier))
record_all-onto [] s earlier h = h
record_all-onto (e ∷ es) s earlier h =
    record_all-onto es (record_wallet e.wallet e.last_seen_at s) (e ∷ earlier)
      (record_wallet-latest e s earlier h)

-- Whatever wallets are recorded, at whatever times, in a storage that shows none: the list that is
-- shown is the eight wallets recorded last, the latest first, each once and with its latest time.
pub record_all-latest :
    (es : List RecentWallet) (s : Storage)
    → read s ≡ []
    → read (record_all es s) ≡ take max_entries (latest (reverse es))
record_all-latest es s h = record_all-onto es s [] h
