-- ===== src/Api/Client/Signed.antt =====
-- The wallet's headers on their way from the page through the proxy.
use zksettle.Base.{
  ℕ, Option, none, some, true, false, [], ◌∷◌, ◌++◌, ◌≡◌, refl, ap, sym, ◌∙◌, if◌then◌else◌,
  Bool-cases, inl, inr,
}
use zksettle.Base.Text.{Text, codes}
use zksettle.Base.Bytes.{bytes_eq, bytes_eq_iff}
use zksettle.Base.Decimal.{decimal}
use zksettle.Api.Headers.{HeaderList, get, names, lower, or_else, or_else_assoc}
use zksettle.Api.Proxy.{forwarded_headers, is_hop_by_hop}
use zksettle.Api.Proxy.Passed.{get-forwarded_headers, or_else-none}
use zksettle.WalletAuth.{headers}
use zksettle.Api.Client.{put, assign, auth_record}

-- The names of the three headers.
abbrev pub pubkey : Text
pubkey = codes "x-wallet-pubkey"

abbrev pub signature : Text
signature = codes "x-wallet-signature"

abbrev pub timestamp : Text
timestamp = codes "x-wallet-timestamp"

or_else-parts : (a b : Option Text) → or_else a b ≡ none → (a ≡ none) × (b ≡ none)
or_else-parts none b h = (refl, h)
or_else-parts (some w) b h = cc

get-put_new :
    (name k v : Text) (hs : HeaderList)
    → names k name ≡ true
    → get name hs ≡ none
    → get name (put k v hs) ≡ some v
unfolding get put
get-put_new name k v [] same free = rw same
get-put_new name k v ((j, w) ∷ hs) same free =
    let (later, here) = or_else-parts (get name hs) (if names j name then some w else none) free in
    elim (Bool-cases (bytes_eq j k)) [
      | inl written ↦ let e : j ≡ k = (bytes_eq_iff j k).0 written in rw (written, later, e, same)
      | inr differs ↦ rw (differs, get-put_new name k v hs same later)
    ]

get-put_other :
    (name k v : Text) (hs : HeaderList) → names k name ≡ false → get name (put k v hs) ≡ get name hs
unfolding get put
get-put_other name k v [] other = rw other
get-put_other name k v ((j, w) ∷ hs) other = elim (Bool-cases (bytes_eq j k)) [
  | inl same ↦ let e : j ≡ k = (bytes_eq_iff j k).0 same in rw (same, e, other) refl
  | inr differs ↦ rw (differs, get-put_other name k v hs other)
]

get-append :
    (name : Text) (xs ys : HeaderList) → get name (xs ++ ys) ≡ or_else (get name ys) (get name xs)
unfolding get
get-append name [] ys = or_else-none (get name ys)
get-append name ((k, v) ∷ xs) ys =
    ap (λ o. or_else o (if names k name then some v else none)) (get-append name xs ys)
    ∙ sym (or_else_assoc (get name ys) (get name xs) (if names k name then some v else none))

-- A sender that names none of the three headers.
abbrev pub IsUnsigned : HeaderList → Type 0
IsUnsigned hs = (get pubkey hs ≡ none) × (get signature hs ≡ none) × (get timestamp hs ≡ none)

abbrev pub Carries : HeaderList → Text → Text → Text → Type 0
Carries hs wallet sig ts =
    (get pubkey hs ≡ some wallet) × (get signature hs ≡ some sig) × (get timestamp hs ≡ some ts)

pub assign-Carries :
    (hs : HeaderList) (wallet sig : Text) (ts : ℕ)
    → IsUnsigned hs
    → Carries (assign hs (auth_record (headers wallet sig ts))) wallet sig (decimal ts)
unfolding assign bytes_eq lower
assign-Carries hs wallet sig ts (p, q, r) =
    let one = put pubkey wallet hs in
    let two = put signature sig one in
    let three = put timestamp (decimal ts) two in
    (
      get-put_other pubkey timestamp (decimal ts) two refl
          ∙ get-put_other pubkey signature sig one refl
          ∙ get-put_new pubkey pubkey wallet hs refl p,
      get-put_other signature timestamp (decimal ts) two refl
          ∙ get-put_new signature signature sig one refl
              (get-put_other signature pubkey wallet hs refl ∙ q),
      get-put_new timestamp timestamp (decimal ts) two refl (
          get-put_other timestamp signature sig one refl
          ∙ get-put_other timestamp pubkey wallet hs refl
          ∙ r),
    )

pub append-Carries :
    (browser hs : HeaderList) (wallet sig ts : Text)
    → Carries hs wallet sig ts
    → Carries (browser ++ hs) wallet sig ts
append-Carries browser hs wallet sig ts (p, q, r) = (
  get-append pubkey browser hs ∙ ap (λ o. or_else o (get pubkey browser)) p,
  get-append signature browser hs ∙ ap (λ o. or_else o (get signature browser)) q,
  get-append timestamp browser hs ∙ ap (λ o. or_else o (get timestamp browser)) r,
)

pub forwarded-Carries :
    (request : HeaderList) (active_key : Option Text) (wallet sig ts : Text)
    → Carries request wallet sig ts
    → Carries (forwarded_headers request active_key) wallet sig ts
unfolding bytes_eq is_hop_by_hop
forwarded-Carries request active_key wallet sig ts (p, q, r) = (
  get-forwarded_headers request active_key pubkey ∙ p,
  get-forwarded_headers request active_key signature ∙ q,
  get-forwarded_headers request active_key timestamp ∙ r,
)
