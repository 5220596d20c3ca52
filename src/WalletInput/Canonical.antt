-- ===== src/WalletInput/Canonical.antt =====
-- Each way of writing a key has one canonical form: 64 hexadecimal digits in lower case.
use zksettle.Base.Maybe.{some_inj}
use zksettle.Base.{
  ℕ, Option, Bool, some, true, false, [], ◌∷◌, ◌++◌, ◌≡◌, ◌≤◌, ◌<◌, ◌%◌, refl, ap, sym, ◌∙◌, arith,
  All, All-imp, all, length, map, Bool-cases, Option-cases, inl, inr, subst, ◌==◌, ==_iff, and_left,
  and_right, length-map, leb, ◌/◌, ◌&&◌, leb→le, length-drop,
}
use zksettle.Base.Text.{Text, codes, starts_with}
use zksettle.Base.Bytes.{Bytes, IsByte}
use zksettle.Base.Decimal.{hex_of, digit}
use zksettle.Nullifier.Fields.{length-hex_of}
use zksettle.Format.{trim}
use zksettle.Format.Trim.{trim-solid, IsSolid}
use zksettle.Api.Headers.{lower, lower_char}
use zksettle.WalletInput.{
  is_lower_hex, is_hex_64, is_base58_key, is_base58_char, without_0x, normalize_wallet_hex,
  bytes_to_hex, try_base58_to_hex, normalize_wallet_input,
}

abbrev pub IsHexChar : ℕ → Type 0
IsHexChar c = is_lower_hex c ≡ true

all-All : (p : ℕ → Bool) (s : Text) → all p s ≡ true → All (λ c. p c ≡ true) s
all-All p [] h = tt
all-All p (c ∷ s) h = (and_left (p c) (all p s) h, all-All p s (and_right (p c) (all p s) h))

All-all : (p : ℕ → Bool) (s : Text) → All (λ c. p c ≡ true) s → all p s ≡ true
All-all p [] h = refl
All-all p (c ∷ s) (h, hs) = rw h (All-all p s hs)

IsHexChar-IsSolid : (c : ℕ) → IsHexChar c → IsSolid c
IsHexChar-IsSolid c h = ground arith

IsHexChar-lower : (c : ℕ) → IsHexChar c → lower_char c ≡ c
IsHexChar-lower c h = ground arith

pub lower-hex : (s : Text) → All IsHexChar s → lower s ≡ s
unfolding lower
lower-hex [] h = refl
lower-hex (c ∷ s) (h, hs) = λ i. IsHexChar-lower c h i ∷ lower-hex s hs i

pub starts_with-hex : (s : Text) → All IsHexChar s → starts_with s (codes "0x") ≡ false
unfolding starts_with
starts_with-hex [] h = refl
starts_with-hex (c ∷ []) h = ground arith
starts_with-hex (c ∷ d ∷ s) (h, (k, _)) = ground arith

normalize_wallet_hex-hex : (s : Text) → All IsHexChar s → normalize_wallet_hex s ≡ s
unfolding normalize_wallet_hex
normalize_wallet_hex-hex s h =
    ap (λ t. without_0x (lower t)) (trim-solid s (All-imp IsHexChar-IsSolid s h))
    ∙ ap without_0x (lower-hex s h)
    ∙ rw (starts_with-hex s h) refl

-- With the prefix.
normalize_wallet_hex-0x : (s : Text) → All IsHexChar s → normalize_wallet_hex (codes "0x" ++ s) ≡ s
unfolding normalize_wallet_hex lower starts_with
normalize_wallet_hex-0x s h =
    ap (λ t. without_0x (lower t))
      (trim-solid (codes "0x" ++ s) (refl, (refl, All-imp IsHexChar-IsSolid s h)))
    ∙ ap (λ t. without_0x (b'0' ∷ b'x' ∷ t)) (lower-hex s h)

digit-IsHexChar : (n : ℕ) → n < 16 → IsHexChar (digit n)
digit-IsHexChar n h = ground arith

pub hex_of-IsHexChar : (bs : Bytes) → All IsByte bs → All IsHexChar (hex_of bs)
hex_of-IsHexChar [] h = tt
hex_of-IsHexChar (b ∷ bs) (p, h) = (
  digit-IsHexChar (b / 16) (omega arith),
  (digit-IsHexChar (b % 16) (omega arith), hex_of-IsHexChar bs h),
)

abbrev pub IsKeyBytes : Bytes → Type 0
IsKeyBytes bs = (length bs ≡ 32) × All IsByte bs

pub hex_of-is_hex_64 : (bs : Bytes) → IsKeyBytes bs → is_hex_64 (hex_of bs) ≡ true
unfolding is_hex_64
hex_of-is_hex_64 bs (len, h) =
    let long : (length (hex_of bs) == 64) ≡ true =
      (==_iff _ _).1 (omega (arith, length-hex_of bs)) in
    rw long (All-all is_lower_hex (hex_of bs) (hex_of-IsHexChar bs h))

map-mod : (bs : Bytes) → All IsByte bs → map (λ b. b % 256) bs ≡ bs
map-mod [] h = refl
map-mod (b ∷ bs) (p, h) = let e : b % 256 ≡ b = omega arith in λ i. e i ∷ map-mod bs h i

pub bytes_to_hex-hex_of : (bs : Bytes) → All IsByte bs → bytes_to_hex bs ≡ hex_of bs
unfolding bytes_to_hex
bytes_to_hex-hex_of bs h = ap hex_of (map-mod bs h)

base58_char-IsSolid : (c : ℕ) → is_base58_char c ≡ true → IsSolid c
base58_char-IsSolid c h = ground arith

length-without_0x : (s : Text) → length (without_0x s) ≤ length s
length-without_0x s = elim (Bool-cases (starts_with s (codes "0x"))) [
  | inl prefixed ↦ rw prefixed (omega (arith, length-drop 2 s))
  | inr bare ↦ rw bare (omega arith)
]

base58-length : (s : Text) → is_base58_key s ≡ true → length s ≤ 44
unfolding is_base58_key
base58-length s h = leb→le (length s) 44 (
    and_right (leb 32 (length s)) (leb (length s) 44)
      (and_left (leb 32 (length s) && leb (length s) 44) (all is_base58_char s) h))

base58-trim : (s : Text) → is_base58_key s ≡ true → trim s ≡ s
unfolding is_base58_key
base58-trim s h = trim-solid s (
    All-imp base58_char-IsSolid s (
      all-All is_base58_char s
        (and_right (leb 32 (length s) && leb (length s) 44) (all is_base58_char s) h)))

-- Text of at most 44 characters is no key in hexadecimal.
short-is_hex_64 : (s : Text) → length s ≤ 44 → is_hex_64 s ≡ false
unfolding is_hex_64
short-is_hex_64 s h = let e : (length s == 64) ≡ false = ground arith in rw e

base58-not-hex : (s : Text) → is_base58_key s ≡ true → is_hex_64 (normalize_wallet_hex s) ≡ false
unfolding normalize_wallet_hex lower
base58-not-hex s h = short-is_hex_64 (without_0x (lower (trim s))) (
    rw (base58-trim s h)
      (omega (arith, length-without_0x (lower s), length-map s lower_char, base58-length s h)))

module _ (key_bytes : Text → Option Bytes) where
  hex-canonical :
      (s : Text)
      → is_hex_64 s ≡ true
      → (normalize_wallet_input key_bytes s ≡ some s)
        × (normalize_wallet_input key_bytes (codes "0x" ++ s) ≡ some s)
  unfolding normalize_wallet_input is_hex_64
  hex-canonical s h =
      let chars = all-All is_lower_hex s (and_right (length s == 64) (all is_lower_hex s) h) in
      (rw (normalize_wallet_hex-hex s chars, h) refl, rw (normalize_wallet_hex-0x s chars, h) refl)

  -- A key of 32 bytes has the same canonical form, its 64 hexadecimal digits, whether it is typed as
  -- these digits, as these digits behind `0x`, or as base58 text that stands for it.
  pub normalize_wallet_input-same :
      (bs : Bytes) (text : Text)
      → IsKeyBytes bs
      → is_base58_key text ≡ true
      → key_bytes text ≡ some bs
      → (normalize_wallet_input key_bytes (hex_of bs) ≡ some (hex_of bs))
        × (normalize_wallet_input key_bytes (codes "0x" ++ hex_of bs) ≡ some (hex_of bs))
        × (normalize_wallet_input key_bytes text ≡ some (hex_of bs))
  unfolding normalize_wallet_input try_base58_to_hex
  normalize_wallet_input-same bs text k base58 decoded =
      let (plain, prefixed) = hex-canonical (hex_of bs) (hex_of-is_hex_64 bs k) in
      (
        plain,
        prefixed,
        rw (base58-not-hex text base58, base58-trim text base58, base58, decoded)
            (ap some (bytes_to_hex-hex_of bs k.1)),
      )

  normalize_wallet_input-hex :
      (input h : Text)
      → ((text : Text) (bs : Bytes) → key_bytes text ≡ some bs → IsKeyBytes bs)
      → normalize_wallet_input key_bytes input ≡ some h
      → is_hex_64 h ≡ true
  unfolding normalize_wallet_input try_base58_to_hex
  normalize_wallet_input-hex input h keys e =
      elim (Bool-cases (is_hex_64 (normalize_wallet_hex input))) [
        | inl hex ↦ subst (λ t. is_hex_64 t ≡ true) (some_inj (rw hex at e)) hex
        | inr other ↦ elim (Bool-cases (is_base58_key (trim input))) [
          | inr neither ↦ cc (rw (other, neither) at e)
          | inl base58 ↦ elim (Option-cases (key_bytes (trim input))) [
            | inl thrown ↦ cc (rw (other, base58, thrown) at e)
            | inr (bs, decoded) ↦
                let k = keys (trim input) bs decoded in
                let shown : bytes_to_hex bs ≡ h = some_inj (rw (other, base58, decoded) at e) in
                subst (λ t. is_hex_64 t ≡ true) (sym (bytes_to_hex-hex_of bs k.1) ∙ shown)
                  (hex_of-is_hex_64 bs k)
          ]
        ]
      ]

  -- Whatever is typed, if keys are decoded to 32 bytes: what it is normalized to is 64 hexadecimal
  -- digits in lower case, which are normalized to themselves.
  pub normalize_wallet_input_idem :
      (input h : Text)
      → ((text : Text) (bs : Bytes) → key_bytes text ≡ some bs → IsKeyBytes bs)
      → normalize_wallet_input key_bytes input ≡ some h
      → (is_hex_64 h ≡ true) × (normalize_wallet_input key_bytes h ≡ some h)
  normalize_wallet_input_idem input h keys e =
      let is_hex : is_hex_64 h ≡ true = normalize_wallet_input-hex input h keys e in
      (is_hex, (hex-canonical h is_hex).0)
