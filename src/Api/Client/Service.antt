-- ===== src/Api/Client/Service.antt =====
-- How the issuer service checks the wallet headers of a proof request: verify_wallet_headers of
-- backend/crates/issuer-service/src/handlers/prove_groth16.rs, parse_replay_timestamp and
-- verify_wallet_signature of auth.rs beside it. Header values are ASCII. The body's hash and the
-- signature's check (solana_sdk) are parameters, and so is the clock, in seconds.
use zksettle.Base.{
  ℕ, Option, Bool, none, some, true, false, [], ◌∷◌, ◌++◌, ◌≡◌, refl, ap, ◌∙◌, ◌<◌, ◌^◌, ◌/◌, ◌%◌,
  ◌*◌, ◌+◌, ◌-◌, if◌then◌else◌, ◌&&◌, ◌||◌, ◌==◌, ltb, leb, lt→ltb, all, All, length, arith, Result,
  ok, err, or_throw, ◌>>=◌, ==_iff, ◌||◌,
}
use zksettle.Base.Text.{Text, codes}
use zksettle.Base.Bytes.{Bytes, IsByte}
use zksettle.Base.Decimal.{decimal, digits_value, hex_of, digit}
use zksettle.Base.Decimal.Value.{IsDigit, digits_value-decimal, decimal-IsDigit, length-decimal_pos}
use zksettle.Format.{is_digit}
use zksettle.Api.Headers.{HeaderList, get, lower}
use zksettle.Api.Client.Signed.{pubkey, signature, timestamp, Carries}
use zksettle.WalletInput.{without_0x}
use zksettle.WalletInput.Canonical.{IsKeyBytes, lower-hex, starts_with-hex, hex_of-IsHexChar}

-- The reasons of `ProveError::Unauthorized`.
pub data Unauthorized : Type 0 where
  missing_wallet invalid_wallet_hex wallet_not_32_bytes missing_signature : Unauthorized
  missing_timestamp invalid_timestamp outside_replay_window signature_refused : Unauthorized

-- A digit of `hex::decode`, which takes both cases.
unfoldable pub hex_digit_value : ℕ → Option ℕ
hex_digit_value c =
    if leb b'0' c && leb c b'9'
    then some (c - b'0')
    else if leb b'a' c && leb c b'f'
    then some (c - b'a' + 10)
    else if leb b'A' c && leb c b'F'
    then some (c - b'A' + 10)
    else none

unfoldable pub hex_pair : Option ℕ → Option ℕ → Option Bytes → Option Bytes
hex_pair (some high) (some low) (some bytes) = some ((high * 16 + low) ∷ bytes)
hex_pair _ _ _ = none

-- `hex::decode`
unfoldable pub hex_decode : Text → Option Bytes
unfolding hex_digit_value hex_pair
hex_decode [] = some []
hex_decode (_ ∷ []) = none
hex_decode (c ∷ d ∷ s) = hex_pair (hex_digit_value c) (hex_digit_value d) (hex_decode s)

-- `str::parse::<u64>`
unfoldable pub parse_digits : Text → Option ℕ
parse_digits s =
    if ltb 0 (length s) && all is_digit s && ltb (digits_value 0 s) (2 ^ 64)
    then some (digits_value 0 s)
    else none

unfoldable pub without_plus : Text → Text
without_plus [] = []
without_plus (c ∷ s) = if c == b'+' then s else c ∷ s

unfoldable pub parse_u64 : Text → Option ℕ
parse_u64 s = parse_digits (without_plus s)

-- `now.abs_diff(timestamp) > REPLAY_WINDOW_SECS`
abbrev pub is_outside : ℕ → ℕ → Bool
is_outside now ts = ltb 300 ((now - ts) + (ts - now))

-- What `parse_replay_timestamp` makes of the parsed number.
unfoldable pub in_window : ℕ → Option ℕ → Result Unauthorized ℕ
in_window now none = err invalid_timestamp
in_window now (some ts) = if is_outside now ts then err outside_replay_window else ok ts

unfoldable pub parse_replay_timestamp : ℕ → Text → Result Unauthorized ℕ
unfolding parse_u64 in_window
parse_replay_timestamp now ts_header = in_window now (parse_u64 ts_header)

-- `[u8; 32]` of the decoded text.
unfoldable pub key_of : Option Bytes → Result Unauthorized Bytes
key_of none = err invalid_wallet_hex
key_of (some bytes) = if length bytes == 32 then ok bytes else err wallet_not_32_bytes

unfoldable pub wallet_bytes_of : Text → Result Unauthorized Bytes
unfolding hex_decode key_of
wallet_bytes_of wallet_hex = key_of (hex_decode (without_0x wallet_hex))

abbrev pub signed_message : Text → ℕ → Text → Text
signed_message wallet_hex ts body_hash =
    codes "zksettle:" ++ (wallet_hex ++ (codes ":" ++ (decimal ts ++ (codes ":" ++ body_hash))))

module _ (body_hash_hex : Bytes → Text) (verify_wallet_signature : Bytes → Text → Text → Bool) where
  -- The checks behind `allow_unauth`.
  unfoldable pub verify_signature : ℕ → HeaderList → Bytes → Text → Bytes → Result Unauthorized Text
  unfolding parse_replay_timestamp
  verify_signature now hs body wallet_hex wallet_bytes = do
    sig_header ← or_throw (get signature hs) missing_signature
    ts_header ← or_throw (get timestamp hs) missing_timestamp
    ts ← parse_replay_timestamp now ts_header
    if verify_wallet_signature wallet_bytes sig_header
          (signed_message wallet_hex ts (body_hash_hex body))
        then ok wallet_hex
        else err signature_refused

  unfoldable pub verify_wallet_headers : Bool → ℕ → HeaderList → Bytes → Result Unauthorized Text
  unfolding wallet_bytes_of verify_signature
  verify_wallet_headers allow_unauth now hs body = do
    wallet_hex_raw ← or_throw (get pubkey hs) missing_wallet
    wallet_bytes ← wallet_bytes_of (lower wallet_hex_raw)
    let checked = verify_signature now hs body (lower wallet_hex_raw) wallet_bytes
    if allow_unauth then ok (lower wallet_hex_raw) else checked

digit-tests : (s : Text) → All IsDigit s → all is_digit s ≡ true
digit-tests [] h = refl
digit-tests (c ∷ s) (h, hs) =
    let digit : is_digit c ≡ true = ground arith in rw digit (digit-tests s hs)

without_plus-digits : (s : Text) → All IsDigit s → without_plus s ≡ s
unfolding without_plus
without_plus-digits [] h = refl
without_plus-digits (c ∷ s) (h, hs) = let other : (c == b'+') ≡ false = ground arith in rw other

parse_u64-decimal : (n : ℕ) → n < 2 ^ 64 → parse_u64 (decimal n) ≡ some n
unfolding parse_u64 parse_digits
parse_u64-decimal n h =
    rw
      (
        without_plus-digits (decimal n) (decimal-IsDigit n),
        lt→ltb 0 (length (decimal n)) (length-decimal_pos n),
        digit-tests (decimal n) (decimal-IsDigit n),
        digits_value-decimal n,
        lt→ltb n (2 ^ 64) h,
      )
      refl

hex_digit_value-digit : (n : ℕ) → n < 16 → hex_digit_value (digit n) ≡ some n
unfolding hex_digit_value
hex_digit_value-digit n h = ground arith

hex_decode-hex_of : (bs : Bytes) → All IsByte bs → hex_decode (hex_of bs) ≡ some bs
unfolding hex_decode hex_pair
hex_decode-hex_of [] h = refl
hex_decode-hex_of (b ∷ bs) (p, h) =
    let value : b / 16 * 16 + b % 16 ≡ b = omega arith in
    rw
      (
        hex_digit_value-digit (b / 16) (omega arith),
        hex_digit_value-digit (b % 16) (omega arith),
        hex_decode-hex_of bs h,
        value,
      )
      refl

parse_replay_timestamp-decimal :
    (now ts : ℕ)
    → ts < 2 ^ 64
    → is_outside now ts ≡ false
    → parse_replay_timestamp now (decimal ts) ≡ ok ts
unfolding parse_replay_timestamp in_window
parse_replay_timestamp-decimal now ts small recent =
    ap (in_window now) (parse_u64-decimal ts small) ∙ rw recent refl

either :
    (a b : Bool) {A : Type 0} (x y : A)
    → (if a then x else (if b then x else y)) ≡ (if a || b then x else y)
either true b x y = refl
either false b x y = refl

module _ (body_hash_hex : Bytes → Text) (verify_wallet_signature : Bytes → Text → Text → Bool) where
  -- What is left of the check on the headers of a wallet's key: the signature.
  pub verify_wallet_headers-Carries :
      (allow_unauth : Bool) (now ts : ℕ) (hs : HeaderList) (body key : Bytes) (sig : Text)
      → Carries hs (hex_of key) sig (decimal ts)
      → IsKeyBytes key
      → ts < 2 ^ 64
      → is_outside now ts ≡ false
      → verify_wallet_headers body_hash_hex verify_wallet_signature allow_unauth now hs body ≡ (
          if allow_unauth
            || verify_wallet_signature key sig (signed_message (hex_of key) ts (body_hash_hex body))
          then ok (hex_of key)
          else err signature_refused)
  unfolding verify_wallet_headers verify_signature key_of
  verify_wallet_headers-Carries allow_unauth now ts hs body key sig (p, q, r) is_key small recent =
      let is_32 : (length key == 32) ≡ true = (==_iff _ _).1 is_key.0 in
      rw
        (
          p,
          lower-hex (hex_of key) (hex_of-IsHexChar key is_key.1),
          starts_with-hex (hex_of key) (hex_of-IsHexChar key is_key.1),
          hex_decode-hex_of key is_key.1,
          is_32,
          q,
          r,
          parse_replay_timestamp-decimal now ts small recent,
        )
        (either allow_unauth _ _ _)
