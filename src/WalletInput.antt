-- ===== src/WalletInput.antt =====
-- frontend/src/lib/wallet.ts: a wallet as a page's visitor types it, in hexadecimal or in base58.
-- `new PublicKey(text)` is a parameter: its bytes, or `none` when it throws.
pub mod Canonical
use zksettle.Base.{
  ℕ, List, Option, Bool, none, some, true, false, [], ◌∷◌, ◌&&◌, ◌||◌, ◌==◌, leb, all, drop, length,
  map, if◌then◌else◌, ◌%◌,
}
use zksettle.Base.Text.{Text, codes, starts_with}
use zksettle.Base.Bytes.{Bytes}
use zksettle.Base.Decimal.{hex_of}
use zksettle.Format.{trim}
use zksettle.Api.Headers.{lower}

abbrev pub is_lower_hex : ℕ → Bool
is_lower_hex c = (leb b'0' c && leb c b'9') || (leb b'a' c && leb c b'f')

-- `HEX_RE.test(s)`
unfoldable pub is_hex_64 : Text → Bool
is_hex_64 s = length s == 64 && all is_lower_hex s

abbrev pub is_base58_char : ℕ → Bool
is_base58_char c =
    (leb b'1' c && leb c b'9')
    || (leb b'A' c && leb c b'H')
    || (leb b'J' c && leb c b'N')
    || (leb b'P' c && leb c b'Z')
    || (leb b'a' c && leb c b'k')
    || (leb b'm' c && leb c b'z')

-- `BASE58_RE.test(s)`
unfoldable pub is_base58_key : Text → Bool
is_base58_key s = leb 32 (length s) && leb (length s) 44 && all is_base58_char s

-- `s.replace(/^0x/, "")`
abbrev pub without_0x : Text → Text
without_0x s = if starts_with s (codes "0x") then drop 2 s else s

unfoldable pub normalize_wallet_hex : Text → Text
normalize_wallet_hex input = without_0x (lower (trim input))

-- `bytesToHex`: the low byte of each number.
unfoldable pub bytes_to_hex : List ℕ → Text
bytes_to_hex bytes = hex_of (map (λ b. b % 256) bytes)

unfoldable pub is_valid_wallet_hex : Text → Bool
is_valid_wallet_hex input = is_hex_64 (normalize_wallet_hex input)

module _ (key_bytes : Text → Option Bytes) where
  unfoldable pub try_base58_to_hex : Text → Option Text
  try_base58_to_hex input =
      if is_base58_key (trim input)
      then elim (key_bytes (trim input)) [ none ↦ none | some bytes ↦ some (bytes_to_hex bytes) ]
      else none

  unfoldable pub normalize_wallet_input : Text → Option Text
  normalize_wallet_input input =
      if is_hex_64 (normalize_wallet_hex input)
      then some (normalize_wallet_hex input)
      else try_base58_to_hex input

  unfoldable pub is_valid_wallet_input : Text → Bool
  is_valid_wallet_input input = elim (normalize_wallet_input input) [ none ↦ false | some _ ↦ true ]
