-- ===== src/Tests/WalletInput.antt =====
-- Runs of the theorems on wallets that are typed. Only one text is decoded.

use zksettle.Api.Headers.{lower}
use zksettle.Format.{trim}
use zksettle.Base.{
  ℕ, Option, some, none, ◌++◌, ◌≡◌, refl, replicate, if◌then◌else◌, All, suc, arith, zero,
}
use zksettle.Base.Text.{Text, codes, starts_with}
use zksettle.Base.Bytes.{Bytes, bytes_eq, IsByte}
use zksettle.Base.Decimal.{hex_of}
use zksettle.WalletInput.{is_hex_64, is_base58_key, normalize_wallet_input, normalize_wallet_hex}
use zksettle.WalletInput.Canonical.{normalize_wallet_input-same}

abbrev system_text : Text
system_text = replicate 32 b'1'

abbrev system_key : Bytes
system_key = replicate 32 0

abbrev key_bytes : Text → Option Bytes
key_bytes text = if bytes_eq text system_text then some system_key else none

pub zeros-IsByte : (n : ℕ) → All IsByte (replicate n 0)
zeros-IsByte zero = tt
zeros-IsByte (suc n) = (omega arith, zeros-IsByte n)

normalize_wallet_input-same_example :
    (normalize_wallet_input key_bytes (hex_of system_key) ≡ some (hex_of system_key))
    × (normalize_wallet_input key_bytes (codes "0x" ++ hex_of system_key)
        ≡ some (hex_of system_key))
    × (normalize_wallet_input key_bytes system_text ≡ some (hex_of system_key))
unfolding is_base58_key bytes_eq
normalize_wallet_input-same_example =
    normalize_wallet_input-same key_bytes system_key system_text (refl, zeros-IsByte 32) refl refl

-- In upper case, with the prefix and between spaces.
typed_test :
    (normalize_wallet_input key_bytes (codes " 0XAB" ++ replicate 62 b'0' ++ codes " "))
    ≡ some (codes "ab" ++ replicate 62 b'0')
unfolding normalize_wallet_input normalize_wallet_hex is_hex_64 trim lower starts_with
typed_test = refl
