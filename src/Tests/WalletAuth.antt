-- ===== src/Tests/WalletAuth.antt =====
-- Runs of the theorems on wallet sign-in.
use zksettle.Base.{none, [], ◌∷◌, refl, ◌≡◌}
use zksettle.Base.Text.{Text, codes}
use zksettle.Base.Bytes.{Bytes}
use zksettle.WalletAuth.{
  AuthState, Request, initial_auth, register_wallet_signer, sign_and_cache, finish_inflight,
  get_wallet_auth_headers, signer_of, encode_base58, message_of,
}
use zksettle.WalletAuth.Served.{
  Reachable, starts, moves, registers, calls, resolves, ends, IsRightAnswer,
  get_wallet_auth_headers-right,
}

abbrev sign : Text → Text → Bytes
sign wallet message = 1 ∷ 2 ∷ 3 ∷ []

abbrev wallet : Text
wallet = codes "0a0b"

abbrev request : Request
request = record { wallet_hex = wallet; now = 1_000_500; body_hash_hex = [] }

-- Registered, called once, and the request has resolved and ended.
abbrev signed_in : AuthState
signed_in = finish_inflight (
    sign_and_cache request (sign wallet (message_of request))
      (get_wallet_auth_headers none [] 1_000_500 (register_wallet_signer wallet initial_auth)).1)

signed_in-Reachable : Reachable sign signed_in
signed_in-Reachable =
    moves
      (moves
        (moves (moves starts (registers wallet initial_auth))
          (calls none [] 1_000_500 (register_wallet_signer wallet initial_auth)))
        (resolves request _))
      (ends _)

get_wallet_auth_headers-right_example :
    IsRightAnswer sign
      (signer_of none signed_in)
      1_100_000
      (get_wallet_auth_headers none [] 1_100_000 signed_in).0
get_wallet_auth_headers-right_example =
    get_wallet_auth_headers-right sign none 1_100_000 signed_in-Reachable

encode_base58_test : encode_base58 (0 ∷ 104 ∷ 105 ∷ []) ≡ codes "18wr"
unfolding encode_base58
encode_base58_test = refl
