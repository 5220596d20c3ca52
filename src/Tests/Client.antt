-- ===== src/Tests/Client.antt =====
-- Runs of the theorems on the page's requests.
use zksettle.Base.{
  ◌≡◌, refl, some, none, [], ◌∷◌, err, arith, replicate, false, Bool, if◌then◌else◌, ok, ℕ, All,
  suc, zero,
}
use zksettle.Base.Text.{Text, codes, includes, starts_with}
use zksettle.Base.Bytes.{bytes_eq, Bytes, IsByte}
use zksettle.Base.Decimal.{hex_of, decimal}
use zksettle.WalletAuth.{
  AuthState, Request, initial_auth, register_wallet_signer, awaits, get_wallet_auth_headers,
  resolved_headers, message_of, encode_base58, is_wallet_scoped_path,
}
use zksettle.Api.Headers.{get, lower, HeaderList}
use zksettle.Api.Client.{
  BinaryRequestInit, Response, binary_body_hash, api_result, binary_result, api_error, empty_body,
  text_body, put, assign,
}
use zksettle.Api.Client.Verified.{seen_headers, binary_request-verified}
use zksettle.Api.Client.Service.{verify_wallet_headers, signature_refused}

abbrev key : Bytes
key = replicate 32 170

abbrev wallet : Text
wallet = hex_of key

-- Takes the signature 8 alone, whatever is signed.
abbrev takes : Bytes → Text → Text → Bool
takes k sig message = bytes_eq sig (codes "8")

replicate-IsByte : (n : ℕ) → All IsByte (replicate n 170)
replicate-IsByte zero = tt
replicate-IsByte (suc n) = (omega arith, replicate-IsByte n)

abbrev signed_in : AuthState
unfolding register_wallet_signer
signed_in = register_wallet_signer wallet initial_auth

abbrev witness : BinaryRequestInit
witness = record { method = none; body = some (1 ∷ 2 ∷ []); headers = [] }

abbrev browser : HeaderList
browser = (codes "Cookie", codes "theme=dark") ∷ []

binary_request-verified_example :
    (r : Request) × ((get_wallet_auth_headers none
        (binary_body_hash hex_of witness)
        1_000_500
        signed_in).0
      ≡ awaits r)
    × (verify_wallet_headers hex_of takes false 1_100
          (seen_headers browser
            (codes "/v1/prove/groth16")
            witness
            (resolved_headers r (7 ∷ []))
            none)
          (1 ∷ 2 ∷ [])
        ≡ (if takes key (encode_base58 (7 ∷ [])) (message_of r)
            then ok wallet
            else err signature_refused))
unfolding is_wallet_scoped_path includes starts_with lower get assign put bytes_eq signed_in
binary_request-verified_example =
    binary_request-verified hex_of takes signed_in none key browser (codes "/v1/prove/groth16")
      witness (1 ∷ 2 ∷ []) none false 1_000_500 1_100 (7 ∷ []) refl (refl, replicate-IsByte 32) refl
      refl (omega arith) (refl, refl, refl) (omega arith) refl

abbrev refused : Response Text
refused = record {
  status = 401;
  status_text = codes "Unauthorized";
  headers = [];
  bytes = [];
  text = some (codes "denied");
  json = none;
}

results_test :
    (api_result (codes "/usage") refused
      ≡ err (api_error 401 empty_body (codes "401 Unauthorized on /usage")))
    × (binary_result (codes "/usage") refused
        ≡ err (api_error 401 (text_body (codes "denied")) (codes "401 Unauthorized on /usage")))
unfolding api_result binary_result decimal
results_test = (refl, refl)
