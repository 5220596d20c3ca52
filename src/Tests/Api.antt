-- ===== src/Tests/Api.antt =====
-- Runs of the theorems on the proxy, the active key and the server-side prover.
use zksettle.Base.{
  List, none, some, true, false, [], ◌∷◌, ◌++◌, ◌≡◌, ◌⊎◌, refl, arith, replicate, map, All,
}
use zksettle.Base.Text.{Text, codes, starts_with}
use zksettle.Base.Bytes.{Bytes, bytes_eq}
use zksettle.Base.Decimal.{decimal}
use zksettle.Api.Headers.{HeaderList, get, lower}
use zksettle.Api.Proxy.{
  strip_active_key_cookie, split_pairs, kept_pairs, is_active_key_pair, forwarded_headers,
  ProxyRequest, Reply,
}
use zksettle.Api.Proxy.Secret.{strip_active_key_cookie_lem}
use zksettle.Api.Proxy.Passed.{seen_by_gateway, get-forwarded_headers}
use zksettle.Api.Groth16.Split.{IsSplit, read_groth16-IsSplit, read_groth16_ok, field_text, entries}
use zksettle.Api.ActiveKey.{KeyCall, key_string, invalid_json, post, delete, calls, has_key_format}
use zksettle.Api.ActiveKey.Sent.{IsSent, shown_prefix, calls-IsSent}

abbrev secret_key : Text
secret_key = codes "zks_0123456789abcdefghijklmnopqrstuv"

abbrev cookies : Text
cookies = codes "theme=dark;  zks_active_key=" ++ (secret_key ++ codes "; sid=4")

strip_active_key_cookie_test :
    strip_active_key_cookie (some cookies) ≡ some (codes "theme=dark; sid=4")
unfolding strip_active_key_cookie
strip_active_key_cookie_test = refl

strip_active_key_cookie_lem_example :
    ((kept : Text) × (strip_active_key_cookie (some cookies) ≡ some kept)
      × (split_pairs kept ≡ kept_pairs cookies)
      × All (λ pair. is_active_key_pair pair ≡ false) (split_pairs kept))
    ⊎ ((strip_active_key_cookie (some cookies) ≡ none)
        × ((kept_pairs cookies ≡ []) ⊎ (kept_pairs cookies ≡ [] ∷ [])))
strip_active_key_cookie_lem_example = strip_active_key_cookie_lem cookies

abbrev request_headers : HeaderList
request_headers =
    (codes "accept", codes "application/json")
    ∷ (codes "connection", codes "close")
    ∷ (codes "cookie", cookies)
    ∷ []

get-forwarded_headers_example :
    get (codes "cookie") (forwarded_headers request_headers (some secret_key))
    ≡ seen_by_gateway request_headers (some secret_key) (codes "cookie")
get-forwarded_headers_example =
    get-forwarded_headers request_headers (some secret_key) (codes "cookie")

abbrev proxied : ProxyRequest
proxied = record {
  method = codes "get";
  path = codes "v1" ∷ codes "roots" ∷ [];
  search = [];
  headers = request_headers;
  body = [];
  active_key = some secret_key;
}

abbrev login_reply : Reply
login_reply = record {
  status = 200;
  headers =
      (codes "set-cookie", codes "sid=5")
      ∷ (codes "content-type", codes "application/json")
      ∷ (codes "set-cookie", codes "csrf=6")
      ∷ [];
  body = [];
}

abbrev prover_headers : HeaderList
prover_headers = (codes "x-proof-len", codes "388") ∷ (codes "x-witness-len", codes "364") ∷ []

abbrev proof_body : Bytes
proof_body = replicate 388 7

abbrev witness_body : Bytes
witness_body = replicate 364 1

read_groth16-IsSplit_example : IsSplit (proof_body ++ witness_body) (record {
  proof = proof_body ++ witness_body;
  public_inputs = map field_text (entries witness_body);
})
unfolding get decimal bytes_eq lower
read_groth16-IsSplit_example =
    read_groth16-IsSplit prover_headers (proof_body ++ witness_body)
      (read_groth16_ok prover_headers proof_body witness_body refl refl (omega arith) refl)

abbrev earlier : List KeyCall
earlier = post (key_string (codes "short")) ∷ delete ∷ []

secret_key-format : has_key_format secret_key ≡ true
unfolding has_key_format starts_with
secret_key-format = refl

calls-IsSent_example :
    IsSent request_headers
      (calls true none (earlier ++ post (key_string secret_key) ∷ post invalid_json ∷ []))
      (some (codes "Bearer " ++ secret_key))
      (some (shown_prefix secret_key))
    × IsSent request_headers
        (calls true none (earlier ++ delete ∷ post invalid_json ∷ []))
        none
        none
calls-IsSent_example =
    calls-IsSent true none earlier (post invalid_json ∷ []) request_headers secret_key
      secret_key-format (tt, tt)
