-- ===== src/Api/Client.antt =====
-- frontend/src/lib/api/client.ts: the requests that the page sends to the proxy and what it makes of the
-- answer. `auth` is what `await getWalletAuthHeaders(…)` gives, `sha256_hex` the browser's digest in
-- hexadecimal, and `Json` what `JSON.parse` makes; a `fetch` that rejects is left out.
pub mod Signed
pub mod Service
pub mod Verified
use zksettle.Base.{
  ℕ, List, Option, Bool, Result, none, some, ok, err, true, false, [], ◌∷◌, ◌++◌, leb, ◌&&◌, ◌==◌,
  if◌then◌else◌,
}
use zksettle.Base.Text.{Text, codes}
use zksettle.Base.Bytes.{Bytes, bytes_eq}
use zksettle.Base.Decimal.{decimal}
use zksettle.WalletAuth.{Answer, no_headers, headers, awaits, is_wallet_scoped_path}
use zksettle.Api.Headers.{HeaderList}

-- A property of an object is written: replaced where it stands, or added at the end.
unfoldable pub put : Text → Text → HeaderList → HeaderList
put key value [] = (key, value) ∷ []
put key value ((k, v) ∷ rest) =
    let others = put key value rest in if bytes_eq k key then (k, value) ∷ rest else (k, v) ∷ others

-- `Object.assign(target, source)`
unfoldable pub assign : HeaderList → HeaderList → HeaderList
unfolding put
assign target [] = target
assign target ((key, value) ∷ source) = assign (put key value target) source

-- The object that `getWalletAuthHeaders` resolves to; an answer that is awaited is no object yet.
abbrev pub auth_record : Answer → HeaderList
auth_record no_headers = []
auth_record (awaits r) = []
auth_record (headers wallet_hex signature timestamp) =
    (codes "x-wallet-pubkey", wallet_hex)
    ∷ (codes "x-wallet-signature", signature)
    ∷ (codes "x-wallet-timestamp", decimal timestamp)
    ∷ []

pub record BinaryRequestInit : Type 0 where
  pub method : Option Text
  pub body : Option Bytes
  pub headers : HeaderList

-- The arguments of `fetch`.
pub record Fetch : Type 0 where
  pub url : Text
  pub method : Text
  pub headers : HeaderList
  pub body : Option Bytes

abbrev pub proxy_base : Text
proxy_base = codes "/api/proxy"

-- `{"Content-Type": …, ...init.headers}`
abbrev pub json_headers : HeaderList → HeaderList
json_headers given = assign ((codes "Content-Type", codes "application/json") ∷ []) given

abbrev pub binary_headers : HeaderList → HeaderList
binary_headers given =
    assign
      ((codes "Content-Type", codes "application/octet-stream")
        ∷ (codes "Accept", codes "application/octet-stream")
        ∷ [])
      given

abbrev pub with_auth : Text → Answer → HeaderList → HeaderList
with_auth path auth given =
    if is_wallet_scoped_path path then assign given (auth_record auth) else given

-- What is asked of `getWalletAuthHeaders`: the hash of the body, empty for none.
abbrev pub binary_body_hash : (Bytes → Text) → BinaryRequestInit → Text
binary_body_hash sha256_hex init = elim init.body [ none ↦ [] | some body ↦ sha256_hex body ]

unfoldable pub binary_request : Text → BinaryRequestInit → Answer → Fetch
unfolding assign
binary_request path init auth = record {
  url = proxy_base ++ path;
  method = elim init.method [ none ↦ codes "POST" | some m ↦ m ];
  headers = with_auth path auth (binary_headers init.headers);
  body = init.body;
}

-- `apiFetch` up to its `fetch`; without a method it is a GET.
unfoldable pub api_request : Text → BinaryRequestInit → Answer → Fetch
unfolding assign
api_request path init auth = record {
  url = proxy_base ++ path;
  method = elim init.method [ none ↦ codes "GET" | some m ↦ m ];
  headers = with_auth path auth (json_headers init.headers);
  body = init.body;
}

-- What the response to a request gives: the status, and its body as bytes, text and JSON.
pub record Response (Json : Type 0) : Type 0 where
  pub status : ℕ
  pub status_text : Text
  pub headers : HeaderList
  pub bytes : Bytes
  pub text : Option Text
  pub json : Option Json

-- `ApiError`, whose body is JSON or text, or that `res.json()` or the schema rejects.
pub data ErrorBody (Json : Type 0) : Type 0 where
  json_body : Json → ErrorBody Json
  text_body : Text → ErrorBody Json
  empty_body : ErrorBody Json

pub data ClientError (Json : Type 0) : Type 0 where
  api_error : (status : ℕ) (body : ErrorBody Json) (message : Text) → ClientError Json
  invalid_json : ClientError Json

abbrev pub is_ok : ℕ → Bool
is_ok status = leb 200 status && leb status 299

abbrev pub error_message : {Json : Type 0} → Text → Response Json → Text
error_message path res =
    decimal res.status ++ (codes " " ++ (res.status_text ++ (codes " on " ++ path)))

-- `res.json().catch(() => ({}))`
abbrev pub json_or_empty : {Json : Type 0} → Option Json → ErrorBody Json
json_or_empty none = empty_body
json_or_empty (some j) = json_body j

-- `apiFetch` behind its `fetch`; a 204 has no value.
unfoldable pub api_result :
    {Json : Type 0} → Text → Response Json → Result (ClientError Json) (Option Json)
api_result path res =
    if is_ok res.status
    then (if res.status == 204
        then ok none
        else elim res.json [ none ↦ err invalid_json | some j ↦ ok (some j) ])
    else err (api_error res.status (json_or_empty res.json) (error_message path res))

abbrev pub json_or_text : {Json : Type 0} → Response Json → ErrorBody Json
json_or_text res = elim res.json [
  | some j ↦ json_body j
  | none ↦ elim res.text [ some t ↦ text_body t | none ↦ empty_body ]
]

-- `apiFetchBinary` behind its `fetch`.
unfoldable pub binary_result :
    {Json : Type 0} → Text → Response Json → Result (ClientError Json) (Bytes × HeaderList)
binary_result path res =
    if is_ok res.status
    then ok (res.bytes, res.headers)
    else err (api_error res.status (json_or_text res) (error_message path res))
