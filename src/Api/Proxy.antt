-- ===== src/Api/Proxy.antt =====
-- frontend/src/app/api/proxy/[...path]/route.ts: what the proxy sends to the gateway for a request, and
-- what it answers. The gateway's answer and the cookie store of Next are arguments.
pub mod Secret
pub mod Passed
pub mod Cookies
pub mod Pairs
use zksettle.Base.{
  ℕ, List, Option, Bool, Result, none, some, ok, err, true, false, [], ◌∷◌, ◌++◌, not, ◌&&◌, any,
  ◌==◌, ltb, length, keep, if◌then◌else◌, map, leb, ◌-◌,
}
use zksettle.Base.Text.{Text, codes, starts_with}
use zksettle.Base.Bytes.{Bytes, bytes_eq}
use zksettle.Format.{is_space}
use zksettle.Api.Headers.{HeaderList, get, set, append, lower}

abbrev pub active_key_cookie : Text
active_key_cookie = codes "zks_active_key"

abbrev pub hop_by_hop : List Text
hop_by_hop =
    codes "connection"
    ∷ codes "keep-alive"
    ∷ codes "proxy-authenticate"
    ∷ codes "proxy-authorization"
    ∷ codes "te"
    ∷ codes "trailer"
    ∷ codes "transfer-encoding"
    ∷ codes "upgrade"
    ∷ codes "host"
    ∷ codes "content-length"
    ∷ []

unfoldable pub is_hop_by_hop : Text → Bool
unfolding bytes_eq
is_hop_by_hop name = any (λ h. bytes_eq h name) hop_by_hop

-- `cookieHeader.split(/;\s*/)`: the piece read so far, and whether white space is skipped.
unfoldable pub split_from : Bool → Text → Text → List Text
split_from skipping piece [] = piece ∷ []
split_from skipping piece (c ∷ s) = elim (skipping && is_space c) [
  | true ↦ split_from true piece s
  | false ↦ elim (c == b';') [
    | true ↦ piece ∷ split_from true [] s
    | false ↦ split_from false (piece ++ c ∷ []) s
  ]
]

abbrev pub split_pairs : Text → List Text
split_pairs s = split_from false [] s

-- `pairs.join("; ")`
unfoldable pub join_pairs : List Text → Text
join_pairs [] = []
join_pairs (p ∷ []) = p
join_pairs (p ∷ q ∷ ps) = p ++ (b';' ∷ b' ' ∷ join_pairs (q ∷ ps))

abbrev pub is_active_key_pair : Text → Bool
is_active_key_pair pair = starts_with pair (active_key_cookie ++ codes "=")

abbrev pub kept_pairs : Text → List Text
kept_pairs header = keep (λ pair. not (is_active_key_pair pair)) (split_pairs header)

unfoldable pub strip_active_key_cookie : Option Text → Option Text
unfolding split_from join_pairs starts_with
strip_active_key_cookie none = none
strip_active_key_cookie (some []) = none
strip_active_key_cookie (some (c ∷ s)) =
    let kept = join_pairs (kept_pairs (c ∷ s)) in if ltb 0 (length kept) then some kept else none

-- The loop over the request's headers.
unfoldable pub copy_request_header : Text → Text → HeaderList → HeaderList
copy_request_header key value out =
    if is_hop_by_hop (lower key)
    then out
    else if bytes_eq (lower key) (codes "cookie")
    then out
    else set key value out

unfoldable pub copy_request_headers : HeaderList → HeaderList → HeaderList
unfolding copy_request_header
copy_request_headers [] out = out
copy_request_headers ((key, value) ∷ rest) out =
    copy_request_headers rest (copy_request_header key value out)

-- `if (forwardedCookies) headers.set("cookie", forwardedCookies)`
abbrev pub with_cookies : Option Text → HeaderList → HeaderList
with_cookies none out = out
with_cookies (some cookies) out = set (codes "cookie") cookies out

-- The bearer token, if there is a key that is not empty and the request names no authorization.
abbrev pub with_bearer : Option Text → HeaderList → HeaderList
with_bearer none out = out
with_bearer (some []) out = out
with_bearer (some (c ∷ key)) out = elim (get (codes "authorization") out) [
  | some _ ↦ out
  | none ↦ set (codes "authorization") (codes "Bearer " ++ c ∷ key) out
]

unfoldable pub forwarded_headers : HeaderList → Option Text → HeaderList
unfolding copy_request_headers strip_active_key_cookie get set
forwarded_headers request active_key = with_bearer active_key (
    with_cookies (strip_active_key_cookie (get (codes "cookie") request))
      (copy_request_headers request []))

-- The loop over the gateway's headers.
unfoldable pub copy_response_header : Text → Text → HeaderList → HeaderList
copy_response_header key value out =
    if is_hop_by_hop (lower key)
    then out
    else if bytes_eq (lower key) (codes "set-cookie")
    then append (codes "set-cookie") value out
    else set key value out

unfoldable pub copy_response_headers : HeaderList → HeaderList → HeaderList
unfolding copy_response_header
copy_response_headers [] out = out
copy_response_headers ((key, value) ∷ rest) out =
    copy_response_headers rest (copy_response_header key value out)

pub record ProxyRequest : Type 0 where
  pub method : Text
  -- the segments that Next matched, and the query string with its `?`
  pub path : List Text
  pub search : Text
  pub headers : HeaderList
  pub body : Bytes
  pub active_key : Option Text

-- The arguments of `fetch`.
pub record Outgoing : Type 0 where
  pub url : Text
  pub method : Text
  pub headers : HeaderList
  pub body : Option Bytes

pub record Reply : Type 0 where
  pub status : ℕ
  pub headers : HeaderList
  pub body : Bytes

abbrev pub join_slash : List Text → Text
join_slash [] = []
join_slash (p ∷ []) = p
join_slash (p ∷ q ∷ ps) = p ++ b'/' ∷ join_slash (q ∷ ps)

-- `toUpperCase` of an ASCII method.
abbrev pub upper_char : ℕ → ℕ
upper_char c = if leb 97 c && leb c 122 then c - 32 else c

abbrev pub has_body : Text → Bool
has_body method = not (bytes_eq method (codes "GET")) && not (bytes_eq method (codes "HEAD"))

unfoldable pub outgoing : Text → ProxyRequest → Outgoing
unfolding forwarded_headers bytes_eq
outgoing gateway_base_url request =
    let method = map upper_char request.method in
    record {
      url = gateway_base_url ++ (b'/' ∷ (join_slash request.path ++ request.search));
      method = method;
      headers = forwarded_headers request.headers request.active_key;
      body = if has_body method then some request.body else none;
    }

-- `forward`, where `fetch` answers or throws an error with a message.
unfoldable pub forward :
    Text → (Outgoing → Result Text Reply) → (Text → Bytes) → ProxyRequest → Reply
forward gateway_base_url fetch unreachable_json request =
    elim (fetch (outgoing gateway_base_url request)) [
      | err message ↦ record {
        status = 502;
        headers = (codes "content-type", codes "application/json") ∷ [];
        body = unreachable_json message;
      }
      | ok upstream ↦ record {
        status = upstream.status;
        headers = copy_response_headers upstream.headers [];
        body = upstream.body;
      }
    ]
