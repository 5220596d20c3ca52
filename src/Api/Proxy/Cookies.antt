-- ===== src/Api/Proxy/Cookies.antt =====
-- The cookies that the gateway sets, behind the proxy of frontend/src/app/api/proxy/[...path]/route.ts.
use mathlib.Core.List.{append-nil, append_assoc}
use zksettle.Base.{
  false, [], ◌∷◌, ◌++◌, ◌≡◌, refl, ap, sym, ◌∙◌, Bool-cases, inl, inr, if◌then◌else◌, Result, ok,
}
use zksettle.Base.Text.{Text, codes}
use zksettle.Base.Bytes.{bytes_eq, bytes_eq_iff, Bytes}
use zksettle.Api.Headers.{HeaderList, get_all, names, lower, get_all-set, get_all-append}
use zksettle.Api.Proxy.{
  is_hop_by_hop, copy_response_header, copy_response_headers, forward, Outgoing, Result, Reply,
  Bytes, ProxyRequest, outgoing, ok,
}

abbrev pub set_cookie : Text
set_cookie = codes "set-cookie"

names-set_cookie :
    (value : Text) (out : HeaderList)
    → get_all set_cookie out ++ (if names set_cookie set_cookie then value ∷ [] else [])
      ≡ get_all set_cookie out ++ value ∷ []
unfolding lower bytes_eq
names-set_cookie value out = refl

copy_response_header-set_cookie :
    (key value : Text) (out : HeaderList)
    → get_all set_cookie (copy_response_header key value out)
      ≡ get_all set_cookie out ++ (if names key set_cookie then value ∷ [] else [])
unfolding copy_response_header bytes_eq is_hop_by_hop
copy_response_header-set_cookie key value out = elim (Bool-cases (names key set_cookie)) [
  | inl same ↦
      let e : lower key ≡ set_cookie = (bytes_eq_iff (lower key) set_cookie).0 same in
      let passes : is_hop_by_hop (lower key) ≡ false = rw e refl in
      rw (passes, same)
        (get_all-append set_cookie set_cookie value out ∙ names-set_cookie value out)
  | inr differs ↦ elim (Bool-cases (is_hop_by_hop (lower key))) [
    | inl hop ↦ rw (hop, differs) (sym (append-nil (get_all set_cookie out)))
    | inr passes ↦
        rw (passes, differs)
          (get_all-set set_cookie key value out differs ∙ sym (append-nil (get_all set_cookie out)))
  ]
]

copy_response_headers-onto :
    (hs out : HeaderList)
    → get_all set_cookie (copy_response_headers hs out)
      ≡ get_all set_cookie out ++ get_all set_cookie hs
unfolding copy_response_headers get_all
copy_response_headers-onto [] out = sym (append-nil (get_all set_cookie out))
copy_response_headers-onto ((key, value) ∷ rest) out =
    copy_response_headers-onto rest (copy_response_header key value out)
    ∙ ap (λ t. t ++ get_all set_cookie rest) (copy_response_header-set_cookie key value out)
    ∙ elim (Bool-cases (names key set_cookie)) [
      | inl same ↦
          rw same (append_assoc (get_all set_cookie out) (value ∷ []) (get_all set_cookie rest))
      | inr differs ↦
          rw differs (ap (λ t. t ++ get_all set_cookie rest) (append-nil (get_all set_cookie out)))
    ]

-- When the gateway answers, every cookie that it sets reaches the browser, each once and in the
-- gateway's order.
pub forward-set_cookie :
    (base : Text) (fetch : Outgoing → Result Text Reply) (unreachable_json : Text → Bytes)
    (request : ProxyRequest) (upstream : Reply)
    → fetch (outgoing base request) ≡ ok upstream
    → get_all set_cookie (forward base fetch unreachable_json request).headers
      ≡ get_all set_cookie upstream.headers
unfolding forward get_all
forward-set_cookie base fetch unreachable_json request upstream h =
    rw (h, forward) (copy_response_headers-onto upstream.headers [])
