-- ===== src/Api/Proxy/Passed.antt =====
-- Which headers pass the proxy of frontend/src/app/api/proxy/[...path]/route.ts, and with which values.

use zksettle.Base.{
  Option, none, some, true, false, [], ◌∷◌, ◌++◌, ◌≡◌, refl, ap, sym, ◌∙◌, Bool-cases, Option-cases,
  inl, inr, if◌then◌else◌, subst, ◌⊎◌,
}
use zksettle.Base.Text.{Text, codes}
use zksettle.Base.Bytes.{bytes_eq, bytes_eq_iff, bytes_eq_comm, bytes_eq-false}
use zksettle.Api.Headers.{HeaderList, get, names, lower, get-set, or_else, or_else_assoc}
use zksettle.Api.Proxy.{
  is_hop_by_hop, copy_request_header, copy_request_headers, with_bearer, with_cookies,
  forwarded_headers, strip_active_key_cookie,
}

abbrev cookie : Text
cookie = codes "cookie"

abbrev pub authorization : Text
authorization = codes "authorization"

-- A header of its own name is written if it passes.
copy_request_header_self :
    (name key value : Text) (out : HeaderList)
    → names key name ≡ true
    → is_hop_by_hop name ≡ false
    → bytes_eq name cookie ≡ false
    → get name (copy_request_header key value out) ≡ some value
unfolding copy_request_header
copy_request_header_self name key value out same hop other =
    let e : lower key ≡ name = (bytes_eq_iff (lower key) name).0 same in
    let passes : is_hop_by_hop (lower key) ≡ false = rw e hop in
    let is_other : bytes_eq (lower key) cookie ≡ false = rw e other in
    rw (passes, is_other) (get-set name key value out ∙ rw same)

copy_request_header_other :
    (name key value : Text) (out : HeaderList)
    → names key name ≡ false
    → get name (copy_request_header key value out) ≡ get name out
unfolding copy_request_header
copy_request_header_other name key value out differs =
    elim (Bool-cases (is_hop_by_hop (lower key))) [
      | inl hop ↦ rw hop refl
      | inr passes ↦ elim (Bool-cases (bytes_eq (lower key) cookie)) [
        | inl is_cookie ↦ rw (passes, is_cookie) refl
        | inr is_other ↦ rw (passes, is_other) (get-set name key value out ∙ rw differs)
      ]
    ]

-- A header that is held back is not written.
copy_request_header_held :
    (name key value : Text) (out : HeaderList)
    → (is_hop_by_hop name ≡ true) ⊎ (bytes_eq name cookie ≡ true)
    → names key name ≡ true
    → get name (copy_request_header key value out) ≡ get name out
unfolding copy_request_header
copy_request_header_held name key value out (inl hop) same =
    let e : lower key ≡ name = (bytes_eq_iff (lower key) name).0 same in rw (e, hop) refl
copy_request_header_held name key value out (inr is_cookie) same =
    let e : lower key ≡ name = (bytes_eq_iff (lower key) name).0 same in
    elim (Bool-cases (is_hop_by_hop name)) [
      | inl hop ↦ rw (e, hop) refl
      | inr passes ↦ rw (e, passes, is_cookie) refl
    ]

copy_request_headers_passed :
    (name : Text) (hs out : HeaderList)
    → is_hop_by_hop name ≡ false
    → bytes_eq name cookie ≡ false
    → get name (copy_request_headers hs out) ≡ or_else (get name hs) (get name out)
unfolding copy_request_headers get
copy_request_headers_passed name [] out hop other = refl
copy_request_headers_passed name ((key, value) ∷ rest) out hop other =
    let ih = copy_request_headers_passed name rest (copy_request_header key value out) hop other in
    elim (Bool-cases (names key name)) [
      | inl same ↦
          ih
          ∙ ap (or_else (get name rest))
              (copy_request_header_self name key value out same hop other)
          ∙ rw same (or_else_assoc (get name rest) (some value) (get name out))
      | inr differs ↦
          ih
          ∙ ap (or_else (get name rest)) (copy_request_header_other name key value out differs)
          ∙ rw differs (or_else_assoc (get name rest) none (get name out))
    ]

copy_request_headers_held :
    (name : Text) (hs out : HeaderList)
    → (is_hop_by_hop name ≡ true) ⊎ (bytes_eq name cookie ≡ true)
    → get name (copy_request_headers hs out) ≡ get name out
unfolding copy_request_headers
copy_request_headers_held name [] out held = refl
copy_request_headers_held name ((key, value) ∷ rest) out held =
    copy_request_headers_held name rest (copy_request_header key value out) held
    ∙ elim (Bool-cases (names key name)) [
      | inl same ↦ copy_request_header_held name key value out held same
      | inr differs ↦ copy_request_header_other name key value out differs
    ]

abbrev pub bearer : Option Text → Option Text
bearer none = none
bearer (some []) = none
bearer (some (c ∷ key)) = some (codes "Bearer " ++ c ∷ key)

pub or_else-none : (o : Option Text) → o ≡ or_else o none
or_else-none none = refl
or_else-none (some w) = refl

names-authorization : (name : Text) → names authorization name ≡ bytes_eq name authorization
unfolding lower
names-authorization name = bytes_eq_comm authorization name

names-cookie : (name : Text) → names cookie name ≡ bytes_eq name cookie
unfolding lower
names-cookie name = bytes_eq_comm cookie name

get-with_bearer :
    (name : Text) (active_key : Option Text) (out : HeaderList)
    → get name (with_bearer active_key out) ≡ (
        if bytes_eq name authorization
        then or_else (get name out) (bearer active_key)
        else get name out)
unfolding bytes_eq
get-with_bearer name none out = elim (Bool-cases (bytes_eq name authorization)) [
  | inl same ↦ rw same (or_else-none (get name out))
  | inr differs ↦ rw differs
]
get-with_bearer name (some []) out = elim (Bool-cases (bytes_eq name authorization)) [
  | inl same ↦ rw same (or_else-none (get name out))
  | inr differs ↦ rw differs
]
get-with_bearer name (some (c ∷ key)) out = elim (Option-cases (get authorization out)) [
  | inr (w, own) ↦ elim (Bool-cases (bytes_eq name authorization)) [
    | inl same ↦
        let e : name ≡ authorization = (bytes_eq_iff name authorization).0 same in
        rw (e, own, with_bearer) (rw own refl)
    | inr differs ↦ rw (own, with_bearer, differs) refl
  ]
  | inl absent ↦
      rw (absent, with_bearer)
        (get-set name authorization (codes "Bearer " ++ c ∷ key) out
          ∙ rw names-authorization (elim (Bool-cases (bytes_eq name authorization)) [
            | inl same ↦
                let e : name ≡ authorization = (bytes_eq_iff name authorization).0 same in
                rw (same, e, absent) refl
            | inr differs ↦ rw differs refl
          ]))
]

get-with_cookies :
    (name : Text) (cookies : Option Text) (out : HeaderList)
    → get name (with_cookies cookies out)
      ≡ (if bytes_eq name cookie then or_else cookies (get name out) else get name out)
get-with_cookies name none out = elim (Bool-cases (bytes_eq name cookie)) [
  | inl same ↦ rw same refl
  | inr differs ↦ rw differs refl
]
get-with_cookies name (some c) out =
    get-set name cookie c out
    ∙ rw names-cookie (elim (Bool-cases (bytes_eq name cookie)) [
      | inl same ↦ rw same refl
      | inr differs ↦ rw differs refl
    ])

-- The header that the gateway sees under a name.
abbrev pub seen_by_gateway : HeaderList → Option Text → Text → Option Text
seen_by_gateway request active_key name =
    if bytes_eq name cookie
    then strip_active_key_cookie (get cookie request)
    else if is_hop_by_hop name
    then none
    else if bytes_eq name authorization
    then or_else (get name request) (bearer active_key)
    else get name request

hop_by_hop-authorization :
    (name : Text) → is_hop_by_hop name ≡ true → bytes_eq name authorization ≡ false
unfolding is_hop_by_hop bytes_eq
hop_by_hop-authorization name hop =
    bytes_eq-false name authorization (λ e. cc (subst (λ n. is_hop_by_hop n ≡ true) e hop))

copied_none :
    (name : Text) (request : HeaderList)
    → (is_hop_by_hop name ≡ true) ⊎ (bytes_eq name cookie ≡ true)
    → get name (copy_request_headers request []) ≡ none
unfolding get
copied_none name request held = copy_request_headers_held name request [] held

copied_some :
    (name : Text) (request : HeaderList)
    → is_hop_by_hop name ≡ false
    → bytes_eq name cookie ≡ false
    → get name (copy_request_headers request []) ≡ get name request
unfolding get
copied_some name request passes other =
    copy_request_headers_passed name request [] passes other ∙ sym (or_else-none (get name request))

-- Whatever the request's headers and the active key: the gateway sees no hop-by-hop header, the cookies
-- without the active key's, the request's own authorization or else the active key as bearer token, and
-- every other header with the request's value.
pub get-forwarded_headers :
    (request : HeaderList) (active_key : Option Text) (name : Text)
    → get name (forwarded_headers request active_key) ≡ seen_by_gateway request active_key name
unfolding forwarded_headers bytes_eq
get-forwarded_headers request active_key name =
    let cookies = strip_active_key_cookie (get cookie request) in
    let copied = copy_request_headers request [] in
    get-with_bearer name active_key (with_cookies cookies copied)
    ∙ rw (get-with_cookies name cookies copied) (elim (Bool-cases (bytes_eq name cookie)) [
      | inl is_cookie ↦
          let e : name ≡ cookie = (bytes_eq_iff name cookie).0 is_cookie in
          rw (copied_none name request (inr is_cookie), e) (sym (or_else-none cookies))
      | inr other ↦ elim (Bool-cases (is_hop_by_hop name)) [
        | inl hop ↦
            rw (copied_none name request (inl hop), other, hop, hop_by_hop-authorization name hop)
              refl
        | inr passes ↦ rw (copied_some name request passes other, other, passes) refl
      ]
    ])
