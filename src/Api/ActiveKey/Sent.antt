-- ===== src/Api/ActiveKey/Sent.antt =====
-- The active key between the routes of frontend/src/app/api/active-key and the proxy: which key is sent
-- to the gateway, and what the page is told of it.
use zksettle.Base.Bytes.{bytes_eq}
use zksettle.Base.{
  List, Option, Bool, none, some, true, false, [], ◌∷◌, ◌++◌, ◌≡◌, refl, ap, sym, ◌∙◌, arith, All,
  ◌≤◌, length, take, drop, length-drop, leb, ◌<◌, subst, ◌-◌, and_left, and_right, leb→le, ◌&&◌,
  all,
}
use zksettle.Base.Text.{Text, codes, starts_with}
use zksettle.Api.Headers.{HeaderList, get, or_else}
use zksettle.Api.Proxy.{forwarded_headers, is_hop_by_hop}
use zksettle.Api.Proxy.Passed.{get-forwarded_headers, authorization, bearer}
use zksettle.Api.ActiveKey.{
  KeyCall, invalid_json, no_key_string, key_string, post, delete, call, calls, has_key_format,
  key_prefix, active_key_status, all, is_key_char,
}

-- A call that leaves the key alone: a POST without a well-formed key.
abbrev pub IsRefused : KeyCall → Type 0
IsRefused (post invalid_json) = Unit {0}
IsRefused (post no_key_string) = Unit {0}
IsRefused (post (key_string key)) = has_key_format key ≡ false
IsRefused delete = ⊥

call-IsRefused :
    (production : Bool) (jar : Option Text) (c : KeyCall)
    → IsRefused c
    → call production jar c ≡ jar
unfolding call
call-IsRefused production jar (post invalid_json) h = refl
call-IsRefused production jar (post no_key_string) h = refl
call-IsRefused production jar (post (key_string key)) h = rw h
call-IsRefused production jar delete h = elim h [ ]

calls-IsRefused :
    (production : Bool) (jar : Option Text) (cs : List KeyCall)
    → All IsRefused cs
    → calls production jar cs ≡ jar
calls-IsRefused production jar [] h = refl
calls-IsRefused production jar (c ∷ cs) (h, hs) =
    ap (λ j. calls production j cs) (call-IsRefused production jar c h)
    ∙ calls-IsRefused production jar cs hs

calls-append :
    (production : Bool) (jar : Option Text) (cs ds : List KeyCall)
    → calls production jar (cs ++ ds) ≡ calls production (calls production jar cs) ds
calls-append production jar [] ds = refl
calls-append production jar (c ∷ cs) ds = calls-append production (call production jar c) cs ds

call_post :
    (production : Bool) (jar : Option Text) (key : Text)
    → has_key_format key ≡ true
    → call production jar (post (key_string key)) ≡ some key
unfolding call
call_post production jar key h = rw h

call_delete : (production : Bool) (jar : Option Text) → call production jar delete ≡ none
unfolding call
call_delete production none = refl
call_delete production (some key) = refl

last_call :
    (production : Bool) (jar out : Option Text) (before behind : List KeyCall) (c : KeyCall)
    → ((j : Option Text) → call production j c ≡ out)
    → All IsRefused behind
    → calls production jar (before ++ c ∷ behind) ≡ out
last_call production jar out before behind c at h =
    calls-append production jar before (c ∷ behind)
    ∙ ap (λ j. calls production j behind) (at (calls production jar before))
    ∙ calls-IsRefused production out behind h

has_key_format-length : (key : Text) → has_key_format key ≡ true → 36 ≤ length key
unfolding has_key_format
has_key_format-length key h =
    let begins = starts_with key (codes "zks_") in
    let enough = leb 32 (length (drop 4 key)) in
    let long : enough ≡ true =
      and_right begins enough (and_left (begins && enough) (all is_key_char (drop 4 key)) h) in
    omega (arith, leb→le 32 (length (drop 4 key)) long, length-drop 4 key)

bearer_key : (key : Text) → 0 < length key → bearer (some key) ≡ some (codes "Bearer " ++ key)
bearer_key [] h = absurd (omega arith)
bearer_key (c ∷ key) h = refl

-- The first 8 and the last 4 characters.
abbrev pub shown_prefix : Text → Text
shown_prefix key = take 8 key ++ (0x2026 ∷ drop (length key - 4) key)

active_key_status-prefix :
    (key : Text) → 12 < length key → active_key_status (some key) ≡ some (shown_prefix key)
unfolding active_key_status key_prefix
active_key_status-prefix [] h = absurd (omega arith)
active_key_status-prefix (c ∷ key) h =
    let long : leb (length (c ∷ key)) 12 ≡ false = ground arith in rw long

authorization_of :
    (request : HeaderList) (jar : Option Text)
    → get authorization (forwarded_headers request jar)
      ≡ or_else (get authorization request) (bearer jar)
unfolding is_hop_by_hop bytes_eq
authorization_of request jar = get-forwarded_headers request jar authorization

-- The authorization that the gateway sees, and what the status tells of the key.
abbrev pub IsSent : HeaderList → Option Text → Option Text → Option Text → Type 0
IsSent request jar token prefix =
    (get authorization (forwarded_headers request jar) ≡ or_else (get authorization request) token)
    × (active_key_status jar ≡ prefix)

-- Behind any calls, a POST of a well-formed key and then only refused POSTs: a request without an
-- authorization of its own is forwarded with this key as its bearer token, and the status shows the
-- key's first 8 and last 4 characters. With a DELETE in place of the POST: no token is added, and the
-- status tells of no key.
pub calls-IsSent :
    (production : Bool) (jar : Option Text) (before behind : List KeyCall) (request : HeaderList)
    (key : Text)
    → has_key_format key ≡ true
    → All IsRefused behind
    → IsSent request
        (calls production jar (before ++ post (key_string key) ∷ behind))
        (some (codes "Bearer " ++ key))
        (some (shown_prefix key))
      × IsSent request (calls production jar (before ++ delete ∷ behind)) none none
unfolding active_key_status
calls-IsSent production jar before behind request key format refused =
    let long = has_key_format-length key format in
    let set =
      last_call production jar (some key) before behind (post (key_string key))
        (λ j. call_post production j key format) refused in
    let cleared =
      last_call production jar none before behind delete (λ j. call_delete production j) refused in
    (
      subst (λ j. IsSent request j (some (codes "Bearer " ++ key)) (some (shown_prefix key)))
          (sym set)
          (
            authorization_of request (some key)
                ∙ ap (or_else (get authorization request)) (bearer_key key (omega arith)),
            active_key_status-prefix key (omega arith),
          ),
      subst (λ j. IsSent request j none none) (sym cleared) (authorization_of request none, refl),
    )
