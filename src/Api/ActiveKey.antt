-- ===== src/Api/ActiveKey.antt =====
-- The active API key: the cookie of frontend/src/lib/server/active-key-cookie.ts and the routes of
-- frontend/src/app/api/active-key that set it, clear it and tell of it. The browser keeps the cookie.
pub mod Sent
use zksettle.Base.{
  ℕ, List, Option, Bool, none, some, true, false, [], ◌∷◌, ◌++◌, ◌*◌, ◌-◌, ◌||◌, ◌&&◌, ◌==◌, leb,
  ltb, all, take, drop, length, if◌then◌else◌,
}
use zksettle.Base.Text.{Text, codes, starts_with}

abbrev pub seven_days_seconds : ℕ
seven_days_seconds = 60 * 60 * 24 * 7

-- The `Set-Cookie` of a response, all of it `SameSite=Lax; Path=/`.
pub record SetCookie : Type 0 where
  pub value : Text
  pub http_only : Bool
  pub secure : Bool
  pub max_age : ℕ

abbrev pub cookie_options : Bool → Text → SetCookie
cookie_options production value = record {
  value = value;
  http_only = true;
  secure = production;
  max_age = seven_days_seconds;
}

unfoldable pub set_active_key_cookie : Bool → Text → SetCookie
set_active_key_cookie production key = cookie_options production key

unfoldable pub clear_active_key_cookie : Bool → SetCookie
clear_active_key_cookie production = record (cookie_options production []) { max_age = 0 }

-- `key.slice(0, 8)…key.slice(-4)`
unfoldable pub key_prefix : Text → Text
key_prefix key =
    if leb (length key) 12 then key else take 8 key ++ (0x2026 ∷ drop (length key - 4) key)

abbrev pub is_key_char : ℕ → Bool
is_key_char c =
    (leb b'A' c && leb c b'Z')
    || (leb b'a' c && leb c b'z')
    || (leb b'0' c && leb c b'9')
    || (c == b'_')
    || (c == b'-')

-- `KEY_FORMAT.test(key)`: `zks_` and at least 32 characters.
unfoldable pub has_key_format : Text → Bool
has_key_format key =
    starts_with key (codes "zks_") && leb 32 (length (drop 4 key)) && all is_key_char (drop 4 key)

-- The body of a POST: no JSON, JSON whose `key` is no string, or a key.
pub data KeyBody : Type 0 where
  invalid_json no_key_string : KeyBody
  key_string : (key : Text) → KeyBody

pub data KeyReply : Type 0 where
  error_reply : (status : ℕ) (error : Text) → KeyReply
  ok_reply : KeyReply
  cleared_reply : (cleared : Bool) → KeyReply

unfoldable pub post_active_key : Bool → KeyBody → KeyReply × Option SetCookie
unfolding has_key_format set_active_key_cookie
post_active_key production invalid_json = (error_reply 400 (codes "invalid_json"), none)
post_active_key production no_key_string = (error_reply 400 (codes "invalid_key_format"), none)
post_active_key production (key_string key) =
    if has_key_format key
    then (ok_reply, some (set_active_key_cookie production key))
    else (error_reply 400 (codes "invalid_key_format"), none)

unfoldable pub delete_active_key : Bool → Option Text → KeyReply × Option SetCookie
unfolding clear_active_key_cookie
delete_active_key production none = (cleared_reply false, none)
delete_active_key production (some key) =
    (cleared_reply true, some (clear_active_key_cookie production))

-- `GET status`: `hasKey`, with the prefix.
unfoldable pub active_key_status : Option Text → Option Text
unfolding key_prefix
active_key_status none = none
active_key_status (some []) = none
active_key_status (some (c ∷ key)) = some (key_prefix (c ∷ key))

-- The browser's cookie behind a response: an age of 0 removes it.
abbrev pub store : Option SetCookie → Option Text → Option Text
store none jar = jar
store (some c) jar = if c.max_age == 0 then none else some c.value

-- The calls of a browser.
pub data KeyCall : Type 0 where
  post : KeyBody → KeyCall
  delete : KeyCall

unfoldable pub call : Bool → Option Text → KeyCall → Option Text
unfolding post_active_key delete_active_key
call production jar (post body) = store (post_active_key production body).1 jar
call production jar delete = store (delete_active_key production jar).1 jar

abbrev pub calls : Bool → Option Text → List KeyCall → Option Text
calls production jar [] = jar
calls production jar (c ∷ cs) = calls production (call production jar c) cs
