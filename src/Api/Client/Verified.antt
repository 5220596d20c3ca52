-- ===== src/Api/Client/Verified.antt =====
-- What the wallet signs for a binary request (frontend/src/lib/api/client.ts) against the issuer
-- service's check of it.
use zksettle.Base.{
  ℕ, Option, Bool, some, true, false, [], ◌∷◌, ◌++◌, ◌≡◌, refl, ap, ◌∙◌, ◌<◌, ◌^◌, ◌/◌,
  if◌then◌else◌, length, arith,
}
use zksettle.Base.Text.{Text, codes}
use zksettle.Base.Bytes.{Bytes}
use zksettle.Base.Decimal.{decimal}
use zksettle.Api.Headers.{HeaderList}
use zksettle.Api.Proxy.{forwarded_headers}
use zksettle.WalletAuth.{
  Answer, awaits, headers, Request, AuthState, get_wallet_auth_headers, signer_of, resolved_headers,
  message_of, is_wallet_scoped_path, encode_base58, auth_message,
}
use zksettle.Api.Client.{
  BinaryRequestInit, binary_headers, binary_request, auth_record, assign, binary_body_hash,
}
use zksettle.Base.Decimal.{hex_of}
use zksettle.WalletInput.Canonical.{IsKeyBytes}
use zksettle.Base.{◌||◌, ok, err}
use zksettle.Api.Client.Service.{
  is_outside, verify_wallet_headers, verify_wallet_headers-Carries, signature_refused,
}
use zksettle.Api.Client.Signed.{
  IsUnsigned, Carries, assign-Carries, append-Carries, forwarded-Carries,
}

-- A request for a signature that is bound to a body.
abbrev pub bound_request : Text → ℕ → Text → Request
bound_request wallet now body_hash = record {
  wallet_hex = wallet;
  now = now;
  body_hash_hex = body_hash;
}

-- The headers that the service sees for a binary request, behind the browser's own.
abbrev pub seen_headers : HeaderList → Text → BinaryRequestInit → Answer → Option Text → HeaderList
seen_headers browser path init auth active_key =
    forwarded_headers (browser ++ (binary_request path init auth).headers) active_key

auth_message-bound :
    (wallet : Text) (ts : ℕ) (hash : Text)
    → 0 < length hash
    → auth_message wallet ts hash
      ≡ codes "zksettle:" ++ (wallet ++ (codes ":" ++ (decimal ts ++ (codes ":" ++ hash))))
unfolding auth_message
auth_message-bound wallet ts [] h = absurd (omega arith)
auth_message-bound wallet ts (c ∷ hash) h = refl

get_wallet_auth_headers-bound :
    (s : AuthState) (phantom : Option Text) (now : ℕ) (wallet hash : Text)
    → 0 < length hash
    → signer_of phantom s ≡ some wallet
    → (get_wallet_auth_headers phantom hash now s).0 ≡ awaits (bound_request wallet now hash)
unfolding get_wallet_auth_headers
get_wallet_auth_headers-bound s phantom now wallet [] h known = absurd (omega arith)
get_wallet_auth_headers-bound s phantom now wallet (c ∷ hash) h known =
    rw (get_wallet_auth_headers, known) refl

module _ (sha256_hex : Bytes → Text) (verify_wallet_signature : Bytes → Text → Text → Bool) where
  -- When the signer is the key of 32 bytes, as hexadecimal digits, whatever the caller sends with a body
  -- to a wallet-scoped path, without wallet headers of its own, and whatever headers the browser adds:
  -- the wallet is asked to sign for this body, and through the proxy the issuer service, with a clock
  -- at most 300 seconds off, takes the request for that wallet if it is set to allow unauthenticated
  -- requests or if the signature that the wallet gave is one of this key for exactly the message that
  -- the wallet was asked to sign; otherwise it refuses the signature, and gives no other error.
  pub binary_request-verified :
      (s : AuthState) (phantom : Option Text) (key : Bytes) (browser : HeaderList) (path : Text)
      (init : BinaryRequestInit) (body : Bytes) (active_key : Option Text) (allow_unauth : Bool)
      (now service_now : ℕ) (signature_bytes : Bytes)
      → signer_of phantom s ≡ some (hex_of key)
      → IsKeyBytes key
      → is_wallet_scoped_path path ≡ true
      → init.body ≡ some body
      → 0 < length (sha256_hex body)
      → IsUnsigned (binary_headers init.headers)
      → now / 1000 < 2 ^ 64
      → is_outside service_now (now / 1000) ≡ false
      → (r : Request) × ((get_wallet_auth_headers phantom
            (binary_body_hash sha256_hex init)
            now
            s).0
          ≡ awaits r)
        × (verify_wallet_headers sha256_hex verify_wallet_signature allow_unauth service_now
              (seen_headers browser path init (resolved_headers r signature_bytes) active_key)
              body
            ≡ (if allow_unauth
                  || verify_wallet_signature key (encode_base58 signature_bytes) (message_of r)
                then ok (hex_of key)
                else err signature_refused))
  unfolding binary_request resolved_headers
  binary_request-verified s phantom key browser path init body active_key allow_unauth now
        service_now signature_bytes known is_key scoped given long unsigned small recent =
      let wallet : Text = hex_of key in
      let hash : Text = sha256_hex body in
      let hashed : binary_body_hash sha256_hex init ≡ hash = rw given in
      let sig : Text = encode_base58 signature_bytes in
      let record_of : HeaderList =
        assign (binary_headers init.headers) (auth_record (headers wallet sig (now / 1000))) in
      let carried : Carries record_of wallet sig (decimal (now / 1000)) =
        assign-Carries (binary_headers init.headers) wallet sig (now / 1000) unsigned in
      let seen : Carries (forwarded_headers (browser ++ record_of) active_key) wallet sig
          (decimal (now / 1000)) =
        forwarded-Carries (browser ++ record_of) active_key wallet sig (decimal (now / 1000))
          (append-Carries browser record_of wallet sig (decimal (now / 1000)) carried) in
      (
        bound_request wallet now hash,
        ap (λ h. (get_wallet_auth_headers phantom h now s).0) hashed
            ∙ get_wallet_auth_headers-bound s phantom now wallet hash long known,
        rw (scoped, auth_message-bound wallet (now / 1000) hash long)
            (verify_wallet_headers-Carries sha256_hex verify_wallet_signature allow_unauth
              service_now (now / 1000) _ body key sig seen is_key small recent),
      )
