-- ===== src/WalletAuth.antt =====
-- frontend/src/lib/api/wallet-auth.ts: the headers by which a wallet signs in to the API. The module's
-- variables are the state; a request for a signature is started by one call and resolves or rejects
-- later, in any order with other calls. `Date.now()` is an argument, the wallet's signature a parameter.
pub mod Base58
pub mod Served
use zksettle.Base.{
  none, some, [], ◌∷◌, true, false, List, Option, Bool, ◌++◌, ℕ, if◌then◌else◌, ◌/◌, ◌+◌, ◌||◌,
  ◌&&◌, map, ◌==◌, get_elem?, suc, ◌*◌, reverse, ltb, ◌%◌, zero,
}
use zksettle.Base.Text.{Text, codes, includes}
use zksettle.Base.Bytes.{Bytes, bytes_eq}
use zksettle.Base.Decimal.{decimal}

abbrev pub replay_window_ms : ℕ
replay_window_ms = 240_000

pub record CachedSignature : Type 0 where
  pub wallet_hex : Text
  pub signature : Text
  pub timestamp : ℕ
  pub expires_at : ℕ

-- A call of `signAndCache` that awaits the wallet: when it was made, and the body hash, empty for none.
pub record Request : Type 0 where
  pub wallet_hex : Text
  pub now : ℕ
  pub body_hash_hex : Text

pub record AuthState : Type 0 where
  pub cached : Option CachedSignature
  pub inflight : Option Request
  pub inflight_wallet : Option Text
  pub registered_signer : Option Text

abbrev pub initial_auth : AuthState
initial_auth = record {
  cached = none;
  inflight = none;
  inflight_wallet = none;
  registered_signer = none;
}

-- What a caller gets: `{}`, the headers at once, or the promise of a request.
pub data Answer : Type 0 where
  no_headers : Answer
  headers : (wallet_hex signature : Text) (timestamp : ℕ) → Answer
  awaits : Request → Answer

unfoldable pub register_wallet_signer : Text → AuthState → AuthState
register_wallet_signer wallet s = record s { registered_signer = some wallet }

unfoldable pub unregister_wallet_signer : AuthState → AuthState
unregister_wallet_signer s = record s { registered_signer = none; cached = none; inflight = none }

abbrev pub base58_char : ℕ → ℕ
base58_char d =
    elim (get_elem? (codes "123456789ABCDEFGHJKLMNPQRSTUVWXYZabcdefghijkmnopqrstuvwxyz") d) [
      | none ↦ 0
      | some c ↦ c
    ]

-- `while (carry > 0)`, on fuel: the carry is divided by 58 in every round.
abbrev pub push_carry : ℕ → ℕ → List ℕ
push_carry zero carry = []
push_carry (suc fuel) carry = elim (ltb 0 carry) [
  | true ↦ (carry % 58) ∷ push_carry fuel (carry / 58)
  | false ↦ []
]

-- The loops over the digits for one byte.
abbrev pub add_byte : List ℕ → ℕ → List ℕ
add_byte [] carry = push_carry carry carry
add_byte (d ∷ ds) carry = ((carry + d * 256) % 58) ∷ add_byte ds ((carry + d * 256) / 58)

-- The digits of the bytes, the least significant first.
abbrev pub base58_digits : List ℕ → Bytes → List ℕ
base58_digits digits [] = digits
base58_digits digits (b ∷ bs) = base58_digits (add_byte digits b) bs

abbrev pub leading_ones : Bytes → Text
leading_ones [] = []
leading_ones (b ∷ bs) = let rest = leading_ones bs in if b == 0 then base58_char 0 ∷ rest else []

unfoldable pub encode_base58 : Bytes → Text
encode_base58 bytes = leading_ones bytes ++ map base58_char (reverse (base58_digits (0 ∷ []) bytes))

unfoldable pub is_wallet_scoped_path : Text → Bool
unfolding includes
is_wallet_scoped_path path =
    includes path (codes "/credentials/")
    || includes path (codes "/proofs/membership/")
    || includes path (codes "/proofs/sanctions/")
    || includes path (codes "/proofs/jurisdiction/")
    || includes path (codes "/prove/groth16")

-- The message that the wallet signs.
unfoldable pub auth_message : Text → ℕ → Text → Text
unfolding decimal
auth_message wallet_hex timestamp [] =
    codes "zksettle:" ++ (wallet_hex ++ (codes ":" ++ decimal timestamp))
auth_message wallet_hex timestamp (c ∷ body) =
    codes "zksettle:"
    ++ (wallet_hex ++ (codes ":" ++ (decimal timestamp ++ (codes ":" ++ (c ∷ body)))))

abbrev pub message_of : Request → Text
message_of r = auth_message r.wallet_hex (r.now / 1000) r.body_hash_hex

-- `signAndCache` behind `await signMessage(encoded)`: it caches a signature without a body.
unfoldable pub sign_and_cache : Request → Bytes → AuthState → AuthState
unfolding encode_base58
sign_and_cache r signature_bytes s = elim r.body_hash_hex [
  | [] ↦ record s {
    cached = some (record {
      wallet_hex = r.wallet_hex;
      signature = encode_base58 signature_bytes;
      timestamp = r.now / 1000;
      expires_at = r.now + replay_window_ms;
    });
  }
  | _ ∷ _ ↦ s
]

-- The headers that a request resolves to.
unfoldable pub resolved_headers : Request → Bytes → Answer
unfolding encode_base58
resolved_headers r signature_bytes =
    headers r.wallet_hex (encode_base58 signature_bytes) (r.now / 1000)

-- The `finally` of a shared request.
unfoldable pub finish_inflight : AuthState → AuthState
finish_inflight s = record s { inflight = none; inflight_wallet = none }

abbrev pub signer_of : Option Text → AuthState → Option Text
signer_of phantom s = elim s.registered_signer [ none ↦ phantom | some wallet ↦ some wallet ]

-- `cached?.walletHex === walletHex && now < cached.expiresAt`
abbrev pub is_fresh : CachedSignature → Text → ℕ → Bool
is_fresh c wallet now = bytes_eq c.wallet_hex wallet && ltb now c.expires_at

abbrev pub start_shared : Text → ℕ → AuthState → Answer × AuthState
start_shared wallet now s =
    let r : Request = record { wallet_hex = wallet; now = now; body_hash_hex = [] } in
    (awaits r, record s { inflight = some r; inflight_wallet = some wallet })

abbrev pub same_wallet : Option Text → Text → Bool
same_wallet none wallet = false
same_wallet (some w) wallet = bytes_eq w wallet

-- `getWalletAuthHeaders` behind the cache: `if (inflight && inflightWallet === walletHex)`.
unfoldable pub join_or_start : Text → ℕ → AuthState → Answer × AuthState
join_or_start wallet now s = elim s.inflight [
  | none ↦ start_shared wallet now s
  | some r ↦
      if same_wallet s.inflight_wallet wallet then (awaits r, s) else start_shared wallet now s
]

unfoldable pub bodyless_headers : Text → ℕ → AuthState → Answer × AuthState
unfolding join_or_start
bodyless_headers wallet now s = elim s.cached [
  | none ↦ join_or_start wallet now s
  | some c ↦
      if is_fresh c wallet now
      then (headers wallet c.signature c.timestamp, s)
      else join_or_start wallet now s
]

-- `getWalletAuthHeaders`; `phantom` is the wallet of `getPhantomFallback()`.
unfoldable pub get_wallet_auth_headers : Option Text → Text → ℕ → AuthState → Answer × AuthState
unfolding bodyless_headers
get_wallet_auth_headers phantom body_hash_hex now s = elim (signer_of phantom s) [
  | none ↦ (no_headers, s)
  | some wallet ↦ elim body_hash_hex [
    | [] ↦ bodyless_headers wallet now s
    | c ∷ body ↦ (awaits (record { wallet_hex = wallet; now = now; body_hash_hex = c ∷ body }), s)
  ]
]
