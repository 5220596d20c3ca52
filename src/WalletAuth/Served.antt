-- ===== src/WalletAuth/Served.antt =====
-- What `getWalletAuthHeaders` hands out, in any order of calls, resolved and rejected requests,
-- registrations and their removal.
use zksettle.Base.{
  none, some, [], ◌∷◌, true, false, inl, inr, refl, ◌≡◌, ℕ, Option, Option-cases, ◌<◌, ◌*◌,
  Bool-cases, ◌+◌, subst, Bool, ap, ltb, arith, ◌&&◌, ltb→lt, sym, ◌∙◌,
}
use zksettle.Base.Text.{Text}
use zksettle.Base.Bytes.{Bytes, bytes_eq, bytes_eq_iff}
use zksettle.WalletAuth.{
  AuthState, Answer, Request, CachedSignature, initial_auth, register_wallet_signer,
  unregister_wallet_signer, sign_and_cache, finish_inflight, get_wallet_auth_headers,
  bodyless_headers, join_or_start, signer_of, auth_message, encode_base58, headers, awaits,
  message_of, same_wallet, is_fresh, no_headers,
}

and-true : (a b : Bool) → (a && b) ≡ true → (a ≡ true) × (b ≡ true)
and-true true b h = (refl, h)
and-true false b h = cc

-- `sign wallet message` is the wallet's signature.
module _ (sign : Text → Text → Bytes) where
  -- One step of the module: a call of an export, or what becomes of a request. A request that is
  -- rejected only ends.
  pub data Step : AuthState → AuthState → Type 0 where
    registers : (wallet : Text) (s : AuthState) → Step s (register_wallet_signer wallet s)
    unregisters : (s : AuthState) → Step s (unregister_wallet_signer s)
    calls :
        (phantom : Option Text) (body_hash_hex : Text) (now : ℕ) (s : AuthState)
        → Step s (get_wallet_auth_headers phantom body_hash_hex now s).1
    resolves :
        (r : Request) (s : AuthState)
        → Step s (sign_and_cache r (sign r.wallet_hex (message_of r)) s)
    ends : (s : AuthState) → Step s (finish_inflight s)

  pub data Reachable : AuthState → Type 0 where
    starts : Reachable initial_auth
    moves : {s s' : AuthState} → Reachable s → Step s s' → Reachable s'

  -- A signature of the wallet on its own message without a body, and its age.
  abbrev pub IsSigned : CachedSignature → Type 0
  IsSigned c =
      (c.signature ≡ encode_base58 (sign c.wallet_hex (auth_message c.wallet_hex c.timestamp [])))
      × (c.expires_at < c.timestamp * 1000 + 241_000)

  abbrev pub CacheSigned : Option CachedSignature → Type 0
  CacheSigned none = Unit
  CacheSigned (some c) = IsSigned c

  abbrev pub IsShared : Option Request → Option Text → Type 0
  IsShared none wallet = Unit
  IsShared (some r) wallet = (wallet ≡ some r.wallet_hex) × (r.body_hash_hex ≡ [])

  abbrev pub Invariant : AuthState → Type 0
  Invariant s = CacheSigned s.cached × IsShared s.inflight s.inflight_wallet

  join_or_start-Invariant :
      (wallet : Text) (now : ℕ) (s : AuthState)
      → Invariant s
      → Invariant (join_or_start wallet now s).1
  unfolding join_or_start
  join_or_start-Invariant wallet now s (c, i) = elim (Option-cases s.inflight) [
    | inl idle ↦ simp (join_or_start, idle) (c, (refl, refl))
    | inr (r, busy) ↦ elim (Bool-cases (same_wallet s.inflight_wallet wallet)) [
      | inl same ↦
          simp (join_or_start, busy, same) (c, subst (λ o. IsShared o s.inflight_wallet) busy i)
      | inr other ↦ simp (join_or_start, busy, other) (c, (refl, refl))
    ]
  ]

  bodyless_headers-Invariant :
      (wallet : Text) (now : ℕ) (s : AuthState)
      → Invariant s
      → Invariant (bodyless_headers wallet now s).1
  unfolding bodyless_headers
  bodyless_headers-Invariant wallet now s inv = elim (Option-cases s.cached) [
    | inl empty ↦ simp (bodyless_headers, empty) (join_or_start-Invariant wallet now s inv)
    | inr (c, there) ↦ elim (Bool-cases (is_fresh c wallet now)) [
      | inl fresh ↦ simp (bodyless_headers, there, fresh) (subst CacheSigned there inv.0, inv.1)
      | inr stale ↦ simp (bodyless_headers, there, stale) (join_or_start-Invariant wallet now s inv)
    ]
  ]

  get_wallet_auth_headers-Invariant :
      (phantom : Option Text) (body : Text) (now : ℕ) (s : AuthState)
      → Invariant s
      → Invariant (get_wallet_auth_headers phantom body now s).1
  unfolding get_wallet_auth_headers
  get_wallet_auth_headers-Invariant phantom [] now s inv =
      elim (Option-cases (signer_of phantom s)) [
        | inl unknown ↦ simp (get_wallet_auth_headers, unknown) inv
        | inr (wallet, known) ↦
            simp (get_wallet_auth_headers, known) (bodyless_headers-Invariant wallet now s inv)
      ]
  get_wallet_auth_headers-Invariant phantom (c ∷ body) now s inv =
      elim (Option-cases (signer_of phantom s)) [
        | inl unknown ↦ simp (get_wallet_auth_headers, unknown) inv
        | inr (wallet, known) ↦ simp (get_wallet_auth_headers, known) inv
      ]

  sign_and_cache-Invariant :
      (wallet : Text) (now : ℕ) (body : Text) (s : AuthState)
      → Invariant s
      → (let r : Request = record { wallet_hex = wallet; now = now; body_hash_hex = body } in
          Invariant (sign_and_cache r (sign wallet (message_of r)) s))
  unfolding sign_and_cache
  sign_and_cache-Invariant wallet now [] s (c, i) = ((refl, omega arith), i)
  sign_and_cache-Invariant wallet now (b ∷ body) s inv = inv

  Step-Invariant : {s s' : AuthState} → Step s s' → Invariant s → Invariant s'
  unfolding register_wallet_signer unregister_wallet_signer finish_inflight
  Step-Invariant (registers wallet s) inv = inv
  Step-Invariant (unregisters s) inv = (tt, tt)
  Step-Invariant (calls phantom body now s) inv =
      get_wallet_auth_headers-Invariant phantom body now s inv
  Step-Invariant (resolves r s) inv =
      sign_and_cache-Invariant r.wallet_hex r.now r.body_hash_hex s inv
  Step-Invariant (ends s) inv = (inv.0, tt)

  Reachable-Invariant : {s : AuthState} → Reachable s → Invariant s
  Reachable-Invariant starts = (tt, tt)
  Reachable-Invariant (moves before step) = Step-Invariant step (Reachable-Invariant before)

  -- What an answer to a call of `getWalletAuthHeaders` without a body, at the time `now`, has to be:
  -- nothing without a signer; otherwise headers of that signer, signed by it and less than 241 seconds
  -- old, or a request that signs for it.
  abbrev pub IsRightAnswer : Option Text → ℕ → Answer → Type 0
  IsRightAnswer none now no_headers = Unit
  IsRightAnswer none now _ = ⊥
  IsRightAnswer (some wallet) now no_headers = ⊥
  IsRightAnswer (some wallet) now (headers w signature timestamp) =
      (w ≡ wallet)
      × (signature ≡ encode_base58 (sign wallet (auth_message wallet timestamp [])))
      × (now < timestamp * 1000 + 241_000)
  IsRightAnswer (some wallet) now (awaits r) = (r.wallet_hex ≡ wallet) × (r.body_hash_hex ≡ [])

  same_wallet-eq :
      (o : Option Text) (wallet w : Text) → same_wallet o wallet ≡ true → o ≡ some w → w ≡ wallet
  same_wallet-eq o wallet w h e =
      let h' : bytes_eq w wallet ≡ true = ap (λ t. same_wallet t wallet) (sym e) ∙ h in
      (bytes_eq_iff w wallet).0 h'

  join_or_start-right :
      (wallet : Text) (now : ℕ) (s : AuthState)
      → Invariant s
      → IsRightAnswer (some wallet) now (join_or_start wallet now s).0
  unfolding join_or_start
  join_or_start-right wallet now s (c, i) = elim (Option-cases s.inflight) [
    | inl idle ↦ simp (join_or_start, idle) (refl, refl)
    | inr (r, busy) ↦ elim (Bool-cases (same_wallet s.inflight_wallet wallet)) [
      | inr other ↦ simp (join_or_start, busy, other) (refl, refl)
      | inl same ↦
          let (mine, bodyless) = subst (λ o. IsShared o s.inflight_wallet) busy i in
          simp (join_or_start, busy, same)
            (same_wallet-eq s.inflight_wallet wallet r.wallet_hex same mine, bodyless)
    ]
  ]

  is_fresh-right :
      (c : CachedSignature) (wallet : Text) (now : ℕ)
      → IsSigned c
      → is_fresh c wallet now ≡ true
      → IsRightAnswer (some wallet) now (headers wallet c.signature c.timestamp)
  is_fresh-right c wallet now (signed, young) fresh =
      let (own, early) = and-true (bytes_eq c.wallet_hex wallet) (ltb now c.expires_at) fresh in
      let mine : c.wallet_hex ≡ wallet = (bytes_eq_iff c.wallet_hex wallet).0 own in
      (
        refl,
        subst (λ w. c.signature ≡ encode_base58 (sign w (auth_message w c.timestamp []))) mine
            signed,
        omega (arith, ltb→lt _ _ early, young),
      )

  bodyless_headers-right :
      (wallet : Text) (now : ℕ) (s : AuthState)
      → Invariant s
      → IsRightAnswer (some wallet) now (bodyless_headers wallet now s).0
  unfolding bodyless_headers
  bodyless_headers-right wallet now s inv = elim (Option-cases s.cached) [
    | inl empty ↦ simp (bodyless_headers, empty) (join_or_start-right wallet now s inv)
    | inr (c, there) ↦ elim (Bool-cases (is_fresh c wallet now)) [
      | inl fresh ↦
          simp (bodyless_headers, there, fresh)
            (is_fresh-right c wallet now (subst CacheSigned there inv.0) fresh)
      | inr stale ↦ simp (bodyless_headers, there, stale) (join_or_start-right wallet now s inv)
    ]
  ]

  -- In every state that calls, resolved and rejected requests, registrations and their removal can
  -- lead to, in any order, a call of `getWalletAuthHeaders` without a body gets headers or a request of
  -- the current signer only; headers from the cache carry that signer's own signature of the
  -- message with their timestamp, and are less than 241 seconds old.
  pub get_wallet_auth_headers-right :
      {s : AuthState} (phantom : Option Text) (now : ℕ)
      → Reachable s
      → IsRightAnswer (signer_of phantom s) now (get_wallet_auth_headers phantom [] now s).0
  unfolding get_wallet_auth_headers
  get_wallet_auth_headers-right {s} phantom now reachable =
      elim (Option-cases (signer_of phantom s)) [
        | inl unknown ↦ simp (get_wallet_auth_headers, unknown) tt
        | inr (wallet, known) ↦
            simp (get_wallet_auth_headers, known)
              (bodyless_headers-right wallet now s (Reachable-Invariant reachable))
      ]
