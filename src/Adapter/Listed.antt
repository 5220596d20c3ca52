-- ===== src/Adapter/Listed.antt =====
-- The page lists exactly the redemption requests of its treasury.
use zksettle.Base.{
  ◌+◌, Bool, true, false, List, [], ◌∷◌, ◌++◌, ◌≡◌, refl, ap, ◌∙◌, ok, err, ◌==◌, ◌&&◌,
  if◌then◌else◌, length, drop, map, all, All, keep, keep_eq, Bool-cases, inl, inr, length-append,
}
use zksettle.Base.Bytes.{Bytes, bytes_eq, subarray, subarray-at, advance}
use zksettle.Base.Int.{ℤ, pos}
use zksettle.Web3.{Web3, Laws}
use zksettle.Stablecoin.Accounts.{RedemptionRequest, DecodeError, decode_redemption_request}
use zksettle.Stablecoin.Accounts.Layout.{FitsRedemption, encode_redemption_request}
use zksettle.Stablecoin.Accounts.RoundTrip.{decode_redemption_request-encode}
use zksettle.Stablecoin.Pda.{find_treasury_pda}
use zksettle.Adapter.{
  LocalRedemption, AccountFilter, data_size, memcmp, to_local_redemption, decoded, list_redemptions,
  program_id,
}

and_true : (b : Bool) → (b && true) ≡ b
and_true true = refl
and_true false = refl

abbrev pub passes : Bytes → AccountFilter → Bool
passes account (data_size n) = length account == n
passes account (memcmp offset bytes) = bytes_eq (subarray account offset (length bytes)) bytes

-- An account of the program: a redemption request in the program's layout, or another.
pub data Stored (Key : Type 0) : Type 0 where
  request : Key → RedemptionRequest Key → Stored Key
  another : Key → Bytes → Stored Key

-- A stored request as the page has it: each value is the one of the account, and the time is a number.
abbrev pub listed :
    {Key Number : Type 0} → (ℤ → Number) → Key → RedemptionRequest Key → LocalRedemption Key Number
listed number pda r = record {
  pda = pda;
  holder = r.holder;
  treasury = r.treasury;
  mint = r.mint;
  token_account = r.token_account;
  amount = pos r.amount;
  nonce = pos r.nonce;
  requested_at = number r.requested_at;
}

module _ (w : Web3) where
  open w use {PublicKey, to_buffer}

  abbrev pub account_of : Stored PublicKey → PublicKey × Bytes
  account_of (request pda r) = (pda, encode_redemption_request w r [])
  account_of (another pubkey account) = (pubkey, account)

  -- A request fits its layout; another account is no request.
  abbrev pub IsStored : Stored PublicKey → Type 0
  IsStored (request pda r) = FitsRedemption r
  IsStored (another pubkey account) =
      (e : DecodeError) × (decode_redemption_request w account ≡ err e)

  -- `getProgramAccounts` gives the program's accounts that pass every filter.
  abbrev pub Filters :
      (PublicKey → List AccountFilter → List (PublicKey × Bytes)) → List (Stored PublicKey) → Type 0
  Filters get_program_accounts stored =
      (filters : List AccountFilter)
      → get_program_accounts (program_id w) filters
        ≡ keep (λ a. all (passes a.1) filters) (map account_of stored)

  -- The requests of a treasury.
  abbrev pub requests_of :
      {Number : Type 0}
      → (ℤ → Number)
      → PublicKey
      → List (Stored PublicKey)
      → List (LocalRedemption PublicKey Number)
  requests_of number treasury [] = []
  requests_of number treasury (request pda r ∷ stored) =
      let rest = requests_of number treasury stored in
      if bytes_eq (to_buffer r.treasury) (to_buffer treasury)
      then listed number pda r ∷ rest
      else rest
  requests_of number treasury (another pubkey account ∷ stored) = requests_of number treasury stored

module _ (w : Web3) (l : Laws w) where
  open w use {PublicKey, to_buffer}

  length-key : (k : PublicKey) (xs : Bytes) → length (to_buffer k ++ xs) ≡ 32 + length xs
  length-key k xs = length-append (to_buffer k) xs ∙ ap (λ n. n + length xs) (l.length-to_buffer k)

  length-encode_redemption_request :
      (r : RedemptionRequest PublicKey) → length (encode_redemption_request w r []) ≡ 161
  length-encode_redemption_request r = rw (length-key, length-key, length-key, length-key)

  treasury-at :
      (r : RedemptionRequest PublicKey)
      → subarray (encode_redemption_request w r []) 40 32 ≡ to_buffer r.treasury
  treasury-at r =
      let buf : Bytes = encode_redemption_request w r [] in
      let h40 : drop 40 buf ≡ _ =
        advance buf 8 32 40 (to_buffer r.holder) _ refl (l.length-to_buffer r.holder) refl in
      subarray-at buf 40 32 (to_buffer r.treasury) _ h40 (l.length-to_buffer r.treasury)

  -- The filters of `listRedemptions`.
  abbrev filters_of : PublicKey → List AccountFilter
  filters_of treasury = data_size 161 ∷ memcmp 40 (to_buffer treasury) ∷ []

  request-passes :
      (r : RedemptionRequest PublicKey) (treasury : PublicKey)
      → all (passes (encode_redemption_request w r [])) (filters_of treasury)
        ≡ bytes_eq (to_buffer r.treasury) (to_buffer treasury)
  request-passes r treasury =
      rw (length-encode_redemption_request r, l.length-to_buffer treasury, treasury-at r)
        (and_true (bytes_eq (to_buffer r.treasury) (to_buffer treasury)))

  module _ {Number : Type 0} (number : ℤ → Number) where
    decoded-request :
        (pda : PublicKey) (r : RedemptionRequest PublicKey) (rest : List (PublicKey × Bytes))
        → FitsRedemption r
        → decoded w number ((pda, encode_redemption_request w r []) ∷ rest)
          ≡ listed number pda r ∷ decoded w number rest
    unfolding decoded to_local_redemption
    decoded-request pda r rest fits =
        ap
          (λ d. elim d [
            | err e ↦ decoded w number rest
            | ok sdk ↦ to_local_redemption number pda sdk ∷ decoded w number rest
          ])
          (decode_redemption_request-encode w l r [] fits)

    decoded-another :
        (pubkey : PublicKey) (account : Bytes) (e : DecodeError) (rest : List (PublicKey × Bytes))
        → decode_redemption_request w account ≡ err e
        → decoded w number ((pubkey, account) ∷ rest) ≡ decoded w number rest
    unfolding decoded
    decoded-another pubkey account e rest h =
        ap
          (λ d. elim d [
            | err e ↦ decoded w number rest
            | ok sdk ↦ to_local_redemption number pubkey sdk ∷ decoded w number rest
          ])
          h

    decoded-stored :
        (treasury : PublicKey) (stored : List (Stored PublicKey))
        → All (IsStored w) stored
        → decoded w number
            (keep (λ a. all (passes a.1) (filters_of treasury)) (map (account_of w) stored))
          ≡ requests_of w number treasury stored
    unfolding decoded
    decoded-stored treasury [] h = refl
    decoded-stored treasury (request pda r ∷ stored) (fits, h) =
        let passed = λ (a : PublicKey × Bytes). all (passes a.1) (filters_of treasury) in
        let account : PublicKey × Bytes = account_of w (request pda r) in
        let others : List (PublicKey × Bytes) = map (account_of w) stored in
        elim (Bool-cases (bytes_eq (to_buffer r.treasury) (to_buffer treasury))) [
          | inl own ↦
              ap (decoded w number)
                (keep_eq passed account others true (request-passes r treasury ∙ own))
              ∙ decoded-request pda r (keep passed others) fits
              ∙ rw own (ap (λ t. listed number pda r ∷ t) (decoded-stored treasury stored h))
          | inr foreign ↦
              ap (decoded w number)
                (keep_eq passed account others false (request-passes r treasury ∙ foreign))
              ∙ rw foreign (decoded-stored treasury stored h)
        ]
    decoded-stored treasury (another pubkey account ∷ stored) ((e, failed), h) =
        let passed = λ (a : PublicKey × Bytes). all (passes a.1) (filters_of treasury) in
        let others : List (PublicKey × Bytes) = map (account_of w) stored in
        elim (Bool-cases (passed (pubkey, account))) [
          | inl there ↦
              ap (decoded w number) (keep_eq passed (pubkey, account) others true there)
              ∙ decoded-another pubkey account e (keep passed others) failed
              ∙ decoded-stored treasury stored h
          | inr gone ↦
              ap (decoded w number) (keep_eq passed (pubkey, account) others false gone)
              ∙ decoded-stored treasury stored h
        ]

    -- Whatever accounts the program has stored, redemption requests or others, if the node gives those
    -- that pass the filters: the page lists the requests of the mint's treasury, each once, in the
    -- node's order and with the values that are stored.
    pub list_redemptions-requests_of :
        (get_program_accounts : PublicKey → List AccountFilter → List (PublicKey × Bytes))
        (mint : PublicKey) (stored : List (Stored PublicKey))
        → All (IsStored w) stored
        → Filters w get_program_accounts stored
        → list_redemptions w number get_program_accounts mint
          ≡ requests_of w number (find_treasury_pda w mint (program_id w)).0 stored
    unfolding list_redemptions
    list_redemptions-requests_of get_program_accounts mint stored h node =
        ap (decoded w number) (node (filters_of (find_treasury_pda w mint (program_id w)).0))
        ∙ decoded-stored (find_treasury_pda w mint (program_id w)).0 stored h
