-- ===== src/Stablecoin/Accounts/Layout.antt =====
-- The Borsh layout of the two accounts, from the program's own structs:
-- backend/programs/stablecoin/src/state/treasury.rs and redemption.rs. It is the
-- independent description that the decoders of accounts.ts are held against.
use zksettle.Base.{ℕ, ◌-◌, ◌^◌, ◌<◌, Bool, true, false, Option, none, some, [], ◌∷◌, ◌++◌}
use zksettle.Base.Bytes.{Bytes, le_bytes}
use zksettle.Base.Int.{ℤ, pos, negsuc}
use zksettle.Web3.{Web3}
use zksettle.Stablecoin.Constants.{disc_treasury, disc_redemption_request}
use zksettle.Stablecoin.Accounts.{Treasury, RedemptionRequest}

abbrev pub bool_byte : Bool → ℕ
bool_byte true = 1
bool_byte false = 0

-- An `i64` as the word that holds it.
abbrev pub word64 : ℤ → ℕ
word64 (pos n) = n
word64 (negsuc n) = 2 ^ 64 - n - 1

abbrev pub IsI64 : ℤ → Type 0
IsI64 (pos n) = n < 2 ^ 63
IsI64 (negsuc n) = n < 2 ^ 63

-- Every `u64` field is in range.
pub record FitsTreasury {Key : Type 0} (t : Treasury Key) : Type 0 where
  pub total_minted : t.total_minted < 2 ^ 64
  pub total_burned : t.total_burned < 2 ^ 64
  pub mint_cap : t.mint_cap < 2 ^ 64
  pub redemption_nonce : t.redemption_nonce < 2 ^ 64

pub record FitsRedemption {Key : Type 0} (r : RedemptionRequest Key) : Type 0 where
  pub amount : r.amount < 2 ^ 64
  pub nonce : r.nonce < 2 ^ 64
  pub requested_at : IsI64 r.requested_at

module _ (w : Web3) where
  open w use {PublicKey, to_buffer}

  -- `Option<Pubkey>`: a tag, and the key behind the tag 1.
  abbrev pub encode_option : Option PublicKey → Bytes
  encode_option none = 0 ∷ []
  encode_option (some k) = 1 ∷ to_buffer k

  abbrev pub encode_treasury_tail : Treasury PublicKey → Bytes → Bytes
  encode_treasury_tail t rest =
      le_bytes 8 t.mint_cap ++ (le_bytes 8 t.redemption_nonce ++ (t.escrow_authority_bump ∷ rest))

  -- The account's bytes, followed by `rest`: the account is allocated at its largest size.
  abbrev pub encode_treasury : Treasury PublicKey → Bytes → Bytes
  encode_treasury t rest =
      disc_treasury
      ++ (to_buffer t.admin
          ++ (to_buffer t.operator
              ++ (to_buffer t.mint
                  ++ ((t.mint_authority_bump ∷ t.freeze_authority_bump ∷ t.bump ∷ [])
                      ++ (le_bytes 8 t.total_minted
                          ++ (le_bytes 8 t.total_burned
                              ++ ((t.decimals ∷ bool_byte t.paused ∷ [])
                                  ++ (encode_option t.pending_admin
                                      ++ encode_treasury_tail t rest))))))))

  abbrev pub encode_redemption_request : RedemptionRequest PublicKey → Bytes → Bytes
  encode_redemption_request r rest =
      disc_redemption_request
      ++ (to_buffer r.holder
          ++ (to_buffer r.treasury
              ++ (to_buffer r.mint
                  ++ (to_buffer r.token_account
                      ++ (le_bytes 8 r.amount
                          ++ (le_bytes 8 r.nonce
                              ++ (le_bytes 8 (word64 r.requested_at) ++ (r.bump ∷ rest))))))))
