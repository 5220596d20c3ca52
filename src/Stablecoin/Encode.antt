-- ===== src/Stablecoin/Encode.antt =====
-- sdk/src/stablecoin/instructions.ts: the instruction record and the encoders of its data.
-- `none` is the `RangeError` of Node's `write...` methods.
use zksettle.Base.{Bool, Option, none, some, List, [], ◌∷◌, ◌++◌, ltb, if◌then◌else◌}
use zksettle.Base.Bytes.{Bytes}
use zksettle.Base.Int.{ℤ, pos, negsuc}
use zksettle.Base.Maybe.{◌>>=◌}
use zksettle.Web3.{Web3}
use zksettle.Stablecoin.Pda.{encode_u64}

-- `AccountMeta` and `TransactionInstruction` of web3.js, as the builders fill them.
pub record AccountMeta (Key : Type 0) : Type 0 where
  pub pubkey : Key
  pub is_signer : Bool
  pub is_writable : Bool

pub record TransactionInstruction (Key : Type 0) : Type 0 where
  pub program_id : Key
  pub keys : List (AccountMeta Key)
  pub data_bytes : Bytes

unfoldable pub encode_disc_only : Bytes → Bytes
encode_disc_only disc = disc

-- `buf.writeUInt8(value, 8)`
unfoldable pub encode_disc_u8 : Bytes → ℤ → Option Bytes
encode_disc_u8 disc (pos n) = if ltb n 256 then some (disc ++ n ∷ []) else none
encode_disc_u8 disc (negsuc n) = none

-- `buf.writeBigUInt64LE(BigInt(value), 8)`
unfoldable pub encode_disc_u64 : Bytes → ℤ → Option Bytes
unfolding encode_u64
encode_disc_u64 disc value = do word ← encode_u64 value; some (disc ++ word)

module _ (w : Web3) where
  open w use {PublicKey, to_buffer}

  unfoldable pub encode_disc_pubkey : Bytes → PublicKey → Bytes
  encode_disc_pubkey disc pubkey = disc ++ to_buffer pubkey
