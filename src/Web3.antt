-- ===== src/Web3.antt =====
-- What the program uses of @solana/web3.js and @solana/spl-token, which are not in the repository:
-- public keys, program addresses and the identities of the system and token programs.
pub mod Concrete
use zksettle.Base.{ℕ, ◌≡◌, String, List, length}
use zksettle.Base.Bytes.{Bytes}

pub record Web3 : Type 1 where
  pub PublicKey : Type 0
  -- `new PublicKey(bytes)`, which is called with at most 32 bytes and then does not throw
  pub public_key : Bytes → PublicKey
  -- `new PublicKey(text)` on the base58 constants of the source
  pub from_base58 : String → PublicKey
  -- `key.toBuffer()`
  pub to_buffer : PublicKey → Bytes
  -- `PublicKey.findProgramAddressSync(seeds, programId)`
  pub find_program_address : List Bytes → PublicKey → PublicKey × ℕ
  -- `SystemProgram.programId` and `TOKEN_2022_PROGRAM_ID`
  pub system_program : PublicKey
  pub token_2022_program : PublicKey

-- A public key is 32 bytes, and is rebuilt from them.
pub record Laws (w : Web3) : Type 1 where
  pub length-to_buffer : (k : w.PublicKey) → length (w.to_buffer k) ≡ 32
  pub public_key-to_buffer : (k : w.PublicKey) → w.public_key (w.to_buffer k) ≡ k
