-- ===== src/Tests.antt =====
-- Concrete runs of the theorems of the development, on public keys that are lists of 32 bytes.
mod Stablecoin
mod Audit
mod Upload
mod Flow
mod Prover
mod Prove
mod Api
mod RecentWallets
mod WalletInput
mod Export
mod Wrap
mod ProofGeneration
mod Client
mod Explorer
mod Adapter
mod Controls
mod Submit
mod Format
mod WalletAuth
mod Nullifier
use zksettle.Base.{ℕ, ◌∷◌, [], true, false, some, none, replicate}
use zksettle.Base.Bytes.{Bytes}
use zksettle.Base.Int.{pos, negsuc}
use zksettle.Web3.{Web3}
use zksettle.Web3.Concrete.{concrete, pad}

abbrev pub PublicKey : Type 0
PublicKey = concrete.PublicKey

abbrev pub key : ℕ → PublicKey
key n = pad (n ∷ [])
