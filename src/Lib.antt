-- ===== src/Lib.antt =====
-- zksettle settles stablecoin transfers on Solana with a zero-knowledge compliance proof. This library
-- models the TypeScript part of the repository: the SDK that talks to the on-chain programs, and the
-- page that runs the proof flow.
--
-- Parts and files:
-- * Web3 is the interface of @solana/web3.js and @solana/spl-token: public keys, their 32 bytes and
--   program addresses. Its laws are hypotheses (Web3.Laws), which Web3/Concrete shows to hold of keys
--   as lists of 32 bytes.
-- * Stablecoin models sdk/src/stablecoin: Constants (constants.ts, discriminators.ts), Pda (pda.ts),
--   Accounts (accounts.ts: decodeTreasury and decodeRedemptionRequest), Encode and Instructions
--   (instructions.ts: the fourteen builders), Client (client.ts: StablecoinClient). The layout of the
--   accounts in Accounts/Layout is that of backend/programs/stablecoin/src/state, and the dispatch in
--   Instructions/Payload that of the program; Instructions/Structs has the accounts that the program's
--   instructions take. They are written independently of the TypeScript code.
-- * Audit models sdk/src/audit: parseProofSettled (event-parser.ts) on the decoded bytes, and audit
--   (index.ts), which searches a transaction's logs. Audit/Layout is the event of
--   backend/crates/zksettle-types/src/events.rs.
-- * Upload models uploadProofChunked of sdk/src/wrap/index.ts: Chunks cuts the proof into write
--   instructions and batches them, Client sends everything through a wallet and an RPC connection,
--   the record Rpc. Upload/Program is the other side of the contract, the handlers of
--   backend/programs/zksettle/src/instructions/transfer_hook/handlers.rs on one account. Anchor's
--   encoding of the finalize instruction is a parameter.
-- * ProveFlow models frontend/src/lib/prove-flow.ts, the reducer of the page and the inputs of the
--   circuit, and the runs of frontend/src/hooks/use-prove-flow.ts. A run is the list of the actions
--   that it dispatches and what it ends with (ProveFlow/Flow); Steps and Run are its functions.
-- * ProveFlow/Submit models the submit step: the confirmation with its polling fallback and the
--   rebroadcast loop, each over the list of what its rounds see, in Submit/Batches the three signed
--   batches and the priority fee, and in Submit/Sequence every transaction that is sent, the
--   prerequisites and those sent again included; Run/Submits joins it to the whole run.
-- * Format models frontend/src/lib/stablecoin/format.ts: amounts as decimal text and back, the mint
--   cap, the supply and the expiry of a redemption.
-- * WalletAuth models frontend/src/lib/api/wallet-auth.ts: the signed headers, their cache and the
--   request in flight, as steps of the module's state in any order.
-- * Nullifier models sdk/src/prove/nullifier.ts: the field elements that the nullifier hashes. BigInt
--   is a parameter with the laws Nullifier.Fields.Laws.
-- * Prover models sdk/src/prove/prover.ts: init, doInit and destroy of the lazily created proving
--   backend, as steps of its state in any order.
-- * Prove models sdk/src/prove/index.ts: both overloads of prove; Prove/Noir has the names of the
--   circuit's parameters, Prove/Limbs the limbs of a key in the SDK, the page and the program, and
--   Prove/Release what is left of the proving backend.
-- * Api models the way to the gateway: Api/Proxy the route frontend/src/app/api/proxy/[...path] over
--   the header lists of Api/Headers, Api/Client the page's
--   requests (frontend/src/lib/api/client.ts) with the issuer service's check of their signature
--   (Api/Client/Service), Api/ActiveKey the key's cookie and its routes, and Api/Groth16
--   what proveGroth16 of frontend/src/lib/api/endpoints.ts makes of the prover's answer.
-- * RecentWallets models frontend/src/hooks/use-recent-wallets.ts: the list in the browser's storage
--   and the hooks that change it. WalletInput models frontend/src/lib/wallet.ts: a wallet as it is
--   typed and its canonical form. Export models buildCsvContent of frontend/src/lib/export.ts;
--   Export/Csv is the reader that the file is read back with.
-- * Wrap models the instruction builders of sdk/src/wrap/index.ts, sdk/src/wrap/pda.ts and
--   sdk/src/issuer/index.ts; Wrap/Idl has the entries of sdk/src/idl/zksettle.json that they build.
-- * Scripts models the upload and the accounts of scripts/lib/benchmark-utils.ts.
-- * Adapter models frontend/src/lib/stablecoin/sdk-adapter.ts and hooks/use-stablecoin-action.ts: what
--   the page lists, and the transaction that an action hands to the wallet.
-- * Explorer models the state of frontend/src/components/dashboard/attestation-explorer-panel.tsx over
--   RecentWallets and WalletInput, and the status it derives from its queries.
-- * ProofGeneration models frontend/src/hooks/use-proof-generation.ts: the shared initialisation and the
--   flags of the hook, as steps of its state in any order.
-- * Controls models the role of frontend/src/hooks/use-stablecoin-role.ts and the buttons of
--   frontend/src/components/dashboard/admin-controls.tsx and operator-controls.tsx: which the page offers
--   to a wallet, and what each queues, against the guards of the program's handlers; which addresses
--   are token accounts of the mint is a parameter.
-- * Base holds what all parts share: bytes, text, integers, results and lists. Tests holds runs of the
--   theorems on concrete data.
--
-- State and errors. Node's Buffer is a list of bytes, and a read past its end is an error value.
-- Thrown errors are values of Result or Option; an await is a sequence point. Integers that the code
-- writes to a field keep the range check of Node's write methods. Numbers of the page are naturals.
--
-- Fuel. The write loop takes the proof's length, since every round moves by a byte at least; the
-- resize loop takes a round for every 10,240 missing bytes and one more, which is three for the largest
-- proof that the program accepts; printing a number n takes n + 1 rounds.
--
-- Not modelled: React components, HTTP requests themselves, Noir, Barretenberg and Poseidon2, the
-- Anchor IDL, logging. The programs are modelled only where the TypeScript code relies on them.
pub mod Base
pub mod Web3
pub mod Stablecoin
pub mod Audit
pub mod Upload
pub mod ProveFlow
pub mod Adapter
pub mod Api
pub mod Controls
pub mod Explorer
pub mod Export
pub mod Format
pub mod Nullifier
pub mod ProofGeneration
pub mod Prove
pub mod Prover
pub mod RecentWallets
pub mod Scripts
pub mod WalletAuth
pub mod WalletInput
pub mod Wrap
pub mod Tests
