-- ===== src/Prove.antt =====
-- sdk/src/prove/index.ts: `prove`, from the answers of the issuer service and the transfer to the
-- inputs of the circuit and its proof. Noir and Barretenberg are parameters (`ProveAnswers`); the
-- proving backend's memory is the state of Prover.
pub mod Noir
pub mod Limbs
pub mod Release
use zksettle.Prove.Noir.{NoirValue, to_noir_inputs}
use zksettle.Base.{
  ℕ, List, Option, Bool, Result, none, some, ok, err, true, false, take, drop, ◌/◌, ◌++◌,
  if◌then◌else◌, not, ◌>>=◌,
}
use zksettle.Base.Text.{Text, codes}
use zksettle.Base.Bytes.{Bytes, subarray}
use zksettle.Base.Decimal.{decimal, hex_of}
use zksettle.ProveFlow.Flow.{Thrown, thrown_error, ProofResult, NullifierInputs}
use zksettle.ProveFlow.Inputs.{Credential, MembershipProof, SanctionsProof, Roots, ProofInputs}
use zksettle.Prover.{
  ProverState, new_prover, init, do_init_returns, do_init_throws, destroy, destroy_returns,
  destroy_throws,
}

-- `TransferContext` of sdk/src/types.ts; a key is its bytes.
pub record ProveContext : Type 0 where
  pub mint : Bytes
  pub recipient : Bytes
  pub amount : ℕ
  pub epoch : Option ℕ
  pub private_key : Text
  pub credential_expiry : Text
  pub jurisdiction_path : List Text
  pub jurisdiction_path_indices : List ℕ

-- `toHex(bytes.slice(0, 16))` and `toHex(bytes.slice(16, 32))`
abbrev pub sdk_limb_lo : Bytes → Text
sdk_limb_lo bytes = codes "0x" ++ hex_of (subarray bytes 0 16)

abbrev pub sdk_limb_hi : Bytes → Text
sdk_limb_hi bytes = codes "0x" ++ hex_of (subarray bytes 16 16)

abbrev pub epoch_text : ProveContext → Text
epoch_text ctx = decimal (elim ctx.epoch [ none ↦ 0 | some e ↦ e ])

unfoldable pub sdk_nullifier_inputs : ProveContext → NullifierInputs
sdk_nullifier_inputs ctx = record {
  private_key = ctx.private_key;
  mint_lo = sdk_limb_lo ctx.mint;
  mint_hi = sdk_limb_hi ctx.mint;
  epoch = epoch_text ctx;
  recipient_lo = sdk_limb_lo ctx.recipient;
  recipient_hi = sdk_limb_hi ctx.recipient;
  amount = decimal ctx.amount;
}

-- The object `inputs` of `proveHighLevel`.
unfoldable pub sdk_inputs :
    Text
    → ProveContext
    → ℕ
    → Roots
    → MembershipProof
    → SanctionsProof
    → Credential
    → Text
    → ProofInputs
sdk_inputs wallet ctx now_secs roots membership sanctions credential nullifier = record {
  merkle_root = roots.membership_root;
  nullifier = nullifier;
  mint_lo = sdk_limb_lo ctx.mint;
  mint_hi = sdk_limb_hi ctx.mint;
  epoch = epoch_text ctx;
  recipient_lo = sdk_limb_lo ctx.recipient;
  recipient_hi = sdk_limb_hi ctx.recipient;
  amount = decimal ctx.amount;
  sanctions_root = roots.sanctions_root;
  jurisdiction_root = roots.jurisdiction_root;
  timestamp = decimal now_secs;
  wallet = wallet;
  path = membership.path;
  path_indices = membership.path_indices;
  private_key = ctx.private_key;
  sanctions_path = sanctions.path;
  sanctions_path_indices = sanctions.path_indices;
  sanctions_leaf_value = sanctions.leaf_value;
  jurisdiction = credential.jurisdiction;
  jurisdiction_path = ctx.jurisdiction_path;
  jurisdiction_path_indices = ctx.jurisdiction_path_indices;
  credential_expiry = ctx.credential_expiry;
}

-- What the libraries, the service and the clock answer to one call.
pub data InitEnd : Type 0 where
  created : InitEnd
  failed : (made : Bool) → Thrown → InitEnd

pub record ProveAnswers : Type 0 where
  -- `config?.circuitSource` and `config?.issuerServiceUrl`
  pub has_circuit_source : Bool
  pub has_issuer_url : Bool
  -- `Promise.all` of the four requests
  pub fetch_all : Result Thrown (Roots × MembershipProof × SanctionsProof × Credential)
  pub now_secs : ℕ
  pub compute_nullifier : NullifierInputs → Result Thrown Text
  pub load_circuit : Result Thrown (Unit {0})
  pub init_end : InitEnd
  -- `noir.execute` and `backend.generateProof`
  pub execute : List (Text × NoirValue) → Result Thrown Bytes
  pub generate_proof : Bytes → Result Thrown (Bytes × List Text)
  pub destroy_end : Result Thrown (Unit {0})
  pub elapsed : ℕ

-- The prover behind `await this.init()` of a new one.
unfoldable pub prover_after : InitEnd → ProverState
unfolding init do_init_returns do_init_throws
prover_after created = do_init_returns (init new_prover)
prover_after (failed made e) = do_init_throws made (init new_prover)

-- `Prover.generateProof`
unfoldable pub prover_generate_proof :
    ProveAnswers → List (Text × NoirValue) → Result Thrown (Bytes × List Text)
prover_generate_proof env inputs = elim env.init_end [
  | failed made e ↦ err e
  | created ↦ env.execute inputs >>= env.generate_proof
]

-- `finally { await prover.destroy(); }`: its error replaces what the block ended with.
unfoldable pub finally_destroy :
    {A : Type 0} → ProveAnswers → Result Thrown A → ProverState → Result Thrown A × ProverState
unfolding destroy destroy_returns destroy_throws
finally_destroy env outcome p = elim p.handles [
  | none ↦ (outcome, p)
  | some _ ↦ elim env.destroy_end [
    | ok _ ↦ (outcome, destroy_returns (destroy p))
    | err e ↦ (err e, destroy_throws (destroy p))
  ]
]

abbrev pub needs_circuit : Thrown
needs_circuit =
    thrown_error (
      codes
        "prove() requires config.circuitSource (URL, file path, Uint8Array, or CompiledCircuit)")

-- `proveLowLevel`, with the prover that it leaves behind.
unfoldable pub prove_low_level :
    ProveAnswers → ProofInputs → Result Thrown ProofResult × ProverState
unfolding to_noir_inputs prover_after prover_generate_proof finally_destroy
prove_low_level env inputs =
    if not env.has_circuit_source then (err needs_circuit, new_prover) else elim env.load_circuit [
      | err e ↦ (err e, new_prover)
      | ok _ ↦
          finally_destroy env
            (prover_generate_proof env (to_noir_inputs inputs) >>= λ r.
              ok (record { proof = r.0; public_inputs = r.1; duration_ms = env.elapsed }))
            (prover_after env.init_end)
    ]

-- `proveHighLevel`
unfoldable pub prove_high_level :
    ProveAnswers → Text → ProveContext → Result Thrown ProofResult × ProverState
unfolding prove_low_level sdk_nullifier_inputs sdk_inputs
prove_high_level env wallet ctx =
    if not env.has_issuer_url
    then (
      err (thrown_error (codes "prove() high-level overload requires config.issuerServiceUrl")),
      new_prover,
    )
    else if not env.has_circuit_source
    then (
      err (thrown_error (codes "prove() high-level overload requires config.circuitSource")),
      new_prover,
    )
    else elim env.fetch_all [
      | err e ↦ (err e, new_prover)
      | ok (roots, membership, sanctions, credential) ↦
          elim (env.compute_nullifier (sdk_nullifier_inputs ctx)) [
            | err e ↦ (err e, new_prover)
            | ok nullifier ↦
                prove_low_level env (
                  sdk_inputs wallet ctx env.now_secs roots membership sanctions credential
                    nullifier)
          ]
    ]

-- The overloads of `prove`: a first argument that is a string, or the inputs.
pub data ProveCall : Type 0 where
  with_inputs : ProofInputs → ProveCall
  with_wallet : Text → ProveContext → ProveCall

unfoldable pub prove : ProveAnswers → ProveCall → Result Thrown ProofResult × ProverState
unfolding prove_high_level prove_low_level
prove env (with_inputs inputs) = prove_low_level env inputs
prove env (with_wallet wallet ctx) = prove_high_level env wallet ctx
