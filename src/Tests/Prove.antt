-- ===== src/Tests/Prove.antt =====
-- Runs of the theorems on `prove`.
use zksettle.Base.{none, ok, err, true, ◌≡◌, ◌↔◌, refl, [], ◌∷◌, replicate, ◌++◌, arith}
use zksettle.Base.Text.{codes}
use zksettle.Base.Bytes.{Bytes, subarray}
use zksettle.ProveFlow.Flow.{thrown_error}
use zksettle.ProveFlow.Inputs.{ProofInputs, assemble_proof_inputs}
use zksettle.ProveFlow.Steps.{transfer_context}
use zksettle.Prove.{ProveContext, ProveAnswers, created, with_wallet, prove, sdk_inputs}
use zksettle.Prove.Limbs.{BindsKeys, IsKey, assemble_proof_inputs-BindsKeys, sdk_inputs-BindsKeys}
use zksettle.Prove.Release.{prove-released, IsClean}
use zksettle.Tests.Flow.{credential_answer, paths_answer, answers, params}
use zksettle.Tests.Nullifier.{big_int, big_int-Laws}

abbrev mint_key : Bytes
mint_key = replicate 16 7 ++ replicate 16 9

abbrev recipient_key : Bytes
recipient_key = replicate 31 200 ++ 1 ∷ []

mint_key-IsKey : IsKey mint_key
mint_key-IsKey = (refl, omega arith)

recipient_key-IsKey : IsKey recipient_key
recipient_key-IsKey = (refl, omega arith)

abbrev context : ProveContext
context = record {
  mint = mint_key;
  recipient = recipient_key;
  amount = 1_000;
  epoch = none;
  private_key = codes "0x2a";
  credential_expiry = codes "1800000000";
  jurisdiction_path = codes "0x01" ∷ [];
  jurisdiction_path_indices = 0 ∷ [];
}

abbrev inputs : ProofInputs
unfolding sdk_inputs
inputs =
    sdk_inputs (codes "0x05") context 1_750_000_000 paths_answer.roots paths_answer.membership
      paths_answer.sanctions credential_answer (codes "0x11")

assemble_proof_inputs-BindsKeys_example :
    BindsKeys big_int
      (assemble_proof_inputs credential_answer paths_answer.membership paths_answer.sanctions
        paths_answer.roots
        (transfer_context answers credential_answer paths_answer params mint_key recipient_key
          (codes "0x11")))
      mint_key
      recipient_key
assemble_proof_inputs-BindsKeys_example =
    assemble_proof_inputs-BindsKeys big_int big_int-Laws answers credential_answer paths_answer
      params mint_key recipient_key (codes "0x11") mint_key-IsKey recipient_key-IsKey

sdk_inputs-BindsKeys_example :
    BindsKeys big_int
      (sdk_inputs
        (codes "0x05")
        context
        1_750_000_000
        paths_answer.roots
        paths_answer.membership
        paths_answer.sanctions
        credential_answer
        (codes "0x11"))
      mint_key
      recipient_key
    ↔ ((subarray mint_key 0 16 ≡ subarray mint_key 16 16)
        × (subarray recipient_key 0 16 ≡ subarray recipient_key 16 16))
sdk_inputs-BindsKeys_example =
    sdk_inputs-BindsKeys big_int big_int-Laws (codes "0x05") context 1_750_000_000
      paths_answer.roots paths_answer.membership paths_answer.sanctions credential_answer
      (codes "0x11") mint_key-IsKey recipient_key-IsKey

-- Everything answers but the solver.
abbrev unsolved : ProveAnswers
unsolved = record {
  has_circuit_source = true;
  has_issuer_url = true;
  fetch_all =
      ok (paths_answer.roots, paths_answer.membership, paths_answer.sanctions, credential_answer);
  now_secs = 1_750_000_000;
  compute_nullifier = λ _. ok (codes "0x11");
  load_circuit = ok tt;
  init_end = created;
  execute = λ _. err (thrown_error (codes "Cannot satisfy constraint"));
  generate_proof = λ witness. ok (witness, []);
  destroy_end = ok tt;
  elapsed = 900;
}

unsolved-IsClean : IsClean unsolved
unsolved-IsClean = (λ e h. cc, λ e h. cc)

prove-released_example : (prove unsolved (with_wallet (codes "0x05") context)).1.alive ≡ []
prove-released_example =
    prove-released unsolved (with_wallet (codes "0x05") context) unsolved-IsClean
