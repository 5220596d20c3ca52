-- ===== src/ProveFlow/Run/Stepwise.antt =====
-- Each step runner of frontend/src/hooks/use-prove-flow.ts dispatches that its step runs, and then
-- either that it succeeded, or throws.
use zksettle.Base.Text.{Text}
use zksettle.Base.{take, length}
use zksettle.ProveFlow.Flow.{credential_data, merkle_data, proof_data}
use zksettle.ProveFlow.Steps.{format_proof_preview}
use zksettle.ProveFlow.Inputs.{Credential, assemble_proof_inputs}
use zksettle.Base.{some, inl, inr, ok, err, refl, ℕ, ◌++◌, ◌≡◌, Result-cases, ◌∷◌, ◌⊎◌, []}
use zksettle.ProveFlow.{step_running, step_success, set_tx, Text}
use zksettle.ProveFlow.Flow.{
  Answers, TransferParams, StepData, Flow, ran, Actions, ProofResult, Paths, Thrown,
}
use zksettle.ProveFlow.Steps.{
  run_step_credential, run_step_submit, check_credential, run_step_proof_generation,
  run_step_merkle_paths, nullifier_inputs, transfer_context,
}

-- The `data` of the steps that succeed.
abbrev pub credential_payload : Credential → StepData
credential_payload credential = credential_data credential.jurisdiction

abbrev pub merkle_payload : Paths → StepData
merkle_payload paths = merkle_data (take 16 paths.roots.membership_root)

abbrev pub proof_payload : ProofResult → StepData
proof_payload result =
    proof_data result (format_proof_preview result.proof) (some (length result.proof))
      (length result.public_inputs)

-- The actions of a step that succeeds.
abbrev pub progress : ℕ → StepData → ℕ → Actions → Actions
progress n payload ms acc =
    (acc ++ step_running n ∷ []) ++ step_success n (some payload) (some ms) ∷ []

abbrev pub IsStepwise : {A : Type 0} → ℕ → (A → StepData) → Flow A → Actions → Type 0
IsStepwise {A} n payload m acc =
    ((a : A) × (ms : ℕ) × (m acc ≡ ran (progress n (payload a) ms acc) (ok a)))
    ⊎ ((e : Thrown) × (m acc ≡ ran (acc ++ step_running n ∷ []) (err e)))

pub run_step_credential_cases :
    (env : Answers) (acc : Actions) → IsStepwise 1 credential_payload (run_step_credential env) acc
unfolding run_step_credential
run_step_credential_cases env acc = elim (Result-cases env.get_credential) [
  | inr (thrown, e) ↦ rw e (inr (thrown, refl))
  | inl (fetched, e) ↦ elim (Result-cases (check_credential env.now_secs fetched)) [
    | inr (thrown, k) ↦ rw (e, k) (inr (thrown, refl))
    | inl (credential, k) ↦ rw (e, k) (inl (credential, _, refl))
  ]
]

pub run_step_merkle_paths_cases :
    (env : Answers) (acc : Actions) → IsStepwise 2 merkle_payload (run_step_merkle_paths env) acc
unfolding run_step_merkle_paths
run_step_merkle_paths_cases env acc = elim (Result-cases env.get_paths) [
  | inr (thrown, e) ↦ rw e (inr (thrown, refl))
  | inl (paths, e) ↦ rw e (inl (paths, _, refl))
]

pub run_step_proof_generation_cases :
    (env : Answers) (credential : Credential) (paths : Paths) (params : TransferParams)
    (acc : Actions)
    → IsStepwise 3 proof_payload (run_step_proof_generation env credential paths params) acc
unfolding run_step_proof_generation
run_step_proof_generation_cases env credential paths params acc =
    elim (Result-cases (env.pubkey_bytes params.mint)) [
      | inr (thrown, e1) ↦ rw e1 (inr (thrown, refl))
      | inl (mint, e1) ↦ elim (Result-cases (env.pubkey_bytes params.recipient)) [
        | inr (thrown, e2) ↦ rw (e1, e2) (inr (thrown, refl))
        | inl (recipient, e2) ↦
            elim (Result-cases
              (env.compute_nullifier (nullifier_inputs env paths params mint recipient))) [
                | inr (thrown, e3) ↦ rw (e1, e2, e3) (inr (thrown, refl))
                | inl (nullifier, e3) ↦
                    elim (Result-cases (
                      env.generate (
                        assemble_proof_inputs credential paths.membership paths.sanctions
                          paths.roots
                          (transfer_context env credential paths params mint recipient
                            nullifier)))) [
                              | inr (thrown, e4) ↦ rw (e1, e2, e3, e4) (inr (thrown, refl))
                              | inl (result, e4) ↦ rw (e1, e2, e3, e4) (inl (result, _, refl))
                            ]
              ]
      ]
    ]

pub run_step_submit_cases :
    (env : Answers) (result : ProofResult) (acc : Actions)
    → ((signature : Text) × (payload : StepData) × (ms : ℕ) × (run_step_submit env result acc
          ≡ ran
              (((acc ++ step_running 4 ∷ []) ++ set_tx signature ∷ [])
                ++ step_success 4 (some payload) (some ms) ∷ [])
              (ok signature)))
      ⊎ ((e : Thrown) × (run_step_submit env result acc ≡ ran (acc ++ step_running 4 ∷ []) (err e)))
unfolding run_step_submit
run_step_submit_cases env result acc = elim (Result-cases (env.submit result)) [
  | inr (thrown, e) ↦ rw e (inr (thrown, refl))
  | inl (signature, e) ↦ rw e (inl (signature, _, _, refl))
]
