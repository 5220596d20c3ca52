-- ===== src/ProveFlow/Run/Submits.antt =====
-- `runLiveFlow` with the submission of `runStepSubmit` (frontend/src/hooks/use-prove-flow.ts): what a
-- page that shows a finished live run says of the transactions sent.
use zksettle.Base.{
  none, some, false, inl, inr, refl, ◌≡◌, Option, ◌⊎◌, Result-cases, ◌∷◌, Bool-cases, [], ok, ◌++◌,
}
use zksettle.Base.Text.{Text, codes, includes}
use zksettle.Upload.Program.{FinalizeArgs}
use zksettle.ProveFlow.{FlowState, reduce, flow_reducer, live, step_running}
use zksettle.ProveFlow.Inputs.{ProofInputs}
use zksettle.ProveFlow.Flow.{
  Answers, ProofResult, TransferParams, StepData, Thrown, actions, proof_data,
}
use zksettle.ProveFlow.Steps.{
  handle_credential_error, step_error_flow, error_message, handle_submit_error, run_step_confirm,
  run_step_submit,
}
use zksettle.ProveFlow.Run.{run_flow, run_live_flow, connected_flow, is_done}
use zksettle.ProveFlow.Run.Stepwise.{
  progress, run_step_credential_cases, run_step_merkle_paths_cases, run_step_proof_generation_cases,
  credential_payload, merkle_payload,
}
use zksettle.ProveFlow.Run.Settles.{started}
use zksettle.ProveFlow.Submit.Sequence.{SubmitAnswers, submit, outcome, sent_txs}
use zksettle.ProveFlow.Submit.Sequence.Whole.{whole}
use zksettle.ProveFlow.Submit.Sequence.InOrder.{submit-IsInOrder, IsInOrder-sent_txs}

-- The proof that a step shows.
abbrev pub result_of : Option StepData → Option ProofResult
result_of (some (proof_data result _ _ _)) = some result
result_of _ = none

abbrev pub shown_proof : FlowState StepData → Option ProofResult
shown_proof s = elim s.steps [
  | _ ∷ _ ∷ _ ∷ proof_step ∷ _ ↦ result_of proof_step.payload
  | _ ↦ none
]

module _ {Key : Type 0} (env : Answers) (sub : SubmitAnswers)
    (args : ProofResult → FinalizeArgs Key) where
  -- The answers of a run whose submit step is the submission; `args` are the arguments that it builds
  -- for finalize.
  abbrev pub submitting : Answers
  submitting = record env { submit = λ result. outcome (submit sub result.proof (args result)) }

  -- The proof shown has been uploaded by all its transactions, and the signature shown is the one
  -- the submission returned.
  abbrev pub HasSubmitted : FlowState StepData → Type 0
  HasSubmitted s =
      (result : ProofResult) × (signature : Text) × (shown_proof s ≡ some result)
      × (s.tx_signature ≡ some signature)
      × (outcome (submit sub result.proof (args result)) ≡ ok signature)
      × (sent_txs (submit sub result.proof (args result)) ≡ whole sub result.proof (args result))

  credential_not_done :
      (thrown : Thrown) (s : FlowState StepData)
      → is_done
          (reduce s (actions (handle_credential_error thrown (started ++ step_running 1 ∷ []))))
        ≡ false
  unfolding flow_reducer handle_credential_error step_error_flow is_done
  credential_not_done thrown s =
      elim (Bool-cases
        (includes (error_message thrown (codes "Failed to fetch credential")) (codes "404"))) [
          | inl missing ↦ rw missing refl
          | inr other ↦ rw other refl
        ]

  run_live_flow-submits :
      (params : TransferParams) (s : FlowState StepData)
      → (is_done (reduce s (actions (run_live_flow submitting params started))) ≡ false)
        ⊎ HasSubmitted (reduce s (actions (run_live_flow submitting params started)))
  unfolding run_live_flow step_error_flow flow_reducer handle_submit_error run_step_confirm is_done
      run_step_submit
  run_live_flow-submits params s = elim (run_step_credential_cases submitting started) [
    | inr (thrown, e1) ↦ inl (rw e1 (credential_not_done thrown s))
    | inl (credential, t1, e1) ↦
        let acc1 = progress 1 (credential_payload credential) t1 started in
        elim (run_step_merkle_paths_cases submitting acc1) [
          | inr (thrown, e2) ↦ rw (e1, e2) (inl refl)
          | inl (paths, t2, e2) ↦
              let acc2 = progress 2 (merkle_payload paths) t2 acc1 in
              elim (run_step_proof_generation_cases submitting credential paths params acc2) [
                | inr (thrown, e3) ↦ rw (e1, e2, e3) (inl refl)
                | inl (result, t3, e3) ↦ elim (Result-cases (submitting.submit result)) [
                  | inr (thrown, e4) ↦ rw (e1, e2, e3, e4) (inl refl)
                  | inl (signature, e4) ↦
                      rw (e1, e2, e3, e4)
                        (inr (
                          result,
                          signature,
                          refl,
                          refl,
                          e4,
                          IsInOrder-sent_txs (submit sub result.proof (args result))
                              (submit-IsInOrder sub result.proof (args result)) e4,
                        ))
                ]
              ]
        ]
  ]

  -- Whatever the page showed before and whatever the wallet, the services, the prover and the network
  -- answer: when a live run has ended and the page shows it as done, then the page shows the proof and
  -- the signature of a submission that has returned, and that has sent the registration and the closing
  -- that were due, every transaction of the upload of this proof in order, the last of them again as
  -- often as the rebroadcast loop does, and nothing else.
  pub run_flow-submits :
      (fixture : ProofInputs) (params : Option TransferParams) (s : FlowState StepData)
      → (is_done (reduce s (actions (run_flow submitting fixture live params []))) ≡ false)
        ⊎ HasSubmitted (reduce s (actions (run_flow submitting fixture live params [])))
  unfolding run_flow connected_flow flow_reducer is_done
  run_flow-submits fixture none s = elim (Bool-cases env.connected) [
    | inr off ↦ rw off (inl refl)
    | inl on ↦ rw on (inl refl)
  ]
  run_flow-submits fixture (some params) s = elim (Bool-cases env.connected) [
    | inr off ↦ rw off (inl refl)
    | inl on ↦ elim (Bool-cases env.can_sign_all) [
      | inr cannot ↦ rw (on, connected_flow, cannot) (inl refl)
      | inl can ↦ rw (on, connected_flow, can) (run_live_flow-submits params s)
    ]
  ]
