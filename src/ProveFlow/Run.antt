-- ===== src/ProveFlow/Run.antt =====
-- `runLiveFlow`, `runFlow` and the derived flags of frontend/src/hooks/use-prove-flow.ts.
pub mod Stepwise
pub mod Settles
pub mod Submits
use zksettle.ProveFlow.Steps.{
  run_step_credential, run_demo_flow, step_error_flow, run_step_merkle_paths,
  run_step_proof_generation, run_step_submit, run_step_confirm, handle_credential_error,
  handle_submit_error,
}
use zksettle.Base.{
  ◌∷◌, none, some, [], Option, Bool, last_of, any, true, false, if◌then◌else◌, not, ok,
}
use zksettle.Base.Text.{Text, codes}
use zksettle.ProveFlow.{
  FlowState, Mode, start_flow, step_running, step_success, step_error, live, demo, running, success,
  StepStatus,
}
use zksettle.ProveFlow.Inputs.{Credential, ProofInputs}
use zksettle.ProveFlow.Flow.{
  ◌>>f◌, Answers, StepData, TransferParams, Flow, dispatch, try_catch, ProofResult, then_or, Paths,
  await,
}

-- `runLiveFlow`: each step in its own `try`, whose `catch` returns.
unfoldable pub run_live_flow : Answers → TransferParams → Flow (Unit {0})
unfolding run_step_credential run_step_merkle_paths run_step_proof_generation run_step_submit
    run_step_confirm handle_credential_error step_error_flow handle_submit_error
run_live_flow env params =
    let confirm = λ (signature : Text). try_catch (run_step_confirm env) λ e. elim signature [
      | [] ↦ dispatch (step_success 5 none none)
      | _ ∷ _ ↦ step_error_flow 5 e (codes "Confirmation failed")
    ] in
    let from_submit =
      λ (result : ProofResult). then_or (run_step_submit env result) confirm handle_submit_error in
    let from_proof = λ (credential : Credential) (paths : Paths).
      then_or (run_step_proof_generation env credential paths params) from_submit
        λ e. step_error_flow 3 e (codes "Proof generation failed") in
    let from_paths = λ (credential : Credential).
      then_or (run_step_merkle_paths env) (from_proof credential)
        λ e. step_error_flow 2 e (codes "Failed to fetch Merkle paths") in
    then_or (run_step_credential env) from_paths handle_credential_error

-- The part of `runFlow` behind the connection check.
unfoldable pub connected_flow :
    Answers → ProofInputs → Mode → Option TransferParams → Flow (Unit {0})
unfolding run_demo_flow run_live_flow step_error_flow
connected_flow env proof_fixture demo params =
    try_catch (run_demo_flow env proof_fixture)
      λ e. step_error_flow 3 e (codes "Proof generation failed")
connected_flow env proof_fixture live none = dispatch (step_error 1 (codes "Wallet not resolved."))
connected_flow env proof_fixture live (some params) =
    if not env.can_sign_all
    then dispatch (step_error 1 (codes "Wallet does not support batch transaction signing."))
    else run_live_flow env params

-- `runFlow`, with the mode and, for a live run, the transfer's parameters.
unfoldable pub run_flow : Answers → ProofInputs → Mode → Option TransferParams → Flow (Unit {0})
unfolding connected_flow
run_flow env proof_fixture mode params =
    dispatch (start_flow mode)
    >>f dispatch (step_running 0)
    >>f (if not env.connected
        then dispatch
            (step_error 0 (codes "Wallet not connected. Please connect your wallet first."))
        else dispatch (step_success 0 none none) >>f connected_flow env proof_fixture mode params)

-- `runFlow` under `runningRef`: a second call while one runs does nothing. The flag is reset in
-- `finally`.
unfoldable pub run_flow_guarded :
    Answers → ProofInputs → Mode → Option TransferParams → Bool → Flow (Unit {0}) × Bool
unfolding run_flow
run_flow_guarded env proof_fixture mode params running_ref =
    if running_ref then (await (ok tt), true) else (run_flow env proof_fixture mode params, false)

abbrev pub is_running_status : StepStatus → Bool
is_running_status running = true
is_running_status _ = false

-- `state.steps.some((s) => s.status === "running")`
unfoldable pub is_running : FlowState StepData → Bool
is_running s = any (λ t. is_running_status t.status) s.steps

-- `state.steps.at(-1)?.status === "success"`
unfoldable pub is_done : FlowState StepData → Bool
is_done s = elim (last_of s.steps) [
  | none ↦ false
  | some t ↦ elim t.status [ success ↦ true | _ ↦ false ]
]
