-- ===== src/ProveFlow/Run/Settles.antt =====
-- Where a run of `runFlow` leaves the page, whatever the wallet, the services and the prover answer.
use zksettle.ProveFlow.Steps.{
  run_demo_flow, handle_credential_error, step_error_flow, error_message, handle_submit_error,
  run_step_confirm,
}
use zksettle.Base.{
  none, some, true, false, inl, inr, refl, ◌≡◌, List, replicate, map, Option, ◌⊎◌, ℕ, Result-cases,
  ◌<◌, ◌∷◌, arith, ◌++◌, ◌-◌, Bool-cases, [], any, Bool, ap, suc, ◌||◌, sym, zero, ◌∙◌,
}
use zksettle.Base.Text.{codes, includes}
use zksettle.ProveFlow.{
  FlowState, StepStatus, Mode, reduce, flow_reducer, live, demo, idle, success, error, start_flow,
  step_running, step_success, StepState,
}
use zksettle.ProveFlow.Inputs.{ProofInputs}
use zksettle.ProveFlow.Flow.{Answers, TransferParams, StepData, Thrown, actions, Actions}
use zksettle.ProveFlow.Run.Stepwise.{
  run_step_credential_cases, run_step_merkle_paths_cases, progress, run_step_proof_generation_cases,
  run_step_submit_cases, credential_payload, merkle_payload, proof_payload,
}
use zksettle.ProveFlow.Run.{
  run_flow, run_live_flow, connected_flow, is_running, handle_credential_error, run_demo_flow,
  step_error_flow, handle_submit_error, run_step_confirm, is_running_status,
}

abbrev pub statuses : FlowState StepData → List StepStatus
statuses s = map (λ t. t.status) s.steps

-- Every step has succeeded, or one has failed behind successful ones and those after it are idle.
abbrev pub IsSettled : FlowState StepData → Type 0
IsSettled s =
    (statuses s ≡ replicate 6 success)
    ⊎ ((n : ℕ) × (n < 6) × (statuses s ≡ replicate n success ++ (error ∷ replicate (5 - n) idle)))

credential_failed :
    (thrown : Thrown) (s : FlowState StepData)
    → IsSettled (
        reduce s (
          actions (
            handle_credential_error thrown
              (start_flow live ∷ step_running 0 ∷ step_success 0 none none ∷ step_running 1 ∷ []))))
unfolding flow_reducer handle_credential_error step_error_flow
credential_failed thrown s =
    elim (Bool-cases
      (includes (error_message thrown (codes "Failed to fetch credential")) (codes "404"))) [
        | inl missing ↦ rw missing (inr (1, omega arith, refl))
        | inr other ↦ rw other (inr (1, omega arith, refl))
      ]

run_flow_demo :
    (env : Answers) (fixture : ProofInputs) (params : Option TransferParams)
    (s : FlowState StepData)
    → env.connected ≡ true
    → IsSettled (reduce s (actions (run_flow env fixture demo params [])))
unfolding run_flow connected_flow run_demo_flow step_error_flow flow_reducer
run_flow_demo env fixture params s on = elim (Result-cases (env.generate fixture)) [
  | inl (result, e) ↦ rw (on, run_demo_flow, e) (inl refl)
  | inr (thrown, e) ↦ rw (on, run_demo_flow, e) (inr (3, omega arith, refl))
]

-- The actions of `runFlow` before the live flow.
abbrev pub started : Actions
started = start_flow live ∷ step_running 0 ∷ step_success 0 none none ∷ []

run_live_flow-settles :
    (env : Answers) (params : TransferParams) (s : FlowState StepData)
    → IsSettled (reduce s (actions (run_live_flow env params started)))
unfolding run_live_flow handle_credential_error step_error_flow flow_reducer handle_submit_error
    run_step_confirm
run_live_flow-settles env params s = elim (run_step_credential_cases env started) [
  | inr (thrown, e1) ↦ rw e1 (credential_failed thrown s)
  | inl (credential, t1, e1) ↦
      elim (run_step_merkle_paths_cases env
        (progress 1 (credential_payload credential) t1 started)) [
          | inr (thrown, e2) ↦ rw (e1, e2) (inr (2, omega arith, refl))
          | inl (paths, t2, e2) ↦
              elim (run_step_proof_generation_cases env credential paths params (
                progress 2 (merkle_payload paths) t2
                  (progress 1 (credential_payload credential) t1 started))) [
                    | inr (thrown, e3) ↦ rw (e1, e2, e3) (inr (3, omega arith, refl))
                    | inl (result, t3, e3) ↦
                        elim (run_step_submit_cases env result (
                          progress 3 (proof_payload result) t3 (
                            progress 2 (merkle_payload paths) t2
                              (progress 1 (credential_payload credential) t1 started)))) [
                                | inr (thrown, e4) ↦
                                    rw (e1, e2, e3, e4) (inr (4, omega arith, refl))
                                | inl (signature, p4, t4, e4) ↦ rw (e1, e2, e3, e4) (inl refl)
                              ]
                  ]
        ]
]

run_flow-live :
    (env : Answers) (fixture : ProofInputs) (params : Option TransferParams)
    (s : FlowState StepData)
    → env.connected ≡ true
    → IsSettled (reduce s (actions (run_flow env fixture live params [])))
unfolding run_flow connected_flow flow_reducer
run_flow-live env fixture none s on = rw on (inr (1, omega arith, refl))
run_flow-live env fixture (some params) s on = elim (Bool-cases env.can_sign_all) [
  | inl can ↦ rw (on, connected_flow, can) (run_live_flow-settles env params s)
  | inr cannot ↦ rw (on, connected_flow, cannot) (inr (1, omega arith, refl))
]

-- Whatever the wallet, the services, the prover and the network answer, and whatever the page showed
-- before: when a run of `runFlow` has ended, either all six steps have succeeded, or exactly one has
-- failed, every step before it has succeeded and every step after it is idle.
pub run_flow-settles :
    (env : Answers) (fixture : ProofInputs) (mode : Mode) (params : Option TransferParams)
    (s : FlowState StepData)
    → IsSettled (reduce s (actions (run_flow env fixture mode params [])))
unfolding run_flow flow_reducer
run_flow-settles env fixture demo params s = elim (Bool-cases env.connected) [
  | inr off ↦ rw off (inr (0, omega arith, refl))
  | inl on ↦ run_flow_demo env fixture params s on
]
run_flow-settles env fixture live params s = elim (Bool-cases env.connected) [
  | inr off ↦ rw off (inr (0, omega arith, refl))
  | inl on ↦ run_flow-live env fixture params s on
]

any-map :
    {A B : Type 0} (p : B → Bool) (f : A → B) (xs : List A)
    → any p (map f xs) ≡ any (λ x. p (f x)) xs
any-map p f [] = refl
any-map p f (x ∷ xs) = ap (λ b. p (f x) || b) (any-map p f xs)

idle_rest : (m : ℕ) → any is_running_status (replicate m idle) ≡ false
idle_rest zero = refl
idle_rest (suc m) = idle_rest m

none_running :
    (n m : ℕ) → any is_running_status (replicate n success ++ (error ∷ replicate m idle)) ≡ false
none_running zero m = idle_rest m
none_running (suc n) m = none_running n m

IsSettled-is_running : (s : FlowState StepData) → IsSettled s → is_running s ≡ false
unfolding is_running
IsSettled-is_running s settled =
    let by_statuses = any-map is_running_status (λ (t : StepState StepData). t.status) s.steps in
    elim settled [
      | inl done ↦ sym by_statuses ∙ ap (any is_running_status) done
      | inr (n, _, failed) ↦
          sym by_statuses ∙ ap (any is_running_status) failed ∙ none_running n (5 - n)
    ]

-- When a run has ended no step of the page is running, so that the page can start another one.
pub run_flow-is_running :
    (env : Answers) (fixture : ProofInputs) (mode : Mode) (params : Option TransferParams)
    (s : FlowState StepData)
    → is_running (reduce s (actions (run_flow env fixture mode params []))) ≡ false
run_flow-is_running env fixture mode params s =
    IsSettled-is_running _ (run_flow-settles env fixture mode params s)
