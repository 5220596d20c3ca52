-- ===== src/Tests/ProofGeneration.antt =====
-- Runs of the theorems on the proof generation.
use zksettle.Base.{ℕ, List, ◌≡◌, refl, none, [], ◌∷◌, inr, false}
use zksettle.Base.Text.{codes}
use zksettle.ProofGeneration.{
  GenerationState, GenerationEvent, mounted, generate_called, loaded, not_loaded, proved,
  generation_run, generation_step, ensure_prover, generate, artifact_loaded, run_proved,
}
use zksettle.ProofGeneration.Honest.{IsIdle}
use zksettle.ProofGeneration.Settles.{init_answers, run_answers, generation_run-settles}

-- Two calls share an initialisation that fails, and a third one starts another.
abbrev events : List (GenerationEvent ℕ)
events = generate_called ∷ generate_called ∷ not_loaded 0 (codes "offline") ∷ generate_called ∷ []

abbrev before : GenerationState ℕ
before = generation_run mounted events

abbrev with_circuit : GenerationState ℕ
with_circuit = generation_run before (init_answers (λ p. none) before.fetching)

abbrev after : GenerationState ℕ
after = generation_run with_circuit (run_answers (λ run. inr 7) with_circuit.proving)

generation_run-settles_example : IsIdle after × (after.is_generating ≡ false)
generation_run-settles_example = generation_run-settles events (λ p. none) (λ run. inr 7)

shared_test : before.fetching ≡ 1 ∷ []
unfolding generation_step ensure_prover generate
shared_test = refl

-- Of two calls at a time, the one that ends first clears the flag while the other is running.
overlap_test :
    (generation_run {Proof = ℕ} mounted
      (generate_called ∷ generate_called ∷ loaded 0 ∷ proved 0 7 ∷ [])).is_generating
    ≡ false
unfolding generation_step ensure_prover generate artifact_loaded run_proved
overlap_test = refl
