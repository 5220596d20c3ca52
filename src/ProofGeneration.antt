-- ===== src/ProofGeneration.antt =====
-- frontend/src/hooks/use-proof-generation.ts: the hook's refs and its state, with the calls of
-- `generate` that have not ended. `ensureProver` and `generate` are cut at their awaits into the
-- events of `step`, which can come in any order; the witness solver and the prover service only
-- answer. A call and an initialisation are numbers, in the order in which they begin.
pub mod Calls
pub mod Honest
pub mod Settles
use zksettle.Base.{
  ℕ, ◌+◌, Bool, true, false, not, List, [], ◌∷◌, ◌++◌, Option, none, some, ◌==◌, if◌then◌else◌,
  keep, map, any,
}
use zksettle.Base.Text.{Text}

pub record GenerationState (Proof : Type 0) : Type 0 where
  -- `proverRef.current` is set
  pub prover : Bool
  -- `proverInitRef.current`
  pub prover_init : Option ℕ
  -- initialisations that await the circuit
  pub fetching : List ℕ
  -- calls that await an initialisation, and calls behind it
  pub waiting : List (ℕ × ℕ)
  pub proving : List ℕ
  pub next_run : ℕ
  pub next_init : ℕ
  pub proof : Option Proof
  pub is_generating : Bool
  pub error : Option Text

abbrev pub mounted : {Proof : Type 0} → GenerationState Proof
mounted = record {
  prover = false;
  prover_init = none;
  fetching = [];
  waiting = [];
  proving = [];
  next_run = 0;
  next_init = 0;
  proof = none;
  is_generating = false;
  error = none;
}

abbrev pub awaits_init : ℕ → ℕ × ℕ → Bool
awaits_init p w = w.1 == p

abbrev pub others : ℕ → List ℕ → List ℕ
others p ps = keep (λ q. not (q == p)) ps

abbrev pub still_waiting : ℕ → List (ℕ × ℕ) → List (ℕ × ℕ)
still_waiting p ws = keep (λ w. not (awaits_init p w)) ws

module _ {Proof : Type 0} where
  -- `ensureProver` for a call: the handles, the shared promise, or a new initialisation.
  unfoldable pub ensure_prover : ℕ → GenerationState Proof → GenerationState Proof
  ensure_prover run s =
      if s.prover then record s { proving = run ∷ s.proving } else elim s.prover_init [
        | some p ↦ record s { waiting = (run, p) ∷ s.waiting }
        | none ↦ record s {
          prover_init = some s.next_init;
          fetching = s.next_init ∷ s.fetching;
          next_init = s.next_init + 1;
          waiting = (run, s.next_init) ∷ s.waiting;
        }
      ]

  -- `generate` up to its first await.
  unfoldable pub generate : GenerationState Proof → GenerationState Proof
  unfolding ensure_prover
  generate s =
      ensure_prover s.next_run
        (record s { next_run = s.next_run + 1; is_generating = true; error = none; proof = none })

  -- An initialisation has its circuit: its callers go on.
  unfoldable pub artifact_loaded : ℕ → GenerationState Proof → GenerationState Proof
  artifact_loaded p s = record s {
    prover = true;
    fetching = others p s.fetching;
    waiting = still_waiting p s.waiting;
    proving = map (λ w. w.0) (keep (awaits_init p) s.waiting) ++ s.proving;
  }

  -- An initialisation throws: its callers do, too, and each one's `catch` and `finally` run.
  unfoldable pub artifact_failed : ℕ → Text → GenerationState Proof → GenerationState Proof
  artifact_failed p message s =
      let failed : GenerationState Proof = record s {
        prover_init = none;
        fetching = others p s.fetching;
        waiting = still_waiting p s.waiting;
      } in
      if any (awaits_init p) s.waiting
      then record failed { error = some message; is_generating = false }
      else failed

  -- A call behind its initialisation ends.
  unfoldable pub run_proved : ℕ → Proof → GenerationState Proof → GenerationState Proof
  run_proved run proof s =
      if any (λ q. q == run) s.proving
      then record s { proving = others run s.proving; proof = some proof; is_generating = false }
      else s

  unfoldable pub run_failed : ℕ → Text → GenerationState Proof → GenerationState Proof
  run_failed run message s =
      if any (λ q. q == run) s.proving
      then record s { proving = others run s.proving; error = some message; is_generating = false }
      else s

  -- The cleanup of the effect.
  unfoldable pub unmount : GenerationState Proof → GenerationState Proof
  unmount s = record s { prover = false; prover_init = none }

pub data GenerationEvent (Proof : Type 0) : Type 0 where
  generate_called unmounted : GenerationEvent Proof
  loaded : (p : ℕ) → GenerationEvent Proof
  not_loaded : (p : ℕ) (message : Text) → GenerationEvent Proof
  proved : (run : ℕ) (proof : Proof) → GenerationEvent Proof
  not_proved : (run : ℕ) (message : Text) → GenerationEvent Proof

module _ {Proof : Type 0} where
  unfoldable pub generation_step :
      GenerationState Proof → GenerationEvent Proof → GenerationState Proof
  unfolding generate artifact_loaded artifact_failed run_proved run_failed unmount
  generation_step s generate_called = generate s
  generation_step s unmounted = unmount s
  generation_step s (loaded p) = artifact_loaded p s
  generation_step s (not_loaded p message) = artifact_failed p message s
  generation_step s (proved run proof) = run_proved run proof s
  generation_step s (not_proved run message) = run_failed run message s

  abbrev pub generation_run :
      GenerationState Proof → List (GenerationEvent Proof) → GenerationState Proof
  generation_run s [] = s
  generation_run s (e ∷ es) = generation_run (generation_step s e) es
