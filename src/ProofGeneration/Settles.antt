-- ===== src/ProofGeneration/Settles.antt =====
-- Every call of `generate` ends, and the hook then shows that nothing is generated.
use zksettle.Base.{
  ℕ, false, List, [], ◌∷◌, Option, none, some, ◌==◌, ◌≡◌, refl, ap, sym, ◌∙◌, map, any, Bool-cases,
  inl, inr, Option-cases, ◌⊎◌,
}
use zksettle.Base.Text.{Text}
use zksettle.ProofGeneration.{
  GenerationState, GenerationEvent, mounted, awaits_init, others, still_waiting, artifact_loaded,
  artifact_failed, run_proved, run_failed, loaded, not_loaded, proved, not_proved, generation_step,
  generation_run,
}
use zksettle.ProofGeneration.Calls.{drained, drained_lem, All-is_in, keep_if_none}
use zksettle.ProofGeneration.Honest.{IsIdle, IsHonest, run-IsHonest}

module _ {Proof : Type 0} where
  -- What is answered to each initialisation in flight, and then to each call that is behind one.
  abbrev pub init_answers : (ℕ → Option Text) → List ℕ → List (GenerationEvent Proof)
  init_answers fails [] = []
  init_answers fails (p ∷ ps) =
      (elim (fails p) [ none ↦ loaded p | some message ↦ not_loaded p message ])
      ∷ init_answers fails ps

  abbrev pub run_answer : Text ⊎ Proof → ℕ → GenerationEvent Proof
  run_answer (inl message) run = not_proved run message
  run_answer (inr proof) run = proved run proof

  abbrev pub run_answers : (ℕ → Text ⊎ Proof) → List ℕ → List (GenerationEvent Proof)
  run_answers result runs = map (λ run. run_answer (result run) run) runs

  artifact_failed-waiting :
      (p : ℕ) (message : Text) (s : GenerationState Proof)
      → (artifact_failed p message s).waiting ≡ still_waiting p s.waiting
  unfolding artifact_failed
  artifact_failed-waiting p message s = elim (Bool-cases (any (awaits_init p) s.waiting)) [
    | inl some_wait ↦ rw some_wait
    | inr none_wait ↦ rw none_wait
  ]

  init_answers-waiting :
      (fails : ℕ → Option Text) (ps : List ℕ) (s : GenerationState Proof)
      → (generation_run s (init_answers fails ps)).waiting ≡ drained (λ w. w.1) ps s.waiting
  unfolding generation_step artifact_loaded
  init_answers-waiting fails [] s = refl
  init_answers-waiting fails (p ∷ ps) s = elim (Option-cases (fails p)) [
    | inl loads ↦ rw loads (init_answers-waiting fails ps (artifact_loaded p s))
    | inr (message, there) ↦ rw there (
        init_answers-waiting fails ps (artifact_failed p message s)
        ∙ ap (drained (λ w. w.1) ps) (artifact_failed-waiting p message s))
  ]

  -- A call that ends leaves the waiting ones, and the calls behind an initialisation but itself.
  run_proved-calls :
      (run : ℕ) (proof : Proof) (s : GenerationState Proof)
      → ((run_proved run proof s).waiting ≡ s.waiting)
        × ((run_proved run proof s).proving ≡ others run s.proving)
  unfolding run_proved
  run_proved-calls run proof s = elim (Bool-cases (any (λ q. q == run) s.proving)) [
    | inl active ↦ rw active (refl, refl)
    | inr gone ↦ rw gone (refl, sym (keep_if_none (λ q. q == run) s.proving gone))
  ]

  run_failed-calls :
      (run : ℕ) (message : Text) (s : GenerationState Proof)
      → ((run_failed run message s).waiting ≡ s.waiting)
        × ((run_failed run message s).proving ≡ others run s.proving)
  unfolding run_failed
  run_failed-calls run message s = elim (Bool-cases (any (λ q. q == run) s.proving)) [
    | inl active ↦ rw active (refl, refl)
    | inr gone ↦ rw gone (refl, sym (keep_if_none (λ q. q == run) s.proving gone))
  ]

  run_answer-calls :
      (answer : Text ⊎ Proof) (run : ℕ) (s : GenerationState Proof)
      → ((generation_step s (run_answer answer run)).waiting ≡ s.waiting)
        × ((generation_step s (run_answer answer run)).proving ≡ others run s.proving)
  unfolding generation_step
  run_answer-calls (inl message) run s = run_failed-calls run message s
  run_answer-calls (inr proof) run s = run_proved-calls run proof s

  run_answers-calls :
      (result : ℕ → Text ⊎ Proof) (runs : List ℕ) (s : GenerationState Proof)
      → ((generation_run s (run_answers result runs)).waiting ≡ s.waiting)
        × ((generation_run s (run_answers result runs)).proving
            ≡ drained (λ run. run) runs s.proving)
  run_answers-calls result [] s = (refl, refl)
  run_answers-calls result (run ∷ runs) s =
      let (w, p) = run_answer-calls (result run) run s in
      let (w', p') =
        run_answers-calls result runs (generation_step s (run_answer (result run) run)) in
      (w' ∙ w, p' ∙ ap (drained (λ run. run) runs) p)

  -- However calls of `generate`, the answers to them and an unmount have come in: when the
  -- initialisations that are in flight are answered, by a circuit or an error each, and then the
  -- calls behind an initialisation, by a proof or an error each, no call is left and the hook does not
  -- show that a proof is generated.
  pub generation_run-settles :
      (es : List (GenerationEvent Proof)) (fails : ℕ → Option Text) (result : ℕ → Text ⊎ Proof)
      → let s = generation_run (mounted {Proof = Proof}) es in
        let loaded_state = generation_run s (init_answers fails s.fetching) in
        let settled = generation_run loaded_state (run_answers result loaded_state.proving) in
        IsIdle settled × (settled.is_generating ≡ false)
  generation_run-settles es fails result =
      let s : GenerationState Proof = generation_run mounted es in
      let honest : IsHonest s = run-IsHonest es mounted (tt, λ p _ there. cc, λ _. refl) in
      let inits = init_answers fails s.fetching in
      let loaded_state : GenerationState Proof = generation_run s inits in
      let runs = run_answers result loaded_state.proving in
      let settled : GenerationState Proof = generation_run loaded_state runs in
      let (w, p) = run_answers-calls result loaded_state.proving loaded_state in
      let idle : IsIdle settled = (
        w
            ∙ init_answers-waiting fails s.fetching s
            ∙ drained_lem (λ w. w.1) s.fetching s.waiting honest.0,
        p
            ∙ drained_lem (λ run. run) loaded_state.proving loaded_state.proving
                (All-is_in loaded_state.proving loaded_state.proving (λ x there. there)),
      ) in
      let settled_honest : IsHonest settled =
        run-IsHonest runs loaded_state (run-IsHonest inits s honest) in
      (idle, settled_honest.2 idle)
