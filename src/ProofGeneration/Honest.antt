-- ===== src/ProofGeneration/Honest.antt =====
-- What holds of the hook's refs and state at any time.
use zksettle.Base.{
  ℕ, true, false, List, [], ◌∷◌, some, ◌==◌, ◌≡◌, refl, ◌∙◌, subst, any, All, All-imp, Bool-cases,
  inl, inr, Option-cases,
}
use zksettle.Base.Text.{Text}
use zksettle.Base.Maybe.{some_inj}
use zksettle.ProofGeneration.{
  GenerationState, GenerationEvent, awaits_init, ensure_prover, generate, others, still_waiting,
  artifact_loaded, artifact_failed, run_proved, run_failed, unmount, generate_called, unmounted,
  loaded, not_loaded, proved, not_proved, generation_step, generation_run,
}
use zksettle.ProofGeneration.Calls.{
  is_in, is_in-cons, is_in-head, is_in-others, All-keep_other, none_kept, none_left,
}

-- Every call that waits, waits for an initialisation that is in flight.
abbrev pub AreServed : List ℕ → List (ℕ × ℕ) → Type 0
AreServed fetching waiting = All (λ w. is_in fetching w.1 ≡ true) waiting

abbrev pub IsIdle : {Proof : Type 0} → GenerationState Proof → Type 0
IsIdle s = (s.waiting ≡ []) × (s.proving ≡ [])

-- A shared promise without handles is in flight.
abbrev pub IsShared : {Proof : Type 0} → GenerationState Proof → Type 0
IsShared s = (p : ℕ) → s.prover ≡ false → s.prover_init ≡ some p → is_in s.fetching p ≡ true

abbrev pub IsHonest : {Proof : Type 0} → GenerationState Proof → Type 0
IsHonest s = AreServed s.fetching s.waiting × IsShared s × (IsIdle s → s.is_generating ≡ false)

still-AreServed :
    (p : ℕ) (fetching : List ℕ) (waiting : List (ℕ × ℕ))
    → AreServed fetching waiting
    → AreServed (others p fetching) (still_waiting p waiting)
still-AreServed p fetching waiting =
    All-keep_other (λ w. w.1) p (λ w. is_in fetching w.1 ≡ true)
      (λ w. is_in (others p fetching) w.1 ≡ true) waiting
      (λ w other there. is_in-others p w.1 fetching other ∙ there)

module _ {Proof : Type 0} where
  ensure_prover-IsHonest :
      (run : ℕ) (s : GenerationState Proof)
      → AreServed s.fetching s.waiting
      → IsShared s
      → IsHonest (ensure_prover run s)
  unfolding ensure_prover
  ensure_prover-IsHonest run s served shared = elim (Bool-cases s.prover) [
    | inl ready ↦ rw ready (served, λ p unready there. cc, λ idle. cc (idle.1))
    | inr unready ↦ elim (Option-cases s.prover_init) [
      | inl absent ↦
          rw (unready, absent)
            (
              (
                is_in-head s.next_init s.fetching,
                All-imp (λ w there. is_in-cons s.next_init w.1 s.fetching there) s.waiting served,
              ),
              λ p _ there.
                  subst (λ q. is_in (s.next_init ∷ s.fetching) q ≡ true) (some_inj there)
                    (is_in-head s.next_init s.fetching),
              λ idle. cc (idle.0),
            )
      | inr (p, there) ↦
          rw (unready, there)
            ((shared p unready there, served), λ q _ e. shared q unready e, λ idle. cc (idle.0))
    ]
  ]

  artifact_loaded-IsHonest :
      (p : ℕ) (s : GenerationState Proof) → IsHonest s → IsHonest (artifact_loaded p s)
  unfolding artifact_loaded
  artifact_loaded-IsHonest p s (served, shared, quiet) = (
    still-AreServed p s.fetching s.waiting served,
    λ q unready there. cc,
    λ idle. quiet (none_kept (awaits_init p) (λ w. w.0) s.waiting s.proving idle.0 idle.1),
  )

  artifact_failed-IsHonest :
      (p : ℕ) (message : Text) (s : GenerationState Proof)
      → IsHonest s
      → IsHonest (artifact_failed p message s)
  unfolding artifact_failed
  artifact_failed-IsHonest p message s (served, shared, quiet) =
      elim (Bool-cases (any (awaits_init p) s.waiting)) [
        | inl some_wait ↦
            rw some_wait
              (still-AreServed p s.fetching s.waiting served, λ q unready there. cc, λ idle. refl)
        | inr none_wait ↦ rw none_wait (
          still-AreServed p s.fetching s.waiting served,
          λ q unready there. cc,
          λ idle. quiet (none_left (awaits_init p) s.waiting none_wait idle.0, idle.1),
        )
      ]

  run_proved-IsHonest :
      (run : ℕ) (proof : Proof) (s : GenerationState Proof)
      → IsHonest s
      → IsHonest (run_proved run proof s)
  unfolding run_proved
  run_proved-IsHonest run proof s (served, shared, quiet) =
      elim (Bool-cases (any (λ q. q == run) s.proving)) [
        | inl active ↦ rw active (served, shared, λ idle. refl)
        | inr gone ↦ rw gone (served, shared, quiet)
      ]

  run_failed-IsHonest :
      (run : ℕ) (message : Text) (s : GenerationState Proof)
      → IsHonest s
      → IsHonest (run_failed run message s)
  unfolding run_failed
  run_failed-IsHonest run message s (served, shared, quiet) =
      elim (Bool-cases (any (λ q. q == run) s.proving)) [
        | inl active ↦ rw active (served, shared, λ idle. refl)
        | inr gone ↦ rw gone (served, shared, quiet)
      ]

  step-IsHonest :
      (e : GenerationEvent Proof) (s : GenerationState Proof)
      → IsHonest s
      → IsHonest (generation_step s e)
  unfolding generation_step generate unmount
  step-IsHonest generate_called s (served, shared, quiet) =
      ensure_prover-IsHonest s.next_run _ served shared
  step-IsHonest unmounted s (served, shared, quiet) = (served, λ p unready there. cc, quiet)
  step-IsHonest (loaded p) s h = artifact_loaded-IsHonest p s h
  step-IsHonest (not_loaded p message) s h = artifact_failed-IsHonest p message s h
  step-IsHonest (proved run proof) s h = run_proved-IsHonest run proof s h
  step-IsHonest (not_proved run message) s h = run_failed-IsHonest run message s h

  pub run-IsHonest :
      (es : List (GenerationEvent Proof)) (s : GenerationState Proof)
      → IsHonest s
      → IsHonest (generation_run s es)
  run-IsHonest [] s h = h
  run-IsHonest (e ∷ es) s h = run-IsHonest es (generation_step s e) (step-IsHonest e s h)
