-- ===== src/Prove/Release.antt =====
-- What `prove` of sdk/src/prove/index.ts leaves behind: the memory of the proving backend.
use zksettle.Base.{err, true, false, inl, inr, ◌≡◌, refl, Result, Bool-cases, Result-cases, [], ◌≢◌}
use zksettle.ProveFlow.Flow.{Thrown}
use zksettle.ProveFlow.Inputs.{ProofInputs}
use zksettle.Prover.{init, do_init_returns, do_init_throws, destroy, destroy_returns}
use zksettle.Prove.{
  ProveAnswers, InitEnd, created, failed, ProveCall, with_inputs, with_wallet, prove,
  prove_low_level, prove_high_level, finally_destroy, init, do_init_returns, do_init_throws,
  destroy, destroy_returns, sdk_nullifier_inputs, prover_after,
}

-- `doInit` does not throw behind the creation of the instance, and `api.destroy` does not throw.
abbrev pub IsClean : ProveAnswers → Type 0
IsClean env =
    ((e : Thrown) → env.init_end ≢ failed true e) × ((e : Thrown) → env.destroy_end ≢ err e)

-- A prover that holds one instance, or none, and is destroyed.
finally_destroy-released :
    {A : Type 0} (env : ProveAnswers) (outcome : Result Thrown A) (end : InitEnd)
    → ((e : Thrown) → end ≢ failed true e)
    → ((e : Thrown) → env.destroy_end ≢ err e)
    → (finally_destroy env outcome (prover_after end)).1.alive ≡ []
unfolding prover_after finally_destroy init do_init_returns do_init_throws destroy destroy_returns
finally_destroy-released env outcome created _ destroys = elim (Result-cases env.destroy_end) [
  | inl (u, e) ↦ rw e refl
  | inr (thrown, e) ↦ absurd (destroys thrown e)
]
finally_destroy-released env outcome (failed true e) inits _ = absurd (inits e refl)
finally_destroy-released env outcome (failed false e) _ _ = refl

prove_low_level-released :
    (env : ProveAnswers) (inputs : ProofInputs)
    → IsClean env
    → (prove_low_level env inputs).1.alive ≡ []
unfolding prove_low_level
prove_low_level-released env inputs (inits, destroys) = elim (Bool-cases env.has_circuit_source) [
  | inr missing ↦ rw missing refl
  | inl present ↦ elim (Result-cases env.load_circuit) [
    | inr (thrown, e) ↦ rw (present, e) refl
    | inl (u, e) ↦ rw (present, e) (finally_destroy-released env _ env.init_end inits destroys)
  ]
]

-- Whether `prove` returns a proof or throws at any point, it leaves no instance of the proving backend
-- alive, as long as `doInit` does not throw behind the creation of its instance and `api.destroy` does
-- not throw.
pub prove-released :
    (env : ProveAnswers) (call : ProveCall) → IsClean env → (prove env call).1.alive ≡ []
unfolding prove prove_high_level
prove-released env (with_inputs inputs) clean = prove_low_level-released env inputs clean
prove-released env (with_wallet wallet ctx) clean = elim (Bool-cases env.has_issuer_url) [
  | inr missing ↦ rw missing refl
  | inl url ↦ elim (Bool-cases env.has_circuit_source) [
    | inr missing ↦ rw (url, missing) refl
    | inl present ↦ elim (Result-cases env.fetch_all) [
      | inr (thrown, e) ↦ rw (url, present, e) refl
      | inl ((roots, membership, sanctions, credential), e) ↦
          elim (Result-cases (env.compute_nullifier (sdk_nullifier_inputs ctx))) [
            | inr (thrown, k) ↦ rw (url, present, e, k) refl
            | inl (nullifier, k) ↦ rw (url, present, e, k) (prove_low_level-released env _ clean)
          ]
    ]
  ]
]
