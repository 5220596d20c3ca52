-- ===== src/Tests/Prover.antt =====
-- Runs of the theorem on the prover of sdk/src/prove/prover.ts.
use zksettle.Base.{[], ◌∷◌, ◌≡◌, refl, true, false, List}
use zksettle.Prover.{
  Event, init_called, init_returned, init_threw, destroy_called, destroy_returned, step, run,
  new_prover,
}
use zksettle.Prover.Phases.{IsSingle, run-IsSingle}

-- Two callers share an init that fails, a third one succeeds, and the prover is destroyed and used
-- again.
abbrev retried : List Event
retried =
    init_called
    ∷ init_called
    ∷ init_threw false
    ∷ init_called
    ∷ init_returned
    ∷ destroy_called
    ∷ init_called
    ∷ destroy_returned
    ∷ init_called
    ∷ init_returned
    ∷ []

run-IsSingle_example : IsSingle (run new_prover retried)
unfolding step
run-IsSingle_example = run-IsSingle retried refl

-- With two calls of `destroy` at a time, an instance made in between is lost: it stays alive while
-- the prover holds none.
lost_between_destroys :
    (run new_prover (
      init_called ∷ init_returned ∷ destroy_called ∷ destroy_called ∷ destroy_returned ∷ init_called
      ∷ init_returned ∷ destroy_returned ∷ [])).alive
    ≡ 1 ∷ []
unfolding step
lost_between_destroys = refl

-- When Noir's constructor throws, the instance made before stays alive behind a retry.
lost_in_init :
    (run new_prover (init_called ∷ init_threw true ∷ init_called ∷ init_returned ∷ [])).alive
    ≡ 1 ∷ 0 ∷ []
unfolding step
lost_in_init = refl
