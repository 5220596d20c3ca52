-- ===== src/Prover/Phases.antt =====
-- The prover of sdk/src/prove/prover.ts as a machine of four phases, which never holds two instances.
use zksettle.Base.{
  none, some, true, false, Option, ℕ, Bool, List, if◌then◌else◌, ◌∷◌, [], ◌≡◌, refl, ◌⊎◌, inl, inr,
  ◌+◌, ==_refl, Bool-cases, subst, sym,
}
use zksettle.Prover.{
  ProverState, new_prover, init, do_init_returns, do_init_throws, destroy, destroy_returns,
  destroy_throws, Event, init_called, init_returned, init_threw, destroy_called, destroy_returned,
  destroy_threw, step, run,
}

pub data Phase : Type 0 where
  empty loading : Phase
  ready closing : (instance_id : ℕ) → Phase

-- The prover in a phase, after `n` instances.
abbrev pub state_of : Phase → ℕ → ProverState
state_of empty n = record new_prover { created = n }
state_of loading n = record new_prover { init_promise = true; initialising = 1; created = n }
state_of (ready h) n = record new_prover {
  handles = some h;
  init_promise = true;
  alive = h ∷ [];
  created = n;
}
state_of (closing h) n = record new_prover {
  handles = some h;
  init_promise = true;
  destroying = h ∷ [];
  alive = h ∷ [];
  created = n;
}

-- `destroy` is not called while another call of it is awaited, and `doInit` does not throw behind
-- the creation of the instance.
abbrev pub is_orderly : ProverState → Event → Bool
is_orderly s (init_threw made) = if made then false else true
is_orderly s destroy_called = elim s.destroying [ [] ↦ true | _ ∷ _ ↦ false ]
is_orderly s _ = true

abbrev pub are_orderly : ProverState → List Event → Bool
are_orderly s [] = true
are_orderly s (e ∷ rest) = if is_orderly s e then are_orderly (step s e) rest else false

abbrev pub IsPhased : ProverState → Type 0
IsPhased s = (phase : Phase) × (n : ℕ) × (s ≡ state_of phase n)

-- An orderly event leads from a phase to a phase.
step-IsPhased :
    (phase : Phase) (n : ℕ) (e : Event)
    → is_orderly (state_of phase n) e ≡ true
    → IsPhased (step (state_of phase n) e)
unfolding step init do_init_returns do_init_throws destroy destroy_returns destroy_throws
step-IsPhased empty n init_called h = (loading, n, refl)
step-IsPhased empty n init_returned h = (empty, n, refl)
step-IsPhased empty n (init_threw made) h = (empty, n, refl)
step-IsPhased empty n destroy_called h = (empty, n, refl)
step-IsPhased empty n destroy_returned h = (empty, n, refl)
step-IsPhased empty n destroy_threw h = (empty, n, refl)
step-IsPhased loading n init_called h = (loading, n, refl)
step-IsPhased loading n init_returned h = (ready n, n + 1, refl)
step-IsPhased loading n (init_threw false) h = (empty, n, refl)
step-IsPhased loading n (init_threw true) h = cc
step-IsPhased loading n destroy_called h = (loading, n, refl)
step-IsPhased loading n destroy_returned h = (loading, n, refl)
step-IsPhased loading n destroy_threw h = (loading, n, refl)
step-IsPhased (ready k) n init_called h = (ready k, n, refl)
step-IsPhased (ready k) n init_returned h = (ready k, n, refl)
step-IsPhased (ready k) n (init_threw made) h = (ready k, n, refl)
step-IsPhased (ready k) n destroy_called h = (closing k, n, refl)
step-IsPhased (ready k) n destroy_returned h = (ready k, n, refl)
step-IsPhased (ready k) n destroy_threw h = (ready k, n, refl)
step-IsPhased (closing k) n init_called h = (closing k, n, refl)
step-IsPhased (closing k) n init_returned h = (closing k, n, refl)
step-IsPhased (closing k) n (init_threw made) h = (closing k, n, refl)
step-IsPhased (closing k) n destroy_called h = cc
step-IsPhased (closing k) n destroy_returned h = (empty, n, rw (==_refl k) refl)
step-IsPhased (closing k) n destroy_threw h = (ready k, n, refl)

run-IsPhased :
    (events : List Event) (phase : Phase) (n : ℕ)
    → are_orderly (state_of phase n) events ≡ true
    → IsPhased (run (state_of phase n) events)
unfolding step
run-IsPhased [] phase n h = (phase, n, refl)
run-IsPhased (e ∷ rest) phase n h = elim (Bool-cases (is_orderly (state_of phase n) e)) [
  | inr off ↦ cc (rw off at h)
  | inl on ↦
      let (phase', n', reached) = step-IsPhased phase n e on in
      let rest_orderly : are_orderly (step (state_of phase n) e) rest ≡ true = rw on at h in
      subst (λ s. IsPhased (run s rest)) (sym reached)
        (run-IsPhased rest phase' n' (subst (λ s. are_orderly s rest ≡ true) reached rest_orderly))
]

-- The instances of the handles.
abbrev pub held : Option ℕ → List ℕ
held none = []
held (some h) = h ∷ []

abbrev pub IsSingle : ProverState → Type 0
IsSingle s =
    (s.alive ≡ held s.handles)
    × ((s.initialising ≡ 0) ⊎ ((s.initialising ≡ 1) × (s.handles ≡ none)))

state_of-IsSingle : (phase : Phase) (n : ℕ) → IsSingle (state_of phase n)
state_of-IsSingle empty n = (refl, inl refl)
state_of-IsSingle loading n = (refl, inr (refl, refl))
state_of-IsSingle (ready h) n = (refl, inl refl)
state_of-IsSingle (closing h) n = (refl, inl refl)

-- However the calls of a prover's methods interleave, as long as `destroy` is not called while another
-- `destroy` is awaited and `doInit` does not throw behind the creation of its instance: the instances
-- alive are exactly the one that the prover holds, if any, and at most one is being created, and only
-- while the prover holds none.
pub run-IsSingle :
    (events : List Event) → are_orderly new_prover events ≡ true → IsSingle (run new_prover events)
run-IsSingle events h =
    let (phase, n, reached) = run-IsPhased events empty 0 h in
    subst IsSingle (sym reached) (state_of-IsSingle phase n)
