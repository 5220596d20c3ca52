-- ===== src/Prover.antt =====
-- `Prover` of sdk/src/prove/prover.ts: the lazily created Barretenberg instance. Its methods are
-- asynchronous: each is cut at its `await` into the events of `step`, which any callers can bring
-- about in any order. An instance is a number, in the order of creation; `alive` are the instances
-- that hold memory. Noir and the proof itself are the library's.
pub mod Phases
use zksettle.Base.{
  none, some, true, false, Option, ℕ, Bool, List, suc, zero, if◌then◌else◌, ◌==◌, ◌∷◌, [], ◌++◌,
  ◌+◌,
}

pub record ProverState : Type 0 where
  pub handles : Option ℕ
  -- `initPromise` is not null
  pub init_promise : Bool
  -- calls of `doInit` that have not ended
  pub initialising : ℕ
  -- instances whose `destroy` is awaited, the earliest first
  pub destroying : List ℕ
  pub alive : List ℕ
  pub created : ℕ

abbrev pub new_prover : ProverState
new_prover = record {
  handles = none;
  init_promise = false;
  initialising = 0;
  destroying = [];
  alive = [];
  created = 0;
}

-- `init` up to the promise it returns: the handles, the shared promise, or a new call of `doInit`.
unfoldable pub init : ProverState → ProverState
init s = elim s.handles [
  | some h ↦ s
  | none ↦
      if s.init_promise
      then s
      else record s { init_promise = true; initialising = suc s.initialising }
]

-- A call of `doInit` ends with a new instance.
unfoldable pub do_init_returns : ProverState → ProverState
do_init_returns s = elim s.initialising [
  | zero ↦ s
  | suc n ↦ record s {
    handles = some s.created;
    initialising = n;
    alive = s.created ∷ s.alive;
    created = s.created + 1;
  }
]

-- A call of `doInit` throws, with or without an instance made before.
unfoldable pub do_init_throws : Bool → ProverState → ProverState
do_init_throws made s = elim s.initialising [
  | zero ↦ s
  | suc n ↦ record s {
    init_promise = false;
    initialising = n;
    alive = if made then s.created ∷ s.alive else s.alive;
    created = if made then s.created + 1 else s.created;
  }
]

-- `destroy` up to its `await`.
unfoldable pub destroy : ProverState → ProverState
destroy s = elim s.handles [ none ↦ s | some h ↦ record s { destroying = s.destroying ++ h ∷ [] } ]

abbrev pub remove : ℕ → List ℕ → List ℕ
remove h [] = []
remove h (x ∷ xs) = if h == x then xs else x ∷ remove h xs

-- `destroy` behind its `await`, and when `api.destroy` throws.
unfoldable pub destroy_returns : ProverState → ProverState
destroy_returns s = elim s.destroying [
  | [] ↦ s
  | h ∷ rest ↦ record s {
    handles = none;
    init_promise = false;
    destroying = rest;
    alive = remove h s.alive;
  }
]

unfoldable pub destroy_throws : ProverState → ProverState
destroy_throws s = elim s.destroying [ [] ↦ s | h ∷ rest ↦ record s { destroying = rest } ]

pub data Event : Type 0 where
  init_called init_returned : Event
  init_threw : (made : Bool) → Event
  destroy_called destroy_returned destroy_threw : Event

unfoldable pub step : ProverState → Event → ProverState
unfolding init do_init_returns do_init_throws destroy destroy_returns destroy_throws
step s init_called = init s
step s init_returned = do_init_returns s
step s (init_threw made) = do_init_throws made s
step s destroy_called = destroy s
step s destroy_returned = destroy_returns s
step s destroy_threw = destroy_throws s

abbrev pub run : ProverState → List Event → ProverState
unfolding step
run s [] = s
run s (e ∷ rest) = run (step s e) rest
