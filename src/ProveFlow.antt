-- ===== src/ProveFlow.antt =====
-- frontend/src/lib/prove-flow.ts: the steps of the proof flow and the reducer of its page. Payloads
-- of the steps are of the type `D`; `undefined` is `none`.
pub mod Inputs
pub mod Flow
pub mod Steps
pub mod Submit
pub mod Run
use zksettle.Base.{Option, ℕ, List, none, map, ◌+◌, ◌∷◌, [], some, suc, zero}
use zksettle.Base.Int.{ℤ, pos, negsuc}
use zksettle.Base.Text.{Text}

pub data StepId : Type 0 where
  connect credential merkle proof submit result : StepId

pub data StepStatus : Type 0 where
  idle running success error : StepStatus

pub record StepState (D : Type 0) : Type 0 where
  pub id : StepId
  pub status : StepStatus
  pub payload : Option D
  pub error_text : Option Text
  pub duration_ms : Option ℕ

pub data Mode : Type 0 where
  live demo : Mode

pub record FlowState (D : Type 0) : Type 0 where
  pub steps : List (StepState D)
  pub current_step : ℤ
  pub mode : Mode
  pub tx_signature : Option Text

pub data FlowAction (D : Type 0) : Type 0 where
  start_flow : Mode → FlowAction D
  step_running : (step : ℕ) → FlowAction D
  step_success : (step : ℕ) (payload : Option D) (duration_ms : Option ℕ) → FlowAction D
  step_error : (step : ℕ) (message : Text) → FlowAction D
  set_tx : (signature : Text) → FlowAction D
  reset : FlowAction D

-- `steps.map((s, i) => i === step ? f(s) : s)`
abbrev pub update_at {ℓ} : {A : Type ℓ} → ℕ → (A → A) → List A → List A
update_at n f [] = []
update_at zero f (x ∷ xs) = f x ∷ xs
update_at (suc n) f (x ∷ xs) = x ∷ update_at n f xs

module _ {D : Type 0} where
  abbrev pub initial_step : StepId → StepState D
  initial_step id = record {
    id = id;
    status = idle;
    payload = none;
    error_text = none;
    duration_ms = none;
  }

  abbrev pub make_initial_steps : List (StepState D)
  make_initial_steps =
      map initial_step (connect ∷ credential ∷ merkle ∷ proof ∷ submit ∷ result ∷ [])

  abbrev pub initial_state : FlowState D
  initial_state = record {
    steps = make_initial_steps;
    current_step = negsuc 0;
    mode = live;
    tx_signature = none;
  }

  unfoldable pub flow_reducer : FlowState D → FlowAction D → FlowState D
  flow_reducer s (start_flow mode) = record initial_state { current_step = pos 0; mode = mode }
  flow_reducer s (step_running step) = record s {
    steps = update_at step (λ t. record t { status = running; error_text = none }) s.steps;
    current_step = pos step;
  }
  flow_reducer s (step_success step payload duration_ms) = record s {
    steps =
        update_at step
          (λ t. record t { status = success; payload = payload; duration_ms = duration_ms })
          s.steps;
    current_step = pos (step + 1);
  }
  flow_reducer s (step_error step message) = record s {
    steps = update_at step (λ t. record t { status = error; error_text = some message }) s.steps;
  }
  flow_reducer s (set_tx signature) = record s { tx_signature = some signature }
  flow_reducer s reset = initial_state

  -- The actions of a run, applied in order.
  abbrev pub reduce : FlowState D → List (FlowAction D) → FlowState D
  reduce s [] = s
  reduce s (a ∷ rest) = reduce (flow_reducer s a) rest
