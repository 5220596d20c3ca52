-- ===== src/ProveFlow/Flow.antt =====
-- frontend/src/hooks/use-prove-flow.ts: what a run of the flow dispatches. A run is the list of its
-- actions and what it ends with; `await` is a sequence point. The answers of the wallet, the issuer
-- service and the prover are the fields of `Answers`; what is done inside the submit step is the
-- field `submit`, which Run/Submits fills. `performance.now() - start` is an answer as well.
use zksettle.Base.{◌∷◌, ℕ, List, Bool, Result, Option, [], ok, ◌++◌, err}
use zksettle.Base.Text.{Text}
use zksettle.Base.Bytes.{Bytes}
use zksettle.ProveFlow.{FlowAction, Option, List, ℕ, ◌∷◌}
use zksettle.ProveFlow.Inputs.{
  Credential, MembershipProof, SanctionsProof, JurisdictionProof, Roots, ProofInputs,
}

-- A thrown value: an `Error` with its message, or another value with its `message` if that is a
-- string.
pub data Thrown : Type 0 where
  thrown_error : (message : Text) → Thrown
  thrown_value : (message : Option Text) → Thrown

pub record ProofResult : Type 0 where
  pub proof : Bytes
  pub public_inputs : List Text
  pub duration_ms : ℕ

pub record TransferParams : Type 0 where
  pub mint : Text
  pub recipient : Text
  pub amount : ℕ

-- The `data` of a step.
pub data StepData : Type 0 where
  demo_data skipped_data : StepData
  credential_data : (jurisdiction : Text) → StepData
  merkle_data : (root : Text) → StepData
  proof_data :
      (result : ProofResult) (proof_preview : Text) (proof_bytes : Option ℕ)
      (public_input_count : ℕ)
      → StepData
  submit_data : (signature : Text) → StepData

pub record Paths : Type 0 where
  pub membership : MembershipProof
  pub sanctions : SanctionsProof
  pub roots : Roots
  pub jurisdiction_proof : JurisdictionProof
  pub zk_private_key : Text

pub record NullifierInputs : Type 0 where
  pub private_key : Text
  pub mint_lo : Text
  pub mint_hi : Text
  pub epoch : Text
  pub recipient_lo : Text
  pub recipient_hi : Text
  pub amount : Text

pub record Answers : Type 0 where
  -- `connected && publicKey`
  pub connected : Bool
  -- `signAllTransactions` is there
  pub can_sign_all : Bool
  -- `Math.floor(Date.now() / 1000)`
  pub now_secs : ℕ
  pub elapsed : ℕ → ℕ
  pub get_credential : Result Thrown Credential
  -- `Promise.all` of the four requests and `derivePrivateKey()`
  pub get_paths : Result Thrown Paths
  -- `new PublicKey(text).toBytes()`
  pub pubkey_bytes : Text → Result Thrown Bytes
  pub compute_nullifier : NullifierInputs → Result Thrown Text
  pub generate : ProofInputs → Result Thrown ProofResult
  pub submit : ProofResult → Result Thrown Text

abbrev pub Actions : Type 0
Actions = List (FlowAction StepData)

-- A run: it adds its actions to those dispatched so far, and ends with a value or what was thrown.
pub data Ran (A : Type 0) : Type 0 where
  ran : Actions → Result Thrown A → Ran A

abbrev pub actions : {A : Type 0} → Ran A → Actions
actions (ran acc r) = acc

abbrev pub Flow : Type 0 → Type 0
Flow A = Actions → Ran A

abbrev pub either_way : {A B : Type 0} → Ran A → (A → Flow B) → (Thrown → Flow B) → Ran B
either_way (ran acc (ok a)) next handler = next a acc
either_way (ran acc (err e)) next handler = handler e acc

abbrev pub dispatch : FlowAction StepData → Flow (Unit {0})
dispatch a acc = ran (acc ++ a ∷ []) (ok tt)

abbrev pub await : {A : Type 0} → Result Thrown A → Flow A
await r acc = ran acc r

infixl 5 ◌>>=f◌ ◌>>f◌
abbrev pub ◌>>=f◌ : {A B : Type 0} → Flow A → (A → Flow B) → Flow B
m >>=f f = λ acc. either_way (m acc) f (λ e. await (err e))

abbrev pub ◌>>f◌ : {A B : Type 0} → Flow A → Flow B → Flow B
m >>f k = m >>=f λ _. k

-- `try { a = await m; } catch (err) { handler(err); return; }`, and what follows.
abbrev pub then_or :
    {A : Type 0} → Flow A → (A → Flow (Unit {0})) → (Thrown → Flow (Unit {0})) → Flow (Unit {0})
then_or m next handler acc = either_way (m acc) next handler

-- `try { m } catch (err) { handler(err); }`, at the end of a function.
abbrev pub try_catch : {A : Type 0} → Flow A → (Thrown → Flow (Unit {0})) → Flow (Unit {0})
try_catch m handler = then_or m (λ _. await (ok tt)) handler
