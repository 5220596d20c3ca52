-- ===== src/Tests/Flow.antt =====
-- Runs of the theorems on the proof flow.
use zksettle.ProveFlow.Inputs.WalletField.{assemble_proof_inputs-wallet}
use zksettle.Base.Bytes.{IsByte, from_be}
use zksettle.Base.Decimal.{digits_value}
use zksettle.Base.{
  some, true, false, [], ok, err, ◌∷◌, ◌*◌, ◌≡◌, replicate, ℕ, All, none, ◌%◌, suc, arith, zero,
  ◌⊎◌, refl,
}
use zksettle.Base.Text.{codes}
use zksettle.ProveFlow.{initial_state, reduce, live, flow_reducer, FlowState}
use zksettle.ProveFlow.Inputs.{
  TransferContext, Credential, ProofInputs, TransferContext, assemble_proof_inputs, bn254_modulus,
}
use zksettle.ProveFlow.Flow.{
  Answers, TransferParams, ProofResult, Paths, thrown_error, actions, StepData,
}
use zksettle.ProveFlow.Submit.{Round, confirmed, rebroadcast, poll_finalize_landed}
use zksettle.ProveFlow.Submit.Sequence.{SubmitAnswers, submit}
use zksettle.ProveFlow.Run.Submits.{submitting, HasSubmitted, run_flow-submits}
use zksettle.Upload.Program.{FinalizeArgs}
use zksettle.Upload.Client.{default_light_args}
use zksettle.ProveFlow.Run.{is_done, run_flow}
use zksettle.ProveFlow.Run.Settles.{IsSettled, run_flow-settles}

abbrev pub credential_answer : Credential
credential_answer = record {
  wallet = replicate 32 1;
  leaf_index = 0;
  jurisdiction = codes "US";
  issued_at = 1_700_000_000;
  revoked = false;
}

abbrev pub paths_answer : Paths
paths_answer = record {
  membership = record { path = codes "0x01" ∷ []; path_indices = 0 ∷ [] };
  sanctions = record { path = codes "02" ∷ []; path_indices = 1 ∷ []; leaf_value = codes "0" };
  roots = record {
    membership_root = codes "0a";
    sanctions_root = codes "0b";
    jurisdiction_root = codes "0c";
  };
  jurisdiction_proof = record { path = []; path_indices = [] };
  zk_private_key = codes "77";
}

abbrev proof_answer : ProofResult
proof_answer = record { proof = replicate 752 5; public_inputs = codes "1" ∷ []; duration_ms = 900 }

-- Everything goes well until the wallet rejects the submission.
abbrev pub answers : Answers
answers = record {
  connected = true;
  can_sign_all = true;
  now_secs = 1_700_086_400;
  elapsed = λ n. 100 * n;
  get_credential = ok credential_answer;
  get_paths = ok paths_answer;
  pubkey_bytes = λ _. ok (replicate 32 9);
  compute_nullifier = λ _. ok (codes "0x11");
  generate = λ _. ok proof_answer;
  submit = λ _. err (thrown_error (codes "User rejected the request."));
}

abbrev pub params : TransferParams
params = record { mint = codes "mint"; recipient = codes "recipient"; amount = 5 }

abbrev fixture : ProofInputs
fixture = record {
  merkle_root = [];
  nullifier = [];
  mint_lo = [];
  mint_hi = [];
  epoch = [];
  recipient_lo = [];
  recipient_hi = [];
  amount = [];
  sanctions_root = [];
  jurisdiction_root = [];
  timestamp = [];
  wallet = [];
  path = [];
  path_indices = [];
  private_key = [];
  sanctions_path = [];
  sanctions_path_indices = [];
  sanctions_leaf_value = [];
  jurisdiction = [];
  jurisdiction_path = [];
  jurisdiction_path_indices = [];
  credential_expiry = [];
}

run_flow-settles_example :
    IsSettled (reduce initial_state (actions (run_flow answers fixture live (some params) [])))
run_flow-settles_example = run_flow-settles answers fixture live (some params) initial_state

abbrev context : TransferContext
context = record {
  nullifier = codes "0x11";
  mint_lo = codes "0x01";
  mint_hi = codes "0x02";
  recipient_lo = codes "0x03";
  recipient_hi = codes "0x04";
  amount = codes "5";
  epoch = codes "19677";
  private_key = codes "77";
  credential_expiry = codes "1731536000";
  jurisdiction = none;
  jurisdiction_path = [];
  jurisdiction_path_indices = [];
  timestamp = codes "1700092800";
}

bytes-IsByte : (n : ℕ) → All IsByte (replicate n 1)
bytes-IsByte zero = tt
bytes-IsByte (suc n) = (omega arith, bytes-IsByte n)

assemble_proof_inputs-wallet_example :
    digits_value 0
      (assemble_proof_inputs credential_answer paths_answer.membership paths_answer.sanctions
        paths_answer.roots context).wallet
    ≡ from_be 0 (replicate 32 1) % bn254_modulus
assemble_proof_inputs-wallet_example =
    assemble_proof_inputs-wallet credential_answer paths_answer.membership paths_answer.sanctions
      paths_answer.roots context (bytes-IsByte 32)

-- A round that sends again, and one that sees the transaction.
abbrev waiting : Round
waiting = record { statuses = none; height = some 149; now = 2_000 }

abbrev on_chain : Round
on_chain = record {
  statuses = some (some (record { confirmation_status = some confirmed; failed = false }));
  height = none;
  now = 4_000;
}

-- A submission that the wallet signs and the node takes.
abbrev accepted : SubmitAnswers
unfolding rebroadcast poll_finalize_landed
accepted = record {
  check_issuer_exists = ok true;
  sign_register = ok tt;
  check_hook_payload_exists = ok false;
  sign_close = ok tt;
  build_ixs = ok tt;
  sign_init = ok tt;
  sign_writes = ok tt;
  sign_finalize = ok tt;
  send = λ n. ok tt;
  confirm_writes = ok tt;
  final_sig = codes "5sig";
  last_valid = 150;
  rounds = waiting ∷ on_chain ∷ [];
  ended = refl;
  expired_message = codes "block height exceeded";
}

abbrev finalize_of : ProofResult → FinalizeArgs ℕ
finalize_of result = record {
  nullifier_hash = replicate 32 17;
  mint = 3;
  epoch = 20_000;
  recipient = 4;
  amount = 1_000;
  light_args = default_light_args;
}

abbrev live_run : FlowState StepData
live_run =
    reduce initial_state
      (actions (run_flow (submitting answers accepted finalize_of) fixture live (some params) []))

-- With these answers the run is done and shows the signature.
live_run_test : (is_done live_run ≡ true) × (live_run.tx_signature ≡ some (codes "5sig"))
unfolding run_flow submit flow_reducer is_done accepted
live_run_test = (refl, refl)

run_flow-submits_example :
    (is_done live_run ≡ false) ⊎ HasSubmitted answers accepted finalize_of live_run
run_flow-submits_example =
    run_flow-submits answers accepted finalize_of fixture (some params) initial_state
