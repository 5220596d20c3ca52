-- ===== src/ProveFlow/Steps.antt =====
-- The step runners and error handlers of frontend/src/hooks/use-prove-flow.ts.
use zksettle.Base.{
  none, some, take, ℕ, ◌++◌, Result, ◌*◌, if◌then◌else◌, ◌||◌, ◌/◌, err, length, ◌+◌, leb, ok,
}
use zksettle.Base.Text.{Text, codes, includes}
use zksettle.Base.Bytes.{Bytes, subarray}
use zksettle.Base.Decimal.{decimal, hex_of}
use zksettle.ProveFlow.{step_running, step_success, step_error, set_tx}
use zksettle.ProveFlow.Inputs.{Credential, ProofInputs, TransferContext, assemble_proof_inputs}
use zksettle.ProveFlow.Flow.{
  thrown_error, thrown_value, demo_data, skipped_data, credential_data, merkle_data, proof_data,
  submit_data, ◌>>f◌, ◌>>=f◌, Thrown, Answers, Paths, Flow, ProofResult, dispatch, TransferParams,
  NullifierInputs, await,
}

abbrev pub credential_validity_secs : ℕ
credential_validity_secs = 365 * 24 * 3600

unfoldable pub format_proof_preview : Bytes → Text
format_proof_preview proof = hex_of (take 32 proof)

unfoldable pub to_hex : Bytes → Text
to_hex bytes = codes "0x" ++ hex_of bytes

unfoldable pub run_demo_flow : Answers → ProofInputs → Flow (Unit {0})
unfolding format_proof_preview
run_demo_flow env proof_fixture =
    dispatch (step_running 1)
    >>f dispatch (step_success 1 (some demo_data) none)
    >>f dispatch (step_running 2)
    >>f dispatch (step_success 2 (some demo_data) none)
    >>f dispatch (step_running 3)
    >>f await (env.generate proof_fixture)
    >>=f λ result.
        dispatch (
          step_success 3
            (some (
              proof_data result (format_proof_preview result.proof) none
                (length result.public_inputs)))
            (some result.duration_ms))
        >>f dispatch (step_running 4)
        >>f dispatch (step_success 4 (some skipped_data) none)
        >>f dispatch (step_running 5)
        >>f dispatch (step_success 5 (some demo_data) none)

-- The checks of `runStepCredential` on the fetched credential.
unfoldable pub check_credential : ℕ → Credential → Result Thrown Credential
check_credential now_secs credential =
    if credential.revoked
    then err (thrown_error (codes "Credential has been revoked."))
    else if leb (credential.issued_at + credential_validity_secs) now_secs
    then err (
        thrown_error
          (codes "Credential has expired. Re-issue from the Wallets & Credentials page."))
    else ok credential

unfoldable pub run_step_credential : Answers → Flow Credential
unfolding check_credential
run_step_credential env = dispatch (step_running 1) >>f await (env.get_credential) >>=f λ fetched.
    await (check_credential env.now_secs fetched) >>=f λ credential.
    dispatch
      (step_success 1 (some (credential_data credential.jurisdiction)) (some (env.elapsed 1)))
    >>f await (ok credential)

unfoldable pub run_step_merkle_paths : Answers → Flow Paths
run_step_merkle_paths env = dispatch (step_running 2) >>f await (env.get_paths) >>=f λ paths.
    dispatch (
      step_success 2 (some (merkle_data (take 16 paths.roots.membership_root)))
        (some (env.elapsed 2)))
    >>f await (ok paths)

-- The two limbs of a key: the trailing 16 bytes are the low one.
abbrev pub limb_lo : Bytes → Text
unfolding to_hex
limb_lo bytes = to_hex (subarray bytes 16 16)

abbrev pub limb_hi : Bytes → Text
unfolding to_hex
limb_hi bytes = to_hex (subarray bytes 0 16)

-- What `runStepProofGeneration` hands to the prover.
unfoldable pub transfer_context :
    Answers → Credential → Paths → TransferParams → Bytes → Bytes → Text → TransferContext
unfolding to_hex decimal
transfer_context env credential paths params mint recipient nullifier = record {
  nullifier = nullifier;
  mint_lo = limb_lo mint;
  mint_hi = limb_hi mint;
  recipient_lo = limb_lo recipient;
  recipient_hi = limb_hi recipient;
  amount = decimal params.amount;
  epoch = decimal (env.now_secs / 86_400);
  private_key = paths.zk_private_key;
  credential_expiry = decimal (credential.issued_at + credential_validity_secs);
  jurisdiction = none;
  jurisdiction_path = paths.jurisdiction_proof.path;
  jurisdiction_path_indices = paths.jurisdiction_proof.path_indices;
  timestamp = decimal (env.now_secs / 86_400 * 86_400);
}

unfoldable pub nullifier_inputs : Answers → Paths → TransferParams → Bytes → Bytes → NullifierInputs
unfolding to_hex decimal
nullifier_inputs env paths params mint recipient = record {
  private_key = paths.zk_private_key;
  mint_lo = limb_lo mint;
  mint_hi = limb_hi mint;
  epoch = decimal (env.now_secs / 86_400);
  recipient_lo = limb_lo recipient;
  recipient_hi = limb_hi recipient;
  amount = decimal params.amount;
}

unfoldable pub run_step_proof_generation :
    Answers → Credential → Paths → TransferParams → Flow ProofResult
unfolding transfer_context nullifier_inputs assemble_proof_inputs format_proof_preview
run_step_proof_generation env credential paths params =
    dispatch (step_running 3) >>f await (env.pubkey_bytes params.mint) >>=f λ mint.
    await (env.pubkey_bytes params.recipient) >>=f λ recipient.
    await (env.compute_nullifier (nullifier_inputs env paths params mint recipient))
    >>=f λ nullifier.
        await (
          env.generate (
            assemble_proof_inputs credential paths.membership paths.sanctions paths.roots
              (transfer_context env credential paths params mint recipient nullifier)))
        >>=f λ result.
            dispatch (
              step_success 3
                (some (
                  proof_data result (format_proof_preview result.proof) (some (length result.proof))
                    (length result.public_inputs)))
                (some result.duration_ms))
            >>f await (ok result)

unfoldable pub run_step_submit : Answers → ProofResult → Flow Text
run_step_submit env proof_result =
    dispatch (step_running 4) >>f await (env.submit proof_result) >>=f λ final_sig.
    dispatch (set_tx final_sig)
    >>f dispatch (step_success 4 (some (submit_data final_sig)) (some (env.elapsed 4)))
    >>f await (ok final_sig)

unfoldable pub run_step_confirm : Answers → Flow (Unit {0})
run_step_confirm env =
    dispatch (step_running 5) >>f dispatch (step_success 5 none (some (env.elapsed 5)))

-- `err instanceof Error ? err.message : fallback`
unfoldable pub error_message : Thrown → Text → Text
error_message (thrown_error message) fallback = message
error_message (thrown_value message) fallback = fallback

unfoldable pub step_error_flow : ℕ → Thrown → Text → Flow (Unit {0})
unfolding error_message
step_error_flow step thrown fallback = dispatch (step_error step (error_message thrown fallback))

unfoldable pub handle_credential_error : Thrown → Flow (Unit {0})
unfolding step_error_flow error_message includes
handle_credential_error thrown =
    step_error_flow 1 thrown (codes "Failed to fetch credential")
    >>f (if includes (error_message thrown (codes "Failed to fetch credential")) (codes "404")
        then dispatch (
            step_error 1 (
              codes
                "No credential found for this wallet. Issue one from the Wallets & Credentials page, or try demo mode."))
        else await (ok tt))

-- The message of `handleSubmitError`; its log lines are left out.
unfoldable pub submit_message : Thrown → Text
submit_message (thrown_error message) = message
submit_message (thrown_value none) = codes "Transaction failed"
submit_message (thrown_value (some message)) = message

unfoldable pub handle_submit_error : Thrown → Flow (Unit {0})
unfolding submit_message includes
handle_submit_error thrown =
    let message = submit_message thrown in
    let is_rejected =
      includes message (codes "rejected") || includes message (codes "User rejected") in
    dispatch
      (step_error 4 (if is_rejected then codes "Transaction rejected by wallet." else message))
