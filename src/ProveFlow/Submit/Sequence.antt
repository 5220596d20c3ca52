-- ===== src/ProveFlow/Submit/Sequence.antt =====
-- The body of `runStepSubmit` in frontend/src/hooks/use-prove-flow.ts: the prerequisites and the three
-- batches, one after the other, with every transaction that is sent, the prerequisites' and those that
-- the rebroadcast loop sends again included. What an RPC node does with a transaction on its own
-- (`maxRetries`) is left out, and so are the calls that only ask the connection.
pub mod Whole
pub mod InOrder
use zksettle.Base.Text.{Text, codes}
use zksettle.Base.{
  none, some, [], ◌∷◌, ok, err, true, false, List, Result, Bool, length, if◌then◌else◌, ◌++◌, ℕ,
  map, replicate, ◌≡◌,
}
use zksettle.Base.Bytes.{Bytes}
use zksettle.Upload.Program.{HookIx, FinalizeArgs, init_hook_payload, finalize_hook_payload}
use zksettle.Upload.Chunks.{batches}
use zksettle.ProveFlow.Flow.{Thrown, thrown_error}
use zksettle.ProveFlow.Submit.{
  Round, LoopEnd, SubmitError, rebroadcast, landed, timed_out, pending, threw, landed_but_failed,
  block_height_exceeded, call_failed,
}
use zksettle.ProveFlow.Submit.Rebroadcast.{is_pending}
use zksettle.ProveFlow.Submit.Batches.{resize_ixs, build_write_ixs, init_resize_txs}

-- What the calls of a submission answer. A function takes the number of transactions sent before.
pub record SubmitAnswers : Type 0 where
  pub check_issuer_exists : Result Thrown Bool
  pub check_hook_payload_exists : Result Thrown Bool
  -- instruction, block hash and signature of the register and of the close transaction
  pub sign_register : Result Thrown (Unit {0})
  pub sign_close : Result Thrown (Unit {0})
  -- the instructions are built
  pub build_ixs : Result Thrown (Unit {0})
  -- block hash and signature of the first, second and third batch
  pub sign_init : Result Thrown (Unit {0})
  pub sign_writes : Result Thrown (Unit {0})
  pub sign_finalize : Result Thrown (Unit {0})
  -- `sendSigned`, and `sendRawTransaction`
  pub send : ℕ → Result Thrown (Unit {0})
  -- the confirmation of the last write
  pub confirm_writes : Result Thrown (Unit {0})
  -- the finalize transaction's signature and last valid height, and the rounds of the rebroadcast loop
  -- up to its end
  pub final_sig : Text
  pub last_valid : ℕ
  pub rounds : List Round
  pub ended : is_pending (rebroadcast last_valid none rounds).0 ≡ false
  -- the message of web3's `TransactionExpiredBlockheightExceededError`
  pub expired_message : Text

-- A transaction that is sent; `again` is a signed one that has been sent before.
pub data SentTx (Key : Type 0) : Type 0 where
  register_issuer_tx close_hook_payload_tx : SentTx Key
  upload_tx again : List (HookIx Key) → SentTx Key

-- The transactions sent so far, and what the submission ends with.
pub data Sent (Key A : Type 0) : Type 0 where
  sent : List (SentTx Key) → Result Thrown A → Sent Key A

abbrev pub sent_txs : {Key A : Type 0} → Sent Key A → List (SentTx Key)
sent_txs (sent txs r) = txs

abbrev pub outcome : {Key A : Type 0} → Sent Key A → Result Thrown A
outcome (sent txs r) = r

abbrev pub after :
    {Key A B : Type 0}
    → Result Thrown A
    → (A → List (SentTx Key) → Sent Key B)
    → List (SentTx Key)
    → Sent Key B
after (ok a) next txs = next a txs
after (err e) next txs = sent txs (err e)

-- What `rebroadcastUntilLandedOrExpired` makes of the end of its loop, with the signature that the
-- submission returns; the loop has ended, and it never times out.
abbrev pub after_loop : Text → Text → LoopEnd → Result Thrown Text
after_loop final_sig expired_message landed = ok final_sig
after_loop final_sig expired_message (threw block_height_exceeded) =
    err (thrown_error expired_message)
after_loop final_sig expired_message (threw landed_but_failed) =
    err (thrown_error (codes "finalize landed but failed on chain"))
after_loop final_sig expired_message (threw (call_failed e)) = err (thrown_error e)
after_loop final_sig expired_message timed_out = err (thrown_error expired_message)
after_loop final_sig expired_message pending = err (thrown_error expired_message)

-- How often the loop sends the finalize transaction again.
abbrev pub resends : SubmitAnswers → ℕ
resends env = (rebroadcast env.last_valid none env.rounds).1

module _ {Key : Type 0} (env : SubmitAnswers) where
  -- `for (const tx of signed) await …`, and what follows.
  unfoldable pub send_all :
      {A : Type 0}
      → List (SentTx Key)
      → (List (SentTx Key) → Sent Key A)
      → List (SentTx Key)
      → Sent Key A
  send_all [] next txs = next txs
  send_all (tx ∷ rest) next txs =
      after (env.send (length txs)) (λ _ txs'. send_all rest next txs') (txs ++ tx ∷ [])

  -- `signSendConfirmSingleIx`, and what follows.
  unfoldable pub sign_send_confirm_single_ix :
      Result Thrown (Unit {0})
      → SentTx Key
      → (List (SentTx Key) → Sent Key Text)
      → List (SentTx Key)
      → Sent Key Text
  unfolding send_all
  sign_send_confirm_single_ix signed tx next = after signed λ _. send_all (tx ∷ []) next

  -- `if (await exists) return;` and the transaction otherwise.
  unfoldable pub ensure_issuer_registered :
      (List (SentTx Key) → Sent Key Text) → List (SentTx Key) → Sent Key Text
  unfolding sign_send_confirm_single_ix
  ensure_issuer_registered next = after env.check_issuer_exists λ exists.
      if exists then next else sign_send_confirm_single_ix env.sign_register register_issuer_tx next

  -- `if (!(await exists)) return;` and the transaction otherwise.
  unfoldable pub cleanup_stale_hook_payload :
      (List (SentTx Key) → Sent Key Text) → List (SentTx Key) → Sent Key Text
  unfolding sign_send_confirm_single_ix
  cleanup_stale_hook_payload next = after env.check_hook_payload_exists λ exists.
      if exists then sign_send_confirm_single_ix env.sign_close close_hook_payload_tx next else next

  -- `sendFinalizeWithRebroadcast`
  unfoldable pub send_finalize_with_rebroadcast :
      FinalizeArgs Key → List (SentTx Key) → Sent Key Text
  unfolding send_all rebroadcast
  send_finalize_with_rebroadcast args =
      let finalize_tx : List (HookIx Key) = finalize_hook_payload args ∷ [] in
      after env.sign_finalize λ _. send_all (upload_tx finalize_tx ∷ []) λ txs.
        sent (txs ++ replicate (resends env) (again finalize_tx)) (
          after_loop env.final_sig env.expired_message
            (rebroadcast env.last_valid none env.rounds).0)

  -- `sendWritesBatch`; a proof without a byte has no write to confirm.
  unfoldable pub send_writes_batch :
      List (List (HookIx Key))
      → (List (SentTx Key) → Sent Key Text)
      → List (SentTx Key)
      → Sent Key Text
  unfolding send_all
  send_writes_batch txs next = after env.sign_writes λ _.
      send_all (map upload_tx txs)
        λ done. elim txs [ [] ↦ next done | _ ∷ _ ↦ after env.confirm_writes (λ _. next) done ]

  -- `sendInitResizeBatch`
  unfoldable pub send_init_resize_batch :
      List (List (HookIx Key))
      → (List (SentTx Key) → Sent Key Text)
      → List (SentTx Key)
      → Sent Key Text
  unfolding send_all
  send_init_resize_batch txs next = after env.sign_init λ _. send_all (map upload_tx txs) next

  unfoldable pub submit : Bytes → FinalizeArgs Key → Sent Key Text
  unfolding ensure_issuer_registered cleanup_stale_hook_payload send_init_resize_batch
      send_writes_batch send_finalize_with_rebroadcast init_resize_txs resize_ixs build_write_ixs
      batches
  submit proof args =
      ensure_issuer_registered
        (cleanup_stale_hook_payload (
          after env.build_ixs λ _.
            send_init_resize_batch
              (init_resize_txs (init_hook_payload (length proof)) (resize_ixs proof))
              (send_writes_batch (batches (build_write_ixs proof))
                (send_finalize_with_rebroadcast args))))
        []
