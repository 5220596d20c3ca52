-- ===== src/ProveFlow/Submit/Sequence/InOrder.antt =====
-- A submission sends its prerequisites, the transactions of the upload in order, and the last of them
-- again as often as the rebroadcast loop does, and stops at the first failure.
use zksettle.ProveFlow.Flow.{Thrown}
use zksettle.Base.Text.{Text}
use zksettle.Base.Bytes.{Bytes}
use mathlib.Core.List.{append_assoc, append-nil}
use zksettle.Base.{
  [], ◌∷◌, ok, err, inl, inr, refl, ◌++◌, Result, ◌≡◌, List, IsOk, length, ◌∙◌, subst, sym,
  Result-cases, ◌⊎◌, Bool-cases, map, replicate, none,
}
use zksettle.Upload.Program.{HookIx, FinalizeArgs, finalize_hook_payload, init_hook_payload}
use zksettle.Upload.Chunks.{batches}
use zksettle.ProveFlow.Submit.{rebroadcast}
use zksettle.ProveFlow.Submit.Batches.{submit_txs, resize_ixs, build_write_ixs, init_resize_txs}
use zksettle.ProveFlow.Submit.Sequence.Whole.{Txs, registrations, closures, whole, whole-parts}
use zksettle.ProveFlow.Submit.Sequence.{
  SubmitAnswers, SentTx, Sent, sent_txs, outcome, after, send_all, submit, send_init_resize_batch,
  send_writes_batch, send_finalize_with_rebroadcast, sent, ensure_issuer_registered, after_loop,
  cleanup_stale_hook_payload, sign_send_confirm_single_ix, upload_tx, again, resends,
  register_issuer_tx, close_hook_payload_tx,
}

-- Everything has been sent and the submission returns, or a first part has been sent and it throws.
abbrev pub IsInOrder : {Key A : Type 0} → Txs Key → Sent Key A → Type 0
IsInOrder {Key} expected m =
    ((sent_txs m ≡ expected) × IsOk (outcome m))
    ⊎ ((e : Thrown) × (rest : Txs Key) × (expected ≡ sent_txs m ++ rest) × (outcome m ≡ err e))

pub IsInOrder-sent_txs :
    {Key A : Type 0} {expected : Txs Key} (m : Sent Key A) {a : A}
    → IsInOrder expected m
    → outcome m ≡ ok a
    → sent_txs m ≡ expected
IsInOrder-sent_txs m (inl (all, _)) h = all
IsInOrder-sent_txs m (inr (e, rest, _, thrown)) h = cc

module _ {Key : Type 0} (expected : Txs Key) where
  after-IsInOrder :
      {A B : Type 0} (r : Result Thrown A) (next : A → Txs Key → Sent Key B) (txs rest : Txs Key)
      → txs ++ rest ≡ expected
      → ((a : A) → IsInOrder expected (next a txs))
      → IsInOrder expected (after r next txs)
  after-IsInOrder (ok a) next txs rest split h = h a
  after-IsInOrder (err e) next txs rest split h = inr (e, rest, sym split, refl)

  module _ (env : SubmitAnswers) where
    send_all-IsInOrder :
        {A : Type 0} (txs : Txs Key) (next : Txs Key → Sent Key A) (acc rest : Txs Key)
        → acc ++ (txs ++ rest) ≡ expected
        → IsInOrder expected (next (acc ++ txs))
        → IsInOrder expected (send_all env txs next acc)
    unfolding send_all
    send_all-IsInOrder [] next acc rest split h =
        subst (λ t. IsInOrder expected (next t)) (append-nil acc) h
    send_all-IsInOrder (tx ∷ txs) next acc rest split h =
        let split' : (acc ++ tx ∷ []) ++ (txs ++ rest) ≡ expected =
          append_assoc acc (tx ∷ []) (txs ++ rest) ∙ split in
        after-IsInOrder (env.send (length acc)) (λ _ t. send_all env txs next t) (acc ++ tx ∷ [])
          (txs ++ rest) split'
          λ _.
            send_all-IsInOrder txs next (acc ++ tx ∷ []) rest split'
              (subst (λ t. IsInOrder expected (next t)) (sym (append_assoc acc (tx ∷ []) txs)) h)

    single-IsInOrder :
        (signed : Result Thrown (Unit {0})) (tx : SentTx Key) (next : Txs Key → Sent Key Text)
        (acc rest : Txs Key)
        → acc ++ tx ∷ rest ≡ expected
        → IsInOrder expected (next (acc ++ tx ∷ []))
        → IsInOrder expected (sign_send_confirm_single_ix env signed tx next acc)
    unfolding sign_send_confirm_single_ix
    single-IsInOrder signed tx next acc rest split h =
        after-IsInOrder signed _ acc (tx ∷ rest) split
          λ _. send_all-IsInOrder (tx ∷ []) next acc rest split h

    ensure-IsInOrder :
        (next : Txs Key → Sent Key Text) (rest : Txs Key)
        → registrations env ++ rest ≡ expected
        → IsInOrder expected (next (registrations env))
        → IsInOrder expected (ensure_issuer_registered env next [])
    unfolding ensure_issuer_registered
    ensure-IsInOrder next rest split h = elim (Result-cases env.check_issuer_exists) [
      | inr (e, failed) ↦ rw failed (inr (e, expected, refl, refl))
      | inl (exists, e) ↦ elim (Bool-cases exists) [
        | inl there ↦ rw (e, there) (rw (e, there) at h)
        | inr missing ↦
            rw (e, missing)
              (single-IsInOrder env.sign_register register_issuer_tx next [] rest
                (rw (e, missing) at split) (rw (e, missing) at h))
      ]
    ]

    cleanup-IsInOrder :
        (next : Txs Key → Sent Key Text) (acc rest : Txs Key)
        → acc ++ (closures env ++ rest) ≡ expected
        → IsInOrder expected (next (acc ++ closures env))
        → IsInOrder expected (cleanup_stale_hook_payload env next acc)
    unfolding cleanup_stale_hook_payload
    cleanup-IsInOrder next acc rest split h = elim (Result-cases env.check_hook_payload_exists) [
      | inr (e, failed) ↦ rw failed (inr (e, closures env ++ rest, sym split, refl))
      | inl (exists, e) ↦ elim (Bool-cases exists) [
        | inr missing ↦
            rw (e, missing)
              (subst (λ t. IsInOrder expected (next t)) (append-nil acc) (rw (e, missing) at h))
        | inl there ↦
            rw (e, there)
              (single-IsInOrder env.sign_close close_hook_payload_tx next acc rest
                (rw (e, there) at split) (rw (e, there) at h))
      ]
    ]

    send_finalize-IsInOrder :
        (args : FinalizeArgs Key) (acc : Txs Key)
        → acc
            ++ upload_tx (finalize_hook_payload args ∷ [])
              ∷ replicate (resends env) (again (finalize_hook_payload args ∷ []))
          ≡ expected
        → IsInOrder expected (send_finalize_with_rebroadcast env args acc)
    unfolding send_finalize_with_rebroadcast
    send_finalize-IsInOrder args acc split =
        let last : Txs Key = upload_tx (finalize_hook_payload args ∷ []) ∷ [] in
        let more : Txs Key = replicate (resends env) (again (finalize_hook_payload args ∷ [])) in
        let all_sent : (acc ++ last) ++ more ≡ expected = append_assoc acc last more ∙ split in
        let end =
          after_loop env.final_sig env.expired_message
            (rebroadcast env.last_valid none env.rounds).0 in
        after-IsInOrder env.sign_finalize _ acc (last ++ more) split λ _.
          send_all-IsInOrder last (λ txs. sent (txs ++ more) end) acc more split
            (elim (Result-cases end) [
              | inl (signature, e) ↦ inl (all_sent, (signature, e))
              | inr (x, e) ↦ inr (x, [], sym (append-nil ((acc ++ last) ++ more) ∙ all_sent), e)
            ])

    send_writes_batch-IsInOrder :
        (txs : List (List (HookIx Key))) (next : Txs Key → Sent Key Text) (acc rest : Txs Key)
        → acc ++ (map upload_tx txs ++ rest) ≡ expected
        → IsInOrder expected (next (acc ++ map upload_tx txs))
        → IsInOrder expected (send_writes_batch env txs next acc)
    unfolding send_writes_batch
    send_writes_batch-IsInOrder [] next acc rest split h =
        after-IsInOrder env.sign_writes _ acc rest split
          λ _. send_all-IsInOrder [] next acc rest split h
    send_writes_batch-IsInOrder (tx ∷ txs) next acc rest split h =
        after-IsInOrder env.sign_writes _ acc (map upload_tx (tx ∷ txs) ++ rest) split λ _.
          send_all-IsInOrder (map upload_tx (tx ∷ txs)) (after env.confirm_writes λ _. next) acc
            rest split
            (after-IsInOrder env.confirm_writes (λ _. next) (acc ++ map upload_tx (tx ∷ txs)) rest
              (append_assoc acc (map upload_tx (tx ∷ txs)) rest ∙ split) λ _. h)

-- Whatever the wallet and the network answer, up to the end of the rebroadcast loop: a submission sends
-- the registration of an issuer that is not registered, the closing of a payload that is there, the
-- transactions of the upload in their order, each once, and then only the last of these again, once
-- for each time that the rebroadcast loop does. Either it has sent all of these and returns, or it has
-- sent a first part of them, possibly all, and throws.
pub submit-IsInOrder :
    {Key : Type 0} (env : SubmitAnswers) (proof : Bytes) (args : FinalizeArgs Key)
    → IsInOrder (whole env proof args) (submit env proof args)
unfolding submit submit_txs send_init_resize_batch
submit-IsInOrder {Key} env proof args =
    let inits : List (List (HookIx Key)) =
      init_resize_txs (init_hook_payload (length proof)) (resize_ixs proof) in
    let writes : List (List (HookIx Key)) = batches (build_write_ixs proof) in
    let last : List (HookIx Key) = finalize_hook_payload args ∷ [] in
    let tail : Txs Key = upload_tx last ∷ replicate (resends env) (again last) in
    let prepared : Txs Key = registrations env ++ closures env in
    let begun : Txs Key = prepared ++ map upload_tx inits in
    let rest : Txs Key = map upload_tx inits ++ (map upload_tx writes ++ tail) in
    let expected : Txs Key = registrations env ++ (closures env ++ rest) in
    let split : prepared ++ rest ≡ expected =
      append_assoc (registrations env) (closures env) rest in
    let split' : begun ++ (map upload_tx writes ++ tail) ≡ expected =
      append_assoc prepared (map upload_tx inits) (map upload_tx writes ++ tail) ∙ split in
    subst (λ t. IsInOrder t (submit env proof args)) (sym (whole-parts env inits writes last))
      (ensure-IsInOrder expected env _ (closures env ++ rest) refl (
        cleanup-IsInOrder expected env _ (registrations env) rest refl (
          after-IsInOrder expected env.build_ixs _ prepared rest split λ _.
            after-IsInOrder expected env.sign_init _ prepared rest split λ _.
              send_all-IsInOrder expected env (map upload_tx inits) _ prepared
                (map upload_tx writes ++ tail) split
                (send_writes_batch-IsInOrder expected env writes _ begun tail split' (
                  send_finalize-IsInOrder expected env args (begun ++ map upload_tx writes)
                    (append_assoc begun (map upload_tx writes) tail ∙ split'))))))
