-- ===== src/Upload/Client/Upload.antt =====
-- `uploadProofChunked` from an empty account to a finalized one.
use zksettle.Base.Bytes.{Bytes}
use zksettle.Base.{
  refl, ℕ, List, concat, ◌+◌, All, ◌<◌, ◌^◌, Result, Option, ◌++◌, length, ◌≤◌, ◌≡◌, ◌∷◌, true,
  ◌>>=◌, ok, arith, ap, some, Result-cases, [], none, lt→ltb, le→leb, inl, inr, false, ==_refl,
}
use zksettle.Upload.Program.{
  HookPayload, HookIx, exec, exec_all, init_handler, finalize_handler, init_hook_payload,
  finalize_hook_payload, is_zero_hash, max_hook_proof_bytes, FinalizeArgs,
}
use zksettle.Upload.Chunks.{batches}
use zksettle.Upload.Program.{StagedLightArgs}
use zksettle.Upload.Client.{UploadError, UploadOptions, finalize_args, FinalizeArgs, Bytes}
use zksettle.Upload.Client.Writes.{writing}

-- Batching the write instructions neither drops nor repeats one, and keeps their order.
pub concat-batches : {Key : Type 0} (ixs : List (HookIx Key)) → concat (batches ixs) ≡ ixs
unfolding batches
concat-batches [] = refl
concat-batches (a ∷ []) = refl
concat-batches (a ∷ b ∷ rest) = ap (λ t. a ∷ b ∷ t) (concat-batches rest)

-- A transaction holds two write instructions at most, and none is empty.
pub batches-Sized :
    {Key : Type 0} (ixs : List (HookIx Key))
    → All (λ b. (0 < length b) × (length b ≤ 2)) (batches ixs)
unfolding batches
batches-Sized [] = tt
batches-Sized (a ∷ []) = ((omega arith, omega arith), tt)
batches-Sized (a ∷ b ∷ rest) = ((omega arith, omega arith), batches-Sized rest)

module _ {Key : Type 0} (base_space : ℕ) where
  pub exec_all-append :
      (xs ys : List (HookIx Key)) (s : Option (HookPayload Key))
      → exec_all base_space (xs ++ ys) s
        ≡ (exec_all base_space xs s >>= λ s'. exec_all base_space ys s')
  unfolding exec_all
  exec_all-append [] ys s = refl
  exec_all-append (x ∷ xs) ys s = elim (Result-cases (exec base_space x s)) [
    | inl (s', e) ↦ rw e (exec_all-append xs ys s')
    | inr (x', e) ↦ rw e refl
  ]

  pub exec-init :
      (len : ℕ)
      → 0 < len
      → len ≤ max_hook_proof_bytes
      → exec_all {Key = Key} base_space (init_hook_payload len ∷ []) none
        ≡ ok (some (writing base_space len 0 []))
  unfolding exec_all exec init_handler
  exec-init len pos small = rw (lt→ltb 0 len pos, le→leb len max_hook_proof_bytes small) refl

  pub exec-finalize :
      (a : FinalizeArgs Key) (d : ℕ) (proof : Bytes)
      → is_zero_hash a.nullifier_hash ≡ false
      → 0 < a.amount
      → exec_all base_space
          (finalize_hook_payload a ∷ [])
          (some (writing d (length proof) (length proof) proof))
        ≡ ok (
            some (record {
              data_len = d;
              expected_proof_len = length proof;
              high_water_mark = length proof;
              finalized = true;
              proof_and_witness = proof;
              staged = some a;
            }))
  unfolding exec_all exec finalize_handler
  exec-finalize a d proof fresh pos = rw (fresh, lt→ltb 0 a.amount pos, ==_refl (length proof)) refl

-- What `uploadProofChunked` leaves in the account.
abbrev pub uploaded : {Key : Type 0} → ℕ → ℕ → UploadOptions Key → HookPayload Key
uploaded base_space now_ms opts = record {
  data_len = base_space + length opts.proof;
  expected_proof_len = length opts.proof;
  high_water_mark = length opts.proof;
  finalized = true;
  proof_and_witness = opts.proof;
  staged = some (finalize_args now_ms opts);
}

-- The fields of the finalize instruction hold the arguments: 32 bytes of nullifier, integers of 64 bits,
-- and those of `StagedLightArgs`.
abbrev pub FitsLightArgs : StagedLightArgs → Type 0
FitsLightArgs a =
    (a.bubblegum_tail < 256)
    × (length a.proof_bytes ≡ 128)
    × (a.address_mt_index < 256)
    × (a.address_queue_index < 256)
    × (a.address_root_index < 2 ^ 16)
    × (a.output_state_tree_index < 256)

abbrev pub FitsFinalize : {Key : Type 0} → FinalizeArgs Key → Type 0
FitsFinalize a =
    (length a.nullifier_hash ≡ 32)
    × (a.epoch < 2 ^ 64)
    × (a.amount < 2 ^ 64)
    × FitsLightArgs a.light_args

-- What Anchor's encoding does on arguments that fit.
abbrev pub EncodesFitting :
    {Key : Type 0} → (FinalizeArgs Key → Result UploadError (HookIx Key)) → Type 0
EncodesFitting {Key} build_finalize_ix =
    (a : FinalizeArgs Key) → FitsFinalize a → build_finalize_ix a ≡ ok (finalize_hook_payload a)
