-- ===== src/ProveFlow/Submit/Batches/Uploads.antt =====
-- The three batches of the submit step upload the proof.
use zksettle.Base.Bytes.{Bytes}
use mathlib.Core.List.{append_assoc}
use zksettle.Base.{
  none, some, [], ◌∷◌, ok, true, false, inl, inr, refl, zero, suc, ℕ, List, Option, concat, map,
  ◌++◌, replicate, ◌≡◌, ◌<◌, ◌+◌, le→leb, ◌∙◌, ◌≤◌, ap, ◌*◌, ◌>>=◌, arith, sym, Bool-cases, ltb,
  ltb→lt, ltb-ge, length, ◌/◌,
}
use zksettle.Upload.Program.{
  HookIx, HookPayload, FinalizeArgs, exec, exec_all, resize_handler, resize_hook_payload,
  init_hook_payload, finalize_hook_payload, realloc_cap, max_hook_proof_bytes, is_zero_hash,
}
use zksettle.Upload.Chunks.{batches, write_ixs}
use zksettle.Upload.Client.Writes.{writing, exec_all-write_ixs}
use zksettle.Upload.Client.Resizes.{resize-partial, resize-last}
use zksettle.Upload.Client.Upload.{concat-batches, exec_all-append, exec-init, exec-finalize}
use zksettle.ProveFlow.Submit.Batches.{
  resize_ixs, build_write_ixs, init_resize_txs, submit_txs, Bytes,
}

concat-append :
    {A : Type 0} (xss yss : List (List A)) → concat (xss ++ yss) ≡ concat xss ++ concat yss
concat-append [] yss = refl
concat-append (xs ∷ xss) yss =
    ap (λ t. xs ++ t) (concat-append xss yss) ∙ sym (append_assoc xs (concat xss) (concat yss))

concat-singles : {A : Type 0} (xs : List A) → concat (map (λ x. x ∷ []) xs) ≡ xs
concat-singles [] = refl
concat-singles (x ∷ xs) = ap (λ t. x ∷ t) (concat-singles xs)

concat-init_resize_txs :
    {Key : Type 0} (init : HookIx Key) (resizes : List (HookIx Key))
    → concat (init_resize_txs init resizes) ≡ init ∷ resizes
unfolding init_resize_txs
concat-init_resize_txs init [] = refl
concat-init_resize_txs init (first ∷ rest) = ap (λ t. init ∷ first ∷ t) (concat-singles rest)

module _ {Key : Type 0} (base_space : ℕ) where
  then_exec :
      (xs ys : List (HookIx Key)) (s s' : Option (HookPayload Key))
      → exec_all base_space xs s ≡ ok s'
      → exec_all base_space (xs ++ ys) s ≡ exec_all base_space ys s'
  then_exec xs ys s s' h =
      exec_all-append base_space xs ys s ∙ ap (λ r. r >>= λ t. exec_all base_space ys t) h

  resize-full :
      (len : ℕ) (buf : Bytes)
      → exec_all base_space
          (resize_hook_payload ∷ [])
          (some (writing {Key = Key} (base_space + len) len 0 buf))
        ≡ ok (some (writing (base_space + len) len 0 buf))
  unfolding exec_all exec resize_handler
  resize-full len buf = rw (le→leb (base_space + len) (base_space + len) (omega arith)) refl

  -- Resizes of a full account change nothing.
  resizes-full :
      (n len : ℕ) (buf : Bytes)
      → exec_all base_space
          (replicate n resize_hook_payload)
          (some (writing {Key = Key} (base_space + len) len 0 buf))
        ≡ ok (some (writing (base_space + len) len 0 buf))
  unfolding exec_all
  resizes-full zero len buf = refl
  resizes-full (suc n) len buf =
      then_exec (resize_hook_payload ∷ []) (replicate n resize_hook_payload) _ _
        (resize-full len buf)
      ∙ resizes-full n len buf

  exec_all-resizes :
      (n len c : ℕ) (buf : Bytes)
      → c < base_space + len
      → base_space + len ≤ c + n * realloc_cap
      → exec_all base_space
          (replicate n resize_hook_payload)
          (some (writing {Key = Key} c len 0 buf))
        ≡ ok (some (writing (base_space + len) len 0 (replicate len 0)))
  exec_all-resizes zero len c buf more enough = absurd (omega arith)
  exec_all-resizes (suc n) len c buf more enough =
      elim (Bool-cases (ltb (c + realloc_cap) (base_space + len))) [
        | inl far ↦
            then_exec (resize_hook_payload ∷ []) (replicate n resize_hook_payload) _ _
              (resize-partial base_space len c buf (ltb→lt _ _ far))
            ∙ exec_all-resizes n len (c + realloc_cap) buf (ltb→lt _ _ far) (omega arith)
        | inr near ↦
            then_exec (resize_hook_payload ∷ []) (replicate n resize_hook_payload) _ _
              (resize-last base_space len c buf more (ltb-ge _ _ near))
            ∙ resizes-full n len (replicate len 0)
      ]

-- Run one after the other on an account that does not exist yet, the transactions of the three batches
-- are all accepted, for a proof of 1 to 16,384 bytes, a non-zero nullifier and a positive amount. They
-- leave the account finalized, with the whole proof and the given arguments; the number of resize
-- instructions, counted from the proof's size alone, is enough.
pub submit_txs-uploads :
    {Key : Type 0} (base_space : ℕ) (proof : Bytes) (args : FinalizeArgs Key)
    → 0 < length proof
    → length proof ≤ max_hook_proof_bytes
    → is_zero_hash args.nullifier_hash ≡ false
    → 0 < args.amount
    → exec_all base_space (concat (submit_txs proof args)) none
      ≡ ok (
          some (record {
            data_len = base_space + length proof;
            expected_proof_len = length proof;
            high_water_mark = length proof;
            finalized = true;
            proof_and_witness = proof;
            staged = some args;
          }))
unfolding submit_txs resize_ixs build_write_ixs
submit_txs-uploads {Key} base_space proof args pos small fresh paid =
    let n : ℕ = (length proof + 10_239) / 10_240 in
    let init : HookIx Key = init_hook_payload (length proof) in
    let resizes : List (HookIx Key) = replicate n resize_hook_payload in
    let writes : List (HookIx Key) = write_ixs 450 proof in
    let last : List (HookIx Key) = finalize_hook_payload args ∷ [] in
    let target : ℕ = base_space + length proof in
    let flat : concat (submit_txs proof args) ≡ (init ∷ []) ++ (resizes ++ (writes ++ last)) =
      concat-append (init_resize_txs init resizes) (batches writes ++ last ∷ [])
      ∙ (λ i. concat-init_resize_txs init resizes i ++ concat-append (batches writes) (last ∷ []) i)
      ∙ ap (λ t. init ∷ resizes ++ (t ++ last)) (concat-batches writes) in
    rw flat (
      then_exec base_space (init ∷ []) (resizes ++ (writes ++ last)) none
        (some (writing base_space (length proof) 0 []))
        (exec-init base_space (length proof) pos small)
      ∙ then_exec base_space resizes (writes ++ last)
          (some (writing base_space (length proof) 0 []))
          (some (writing target (length proof) 0 (replicate (length proof) 0)))
          (exec_all-resizes base_space n (length proof) base_space [] (omega arith) (omega arith))
      ∙ then_exec base_space writes last
          (some (writing target (length proof) 0 (replicate (length proof) 0)))
          (some (writing target (length proof) (length proof) proof))
          (exec_all-write_ixs base_space target 450 proof (omega arith))
      ∙ exec-finalize base_space args target proof fresh paid)
