-- ===== src/ProveFlow/Submit/Batches.antt =====
-- The transactions of the submit step in frontend/src/hooks/use-prove-flow.ts: three signed batches.
-- The compute-budget instructions before the finalize instruction do not touch the account.
pub mod Uploads
pub mod Fee
use zksettle.Base.Bytes.{Bytes}
use zksettle.Base.{
  none, some, [], ◌∷◌, ℕ, List, Option, length, map, replicate, get_elem?, if◌then◌else◌, ◌*◌, ◌++◌,
  ◌+◌, leb, ◌/◌, min, max,
}
use zksettle.Upload.Program.{
  HookIx, FinalizeArgs, init_hook_payload, resize_hook_payload, finalize_hook_payload,
}
use zksettle.Upload.Chunks.{write_ixs, batches, chunk_size_default}

module _ {Key : Type 0} where
  -- `Math.ceil(proofBytes.length / 10_240)` resize instructions
  unfoldable pub resize_ixs : Bytes → List (HookIx Key)
  resize_ixs proof = replicate ((length proof + 10_239) / 10_240) resize_hook_payload

  -- `buildWriteIxs`
  unfoldable pub build_write_ixs : Bytes → List (HookIx Key)
  unfolding write_ixs
  build_write_ixs proof = write_ixs chunk_size_default proof

  -- The transactions of `sendInitResizeBatch`: the first resize goes with the init instruction.
  unfoldable pub init_resize_txs : HookIx Key → List (HookIx Key) → List (List (HookIx Key))
  init_resize_txs init [] = (init ∷ []) ∷ []
  init_resize_txs init (first ∷ rest) = (init ∷ first ∷ []) ∷ map (λ ix. ix ∷ []) rest

  -- All transactions in the order in which they are sent.
  unfoldable pub submit_txs : Bytes → FinalizeArgs Key → List (List (HookIx Key))
  unfolding resize_ixs build_write_ixs init_resize_txs batches
  submit_txs proof args =
      init_resize_txs (init_hook_payload (length proof)) (resize_ixs proof)
      ++ (batches (build_write_ixs proof) ++ (finalize_hook_payload args ∷ []) ∷ [])

abbrev pub fee_floor : ℕ
fee_floor = 200_000

abbrev pub fee_ceiling : ℕ
fee_ceiling = 1_000_000

-- `sort((a, b) => a - b)`
abbrev pub insert_fee : ℕ → List ℕ → List ℕ
insert_fee fee [] = fee ∷ []
insert_fee fee (x ∷ xs) =
    let later = x ∷ insert_fee fee xs in if leb fee x then fee ∷ x ∷ xs else later

abbrev pub sort_fees : List ℕ → List ℕ
sort_fees [] = []
sort_fees (x ∷ xs) = insert_fee x (sort_fees xs)

-- The 75th percentile of sorted fees, between the floor and the ceiling.
abbrev pub fee_of : List ℕ → ℕ
fee_of sorted =
    let p75 : ℕ = elim (get_elem? sorted (length sorted * 3 / 4)) [ none ↦ 0 | some fee ↦ fee ] in
    min fee_ceiling (max fee_floor p75)

-- `getDynamicPriorityFee` on the recent fees; `none` is a call that threw.
unfoldable pub dynamic_priority_fee : Option (List ℕ) → ℕ
dynamic_priority_fee none = fee_floor
dynamic_priority_fee (some []) = fee_floor
dynamic_priority_fee (some (x ∷ xs)) = fee_of (sort_fees (x ∷ xs))
