-- ===== src/Upload/Chunks.antt =====
-- How sdk/src/wrap/index.ts cuts a proof into `writeHookProof` instructions and batches them.
use zksettle.Base.{
  ℕ, zero, suc, ◌+◌, ◌-◌, List, [], ◌∷◌, ltb, if◌then◌else◌, length, take, drop, min,
}
use zksettle.Base.Bytes.{Bytes}
use zksettle.Upload.Program.{HookIx, write_hook_proof}

abbrev pub chunk_size_default : ℕ
chunk_size_default = 450

abbrev pub writes_per_tx : ℕ
writes_per_tx = 2

module _ {Key : Type 0} where
  -- `for (let offset = 0; offset < proofBytes.length; offset += chunkSize)`, on fuel.
  unfoldable pub write_ixs_from : ℕ → ℕ → ℕ → Bytes → List (HookIx Key)
  write_ixs_from zero chunk_size offset proof = []
  write_ixs_from (suc fuel) chunk_size offset proof =
      let end = min (offset + chunk_size) (length proof) in
      let chunk = take (end - offset) (drop offset proof) in
      let more =
        write_hook_proof offset chunk
        ∷ write_ixs_from fuel chunk_size (offset + chunk_size) proof in
      if ltb offset (length proof) then more else []

  -- Every round moves by a byte at least, so the proof's length is fuel enough.
  unfoldable pub write_ixs : ℕ → Bytes → List (HookIx Key)
  unfolding write_ixs_from
  write_ixs chunk_size proof = write_ixs_from (length proof) chunk_size 0 proof

  -- `writeIxs.slice(i, i + WRITES_PER_TX)` for `i = 0, 2, 4, …`.
  unfoldable pub batches : List (HookIx Key) → List (List (HookIx Key))
  batches [] = []
  batches (a ∷ []) = (a ∷ []) ∷ []
  batches (a ∷ b ∷ rest) = (a ∷ b ∷ []) ∷ batches rest
