-- ===== src/Upload/Program.antt =====
-- The hook payload of the zksettle program, as the SDK drives it:
-- backend/programs/zksettle/src/instructions/transfer_hook/handlers.rs, types.rs and the account
-- constraints of mod.rs. One authority's account is the state; rent, the issuer account and the
-- signer checks are not modelled.
use zksettle.Base.{
  ℕ, ◌+◌, Bool, true, false, not, Option, none, some, List, [], ◌∷◌, ◌++◌, ltb, leb, ◌==◌,
  if◌then◌else◌, length, take, drop, replicate, Result, ok, err, guard, ◌>>=◌, ◌>>◌, min, all, ◌&&◌,
}
use zksettle.Base.Bytes.{Bytes}

-- `StagedLightArgs`
pub record StagedLightArgs : Type 0 where
  pub bubblegum_tail : ℕ
  pub proof_present : Bool
  pub proof_bytes : Bytes
  pub address_mt_index : ℕ
  pub address_queue_index : ℕ
  pub address_root_index : ℕ
  pub output_state_tree_index : ℕ

-- The arguments of `finalize_hook_payload`.
pub record FinalizeArgs (Key : Type 0) : Type 0 where
  pub nullifier_hash : Bytes
  pub mint : Key
  pub epoch : ℕ
  pub recipient : Key
  pub amount : ℕ
  pub light_args : StagedLightArgs

-- `data_len` is the size of the account; `staged` is what `finalize` has stored.
pub record HookPayload (Key : Type 0) : Type 0 where
  pub data_len : ℕ
  pub expected_proof_len : ℕ
  pub high_water_mark : ℕ
  pub finalized : Bool
  pub proof_and_witness : Bytes
  pub staged : Option (FinalizeArgs Key)

pub data HookIx (Key : Type 0) : Type 0 where
  init_hook_payload : (expected_proof_len : ℕ) → HookIx Key
  resize_hook_payload : HookIx Key
  write_hook_proof : (offset : ℕ) (chunk : Bytes) → HookIx Key
  finalize_hook_payload : FinalizeArgs Key → HookIx Key

-- The program's errors, those of the account constraints and a panic included.
pub data ProgramError : Type 0 where
  hook_payload_invalid already_in_use account_not_initialized payload_already_finalized :
      ProgramError
  chunk_not_sequential chunk_out_of_bounds panicked : ProgramError
  zero_nullifier invalid_transfer_amount proof_incomplete : ProgramError

abbrev pub max_hook_proof_bytes : ℕ
max_hook_proof_bytes = 16_384

abbrev pub realloc_cap : ℕ
realloc_cap = 10_240

abbrev pub is_zero_hash : Bytes → Bool
is_zero_hash bs = all (λ b. b == 0) bs

-- `payload.proof_and_witness[offset..end].copy_from_slice(&chunk)`
abbrev pub splice : Bytes → ℕ → Bytes → Bytes
splice buf offset chunk = take offset buf ++ (chunk ++ drop (offset + length chunk) buf)

-- `base_space` is `8 + HookPayload::BASE_SPACE`.
module _ {Key : Type 0} (base_space : ℕ) where
  unfoldable pub init_handler : ℕ → Result ProgramError (HookPayload Key)
  init_handler len = do
    guard (ltb 0 len && leb len max_hook_proof_bytes) hook_payload_invalid
    ok (record {
      data_len = base_space;
      expected_proof_len = len;
      high_water_mark = 0;
      finalized = false;
      proof_and_witness = [];
      staged = none;
    })

  unfoldable pub resize_handler : HookPayload Key → Result ProgramError (HookPayload Key)
  resize_handler p =
      let target = base_space + p.expected_proof_len in
      let new_len = min target (p.data_len + realloc_cap) in
      if leb target p.data_len
      then ok p
      else if leb target new_len
      then ok
          (record p { data_len = new_len; proof_and_witness = replicate p.expected_proof_len 0 })
      else ok (record p { data_len = new_len })

  unfoldable pub write_handler : ℕ → Bytes → HookPayload Key → Result ProgramError (HookPayload Key)
  write_handler offset chunk p = do
    guard (offset == p.high_water_mark) chunk_not_sequential
    let end = offset + length chunk
    guard (leb end p.expected_proof_len) chunk_out_of_bounds
    guard (leb end (length p.proof_and_witness)) panicked
    ok (record p {
      proof_and_witness = splice p.proof_and_witness offset chunk;
      high_water_mark = end;
    })

  unfoldable pub finalize_handler :
      FinalizeArgs Key → HookPayload Key → Result ProgramError (HookPayload Key)
  finalize_handler a p = do
    guard (not (is_zero_hash a.nullifier_hash)) zero_nullifier
    guard (ltb 0 a.amount) invalid_transfer_amount
    guard (p.high_water_mark == p.expected_proof_len) proof_incomplete
    ok (record p { finalized = true; staged = some a })

  -- The constraint `!hook_payload.finalized` of the modifying instructions.
  abbrev pub modify :
      (HookPayload Key → Result ProgramError (HookPayload Key))
      → Option (HookPayload Key)
      → Result ProgramError (Option (HookPayload Key))
  modify handler none = err account_not_initialized
  modify handler (some p) = do
    guard (not p.finalized) payload_already_finalized
    p' ← handler p
    ok (some p')

  unfoldable pub exec :
      HookIx Key → Option (HookPayload Key) → Result ProgramError (Option (HookPayload Key))
  unfolding init_handler resize_handler write_handler finalize_handler
  exec (init_hook_payload len) none = do p ← init_handler len; ok (some p)
  exec (init_hook_payload len) (some p) = err already_in_use
  exec resize_hook_payload s = modify resize_handler s
  exec (write_hook_proof offset chunk) s = modify (write_handler offset chunk) s
  exec (finalize_hook_payload a) s = modify (finalize_handler a) s

  -- A transaction runs its instructions in order; one that fails leaves no trace.
  unfoldable pub exec_all :
      List (HookIx Key) → Option (HookPayload Key) → Result ProgramError (Option (HookPayload Key))
  exec_all [] s = ok s
  exec_all (ix ∷ ixs) s = exec ix s >>= λ s'. exec_all ixs s'
