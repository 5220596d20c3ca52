-- ===== src/Upload/Client.antt =====
-- `uploadProofChunked` of sdk/src/wrap/index.ts. The wallet (`signAndSend`) and the RPC connection act
-- on a state `S` that the code does not see; they are the record `Rpc`. `await` is a sequence point, a
-- rejected promise an error. `Date.now()` is an argument, in milliseconds.
pub mod Writes
pub mod Resizes
pub mod Upload
use zksettle.Base.{
  ℕ, zero, suc, ◌+◌, ◌/◌, Option, none, some, List, [], ◌∷◌, ltb, if◌then◌else◌, length, max,
  Result, ok, err, ◌>>=◌, String, replicate, false,
}
use zksettle.Base.Bytes.{Bytes}
use zksettle.Upload.Program.{
  HookIx, init_hook_payload, resize_hook_payload, finalize_hook_payload, FinalizeArgs,
  StagedLightArgs,
}
use zksettle.Upload.Chunks.{write_ixs, batches, chunk_size_default}

pub record Blockhash : Type 0 where
  pub blockhash : String
  pub last_valid_block_height : ℕ

pub record Tx (Key : Type 0) : Type 0 where
  pub instructions : List (HookIx Key)
  pub fee_payer : Option Key
  pub recent_blockhash : Option String

-- The two errors of `uploadProofChunked`; `rejected` is what the wallet or the RPC throws.
-- `resizes_left` says that the resize loop did not end within its fuel.
pub data UploadError : Type 0 where
  missing_after_init missing_after_resize resizes_left : UploadError
  rejected : String → UploadError

pub record Rpc (Key S : Type 0) : Type 0 where
  pub sign_and_send : Tx Key → S → Result UploadError (String × S)
  pub confirm_transaction : String → Blockhash → S → Result UploadError S
  pub get_latest_blockhash : S → Result UploadError Blockhash
  -- `getAccountInfo(hookPayloadPda)`, of which the code reads `data.length`
  pub hook_payload_len : S → Result UploadError (Option ℕ)

pub record TransferContext (Key : Type 0) : Type 0 where
  pub mint : Key
  pub recipient : Key
  pub amount : ℕ
  pub epoch : Option ℕ

pub record UploadOptions (Key : Type 0) : Type 0 where
  pub wallet : Key
  pub proof : Bytes
  pub nullifier_hash : Bytes
  pub transfer_context : TransferContext Key
  pub light_args : Option StagedLightArgs
  pub chunk_size : Option ℕ

pub record UploadResult : Type 0 where
  pub init_signature : String
  pub chunk_signatures : List String
  pub finalize_signature : String

abbrev pub default_light_args : StagedLightArgs
default_light_args = record {
  bubblegum_tail = 0;
  proof_present = false;
  proof_bytes = replicate 128 0;
  address_mt_index = 0;
  address_queue_index = 0;
  address_root_index = 0;
  output_state_tree_index = 0;
}

abbrev pub or_default : {A : Type 0} → Option A → A → A
or_default none d = d
or_default (some a) d = a

unfoldable pub finalize_args : {Key : Type 0} → ℕ → UploadOptions Key → FinalizeArgs Key
finalize_args now_ms opts = record {
  nullifier_hash = opts.nullifier_hash;
  mint = opts.transfer_context.mint;
  epoch = or_default opts.transfer_context.epoch (now_ms / 1000 / 86_400);
  recipient = opts.transfer_context.recipient;
  amount = opts.transfer_context.amount;
  light_args = or_default opts.light_args default_light_args;
}

module _ {Key S : Type 0} (rpc : Rpc Key S) (wallet : Key) where
  open rpc use {sign_and_send, confirm_transaction, get_latest_blockhash, hook_payload_len}

  -- Fee payer and block hash are set, the transaction is sent and its confirmation awaited.
  pub send_confirmed : List (HookIx Key) → S → Result UploadError (String × S)
  send_confirmed instructions s = do
    bh ← get_latest_blockhash s
    (sig, s) ←
        sign_and_send
          (record {
            instructions = instructions;
            fee_payer = some wallet;
            recent_blockhash = some bh.blockhash;
          })
          s
    s ← confirm_transaction sig bh s
    ok (sig, s)

  -- `while (currentSize < targetSize)`
  pub resize_loop : ℕ → ℕ → ℕ → S → Result UploadError S
  resize_loop zero current_size target_size s = err resizes_left
  resize_loop (suc fuel) current_size target_size s =
      let round = send_confirmed (resize_hook_payload ∷ []) s >>= λ sent.
      hook_payload_len sent.1 >>= λ after. elim after [
        | none ↦ err missing_after_resize
        | some len ↦ resize_loop fuel len target_size sent.1
      ] in
      if ltb current_size target_size then round else ok s

  -- The loop over the batches of write instructions.
  pub send_batches : List (List (HookIx Key)) → S → Result UploadError (List String × S)
  send_batches [] s = ok ([], s)
  send_batches (batch ∷ rest) s = do
    (sig, s) ← send_confirmed batch s
    (sigs, s) ← send_batches rest s
    ok (sig ∷ sigs, s)

-- `build_finalize_ix` is Anchor's encoding of the finalize instruction, which throws on what its fields
-- do not hold. The numbers of the other instructions are lengths and offsets of the proof.
pub upload_proof_chunked :
    {Key S : Type 0}
    → Rpc Key S
    → (FinalizeArgs Key → Result UploadError (HookIx Key))
    → ℕ
    → ℕ
    → UploadOptions Key
    → S
    → Result UploadError (UploadResult × S)
upload_proof_chunked rpc build_finalize_ix fuel now_ms opts s = do
  let chunk_size = max 1 (or_default opts.chunk_size chunk_size_default)
  (init_signature, s) ←
      send_confirmed rpc opts.wallet (init_hook_payload (length opts.proof) ∷ []) s
  baseline ← rpc.hook_payload_len s
  elim baseline [
    | none ↦ err missing_after_init
    | some header_size ↦ do
      s ← resize_loop rpc opts.wallet fuel header_size (header_size + length opts.proof) s
      (chunk_signatures, s) ←
          send_batches rpc opts.wallet (batches (write_ixs chunk_size opts.proof)) s
      finalize_ix ← build_finalize_ix (finalize_args now_ms opts)
      (finalize_signature, s) ←
          rpc.sign_and_send
            (record { instructions = finalize_ix ∷ []; fee_payer = none; recent_blockhash = none })
            s
      ok (
        record {
          init_signature = init_signature;
          chunk_signatures = chunk_signatures;
          finalize_signature = finalize_signature;
        },
        s,
      )
  ]
