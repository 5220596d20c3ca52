-- ===== src/Tests/Upload.antt =====
-- Runs of the theorems on the chunked upload.
use zksettle.Base.Bytes.{Bytes}
use zksettle.Base.{none, ℕ, ◌≡◌, some, replicate, [], ok, arith}
use zksettle.Upload.Program.{exec_all, FinalizeArgs, HookIx, finalize_hook_payload}
use zksettle.Base.{Result, err, length, ◌==◌, ◌&&◌, ltb, ◌^◌, if◌then◌else◌}
use zksettle.Upload.Chunks.{write_ixs}
use zksettle.Upload.Client.{UploadError, rejected, UploadOptions, resize_loop}
use zksettle.Upload.Client.Writes.{writing, exec_all-write_ixs}
use zksettle.Upload.Client.Resizes.{program_rpc, resize_loop-program}

abbrev proof : Bytes
proof = replicate 1000 7

abbrev options : UploadOptions ℕ
options = record {
  wallet = 1;
  proof = proof;
  nullifier_hash = replicate 32 17;
  transfer_context = record { mint = 3; recipient = 4; amount = 1_000; epoch = none };
  light_args = none;
  chunk_size = none;
}

exec_all-write_ixs_example :
    exec_all {Key = ℕ} 500 (write_ixs 450 proof) (some (writing 1500 1000 0 (replicate 1000 0)))
    ≡ ok (some (writing 1500 1000 1000 proof))
exec_all-write_ixs_example = exec_all-write_ixs {Key = ℕ} 500 1500 450 proof (omega arith)

resize_loop-program_example :
    resize_loop (program_rpc {Key = ℕ} 500) 1 3 500 16500 (some (writing 500 16000 0 []))
    ≡ ok (some (writing 16500 16000 0 (replicate 16000 0)))
resize_loop-program_example =
    resize_loop-program {Key = ℕ} 500 1 2 16000 500 [] (omega arith) (omega arith)

-- An encoder that looks at the nullifier and at the amount.
abbrev build_finalize_ix : FinalizeArgs ℕ → Result UploadError (HookIx ℕ)
build_finalize_ix a =
    if length a.nullifier_hash == 32 && ltb a.amount (2 ^ 64)
    then ok (finalize_hook_payload a)
    else err (rejected "RangeError")
