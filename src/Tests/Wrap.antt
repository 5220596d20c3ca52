-- ===== src/Tests/Wrap.antt =====
-- Runs of the theorems on the calls that the SDK hands to Anchor and on the benchmark's upload.
use zksettle.Base.{ℕ, ◌≡◌, refl, some, none, [], ◌∷◌, replicate, arith, err}
use zksettle.Base.Bytes.{Bytes}
use zksettle.Web3.Concrete.{concrete}
use zksettle.Tests.{PublicKey, key}
use zksettle.Upload.Program.{panicked}
use zksettle.Upload.Client.Writes.{writing}
use zksettle.Wrap.{AnchorCall, StagedTransfer, build_settle_hook_ix, settle_accounts, big_number}
use zksettle.Wrap.Idl.{idl_settle_hook}
use zksettle.Wrap.Resolved.{IsResolved, settle, build-IsResolved}
use zksettle.Scripts.{upload_proof}
use zksettle.Scripts.Upload.{program_network, upload_proof-panics}

abbrev staged : StagedTransfer PublicKey
staged = record { recipient = key 4; mint = key 3 }

abbrev settle_call : AnchorCall PublicKey
settle_call = record {
  method = "settle_hook";
  args = big_number 1_000 ∷ [];
  accounts = settle_accounts concrete (key 1) (key 5) staged (key 2);
}

build-IsResolved_example : IsResolved concrete (key 1) (key 2) idl_settle_hook settle_call
unfolding build_settle_hook_ix
build-IsResolved_example =
    build-IsResolved concrete (λ _. some (key 5)) (λ _. some staged) (key 1) (key 2) (settle 1_000)
      settle_call refl (omega arith) refl

-- A payload that is not staged, or a registry that is missing.
build_settle_hook_ix_test :
    build_settle_hook_ix concrete (λ _. some (key 5)) (λ _. none) (key 1) 1_000 (key 2) ≡ none
unfolding build_settle_hook_ix
build_settle_hook_ix_test = refl

abbrev proof : Bytes
proof = replicate 1000 7

upload_proof-panics_example :
    upload_proof {Key = ℕ} (program_network 500 (λ s. err panicked)) proof 3 4 none
    ≡ (some (writing 500 1000 0 []), err panicked)
upload_proof-panics_example =
    upload_proof-panics {Key = ℕ} 500 (λ s. err panicked) proof 3 4 (omega arith) (omega arith)
