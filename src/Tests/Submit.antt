-- ===== src/Tests/Submit.antt =====
-- Runs of the theorems on the submit step.

use zksettle.Base.{
  none, some, [], ◌∷◌, ok, err, true, false, refl, ◌++◌, arith, concat, List, ◌≡◌, ℕ, ◌≤◌,
  replicate, suc, ◌+◌, zero,
}
use zksettle.Upload.Program.{FinalizeArgs, exec_all}
use zksettle.Upload.Client.{default_light_args}
use zksettle.ProveFlow.Submit.{
  Round, PollRound, confirmed, processed, rebroadcast, confirm_tx, block_height_exceeded,
}
use zksettle.ProveFlow.Submit.Rebroadcast.{
  IsPaced, IsJustified, is_pending, rebroadcast_ends, rebroadcast-IsJustified,
}
use zksettle.ProveFlow.Submit.Confirm.{IsPolled, confirm_tx_ends}
use zksettle.ProveFlow.Submit.Batches.{submit_txs, dynamic_priority_fee}
use zksettle.Base.Text.{codes}
use zksettle.ProveFlow.Flow.{Thrown, thrown_error}
use zksettle.ProveFlow.Submit.{Round, confirmed, rebroadcast, poll_finalize_landed}
use zksettle.ProveFlow.Submit.Sequence.{SubmitAnswers, submit}
use zksettle.ProveFlow.Submit.Sequence.Whole.{whole}
use zksettle.ProveFlow.Submit.Sequence.InOrder.{IsInOrder, submit-IsInOrder}
use zksettle.Base.{◌==◌, if◌then◌else◌}
use zksettle.ProveFlow.Submit.Batches.Uploads.{submit_txs-uploads}

-- A round in which nothing is known of the transaction.
abbrev unknown : ℕ → ℕ → Round
unknown now height = record { statuses = some none; height = some height; now = now }

-- `n` such rounds, two seconds apart, behind the last valid height.
abbrev quiet : ℕ → ℕ → List Round
quiet now zero = []
quiet now (suc n) = unknown (now + 2_000) 151 ∷ quiet (now + 2_000) n

abbrev before : List Round
before = unknown 2_000 149 ∷ unknown 4_000 150 ∷ []

abbrev crossing : Round
crossing = unknown 6_000 151

quiet-IsPaced : (n now : ℕ) → IsPaced now (quiet now n)
quiet-IsPaced zero now = tt
quiet-IsPaced (suc n) now = (omega arith, quiet-IsPaced n (now + 2_000))

paced : IsPaced 0 (before ++ crossing ∷ quiet 6_000 16)
paced = (omega arith, (omega arith, (omega arith, quiet-IsPaced 16 6_000)))

rebroadcast_ends_example :
    (is_pending (rebroadcast 150 none (before ++ crossing ∷ quiet 6_000 16)).0 ≡ false)
    × ((rebroadcast 150 none (before ++ crossing ∷ quiet 6_000 16)).1 ≤ 2)
rebroadcast_ends_example =
    rebroadcast_ends 150 0 before crossing (quiet 6_000 16) paced refl (omega arith)

abbrev late_landing : List Round
late_landing =
    unknown 2_000 151
    ∷ record {
      statuses = some (some (record { confirmation_status = some confirmed; failed = false }));
      height = some 152;
      now = 4_000;
    }
    ∷ []

rebroadcast-IsJustified_example : IsJustified (rebroadcast 150 none late_landing).0 late_landing
rebroadcast-IsJustified_example = rebroadcast-IsJustified 150 none late_landing

abbrev silent : ℕ → PollRound
silent now = record { now = now; answer = ok none }

abbrev silent_from : ℕ → ℕ → List PollRound
silent_from now zero = []
silent_from now (suc n) = silent (now + 4_000) ∷ silent_from (now + 4_000) n

silent-IsPolled : (n now : ℕ) → IsPolled now 4_000 (silent_from now n)
silent-IsPolled zero now = tt
silent-IsPolled (suc n) now = (omega arith, silent-IsPolled n (now + 4_000))

abbrev polls : List PollRound
polls = silent 3_000 ∷ silent_from 3_000 29

polls-IsPolled : IsPolled 1_000 2_000 polls
polls-IsPolled = (omega arith, silent-IsPolled 29 3_000)

confirm_tx_ends_example :
    is_pending (confirm_tx processed (err block_height_exceeded) 1_000 (silent 1_000 ∷ polls))
    ≡ false
confirm_tx_ends_example =
    confirm_tx_ends processed (err block_height_exceeded) 1_000 (silent 1_000) polls (omega arith)
      polls-IsPolled (omega arith)

abbrev finalize : FinalizeArgs ℕ
finalize = record {
  nullifier_hash = replicate 32 17;
  mint = 3;
  epoch = 20_000;
  recipient = 4;
  amount = 1_000;
  light_args = default_light_args;
}

submit_txs-uploads_example :
    exec_all 500 (concat (submit_txs (replicate 752 5) finalize)) none
    ≡ ok (
        some (record {
          data_len = 1252;
          expected_proof_len = 752;
          high_water_mark = 752;
          finalized = true;
          proof_and_witness = replicate 752 5;
          staged = some finalize;
        }))
submit_txs-uploads_example =
    submit_txs-uploads 500 (replicate 752 5) finalize (omega arith) (omega arith) refl (omega arith)

-- The 75th percentile of four fees is the largest.
dynamic_priority_fee_test : dynamic_priority_fee (some (250_000 ∷ 0 ∷ 700_000 ∷ 10 ∷ [])) ≡ 700_000
unfolding dynamic_priority_fee
dynamic_priority_fee_test = refl

-- A new issuer, and a transfer whose second transaction the node refuses.
abbrev refused : Thrown
refused = thrown_error (codes "blockhash not found")

-- A round that sends again, and one that sees the transaction.
abbrev waiting : Round
waiting = record { statuses = none; height = some 149; now = 2_000 }

abbrev on_chain : Round
on_chain = record {
  statuses = some (some (record { confirmation_status = some confirmed; failed = false }));
  height = none;
  now = 4_000;
}

abbrev answers : SubmitAnswers
unfolding rebroadcast poll_finalize_landed
answers = record {
  check_issuer_exists = ok false;
  sign_register = ok tt;
  check_hook_payload_exists = ok false;
  sign_close = err refused;
  build_ixs = ok tt;
  sign_init = ok tt;
  sign_writes = ok tt;
  sign_finalize = ok tt;
  send = λ n. if n == 1 then err refused else ok tt;
  confirm_writes = ok tt;
  final_sig = codes "5sig";
  last_valid = 150;
  rounds = waiting ∷ on_chain ∷ [];
  ended = refl;
  expired_message = codes "block height exceeded";
}

submit-IsInOrder_example :
    IsInOrder (whole answers (replicate 752 5) finalize) (submit answers (replicate 752 5) finalize)
submit-IsInOrder_example = submit-IsInOrder answers (replicate 752 5) finalize
