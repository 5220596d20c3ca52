-- ===== src/ProveFlow/Submit.antt =====
-- The waiting loops of the submit step in frontend/src/hooks/use-prove-flow.ts. A loop runs over the
-- list of its rounds, each with what the RPC node and `Date.now()` answered in it; `pending` says that
-- the list ended before the loop did.
pub mod Confirm
pub mod Rebroadcast
pub mod Batches
pub mod Sequence
use zksettle.Base.Text.{Text}
use zksettle.Base.{
  none, some, [], ◌∷◌, ok, err, true, false, Option, ℕ, Result, Bool, List, min, ltb, if◌then◌else◌,
  ◌+◌, ◌*◌, suc, not,
}

pub data ConfirmationStatus : Type 0 where
  processed confirmed finalized : ConfirmationStatus

pub record SignatureStatus : Type 0 where
  pub confirmation_status : Option ConfirmationStatus
  -- `value.err` is there
  pub failed : Bool

-- What the submit step throws: the expiry of the block hash, a transaction that landed and failed,
-- and what an RPC call or the wallet threw.
pub data SubmitError : Type 0 where
  block_height_exceeded landed_but_failed : SubmitError
  call_failed : Text → SubmitError

pub data LoopEnd : Type 0 where
  landed timed_out pending : LoopEnd
  threw : SubmitError → LoopEnd

unfoldable pub commitment_reached : Option ConfirmationStatus → ConfirmationStatus → Bool
commitment_reached none commitment = false
commitment_reached (some status) processed = true
commitment_reached (some processed) confirmed = false
commitment_reached (some confirmed) confirmed = true
commitment_reached (some finalized) confirmed = true
commitment_reached (some processed) finalized = false
commitment_reached (some confirmed) finalized = true
commitment_reached (some finalized) finalized = true

abbrev pub status_of : Option SignatureStatus → Option ConfirmationStatus
status_of none = none
status_of (some value) = value.confirmation_status

abbrev pub has_failed : Option SignatureStatus → Bool
has_failed none = false
has_failed (some value) = value.failed

-- A round of `tryConfirmViaPolling`.
pub record PollRound : Type 0 where
  pub now : ℕ
  pub answer : Result Text (Option SignatureStatus)

abbrev pub confirm_fallback_timeout_ms : ℕ
confirm_fallback_timeout_ms = 30_000

abbrev pub confirm_fallback_initial_delay_ms : ℕ
confirm_fallback_initial_delay_ms = 1_000

abbrev pub confirm_fallback_max_delay_ms : ℕ
confirm_fallback_max_delay_ms = 4_000

-- The loop of `tryConfirmViaPolling`, with the delays that it has slept.
unfoldable pub poll_loop : ConfirmationStatus → ℕ → ℕ → List PollRound → LoopEnd × List ℕ
unfolding commitment_reached
poll_loop commitment deadline delay [] = (pending, [])
poll_loop commitment deadline delay (r ∷ rest) =
    let later =
      poll_loop commitment deadline (min (delay * 2) confirm_fallback_max_delay_ms) rest in
    if not (ltb r.now deadline) then (timed_out, []) else elim r.answer [
      | err e ↦ (threw (call_failed e), [])
      | ok value ↦
          if commitment_reached (status_of value) commitment
          then ((if has_failed value then threw landed_but_failed else landed), [])
          else (later.0, delay ∷ later.1)
    ]

unfoldable pub try_confirm_via_polling : ConfirmationStatus → ℕ → List PollRound → LoopEnd × List ℕ
unfolding poll_loop
try_confirm_via_polling commitment start rounds =
    poll_loop commitment (start + confirm_fallback_timeout_ms) confirm_fallback_initial_delay_ms
      rounds

-- What `confirmTx` makes of the end of the polling.
abbrev pub after_polling : LoopEnd → LoopEnd
after_polling landed = landed
after_polling timed_out = threw block_height_exceeded
after_polling pending = pending
after_polling (threw e) = threw e

-- `confirmTx`: the answer of `confirmTransaction`, and the polling behind an expired block height.
unfoldable pub confirm_tx :
    ConfirmationStatus → Result SubmitError (Unit {0}) → ℕ → List PollRound → LoopEnd
unfolding try_confirm_via_polling
confirm_tx commitment (ok _) start rounds = landed
confirm_tx commitment (err block_height_exceeded) start rounds =
    after_polling (try_confirm_via_polling commitment start rounds).0
confirm_tx commitment (err e) start rounds = threw e

-- A round of `rebroadcastUntilLandedOrExpired`; `none` is a call that threw. `now` is `Date.now()`.
pub record Round : Type 0 where
  pub statuses : Option (Option SignatureStatus)
  pub height : Option ℕ
  pub now : ℕ

-- `pollFinalizeLanded`
unfoldable pub poll_finalize_landed : Option (Option SignatureStatus) → Result SubmitError Bool
poll_finalize_landed none = ok false
poll_finalize_landed (some none) = ok false
poll_finalize_landed (some (some status)) =
    if status.failed
    then err landed_but_failed
    else ok (elim status.confirmation_status [
      | none ↦ false
      | some c ↦ elim c [ processed ↦ false | confirmed ↦ true | finalized ↦ true ]
    ])

abbrev pub final_poll_timeout_ms : ℕ
final_poll_timeout_ms = 30_000

abbrev pub rebroadcast_interval_ms : ℕ
rebroadcast_interval_ms = 2_000

-- `height !== null && height > bh.lastValidBlockHeight`
abbrev pub is_past : Option ℕ → ℕ → Bool
is_past none last_valid = false
is_past (some height) last_valid = ltb last_valid height

-- `rebroadcastUntilLandedOrExpired`: its end, and how often the transaction was sent again. The state
-- is the deadline, once the block hash has expired.
unfoldable pub rebroadcast : ℕ → Option ℕ → List Round → LoopEnd × ℕ
rebroadcast last_valid expiry_deadline [] = (pending, 0)
rebroadcast last_valid none (r ∷ rest) =
    let expired = rebroadcast last_valid (some (r.now + final_poll_timeout_ms)) rest in
    let open' = rebroadcast last_valid none rest in
    elim (poll_finalize_landed r.statuses) [
      | err e ↦ (threw e, 0)
      | ok is_landed ↦
          if is_landed
          then (landed, 0)
          else if is_past r.height last_valid
          then expired
          else (open'.0, suc open'.1)
    ]
rebroadcast last_valid (some deadline) (r ∷ rest) =
    let later = rebroadcast last_valid (some deadline) rest in
    elim (poll_finalize_landed r.statuses) [
      | err e ↦ (threw e, 0)
      | ok is_landed ↦
          if is_landed
          then (landed, 0)
          else if ltb deadline r.now
          then (threw block_height_exceeded, 0)
          else later
    ]
