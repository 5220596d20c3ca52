-- ===== src/ProveFlow/Submit/Confirm.antt =====
-- The confirmation of a transaction, with its polling fallback, ends.
use zksettle.Base.{
  [], ◌∷◌, ok, err, false, inl, inr, refl, ℕ, ◌≡◌, Result, List, ◌≤◌, ◌+◌, ◌<◌, ◌*◌, min, length,
  Bool-cases, arith, ltb, Result-cases, ltb→lt,
}
use zksettle.ProveFlow.Submit.{
  PollRound, LoopEnd, poll_loop, try_confirm_via_polling, confirm_tx, commitment_reached,
  ConfirmationStatus, after_polling, confirm_fallback_initial_delay_ms, SubmitError, threw, landed,
  confirm_fallback_max_delay_ms, timed_out, confirm_fallback_timeout_ms, call_failed, pending,
  landed_but_failed, block_height_exceeded, status_of, has_failed,
}
use zksettle.ProveFlow.Submit.Rebroadcast.{is_pending}

-- A round comes at least the slept delay after the round before it.
abbrev pub IsPolled : ℕ → ℕ → List PollRound → Type 0
IsPolled t delay [] = Unit
IsPolled t delay (r ∷ rest) =
    (t + delay ≤ r.now) × IsPolled r.now (min (delay * 2) confirm_fallback_max_delay_ms) rest

after_polling-is_pending :
    (end : LoopEnd) → is_pending end ≡ false → is_pending (after_polling end) ≡ false
after_polling-is_pending landed h = refl
after_polling-is_pending timed_out h = refl
after_polling-is_pending pending h = h
after_polling-is_pending (threw e) h = refl

module _ (commitment : ConfirmationStatus) where
  poll_loop_decided :
      (deadline delay : ℕ) (r : PollRound) (rest : List PollRound)
      → (r.now < deadline
          → is_pending
              (poll_loop commitment deadline (min (delay * 2) confirm_fallback_max_delay_ms) rest).0
            ≡ false)
      → is_pending (poll_loop commitment deadline delay (r ∷ rest)).0 ≡ false
  unfolding poll_loop
  poll_loop_decided deadline delay r rest later = elim (Bool-cases (ltb r.now deadline)) [
    | inr over ↦ rw (poll_loop, over) refl
    | inl within ↦ elim (Result-cases r.answer) [
      | inr (e, thrown) ↦ rw (poll_loop, within, thrown) refl
      | inl (value, seen) ↦ elim (Bool-cases (commitment_reached (status_of value) commitment)) [
        | inr not_yet ↦ rw (poll_loop, within, seen, not_yet) (later (ltb→lt _ _ within))
        | inl reached ↦ elim (Bool-cases (has_failed value)) [
          | inl failed' ↦ rw (poll_loop, within, seen, reached, failed') refl
          | inr fine ↦ rw (poll_loop, within, seen, reached, fine) refl
        ]
      ]
    ]
  ]

  poll_loop_ends :
      (deadline t delay : ℕ) (rounds : List PollRound)
      → IsPolled t delay rounds
      → confirm_fallback_initial_delay_ms ≤ delay
      → t < deadline
      → deadline ≤ t + confirm_fallback_initial_delay_ms * length rounds
      → is_pending (poll_loop commitment deadline delay rounds).0 ≡ false
  poll_loop_ends deadline t delay [] polled long within enough = absurd (omega arith)
  poll_loop_ends deadline t delay (r ∷ rest) (pace, polled) long within enough =
      poll_loop_decided deadline delay r rest λ within'.
        poll_loop_ends deadline r.now (min (delay * 2) confirm_fallback_max_delay_ms) rest polled
          (omega arith) within' (omega arith)

  try_confirm_via_polling_ends :
      (start : ℕ) (r : PollRound) (rest : List PollRound)
      → start ≤ r.now
      → IsPolled r.now
          (min (confirm_fallback_initial_delay_ms * 2) confirm_fallback_max_delay_ms)
          rest
      → 30 ≤ length rest
      → is_pending (try_confirm_via_polling commitment start (r ∷ rest)).0 ≡ false
  unfolding try_confirm_via_polling
  try_confirm_via_polling_ends start r rest later polled enough =
      poll_loop_decided (start + confirm_fallback_timeout_ms) confirm_fallback_initial_delay_ms r
        rest
        λ within.
          poll_loop_ends (start + confirm_fallback_timeout_ms) r.now 2000 rest polled (omega arith)
            within (omega arith)

  -- `confirmTx` ends within 31 rounds of polling, whatever `confirmTransaction` answered, and whatever
  -- the statuses are: it returns or throws.
  pub confirm_tx_ends :
      (answer : Result SubmitError (Unit {0})) (start : ℕ) (r : PollRound) (rest : List PollRound)
      → start ≤ r.now
      → IsPolled r.now
          (min (confirm_fallback_initial_delay_ms * 2) confirm_fallback_max_delay_ms)
          rest
      → 30 ≤ length rest
      → is_pending (confirm_tx commitment answer start (r ∷ rest)) ≡ false
  unfolding confirm_tx
  confirm_tx_ends (ok _) start r rest later polled enough = refl
  confirm_tx_ends (err landed_but_failed) start r rest later polled enough = refl
  confirm_tx_ends (err (call_failed e)) start r rest later polled enough = refl
  confirm_tx_ends (err block_height_exceeded) start r rest later polled enough =
      after_polling-is_pending (try_confirm_via_polling commitment start (r ∷ rest)).0
        (try_confirm_via_polling_ends start r rest later polled enough)
