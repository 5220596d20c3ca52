-- ===== src/ProveFlow/Submit/Rebroadcast.antt =====
-- The rebroadcast loop ends and never invents a landing.
use zksettle.Base.{
  none, some, [], ◌∷◌, ok, err, true, false, inl, inr, refl, Bool, ℕ, List, ◌<◌, ◌+◌, ◌≤◌, ◌*◌,
  length, ◌≡◌, arith, Result-cases, Bool-cases, ltb, ltb-ge, ◌++◌, length-append, ap, Option, All,
  subst, sym,
}
use zksettle.ProveFlow.Submit.{
  pending, Round, SignatureStatus, LoopEnd, rebroadcast, poll_finalize_landed, landed, threw,
  rebroadcast_interval_ms, is_past, final_poll_timeout_ms, SubmitError, call_failed,
  landed_but_failed, timed_out, block_height_exceeded,
}

-- `Date.now()` of a round is at least the interval after that of the round before it.
abbrev pub IsPaced : ℕ → List Round → Type 0
IsPaced t [] = Unit
IsPaced t (r ∷ rest) = (t + rebroadcast_interval_ms ≤ r.now) × IsPaced r.now rest

abbrev pub is_pending : LoopEnd → Bool
is_pending pending = true
is_pending _ = false

module _ (last_valid : ℕ) where
  -- Behind the expiry nothing is sent again, and the loop ends within the deadline.
  rebroadcast-expired :
      (deadline t : ℕ) (rounds : List Round)
      → IsPaced t rounds
      → t ≤ deadline
      → deadline < t + rebroadcast_interval_ms * length rounds
      → (is_pending (rebroadcast last_valid (some deadline) rounds).0 ≡ false)
        × ((rebroadcast last_valid (some deadline) rounds).1 ≡ 0)
  unfolding rebroadcast
  rebroadcast-expired deadline t [] paced early enough = absurd (omega arith)
  rebroadcast-expired deadline t (r ∷ rest) (pace, paced) early enough =
      elim (Result-cases (poll_finalize_landed r.statuses)) [
        | inr (e, thrown) ↦ rw (rebroadcast, thrown) (refl, refl)
        | inl (true, seen) ↦ rw (rebroadcast, seen) (refl, refl)
        | inl (false, seen) ↦ elim (Bool-cases (ltb deadline r.now)) [
          | inl over ↦ rw (rebroadcast, seen, over) (refl, refl)
          | inr within ↦
              rw (rebroadcast, seen, within)
                (rebroadcast-expired deadline r.now rest paced (ltb-ge _ _ within) (omega arith))
        ]
      ]

  -- Once the block height of a round is past the last valid one, and rounds for another 30 seconds
  -- follow it, the loop has ended; it has sent the transaction again at most once for each round before
  -- that one.
  pub rebroadcast_ends :
      (t : ℕ) (before : List Round) (r : Round) (after : List Round)
      → IsPaced t (before ++ r ∷ after)
      → is_past r.height last_valid ≡ true
      → 16 ≤ length after
      → (is_pending (rebroadcast last_valid none (before ++ r ∷ after)).0 ≡ false)
        × ((rebroadcast last_valid none (before ++ r ∷ after)).1 ≤ length before)
  unfolding rebroadcast
  rebroadcast_ends t [] r after (pace, paced) past enough =
      elim (Result-cases (poll_finalize_landed r.statuses)) [
        | inr (e, thrown) ↦ rw (rebroadcast, thrown) (refl, omega arith)
        | inl (true, seen) ↦ rw (rebroadcast, seen) (refl, omega arith)
        | inl (false, seen) ↦
            let (ended, quiet) =
              rebroadcast-expired (r.now + final_poll_timeout_ms) r.now after paced (omega arith)
                (omega arith) in
            rw (rebroadcast, seen, past) (ended, omega (arith, quiet))
      ]
  rebroadcast_ends t (b ∷ before) r after (pace, paced) past enough =
      let (ended, few) = rebroadcast_ends b.now before r after paced past enough in
      elim (Result-cases (poll_finalize_landed b.statuses)) [
        | inr (e, thrown) ↦ rw (rebroadcast, thrown) (refl, omega arith)
        | inl (true, seen) ↦ rw (rebroadcast, seen) (refl, omega arith)
        | inl (false, seen) ↦ elim (Bool-cases (is_past b.height last_valid)) [
          | inr open' ↦ rw (rebroadcast, seen, open') (ended, omega (arith, few))
          | inl already ↦
              let (ended', quiet) =
                rebroadcast-expired (b.now + final_poll_timeout_ms) b.now (before ++ r ∷ after)
                  paced (omega arith) (omega (arith, length-append before (r ∷ after))) in
              rw (rebroadcast, seen, already) (ended', omega (arith, quiet))
        ]
      ]

abbrev pub IsUndecided : Round → Type 0
IsUndecided r = poll_finalize_landed r.statuses ≡ ok false

-- Why a loop ends at a round: the transaction has landed, it has failed on chain, or neither and the
-- time is over. It never ends otherwise.
abbrev pub Decides : LoopEnd → Round → Type 0
Decides landed r = poll_finalize_landed r.statuses ≡ ok true
Decides timed_out r = ⊥
Decides pending r = ⊥
Decides (threw landed_but_failed) r = poll_finalize_landed r.statuses ≡ err landed_but_failed
Decides (threw block_height_exceeded) r = IsUndecided r
Decides (threw (call_failed e)) r = ⊥

abbrev pub EndsAt : LoopEnd → List Round → Type 0
EndsAt end rounds =
    (seen : List Round) × (r : Round) × (rest : List Round) × (rounds ≡ seen ++ r ∷ rest)
    × All IsUndecided seen
    × Decides end r

abbrev pub IsJustified : LoopEnd → List Round → Type 0
IsJustified pending rounds = All IsUndecided rounds
IsJustified end rounds = EndsAt end rounds

EndsAt-cons :
    (end : LoopEnd) (r : Round) (rest : List Round)
    → IsUndecided r
    → EndsAt end rest
    → EndsAt end (r ∷ rest)
EndsAt-cons end r rest u (seen, q, later, split, undecided, decides) =
    (r ∷ seen, q, later, ap (λ t. r ∷ t) split, (u, undecided), decides)

IsJustified-cons :
    (end : LoopEnd) (r : Round) (rest : List Round)
    → IsUndecided r
    → IsJustified end rest
    → IsJustified end (r ∷ rest)
IsJustified-cons pending r rest u h = (u, h)
IsJustified-cons landed r rest u h = EndsAt-cons landed r rest u h
IsJustified-cons timed_out r rest u h = EndsAt-cons timed_out r rest u h
IsJustified-cons (threw e) r rest u h = EndsAt-cons (threw e) r rest u h

poll_finalize_landed-err :
    (statuses : Option (Option SignatureStatus)) (e : SubmitError)
    → poll_finalize_landed statuses ≡ err e
    → e ≡ landed_but_failed
unfolding poll_finalize_landed
poll_finalize_landed-err none e h = cc
poll_finalize_landed-err (some none) e h = cc
poll_finalize_landed-err (some (some status)) e h = elim (Bool-cases status.failed) [
  | inl failed' ↦ cc (rw failed' at h)
  | inr fine ↦ cc (rw fine at h)
]

IsJustified-threw :
    (r : Round) (rest : List Round) (e : SubmitError)
    → poll_finalize_landed r.statuses ≡ err e
    → IsJustified (threw e) (r ∷ rest)
IsJustified-threw r rest e h =
    let same : e ≡ landed_but_failed = poll_finalize_landed-err r.statuses e h in
    subst (λ x. IsJustified (threw x) (r ∷ rest)) (sym same) ([], r, rest, refl, tt, rw same at h)

-- The loop ends at the first round that shows the transaction confirmed or finalized, or failed on
-- chain, and reports what that round shows; it throws the expiry at a round that shows neither, behind
-- rounds that show neither. A landing in a round that it sees is never overlooked.
pub rebroadcast-IsJustified :
    (last_valid : ℕ) (deadline : Option ℕ) (rounds : List Round)
    → IsJustified (rebroadcast last_valid deadline rounds).0 rounds
unfolding rebroadcast
rebroadcast-IsJustified last_valid deadline [] = tt
rebroadcast-IsJustified last_valid none (r ∷ rest) =
    elim (Result-cases (poll_finalize_landed r.statuses)) [
      | inr (e, thrown) ↦ rw (rebroadcast, thrown) (IsJustified-threw r rest e thrown)
      | inl (true, seen) ↦ rw (rebroadcast, seen) ([], r, rest, refl, tt, seen)
      | inl (false, seen) ↦ elim (Bool-cases (is_past r.height last_valid)) [
        | inl past ↦
            rw (rebroadcast, seen, past)
              (IsJustified-cons _ r rest seen
                (rebroadcast-IsJustified last_valid (some (r.now + final_poll_timeout_ms)) rest))
        | inr open' ↦
            rw (rebroadcast, seen, open')
              (IsJustified-cons _ r rest seen (rebroadcast-IsJustified last_valid none rest))
      ]
    ]
rebroadcast-IsJustified last_valid (some deadline) (r ∷ rest) =
    elim (Result-cases (poll_finalize_landed r.statuses)) [
      | inr (e, thrown) ↦ rw (rebroadcast, thrown) (IsJustified-threw r rest e thrown)
      | inl (true, seen) ↦ rw (rebroadcast, seen) ([], r, rest, refl, tt, seen)
      | inl (false, seen) ↦ elim (Bool-cases (ltb deadline r.now)) [
        | inl over ↦ rw (rebroadcast, seen, over) ([], r, rest, refl, tt, seen)
        | inr within ↦
            rw (rebroadcast, seen, within)
              (IsJustified-cons _ r rest seen
                (rebroadcast-IsJustified last_valid (some deadline) rest))
      ]
    ]
