-- ===== src/ProveFlow/Submit/Batches/Fee.antt =====
-- The priority fee of the finalize transaction does not depend on the order of the answer.
use zksettle.Base.{[], ◌∷◌, ℕ, List, ◌≡◌, arith, ◌++◌, some, ap}
use zksettle.ProveFlow.Submit.Batches.{insert_fee, sort_fees, dynamic_priority_fee, fee_of}

insert_fee-swap :
    (a b : ℕ) (xs : List ℕ) → insert_fee a (insert_fee b xs) ≡ insert_fee b (insert_fee a xs)
insert_fee-swap a b [] = grind arith
insert_fee-swap a b (x ∷ xs) = grind (arith, insert_fee-swap a b xs)

sort_fees-swap :
    (before : List ℕ) (a b : ℕ) (after : List ℕ)
    → sort_fees (before ++ a ∷ b ∷ after) ≡ sort_fees (before ++ b ∷ a ∷ after)
sort_fees-swap [] a b after = insert_fee-swap a b (sort_fees after)
sort_fees-swap (x ∷ before) a b after = ap (insert_fee x) (sort_fees-swap before a b after)

-- Two neighbours of the recent fees can change places without a change of the priority fee, so that it
-- does not depend on the order in which the node lists them.
pub dynamic_priority_fee-swap :
    (before : List ℕ) (a b : ℕ) (after : List ℕ)
    → dynamic_priority_fee (some (before ++ a ∷ b ∷ after))
      ≡ dynamic_priority_fee (some (before ++ b ∷ a ∷ after))
unfolding dynamic_priority_fee
dynamic_priority_fee-swap [] a b after = ap fee_of (sort_fees-swap [] a b after)
dynamic_priority_fee-swap (x ∷ before) a b after = ap fee_of (sort_fees-swap (x ∷ before) a b after)
