-- ===== src/Format/Figures.antt =====
-- The progress bar of the mint cap in frontend/src/lib/stablecoin/format.ts.
use native.Mathlib.Nat.{div-lt_iff_lt-mul}
use zksettle.Base.{
  true, false, inl, inr, ℕ, ◌<◌, ◌≤◌, ◌*◌, ◌≡◌, ◌/◌, ◌↔◌, arith, Bool-cases, leb, ◌==◌,
}
use zksettle.Format.{Supply, mint_cap_progress, ratio_precision}

ratio_below :
    (minted cap : ℕ) → 0 < cap → minted < cap → minted * ratio_precision / cap < ratio_precision
ratio_below minted cap pos less = (div-lt_iff_lt-mul pos).1 (omega arith)

-- For a treasury with a cap, `mintCapProgress` gives a ratio of at most one, which is one exactly if
-- the minted amount has reached the cap; it flags a cap below the minted amount exactly where the
-- minted amount has passed it.
pub mint_cap_progress_bounds :
    (t : Supply)
    → 0 < t.mint_cap
    → ((mint_cap_progress t).ratio ≤ ratio_precision)
      × (((mint_cap_progress t).ratio ≡ ratio_precision) ↔ (t.mint_cap ≤ t.total_minted))
      × (((mint_cap_progress t).below_minted ≡ true) ↔ (t.mint_cap < t.total_minted))
unfolding mint_cap_progress
mint_cap_progress_bounds t pos = elim (Bool-cases (leb t.mint_cap t.total_minted)) [
  | inl reached ↦
      let h : t.mint_cap ≤ t.total_minted = ground (arith, reached) in
      let capped : (t.mint_cap == 0) ≡ false = ground arith in
      let some' : (t.total_minted == 0) ≡ false = ground arith in
      rw (capped, some', reached) (omega arith, ground arith, ground arith)
  | inr below ↦
      let h : t.total_minted < t.mint_cap = ground (arith, below) in
      let less = ratio_below t.total_minted t.mint_cap pos h in
      let capped : (t.mint_cap == 0) ≡ false = ground arith in
      elim (Bool-cases (t.total_minted == 0)) [
        | inl nothing ↦ rw (capped, nothing) (omega arith, ground arith, ground arith)
        | inr some' ↦
            rw (capped, some', below) (omega (arith, less), ground (arith, less), ground arith)
      ]
]
