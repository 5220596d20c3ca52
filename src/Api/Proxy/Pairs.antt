-- ===== src/Api/Proxy/Pairs.antt =====
-- Splitting a cookie header into its pairs and joining them, in stripActiveKeyCookie of
-- frontend/src/app/api/proxy/[...path]/route.ts.
use mathlib.Core.List.{append_assoc, append-nil}
use zksettle.Base.{
  ℕ, List, Bool, true, false, [], ◌∷◌, ◌++◌, ◌≡◌, ◌≢◌, refl, ap, sym, ◌∙◌, ◌==◌, All, Bool-cases,
  inl, inr, ◌&&◌, ◌⊎◌, subst, ==_iff, and_left,
}
use zksettle.Base.Text.{Text}
use zksettle.Format.{is_space}
use zksettle.Api.Proxy.{split_from, split_pairs, join_pairs}

-- A pair holds no semicolon, and one behind a semicolon starts with no white space.
abbrev pub HasNoSemicolon : Text → Type 0
HasNoSemicolon p = All (λ c. (c == b';') ≡ false) p

abbrev pub StartsClean : Text → Type 0
StartsClean [] = Unit {0}
StartsClean (c ∷ p) = is_space c ≡ false

abbrev pub HasCleanTail : List Text → Type 0
HasCleanTail [] = Unit {0}
HasCleanTail (p ∷ ps) = All StartsClean ps

snoc-HasNoSemicolon :
    (p : Text) (c : ℕ) → HasNoSemicolon p → (c == b';') ≡ false → HasNoSemicolon (p ++ c ∷ [])
snoc-HasNoSemicolon [] c h k = (k, tt)
snoc-HasNoSemicolon (d ∷ p) c (h, hs) k = (h, snoc-HasNoSemicolon p c hs k)

-- One character of the split: skipped, the end of a piece, or read.
abbrev Splits : Bool → Text → ℕ → Text → Type 0
Splits skipping piece c s =
    ((skipping ≡ true) × (split_from skipping piece (c ∷ s) ≡ split_from true piece s))
    ⊎ (((c ≡ b';') × (split_from skipping piece (c ∷ s) ≡ piece ∷ split_from true [] s))
        ⊎ (((c == b';') ≡ false)
            × ((skipping && is_space c) ≡ false)
            × (split_from skipping piece (c ∷ s) ≡ split_from false (piece ++ c ∷ []) s)))

split_cases : (skipping : Bool) (piece : Text) (c : ℕ) (s : Text) → Splits skipping piece c s
unfolding split_from
split_cases skipping piece c s = elim (Bool-cases (skipping && is_space c)) [
  | inl skipped ↦ inl (and_left skipping (is_space c) skipped, rw (skipped, split_from))
  | inr read ↦ elim (Bool-cases (c == b';')) [
    | inl ends ↦ inr (inl ((==_iff c b';').0 ends, rw (read, split_from, ends)))
    | inr inside ↦ inr (inr (inside, read, rw (read, split_from, inside)))
  ]
]

pub split_from-HasNoSemicolon :
    (skipping : Bool) (piece s : Text)
    → HasNoSemicolon piece
    → All HasNoSemicolon (split_from skipping piece s)
split_from-HasNoSemicolon skipping piece [] h = unfold split_from in (h, tt)
split_from-HasNoSemicolon skipping piece (c ∷ s) h = elim (split_cases skipping piece c s) [
  | inl (_, e) ↦ subst (All HasNoSemicolon) (sym e) (split_from-HasNoSemicolon true piece s h)
  | inr (inl (_, e)) ↦
      subst (All HasNoSemicolon) (sym e) (h, split_from-HasNoSemicolon true [] s tt)
  | inr (inr (inside, _, e)) ↦
      subst (All HasNoSemicolon) (sym e)
        (split_from-HasNoSemicolon false (piece ++ c ∷ []) s (snoc-HasNoSemicolon piece c h inside))
]

-- Behind a semicolon white space is skipped.
StartsClean-snoc :
    (skipping : Bool) (piece : Text) (c : ℕ)
    → StartsClean piece
    → (skipping ≡ false → piece ≢ [])
    → (skipping && is_space c) ≡ false
    → StartsClean (piece ++ c ∷ [])
StartsClean-snoc true [] c h k read = read
StartsClean-snoc false [] c h k read = absurd (k refl refl)
StartsClean-snoc skipping (d ∷ piece) c h k read = h

snoc-ne-nil : (p : Text) (c : ℕ) → p ++ c ∷ [] ≢ []
snoc-ne-nil [] c h = cc
snoc-ne-nil (d ∷ p) c h = cc

split_from-StartsClean :
    (skipping : Bool) (piece s : Text)
    → StartsClean piece
    → (skipping ≡ false → piece ≢ [])
    → All StartsClean (split_from skipping piece s)
split_from-StartsClean skipping piece [] h k = unfold split_from in (h, tt)
split_from-StartsClean skipping piece (c ∷ s) h k = elim (split_cases skipping piece c s) [
  | inl (_, e) ↦ subst (All StartsClean) (sym e) (split_from-StartsClean true piece s h (λ e. cc))
  | inr (inl (_, e)) ↦
      subst (All StartsClean) (sym e) (h, split_from-StartsClean true [] s tt (λ e. cc))
  | inr (inr (_, read, e)) ↦ subst (All StartsClean) (sym e) (
      split_from-StartsClean false (piece ++ c ∷ []) s (StartsClean-snoc skipping piece c h k read)
        (λ _. snoc-ne-nil piece c))
]

pub split_pairs-HasCleanTail : (piece s : Text) → HasCleanTail (split_from false piece s)
split_pairs-HasCleanTail piece [] = unfold split_from in tt
split_pairs-HasCleanTail piece (c ∷ s) = elim (split_cases false piece c s) [
  | inl (impossible, e) ↦ cc
  | inr (inl (_, e)) ↦ subst HasCleanTail (sym e) (split_from-StartsClean true [] s tt (λ e. cc))
  | inr (inr (_, _, e)) ↦ subst HasCleanTail (sym e) (split_pairs-HasCleanTail (piece ++ c ∷ []) s)
]

split_char :
    (skipping : Bool) (piece : Text) (c : ℕ) (s : Text)
    → (skipping && is_space c) ≡ false
    → (c == b';') ≡ false
    → split_from skipping piece (c ∷ s) ≡ split_from false (piece ++ c ∷ []) s
unfolding split_from
split_char skipping piece c s read inside = rw (read, split_from, inside)

-- Reading a pair, up to the end of the header or to the next pair.
split_pair :
    (piece p rest : Text)
    → HasNoSemicolon p
    → split_from false piece (p ++ rest) ≡ split_from false (piece ++ p) rest
split_pair piece [] rest h = ap (λ t. split_from false t rest) (sym (append-nil piece))
split_pair piece (c ∷ p) rest (h, hs) =
    split_char false piece c (p ++ rest) refl h
    ∙ split_pair (piece ++ c ∷ []) p rest hs
    ∙ ap (λ t. split_from false t rest) (append_assoc piece (c ∷ []) p)

split_clean :
    (p rest : Text)
    → StartsClean p
    → HasNoSemicolon p
    → p ≢ []
    → split_from true [] (p ++ rest) ≡ split_from false p rest
split_clean [] rest h k ne = absurd (ne refl)
split_clean (c ∷ p) rest h (k, ks) ne =
    split_char true [] c (p ++ rest) h k ∙ split_pair (c ∷ []) p rest ks

split_last : (p : Text) → StartsClean p → HasNoSemicolon p → split_from true [] p ≡ p ∷ []
unfolding split_from
split_last [] h k = refl
split_last (c ∷ p) h k =
    ap (split_from true []) (sym (append-nil (c ∷ p))) ∙ split_clean (c ∷ p) [] h k (λ e. cc)

split_next :
    (p rest : Text)
    → StartsClean p
    → HasNoSemicolon p
    → split_from true [] (p ++ (b';' ∷ b' ' ∷ rest)) ≡ p ∷ split_from true [] rest
unfolding split_from
split_next [] rest h k = refl
split_next (c ∷ p) rest h k = split_clean (c ∷ p) (b';' ∷ b' ' ∷ rest) h k (λ e. cc)

split-join_clean :
    (p : Text) (ps : List Text)
    → All StartsClean (p ∷ ps)
    → All HasNoSemicolon (p ∷ ps)
    → split_from true [] (join_pairs (p ∷ ps)) ≡ p ∷ ps
unfolding join_pairs
split-join_clean p [] (h, _) (k, _) = split_last p h k
split-join_clean p (q ∷ ps) (h, hs) (k, ks) =
    split_next p (join_pairs (q ∷ ps)) h k ∙ ap (λ t. p ∷ t) (split-join_clean q ps hs ks)

-- Splitting what was joined gives the pairs back.
pub split-join_pairs :
    (ps : List Text)
    → ps ≢ []
    → HasCleanTail ps
    → All HasNoSemicolon ps
    → split_pairs (join_pairs ps) ≡ ps
unfolding join_pairs split_from
split-join_pairs [] ne h k = absurd (ne refl)
split-join_pairs (p ∷ []) ne h (k, _) =
    ap (split_from false []) (sym (append-nil p)) ∙ split_pair [] p [] k
split-join_pairs (p ∷ q ∷ ps) ne h (k, ks) =
    split_pair [] p (b';' ∷ b' ' ∷ join_pairs (q ∷ ps)) k
    ∙ ap (λ t. p ∷ t) (split-join_clean q ps h ks)
