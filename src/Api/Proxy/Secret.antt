-- ===== src/Api/Proxy/Secret.antt =====
-- The active key never leaves the server in a cookie: laws of `stripActiveKeyCookie` of
-- frontend/src/app/api/proxy/[...path]/route.ts.
use zksettle.Api.Proxy.Pairs.{
  split-join_pairs, StartsClean, HasCleanTail, split_pairs-HasCleanTail, HasNoSemicolon,
  split_from-HasNoSemicolon,
}
use zksettle.Base.{
  List, Bool, none, some, true, false, [], ◌∷◌, ◌≡◌, ◌≢◌, refl, sym, arith, not, All, All-keep,
  keep, Bool-cases, inl, inr, length, ltb, ◌⊎◌, subst, All-imp, keep-All,
}
use zksettle.Base.Text.{Text, starts_with}
use zksettle.Api.Proxy.{
  split_from, split_pairs, join_pairs, kept_pairs, is_active_key_pair, strip_active_key_cookie,
}

All-HasCleanTail : (ps : List Text) → All StartsClean ps → HasCleanTail ps
All-HasCleanTail [] h = tt
All-HasCleanTail (p ∷ ps) (_, h) = h

keep-HasCleanTail : (f : Text → Bool) (ps : List Text) → HasCleanTail ps → HasCleanTail (keep f ps)
keep-HasCleanTail f [] h = tt
keep-HasCleanTail f (p ∷ ps) h =
    elim (f p) as (λ b. HasCleanTail (elim b [ true ↦ p ∷ keep f ps | false ↦ keep f ps ])) [
      | true ↦ All-keep StartsClean f ps h
      | false ↦ All-HasCleanTail (keep f ps) (All-keep StartsClean f ps h)
    ]

kept_pairs-HasCleanTail : (header : Text) → HasCleanTail (kept_pairs header)
kept_pairs-HasCleanTail header =
    keep-HasCleanTail (λ pair. not (is_active_key_pair pair)) (split_pairs header)
      (split_pairs-HasCleanTail [] header)

join_pairs-nil :
    (ps : List Text) → ltb 0 (length (join_pairs ps)) ≡ false → (ps ≡ []) ⊎ (ps ≡ [] ∷ [])
unfolding join_pairs
join_pairs-nil [] h = inl refl
join_pairs-nil ([] ∷ []) h = inr refl
join_pairs-nil ((c ∷ p) ∷ []) h = absurd (ground arith)
join_pairs-nil ([] ∷ q ∷ ps) h = absurd (ground arith)
join_pairs-nil ((c ∷ p) ∷ q ∷ ps) h = absurd (ground arith)

join_pairs-ne : (ps : List Text) → ltb 0 (length (join_pairs ps)) ≡ true → ps ≢ []
unfolding join_pairs
join_pairs-ne [] h e = cc
join_pairs-ne (p ∷ ps) h e = cc

split-kept_pairs :
    (header : Text)
    → ltb 0 (length (join_pairs (kept_pairs header))) ≡ true
    → split_pairs (join_pairs (kept_pairs header)) ≡ kept_pairs header
split-kept_pairs header left =
    split-join_pairs (kept_pairs header) (join_pairs-ne (kept_pairs header) left)
      (kept_pairs-HasCleanTail header)
      (All-keep HasNoSemicolon (λ pair. not (is_active_key_pair pair)) (split_pairs header)
        (split_from-HasNoSemicolon false [] header tt))

not-true : (b : Bool) → not b ≡ true → b ≡ false
not-true true h = cc
not-true false h = refl

kept_pairs-pass :
    (header : Text) → All (λ pair. is_active_key_pair pair ≡ false) (kept_pairs header)
kept_pairs-pass header =
    All-imp (λ pair h. not-true (is_active_key_pair pair) h) (kept_pairs header)
      (keep-All (λ pair. not (is_active_key_pair pair)) (split_pairs header))

-- A cookie header that is forwarded holds exactly the pairs of the request's that are not the active
-- key's, in their order, so that none of its pairs is the active key's; without one, nothing is left
-- of the request's header but the active key's pairs and at most one empty pair.
pub strip_active_key_cookie_lem :
    (header : Text)
    → ((kept : Text) × (strip_active_key_cookie (some header) ≡ some kept)
        × (split_pairs kept ≡ kept_pairs header)
        × All (λ pair. is_active_key_pair pair ≡ false) (split_pairs kept))
      ⊎ ((strip_active_key_cookie (some header) ≡ none)
          × ((kept_pairs header ≡ []) ⊎ (kept_pairs header ≡ [] ∷ [])))
unfolding strip_active_key_cookie split_from starts_with
strip_active_key_cookie_lem [] = inr (refl, inr refl)
strip_active_key_cookie_lem (c ∷ s) =
    let kept = join_pairs (kept_pairs (c ∷ s)) in
    elim (Bool-cases (ltb 0 (length kept))) [
      | inl some_left ↦ inl (
        kept,
        rw some_left refl,
        split-kept_pairs (c ∷ s) some_left,
        subst (All (λ pair. is_active_key_pair pair ≡ false))
            (sym (split-kept_pairs (c ∷ s) some_left)) (kept_pairs-pass (c ∷ s)),
      )
      | inr none_left ↦ inr (rw none_left refl, join_pairs-nil (kept_pairs (c ∷ s)) none_left)
    ]
