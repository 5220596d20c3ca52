-- ===== src/ProofGeneration/Calls.antt =====
-- Lists from which calls are taken: the lemmas on the hook's lists.
use zksettle.Base.{
  ℕ, Bool, true, false, not, List, [], ◌∷◌, ◌++◌, ◌==◌, ◌||◌, ◌≡◌, refl, ap, sym, ◌∙◌, subst, keep,
  keep_eq, map, any, All, Bool-cases, inl, inr, ==_iff, ==_refl,
}
use zksettle.ProofGeneration.{others}

abbrev pub is_in : List ℕ → ℕ → Bool
is_in ps x = any (λ q. x == q) ps

pub is_in-cons : (p x : ℕ) (ps : List ℕ) → is_in ps x ≡ true → is_in (p ∷ ps) x ≡ true
is_in-cons p x ps h = elim (Bool-cases (x == p)) [
  | inl same ↦ rw same refl
  | inr differs ↦ rw differs h
]

pub is_in-head : (p : ℕ) (ps : List ℕ) → is_in (p ∷ ps) p ≡ true
is_in-head p ps = rw (==_refl p) refl

pub is_in-others : (p x : ℕ) (ps : List ℕ) → (x == p) ≡ false → is_in (others p ps) x ≡ is_in ps x
is_in-others p x [] h = refl
is_in-others p x (r ∷ ps) h = elim (Bool-cases (r == p)) [
  | inl gone ↦
      let e : r ≡ p = (==_iff r p).0 gone in
      ap (λ t. is_in t x) (keep_eq (λ q. not (q == p)) r ps false (rw gone refl))
      ∙ is_in-others p x ps h
      ∙ rw (e, h) refl
  | inr kept ↦
      ap (λ t. is_in t x) (keep_eq (λ q. not (q == p)) r ps true (rw kept refl))
      ∙ ap (λ b. (x == r) || b) (is_in-others p x ps h)
]

module _ {A : Type 0} (key : A → ℕ) where
  -- Those whose key is none of the list's.
  abbrev pub drained : List ℕ → List A → List A
  drained [] xs = xs
  drained (p ∷ ps) xs = drained ps (keep (λ x. not (key x == p)) xs)

  pub All-keep_other :
      (p : ℕ) (P Q : A → Type 0) (xs : List A)
      → ((x : A) → (key x == p) ≡ false → P x → Q x)
      → All P xs
      → All Q (keep (λ x. not (key x == p)) xs)
  All-keep_other p P Q [] f h = tt
  All-keep_other p P Q (x ∷ xs) f (h, hs) = elim (Bool-cases (key x == p)) [
    | inl gone ↦
        subst (All Q) (sym (keep_eq (λ x. not (key x == p)) x xs false (rw gone refl)))
          (All-keep_other p P Q xs f hs)
    | inr kept ↦
        subst (All Q) (sym (keep_eq (λ x. not (key x == p)) x xs true (rw kept refl)))
          (f x kept h, All-keep_other p P Q xs f hs)
  ]

  pub drained_lem :
      (ps : List ℕ) (xs : List A) → All (λ x. is_in ps (key x) ≡ true) xs → drained ps xs ≡ []
  drained_lem [] [] h = refl
  drained_lem [] (x ∷ xs) (h, hs) = cc
  drained_lem (p ∷ ps) xs h = drained_lem ps (keep (λ x. not (key x == p)) xs) (
      All-keep_other p (λ x. is_in (p ∷ ps) (key x) ≡ true) (λ x. is_in ps (key x) ≡ true) xs
        (λ x other there. rw other at there) h)

pub All-is_in :
    (ps xs : List ℕ)
    → ((x : ℕ) → is_in xs x ≡ true → is_in ps x ≡ true)
    → All (λ x. is_in ps x ≡ true) xs
All-is_in ps [] h = tt
All-is_in ps (x ∷ xs) h =
    (h x (is_in-head x xs), All-is_in ps xs (λ y there. h y (is_in-cons x y xs there)))

module _ {A B : Type 0} (f : A → Bool) (g : A → B) where
  pub none_kept :
      (xs : List A) (ys : List B)
      → keep (λ x. not (f x)) xs ≡ []
      → map g (keep f xs) ++ ys ≡ []
      → (xs ≡ []) × (ys ≡ [])
  none_kept [] ys h k = (refl, k)
  none_kept (x ∷ xs) ys h k = elim (Bool-cases (f x)) [
    | inl yes_f ↦ cc (ap (λ t. map g t ++ ys) (sym (keep_eq f x xs true yes_f)) ∙ k)
    | inr no_f ↦ cc (sym (keep_eq (λ x. not (f x)) x xs true (rw no_f refl)) ∙ h)
  ]

module _ {A : Type 0} (f : A → Bool) where
  pub none_left : (xs : List A) → any f xs ≡ false → keep (λ x. not (f x)) xs ≡ [] → xs ≡ []
  none_left [] h k = refl
  none_left (x ∷ xs) h k = elim (Bool-cases (f x)) [
    | inl yes_f ↦ cc (rw yes_f at h)
    | inr no_f ↦ cc (sym (keep_eq (λ x. not (f x)) x xs true (rw no_f refl)) ∙ k)
  ]

  pub keep_if_none : (xs : List A) → any f xs ≡ false → keep (λ x. not (f x)) xs ≡ xs
  keep_if_none [] h = refl
  keep_if_none (x ∷ xs) h = elim (Bool-cases (f x)) [
    | inl yes_f ↦ cc (rw yes_f at h)
    | inr no_f ↦
        keep_eq (λ x. not (f x)) x xs true (rw no_f refl)
        ∙ ap (λ t. x ∷ t) (keep_if_none xs (rw no_f at h))
  ]
