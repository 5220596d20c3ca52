-- ===== src/Api/Headers.antt =====
-- The Fetch standard's `Headers`: names are compared without case, `set` replaces, `append` adds, and
-- `get` reads what was set last. Header names are ASCII.
use mathlib.Core.List.{append-nil}
use zksettle.Base.{
  ℕ, List, Option, Bool, none, some, false, [], ◌∷◌, ◌++◌, ◌+◌, ◌≡◌, refl, ap, arith, map, leb,
  ◌&&◌, if◌then◌else◌, inl, inr, Bool-cases, Option-cases, ◌∙◌,
}
use zksettle.Base.Text.{Text}
use zksettle.Base.Bytes.{bytes_eq, bytes_eq_iff}

-- `toLowerCase` of an ASCII character.
abbrev pub lower_char : ℕ → ℕ
lower_char c = if leb 65 c && leb c 90 then c + 32 else c

unfoldable pub lower : Text → Text
lower s = map lower_char s

lower_char_idem : (c : ℕ) → lower_char (lower_char c) ≡ lower_char c
lower_char_idem c = ground arith

pub lower_idem : (s : Text) → lower (lower s) ≡ lower s
unfolding lower
lower_idem [] = refl
lower_idem (c ∷ s) = λ i. lower_char_idem c i ∷ lower_idem s i

abbrev pub HeaderList : Type 0
HeaderList = List (Text × Text)

-- `name` is in lower case.
abbrev pub names : Text → Text → Bool
names key name = bytes_eq (lower key) name

abbrev pub or_else : Option Text → Option Text → Option Text
or_else (some w) o = some w
or_else none o = o

pub or_else_assoc : (a b c : Option Text) → or_else a (or_else b c) ≡ or_else (or_else a b) c
or_else_assoc (some w) b c = refl
or_else_assoc none b c = refl

unfoldable pub get : Text → HeaderList → Option Text
get name [] = none
get name ((k, v) ∷ rest) = or_else (get name rest) (if names k name then some v else none)

unfoldable pub without : Text → HeaderList → HeaderList
without name [] = []
without name ((k, v) ∷ rest) =
    if names k name then without name rest else (k, v) ∷ without name rest

-- `headers.set(key, value)` and `headers.append(key, value)`
unfoldable pub set : Text → Text → HeaderList → HeaderList
unfolding without lower
set key value hs = without (lower key) hs ++ (lower key, value) ∷ []

unfoldable pub append : Text → Text → HeaderList → HeaderList
unfolding lower
append key value hs = hs ++ (lower key, value) ∷ []

-- Every value under a name, in order.
unfoldable pub get_all : Text → HeaderList → List Text
get_all name [] = []
get_all name ((k, v) ∷ rest) =
    let others = get_all name rest in if names k name then v ∷ others else others

get-snoc :
    (name k v : Text) (hs : HeaderList)
    → get name (hs ++ (k, v) ∷ []) ≡ (if names k name then some v else get name hs)
unfolding get
get-snoc name k v [] = refl
get-snoc name k v ((j, w) ∷ hs) = elim (Bool-cases (names k name)) [
  | inl same ↦ rw (get-snoc name k v hs, same)
  | inr other ↦ rw (get-snoc name k v hs, other)
]

get-without :
    (name other : Text) (hs : HeaderList)
    → bytes_eq other name ≡ false
    → get name (without other hs) ≡ get name hs
unfolding get without
get-without name other [] h = refl
get-without name other ((k, v) ∷ hs) h = elim (Bool-cases (names k other)) [
  | inl dropped ↦
      let e : lower k ≡ other = (bytes_eq_iff (lower k) other).0 dropped in
      let miss : names k name ≡ false = rw e h in
      elim (Option-cases (get name hs)) [
        | inl absent ↦ rw (dropped, get-without name other hs h, absent, miss)
        | inr (w, there) ↦ rw (dropped, get-without name other hs h, there)
      ]
  | inr kept ↦ rw (kept, get-without name other hs h)
]

get-without_self : (name : Text) (hs : HeaderList) → get name (without name hs) ≡ none
unfolding get without
get-without_self name [] = refl
get-without_self name ((k, v) ∷ hs) = elim (Bool-cases (names k name)) [
  | inl dropped ↦ rw dropped (get-without_self name hs)
  | inr kept ↦ rw (kept, get-without_self name hs, kept)
]

-- `set` writes the value under its own name and leaves every other name alone.
pub get-set :
    (name k v : Text) (hs : HeaderList)
    → get name (set k v hs) ≡ (if names k name then some v else get name hs)
unfolding set
get-set name k v hs =
    get-snoc name (lower k) v (without (lower k) hs)
    ∙ rw lower_idem (elim (Bool-cases (names k name)) [
      | inl same ↦ rw same
      | inr other ↦ rw other (get-without name (lower k) hs other)
    ])

get_all-snoc :
    (name k v : Text) (hs : HeaderList)
    → get_all name (hs ++ (k, v) ∷ []) ≡ get_all name hs ++ (if names k name then v ∷ [] else [])
unfolding get_all
get_all-snoc name k v [] = refl
get_all-snoc name k v ((j, w) ∷ hs) = elim (Bool-cases (names j name)) [
  | inl same ↦ rw same (ap (λ t. w ∷ t) (get_all-snoc name k v hs))
  | inr other ↦ rw other (get_all-snoc name k v hs)
]

get_all-without :
    (name other : Text) (hs : HeaderList)
    → bytes_eq other name ≡ false
    → get_all name (without other hs) ≡ get_all name hs
unfolding get_all without
get_all-without name other [] h = refl
get_all-without name other ((k, v) ∷ hs) h = elim (Bool-cases (names k other)) [
  | inl dropped ↦
      let e : lower k ≡ other = (bytes_eq_iff (lower k) other).0 dropped in
      let miss : names k name ≡ false = rw e h in
      rw (dropped, miss) (get_all-without name other hs h)
  | inr kept ↦ rw (kept, get_all-without name other hs h)
]

pub get_all-append :
    (name k v : Text) (hs : HeaderList)
    → get_all name (append k v hs) ≡ get_all name hs ++ (if names k name then v ∷ [] else [])
unfolding append
get_all-append name k v hs = get_all-snoc name (lower k) v hs ∙ rw lower_idem

-- Setting a header leaves the values under another name alone.
pub get_all-set :
    (name k v : Text) (hs : HeaderList)
    → names k name ≡ false
    → get_all name (set k v hs) ≡ get_all name hs
unfolding set
get_all-set name k v hs h =
    get_all-snoc name (lower k) v (without (lower k) hs)
    ∙ rw (lower_idem, h, append-nil) (get_all-without name (lower k) hs h)
