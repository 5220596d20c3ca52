-- ===== src/Export/Reads.antt =====
-- What `buildCsvContent` writes is read back cell by cell.
use mathlib.Core.List.{append_assoc, append-nil}
use zksettle.Base.{
  ℕ, List, Bool, true, false, [], ◌∷◌, ◌++◌, ◌≡◌, refl, ap, sym, ◌∙◌, arith, map, any, Bool-cases,
  inl, inr, ◌==◌, ◌||◌, ==_iff,
}
use zksettle.Base.Text.{Text}
use zksettle.Export.{
  CsvColumn, csv_columns, column_name, double_quotes, needs_quotes, escape_csv_field, join, csv_row,
  build_csv_content,
}
use zksettle.Export.Csv.{
  CsvMode, field_start, plain, quoted, quote_seen, takes, skips, ends_field, ends_row, csv_act,
  read_csv,
}

read_takes :
    (mode next : CsvMode) (field : Text) (row : List Text) (c : ℕ) (s : Text)
    → csv_act mode c ≡ takes next
    → read_csv mode field row (c ∷ s) ≡ read_csv next (field ++ c ∷ []) row s
unfolding read_csv
read_takes mode next field row c s h =
    ap
      (λ act. elim act [
        | takes n ↦ read_csv n (field ++ c ∷ []) row s
        | skips n ↦ read_csv n field row s
        | ends_field ↦ read_csv field_start [] (row ++ field ∷ []) s
        | ends_row ↦ (row ++ field ∷ []) ∷ read_csv field_start [] [] s
      ])
      h

double_quotes_other :
    (c : ℕ) (v : Text) → (c == b'"') ≡ false → double_quotes (c ∷ v) ≡ c ∷ double_quotes v
unfolding double_quotes
double_quotes_other c v h = rw h

or-false : (a b : Bool) → (a || b) ≡ false → (a ≡ false) × (b ≡ false)
or-false true b h = cc
or-false false b h = (refl, h)

plain_act : (c : ℕ) → needs_quotes c ≡ false → csv_act plain c ≡ takes plain
unfolding csv_act
plain_act c h = ground arith

start_act : (c : ℕ) → needs_quotes c ≡ false → csv_act field_start c ≡ takes plain
unfolding csv_act
start_act c h = ground arith

-- Doubled quotes inside quotes.
read_quoted :
    (v field : Text) (row : List Text) (rest : Text)
    → read_csv quoted field row (double_quotes v ++ rest) ≡ read_csv quoted (field ++ v) row rest
unfolding double_quotes read_csv
read_quoted [] field row rest = ap (λ t. read_csv quoted t row rest) (sym (append-nil field))
read_quoted (c ∷ v) field row rest = elim (Bool-cases (c == b'"')) [
  | inl quote ↦
      let e : c ≡ b'"' = (==_iff c b'"').0 quote in
      rw e (
        read_quoted v (field ++ b'"' ∷ []) row rest
        ∙ ap (λ t. read_csv quoted t row rest) (append_assoc field (b'"' ∷ []) v))
  | inr other ↦
      ap (λ t. read_csv quoted field row (t ++ rest)) (double_quotes_other c v other)
      ∙ read_takes quoted quoted field row c (double_quotes v ++ rest) (rw (csv_act, other))
      ∙ read_quoted v (field ++ c ∷ []) row rest
      ∙ ap (λ t. read_csv quoted t row rest) (append_assoc field (c ∷ []) v)
]

-- A field without quotes.
read_plain :
    (v field : Text) (row : List Text) (rest : Text)
    → any needs_quotes v ≡ false
    → read_csv plain field row (v ++ rest) ≡ read_csv plain (field ++ v) row rest
read_plain [] field row rest h = ap (λ t. read_csv plain t row rest) (sym (append-nil field))
read_plain (c ∷ v) field row rest h =
    let (first, others) = or-false (needs_quotes c) (any needs_quotes v) h in
    read_takes plain plain field row c (v ++ rest) (plain_act c first)
    ∙ read_plain v (field ++ c ∷ []) row rest others
    ∙ ap (λ t. read_csv plain t row rest) (append_assoc field (c ∷ []) v)

-- Where a field has ended.
abbrev IsEnd : CsvMode → Type 0
IsEnd mode = (csv_act mode b',' ≡ ends_field) × (csv_act mode b'\n' ≡ ends_row)

abbrev ReadsField : Text → Text → List Text → Type 0
ReadsField written v row =
    (mode : CsvMode) × IsEnd mode
    × ((rest : Text) → read_csv field_start [] row (written ++ rest) ≡ read_csv mode v row rest)

quoted_field :
    (v : Text) (row : List Text) → ReadsField (b'"' ∷ (double_quotes v ++ b'"' ∷ [])) v row
unfolding csv_act read_csv
quoted_field v row = (
  quote_seen,
  (refl, refl),
  λ rest.
      ap (read_csv quoted [] row) (append_assoc (double_quotes v) (b'"' ∷ []) rest)
      ∙ read_quoted v [] row (b'"' ∷ rest),
)

bare_field : (v : Text) (row : List Text) → any needs_quotes v ≡ false → ReadsField v v row
unfolding csv_act
bare_field [] row h = (field_start, (refl, refl), λ rest. refl)
bare_field (c ∷ v) row h =
    let (first, others) = or-false (needs_quotes c) (any needs_quotes v) h in
    (
      plain,
      (refl, refl),
      λ rest.
          read_takes field_start plain [] row c (v ++ rest) (start_act c first)
          ∙ read_plain v (c ∷ []) row rest others,
    )

-- An escaped field is read whole.
read_field : (v : Text) (row : List Text) → ReadsField (escape_csv_field v) v row
unfolding escape_csv_field
read_field v row = elim (Bool-cases (any needs_quotes v)) [
  | inl needs ↦ rw needs (quoted_field v row)
  | inr bare ↦ rw bare (bare_field v row bare)
]

-- The separators behind a field.
read_comma :
    (mode : CsvMode) (field : Text) (row : List Text) (s : Text)
    → IsEnd mode
    → read_csv mode field row (b',' ∷ s) ≡ read_csv field_start [] (row ++ field ∷ []) s
unfolding read_csv
read_comma mode field row s (h, _) =
    ap
      (λ act. elim act [
        | takes n ↦ read_csv n (field ++ b',' ∷ []) row s
        | skips n ↦ read_csv n field row s
        | ends_field ↦ read_csv field_start [] (row ++ field ∷ []) s
        | ends_row ↦ (row ++ field ∷ []) ∷ read_csv field_start [] [] s
      ])
      h

read_newline :
    (mode : CsvMode) (field : Text) (row : List Text) (s : Text)
    → IsEnd mode
    → read_csv mode field row (b'\n' ∷ s) ≡ (row ++ field ∷ []) ∷ read_csv field_start [] [] s
unfolding read_csv
read_newline mode field row s (_, h) =
    ap
      (λ act. elim act [
        | takes n ↦ read_csv n (field ++ b'\n' ∷ []) row s
        | skips n ↦ read_csv n field row s
        | ends_field ↦ read_csv field_start [] (row ++ field ∷ []) s
        | ends_row ↦ (row ++ field ∷ []) ∷ read_csv field_start [] [] s
      ])
      h

abbrev line : List Text → Text
line fields = join b',' (map escape_csv_field fields)

read_line :
    (v : Text) (vs row : List Text) (s : Text)
    → read_csv field_start [] row (line (v ∷ vs) ++ (b'\n' ∷ s))
      ≡ (row ++ v ∷ vs) ∷ read_csv field_start [] [] s
unfolding join
read_line v [] row s =
    let (mode, end, reads) = read_field v row in reads (b'\n' ∷ s) ∙ read_newline mode v row s end
read_line v (w ∷ vs) row s =
    let (mode, end, reads) = read_field v row in
    ap (read_csv field_start [] row)
      (append_assoc (escape_csv_field v) (b',' ∷ line (w ∷ vs)) (b'\n' ∷ s))
    ∙ reads (b',' ∷ (line (w ∷ vs) ++ (b'\n' ∷ s)))
    ∙ read_comma mode v row (line (w ∷ vs) ++ (b'\n' ∷ s)) end
    ∙ read_line w vs (row ++ v ∷ []) s
    ∙ ap (λ t. t ∷ read_csv field_start [] [] s) (append_assoc row (v ∷ []) (w ∷ vs))

read_last_line :
    (v : Text) (vs row : List Text)
    → read_csv field_start [] row (line (v ∷ vs)) ≡ (row ++ v ∷ vs) ∷ []
unfolding join read_csv
read_last_line v [] row =
    let (mode, end, reads) = read_field v row in
    ap (read_csv field_start [] row) (sym (append-nil (escape_csv_field v))) ∙ reads []
read_last_line v (w ∷ vs) row =
    let (mode, end, reads) = read_field v row in
    reads (b',' ∷ line (w ∷ vs))
    ∙ read_comma mode v row (line (w ∷ vs)) end
    ∙ read_last_line w vs (row ++ v ∷ [])
    ∙ ap (λ t. t ∷ []) (append_assoc row (v ∷ []) (w ∷ vs))

module _ {Event : Type 0} (cell : Event → CsvColumn → Text) where
  abbrev pub cells : Event → List Text
  cells e = map (cell e) csv_columns

  read_rows :
      (events : List Event) (v : Text) (vs : List Text)
      → read_csv field_start [] [] (join b'\n' (line (v ∷ vs) ∷ map (λ e. line (cells e)) events))
        ≡ (v ∷ vs) ∷ map cells events
  unfolding join
  read_rows [] v vs = read_last_line v vs []
  read_rows (e ∷ events) v vs = read_line v vs [] _ ∙ ap (λ t. (v ∷ vs) ∷ t) (read_rows events _ _)

  -- Whatever text stands in the cells of whatever events: a reader of comma-separated values gets from
  -- the exported file the row of column names, and then one row for each event with exactly its cells.
  pub read_csv-build_csv_content :
      (events : List Event)
      → read_csv field_start [] [] (build_csv_content cell events)
        ≡ map column_name csv_columns ∷ map cells events
  unfolding build_csv_content csv_row column_name escape_csv_field
  read_csv-build_csv_content events = read_rows events _ _
