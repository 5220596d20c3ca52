-- ===== src/Export/Csv.antt =====
-- A reader of comma-separated values after RFC 4180, with a line feed at the end of a row.
use zksettle.Base.{ℕ, List, [], ◌∷◌, ◌++◌, ◌==◌, if◌then◌else◌}
use zksettle.Base.Text.{Text}

-- At the start of a field, in a field without quotes, in quotes, and behind a quote in quotes.
pub data CsvMode : Type 0 where
  field_start plain quoted quote_seen : CsvMode

pub data CsvAct : Type 0 where
  takes skips : CsvMode → CsvAct
  ends_field ends_row : CsvAct

abbrev pub separates : ℕ → CsvAct → CsvAct
separates c act = if c == b',' then ends_field else if c == b'\n' then ends_row else act

unfoldable pub csv_act : CsvMode → ℕ → CsvAct
csv_act field_start c = if c == b'"' then skips quoted else separates c (takes plain)
csv_act plain c = separates c (takes plain)
csv_act quoted c = if c == b'"' then skips quote_seen else takes quoted
csv_act quote_seen c = if c == b'"' then takes quoted else separates c (takes plain)

-- The rows, behind a part of a field and the fields of its row.
unfoldable pub read_csv : CsvMode → Text → List Text → Text → List (List Text)
unfolding csv_act
read_csv mode field row [] = (row ++ field ∷ []) ∷ []
read_csv mode field row (c ∷ s) = elim (csv_act mode c) [
  | takes next ↦ read_csv next (field ++ c ∷ []) row s
  | skips next ↦ read_csv next field row s
  | ends_field ↦ read_csv field_start [] (row ++ field ∷ []) s
  | ends_row ↦ (row ++ field ∷ []) ∷ read_csv field_start [] [] s
]
