-- ===== src/Export.antt =====
-- `buildCsvContent` of frontend/src/lib/export.ts. The text of a cell, which `formatCsvValue` makes with
-- the language's dates and numbers, is an argument: what is said here holds for any text.
pub mod Csv
pub mod Reads
use zksettle.Base.{ℕ, List, Bool, true, false, [], ◌∷◌, ◌++◌, ◌||◌, ◌==◌, map, any, if◌then◌else◌}
use zksettle.Base.Text.{Text, codes}

-- `keyof EventDto`, those of them that are exported.
pub data CsvColumn : Type 0 where
  signature slot timestamp issuer nullifier_hash merkle_root sanctions_root : CsvColumn
  jurisdiction_root mint recipient payer amount epoch : CsvColumn

abbrev pub csv_columns : List CsvColumn
csv_columns =
    signature ∷ slot ∷ timestamp ∷ issuer ∷ nullifier_hash ∷ merkle_root ∷ sanctions_root
    ∷ jurisdiction_root ∷ mint ∷ recipient ∷ payer ∷ amount ∷ epoch ∷ []

unfoldable pub column_name : CsvColumn → Text
column_name signature = codes "signature"
column_name slot = codes "slot"
column_name timestamp = codes "timestamp"
column_name issuer = codes "issuer"
column_name nullifier_hash = codes "nullifier_hash"
column_name merkle_root = codes "merkle_root"
column_name sanctions_root = codes "sanctions_root"
column_name jurisdiction_root = codes "jurisdiction_root"
column_name mint = codes "mint"
column_name recipient = codes "recipient"
column_name payer = codes "payer"
column_name amount = codes "amount"
column_name epoch = codes "epoch"

-- `value.replace(/"/g, '""')`
unfoldable pub double_quotes : Text → Text
double_quotes [] = []
double_quotes (c ∷ s) =
    let rest = double_quotes s in if c == b'"' then b'"' ∷ b'"' ∷ rest else c ∷ rest

abbrev pub needs_quotes : ℕ → Bool
needs_quotes c = (c == b',') || (c == b'"') || (c == b'\n')

unfoldable pub escape_csv_field : Text → Text
unfolding double_quotes
escape_csv_field value =
    if any needs_quotes value then b'"' ∷ (double_quotes value ++ b'"' ∷ []) else value

-- `texts.join(separator)`
unfoldable pub join : ℕ → List Text → Text
join separator [] = []
join separator (t ∷ []) = t
join separator (t ∷ u ∷ ts) = t ++ (separator ∷ join separator (u ∷ ts))

module _ {Event : Type 0} (cell : Event → CsvColumn → Text) where
  -- A line of the file: the cells of an event.
  unfoldable pub csv_row : Event → Text
  unfolding escape_csv_field join
  csv_row e = join b',' (map (λ column. escape_csv_field (cell e column)) csv_columns)

  unfoldable pub build_csv_content : List Event → Text
  unfolding csv_row join column_name
  build_csv_content events =
      join b'\n' (join b',' (map column_name csv_columns) ∷ map csv_row events)
