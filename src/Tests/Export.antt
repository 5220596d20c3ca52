-- ===== src/Tests/Export.antt =====
-- Runs of the theorems on the exported file. An event is the text that stands in each of its cells.
use zksettle.Base.{List, ◌∷◌, [], ◌≡◌, refl, map}
use zksettle.Base.Text.{Text, codes}
use zksettle.Export.{
  CsvColumn, amount, csv_columns, column_name, build_csv_content, escape_csv_field, double_quotes,
}
use zksettle.Export.Csv.{field_start, read_csv}
use zksettle.Export.Reads.{cells, read_csv-build_csv_content}

abbrev cell : Text → CsvColumn → Text
cell event amount = codes "1,5"
cell event _ = event

abbrev events : List Text
events = codes "a\"b" ∷ codes "two\nlines" ∷ []

read_csv-build_csv_content_example :
    read_csv field_start [] [] (build_csv_content cell events)
    ≡ map column_name csv_columns ∷ map (cells cell) events
read_csv-build_csv_content_example = read_csv-build_csv_content cell events

escape_csv_field_test : escape_csv_field (codes "a\"b") ≡ codes "\"a\"\"b\""
unfolding escape_csv_field double_quotes
escape_csv_field_test = refl
