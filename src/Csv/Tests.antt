-- ===== src/Csv/Tests.antt =====
-- A small table, printed and parsed back.
use towerdesk_backend_clean.Prelude.{◌≡◌, refl, [], ◌∷◌, Text, codes, trim}
use towerdesk_backend_clean.Csv.{parse_csv}
use towerdesk_backend_clean.Csv.Lines.{IsCell}
use towerdesk_backend_clean.Csv.RoundTrip.{print_csv, parse_csv-print_csv}

abbrev cell_code : Text
cell_code = codes "code"

abbrev cell_level : Text
cell_level = codes "level"

abbrev cell_value : Text
cell_value = codes "A,1"

abbrev cell_quoted : Text
cell_quoted = codes "say \"B 2\""

code-IsCell : IsCell cell_code
unfolding trim
code-IsCell = record { no_line_feed = refl; no_return = refl; trimmed = refl }

level-IsCell : IsCell cell_level
unfolding trim
level-IsCell = record { no_line_feed = refl; no_return = refl; trimmed = refl }

value-IsCell : IsCell cell_value
unfolding trim
value-IsCell = record { no_line_feed = refl; no_return = refl; trimmed = refl }

quoted-IsCell : IsCell cell_quoted
unfolding trim
quoted-IsCell = record { no_line_feed = refl; no_return = refl; trimmed = refl }

parse_csv-print_csv_example :
    parse_csv (print_csv (cell_code ∷ (cell_level ∷ [])) ((cell_value ∷ (cell_quoted ∷ [])) ∷ []))
    ≡ record {
      headers = cell_code ∷ (cell_level ∷ []);
      rows = ((cell_code, cell_value) ∷ ((cell_level, cell_quoted) ∷ [])) ∷ [];
    }
parse_csv-print_csv_example =
    parse_csv-print_csv cell_code (cell_level ∷ []) ((cell_value ∷ (cell_quoted ∷ [])) ∷ [])
      (code-IsCell, (level-IsCell, tt)) (refl, (refl, tt)) (refl, (refl, tt))
      (record { cells = (value-IsCell, (quoted-IsCell, tt)); as_long = refl }, tt)
