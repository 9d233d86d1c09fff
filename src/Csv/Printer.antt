-- ===== src/Csv/Printer.antt =====
-- A printer of tables for `parseCsv`: every cell in quotes, its own quotes doubled.
use towerdesk_backend_clean.Prelude.{List, [], ◌∷◌, ◌++◌, ◌==◌, if◌then◌else◌, Text}

unfoldable pub escape : Text → Text
escape [] = []
escape (c ∷ cs) = if c == 34 then 34 ∷ (34 ∷ escape cs) else c ∷ escape cs

abbrev pub quote : Text → Text
quote cell = 34 ∷ (escape cell ++ (34 ∷ []))

-- The first cell, and each other one after a comma.
unfoldable pub print_row : Text → List Text → Text
print_row cell [] = quote cell
print_row cell (d ∷ ds) = 34 ∷ (escape cell ++ (34 ∷ (44 ∷ print_row d ds)))

-- Each row on a line of its own.
unfoldable pub print_lines : Text → List Text → Text
print_lines line [] = line
print_lines line (m ∷ ms) = line ++ (10 ∷ print_lines m ms)
