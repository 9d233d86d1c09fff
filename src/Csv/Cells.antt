-- ===== src/Csv/Cells.antt =====
-- `splitCsvRow` reads back the cells of a printed row.
use mathlib.Core.List.{append-nil, append_assoc}
use towerdesk_backend_clean.Prelude.{
  ℕ, ◌≡◌, refl, ap, ==_iff, ◌∙◌, Bool, true, false, List, [], ◌∷◌, ◌++◌, map, ◌==◌, if◌then◌else◌,
  Bool-cases, inl, inr, arith, Text, trim, All,
}
use towerdesk_backend_clean.Csv.{split_from, split_csv_row}
use towerdesk_backend_clean.Csv.Printer.{escape, print_row}

-- In quotes, a unit that is no quote is read as it stands.
split_from-other :
    (current : Text) (c : ℕ) (cs : Text)
    → (c == 34) ≡ false
    → split_from true current (c ∷ cs) ≡ split_from true (current ++ (c ∷ [])) cs
unfolding split_from
split_from-other current c [] h = rw (h, split_from) refl
split_from-other current c (d ∷ cs) h = rw (h, split_from) refl

abbrev no_quote_first : Text → Bool
no_quote_first [] = true
no_quote_first (c ∷ cs) = if c == 34 then false else true

-- The quote at the end of a cell.
split_from-close :
    (current rest : Text)
    → no_quote_first rest ≡ true
    → split_from true current (34 ∷ rest) ≡ split_from false current rest
unfolding split_from
split_from-close current [] h = refl
split_from-close current (d ∷ rest) h = ground arith

split_from-double :
    (current cs : Text)
    → split_from true current (34 ∷ (34 ∷ cs)) ≡ split_from true (current ++ (34 ∷ [])) cs
unfolding split_from
split_from-double current cs = refl

split_from-open : (cs : Text) → split_from false [] (34 ∷ cs) ≡ split_from true [] cs
unfolding split_from
split_from-open cs = refl

split_from-comma :
    (current cs : Text) → split_from false current (44 ∷ cs) ≡ current ∷ split_from false [] cs
unfolding split_from
split_from-comma current cs = refl

-- In quotes, an escaped cell is read as the cell.
split_from-escape :
    (cell current rest : Text)
    → no_quote_first rest ≡ true
    → split_from true current (escape cell ++ (34 ∷ rest)) ≡ split_from false (current ++ cell) rest
unfolding escape
split_from-escape [] current rest h = rw (append-nil, split_from-close current rest h)
split_from-escape (c ∷ cs) current rest h = elim (Bool-cases (c == 34)) [
  | inl e ↦ rw e (
      split_from-double current (escape cs ++ (34 ∷ rest))
      ∙ split_from-escape cs (current ++ (34 ∷ [])) rest h
      ∙ rw (append_assoc, (==_iff c 34).0 e) refl)
  | inr e ↦ rw e (
      split_from-other current c (escape cs ++ (34 ∷ rest)) e
      ∙ split_from-escape cs (current ++ (c ∷ [])) rest h
      ∙ rw append_assoc refl)
]

-- A printed row is read as its cells.
split_from-print_row :
    (cell : Text) (cells : List Text) → split_from false [] (print_row cell cells) ≡ cell ∷ cells
unfolding print_row split_from
split_from-print_row cell [] =
    split_from-open (escape cell ++ (34 ∷ [])) ∙ split_from-escape cell [] [] refl
split_from-print_row cell (d ∷ ds) =
    split_from-open (escape cell ++ (34 ∷ (44 ∷ print_row d ds)))
    ∙ split_from-escape cell [] (44 ∷ print_row d ds) refl
    ∙ split_from-comma cell (print_row d ds)
    ∙ ap (λ xs. cell ∷ xs) (split_from-print_row d ds)

pub map-trim : (cells : List Text) → All (λ c. trim c ≡ c) cells → map trim cells ≡ cells
map-trim [] h = refl
map-trim (c ∷ cs) h = rw (h.0, map-trim cs h.1) refl

pub split_csv_row-print_row :
    (cell : Text) (cells : List Text)
    → All (λ c. trim c ≡ c) (cell ∷ cells)
    → split_csv_row (print_row cell cells) ≡ cell ∷ cells
unfolding split_csv_row
split_csv_row-print_row cell cells h =
    rw (split_from-print_row cell cells) (map-trim (cell ∷ cells) h)
