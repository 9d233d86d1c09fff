-- ===== src/Csv/RoundTrip.antt =====
-- A printed table is parsed back.
use mathlib.Core.List.{append-nil, append_assoc, map-append}
use towerdesk_backend_clean.Prelude.{
  ◌≡◌, refl, ap, sym, ◌∙◌, Bool, false, List, [], ◌∷◌, ◌++◌, map, arith, any-append, Text, trim,
  same_text, any, has, All, All-map, length,
}
use towerdesk_backend_clean.Csv.{
  Row, split_csv_row, put, assign, proto, fill_record, parse_lines, parse_csv,
}
use towerdesk_backend_clean.Csv.Printer.{print_row, print_lines}
use towerdesk_backend_clean.Csv.Cells.{split_csv_row-print_row, map-trim}
use towerdesk_backend_clean.Csv.Lines.{
  IsCell, IsLine, has-print_row, closed, opened, csv_lines-print_lines,
}

abbrev pub has_text : List Text → Text → Bool
has_text ts t = any (λ u. same_text u t) ts

-- No header stands twice.
abbrev pub AreApart : List Text → Type 0
AreApart [] = Unit
AreApart (h ∷ hs) = (has_text hs h ≡ false) × AreApart hs

-- Each header with its cell.
abbrev pub zip : List Text → List Text → Row
zip [] vs = []
zip (h ∷ hs) [] = []
zip (h ∷ hs) (v ∷ vs) = (h, v) ∷ zip hs vs

abbrev keys : Row → List Text
keys r = map (λ (p : Text × Text). p.0) r

put-new : (h v : Text) (r : Row) → has_text (keys r) h ≡ false → put h v r ≡ r ++ ((h, v) ∷ [])
unfolding put
put-new h v [] e = refl
put-new h v ((k, u) ∷ r) e = ground (arith, put-new h v r)

-- A header of its own: any but `__proto__`.
abbrev pub IsOwn : Text → Type 0
IsOwn h = same_text h proto ≡ false

assign-new :
    (h v : Text) (r : Row)
    → IsOwn h
    → has_text (keys r) h ≡ false
    → assign h v r ≡ r ++ ((h, v) ∷ [])
unfolding assign
assign-new h v r own e = rw own (put-new h v r e)

abbrev AreNew : List Text → List Text → Type 0
AreNew [] ks = Unit
AreNew (h ∷ hs) ks = (has_text ks h ≡ false) × AreNew hs ks

same_text_comm : (t u : Text) → same_text t u ≡ same_text u t
same_text_comm [] [] = refl
same_text_comm [] (d ∷ ds) = refl
same_text_comm (c ∷ cs) [] = refl
same_text_comm (c ∷ cs) (d ∷ ds) = ground (arith, same_text_comm cs ds)

AreNew-more :
    (hs ks : List Text) (k : Text)
    → AreNew hs ks
    → has_text hs k ≡ false
    → AreNew hs (ks ++ (k ∷ []))
AreNew-more [] ks k n e = tt
AreNew-more (h ∷ hs) ks k n e = (
  ground (arith, any-append (λ u. same_text u h) ks (k ∷ []), same_text_comm k h),
  AreNew-more hs ks k n.1 (ground arith),
)

fill_record-zip :
    (hs vs : List Text) (r : Row)
    → length vs ≡ length hs
    → AreApart hs
    → AreNew hs (keys r)
    → All IsOwn hs
    → fill_record r hs vs ≡ r ++ zip hs vs
unfolding fill_record
fill_record-zip [] vs r e a n own = sym (append-nil r)
fill_record-zip (h ∷ hs) [] r e a n own = absurd (ground arith)
fill_record-zip (h ∷ hs) (v ∷ vs) r e a n own =
    let later : AreNew hs (keys (r ++ ((h, v) ∷ []))) =
      rw map-append (AreNew-more hs (keys r) h n.1 a.0) in
    rw (assign-new h v r own.0 n.0) (
      fill_record-zip hs vs (r ++ ((h, v) ∷ [])) (ground arith) a.1 later own.1
      ∙ rw append_assoc refl)

AreNew-nil : (hs : List Text) → AreNew hs []
AreNew-nil [] = tt
AreNew-nil (h ∷ hs) = (refl, AreNew-nil hs)

-- A row of cells as one line; a row has a first cell.
abbrev pub print_cells : List Text → Text
print_cells [] = []
print_cells (c ∷ cs) = print_row c cs

-- The headers and the rows, each on its line.
abbrev pub print_csv : List Text → List (List Text) → Text
print_csv headers rows = print_lines (print_cells headers) (map print_cells rows)

-- A row under the headers: a cell for each.
pub record IsRow (headers : List Text) (row : List Text) : Type 0 where
  pub cells : All IsCell row
  pub as_long : length row ≡ length headers

print_row-IsLine : (c : Text) (cs : List Text) → All IsCell (c ∷ cs) → IsLine (print_row c cs)
print_row-IsLine c cs h = record {
  no_line_feed =
      has-print_row c cs 10 refl refl
        (All-map IsCell (λ d. has d 10 ≡ false) (c ∷ cs) (λ d cell. cell.no_line_feed) h);
  no_return =
      has-print_row c cs 13 refl refl
        (All-map IsCell (λ d. has d 13 ≡ false) (c ∷ cs) (λ d cell. cell.no_return) h);
  rest = (opened c cs).0;
  opens = (opened c cs).1;
  front = (closed c cs).0;
  closes = (closed c cs).1;
}

module _ (h : Text) (hs : List Text) where
  rows-IsLine :
      (rows : List (List Text)) → All (IsRow (h ∷ hs)) rows → All IsLine (map print_cells rows)
  rows-IsLine [] r = tt
  rows-IsLine ([] ∷ rows) r = absurd (ground (arith, r.0.as_long))
  rows-IsLine ((c ∷ cs) ∷ rows) r = (print_row-IsLine c cs r.0.cells, rows-IsLine rows r.1)

  read_rows :
      (rows : List (List Text))
      → AreApart (h ∷ hs)
      → All IsOwn (h ∷ hs)
      → All (IsRow (h ∷ hs)) rows
      → map (λ l. fill_record [] (h ∷ hs) (split_csv_row l)) (map print_cells rows)
        ≡ map (zip (h ∷ hs)) rows
  read_rows [] a own r = refl
  read_rows ([] ∷ rows) a own r = absurd (ground (arith, r.0.as_long))
  read_rows ((c ∷ cs) ∷ rows) a own r =
      let trimmed = All-map IsCell (λ d. trim d ≡ d) (c ∷ cs) (λ d cell. cell.trimmed) r.0.cells in
      rw (split_csv_row-print_row c cs trimmed, read_rows rows a own r.1)
        (ap (λ x. x ∷ map (zip (h ∷ hs)) rows)
          (fill_record-zip (h ∷ hs) (c ∷ cs) [] r.0.as_long a (AreNew-nil (h ∷ hs)) own))

-- A table printed with every cell in quotes is parsed back, where the headers are distinct and none is
-- `__proto__`, every row has a cell for each header, and no cell has a line break or white space at its ends: commas,
-- quotes and inner white space come back as they were.
pub parse_csv-print_csv :
    (h : Text) (hs : List Text) (rows : List (List Text))
    → All IsCell (h ∷ hs)
    → AreApart (h ∷ hs)
    → All IsOwn (h ∷ hs)
    → All (IsRow (h ∷ hs)) rows
    → parse_csv (print_csv (h ∷ hs) rows)
      ≡ record { headers = h ∷ hs; rows = map (zip (h ∷ hs)) rows }
unfolding parse_csv parse_lines
parse_csv-print_csv h hs rows c a own r =
    let trimmed = All-map IsCell (λ d. trim d ≡ d) (h ∷ hs) (λ d cell. cell.trimmed) c in
    let lines =
      csv_lines-print_lines (print_row h hs) (map print_cells rows)
        (print_row-IsLine h hs c, rows-IsLine h hs rows r) in
    rw lines (
      rw
        (
          split_csv_row-print_row h hs trimmed,
          map-trim (h ∷ hs) trimmed,
          read_rows h hs rows a own r,
        )
        refl)
