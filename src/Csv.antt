-- ===== src/Csv.antt =====
-- src/common/utils/csv.ts: `parseCsv`. A record of a row is the list of its properties, in the order
-- in which they are first written; no caller asks for the order in which JavaScript lists them.
pub mod Printer
pub mod Cells
pub mod Lines
pub mod RoundTrip
mod Tests
use towerdesk_backend_clean.Prelude.{
  ℕ, Bool, true, false, not, Option, none, some, List, [], ◌∷◌, ◌++◌, map, filter, ◌==◌,
  if◌then◌else◌, Text, trim, trim_end, same_text, is_empty, codes,
}

abbrev pub Row : Type 0
Row = List (Text × Text)

pub record ParsedCsv : Type 0 where
  pub headers : List Text
  pub rows : List Row

-- `splitCsvRow`, in or out of quotes; a quote that another one follows stands for a quote.
unfoldable pub split_from : Bool → Text → Text → List Text
split_from quoted current [] = current ∷ []
split_from false current (c ∷ cs) = elim (c == 44) [
  | true ↦ current ∷ split_from false [] cs
  | false ↦ elim (c == 34) [
    | true ↦ split_from true current cs
    | false ↦ split_from false (current ++ (c ∷ [])) cs
  ]
]
split_from true current (c ∷ []) = if c == 34 then current ∷ [] else (current ++ (c ∷ [])) ∷ []
split_from true current (c ∷ (d ∷ cs)) = elim (c == 34) [
  | true ↦ elim (d == 34) [
    | true ↦ split_from true (current ++ (34 ∷ [])) cs
    | false ↦ split_from false current (d ∷ cs)
  ]
  | false ↦ split_from true (current ++ (c ∷ [])) (d ∷ cs)
]

-- `splitCsvRow`
unfoldable pub split_csv_row : Text → List Text
split_csv_row line = map trim (split_from false [] line)

-- `stripUtf8Bom`
unfoldable pub strip_utf8_bom : Text → Text
strip_utf8_bom [] = []
strip_utf8_bom (c ∷ cs) = if c == 0xfeff then cs else c ∷ cs

-- `.replace(/\r\n/g, '\n')`
unfoldable pub replace_crlf : Text → Text
replace_crlf [] = []
replace_crlf (c ∷ []) = c ∷ []
replace_crlf (c ∷ (d ∷ cs)) = elim (c == 13) [
  | true ↦ elim (d == 10) [ true ↦ 10 ∷ replace_crlf cs | false ↦ c ∷ replace_crlf (d ∷ cs) ]
  | false ↦ c ∷ replace_crlf (d ∷ cs)
]

-- `.replace(/\r/g, '\n')`
unfoldable pub replace_cr : Text → Text
replace_cr [] = []
replace_cr (c ∷ cs) = (if c == 13 then 10 else c) ∷ replace_cr cs

-- `.split('\n')`, with the line that has been read so far.
unfoldable pub split_lines : Text → Text → List Text
split_lines line [] = line ∷ []
split_lines line (c ∷ cs) = elim (c == 10) [
  | true ↦ line ∷ split_lines [] cs
  | false ↦ split_lines (line ++ (c ∷ [])) cs
]

-- The lines that are not empty, without the white space at their ends.
unfoldable pub csv_lines : Text → List Text
unfolding strip_utf8_bom replace_crlf replace_cr split_lines
csv_lines input =
    filter (λ l. not (is_empty l))
      (map trim_end (split_lines [] (replace_cr (replace_crlf (strip_utf8_bom input)))))

-- The property that is written anew, or over the value that it has.
unfoldable pub put : Text → Text → Row → Row
put h v [] = (h, v) ∷ []
put h v ((k, u) ∷ rest) = elim (same_text k h) [
  | true ↦ (k, v) ∷ rest
  | false ↦ (k, u) ∷ put h v rest
]

-- The name whose assignment to a text does nothing in JavaScript.
abbrev pub proto : Text
proto = codes "__proto__"

-- `record[header] = value`
unfoldable pub assign : Text → Text → Row → Row
unfolding put
assign h v row = if same_text h proto then row else put h v row

-- The loop over the headers; a value that is missing is empty.
unfoldable pub fill_record : Row → List Text → List Text → Row
unfolding assign
fill_record so_far [] values = so_far
fill_record so_far (h ∷ hs) [] = fill_record (assign h [] so_far) hs []
fill_record so_far (h ∷ hs) (v ∷ vs) = fill_record (assign h v so_far) hs vs

-- `parseCsv`, from the lines on.
unfoldable pub parse_lines : List Text → ParsedCsv
unfolding split_csv_row fill_record
parse_lines [] = record { headers = []; rows = [] }
parse_lines (line ∷ lines) =
    let headers = map trim (split_csv_row line) in
    record { headers = headers; rows = map (λ l. fill_record [] headers (split_csv_row l)) lines }

-- `parseCsv`
unfoldable pub parse_csv : Text → ParsedCsv
unfolding csv_lines parse_lines
parse_csv input = parse_lines (csv_lines input)
