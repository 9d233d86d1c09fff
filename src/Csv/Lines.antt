-- ===== src/Csv/Lines.antt =====
-- The lines of a printed table are read back.
use mathlib.Core.List.{append-nil, append_assoc}
use towerdesk_backend_clean.Prelude.{
  ℕ, ◌≡◌, refl, ap, ◌∙◌, false, not, List, [], ◌∷◌, ◌++◌, map, filter, ◌==◌, arith, Text, trim,
  trim_end, trim_end-append_unit, is_space, is_empty, has, has-append, All, All-map,
}
use towerdesk_backend_clean.Csv.{strip_utf8_bom, replace_crlf, replace_cr, split_lines, csv_lines}
use towerdesk_backend_clean.Csv.Printer.{escape, print_row, print_lines}

-- A cell that a table can hold: no white space at its ends and no line break.
pub record IsCell (c : Text) : Type 0 where
  pub trimmed : trim c ≡ c
  pub no_line_feed : has c 10 ≡ false
  pub no_return : has c 13 ≡ false

-- A line that is read as it stands.
pub record IsLine (l : Text) : Type 0 where
  pub no_line_feed : has l 10 ≡ false
  pub no_return : has l 13 ≡ false
  pub rest : Text
  pub opens : l ≡ 34 ∷ rest
  pub front : Text
  pub closes : l ≡ front ++ (34 ∷ [])

has-escape : (c : Text) (k : ℕ) → (k == 34) ≡ false → has c k ≡ false → has (escape c) k ≡ false
unfolding escape
has-escape [] k n h = refl
has-escape (x ∷ xs) k n h = ground (arith, has-escape xs k n)

pub has-print_row :
    (c : Text) (cs : List Text) (k : ℕ)
    → (k == 34) ≡ false
    → (k == 44) ≡ false
    → All (λ d. has d k ≡ false) (c ∷ cs)
    → has (print_row c cs) k ≡ false
unfolding print_row
has-print_row c [] k q n h = ground (arith, has-append (escape c) (34 ∷ []) k, has-escape c k q h.0)
has-print_row c (d ∷ ds) k q n h = ground (
  arith,
  has-append (escape c) (34 ∷ (44 ∷ print_row d ds)) k,
  has-escape c k q h.0,
  has-print_row d ds k q n h.1,
)

pub closed : (c : Text) (cs : List Text) → (x : Text) × (print_row c cs ≡ x ++ (34 ∷ []))
unfolding print_row
closed c [] = (34 ∷ escape c, refl)
closed c (d ∷ ds) =
    let (x, e) = closed d ds in (34 ∷ (escape c ++ (34 ∷ (44 ∷ x))), rw e (rw append_assoc refl))

pub opened : (c : Text) (cs : List Text) → (x : Text) × (print_row c cs ≡ 34 ∷ x)
unfolding print_row
opened c [] = (escape c ++ (34 ∷ []), refl)
opened c (d ∷ ds) = (escape c ++ (34 ∷ (44 ∷ print_row d ds)), refl)

replace_crlf-id : (t : Text) → has t 13 ≡ false → replace_crlf t ≡ t
unfolding replace_crlf
replace_crlf-id [] h = refl
replace_crlf-id (c ∷ []) h = refl
replace_crlf-id (c ∷ (d ∷ cs)) h = ground (arith, replace_crlf-id (d ∷ cs))

replace_cr-id : (t : Text) → has t 13 ≡ false → replace_cr t ≡ t
unfolding replace_cr
replace_cr-id [] h = refl
replace_cr-id (c ∷ cs) h = ground (arith, replace_cr-id cs)

split_lines-one : (line l : Text) → has l 10 ≡ false → split_lines line l ≡ (line ++ l) ∷ []
unfolding split_lines
split_lines-one line [] h = rw append-nil refl
split_lines-one line (c ∷ cs) h =
    ground (arith, split_lines-one (line ++ (c ∷ [])) cs, append_assoc line (c ∷ []) cs)

split_lines-more :
    (line l rest : Text)
    → has l 10 ≡ false
    → split_lines line (l ++ (10 ∷ rest)) ≡ (line ++ l) ∷ split_lines [] rest
unfolding split_lines
split_lines-more line [] rest h = rw append-nil refl
split_lines-more line (c ∷ cs) rest h =
    ground (arith, split_lines-more (line ++ (c ∷ [])) cs rest, append_assoc line (c ∷ []) cs)

split_lines-print_lines :
    (l : Text) (ls : List Text)
    → All (λ m. has m 10 ≡ false) (l ∷ ls)
    → split_lines [] (print_lines l ls) ≡ l ∷ ls
unfolding print_lines
split_lines-print_lines l [] h = split_lines-one [] l h.0
split_lines-print_lines l (m ∷ ms) h =
    split_lines-more [] l (print_lines m ms) h.0
    ∙ ap (λ xs. l ∷ xs) (split_lines-print_lines m ms h.1)

has-print_lines :
    (l : Text) (ls : List Text)
    → All (λ m. has m 13 ≡ false) (l ∷ ls)
    → has (print_lines l ls) 13 ≡ false
unfolding print_lines
has-print_lines l [] h = h.0
has-print_lines l (m ∷ ms) h =
    ground (arith, has-append l (10 ∷ print_lines m ms) 13, has-print_lines m ms h.1)

strip_utf8_bom-print_lines :
    (l : Text) (ls : List Text) → IsLine l → strip_utf8_bom (print_lines l ls) ≡ print_lines l ls
unfolding print_lines strip_utf8_bom
strip_utf8_bom-print_lines l [] h = rw h.opens refl
strip_utf8_bom-print_lines l (m ∷ ms) h = rw h.opens refl

keep_line :
    (l : Text) (ls : List Text)
    → IsLine l
    → filter (λ m. not (is_empty m)) (map trim_end (l ∷ ls))
      ≡ l ∷ filter (λ m. not (is_empty m)) (map trim_end ls)
unfolding is_space
keep_line l ls h =
    let ends : trim_end l ≡ l = rw h.closes (trim_end-append_unit h.front 34 refl) in
    rw ends (rw h.opens refl)

keep_lines :
    (ls : List Text) → All IsLine ls → filter (λ m. not (is_empty m)) (map trim_end ls) ≡ ls
keep_lines [] h = refl
keep_lines (l ∷ ls) h = keep_line l ls h.0 ∙ ap (λ xs. l ∷ xs) (keep_lines ls h.1)

pub csv_lines-print_lines :
    (l : Text) (ls : List Text) → All IsLine (l ∷ ls) → csv_lines (print_lines l ls) ≡ l ∷ ls
unfolding csv_lines
csv_lines-print_lines l ls h =
    let feeds = All-map IsLine (λ m. has m 10 ≡ false) (l ∷ ls) (λ m line. line.no_line_feed) h in
    let returns = All-map IsLine (λ m. has m 13 ≡ false) (l ∷ ls) (λ m line. line.no_return) h in
    let none_left = has-print_lines l ls returns in
    rw
      (
        strip_utf8_bom-print_lines l ls h.0,
        replace_crlf-id (print_lines l ls) none_left,
        replace_cr-id (print_lines l ls) none_left,
        split_lines-print_lines l ls feeds,
      )
      (keep_lines (l ∷ ls) h)
