-- ===== src/Parking/Import/Reading.antt =====
-- The reading of the rows of `importSlotsCsv`.
use towerdesk_backend_clean.Prelude.{
  ℕ, suc, Bool, true, false, not, ◌||◌, Option, none, some, List, [], ◌∷◌, ◌++◌, map, ◌==◌,
  if◌then◌else◌, any, Text, codes, trim, is_empty, is_space, same_text, to_lower_case,
  to_upper_case,
}
use towerdesk_backend_clean.Csv.{Row}
use towerdesk_backend_clean.Parking.Types.{SlotType}
use towerdesk_backend_clean.Parking.Slots.{SlotDto}
use towerdesk_backend_clean.Parking.Import.Headers.{
  Field, ErrorField, ImportProblem, ImportError, error_at, header_of,
}

-- `row[actual]`
abbrev pub value_of : Text → Row → Option Text
value_of h [] = none
value_of h ((k, v) ∷ rest) = if same_text k h then some v else value_of h rest

abbrev trimmed_value : Option Text → Option Text
trimmed_value none = none
trimmed_value (some v) = let t = trim v in if is_empty t then none else some t

-- `readCell`
unfoldable pub read_cell : List (Field × Text) → Row → Field → Option Text
read_cell actual row f = elim (header_of f actual) [
  | none ↦ none
  | some h ↦ trimmed_value (value_of h row)
]

abbrev is_text_of : Text → List Text → Bool
is_text_of t options = any (same_text t) options

-- `parseBool`; none where the value is invalid.
unfoldable pub parse_bool : Text → Option Bool
parse_bool value =
    let t = to_lower_case (trim value) in
    if is_text_of t (codes "true" ∷ codes "1" ∷ codes "yes" ∷ codes "y" ∷ [])
    then some true
    else if is_text_of t (codes "false" ∷ codes "0" ∷ codes "no" ∷ codes "n" ∷ [])
    then some false
    else none

-- `normalizeEnum`
unfoldable pub normalize_enum : Text → Text
normalize_enum value =
    map (λ c. if is_space c || c == 45 then 95 else c) (to_upper_case (trim value))

-- `parseEnumField` for the types of slots.
unfoldable pub parse_type : Text → Option SlotType
unfolding normalize_enum
parse_type value =
    let t = normalize_enum value in
    if same_text t (codes "CAR")
    then some SlotType.car
    else if same_text t (codes "BIKE")
    then some SlotType.bike
    else if same_text t (codes "EV")
    then some SlotType.ev
    else none

-- A row that was read, with its number.
pub record Entry : Type 0 where
  pub row : ℕ
  pub slot : SlotDto

-- What the loop over the rows has so far.
pub record Progress : Type 0 where
  pub entries : List Entry
  pub seen : List Text
  pub errors : List ImportError

-- The flag of a cell: none where there is no cell, and an error where it is invalid.
abbrev pub flag_errors : ℕ → Field → Option Text → List ImportError
flag_errors row f none = []
flag_errors row f (some v) = elim (parse_bool v) [
  | some _ ↦ []
  | none ↦ error_at row (some (ErrorField.named_field f)) ImportProblem.invalid_boolean ∷ []
]

abbrev pub flag_of : Option Text → Option Bool
flag_of none = none
flag_of (some v) = parse_bool v

-- The row is kept if it brought no error.
abbrev pub add_entry : List ImportError → Entry → Progress → Progress
add_entry [] entry p = record p { entries = p.entries ++ (entry ∷ []) }
add_entry (e ∷ es) entry p = record p { errors = p.errors ++ (e ∷ es) }

-- The cells of a row with a new code.
unfoldable pub read_fields : List (Field × Text) → ℕ → Row → Text → Text → Progress → Progress
read_fields actual row r code type p =
    let covered = read_cell actual r Field.covered_field in
    let active = read_cell actual r Field.active_field in
    let flags =
      flag_errors row Field.covered_field covered ++ flag_errors row Field.active_field active in
    elim (parse_type type) [
      | none ↦ record p {
        errors =
            p.errors
            ++ (error_at row (some (ErrorField.named_field Field.type_field))
                  ImportProblem.invalid_type
                ∷ flags);
      }
      | some t ↦
          add_entry flags
            (record {
              row = row;
              slot = record {
                code = code;
                type = t;
                level = read_cell actual r Field.level_field;
                is_covered = flag_of covered;
                is_active = flag_of active;
              };
            })
            p
    ]

abbrev pub add_error : ℕ → Field → ImportProblem → Progress → Progress
add_error row f problem p = record p {
  errors = p.errors ++ (error_at row (some (ErrorField.named_field f)) problem ∷ []);
}

abbrev pub has_seen : Text → List Text → Bool
has_seen code seen = any (same_text code) seen

-- A row with a code.
unfoldable pub read_coded : List (Field × Text) → ℕ → Row → Text → Progress → Progress
unfolding read_fields
read_coded actual row r code p = elim (read_cell actual r Field.type_field) [
  | none ↦ add_error row Field.type_field ImportProblem.type_required p
  | some type ↦
      if has_seen code p.seen
      then add_error row Field.code_field ImportProblem.duplicate_code p
      else read_fields actual row r code type (record p { seen = code ∷ p.seen })
]

-- `anyValue`
abbrev pub has_value : Row → Bool
has_value r = any (λ (c : Text × Text). not (is_empty (trim c.1))) r

-- One row; a row of white space is passed over.
unfoldable pub read_row : List (Field × Text) → ℕ → Row → Progress → Progress
unfolding read_coded
read_row actual row r p =
    if has_value r
    then elim (read_cell actual r Field.code_field) [
      | none ↦ add_error row Field.code_field ImportProblem.code_required p
      | some code ↦ read_coded actual row r code p
    ]
    else p

-- The rows; the first one is the second line of the file.
unfoldable pub read_rows : List (Field × Text) → ℕ → List Row → Progress → Progress
unfolding read_row
read_rows actual row [] p = p
read_rows actual row (r ∷ rs) p = read_rows actual (suc row) rs (read_row actual row r p)
