-- ===== src/Parking/Import/Headers.antt =====
-- The reading of the headers of `importSlotsCsv`, and its errors.
use towerdesk_backend_clean.Prelude.{
  ℕ, suc, Bool, true, false, not, ◌||◌, Option, none, some, List, [], ◌∷◌, ◌++◌, ◌==◌,
  if◌then◌else◌, filter, Text, codes, is_empty, is_space, same_text, to_lower_case,
}

pub data Field : Type 0 where
  code_field type_field level_field covered_field active_field : Field

-- The field that an error names.
pub data ErrorField : Type 0 where
  named_header : Text → ErrorField
  numbered_column : ℕ → ErrorField
  named_field : Field → ErrorField

pub data ImportProblem : Type 0 where
  csv_is_empty unknown_header duplicate_header missing_header too_many_rows : ImportProblem
  code_required type_required duplicate_code invalid_boolean invalid_type : ImportProblem
  code_exists : ImportProblem

pub record ImportError : Type 0 where
  pub row : ℕ
  pub field : Option ErrorField
  pub problem : ImportProblem

abbrev pub error_at : ℕ → Option ErrorField → ImportProblem → ImportError
error_at row field problem = record { row = row; field = field; problem = problem }

-- `/[\s_-]/`
abbrev is_separator : ℕ → Bool
is_separator c = is_space c || c == 95 || c == 45

-- `canonicalHeader`
unfoldable pub canonical_header : Text → Text
unfolding is_space to_lower_case
canonical_header s = filter (λ c. not (is_separator c)) (to_lower_case s)

-- `allowedHeaders.get(canonical)`
unfoldable pub allowed_header : Text → Option Field
allowed_header t =
    if same_text t (codes "code")
    then some Field.code_field
    else if same_text t (codes "type")
    then some Field.type_field
    else if same_text t (codes "level")
    then some Field.level_field
    else if same_text t (codes "iscovered")
    then some Field.covered_field
    else if same_text t (codes "isactive")
    then some Field.active_field
    else none

abbrev pub same_field : Field → Field → Bool
same_field Field.code_field Field.code_field = true
same_field Field.type_field Field.type_field = true
same_field Field.level_field Field.level_field = true
same_field Field.covered_field Field.covered_field = true
same_field Field.active_field Field.active_field = true
same_field _ _ = false

-- `headerCanonicalToActual`, and the errors.
pub record HeaderMap : Type 0 where
  pub actual : List (Field × Text)
  pub errors : List ImportError

abbrev pub header_of : Field → List (Field × Text) → Option Text
header_of f [] = none
header_of f ((g, t) ∷ rest) = if same_field g f then some t else header_of f rest

abbrev known_header : Field → Text → HeaderMap → HeaderMap
known_header f t hs = elim (header_of f hs.actual) [
  | some _ ↦ record hs {
    errors =
        hs.errors
        ++ (error_at 1 (some (ErrorField.named_header t)) ImportProblem.duplicate_header ∷ []);
  }
  | none ↦ record hs { actual = hs.actual ++ ((f, t) ∷ []) }
]

-- One header, with its index.
unfoldable pub read_header : ℕ → Text → HeaderMap → HeaderMap
unfolding canonical_header allowed_header
read_header i t hs = elim (allowed_header (canonical_header t)) [
  | none ↦ record hs {
    errors =
        hs.errors
        ++ (error_at 1
              (some (
                if is_empty t
                then ErrorField.numbered_column (suc i)
                else ErrorField.named_header t))
              ImportProblem.unknown_header
            ∷ []);
  }
  | some f ↦ known_header f t hs
]

unfoldable pub read_headers_from : ℕ → List Text → HeaderMap → HeaderMap
unfolding read_header
read_headers_from i [] hs = hs
read_headers_from i (t ∷ ts) hs = read_headers_from (suc i) ts (read_header i t hs)

unfoldable pub require_header : Field → HeaderMap → HeaderMap
require_header f hs = elim (header_of f hs.actual) [
  | some _ ↦ hs
  | none ↦ record hs {
    errors =
        hs.errors
        ++ (error_at 1 (some (ErrorField.named_field f)) ImportProblem.missing_header ∷ []);
  }
]

unfoldable pub read_headers : List Text → HeaderMap
unfolding read_headers_from require_header
read_headers ts =
    require_header Field.type_field (
      require_header Field.code_field
        (read_headers_from 0 ts (record { actual = []; errors = [] })))
