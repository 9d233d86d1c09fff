-- ===== src/Parking/Import.antt =====
-- `importSlotsCsv`.
pub mod Headers
pub mod Reading
pub mod Writing
pub mod Counts
pub mod Updating
pub mod Placed
pub mod Apart
pub mod Report
use towerdesk_backend_clean.Prelude.{
  leb, is_some, map, ℕ, suc, ◌+◌, Bool, true, false, not, ◌&&◌, ◌||◌, Option, none, some, List, [],
  ◌∷◌, ◌++◌, ◌==◌, if◌then◌else◌, find, filter, any, is_true, or_else, length, ltb, Text, same_text,
  is_empty,
}
use towerdesk_backend_clean.Csv.{ParsedCsv, parse_csv}
use towerdesk_backend_clean.Result.{
  Result, ok, err, bad_request, or_throw, unique_violation, csv_required, throw_if,
}
use towerdesk_backend_clean.Action.{pure, ◌>>=◌, ◌>>◌, gets, lift}
use towerdesk_backend_clean.Request.Callers.{AuthUser}
use towerdesk_backend_clean.Parking.Types.{Slot}
use towerdesk_backend_clean.Parking.World.{ParkingWorld, Action, org_in_building}
use towerdesk_backend_clean.Parking.Slots.{SlotDto, insert_slot, replace_slot}
use towerdesk_backend_clean.Parking.Import.Headers.{
  Field, ErrorField, ImportProblem, ImportError, HeaderMap, error_at, read_headers,
}
use towerdesk_backend_clean.Parking.Import.Reading.{Progress, read_rows}
use towerdesk_backend_clean.Parking.Import.Writing.{
  ImportMode, Written, existing_of, existing_errors, write_entries, nothing_done,
}

pub record ImportResponse : Type 0 where
  pub dry_run : Bool
  pub mode : ImportMode
  pub total_rows : ℕ
  pub valid_rows : ℕ
  pub created : ℕ
  pub updated : ℕ
  pub errors : List ImportError
  pub slot_ids : Option (List ℕ)

abbrev pub nothing_written : Bool → ImportMode → ℕ → ℕ → List ImportError → ImportResponse
nothing_written dry mode total valid errors = record {
  dry_run = dry;
  mode = mode;
  total_rows = total;
  valid_rows = valid;
  created = 0;
  updated = 0;
  errors = errors;
  slot_ids = none;
}

-- The response after the transaction.
abbrev pub written_response : ImportMode → ℕ → ℕ → Written → ImportResponse
written_response mode total valid written = record {
  dry_run = false;
  mode = mode;
  total_rows = total;
  valid_rows = valid;
  created = written.created;
  updated = written.updated;
  errors = [];
  slot_ids = some written.slot_ids;
}

-- After the rows are read: the codes that exist, then the transaction.
unfoldable pub import_entries : Bool → ImportMode → ℕ → ℕ → ℕ → Progress → Action ImportResponse
import_entries dry mode org building total p = do
  existing ← gets (existing_of org building)
  let errors = p.errors ++ existing_errors mode existing p.entries
  if dry || not (length errors == 0)
      then pure (nothing_written dry mode total (length p.entries) errors)
      else do
        written ← write_entries mode org building existing p.entries nothing_done
        pure (written_response mode total (length p.entries) written)

-- With headers; at most 5000 rows are read.
unfoldable pub import_rows :
    Bool → ImportMode → ℕ → ℕ → ParsedCsv → HeaderMap → Action ImportResponse
import_rows dry mode org building parsed headers =
    if not (length headers.errors == 0)
    then pure (nothing_written dry mode (length parsed.rows) 0 headers.errors)
    else if ltb 5000 (length parsed.rows)
    then pure (
        nothing_written dry mode (length parsed.rows) 0
          (error_at 1 none ImportProblem.too_many_rows ∷ []))
    else import_entries dry mode org building (length parsed.rows)
        (read_rows headers.actual 2 parsed.rows (record { entries = []; seen = []; errors = [] }))

-- A file that parses, by its headers.
unfoldable pub import_headed :
    Bool → ImportMode → ℕ → ℕ → ParsedCsv → List Text → Action ImportResponse
import_headed dry mode org building parsed [] =
    pure (nothing_written dry mode 0 0 (error_at 1 none ImportProblem.csv_is_empty ∷ []))
import_headed dry mode org building parsed (h ∷ hs) =
    import_rows dry mode org building parsed (read_headers (h ∷ hs))

abbrev pub import_parsed : Bool → ImportMode → ℕ → ℕ → ParsedCsv → Action ImportResponse
import_parsed dry mode org building parsed =
    import_headed dry mode org building parsed parsed.headers

-- `importSlotsCsv`
unfoldable pub import_slots_csv :
    Option AuthUser → ℕ → Option Text → Option Bool → Option ImportMode → Action ImportResponse
import_slots_csv user building file dry_run mode = do
  org ← org_in_building user building
  given ← lift (or_throw file (bad_request csv_required))
  lift (throw_if (is_empty given) (bad_request csv_required))
  import_parsed (is_true dry_run) (or_else mode ImportMode.create) org building (parse_csv given)
