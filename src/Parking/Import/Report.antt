-- ===== src/Parking/Import/Report.antt =====
-- What the response of `importSlotsCsv` says of what was written.
use towerdesk_backend_clean.Prelude.{
  ℕ, ◌+◌, ◌≤◌, ◌<◌, ◌≡◌, ◌⊎◌, refl, Bool, true, false, not, ◌||◌, Option, none, some, List, [], ◌∷◌,
  ◌++◌, length, or_else, is_true, is_empty, All, ltb, ◌==◌, Text, arith, Bool-cases, inl, inr,
}
use towerdesk_backend_clean.Csv.{ParsedCsv, parse_csv}
use towerdesk_backend_clean.Result.{
  Result, Error, ok, err, bad_request, csv_required, or_throw, throw_if,
}
use towerdesk_backend_clean.Action.{After, After-bind, After-reader, After-lift}
use towerdesk_backend_clean.Request.Callers.{AuthUser}
use towerdesk_backend_clean.Parking.World.{ParkingWorld}
use towerdesk_backend_clean.Parking.Sound.Readers.{org_in_building-Reads}
use towerdesk_backend_clean.Parking.Import.Headers.{HeaderMap, read_headers}
use towerdesk_backend_clean.Parking.Import.Reading.{Entry, Progress, read_rows}
use towerdesk_backend_clean.Parking.Import.Writing.{
  ImportMode, existing_of, existing_errors, write_entries, nothing_done,
}
use towerdesk_backend_clean.Parking.Import.Counts.{
  HasWritten, length-read_rows, write_entries-HasWritten,
}
use towerdesk_backend_clean.Parking.Sound.{IsSound}
use towerdesk_backend_clean.Parking.Import.Placed.{
  IsPlaced, AreApart, AllPlaced, write_entries-AllPlaced,
}
use towerdesk_backend_clean.Parking.Import.Apart.{read_rows-IsApart, existing_of-IsKnown}
use towerdesk_backend_clean.Parking.Import.{
  ImportResponse, import_entries, import_rows, import_headed, import_slots_csv,
}

-- Nothing is written: the tables are as they were, and the response says so and why.
abbrev pub IsIdle : ParkingWorld → ImportResponse → ParkingWorld → Type 0
IsIdle w r v =
    (v ≡ w)
    × (r.created ≡ 0)
    × (r.updated ≡ 0)
    × (r.slot_ids ≡ none)
    × ((r.dry_run ≡ true) ⊎ (0 < length r.errors))

abbrev pub nothing_read : Progress
nothing_read = record { entries = []; seen = []; errors = [] }

-- The valid rows of a file with the headers.
abbrev pub entries_of : ParsedCsv → List Text → List Entry
entries_of parsed headers =
    (read_rows (read_headers headers).actual 2 parsed.rows nothing_read).entries

abbrev pub valid_entries : Option Text → List Entry
valid_entries none = []
valid_entries (some file) = entries_of (parse_csv file) (parse_csv file).headers

-- The valid rows are written, and none had an error.
abbrev pub IsWritten : ℕ → List Entry → ParkingWorld → ImportResponse → ParkingWorld → Type 0
IsWritten building entries w r v =
    (r.dry_run ≡ false)
    × (length entries ≡ r.valid_rows)
    × All (IsPlaced building v.slots) entries
    × (r.errors ≡ [])
    × (r.created + r.updated ≡ r.valid_rows)
    × ((ids : List ℕ) × (r.slot_ids ≡ some ids) × (length ids ≡ r.valid_rows))
    × (length v.slots ≡ length w.slots + r.created)

abbrev pub Reports : Bool → ℕ → List Entry → ParkingWorld → ImportResponse → ParkingWorld → Type 0
Reports dry building entries w r v =
    (r.dry_run ≡ dry)
    × (r.valid_rows ≤ r.total_rows)
    × (IsIdle w r v ⊎ IsWritten building entries w r v)
    × (r.valid_rows ≤ 5000)

After-both :
    {W A : Type 0} (P Q : A → W → Type 0) (r : Result (A × W))
    → After P r
    → After Q r
    → After (λ a v. P a v × Q a v) r
After-both P Q (ok (a, v)) p q = (p, q)
After-both P Q (err e) p q = tt

import_entries-Reports :
    (dry : Bool) (mode : ImportMode) (org building total : ℕ) (p : Progress) (w : ParkingWorld)
    → length p.entries ≤ total
    → total ≤ 5000
    → AreApart p.entries
    → IsSound w
    → After
        (λ r v. Reports dry building p.entries w r v)
        (import_entries dry mode org building total p w)
unfolding import_entries
import_entries-Reports dry mode org building total p w few most apart sound =
    let existing = existing_of org building w in
    let errors = p.errors ++ existing_errors mode existing p.entries in
    elim (Bool-cases (dry || not (length errors == 0))) [
      | inl f ↦ rw (After, f) (refl, few, inl (refl, refl, refl, refl, ground arith), omega arith)
      | inr f ↦
          rw (After, f)
            (After-bind (λ r v. Reports dry building p.entries w r v)
              (write_entries mode org building existing p.entries nothing_done) _ w
              (λ d v.
                HasWritten (length p.entries) nothing_done w d v × AllPlaced building p.entries w v)
              (After-both (λ d v. HasWritten (length p.entries) nothing_done w d v)
                (λ _ v. AllPlaced building p.entries w v)
                (write_entries mode org building existing p.entries nothing_done w)
                (write_entries-HasWritten mode org building existing p.entries nothing_done w)
                (write_entries-AllPlaced mode org building existing p.entries nothing_done w apart
                  (existing_of-IsKnown org building w sound)))
              (λ d v ((sum, ids, rows), placed). (
                ground arith,
                few,
                inr (
                  refl,
                  refl,
                  placed.0,
                  refl,
                  omega arith,
                  (d.slot_ids, refl, omega arith),
                  omega arith,
                ),
                omega arith,
              )))
    ]

import_rows-Reports :
    (dry : Bool) (mode : ImportMode) (org building : ℕ) (parsed : ParsedCsv) (headers : HeaderMap)
    → (w : ParkingWorld) → IsSound w
    → After
        (λ r v.
          Reports dry building (read_rows headers.actual 2 parsed.rows nothing_read).entries w r v)
        (import_rows dry mode org building parsed headers w)
unfolding import_rows
import_rows-Reports dry mode org building parsed headers w sound =
    elim (Bool-cases (not (length headers.errors == 0))) [
      | inl f ↦
          rw (After, f)
            (refl, omega arith, inl (refl, refl, refl, refl, inr (ground arith)), omega arith)
      | inr f ↦ elim (Bool-cases (ltb 5000 (length parsed.rows))) [
        | inl g ↦
            rw (After, f, g)
              (refl, omega arith, inl (refl, refl, refl, refl, inr (omega arith)), omega arith)
        | inr g ↦
            rw (f, g)
              (import_entries-Reports dry mode org building (length parsed.rows) _ w
                (omega (arith, length-read_rows headers.actual 2 parsed.rows nothing_read))
                (ground arith)
                (read_rows-IsApart headers.actual 2 parsed.rows nothing_read (tt, tt)).1 sound)
      ]
    ]

import_headed-Reports :
    (dry : Bool) (mode : ImportMode) (org building : ℕ) (parsed : ParsedCsv) (hs : List Text)
    → (w : ParkingWorld) → IsSound w
    → After
        (λ r v. Reports dry building (entries_of parsed hs) w r v)
        (import_headed dry mode org building parsed hs w)
unfolding import_headed
import_headed-Reports dry mode org building parsed [] w sound =
    (refl, omega arith, inl (refl, refl, refl, refl, inr (omega arith)), omega arith)
import_headed-Reports dry mode org building parsed (h ∷ hs) w sound =
    import_rows-Reports dry mode org building parsed (read_headers (h ∷ hs)) w sound

or_throw-given :
    (file : Option Text) (e : Error) {given : Text} → or_throw file e ≡ ok given → file ≡ some given
or_throw-given none e h = absurd (cc)
or_throw-given (some t) e h = ground arith

-- On sound tables, an import that returns a response either wrote nothing, and then it was a dry run or
-- the response has an error, or it was no dry run and the response has no error: then for every valid
-- row of the file there is a slot of the building with the row's code and type, and with the level and
-- the flags that the row gives; the rows were created or updated, the table of the slots is longer by
-- the rows that were created, and the response has an id for each valid row. The valid rows are no
-- more than the rows of the file, and no more than 5000.
pub import_slots_csv-Reports :
    (user : Option AuthUser) (building : ℕ) (file : Option Text) (dry : Option Bool)
    → (mode : Option ImportMode) (w : ParkingWorld) → IsSound w
    → After
        (λ r v. Reports (is_true dry) building (valid_entries file) w r v)
        (import_slots_csv user building file dry mode w)
unfolding import_slots_csv
import_slots_csv-Reports user building file dry mode w sound =
    After-reader _ _ _ w _ (org_in_building-Reads user building) (λ org _.
      After-lift _ (or_throw file (bad_request csv_required)) _ w (λ given given_is.
        After-lift _ (throw_if (is_empty given) (bad_request csv_required)) _ w (λ _ _.
          rw (or_throw-given file (bad_request csv_required) given_is) (
            import_headed-Reports (is_true dry) (or_else mode ImportMode.create) org building
              (parse_csv given) (parse_csv given).headers w sound))))
