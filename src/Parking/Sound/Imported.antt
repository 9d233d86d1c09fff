-- ===== src/Parking/Sound/Imported.antt =====
-- What `importSlotsCsv` leaves.
use towerdesk_backend_clean.Prelude.{
  ℕ, ◌≡◌, refl, Bool, not, ◌||◌, Option, List, [], ◌∷◌, ◌++◌, length, or_else, ltb, ◌==◌, arith,
  Option-cases, Bool-cases, inl, inr, Text,
}
use towerdesk_backend_clean.Result.{throw_if, or_throw, bad_request, unique_violation}
use towerdesk_backend_clean.Action.{After, After-reader, After-lift}
use towerdesk_backend_clean.Request.Callers.{AuthUser}
use towerdesk_backend_clean.Parking.Types.{Slot}
use towerdesk_backend_clean.Parking.Sound.Readers.{org_in_building-Reads}
use towerdesk_backend_clean.Parking.Sound.{slot_ids}
use towerdesk_backend_clean.Prelude.{is_true, is_empty}
use towerdesk_backend_clean.Csv.{ParsedCsv, parse_csv}
use towerdesk_backend_clean.Result.{csv_required}
use towerdesk_backend_clean.Parking.Slots.{SlotDto, insert_slot}
use towerdesk_backend_clean.Parking.Import.Headers.{HeaderMap, read_headers}
use towerdesk_backend_clean.Parking.Import.Reading.{Entry, Progress}
use towerdesk_backend_clean.Parking.Import.Writing.{
  existing_errors, nothing_done, ImportMode, Written, existing_of, upserted_id, update_imported,
  write_entry, write_entries,
}
use towerdesk_backend_clean.Parking.Import.{
  import_entries, import_rows, import_headed, import_slots_csv,
}
use towerdesk_backend_clean.Parking.Sound.Kept.{Keeps, Keeps-bind, insert_slot-IsKept}

slot_ids-update_imported :
    (id : ℕ) (dto : SlotDto) (xs : List Slot) → slot_ids (update_imported id dto xs) ≡ slot_ids xs
unfolding update_imported
slot_ids-update_imported id dto [] = refl
slot_ids-update_imported id dto (x ∷ xs) = ground (arith, slot_ids-update_imported id dto xs)

write_entry-Keeps :
    (mode : ImportMode) (org building : ℕ) (existing : List (Text × ℕ)) (e : Entry) (done : Written)
    → Keeps (write_entry mode org building existing e done)
unfolding write_entry
write_entry-Keeps mode org building existing e done w sound =
    elim (Option-cases (upserted_id mode existing e.slot.code)) [
      | inl f ↦
          rw (After, f)
            (Keeps-bind (insert_slot unique_violation org building e.slot) _
              (insert_slot-IsKept unique_violation org building e.slot) (λ s v kept. (kept, refl)) w
              sound)
      | inr (id, f) ↦
          rw (After, f)
            (
              (
                sound.0,
                sound.1,
                rw (slot_ids-update_imported id e.slot w.slots) sound.2,
                rw (slot_ids-update_imported id e.slot w.slots) sound.3,
              ),
              refl,
            )
    ]

write_entries-Keeps :
    (mode : ImportMode) (org building : ℕ) (existing : List (Text × ℕ)) (es : List Entry)
    → (done : Written) → Keeps (write_entries mode org building existing es done)
unfolding write_entries
write_entries-Keeps mode org building existing [] done w sound = (sound, refl)
write_entries-Keeps mode org building existing (e ∷ es) done w sound =
    Keeps-bind (write_entry mode org building existing e done) _
      (write_entry-Keeps mode org building existing e done)
      (λ next. write_entries-Keeps mode org building existing es next) w sound

import_entries-Keeps :
    (dry : Bool) (mode : ImportMode) (org building total : ℕ) (p : Progress)
    → Keeps (import_entries dry mode org building total p)
unfolding import_entries
import_entries-Keeps dry mode org building total p w sound =
    let existing = existing_of org building w in
    let errors = p.errors ++ existing_errors mode existing p.entries in
    elim (Bool-cases (dry || not (length errors == 0))) [
      | inl f ↦ rw (After, f) (sound, refl)
      | inr f ↦
          rw (After, f)
            (Keeps-bind (write_entries mode org building existing p.entries nothing_done) _
              (write_entries-Keeps mode org building existing p.entries nothing_done)
              (λ written v kept. (kept, refl)) w sound)
    ]

import_rows-Keeps :
    (dry : Bool) (mode : ImportMode) (org building : ℕ) (parsed : ParsedCsv) (headers : HeaderMap)
    → Keeps (import_rows dry mode org building parsed headers)
unfolding import_rows
import_rows-Keeps dry mode org building parsed headers w sound =
    elim (Bool-cases (not (length headers.errors == 0))) [
      | inl f ↦ rw (After, f) (sound, refl)
      | inr f ↦ elim (Bool-cases (ltb 5000 (length parsed.rows))) [
        | inl g ↦ rw (After, f, g) (sound, refl)
        | inr g ↦
            rw (f, g) (import_entries-Keeps dry mode org building (length parsed.rows) _ w sound)
      ]
    ]

import_headed-Keeps :
    (dry : Bool) (mode : ImportMode) (org building : ℕ) (parsed : ParsedCsv) (hs : List Text)
    → Keeps (import_headed dry mode org building parsed hs)
unfolding import_headed
import_headed-Keeps dry mode org building parsed [] w sound = (sound, refl)
import_headed-Keeps dry mode org building parsed (h ∷ hs) w sound =
    import_rows-Keeps dry mode org building parsed (read_headers (h ∷ hs)) w sound

pub import_slots_csv-Keeps :
    (user : Option AuthUser) (building : ℕ) (file : Option Text) (dry : Option Bool)
    → (mode : Option ImportMode) → Keeps (import_slots_csv user building file dry mode)
unfolding import_slots_csv
import_slots_csv-Keeps user building file dry mode w sound =
    After-reader _ _ _ w _ (org_in_building-Reads user building) (λ org _.
      After-lift _ (or_throw file (bad_request csv_required)) _ w (λ given _.
        After-lift _ (throw_if (is_empty given) (bad_request csv_required)) _ w (λ _ _.
          import_headed-Keeps (is_true dry) (or_else mode ImportMode.create) org building
            (parse_csv given) (parse_csv given).headers w sound)))
