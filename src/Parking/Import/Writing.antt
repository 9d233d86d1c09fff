-- ===== src/Parking/Import/Writing.antt =====
-- The part of `importSlotsCsv` that asks for the existing codes and writes the rows.
use towerdesk_backend_clean.Prelude.{
  is_some, map, ℕ, suc, ◌&&◌, Option, none, some, List, [], ◌∷◌, ◌++◌, ◌==◌, if◌then◌else◌, filter,
  or_else, Text, same_text,
}
use towerdesk_backend_clean.Result.{ok, unique_violation}
use towerdesk_backend_clean.Action.{pure, ◌>>=◌}
use towerdesk_backend_clean.Parking.Types.{Slot}
use towerdesk_backend_clean.Parking.World.{ParkingWorld, Action}
use towerdesk_backend_clean.Parking.Slots.{SlotDto, insert_slot}
use towerdesk_backend_clean.Parking.Import.Headers.{
  Field, ErrorField, ImportProblem, ImportError, error_at,
}
use towerdesk_backend_clean.Parking.Import.Reading.{Entry}

pub data ImportMode : Type 0 where
  create upsert : ImportMode

-- `existingByCode`: the codes and ids of the slots of the building, as they were read.
unfoldable pub existing_of : ℕ → ℕ → ParkingWorld → List (Text × ℕ)
existing_of org building w =
    map (λ (s : Slot). (s.code, s.id))
      (filter (λ s. (s.org_id == org) && (s.building_id == building)) w.slots)

-- `existingByCode.get(code)`; a later row replaces an earlier one.
unfoldable pub existing_id : Text → List (Text × ℕ) → Option ℕ
existing_id c [] = none
existing_id c ((k, id) ∷ rest) = elim (existing_id c rest) [
  | some later ↦ some later
  | none ↦ if same_text k c then some id else none
]

-- In mode CREATE, the entries whose code exists.
unfoldable pub existing_errors : ImportMode → List (Text × ℕ) → List Entry → List ImportError
unfolding existing_id
existing_errors upsert existing entries = []
existing_errors create existing [] = []
existing_errors create existing (e ∷ es) =
    let rest = existing_errors create existing es in
    if is_some (existing_id e.slot.code existing)
    then error_at e.row (some (ErrorField.named_field Field.code_field)) ImportProblem.code_exists
      ∷ rest
    else rest

-- What the transaction has done so far.
pub record Written : Type 0 where
  pub slot_ids : List ℕ
  pub created : ℕ
  pub updated : ℕ

-- The update of an existing slot by a row of the file; a level that is not given is kept.
abbrev pub imported_slot : SlotDto → Slot → Slot
imported_slot dto s = record s {
  code = dto.code;
  type = dto.type;
  level = elim dto.level [ some l ↦ some l | none ↦ s.level ];
  is_covered = or_else dto.is_covered s.is_covered;
  is_active = or_else dto.is_active s.is_active;
}

unfoldable pub update_imported : ℕ → SlotDto → List Slot → List Slot
update_imported id dto [] = []
update_imported id dto (s ∷ ss) =
    (if s.id == id then imported_slot dto s else s) ∷ update_imported id dto ss

-- The existing slot that the row updates, if the mode is UPSERT.
unfoldable pub upserted_id : ImportMode → List (Text × ℕ) → Text → Option ℕ
unfolding existing_id
upserted_id create existing c = none
upserted_id upsert existing c = existing_id c existing

-- One row in the transaction.
unfoldable pub write_entry : ImportMode → ℕ → ℕ → List (Text × ℕ) → Entry → Written → Action Written
unfolding update_imported
write_entry mode org building existing e done w = elim (upserted_id mode existing e.slot.code) [
  | some id ↦ ok (
    record {
      slot_ids = done.slot_ids ++ (id ∷ []);
      created = done.created;
      updated = suc done.updated;
    },
    record w { slots = update_imported id e.slot w.slots },
  )
  | none ↦
      (do
        s ← insert_slot unique_violation org building e.slot
        pure (record {
          slot_ids = done.slot_ids ++ (s.id ∷ []);
          created = suc done.created;
          updated = done.updated;
        }))
        w
]

unfoldable pub write_entries :
    ImportMode → ℕ → ℕ → List (Text × ℕ) → List Entry → Written → Action Written
write_entries mode org building existing [] done = pure done
write_entries mode org building existing (e ∷ es) done = do
  next ← write_entry mode org building existing e done
  write_entries mode org building existing es next

abbrev pub nothing_done : Written
nothing_done = record { slot_ids = []; created = 0; updated = 0 }
