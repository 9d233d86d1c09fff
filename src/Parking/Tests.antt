-- ===== src/Parking/Tests.antt =====
-- A small garage, and the theorems on it.
use towerdesk_backend_clean.Prelude.{
  ℕ, ◌≡◌, refl, true, false, Option, none, some, List, [], ◌∷◌, Text, length, leb, codes, trim,
  trim_end, to_lower_case, to_upper_case,
}
use towerdesk_backend_clean.Action.{After}
use towerdesk_backend_clean.Result.{is_ok}
use towerdesk_backend_clean.Request.Callers.{AuthUser}
use towerdesk_backend_clean.Parking.Types.{Slot, SlotType}
use towerdesk_backend_clean.Parking.World.{ParkingWorld, org_in_building}
use towerdesk_backend_clean.Parking.Slots.{insert_slot}
use towerdesk_backend_clean.Parking.Allocating.{
  AllocateDto, allocate, target_lease, lease_again, chosen_slots, create_allocations, tell_lease,
}
use towerdesk_backend_clean.Parking.Operations.{call, calls, to_allocate, to_end_for_unit}
use towerdesk_backend_clean.Parking.Import.Writing.{
  ImportMode, existing_of, existing_errors, write_entries, write_entry, upserted_id,
  update_imported,
}
use towerdesk_backend_clean.Parking.Import.Headers.{read_headers}
use towerdesk_backend_clean.Parking.Import.Reading.{read_rows, read_cell, parse_bool, parse_type}
use towerdesk_backend_clean.Csv.{parse_csv, split_from}
use towerdesk_backend_clean.Parking.Import.{
  import_slots_csv, import_headed, import_rows, import_entries,
}
use towerdesk_backend_clean.Parking.Import.Report.{valid_entries, Reports, import_slots_csv-Reports}
use towerdesk_backend_clean.Parking.Sound.{IsSound}
use towerdesk_backend_clean.Parking.Answers.{any_for_unit, free_slots, allocate-is_ok}
use towerdesk_backend_clean.Parking.Refinement.{Implements, call-Implements, calls-IsSound}

abbrev slot : ℕ → Text → Slot
slot id c = record {
  id = id;
  org_id = 1;
  building_id = 5;
  code = c;
  level = none;
  type = SlotType.car;
  is_covered = false;
  is_active = true;
  created_at = 0;
}

abbrev user : Option AuthUser
user = some (record { sub = some 9; org_id = some 1 })

-- Slots 10 and 11 of building 5, with unit 7; slot 11 is given to unit 8.
abbrev garage : ParkingWorld
garage = record {
  now = 100;
  next_id = 50;
  precedes = λ s t. false;
  buildings = record { id = 5; org_id = 1 } ∷ [];
  units = record { id = 7; building_id = 5 } ∷ (record { id = 8; building_id = 5 } ∷ []);
  occupancies = [];
  leases = [];
  slots = slot 10 (codes "A1") ∷ (slot 11 (codes "A2") ∷ []);
  allocations =
      record {
        id = 40;
        org_id = 1;
        building_id = 5;
        slot_id = 11;
        occupancy_id = none;
        unit_id = some 8;
        start_date = 3;
        end_date = none;
        created_at = 3;
      }
      ∷ [];
  vehicles = [];
  activities = [];
}

garage-IsSound : IsSound garage
garage-IsSound = ((refl, tt), (refl, tt), (refl, (refl, tt)), (refl, (refl, tt)))

abbrev to_unit : ℕ → List ℕ → AllocateDto
to_unit u slots = record {
  occupancy_id = none;
  unit_id = some u;
  slot_ids = some slots;
  count = none;
}

-- A slot that is free is given, one that is taken or named twice is not.
allocate_free : is_ok (allocate user 5 (to_unit 7 (10 ∷ [])) garage) ≡ true
unfolding allocate org_in_building target_lease lease_again chosen_slots create_allocations
    tell_lease
allocate_free = refl

allocate_taken : is_ok (allocate user 5 (to_unit 7 (11 ∷ [])) garage) ≡ false
unfolding allocate org_in_building target_lease lease_again chosen_slots create_allocations
    tell_lease
allocate_taken = refl

allocate_twice : is_ok (allocate user 5 (to_unit 7 (10 ∷ (10 ∷ []))) garage) ≡ false
unfolding allocate org_in_building target_lease lease_again chosen_slots create_allocations
    tell_lease
allocate_twice = refl

abbrev file : Text
file = codes "Code,TYPE,Is Covered\nA1,bike,yes\nB1,car,\n"

-- The file updates one slot and creates the other one.
import_upsert :
    is_ok (import_slots_csv user 5 (some file) none (some ImportMode.upsert) garage) ≡ true
unfolding import_slots_csv org_in_building parse_csv import_headed read_headers import_rows
    read_rows import_entries existing_of existing_errors write_entries write_entry upserted_id
    update_imported insert_slot read_cell parse_bool parse_type trim to_lower_case to_upper_case
    trim_end split_from mathlib.Core.List.flat_map
import_upsert = refl

calls-IsSound_example : IsSound (
    calls
      (record { user = user; now = 101; request = to_end_for_unit 8 none }
        ∷ (record { user = user; now = 102; request = to_allocate 5 (to_unit 7 (10 ∷ (11 ∷ []))) }
            ∷ []))
      garage)
calls-IsSound_example = calls-IsSound _ garage garage-IsSound

call-Implements_example :
    After
      (λ _ v. Implements user (to_allocate 5 (to_unit 7 (10 ∷ []))) garage v)
      (call user (to_allocate 5 (to_unit 7 (10 ∷ []))) garage)
call-Implements_example =
    call-Implements user (to_allocate 5 (to_unit 7 (10 ∷ []))) garage garage-IsSound

import_slots_csv-Reports_example :
    After
      (λ r v. Reports false 5 (valid_entries (some file)) garage r v)
      (import_slots_csv user 5 (some file) none (some ImportMode.upsert) garage)
import_slots_csv-Reports_example =
    import_slots_csv-Reports user 5 (some file) none (some ImportMode.upsert) garage garage-IsSound

allocate-is_ok_example :
    is_ok (allocate user 5 (any_for_unit 7 1) garage) ≡ leb 1 (length (free_slots 1 5 garage))
allocate-is_ok_example = allocate-is_ok user 1 5 7 1 garage refl refl refl
