-- ===== src/Parking/Slots.antt =====
-- `createSlot`, `updateSlot` and `listSlots`.
use towerdesk_backend_clean.Prelude.{
  ℕ, suc, Bool, true, false, not, ◌&&◌, ◌||◌, Option, List, [], ◌∷◌, ◌++◌, ◌==◌, if◌then◌else◌,
  find, filter, any, is_true, or_else, Text, same_text, leb,
}
use towerdesk_backend_clean.Result.{
  Error, ok, err, conflict, not_found, or_throw, slot_code_exists, slot_not_found,
}
use towerdesk_backend_clean.Action.{◌>>=◌, gets, lift}
use towerdesk_backend_clean.Request.Callers.{AuthUser}
use towerdesk_backend_clean.Parking.Types.{SlotType, Slot}
use towerdesk_backend_clean.Parking.World.{Action, is_free, org_scope, org_in_building}

-- `CreateParkingSlotDto`
pub record SlotDto : Type 0 where
  pub code : Text
  pub type : SlotType
  pub level : Option Text
  pub is_covered : Option Bool
  pub is_active : Option Bool

-- `UpdateParkingSlotDto`; the level may be set to null.
pub record SlotUpdate : Type 0 where
  pub code : Option Text
  pub type : Option SlotType
  pub level : Option (Option Text)
  pub is_covered : Option Bool
  pub is_active : Option Bool

-- `@@unique([buildingId, code])`
abbrev pub has_code : ℕ → Text → List Slot → Bool
has_code building code slots = any (λ s. (s.building_id == building) && same_text s.code code) slots

-- `create` of the repository, with the defaults of the columns.
abbrev pub new_slot : ℕ → ℕ → ℕ → ℕ → SlotDto → Slot
new_slot id org building now dto = record {
  id = id;
  org_id = org;
  building_id = building;
  code = dto.code;
  level = dto.level;
  type = dto.type;
  is_covered = or_else dto.is_covered false;
  is_active = or_else dto.is_active true;
  created_at = now;
}

-- The insertion, and the error where it violates the unique index.
unfoldable pub insert_slot : Error → ℕ → ℕ → SlotDto → Action Slot
insert_slot violation org building dto w =
    if has_code building dto.code w.slots
    then err violation
    else let s = new_slot w.next_id org building w.now dto in
      ok (s, record w { next_id = suc w.next_id; slots = w.slots ++ (s ∷ []) })

-- `createSlot`; the violation is `P2002`.
unfoldable pub create_slot : Option AuthUser → ℕ → SlotDto → Action Slot
create_slot user building dto = do
  org ← org_in_building user building
  insert_slot (conflict slot_code_exists) org building dto

abbrev pub updated_slot : SlotUpdate → Slot → Slot
updated_slot dto s = record s {
  code = or_else dto.code s.code;
  type = or_else dto.type s.type;
  level = or_else dto.level s.level;
  is_covered = or_else dto.is_covered s.is_covered;
  is_active = or_else dto.is_active s.is_active;
}

unfoldable pub replace_slot : ℕ → Slot → List Slot → List Slot
replace_slot id s [] = []
replace_slot id s (x ∷ xs) = (if x.id == id then s else x) ∷ replace_slot id s xs

-- `update` of the repository: another slot of the building has the code.
unfoldable pub write_slot : Slot → Action Slot
unfolding replace_slot
write_slot s w =
    if has_code s.building_id s.code (filter (λ x. not (x.id == s.id)) w.slots)
    then err (conflict slot_code_exists)
    else ok (s, record w { slots = replace_slot s.id s w.slots })

-- `updateSlot`
unfoldable pub update_slot : Option AuthUser → ℕ → SlotUpdate → Action Slot
update_slot user id dto = do
  org ← org_scope user
  found ← gets (λ w. find (λ s. (s.id == id) && (s.org_id == org)) w.slots)
  s ← lift (or_throw found (not_found slot_not_found))
  write_slot (updated_slot dto s)

-- The row comes later in the list: it was created later.
unfoldable pub insert_by_age : Slot → List Slot → List Slot
insert_by_age s [] = s ∷ []
insert_by_age s (x ∷ xs) =
    let rest = insert_by_age s xs in
    if leb x.created_at s.created_at then s ∷ (x ∷ xs) else x ∷ rest

unfoldable pub newest_first : List Slot → List Slot
unfolding insert_by_age
newest_first [] = []
newest_first (s ∷ ss) = insert_by_age s (newest_first ss)

-- `listSlots`; a slot is available when no active allocation has it.
unfoldable pub list_slots : Option AuthUser → ℕ → Option Bool → Action (List Slot)
unfolding newest_first
list_slots user building available = do
  org ← org_in_building user building
  gets (λ w. newest_first (
      filter
        (λ s.
          (s.org_id == org)
          && (s.building_id == building)
          && (not (is_true available) || is_free w.allocations s.id))
        w.slots))
