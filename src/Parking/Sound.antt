-- ===== src/Parking/Sound.antt =====
-- What is always so of the tables of parking.
pub mod Allocations
pub mod Chosen
pub mod Readers
pub mod Given
pub mod Released
pub mod Kept
pub mod Vehicles
pub mod Imported
use towerdesk_backend_clean.Prelude.{
  ℕ, ◌≡◌, Bool, true, false, not, ◌&&◌, List, [], ◌∷◌, map, ltb, any, has, is_some, All,
  AreDistinct,
}
use towerdesk_backend_clean.Parking.Types.{Slot, Allocation}
use towerdesk_backend_clean.Parking.World.{ParkingWorld, is_active, holds}

-- An active allocation is the only one of its slot.
abbrev pub AreExclusive : List Allocation → Type 0
AreExclusive [] = Unit
AreExclusive (a ∷ rest) = ((is_active a && any (holds a.slot_id) rest) ≡ false) × AreExclusive rest

-- The allocation is for an occupancy or for a unit, and not for both.
abbrev pub HasTarget : Allocation → Type 0
HasTarget a = is_some a.occupancy_id ≡ not (is_some a.unit_id)

abbrev pub slot_ids : List Slot → List ℕ
slot_ids slots = map (λ (s : Slot). s.id) slots

-- No slot has two active allocations, every allocation has a target, and the ids of the slots are
-- distinct and have been handed out.
abbrev pub IsSound : ParkingWorld → Type 0
IsSound w =
    AreExclusive w.allocations
    × All HasTarget w.allocations
    × AreDistinct (slot_ids w.slots)
    × All (λ k. ltb k w.next_id ≡ true) (slot_ids w.slots)
