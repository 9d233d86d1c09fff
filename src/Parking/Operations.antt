-- ===== src/Parking/Operations.antt =====
-- The calls of the parking service that write, as one type.
use towerdesk_backend_clean.Prelude.{ℕ, Bool, Option, List, [], ◌∷◌, Text}
use towerdesk_backend_clean.Result.{Result, ok, err}
use towerdesk_backend_clean.Action.{pure, ◌>>◌}
use towerdesk_backend_clean.Request.Callers.{AuthUser}
use towerdesk_backend_clean.Parking.World.{ParkingWorld, Action}
use towerdesk_backend_clean.Parking.Slots.{SlotDto, SlotUpdate, create_slot, update_slot}
use towerdesk_backend_clean.Parking.Allocating.{AllocateDto, allocate}
use towerdesk_backend_clean.Parking.Ending.{end_allocation, end_all_for_occupancy, end_all_for_unit}
use towerdesk_backend_clean.Parking.Vehicles.{create_vehicle, update_vehicle, delete_vehicle}
use towerdesk_backend_clean.Parking.Import.Writing.{ImportMode}
use towerdesk_backend_clean.Parking.Import.{import_slots_csv}

pub data Call : Type 0 where
  to_create_slot : (building : ℕ) → SlotDto → Call
  to_update_slot : (slot : ℕ) → SlotUpdate → Call
  to_import_slots : (building : ℕ) → Option Text → Option Bool → Option ImportMode → Call
  to_allocate : (building : ℕ) → AllocateDto → Call
  to_end_allocation : (allocation : ℕ) → Option ℕ → Call
  to_end_for_occupancy : (occupancy : ℕ) → Option ℕ → Call
  to_end_for_unit : (unit : ℕ) → Option ℕ → Call
  to_create_vehicle : (occupancy : ℕ) → Text → Option Text → Call
  to_update_vehicle : (vehicle : ℕ) → Option Text → Option (Option Text) → Call
  to_delete_vehicle : (vehicle : ℕ) → Call

abbrev pub done : {A : Type 0} → Action A → Action (Unit {0})
done m = m >> pure tt

-- The call of a user.
unfoldable pub call : Option AuthUser → Call → Action (Unit {0})
call user (to_create_slot b dto) = done (create_slot user b dto)
call user (to_update_slot s dto) = done (update_slot user s dto)
call user (to_import_slots b file dry mode) = done (import_slots_csv user b file dry mode)
call user (to_allocate b dto) = done (allocate user b dto)
call user (to_end_allocation a end) = done (end_allocation user a end)
call user (to_end_for_occupancy o end) = done (end_all_for_occupancy user o end)
call user (to_end_for_unit u end) = done (end_all_for_unit user u end)
call user (to_create_vehicle o plate label) = done (create_vehicle user o plate label)
call user (to_update_vehicle v plate label) = done (update_vehicle user v plate label)
call user (to_delete_vehicle v) = delete_vehicle user v

-- A call with its user and its time.
pub record Sent : Type 0 where
  pub user : Option AuthUser
  pub now : ℕ
  pub request : Call

-- The tables after a call; one that fails leaves them.
abbrev pub tables_after : ParkingWorld → Result (Unit {0} × ParkingWorld) → ParkingWorld
tables_after w (ok (_, v)) = v
tables_after w (err e) = w

abbrev pub at : ℕ → ParkingWorld → ParkingWorld
at now w = record w { now = now }

-- The calls one after another.
unfoldable pub calls : List Sent → ParkingWorld → ParkingWorld
unfolding call
calls [] w = w
calls (s ∷ rest) w = calls rest (tables_after (at s.now w) (call s.user s.request (at s.now w)))
