-- ===== src/Parking/Refinement.antt =====
-- The handlers of parking against the abstract view of the board, and their runs.
use towerdesk_backend_clean.Prelude.{ap, Option, List, [], ◌∷◌}
use towerdesk_backend_clean.Result.{Result, ok, err}
use towerdesk_backend_clean.Action.{After, After-bind, After-map}
use towerdesk_backend_clean.Request.Callers.{AuthUser}
use towerdesk_backend_clean.Parking.World.{ParkingWorld, Action}
use towerdesk_backend_clean.Parking.Slots.{create_slot, update_slot}
use towerdesk_backend_clean.Parking.Allocating.{allocate}
use towerdesk_backend_clean.Parking.Ending.{end_allocation, end_all_for_occupancy, end_all_for_unit}
use towerdesk_backend_clean.Parking.Vehicles.{create_vehicle, update_vehicle}
use towerdesk_backend_clean.Parking.Import.{import_slots_csv}
use towerdesk_backend_clean.Parking.Operations.{
  Call, call, calls, Sent, done, tables_after, at, to_create_slot, to_update_slot, to_import_slots,
  to_allocate, to_end_allocation, to_end_for_occupancy, to_end_for_unit, to_create_vehicle,
  to_update_vehicle, to_delete_vehicle,
}
use towerdesk_backend_clean.Parking.Board.{board, Does, Unchanged}
use towerdesk_backend_clean.Parking.Sound.{IsSound}
use towerdesk_backend_clean.Parking.Sound.Kept.{
  IsKept, Keeps, create_slot-IsKept, update_slot-IsKept,
}
use towerdesk_backend_clean.Parking.Sound.Given.{allocate-Given}
use towerdesk_backend_clean.Parking.Sound.Released.{
  end_allocation-Released, end_all_for_occupancy-Released, end_all_for_unit-Released,
}
use towerdesk_backend_clean.Parking.Sound.Vehicles.{
  create_vehicle-Keeps, update_vehicle-Keeps, delete_vehicle-Keeps,
}
use towerdesk_backend_clean.Parking.Sound.Imported.{import_slots_csv-Keeps}

-- The tables after a call are sound and show on the board what the call does.
abbrev pub Implements : Option AuthUser → Call → ParkingWorld → ParkingWorld → Type 0
Implements user c w v = IsSound v × Does user c w.now (board w.allocations) (board v.allocations)

done-After :
    {A : Type 0} (Q : ParkingWorld → Type 0) (m : Action A) (w : ParkingWorld)
    → After (λ _ v. Q v) (m w)
    → After (λ _ v. Q v) (done m w)
done-After Q m w h = After-bind (λ _ v. Q v) m _ w (λ _ v. Q v) h (λ _ v q. q)

Keeps-Unchanged :
    {A : Type 0} (m : Action A)
    → Keeps m
    → (w : ParkingWorld) → IsSound w
    → After (λ _ v. IsSound v × Unchanged (board w.allocations) (board v.allocations)) (m w)
Keeps-Unchanged m keeps w sound =
    After-map (λ _ v. IsKept w v)
      (λ _ v. IsSound v × Unchanged (board w.allocations) (board v.allocations)) (m w)
      (λ _ v kept. (kept.0, λ slot. ap (λ l. board l slot) kept.1)) (keeps w sound)

-- A call of the service on sound tables, if it returns, does to the board what the abstract view says:
-- `allocate` gives distinct slots that nobody had to the target that was asked for, the slots asked for
-- or as many as asked for, the calls that end allocations give back those that they name and no other,
-- and each other call changes nothing; the tables are sound after.
pub call-Implements :
    (user : Option AuthUser) (c : Call) (w : ParkingWorld)
    → IsSound w
    → After (λ _ v. Implements user c w v) (call user c w)
unfolding call
call-Implements user (to_create_slot b dto) w s =
    done-After _ (create_slot user b dto) w (Keeps-Unchanged _ (create_slot-IsKept user b dto) w s)
call-Implements user (to_update_slot id dto) w s =
    done-After _ (update_slot user id dto) w
      (Keeps-Unchanged _ (update_slot-IsKept user id dto) w s)
call-Implements user (to_import_slots b file dry mode) w s =
    done-After _ (import_slots_csv user b file dry mode) w
      (Keeps-Unchanged _ (import_slots_csv-Keeps user b file dry mode) w s)
call-Implements user (to_allocate b dto) w s =
    done-After _ (allocate user b dto) w (allocate-Given user b dto w s)
call-Implements user (to_end_allocation a end) w s =
    done-After _ (end_allocation user a end) w (end_allocation-Released user a end w s)
call-Implements user (to_end_for_occupancy o end) w s =
    done-After _ (end_all_for_occupancy user o end) w
      (end_all_for_occupancy-Released user o end w s)
call-Implements user (to_end_for_unit u end) w s =
    done-After _ (end_all_for_unit user u end) w (end_all_for_unit-Released user u end w s)
call-Implements user (to_create_vehicle o plate label) w s =
    done-After _ (create_vehicle user o plate label) w
      (Keeps-Unchanged _ (create_vehicle-Keeps user o plate label) w s)
call-Implements user (to_update_vehicle v plate label) w s =
    done-After _ (update_vehicle user v plate label) w
      (Keeps-Unchanged _ (update_vehicle-Keeps user v plate label) w s)
call-Implements user (to_delete_vehicle v) w s = Keeps-Unchanged _ (delete_vehicle-Keeps user v) w s

-- Any calls, with any users and times, leave sound tables sound: no slot has two active allocations,
-- every allocation is for an occupancy or for a unit and not for both, and the ids of the slots are
-- distinct.
pub calls-IsSound : (cs : List Sent) (w : ParkingWorld) → IsSound w → IsSound (calls cs w)
unfolding calls
calls-IsSound [] w s = s
calls-IsSound (c ∷ cs) w s =
    calls-IsSound cs _
      (after (call c.user c.request (at c.now w)) (call-Implements c.user c.request (at c.now w) s))
  where
    after :
        (r : Result (Unit {0} × ParkingWorld))
        → After (λ _ v. Implements c.user c.request (at c.now w) v) r
        → IsSound (tables_after (at c.now w) r)
    after (ok (_, v)) p = p.0
    after (err e) p = s
