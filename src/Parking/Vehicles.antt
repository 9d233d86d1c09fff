-- ===== src/Parking/Vehicles.antt =====
-- `createVehicle`, `updateVehicle` and `deleteVehicle`.
use towerdesk_backend_clean.Prelude.{
  ℕ, suc, Bool, not, ◌&&◌, Option, List, [], ◌∷◌, ◌++◌, ◌==◌, if◌then◌else◌, find, filter, any,
  or_else, Text, same_text,
}
use towerdesk_backend_clean.Result.{
  ok, err, conflict, not_found, or_throw, plate_number_exists, vehicle_not_found,
}
use towerdesk_backend_clean.Action.{pure, ◌>>=◌, ◌>>◌, gets, lift}
use towerdesk_backend_clean.Request.Callers.{AuthUser}
use towerdesk_backend_clean.Parking.Types.{Vehicle, ActivityAction}
use towerdesk_backend_clean.Parking.World.{Action, org_scope, active_lease, create_activity}

-- `@@unique([orgId, plateNumber])`
abbrev pub has_plate : ℕ → Text → List Vehicle → Bool
has_plate org plate vehicles =
    any (λ v. (v.org_id == org) && same_text v.plate_number plate) vehicles

unfoldable pub insert_vehicle : ℕ → ℕ → Text → Option Text → Action Vehicle
insert_vehicle org occupancy plate label w =
    if has_plate org plate w.vehicles
    then err (conflict plate_number_exists)
    else let v : Vehicle = record {
      id = w.next_id;
      org_id = org;
      occupancy_id = occupancy;
      plate_number = plate;
      label = label;
      created_at = w.now;
    } in
      ok (v, record w { next_id = suc w.next_id; vehicles = w.vehicles ++ (v ∷ []) })

-- `createVehicle`
unfoldable pub create_vehicle : Option AuthUser → ℕ → Text → Option Text → Action Vehicle
create_vehicle user occupancy plate label = do
  org ← org_scope user
  context ← active_lease org occupancy
  created ← insert_vehicle org occupancy plate label
  create_activity org context.1 ActivityAction.vehicle_added user 1
  pure created

unfoldable pub replace_vehicle : ℕ → Vehicle → List Vehicle → List Vehicle
replace_vehicle id v [] = []
replace_vehicle id v (x ∷ xs) = (if x.id == id then v else x) ∷ replace_vehicle id v xs

unfoldable pub write_vehicle : Vehicle → Action Vehicle
unfolding replace_vehicle
write_vehicle v w =
    if has_plate v.org_id v.plate_number (filter (λ x. not (x.id == v.id)) w.vehicles)
    then err (conflict plate_number_exists)
    else ok (v, record w { vehicles = replace_vehicle v.id v w.vehicles })

-- `findVehicleByIdForOrg`, with the error.
unfoldable pub vehicle_of_org : ℕ → ℕ → Action Vehicle
vehicle_of_org org id = do
  found ← gets (λ w. find (λ v. (v.id == id) && (v.org_id == org)) w.vehicles)
  lift (or_throw found (not_found vehicle_not_found))

-- `updateVehicle`; the label may be set to null.
unfoldable pub update_vehicle :
    Option AuthUser → ℕ → Option Text → Option (Option Text) → Action Vehicle
update_vehicle user id plate label = do
  org ← org_scope user
  vehicle ← vehicle_of_org org id
  context ← active_lease org vehicle.occupancy_id
  updated ← write_vehicle (record vehicle {
    plate_number = or_else plate vehicle.plate_number;
    label = or_else label vehicle.label;
  })
  create_activity org context.1 ActivityAction.vehicle_updated user 1
  pure updated

unfoldable pub remove_vehicle : ℕ → Action (Unit {0})
remove_vehicle id w = ok (tt, record w { vehicles = filter (λ v. not (v.id == id)) w.vehicles })

-- `deleteVehicle`
unfoldable pub delete_vehicle : Option AuthUser → ℕ → Action (Unit {0})
delete_vehicle user id = do
  org ← org_scope user
  vehicle ← vehicle_of_org org id
  context ← active_lease org vehicle.occupancy_id
  remove_vehicle id
  create_activity org context.1 ActivityAction.vehicle_deleted user 1
