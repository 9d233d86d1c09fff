-- ===== src/Parking/Sound/Vehicles.antt =====
-- What the handlers of vehicles leave.
use towerdesk_backend_clean.Prelude.{
  ℕ, suc, ◌≡◌, refl, true, not, ◌&&◌, Option, List, filter, find, All, All-map, ltb, ◌==◌, arith,
  Option-cases, Bool-cases, inl, inr, Text,
}
use towerdesk_backend_clean.Action.{Reads, After}
use towerdesk_backend_clean.Request.Callers.{AuthUser}
use towerdesk_backend_clean.Parking.Types.{Vehicle, LeaseRow, ActivityAction}
use towerdesk_backend_clean.Parking.World.{org_scope, active_lease, create_activity}
use towerdesk_backend_clean.Parking.Sound.Readers.{Any, org_scope-Reads, active_lease-Reads}
use towerdesk_backend_clean.Parking.Sound.{slot_ids}
use towerdesk_backend_clean.Parking.Vehicles.{
  has_plate, insert_vehicle, create_vehicle, vehicle_of_org, write_vehicle, update_vehicle,
  remove_vehicle, delete_vehicle,
}
use towerdesk_backend_clean.Parking.Sound.Kept.{Keeps, Keeps-bind, Keeps-reader}

used_suc : (n : ℕ) (ks : List ℕ) → All (λ k. ltb k n ≡ true) ks → All (λ k. ltb k (suc n) ≡ true) ks
used_suc n ks h =
    All-map (λ k. ltb k n ≡ true) (λ k. ltb k (suc n) ≡ true) ks (λ k e. ground arith) h

create_activity-Keeps :
    (org : ℕ) (lease : LeaseRow) (action : ActivityAction) (user : Option AuthUser) (count : ℕ)
    → Keeps (create_activity org lease action user count)
unfolding create_activity
create_activity-Keeps org lease action user count w sound = (sound, refl)

insert_vehicle-Keeps :
    (org occupancy : ℕ) (plate : Text) (label : Option Text)
    → Keeps (insert_vehicle org occupancy plate label)
unfolding insert_vehicle
insert_vehicle-Keeps org occupancy plate label w (exclusive, targets, distinct, used) =
    elim (Bool-cases (has_plate org plate w.vehicles)) [
      | inl f ↦ rw (After, f) tt
      | inr f ↦
          rw (After, f)
            ((exclusive, targets, distinct, used_suc w.next_id (slot_ids w.slots) used), refl)
    ]

write_vehicle-Keeps : (v : Vehicle) → Keeps (write_vehicle v)
unfolding write_vehicle
write_vehicle-Keeps v w sound =
    elim (Bool-cases
      (has_plate v.org_id v.plate_number (filter (λ x. not (x.id == v.id)) w.vehicles))) [
        | inl f ↦ rw (After, f) tt
        | inr f ↦ rw (After, f) (sound, refl)
      ]

vehicle_of_org-Reads : (org id : ℕ) → Reads Any (vehicle_of_org org id)
unfolding vehicle_of_org
vehicle_of_org-Reads org id w =
    elim (Option-cases (find (λ (v : Vehicle). (v.id == id) && (v.org_id == org)) w.vehicles)) [
      | inl e ↦ rw (After, e) tt
      | inr (v, e) ↦ rw (After, e) (refl, tt)
    ]

pub create_vehicle-Keeps :
    (user : Option AuthUser) (occupancy : ℕ) (plate : Text) (label : Option Text)
    → Keeps (create_vehicle user occupancy plate label)
unfolding create_vehicle
create_vehicle-Keeps user occupancy plate label =
    Keeps-reader _ (org_scope user) _ (org_scope-Reads user) (λ org.
      Keeps-reader _ (active_lease org occupancy) _ (active_lease-Reads org occupancy) (λ context.
        Keeps-bind (insert_vehicle org occupancy plate label) _
          (insert_vehicle-Keeps org occupancy plate label)
          (λ created.
            Keeps-bind (create_activity org context.1 ActivityAction.vehicle_added user 1) _
              (create_activity-Keeps org context.1 ActivityAction.vehicle_added user 1)
              (λ _ w sound. (sound, refl)))))

pub update_vehicle-Keeps :
    (user : Option AuthUser) (id : ℕ) (plate : Option Text) (label : Option (Option Text))
    → Keeps (update_vehicle user id plate label)
unfolding update_vehicle
update_vehicle-Keeps user id plate label =
    Keeps-reader _ (org_scope user) _ (org_scope-Reads user) (λ org.
      Keeps-reader _ (vehicle_of_org org id) _ (vehicle_of_org-Reads org id) (λ vehicle.
        Keeps-reader _ (active_lease org vehicle.occupancy_id) _
          (active_lease-Reads org vehicle.occupancy_id)
          (λ context. Keeps-bind (write_vehicle _) _ (write_vehicle-Keeps _) (λ updated.
            Keeps-bind (create_activity org context.1 ActivityAction.vehicle_updated user 1) _
              (create_activity-Keeps org context.1 ActivityAction.vehicle_updated user 1)
              (λ _ w sound. (sound, refl))))))

pub delete_vehicle-Keeps : (user : Option AuthUser) (id : ℕ) → Keeps (delete_vehicle user id)
unfolding delete_vehicle remove_vehicle
delete_vehicle-Keeps user id = Keeps-reader _ (org_scope user) _ (org_scope-Reads user) (λ org.
    Keeps-reader _ (vehicle_of_org org id) _ (vehicle_of_org-Reads org id) (λ vehicle.
      Keeps-reader _ (active_lease org vehicle.occupancy_id) _
        (active_lease-Reads org vehicle.occupancy_id)
        (λ context.
          Keeps-bind (remove_vehicle id) _ (λ w sound. (sound, refl))
            (λ _. create_activity-Keeps org context.1 ActivityAction.vehicle_deleted user 1))))
