-- ===== src/Request/Tests/Progress.antt =====
-- Creating a request, and working one to its end, on the example.
use towerdesk_backend_clean.Prelude.{◌≡◌, refl, true, false, some, All}
use towerdesk_backend_clean.Access.{BuildingAccess}
use towerdesk_backend_clean.Request.Types.{Status, Request}
use towerdesk_backend_clean.Result.{ok}
use towerdesk_backend_clean.Request.Outcome.{Outcome}
use towerdesk_backend_clean.Request.Policy.{policy_route}
use towerdesk_backend_clean.Request.Steps.Guards.{assert_execution_unlocked}
use towerdesk_backend_clean.Request.Steps.Residents.{new_request}
use towerdesk_backend_clean.Request.Steps.Execution.{
  assign_step, find_staff, can_handle, is_staff_assignment, has_handling_permissions,
}
use towerdesk_backend_clean.Request.Steps.Lifecycle.{update_status_step}
use towerdesk_backend_clean.Request.World.{find_active_occupancy, latest, is_later}
use towerdesk_backend_clean.Request.Rules.Residents.{counts, find_active_occupancy-latest}
use towerdesk_backend_clean.Request.Rules.Progress.{lifecycle_completes}
use towerdesk_backend_clean.Request.Examples.{first_occupancy, tower, new_door}

-- An emergency as it is created.
abbrev leak : Request
leak = record (new_request 1 10 2 1000 first_occupancy new_door) {
  triage = record (new_request 1 10 2 1000 first_occupancy new_door).triage { is_emergency = true };
}

abbrev manager_access : BuildingAccess
manager_access = record { has_any_building_access = true; is_building_staff_only = false }

staff-found : find_staff tower 10 6 ≡ some (record { id = 6; is_active = true; org_id = some 10 })
unfolding find_staff
staff-found = refl

staff-can_handle : can_handle tower 1 6 10 ≡ true
unfolding can_handle is_staff_assignment has_handling_permissions
staff-can_handle = refl

leak-opened : leak.status ≡ Status.opened
unfolding new_request
leak-opened = refl

leak-unlocked : assert_execution_unlocked leak ≡ ok tt
unfolding assert_execution_unlocked policy_route new_request
leak-unlocked = refl

lifecycle_completes_example :
    (o : Outcome) × (p : Outcome) × (q : Outcome) × (assign_step tower 10 1 6 2000 leak ≡ ok o)
    × (update_status_step manager_access 5 Status.in_progress 3000 o.request ≡ ok p)
    × (update_status_step manager_access 5 Status.completed 4000 p.request ≡ ok q)
    × (q.request.status ≡ Status.completed)
    × (q.request.completed_at ≡ some 4000)
lifecycle_completes_example =
    lifecycle_completes tower manager_access 10 1 6 5 2000 3000 4000 leak leak-opened leak-unlocked
      staff-found staff-can_handle refl

occupancy-found : find_active_occupancy tower 2 10 ≡ some first_occupancy
unfolding find_active_occupancy latest
occupancy-found = refl

find_active_occupancy-latest_example :
    (counts tower 2 10 first_occupancy ≡ true)
    × All (λ x. counts tower 2 10 x ≡ true → is_later x first_occupancy ≡ false) tower.occupancies
find_active_occupancy-latest_example = find_active_occupancy-latest tower 2 10 occupancy-found
