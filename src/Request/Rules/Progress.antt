-- ===== src/Request/Rules/Progress.antt =====
-- A request that is unlocked can be worked to its end.
use towerdesk_backend_clean.Prelude.{
  any_witness, ℕ, ◌≡◌, ◌&&◌, refl, true, false, Option, some, arith,
}
use towerdesk_backend_clean.Directory.{Directory, User}
use towerdesk_backend_clean.Access.{BuildingAccess}
use towerdesk_backend_clean.Request.Types.{Assignment, Status, Request}
use towerdesk_backend_clean.Result.{ok}
use towerdesk_backend_clean.Request.Outcome.{EventKind, Outcome}
use towerdesk_backend_clean.Request.Policy.Routes.{policy_route-status}
use towerdesk_backend_clean.Request.Steps.Guards.{
  is_open_or_assigned, policy_input, assert_open_or_assigned, assert_execution_unlocked,
}
use towerdesk_backend_clean.Request.Steps.Execution.{
  announced, staffed, is_staff_assignment, has_handling_permissions, find_staff, can_handle,
  has_scoped_assignment, assign_step,
}
use towerdesk_backend_clean.Request.Steps.Lifecycle.{with_status, update_status_step, is_transition}

-- The lock reads neither the assignment nor the status.
unlocked-moved :
    (r : Request) (a : Assignment) (to : Status) (at : Option ℕ)
    → assert_execution_unlocked r ≡ ok tt
    → assert_execution_unlocked (record r { assignment = a; status = to; completed_at = at })
      ≡ ok tt
unfolding assert_execution_unlocked
unlocked-moved r a to at h = ground (arith, policy_route-status (policy_input r) (some to))

-- Staff whose role can handle requests in the building is assigned to the building, so the last test
-- of `assignRequest` never fails.
can_handle-has_scoped_assignment :
    (dir : Directory) (building user org : ℕ)
    → can_handle dir building user org ≡ true
    → has_scoped_assignment dir building user org ≡ true
unfolding can_handle has_scoped_assignment
can_handle-has_scoped_assignment dir building user org h =
    let (a, e, member) =
      any_witness (λ a. is_staff_assignment building user org a && has_handling_permissions a)
        dir.assignments h in
    member (is_staff_assignment building user org) (ground arith)

assign_step-allowed :
    (dir : Directory) (org building staff t : ℕ) (r : Request) {s : User}
    → is_open_or_assigned r.status ≡ true
    → assert_execution_unlocked r ≡ ok tt
    → find_staff dir org staff ≡ some s
    → can_handle dir building s.id org ≡ true
    → assign_step dir org building staff t r
      ≡ ok (
          announced EventKind.assigned true
            (record r { assignment = staffed s.id t; status = Status.assigned }))
unfolding assign_step assert_open_or_assigned
assign_step-allowed dir org building staff t r {s = s} e f g h =
    let k = can_handle-has_scoped_assignment dir building s.id org h in ground arith

update_status-next :
    (access : BuildingAccess) (user : ℕ) (to : Status) (now : ℕ) (r : Request)
    → is_transition r.status to ≡ true
    → access.is_building_staff_only ≡ false
    → assert_execution_unlocked r ≡ ok tt
    → update_status_step access user to now r
      ≡ ok (announced EventKind.status_changed false (with_status to now r))
unfolding update_status_step
update_status-next access user to now r h k f = ground arith

-- An open request on which execution is unlocked can be assigned to active staff of the organisation
-- who can handle requests in the building, then set in progress and completed by a manager.
pub lifecycle_completes :
    (dir : Directory) (access : BuildingAccess) (org building staff manager t u v : ℕ) (r : Request)
    {s : User}
    → r.status ≡ Status.opened
    → assert_execution_unlocked r ≡ ok tt
    → find_staff dir org staff ≡ some s
    → can_handle dir building s.id org ≡ true
    → access.is_building_staff_only ≡ false
    → (o : Outcome) × (p : Outcome) × (q : Outcome) × (assign_step dir org building staff t r
        ≡ ok o)
      × (update_status_step access manager Status.in_progress u o.request ≡ ok p)
      × (update_status_step access manager Status.completed v p.request ≡ ok q)
      × (q.request.status ≡ Status.completed)
      × (q.request.completed_at ≡ some v)
lifecycle_completes dir access org building staff manager t u v r {s = s} e f g h k =
    let a = staffed s.id t in
    let one = record r { assignment = a; status = Status.assigned } in
    let two = record one { status = Status.in_progress } in
    let f1 = unlocked-moved r a Status.assigned r.completed_at f in
    let f2 = unlocked-moved r a Status.in_progress r.completed_at f in
    (
      announced EventKind.assigned true one,
      announced EventKind.status_changed false (with_status Status.in_progress u one),
      announced EventKind.status_changed false (with_status Status.completed v two),
      assign_step-allowed dir org building staff t r (rw e refl) f g h,
      update_status-next access manager Status.in_progress u one refl k f1,
      update_status-next access manager Status.completed v two refl k f2,
      refl,
      refl,
    )
