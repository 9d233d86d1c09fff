-- ===== src/Request/Steps/Execution.antt =====
-- Assigning: the transactions of `assignRequest`, `assignProvider`, `assignProviderWorker` and
-- `assignProviderWorkerFromProvider`.
use towerdesk_backend_clean.Prelude.{
  keep, ℕ, Bool, true, not, ◌&&◌, Option, none, some, [], ◌∷◌, ◌==◌, is_id, is_some, or_else, find,
  any, all, has,
}
use towerdesk_backend_clean.Directory.{
  Directory, PermissionKey, AccessAssignment, User, ServiceProvider, ProviderUser,
}
use towerdesk_backend_clean.Access.{is_building_scope, has_key, ProviderAccess}
use towerdesk_backend_clean.Request.Types.{Status, Assignment, Request}
use towerdesk_backend_clean.Result.{
  Result, ok, forbidden, bad_request, conflict, no_permission, staff_not_in_org, staff_lacks_access,
  staff_not_assigned_to_building, provider_not_found_or_inactive, provider_not_linked,
  no_provider_yet, provider_no_longer_active, not_a_provider_member, throw_if, or_throw, ◌>>=◌,
  ◌>>◌,
}
use towerdesk_backend_clean.Request.Outcome.{Outcome, EventKind}
use towerdesk_backend_clean.Request.Steps.Guards.{
  assert_open_or_assigned, assert_execution_unlocked,
}

-- The new row, announced with the row as it was.
abbrev pub announced : EventKind → Bool → Request → Outcome
announced kind previous r = record {
  request = r;
  audits = [];
  emissions = record { kind = kind; has_previous = previous } ∷ [];
}

-- `findBuildingScopedAssignmentsForUser`
unfoldable pub is_staff_assignment : ℕ → ℕ → ℕ → AccessAssignment → Bool
is_staff_assignment building user org a =
    (a.user_id == user)
    && is_building_scope a.scope_type
    && is_id a.scope_id building
    && is_id a.role_template.org_id org
    && is_building_scope a.role_template.scope_type

-- `assignmentHasPermissions` for `REQUEST_HANDLING_PERMISSIONS`.
unfoldable pub has_handling_permissions : AccessAssignment → Bool
has_handling_permissions a = all (has_key a.role_template.permissions) (
    PermissionKey.requests_read ∷ PermissionKey.requests_comment
    ∷ PermissionKey.requests_update_status ∷ [])

-- An active user of the organisation.
unfoldable pub find_staff : Directory → ℕ → ℕ → Option User
find_staff dir org user =
    keep (λ u. u.is_active && is_id u.org_id org) (find (λ u. u.id == user) dir.users)

unfoldable pub can_handle : Directory → ℕ → ℕ → ℕ → Bool
unfolding is_staff_assignment has_handling_permissions
can_handle dir building user org =
    any (λ a. is_staff_assignment building user org a && has_handling_permissions a) dir.assignments

unfoldable pub has_scoped_assignment : Directory → ℕ → ℕ → ℕ → Bool
unfolding is_staff_assignment
has_scoped_assignment dir building user org =
    any (is_staff_assignment building user org) dir.assignments

-- The staff assignee alone, with `assignedAt`.
abbrev pub staffed : ℕ → ℕ → Assignment
staffed user now = record {
  assigned_to_user_id = some user;
  service_provider_id = none;
  service_provider_assigned_user_id = none;
  assigned_at = some now;
}

-- `assignRequest`
unfoldable pub assign_step : Directory → ℕ → ℕ → ℕ → ℕ → Request → Result Outcome
assign_step dir org building staff now r = do
  assert_open_or_assigned r
  assert_execution_unlocked r
  user ← or_throw (find_staff dir org staff) (bad_request staff_not_in_org)
  throw_if (not (can_handle dir building user.id org)) (bad_request staff_lacks_access)
  throw_if (not (has_scoped_assignment dir building user.id org))
      (bad_request staff_not_assigned_to_building)
  ok (
      announced EventKind.assigned true
        (record r { assignment = staffed user.id now; status = Status.assigned }))

-- The provider with the id, if it is active.
unfoldable pub find_active_provider : Directory → ℕ → Option ServiceProvider
find_active_provider dir provider =
    keep (λ p. p.is_active) (find (λ p. p.id == provider) dir.providers)

unfoldable pub is_linked : Directory → ℕ → ℕ → Bool
is_linked dir provider building =
    any (λ l. (l.service_provider_id == provider) && (l.building_id == building))
      dir.provider_buildings

-- `assignProvider`
unfoldable pub assign_provider_step : Directory → ℕ → ℕ → ℕ → Request → Result Outcome
assign_provider_step dir building provider now r = do
  assert_open_or_assigned r
  assert_execution_unlocked r
  p ← or_throw (find_active_provider dir provider) (bad_request provider_not_found_or_inactive)
  throw_if (not (is_linked dir p.id building)) (bad_request provider_not_linked)
  ok (
      announced EventKind.assigned true (record r {
        assignment = record {
          assigned_to_user_id = none;
          service_provider_id = some p.id;
          service_provider_assigned_user_id = none;
          assigned_at = some now;
        };
        status = Status.assigned;
      }))

-- `findServiceProviderUserMembership`, with the member and the user active.
unfoldable pub find_active_member : Directory → ℕ → ℕ → Option ProviderUser
find_active_member dir provider user =
    keep (λ m. m.is_active && m.user_is_active)
      (find (λ m. (m.service_provider_id == provider) && (m.user_id == user)) dir.provider_users)

-- The row once a worker of its provider has it; an earlier time of assignment stays.
abbrev with_worker : ℕ → ℕ → Request → Request
with_worker worker now r = record r {
  assignment = record {
    assigned_to_user_id = none;
    service_provider_id = r.assignment.service_provider_id;
    service_provider_assigned_user_id = some worker;
    assigned_at = some (or_else r.assignment.assigned_at now);
  };
  status = Status.assigned;
}

-- `assignProviderWorker`
unfoldable pub assign_worker_step : Directory → ℕ → ℕ → Request → Result Outcome
assign_worker_step dir worker now r = do
  assert_open_or_assigned r
  assert_execution_unlocked r
  provider ← or_throw r.assignment.service_provider_id (conflict no_provider_yet)
  throw_if (not (is_some (find_active_provider dir provider)))
      (bad_request provider_no_longer_active)
  member ← or_throw (find_active_member dir provider worker) (bad_request not_a_provider_member)
  ok (announced EventKind.assigned true (with_worker member.user_id now r))

-- `assignProviderWorkerFromProvider`
unfoldable pub assign_worker_from_provider_step :
    Directory → ProviderAccess → ℕ → ℕ → Request → Result Outcome
assign_worker_from_provider_step dir access worker now r = do
  provider ← or_throw r.assignment.service_provider_id (conflict no_provider_yet)
  throw_if (not (has access.manager_provider_ids provider)) (forbidden no_permission)
  assert_open_or_assigned r
  assert_execution_unlocked r
  member ← or_throw (find_active_member dir provider worker) (bad_request not_a_provider_member)
  ok (announced EventKind.assigned true (with_worker member.user_id now r))
