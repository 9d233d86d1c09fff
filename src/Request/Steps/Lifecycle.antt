-- ===== src/Request/Steps/Lifecycle.antt =====
-- Unassigning, moving on and canceling: the transactions of `unassignProvider`,
-- `updateRequestStatus`, `updateProviderRequestStatus`, `cancelBuildingRequest` and
-- `cancelResidentRequest`, and who of a provider may write.
use towerdesk_backend_clean.Prelude.{
  is_some, ℕ, Bool, true, false, not, ◌&&◌, none, some, if◌then◌else◌, is_id, has,
}
use towerdesk_backend_clean.Access.{BuildingAccess, ProviderAccess}
use towerdesk_backend_clean.Request.Types.{Status, EstimateStatus, Request, Estimate}
use towerdesk_backend_clean.Request.Policy.{is_requested}
use towerdesk_backend_clean.Result.{
  Result, ok, forbidden, conflict, no_permission, not_assigned_to_provider,
  invalid_status_transition, request_cannot_be_canceled, throw_if, or_throw, ◌>>=◌, ◌>>◌,
}
use towerdesk_backend_clean.Request.Outcome.{Outcome, EventKind}
use towerdesk_backend_clean.Request.Steps.Guards.{
  is_closed, assert_open_or_assigned, assert_execution_unlocked,
}
use towerdesk_backend_clean.Request.Steps.Execution.{announced}

-- `serviceProvider` and its worker disconnected, `assignedAt` null, and the status OPEN.
abbrev unassigned : Request → Request
unassigned r = record r {
  assignment = record {
    assigned_to_user_id = r.assignment.assigned_to_user_id;
    service_provider_id = none;
    service_provider_assigned_user_id = none;
    assigned_at = none;
  };
  status = Status.opened;
}

abbrev pub no_estimate : Estimate
no_estimate = record {
  status = EstimateStatus.not_requested;
  requested_at = none;
  requested_by_user_id = none;
  due_at = none;
  reminder_sent_at = none;
  submitted_at = none;
  submitted_by_user_id = none;
}

-- The branch of `unassignProvider` for an outstanding estimate.
abbrev without_estimate : Request → Request
without_estimate r = record r {
  estimate = no_estimate;
  triage = record r.triage { estimated_amount = none; estimated_currency = none };
}

-- `unassignProvider`
unfoldable pub unassign_step : Request → Result Outcome
unassign_step r = do
  assert_open_or_assigned r
  throw_if (not (is_some r.assignment.service_provider_id)) (conflict not_assigned_to_provider)
  assert_execution_unlocked r
  ok (
      announced EventKind.status_changed true
        (if is_requested r.estimate.status then without_estimate (unassigned r) else unassigned r))

-- `MAINTENANCE_STATUS_TRANSITIONS`
abbrev pub is_transition : Status → Status → Bool
is_transition Status.opened Status.assigned = true
is_transition Status.assigned Status.in_progress = true
is_transition Status.in_progress Status.completed = true
is_transition _ _ = false

abbrev is_completed : Status → Bool
is_completed Status.completed = true
is_completed _ = false

abbrev pub with_status : Status → ℕ → Request → Request
with_status to now r = record r {
  status = to;
  completed_at = if is_completed to then some now else r.completed_at;
}

-- `updateRequestStatus`
unfoldable pub update_status_step : BuildingAccess → ℕ → Status → ℕ → Request → Result Outcome
update_status_step access user to now r = do
  throw_if (not (is_transition r.status to)) (conflict invalid_status_transition)
  throw_if (access.is_building_staff_only && not (is_id r.assignment.assigned_to_user_id user))
      (forbidden no_permission)
  assert_execution_unlocked r
  ok (announced EventKind.status_changed false (with_status to now r))

-- `assertProviderRequestWriteAccess`
unfoldable pub assert_provider_write_access : ProviderAccess → ℕ → Request → Result (Unit {0})
assert_provider_write_access access user r = do
  provider ← or_throw r.assignment.service_provider_id (forbidden no_permission)
  throw_if
      (not (has access.manager_provider_ids provider)
        && not (is_id r.assignment.service_provider_assigned_user_id user))
      (forbidden no_permission)

-- `updateProviderRequestStatus`
unfoldable pub update_provider_status_step :
    ProviderAccess → ℕ → Status → ℕ → Request → Result Outcome
update_provider_status_step access user to now r = do
  assert_provider_write_access access user r
  throw_if (not (is_transition r.status to)) (conflict invalid_status_transition)
  assert_execution_unlocked r
  ok (announced EventKind.status_changed true (with_status to now r))

-- `cancelBuildingRequest` and `cancelResidentRequest`
unfoldable pub cancel_step : ℕ → Request → Result Outcome
cancel_step now r = do
  throw_if (is_closed r.status) (conflict request_cannot_be_canceled)
  ok (
      announced EventKind.canceled false
        (record r { status = Status.canceled; canceled_at = some now }))
