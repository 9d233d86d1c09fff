-- ===== src/Request/Operations/Authority.antt =====
-- Every operation of the service that succeeds has taken one row, that the caller may touch, through
-- one step.
use towerdesk_backend_clean.Request.Operations.{Operation, run, MayTouch}
use towerdesk_backend_clean.Request.Effects.{Touches}
use towerdesk_backend_clean.Request.Operations.Building.{
  assign_request-Touches, assign_provider-Touches, request_estimate_from_provider-Touches,
  assign_provider_worker-Touches, unassign_provider-Touches, update_request_status-Touches,
  require_owner_approval-Touches, request_owner_approval_now-Touches,
  request_owner_approval-Touches, resend_owner_approval_request-Touches,
  update_request_policy_triage-Touches, submit_request_estimate-Touches,
  override_owner_approval-Touches, cancel_building_request-Touches,
}
use towerdesk_backend_clean.Request.Operations.Others.{
  submit_provider_request_estimate-Touches, update_provider_request_status-Touches,
  assign_provider_worker_from_provider-Touches, update_resident_request-Touches,
  cancel_resident_request-Touches, approve_accessible_request-Touches,
  reject_accessible_request-Touches,
}

pub run-Touches : (op : Operation) → Touches (run op) (MayTouch op)
unfolding run
run-Touches (Operation.assign_request user building id staff) =
    assign_request-Touches user building id staff
run-Touches (Operation.assign_provider user building id provider) =
    assign_provider-Touches user building id provider
run-Touches (Operation.request_estimate_from_provider user building id provider) =
    request_estimate_from_provider-Touches user building id provider
run-Touches (Operation.assign_provider_worker user building id worker) =
    assign_provider_worker-Touches user building id worker
run-Touches (Operation.unassign_provider user building id) =
    unassign_provider-Touches user building id
run-Touches (Operation.update_request_status user building id to) =
    update_request_status-Touches user building id to
run-Touches (Operation.require_owner_approval user building id dto) =
    require_owner_approval-Touches user building id dto
run-Touches (Operation.request_owner_approval_now user building id dto) =
    request_owner_approval_now-Touches user building id dto
run-Touches (Operation.request_owner_approval user building id) =
    request_owner_approval-Touches user building id
run-Touches (Operation.resend_owner_approval_request user building id) =
    resend_owner_approval_request-Touches user building id
run-Touches (Operation.update_request_policy_triage user building id dto) =
    update_request_policy_triage-Touches user building id dto
run-Touches (Operation.submit_request_estimate user building id dto) =
    submit_request_estimate-Touches user building id dto
run-Touches (Operation.override_owner_approval user building id source reason) =
    override_owner_approval-Touches user building id source reason
run-Touches (Operation.cancel_building_request user building id) =
    cancel_building_request-Touches user building id
run-Touches (Operation.submit_provider_request_estimate user id dto) =
    submit_provider_request_estimate-Touches user id dto
run-Touches (Operation.update_provider_request_status user id to) =
    update_provider_request_status-Touches user id to
run-Touches (Operation.assign_provider_worker_from_provider user id worker) =
    assign_provider_worker_from_provider-Touches user id worker
run-Touches (Operation.update_resident_request user id dto) =
    update_resident_request-Touches user id dto
run-Touches (Operation.cancel_resident_request user id) = cancel_resident_request-Touches user id
run-Touches (Operation.approve_accessible_request user id reason) =
    approve_accessible_request-Touches user id reason
run-Touches (Operation.reject_accessible_request user id reason) =
    reject_accessible_request-Touches user id reason
