-- ===== src/Request/Tests/Moves.antt =====
-- Single transactions of the example through the theorems.
use towerdesk_backend_clean.Prelude.{◌≡◌, ◌⊎◌, ◌≢◌, refl, true, none, some, is_some, [], codes, any}
use towerdesk_backend_clean.Request.Types.{Status, ApprovalStatus, DecisionSource, Request}
use towerdesk_backend_clean.Result.{is_ok}
use towerdesk_backend_clean.Request.Outcome.{Outcome, silent}
use towerdesk_backend_clean.Request.Policy.{policy_route}
use towerdesk_backend_clean.Request.Steps.Guards.{
  IsUnlocked, assert_open_or_assigned, assert_execution_unlocked,
}
use towerdesk_backend_clean.Request.Steps.Residents.{normalize_signals, new_request}
use towerdesk_backend_clean.Request.Steps.Execution.{
  assign_step, find_staff, can_handle, has_scoped_assignment, is_staff_assignment,
  has_handling_permissions,
}
use towerdesk_backend_clean.Request.Steps.Approvals.{awaiting, owner_approve_step}
use towerdesk_backend_clean.Request.Moves.{Move}
use towerdesk_backend_clean.Request.Moves.Validity.{IsValid}
use towerdesk_backend_clean.Request.Moves.Kept.{Move-IsValid}
use towerdesk_backend_clean.Request.Moves.Lifecycle.{is_edge, Move-closed, Move-identity, Move-edge}
use towerdesk_backend_clean.Request.Moves.Unlocking.{is_worked, Move-IsUnlocked}
use towerdesk_backend_clean.Request.Moves.Auditing.{records, is_estimate, Move-audited}
use towerdesk_backend_clean.Request.Moves.Announcing.{Move-announced}
use towerdesk_backend_clean.Request.Moves.Deciding.{Move-decision}
use towerdesk_backend_clean.Request.Runs.Soundness.{new_request-IsValid}
use towerdesk_backend_clean.Request.Examples.{first_occupancy, tower, new_door, value, value-eq_ok}

-- The request as it is created, for an emergency.
abbrev door : Request
door = record (new_request 1 10 2 1000 first_occupancy new_door) {
  triage = record (new_request 1 10 2 1000 first_occupancy new_door).triage { is_emergency = true };
}

abbrev assigned : Outcome
assigned = value (assign_step tower 10 1 6 2000 door) (silent door)

assign_works : is_ok (assign_step tower 10 1 6 2000 door) ≡ true
unfolding assign_step assert_open_or_assigned assert_execution_unlocked policy_route find_staff
    can_handle has_scoped_assignment is_staff_assignment has_handling_permissions new_request
    normalize_signals
assign_works = refl

assigning : Move door assigned
assigning =
    Move.assign tower 10 1 6 2000
      (value-eq_ok (assign_step tower 10 1 6 2000 door) (silent door) assign_works)

assigned_is_worked : is_worked assigned.request.status ≡ true
unfolding assign_step assert_open_or_assigned assert_execution_unlocked policy_route find_staff
    can_handle has_scoped_assignment is_staff_assignment has_handling_permissions new_request
    normalize_signals
assigned_is_worked = refl

Move-IsUnlocked_example : (assigned.request.status ≡ door.status) ⊎ IsUnlocked door
Move-IsUnlocked_example = Move-IsUnlocked assigning assigned_is_worked

door-IsValid : IsValid door
unfolding new_request
door-IsValid =
    let v = new_request-IsValid 1 10 2 1000 first_occupancy new_door in
    record {
      one_assignee = v.one_assignee;
      worker_has_provider = v.worker_has_provider;
      completed_stamped = v.completed_stamped;
      canceled_stamped = v.canceled_stamped;
      decided_stamped = v.decided_stamped;
      decided_sourced = v.decided_sourced;
      rejected_by_owner = v.rejected_by_owner;
      approval_has_unit = v.approval_has_unit;
      outstanding_has_provider = v.outstanding_has_provider;
      outstanding_has_due_date = v.outstanding_has_due_date;
      reminded_while_outstanding = v.reminded_while_outstanding;
      submitted_stamped = v.submitted_stamped;
    }

Move-IsValid_example : IsValid assigned.request
Move-IsValid_example = Move-IsValid door-IsValid assigning

Move-edge_example : is_edge door.status assigned.request.status ≡ true
Move-edge_example = Move-edge assigning

Move-identity_example :
    (assigned.request.id ≡ door.id)
    × (assigned.request.org_id ≡ door.org_id)
    × (assigned.request.building_id ≡ door.building_id)
    × (assigned.request.unit_id ≡ door.unit_id)
    × (assigned.request.created_by_user_id ≡ door.created_by_user_id)
    × (assigned.request.created_at ≡ door.created_at)
Move-identity_example = Move-identity assigning

Move-announced_example :
    (assigned.emissions ≢ [])
    ⊎ ((assigned.request.status ≡ door.status)
        × (assigned.request.assignment.assigned_to_user_id ≡ door.assignment.assigned_to_user_id)
        × (assigned.request.assignment.service_provider_id ≡ door.assignment.service_provider_id)
        × (assigned.request.assignment.service_provider_assigned_user_id
            ≡ door.assignment.service_provider_assigned_user_id))
Move-announced_example = Move-announced assigning

-- The request, canceled while its approval is pending, and then approved by the owner.
abbrev pending_door : Request
pending_door = record door {
  status = Status.canceled;
  canceled_at = some 1500;
  approval = awaiting (codes "upgrade") (some 1000) (some 5) (some 5000);
}

abbrev decided : Outcome
decided = value (owner_approve_step none 4 2000 pending_door) (silent pending_door)

approve_works : is_ok (owner_approve_step none 4 2000 pending_door) ≡ true
unfolding owner_approve_step
approve_works = refl

approving : Move pending_door decided
approving =
    Move.owner_approve none 4 2000 (
      value-eq_ok (owner_approve_step none 4 2000 pending_door) (silent pending_door) approve_works)

Move-closed_example : decided.request ≡ record pending_door { approval = decided.request.approval }
Move-closed_example = Move-closed approving refl

Move-audited_example :
    (decided.request.approval.status ≡ pending_door.approval.status)
    ⊎ ((is_estimate approving ≡ true)
        × (decided.request.approval.status ≡ ApprovalStatus.not_required))
    ⊎ (any (records pending_door.approval.status decided.request.approval.status) decided.audits
        ≡ true)
Move-audited_example = Move-audited approving

Move-decision_example :
    (decided.request.approval ≡ pending_door.approval)
    ⊎ ((decided.request.approval.decided_at ≡ none)
        × ((decided.request.approval.status ≡ ApprovalStatus.not_required)
            ⊎ (decided.request.approval.status ≡ ApprovalStatus.pending)))
    ⊎ ((pending_door.approval.status ≡ ApprovalStatus.pending)
        × (decided.request.approval.status ≡ ApprovalStatus.pending)
        × (decided.request.approval.decided_at ≡ pending_door.approval.decided_at)
        × (decided.request.approval.decision_source ≡ pending_door.approval.decision_source)
        × (decided.request.approval.decided_by_owner_user_id
            ≡ pending_door.approval.decided_by_owner_user_id))
    ⊎ ((pending_door.approval.status ≡ ApprovalStatus.pending)
        × (is_some decided.request.approval.decided_at ≡ true)
        × (is_some decided.request.approval.decision_source ≡ true)
        × ((decided.request.approval.status ≡ ApprovalStatus.approved)
            ⊎ ((decided.request.approval.status ≡ ApprovalStatus.rejected)
                × (decided.request.approval.decision_source ≡ some DecisionSource.owner))))
Move-decision_example = Move-decision approving
