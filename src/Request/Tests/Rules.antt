-- ===== src/Request/Tests/Rules.antt =====
-- The rules of the steps and of the policy on the example.
use towerdesk_backend_clean.Prelude.{
  ◌≡◌, ◌≢◌, ◌↔◌, ◌⊎◌, refl, true, false, none, some, is_some, [], ◌∷◌, codes,
}
use towerdesk_backend_clean.Access.{BuildingAccess, ProviderAccess}
use towerdesk_backend_clean.Request.Types.{
  Status, ApprovalStatus, EstimateStatus, DecisionSource, Request, Rest,
}
use towerdesk_backend_clean.Result.{ok, is_ok}
use towerdesk_backend_clean.Request.Outcome.{Outcome, silent}
use towerdesk_backend_clean.Request.Policy.{policy_route, is_emergency_indicated}
use towerdesk_backend_clean.Request.Policy.Routes.{IsOwnerScope}
use towerdesk_backend_clean.Request.Steps.Guards.{
  policy_input, is_closed, assert_open_for_approval, assert_open_or_assigned,
  assert_execution_unlocked,
}
use towerdesk_backend_clean.Request.Steps.Residents.{new_request}
use towerdesk_backend_clean.Request.Steps.Execution.{find_active_provider, is_linked}
use towerdesk_backend_clean.Request.Steps.Lifecycle.{
  is_transition, unassign_step, update_status_step, update_provider_status_step,
}
use towerdesk_backend_clean.Request.Steps.Approvals.{
  awaiting, request_approval_now_step, mark_requested_step, override_step, owner_approve_step,
  owner_reject_step, build_triage,
}
use towerdesk_backend_clean.Request.Steps.Estimates.{
  SubmitDto, estimate_triage, estimated_input, request_estimate_step, submit_estimate_step,
}
use towerdesk_backend_clean.Request.Rules.Execution.{
  execution_unlocked_iff, update_status_allowed_iff, IsWriter, update_provider_status_allowed_iff,
  unassign-estimate,
}
use towerdesk_backend_clean.Request.Rules.Approvals.{
  IsPast, override_allowed_iff, request_approval_now_allowed_iff, mark_requested_allowed_iff,
  approval_unlocks, rejection_locks,
}
use towerdesk_backend_clean.Request.Rules.Estimates.{
  before_rounding, submit_estimate-approval, estimate_locks,
}
use towerdesk_backend_clean.Request.Examples.{
  first_occupancy, tower, new_door, ask_owner, no_triage, value, value-eq_ok,
}

-- An emergency as it is created.
abbrev leak : Request
leak = record (new_request 1 10 2 1000 first_occupancy new_door) {
  triage = record (new_request 1 10 2 1000 first_occupancy new_door).triage { is_emergency = true };
}

abbrev pending_leak : Request
pending_leak = record leak {
  approval = awaiting (codes "upgrade") (some 1000) (some 5) (some 5000);
}

abbrev rejected_leak : Request
rejected_leak = record leak { approval = record leak.approval { status = ApprovalStatus.rejected } }

abbrev provider_leak : Request
provider_leak = record leak {
  status = Status.assigned;
  assignment = record leak.assignment { service_provider_id = some 7 };
}

abbrev manager_access : BuildingAccess
manager_access = record { has_any_building_access = true; is_building_staff_only = false }

abbrev provider_access : ProviderAccess
provider_access = record { provider_ids = 7 ∷ []; manager_provider_ids = 7 ∷ [] }

execution_unlocked_iff_example : (assert_execution_unlocked leak ≡ ok tt) ↔ (
    (leak.estimate.status ≢ EstimateStatus.requested)
    × ((leak.approval.status ≡ ApprovalStatus.approved)
        ⊎ ((leak.approval.status ≡ ApprovalStatus.not_required)
            × ((is_emergency_indicated (policy_input leak) ≡ true)
                ⊎ (¬ (IsOwnerScope (policy_input leak)))))))
execution_unlocked_iff_example = execution_unlocked_iff leak

update_status_allowed_iff_example :
    (is_ok (update_status_step manager_access 5 Status.in_progress 2000 provider_leak) ≡ true) ↔ (
      (is_transition provider_leak.status Status.in_progress ≡ true)
      × (assert_execution_unlocked provider_leak ≡ ok tt)
      × ((manager_access.is_building_staff_only ≡ false)
          ⊎ (provider_leak.assignment.assigned_to_user_id ≡ some 5)))
update_status_allowed_iff_example =
    update_status_allowed_iff manager_access 5 Status.in_progress 2000 provider_leak

update_provider_status_allowed_iff_example :
    (is_ok (update_provider_status_step provider_access 8 Status.in_progress 2000 provider_leak)
      ≡ true)
    ↔ ((is_transition provider_leak.status Status.in_progress ≡ true)
        × (assert_execution_unlocked provider_leak ≡ ok tt)
        × IsWriter provider_access 8 provider_leak)
update_provider_status_allowed_iff_example =
    update_provider_status_allowed_iff provider_access 8 Status.in_progress 2000 provider_leak

abbrev unassigned : Outcome
unassigned = value (unassign_step provider_leak) (silent leak)

unassign_works : is_ok (unassign_step provider_leak) ≡ true
unfolding unassign_step assert_open_or_assigned assert_execution_unlocked policy_route new_request
unassign_works = refl

unassign-estimate_example :
    (provider_leak.estimate.status ≢ EstimateStatus.requested)
    × (unassigned.request.estimate ≡ provider_leak.estimate)
    × (unassigned.request.triage ≡ provider_leak.triage)
unassign-estimate_example =
    unassign-estimate provider_leak
      (value-eq_ok (unassign_step provider_leak) (silent leak) unassign_works)

override_allowed_iff_example :
    (is_ok (override_step DecisionSource.management_override (codes "late") 5 6000 pending_leak)
      ≡ true)
    ↔ ((pending_leak.approval.status ≡ ApprovalStatus.pending)
        × ((DecisionSource.management_override ≢ DecisionSource.management_override)
            ⊎ IsPast pending_leak.approval.deadline_at 6000))
override_allowed_iff_example =
    override_allowed_iff DecisionSource.management_override (codes "late") 5 6000 pending_leak

request_approval_now_allowed_iff_example :
    (is_ok (request_approval_now_step ask_owner 5 2000 leak) ≡ true) ↔ (
      (is_some leak.unit_id ≡ true)
      × (is_closed leak.status ≡ false)
      × ((leak.approval.status ≢ ApprovalStatus.pending) ⊎ (leak.approval.requested_at ≡ none)))
request_approval_now_allowed_iff_example = request_approval_now_allowed_iff ask_owner 5 2000 leak

mark_requested_allowed_iff_example :
    (is_ok (mark_requested_step true 5 2000 pending_leak) ≡ true) ↔ (
      (pending_leak.approval.status ≡ ApprovalStatus.pending)
      × (is_some pending_leak.approval.requested_at ≡ true))
mark_requested_allowed_iff_example = mark_requested_allowed_iff true 5 2000 pending_leak

abbrev asked : Outcome
asked = value (request_approval_now_step ask_owner 5 2000 leak) (silent leak)

ask_works : is_ok (request_approval_now_step ask_owner 5 2000 leak) ≡ true
unfolding request_approval_now_step assert_open_for_approval build_triage new_request
ask_works = refl

leak-no_estimate : leak.estimate.status ≢ EstimateStatus.requested
unfolding new_request
leak-no_estimate h = absurd (cc)

approval_unlocks_example :
    (p : Outcome) × (owner_approve_step none 4 3000 asked.request ≡ ok p)
    × (assert_execution_unlocked p.request ≡ ok tt)
approval_unlocks_example =
    approval_unlocks ask_owner 5 4 2000 3000 none leak
      (value-eq_ok (request_approval_now_step ask_owner 5 2000 leak) (silent leak) ask_works)
      leak-no_estimate

abbrev rejected : Outcome
rejected = value (owner_reject_step (codes "no") 4 2000 pending_leak) (silent leak)

reject_works : is_ok (owner_reject_step (codes "no") 4 2000 pending_leak) ≡ true
unfolding owner_reject_step
reject_works = refl

rejection_locks_example : is_ok (assert_execution_unlocked rejected.request) ≡ false
rejection_locks_example =
    rejection_locks (codes "no") 4 2000 pending_leak
      (value-eq_ok (owner_reject_step (codes "no") 4 2000 pending_leak) (silent leak) reject_works)

abbrev estimate : SubmitDto
estimate = record {
  triage = record no_triage {
    estimated_amount = some (record { hundredths = 100000; rest = Rest.below_half });
  };
  approval_required_reason = none;
  owner_approval_deadline_at = none;
}

abbrev submitted : Outcome
submitted = value (submit_estimate_step estimate 8 2000 leak) (silent leak)

submit_works : is_ok (submit_estimate_step estimate 8 2000 leak) ≡ true
unfolding submit_estimate_step assert_open_for_approval estimated_input estimate_triage build_triage
    policy_route new_request
submit_works = refl

submit_estimate-approval_example :
    (submitted.request.estimate.status ≡ EstimateStatus.submitted)
    × (submitted.request.approval.decided_at ≡ none)
    × ((submitted.request.approval.status ≡ ApprovalStatus.pending)
        ⊎ (submitted.request.approval.status ≡ ApprovalStatus.not_required))
    × ((submitted.request.approval.status ≡ ApprovalStatus.pending) ↔ (
        (is_some submitted.request.unit_id ≡ true)
        × (is_emergency_indicated (before_rounding estimate submitted.request) ≡ false)
        × IsOwnerScope (before_rounding estimate submitted.request)))
submit_estimate-approval_example =
    submit_estimate-approval estimate 8 2000 leak
      (value-eq_ok (submit_estimate_step estimate 8 2000 leak) (silent leak) submit_works)

abbrev estimating : Outcome
estimating = value (request_estimate_step tower 1 7 5 48 2000 rejected_leak) (silent leak)

estimate_works : is_ok (request_estimate_step tower 1 7 5 48 2000 rejected_leak) ≡ true
unfolding request_estimate_step assert_open_or_assigned find_active_provider is_linked policy_route
    new_request
estimate_works = refl

estimate_locks_example :
    (estimating.request.status ≡ Status.opened)
    × (estimating.request.approval.status ≡ ApprovalStatus.not_required)
    × (estimating.request.assignment.service_provider_id ≡ some 7)
    × (is_ok (assert_execution_unlocked estimating.request) ≡ false)
estimate_locks_example = estimate_locks tower 1 7 5 48 2000 rejected_leak (
    value-eq_ok (request_estimate_step tower 1 7 5 48 2000 rejected_leak) (silent leak)
      estimate_works)
