-- ===== src/Request/Moves/Validity.antt =====
-- What holds of every row, and that assigning, moving on and canceling keep it.
use towerdesk_backend_clean.Prelude.{
  ℕ, ◌≡◌, ◌⊎◌, Bool, true, false, ◌||◌, none, some, arith, is_some,
}
use towerdesk_backend_clean.Request.Types.{
  Status, ApprovalStatus, EstimateStatus, DecisionSource, Request,
}
use towerdesk_backend_clean.Request.Outcome.{Outcome}
use towerdesk_backend_clean.Result.{ok}
use towerdesk_backend_clean.Request.Policy.{is_requested, is_approved, is_rejected}
use towerdesk_backend_clean.Request.Steps.Execution.{
  assign_step, assign_provider_step, assign_worker_step, assign_worker_from_provider_step,
}
use towerdesk_backend_clean.Request.Steps.Lifecycle.{
  unassign_step, update_status_step, update_provider_status_step, cancel_step,
}
use towerdesk_backend_clean.Directory.{Directory}
use towerdesk_backend_clean.Access.{BuildingAccess, ProviderAccess}
use towerdesk_backend_clean.Request.Steps.Guards.{
  assert_execution_unlocked-IsUnlocked, assert_open_or_assigned-eq_ok,
}

abbrev pub is_completed : Status → Bool
is_completed Status.completed = true
is_completed _ = false

abbrev pub is_canceled : Status → Bool
is_canceled Status.canceled = true
is_canceled _ = false

abbrev pub is_submitted : EstimateStatus → Bool
is_submitted EstimateStatus.submitted = true
is_submitted _ = false

pub record IsValid (r : Request) : Type 0 where
  pub one_assignee :
      (r.assignment.assigned_to_user_id ≡ none) ⊎ (r.assignment.service_provider_id ≡ none)
  pub worker_has_provider :
      (r.assignment.service_provider_assigned_user_id ≡ none)
      ⊎ (is_some r.assignment.service_provider_id ≡ true)
  pub completed_stamped : is_some r.completed_at ≡ is_completed r.status
  pub canceled_stamped : is_some r.canceled_at ≡ is_canceled r.status
  pub decided_stamped :
      is_some r.approval.decided_at
      ≡ (is_approved r.approval.status || is_rejected r.approval.status)
  pub decided_sourced :
      is_some r.approval.decision_source
      ≡ (is_approved r.approval.status || is_rejected r.approval.status)
  pub rejected_by_owner :
      (is_rejected r.approval.status ≡ false)
      ⊎ (r.approval.decision_source ≡ some DecisionSource.owner)
  pub approval_has_unit :
      (r.approval.status ≡ ApprovalStatus.not_required) ⊎ (is_some r.unit_id ≡ true)
  pub outstanding_has_provider :
      (is_requested r.estimate.status ≡ false) ⊎ (is_some r.assignment.service_provider_id ≡ true)
  pub outstanding_has_due_date :
      (is_requested r.estimate.status ≡ false) ⊎ (is_some r.estimate.due_at ≡ true)
  pub reminded_while_outstanding :
      (r.estimate.reminder_sent_at ≡ none) ⊎ (is_requested r.estimate.status ≡ true)
  pub submitted_stamped : is_some r.estimate.submitted_at ≡ is_submitted r.estimate.status

pub assign-IsValid :
    (r : Request) {o : Outcome}
    → IsValid r
    → (dir : Directory) (org building staff now : ℕ)
    → assign_step dir org building staff now r ≡ ok o
    → IsValid o.request
unfolding assign_step
assign-IsValid r v dir org building staff now h =
    ground (arith, assert_execution_unlocked-IsUnlocked r, assert_open_or_assigned-eq_ok r)

pub assign_provider-IsValid :
    (r : Request) {o : Outcome}
    → IsValid r
    → (dir : Directory) (building provider now : ℕ)
    → assign_provider_step dir building provider now r ≡ ok o
    → IsValid o.request
unfolding assign_provider_step
assign_provider-IsValid r v dir building provider now h =
    ground (arith, assert_execution_unlocked-IsUnlocked r, assert_open_or_assigned-eq_ok r)

pub assign_worker-IsValid :
    (r : Request) {o : Outcome}
    → IsValid r
    → (dir : Directory) (worker now : ℕ) → assign_worker_step dir worker now r ≡ ok o
    → IsValid o.request
unfolding assign_worker_step
assign_worker-IsValid r v dir worker now h =
    ground (arith, assert_execution_unlocked-IsUnlocked r, assert_open_or_assigned-eq_ok r)

pub assign_worker_from_provider-IsValid :
    (r : Request) {o : Outcome}
    → IsValid r
    → (dir : Directory) (access : ProviderAccess) (worker now : ℕ)
    → assign_worker_from_provider_step dir access worker now r ≡ ok o
    → IsValid o.request
unfolding assign_worker_from_provider_step
assign_worker_from_provider-IsValid r v dir access worker now h =
    ground (arith, assert_execution_unlocked-IsUnlocked r, assert_open_or_assigned-eq_ok r)

pub unassign-IsValid :
    (r : Request) {o : Outcome} → IsValid r → unassign_step r ≡ ok o → IsValid o.request
unfolding unassign_step
unassign-IsValid r v h =
    ground (arith, assert_execution_unlocked-IsUnlocked r, assert_open_or_assigned-eq_ok r)

pub update_status-IsValid :
    (r : Request) {o : Outcome}
    → IsValid r
    → (access : BuildingAccess) (user : ℕ) (to : Status) (now : ℕ)
    → update_status_step access user to now r ≡ ok o
    → IsValid o.request
unfolding update_status_step
update_status-IsValid r v access user to now h =
    ground (arith, assert_execution_unlocked-IsUnlocked r, assert_open_or_assigned-eq_ok r)

pub update_provider_status-IsValid :
    (r : Request) {o : Outcome}
    → IsValid r
    → (access : ProviderAccess) (user : ℕ) (to : Status) (now : ℕ)
    → update_provider_status_step access user to now r ≡ ok o
    → IsValid o.request
unfolding update_provider_status_step
update_provider_status-IsValid r v access user to now h =
    ground (arith, assert_execution_unlocked-IsUnlocked r, assert_open_or_assigned-eq_ok r)

pub cancel-IsValid :
    (r : Request) {o : Outcome}
    → IsValid r
    → (now : ℕ) → cancel_step now r ≡ ok o
    → IsValid o.request
unfolding cancel_step
cancel-IsValid r v now h = ground arith
