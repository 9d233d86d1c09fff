-- ===== src/Request/Moves/Deciding.antt =====
-- How an owner's approval moves.
use towerdesk_backend_clean.Prelude.{◌≡◌, ◌⊎◌, true, none, some, arith, is_some}
use towerdesk_backend_clean.Request.Types.{ApprovalStatus, DecisionSource, Request}
use towerdesk_backend_clean.Request.Outcome.{Outcome}
use towerdesk_backend_clean.Request.Steps.Execution.{
  assign_step, assign_provider_step, assign_worker_step, assign_worker_from_provider_step,
}
use towerdesk_backend_clean.Request.Steps.Lifecycle.{
  unassign_step, update_status_step, update_provider_status_step, cancel_step,
}
use towerdesk_backend_clean.Request.Steps.Approvals.{
  require_approval_step, request_approval_now_step, mark_requested_step, update_triage_step,
  override_step, owner_approve_step, owner_reject_step,
}
use towerdesk_backend_clean.Request.Steps.Estimates.{request_estimate_step, submit_estimate_step}
use towerdesk_backend_clean.Request.Steps.Residents.{update_resident_step}
use towerdesk_backend_clean.Request.Moves.{Move}
use towerdesk_backend_clean.Request.Steps.Guards.{
  assert_execution_unlocked-IsUnlocked, assert_open_or_assigned-eq_ok,
}

-- An approval is decided only while it is pending, and a decision is never replaced by another: a
-- transaction keeps the approval as it is, takes it back to none or to pending without a decision,
-- leaves one that is pending as undecided as it was, or decides one that is pending, stamped with its
-- source.
pub Move-decision :
    {r : Request} {o : Outcome}
    → Move r o
    → (o.request.approval ≡ r.approval)
      ⊎ ((o.request.approval.decided_at ≡ none)
          × ((o.request.approval.status ≡ ApprovalStatus.not_required)
              ⊎ (o.request.approval.status ≡ ApprovalStatus.pending)))
      ⊎ ((r.approval.status ≡ ApprovalStatus.pending)
          × (o.request.approval.status ≡ ApprovalStatus.pending)
          × (o.request.approval.decided_at ≡ r.approval.decided_at)
          × (o.request.approval.decision_source ≡ r.approval.decision_source)
          × (o.request.approval.decided_by_owner_user_id ≡ r.approval.decided_by_owner_user_id))
      ⊎ ((r.approval.status ≡ ApprovalStatus.pending)
          × (is_some o.request.approval.decided_at ≡ true)
          × (is_some o.request.approval.decision_source ≡ true)
          × ((o.request.approval.status ≡ ApprovalStatus.approved)
              ⊎ ((o.request.approval.status ≡ ApprovalStatus.rejected)
                  × (o.request.approval.decision_source ≡ some DecisionSource.owner))))
unfolding assign_step assign_provider_step assign_worker_step assign_worker_from_provider_step
    unassign_step update_status_step update_provider_status_step cancel_step require_approval_step
    request_approval_now_step mark_requested_step update_triage_step override_step
    owner_approve_step owner_reject_step request_estimate_step submit_estimate_step
    update_resident_step
Move-decision {r} (Move.assign dir org b s now h) =
    ground (arith, assert_execution_unlocked-IsUnlocked r, assert_open_or_assigned-eq_ok r)
Move-decision {r} (Move.assign_provider dir b p now h) =
    ground (arith, assert_execution_unlocked-IsUnlocked r, assert_open_or_assigned-eq_ok r)
Move-decision {r} (Move.assign_worker dir w now h) =
    ground (arith, assert_execution_unlocked-IsUnlocked r, assert_open_or_assigned-eq_ok r)
Move-decision {r} (Move.assign_worker_from_provider dir a w now h) =
    ground (arith, assert_execution_unlocked-IsUnlocked r, assert_open_or_assigned-eq_ok r)
Move-decision {r} (Move.unassign h) =
    ground (arith, assert_execution_unlocked-IsUnlocked r, assert_open_or_assigned-eq_ok r)
Move-decision {r} (Move.update_status a u to now h) =
    ground (arith, assert_execution_unlocked-IsUnlocked r, assert_open_or_assigned-eq_ok r)
Move-decision {r} (Move.update_provider_status a u to now h) =
    ground (arith, assert_execution_unlocked-IsUnlocked r, assert_open_or_assigned-eq_ok r)
Move-decision {r} (Move.cancel now h) = ground arith
Move-decision {r} (Move.require_approval dto h) = ground arith
Move-decision {r} (Move.request_approval_now dto u now h) = ground arith
Move-decision {r} (Move.mark_requested x u now h) = ground arith
Move-decision {r} (Move.update_triage dto h) = ground arith
Move-decision {r} (Move.override s x u now h) = ground arith
Move-decision {r} (Move.owner_approve x u now h) = ground arith
Move-decision {r} (Move.owner_reject x u now h) = ground arith
Move-decision {r} (Move.request_estimate dir b p u ttl now h) = ground arith
Move-decision {r} (Move.submit_estimate dto u now h) = ground arith
Move-decision {r} (Move.update_resident dto h) = ground arith
