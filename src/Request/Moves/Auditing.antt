-- ===== src/Request/Moves/Auditing.antt =====
-- What the audit trail says of an owner's approval.
use towerdesk_backend_clean.Prelude.{◌≡◌, ◌⊎◌, Bool, true, false, ◌&&◌, arith, any}
use towerdesk_backend_clean.Request.Types.{ApprovalStatus, Request}
use towerdesk_backend_clean.Request.Outcome.{Outcome, AuditEntry}
use towerdesk_backend_clean.Request.Steps.Execution.{
  assign_step, assign_provider_step, assign_worker_step, assign_worker_from_provider_step,
}
use towerdesk_backend_clean.Request.Steps.Lifecycle.{
  unassign_step, update_status_step, update_provider_status_step, cancel_step,
}
use towerdesk_backend_clean.Request.Steps.Approvals.{
  require_approval_step, request_approval_now_step, mark_requested_step, update_triage_step,
  override_step, owner_approve_step, owner_reject_step,
}
use towerdesk_backend_clean.Request.Steps.Estimates.{request_estimate_step, submit_estimate_step}
use towerdesk_backend_clean.Request.Steps.Residents.{update_resident_step}
use towerdesk_backend_clean.Request.Moves.{Move}
use towerdesk_backend_clean.Request.Steps.Guards.{
  assert_execution_unlocked-IsUnlocked, assert_open_or_assigned-eq_ok,
}

abbrev pub same_approval : ApprovalStatus → ApprovalStatus → Bool
same_approval ApprovalStatus.not_required ApprovalStatus.not_required = true
same_approval ApprovalStatus.pending ApprovalStatus.pending = true
same_approval ApprovalStatus.approved ApprovalStatus.approved = true
same_approval ApprovalStatus.rejected ApprovalStatus.rejected = true
same_approval _ _ = false

-- The audit row is of the change from one status to another.
abbrev pub records : ApprovalStatus → ApprovalStatus → AuditEntry → Bool
records from to e = same_approval e.from_status from && same_approval e.to_status to

-- The step asks a provider for an estimate, or hands one in.
abbrev pub is_estimate : {r : Request} {o : Outcome} → Move r o → Bool
is_estimate (Move.request_estimate dir b p u ttl now h) = true
is_estimate (Move.submit_estimate dto u now h) = true
is_estimate _ = false

-- A transaction that changes the status of the approval leaves an audit row from the old status to
-- the new one, unless it asks for an estimate or submits one, and so takes the approval back.
pub Move-audited :
    {r : Request} {o : Outcome} (m : Move r o)
    → (o.request.approval.status ≡ r.approval.status)
      ⊎ ((is_estimate m ≡ true) × (o.request.approval.status ≡ ApprovalStatus.not_required))
      ⊎ (any (records r.approval.status o.request.approval.status) o.audits ≡ true)
unfolding assign_step assign_provider_step assign_worker_step assign_worker_from_provider_step
    unassign_step update_status_step update_provider_status_step cancel_step require_approval_step
    request_approval_now_step mark_requested_step update_triage_step override_step
    owner_approve_step owner_reject_step request_estimate_step submit_estimate_step
    update_resident_step
Move-audited {r} (Move.assign dir org b s now h) =
    ground (arith, assert_execution_unlocked-IsUnlocked r, assert_open_or_assigned-eq_ok r)
Move-audited {r} (Move.assign_provider dir b p now h) =
    ground (arith, assert_execution_unlocked-IsUnlocked r, assert_open_or_assigned-eq_ok r)
Move-audited {r} (Move.assign_worker dir w now h) =
    ground (arith, assert_execution_unlocked-IsUnlocked r, assert_open_or_assigned-eq_ok r)
Move-audited {r} (Move.assign_worker_from_provider dir a w now h) =
    ground (arith, assert_execution_unlocked-IsUnlocked r, assert_open_or_assigned-eq_ok r)
Move-audited {r} (Move.unassign h) =
    ground (arith, assert_execution_unlocked-IsUnlocked r, assert_open_or_assigned-eq_ok r)
Move-audited {r} (Move.update_status a u to now h) =
    ground (arith, assert_execution_unlocked-IsUnlocked r, assert_open_or_assigned-eq_ok r)
Move-audited {r} (Move.update_provider_status a u to now h) =
    ground (arith, assert_execution_unlocked-IsUnlocked r, assert_open_or_assigned-eq_ok r)
Move-audited {r} (Move.cancel now h) = ground arith
Move-audited {r} (Move.require_approval dto h) = ground arith
Move-audited {r} (Move.request_approval_now dto u now h) = ground arith
Move-audited {r} (Move.mark_requested x u now h) = ground arith
Move-audited {r} (Move.update_triage dto h) = ground arith
Move-audited {r} (Move.override s x u now h) = ground arith
Move-audited {r} (Move.owner_approve x u now h) = ground arith
Move-audited {r} (Move.owner_reject x u now h) = ground arith
Move-audited {r} (Move.request_estimate dir b p u ttl now h) = ground arith
Move-audited {r} (Move.submit_estimate dto u now h) = ground arith
Move-audited {r} (Move.update_resident dto h) = ground arith
