-- ===== src/Request/Moves/Announcing.antt =====
-- What is announced.
use towerdesk_backend_clean.Prelude.{◌≡◌, ◌≢◌, ◌⊎◌, [], arith}
use towerdesk_backend_clean.Request.Types.{Request}
use towerdesk_backend_clean.Request.Outcome.{Outcome}
use towerdesk_backend_clean.Request.Steps.Execution.{
  assign_step, assign_provider_step, assign_worker_step, assign_worker_from_provider_step,
}
use towerdesk_backend_clean.Request.Steps.Lifecycle.{
  unassign_step, update_status_step, update_provider_status_step, cancel_step,
}
use towerdesk_backend_clean.Request.Steps.Approvals.{
  require_approval_step, request_approval_now_step, mark_requested_step, update_triage_step,
  override_step, owner_approve_step, owner_reject_step,
}
use towerdesk_backend_clean.Request.Steps.Estimates.{request_estimate_step, submit_estimate_step}
use towerdesk_backend_clean.Request.Steps.Residents.{update_resident_step}
use towerdesk_backend_clean.Request.Moves.{Move}
use towerdesk_backend_clean.Request.Steps.Guards.{
  assert_execution_unlocked-IsUnlocked, assert_open_or_assigned-eq_ok,
}

-- A transaction that changes the status of the request, its staff assignee, its provider or the
-- provider's worker, emits an event.
pub Move-announced :
    {r : Request} {o : Outcome}
    → Move r o
    → (o.emissions ≢ [])
      ⊎ ((o.request.status ≡ r.status)
          × (o.request.assignment.assigned_to_user_id ≡ r.assignment.assigned_to_user_id)
          × (o.request.assignment.service_provider_id ≡ r.assignment.service_provider_id)
          × (o.request.assignment.service_provider_assigned_user_id
              ≡ r.assignment.service_provider_assigned_user_id))
unfolding assign_step assign_provider_step assign_worker_step assign_worker_from_provider_step
    unassign_step update_status_step update_provider_status_step cancel_step require_approval_step
    request_approval_now_step mark_requested_step update_triage_step override_step
    owner_approve_step owner_reject_step request_estimate_step submit_estimate_step
    update_resident_step
Move-announced {r} (Move.assign dir org b s now h) =
    ground (arith, assert_execution_unlocked-IsUnlocked r, assert_open_or_assigned-eq_ok r)
Move-announced {r} (Move.assign_provider dir b p now h) =
    ground (arith, assert_execution_unlocked-IsUnlocked r, assert_open_or_assigned-eq_ok r)
Move-announced {r} (Move.assign_worker dir w now h) =
    ground (arith, assert_execution_unlocked-IsUnlocked r, assert_open_or_assigned-eq_ok r)
Move-announced {r} (Move.assign_worker_from_provider dir a w now h) =
    ground (arith, assert_execution_unlocked-IsUnlocked r, assert_open_or_assigned-eq_ok r)
Move-announced {r} (Move.unassign h) =
    ground (arith, assert_execution_unlocked-IsUnlocked r, assert_open_or_assigned-eq_ok r)
Move-announced {r} (Move.update_status a u to now h) =
    ground (arith, assert_execution_unlocked-IsUnlocked r, assert_open_or_assigned-eq_ok r)
Move-announced {r} (Move.update_provider_status a u to now h) =
    ground (arith, assert_execution_unlocked-IsUnlocked r, assert_open_or_assigned-eq_ok r)
Move-announced {r} (Move.cancel now h) = ground arith
Move-announced {r} (Move.require_approval dto h) = ground arith
Move-announced {r} (Move.request_approval_now dto u now h) = ground arith
Move-announced {r} (Move.mark_requested x u now h) = ground arith
Move-announced {r} (Move.update_triage dto h) = ground arith
Move-announced {r} (Move.override s x u now h) = ground arith
Move-announced {r} (Move.owner_approve x u now h) = ground arith
Move-announced {r} (Move.owner_reject x u now h) = ground arith
Move-announced {r} (Move.request_estimate dir b p u ttl now h) = ground arith
Move-announced {r} (Move.submit_estimate dto u now h) = ground arith
Move-announced {r} (Move.update_resident dto h) = ground arith
