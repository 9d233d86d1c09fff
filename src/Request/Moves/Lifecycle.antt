-- ===== src/Request/Moves/Lifecycle.antt =====
-- How the status of a request moves, and that a closed one stays closed.
use towerdesk_backend_clean.Prelude.{◌≡◌, Bool, true, false, arith}
use towerdesk_backend_clean.Request.Types.{Status, Request}
use towerdesk_backend_clean.Request.Outcome.{Outcome}
use towerdesk_backend_clean.Request.Steps.Execution.{
  assign_step, assign_provider_step, assign_worker_step, assign_worker_from_provider_step,
}
use towerdesk_backend_clean.Request.Steps.Lifecycle.{
  unassign_step, update_status_step, update_provider_status_step, cancel_step,
}
use towerdesk_backend_clean.Request.Steps.Approvals.{
  require_approval_step, request_approval_now_step, mark_requested_step, update_triage_step,
  override_step, owner_approve_step, owner_reject_step,
}
use towerdesk_backend_clean.Request.Steps.Estimates.{request_estimate_step, submit_estimate_step}
use towerdesk_backend_clean.Request.Steps.Residents.{update_resident_step}
use towerdesk_backend_clean.Request.Moves.{Move}
use towerdesk_backend_clean.Request.Steps.Guards.{
  assert_execution_unlocked-IsUnlocked, assert_open_or_assigned-eq_ok, is_closed,
}

-- The diagram of the statuses: up one step at a time, back to open while only assigned, and to
-- canceled from wherever the request is not over.
abbrev pub is_edge : Status → Status → Bool
is_edge Status.opened Status.opened = true
is_edge Status.opened Status.assigned = true
is_edge Status.opened Status.canceled = true
is_edge Status.assigned Status.assigned = true
is_edge Status.assigned Status.opened = true
is_edge Status.assigned Status.in_progress = true
is_edge Status.assigned Status.canceled = true
is_edge Status.in_progress Status.in_progress = true
is_edge Status.in_progress Status.completed = true
is_edge Status.in_progress Status.canceled = true
is_edge Status.completed Status.completed = true
is_edge Status.canceled Status.canceled = true
is_edge _ _ = false

-- A transaction on a completed or canceled request can change its approval and nothing else.
pub Move-closed :
    {r : Request} {o : Outcome}
    → Move r o
    → is_closed r.status ≡ true
    → o.request ≡ record r { approval = o.request.approval }
unfolding assign_step assign_provider_step assign_worker_step assign_worker_from_provider_step
    unassign_step update_status_step update_provider_status_step cancel_step require_approval_step
    request_approval_now_step mark_requested_step update_triage_step override_step
    owner_approve_step owner_reject_step request_estimate_step submit_estimate_step
    update_resident_step
Move-closed {r} (Move.assign dir org b s now h) h2 =
    ground (arith, assert_execution_unlocked-IsUnlocked r, assert_open_or_assigned-eq_ok r)
Move-closed {r} (Move.assign_provider dir b p now h) h2 =
    ground (arith, assert_execution_unlocked-IsUnlocked r, assert_open_or_assigned-eq_ok r)
Move-closed {r} (Move.assign_worker dir w now h) h2 =
    ground (arith, assert_execution_unlocked-IsUnlocked r, assert_open_or_assigned-eq_ok r)
Move-closed {r} (Move.assign_worker_from_provider dir a w now h) h2 =
    ground (arith, assert_execution_unlocked-IsUnlocked r, assert_open_or_assigned-eq_ok r)
Move-closed {r} (Move.unassign h) h2 =
    ground (arith, assert_execution_unlocked-IsUnlocked r, assert_open_or_assigned-eq_ok r)
Move-closed {r} (Move.update_status a u to now h) h2 =
    ground (arith, assert_execution_unlocked-IsUnlocked r, assert_open_or_assigned-eq_ok r)
Move-closed {r} (Move.update_provider_status a u to now h) h2 =
    ground (arith, assert_execution_unlocked-IsUnlocked r, assert_open_or_assigned-eq_ok r)
Move-closed {r} (Move.cancel now h) h2 = ground arith
Move-closed {r} (Move.require_approval dto h) h2 = ground arith
Move-closed {r} (Move.request_approval_now dto u now h) h2 = ground arith
Move-closed {r} (Move.mark_requested x u now h) h2 = ground arith
Move-closed {r} (Move.update_triage dto h) h2 = ground arith
Move-closed {r} (Move.override s x u now h) h2 = ground arith
Move-closed {r} (Move.owner_approve x u now h) h2 = ground arith
Move-closed {r} (Move.owner_reject x u now h) h2 = ground arith
Move-closed {r} (Move.request_estimate dir b p u ttl now h) h2 =
    ground (arith, assert_open_or_assigned-eq_ok r)
Move-closed {r} (Move.submit_estimate dto u now h) h2 = ground arith
Move-closed {r} (Move.update_resident dto h) h2 = ground arith

-- No transaction moves a request to another organisation, building, unit or creator.
pub Move-identity :
    {r : Request} {o : Outcome}
    → Move r o
    → (o.request.id ≡ r.id)
      × (o.request.org_id ≡ r.org_id)
      × (o.request.building_id ≡ r.building_id)
      × (o.request.unit_id ≡ r.unit_id)
      × (o.request.created_by_user_id ≡ r.created_by_user_id)
      × (o.request.created_at ≡ r.created_at)
unfolding assign_step assign_provider_step assign_worker_step assign_worker_from_provider_step
    unassign_step update_status_step update_provider_status_step cancel_step require_approval_step
    request_approval_now_step mark_requested_step update_triage_step override_step
    owner_approve_step owner_reject_step request_estimate_step submit_estimate_step
    update_resident_step
Move-identity {r} (Move.assign dir org b s now h) =
    ground (arith, assert_execution_unlocked-IsUnlocked r, assert_open_or_assigned-eq_ok r)
Move-identity {r} (Move.assign_provider dir b p now h) =
    ground (arith, assert_execution_unlocked-IsUnlocked r, assert_open_or_assigned-eq_ok r)
Move-identity {r} (Move.assign_worker dir w now h) =
    ground (arith, assert_execution_unlocked-IsUnlocked r, assert_open_or_assigned-eq_ok r)
Move-identity {r} (Move.assign_worker_from_provider dir a w now h) =
    ground (arith, assert_execution_unlocked-IsUnlocked r, assert_open_or_assigned-eq_ok r)
Move-identity {r} (Move.unassign h) =
    ground (arith, assert_execution_unlocked-IsUnlocked r, assert_open_or_assigned-eq_ok r)
Move-identity {r} (Move.update_status a u to now h) =
    ground (arith, assert_execution_unlocked-IsUnlocked r, assert_open_or_assigned-eq_ok r)
Move-identity {r} (Move.update_provider_status a u to now h) =
    ground (arith, assert_execution_unlocked-IsUnlocked r, assert_open_or_assigned-eq_ok r)
Move-identity {r} (Move.cancel now h) = ground arith
Move-identity {r} (Move.require_approval dto h) = ground arith
Move-identity {r} (Move.request_approval_now dto u now h) = ground arith
Move-identity {r} (Move.mark_requested x u now h) = ground arith
Move-identity {r} (Move.update_triage dto h) = ground arith
Move-identity {r} (Move.override s x u now h) = ground arith
Move-identity {r} (Move.owner_approve x u now h) = ground arith
Move-identity {r} (Move.owner_reject x u now h) = ground arith
Move-identity {r} (Move.request_estimate dir b p u ttl now h) =
    ground (arith, assert_open_or_assigned-eq_ok r)
Move-identity {r} (Move.submit_estimate dto u now h) = ground arith
Move-identity {r} (Move.update_resident dto h) = ground arith

-- Every transaction takes the status along an edge of the diagram.
pub Move-edge : {r : Request} {o : Outcome} → Move r o → is_edge r.status o.request.status ≡ true
unfolding assign_step assign_provider_step assign_worker_step assign_worker_from_provider_step
    unassign_step update_status_step update_provider_status_step cancel_step require_approval_step
    request_approval_now_step mark_requested_step update_triage_step override_step
    owner_approve_step owner_reject_step request_estimate_step submit_estimate_step
    update_resident_step
Move-edge {r} (Move.assign dir org b s now h) =
    ground (arith, assert_execution_unlocked-IsUnlocked r, assert_open_or_assigned-eq_ok r)
Move-edge {r} (Move.assign_provider dir b p now h) =
    ground (arith, assert_execution_unlocked-IsUnlocked r, assert_open_or_assigned-eq_ok r)
Move-edge {r} (Move.assign_worker dir w now h) =
    ground (arith, assert_execution_unlocked-IsUnlocked r, assert_open_or_assigned-eq_ok r)
Move-edge {r} (Move.assign_worker_from_provider dir a w now h) =
    ground (arith, assert_execution_unlocked-IsUnlocked r, assert_open_or_assigned-eq_ok r)
Move-edge {r} (Move.unassign h) =
    ground (arith, assert_execution_unlocked-IsUnlocked r, assert_open_or_assigned-eq_ok r)
Move-edge {r} (Move.update_status a u to now h) =
    ground (arith, assert_execution_unlocked-IsUnlocked r, assert_open_or_assigned-eq_ok r)
Move-edge {r} (Move.update_provider_status a u to now h) =
    ground (arith, assert_execution_unlocked-IsUnlocked r, assert_open_or_assigned-eq_ok r)
Move-edge {r} (Move.cancel now h) = ground arith
Move-edge {r} (Move.require_approval dto h) = ground arith
Move-edge {r} (Move.request_approval_now dto u now h) = ground arith
Move-edge {r} (Move.mark_requested x u now h) = ground arith
Move-edge {r} (Move.update_triage dto h) = ground arith
Move-edge {r} (Move.override s x u now h) = ground arith
Move-edge {r} (Move.owner_approve x u now h) = ground arith
Move-edge {r} (Move.owner_reject x u now h) = ground arith
Move-edge {r} (Move.request_estimate dir b p u ttl now h) =
    ground (arith, assert_open_or_assigned-eq_ok r)
Move-edge {r} (Move.submit_estimate dto u now h) = ground arith
Move-edge {r} (Move.update_resident dto h) = ground arith
