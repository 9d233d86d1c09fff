-- ===== src/Request/Moves/Unlocking.antt =====
-- Work starts, goes on and ends only while it is unlocked.
use towerdesk_backend_clean.Prelude.{◌≡◌, ◌⊎◌, Bool, true, false, arith}
use towerdesk_backend_clean.Request.Types.{Status, Request}
use towerdesk_backend_clean.Request.Outcome.{Outcome}
use towerdesk_backend_clean.Request.Steps.Execution.{
  assign_step, assign_provider_step, assign_worker_step, assign_worker_from_provider_step,
}
use towerdesk_backend_clean.Request.Steps.Lifecycle.{
  unassign_step, update_status_step, update_provider_status_step, cancel_step,
}
use towerdesk_backend_clean.Request.Steps.Approvals.{
  require_approval_step, request_approval_now_step, mark_requested_step, update_triage_step,
  override_step, owner_approve_step, owner_reject_step,
}
use towerdesk_backend_clean.Request.Steps.Estimates.{request_estimate_step, submit_estimate_step}
use towerdesk_backend_clean.Request.Steps.Residents.{update_resident_step}
use towerdesk_backend_clean.Request.Moves.{Move}
use towerdesk_backend_clean.Request.Steps.Guards.{
  assert_execution_unlocked-IsUnlocked, assert_open_or_assigned-eq_ok, IsUnlocked,
}

abbrev pub is_worked : Status → Bool
is_worked Status.assigned = true
is_worked Status.in_progress = true
is_worked Status.completed = true
is_worked _ = false

-- A transaction that brings a request into assignment, into progress or to completion finds it
-- unlocked: its approval neither pending nor rejected, no estimate outstanding, and no policy
-- that routes it to the owner.
pub Move-IsUnlocked :
    {r : Request} {o : Outcome}
    → Move r o
    → is_worked o.request.status ≡ true
    → (o.request.status ≡ r.status) ⊎ IsUnlocked r
unfolding assign_step assign_provider_step assign_worker_step assign_worker_from_provider_step
    unassign_step update_status_step update_provider_status_step cancel_step require_approval_step
    request_approval_now_step mark_requested_step update_triage_step override_step
    owner_approve_step owner_reject_step request_estimate_step submit_estimate_step
    update_resident_step
Move-IsUnlocked {r} (Move.assign dir org b s now h) h2 =
    ground (arith, assert_execution_unlocked-IsUnlocked r, assert_open_or_assigned-eq_ok r)
Move-IsUnlocked {r} (Move.assign_provider dir b p now h) h2 =
    ground (arith, assert_execution_unlocked-IsUnlocked r, assert_open_or_assigned-eq_ok r)
Move-IsUnlocked {r} (Move.assign_worker dir w now h) h2 =
    ground (arith, assert_execution_unlocked-IsUnlocked r, assert_open_or_assigned-eq_ok r)
Move-IsUnlocked {r} (Move.assign_worker_from_provider dir a w now h) h2 =
    ground (arith, assert_execution_unlocked-IsUnlocked r, assert_open_or_assigned-eq_ok r)
Move-IsUnlocked {r} (Move.unassign h) h2 =
    ground (arith, assert_execution_unlocked-IsUnlocked r, assert_open_or_assigned-eq_ok r)
Move-IsUnlocked {r} (Move.update_status a u to now h) h2 =
    ground (arith, assert_execution_unlocked-IsUnlocked r, assert_open_or_assigned-eq_ok r)
Move-IsUnlocked {r} (Move.update_provider_status a u to now h) h2 =
    ground (arith, assert_execution_unlocked-IsUnlocked r, assert_open_or_assigned-eq_ok r)
Move-IsUnlocked {r} (Move.cancel now h) h2 = ground arith
Move-IsUnlocked {r} (Move.require_approval dto h) h2 = ground arith
Move-IsUnlocked {r} (Move.request_approval_now dto u now h) h2 = ground arith
Move-IsUnlocked {r} (Move.mark_requested x u now h) h2 = ground arith
Move-IsUnlocked {r} (Move.update_triage dto h) h2 = ground arith
Move-IsUnlocked {r} (Move.override s x u now h) h2 = ground arith
Move-IsUnlocked {r} (Move.owner_approve x u now h) h2 = ground arith
Move-IsUnlocked {r} (Move.owner_reject x u now h) h2 = ground arith
Move-IsUnlocked {r} (Move.request_estimate dir b p u ttl now h) h2 =
    ground (arith, assert_open_or_assigned-eq_ok r)
Move-IsUnlocked {r} (Move.submit_estimate dto u now h) h2 = ground arith
Move-IsUnlocked {r} (Move.update_resident dto h) h2 = ground arith
