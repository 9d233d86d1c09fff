-- ===== src/Request/Steps/Guards.antt =====
-- The private checks of the service that its transactions share.
use towerdesk_backend_clean.Prelude.{◌≡◌, arith, Bool, true, false, ◌||◌, some, if◌then◌else◌}
use towerdesk_backend_clean.Request.Types.{Status, Route, Request, stored}
use towerdesk_backend_clean.Request.Policy.{
  PolicyInput, policy_route, is_pending, is_rejected, is_requested,
}
use towerdesk_backend_clean.Result.{
  ok, Result, conflict, not_open_or_assigned, request_is_closed, blocked_by_owner_approval,
  blocked_by_estimate, needs_owner_approval, throw_if, ◌>>◌,
}

-- A stored row as the input of the policy.
abbrev pub policy_input : Request → PolicyInput
policy_input r = record {
  status = some r.status;
  owner_approval_status = some r.approval.status;
  estimate_status = some r.estimate.status;
  estimated_amount = stored r.triage.estimated_amount;
  is_emergency = some r.triage.is_emergency;
  emergency_signals = r.emergency_signals;
  is_like_for_like = r.triage.is_like_for_like;
  is_upgrade = r.triage.is_upgrade;
  is_major_replacement = r.triage.is_major_replacement;
  is_responsibility_disputed = r.triage.is_responsibility_disputed;
  created_at = some r.created_at;
  title = some r.title;
  description = r.description;
  type = r.type;
  priority = r.priority;
}

abbrev pub is_closed : Status → Bool
is_closed Status.completed = true
is_closed Status.canceled = true
is_closed _ = false

abbrev pub is_open_or_assigned : Status → Bool
is_open_or_assigned Status.opened = true
is_open_or_assigned Status.assigned = true
is_open_or_assigned _ = false

abbrev pub is_owner_route : Route → Bool
is_owner_route Route.owner_approval_required = true
is_owner_route _ = false

-- The test `status !== OPEN && status !== ASSIGNED` of the assigning handlers.
unfoldable pub assert_open_or_assigned : Request → Result (Unit {0})
assert_open_or_assigned r =
    throw_if (if is_open_or_assigned r.status then false else true) (conflict not_open_or_assigned)

-- `assertExecutionUnlocked`
unfoldable pub assert_execution_unlocked : Request → Result (Unit {0})
assert_execution_unlocked r = do
  throw_if (is_pending r.approval.status || is_rejected r.approval.status)
      (conflict blocked_by_owner_approval)
  throw_if (is_requested r.estimate.status) (conflict blocked_by_estimate)
  throw_if (is_owner_route (policy_route (policy_input r))) (conflict needs_owner_approval)

-- `assertRequestOpenForApproval`
unfoldable pub assert_open_for_approval : Request → Result (Unit {0})
assert_open_for_approval r = throw_if (is_closed r.status) (conflict request_is_closed)

-- What is known of a row on which execution is unlocked.
pub record IsUnlocked (r : Request) : Type 0 where
  pub not_pending : is_pending r.approval.status ≡ false
  pub not_rejected : is_rejected r.approval.status ≡ false
  pub no_estimate_outstanding : is_requested r.estimate.status ≡ false
  pub owner_not_asked : is_owner_route (policy_route (policy_input r)) ≡ false

pub assert_execution_unlocked-IsUnlocked :
    (r : Request) → assert_execution_unlocked r ≡ ok tt → IsUnlocked r
unfolding assert_execution_unlocked
assert_execution_unlocked-IsUnlocked r h = ground arith

pub assert_open_or_assigned-eq_ok :
    (r : Request) → assert_open_or_assigned r ≡ ok tt → is_open_or_assigned r.status ≡ true
unfolding assert_open_or_assigned
assert_open_or_assigned-eq_ok r h = ground arith
