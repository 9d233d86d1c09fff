-- ===== src/Request/Tests/Policy.antt =====
-- The policy and its queues on the example.
use towerdesk_backend_clean.Prelude.{◌≡◌, ◌≢◌, ◌↔◌, ◌⊎◌, refl, true, false, none, some}
use towerdesk_backend_clean.Request.Types.{
  Status, ApprovalStatus, EstimateStatus, Route, Queue, Request,
}
use towerdesk_backend_clean.Request.Policy.{
  policy_route, is_emergency_indicated, primary_queue, matches_queue, is_overdue, approval_of,
  estimate_of,
}
use towerdesk_backend_clean.Request.Policy.Routes.{
  policy_route-status, IsOwnerScope, owner_approval_required_iff, emergency_dispatch_iff,
}
use towerdesk_backend_clean.Request.Policy.Queues.{
  matches-primary_queue, primary_queue-none_iff_unmatched, primary_queue-none_iff,
}
use towerdesk_backend_clean.Request.Steps.Guards.{policy_input}
use towerdesk_backend_clean.Request.Steps.Residents.{new_request}
use towerdesk_backend_clean.Request.Examples.{first_occupancy, new_door}

-- An emergency as it is created.
abbrev leak : Request
leak = record (new_request 1 10 2 1000 first_occupancy new_door) {
  triage = record (new_request 1 10 2 1000 first_occupancy new_door).triage { is_emergency = true };
}

owner_approval_required_iff_example :
    (policy_route (policy_input leak) ≡ Route.owner_approval_required) ↔ (
      (estimate_of (policy_input leak) ≢ EstimateStatus.requested)
      × ((approval_of (policy_input leak) ≡ ApprovalStatus.pending)
          ⊎ (approval_of (policy_input leak) ≡ ApprovalStatus.rejected)
          ⊎ ((approval_of (policy_input leak) ≡ ApprovalStatus.not_required)
              × (is_emergency_indicated (policy_input leak) ≡ false)
              × IsOwnerScope (policy_input leak))))
owner_approval_required_iff_example = owner_approval_required_iff (policy_input leak)

emergency_dispatch_iff_example : (policy_route (policy_input leak) ≡ Route.emergency_dispatch) ↔ (
    (estimate_of (policy_input leak) ≢ EstimateStatus.requested)
    × (approval_of (policy_input leak) ≢ ApprovalStatus.pending)
    × (approval_of (policy_input leak) ≢ ApprovalStatus.rejected)
    × (is_emergency_indicated (policy_input leak) ≡ true))
emergency_dispatch_iff_example = emergency_dispatch_iff (policy_input leak)

policy_route-status_example :
    policy_route (record (policy_input leak) { status = some Status.completed })
    ≡ policy_route (policy_input leak)
policy_route-status_example = policy_route-status (policy_input leak) (some Status.completed)

leak-queue : primary_queue (policy_input leak) 2000 ≡ some Queue.ready_to_assign
unfolding primary_queue matches_queue is_overdue policy_route new_request
leak-queue = refl

matches-primary_queue_example : matches_queue Queue.ready_to_assign (policy_input leak) 2000 ≡ true
matches-primary_queue_example =
    matches-primary_queue (policy_input leak) 2000 Queue.ready_to_assign leak-queue

primary_queue-none_iff_unmatched_example :
    (primary_queue (policy_input leak) 2000 ≡ none)
    ↔ ((q : Queue) → matches_queue q (policy_input leak) 2000 ≡ false)
primary_queue-none_iff_unmatched_example = primary_queue-none_iff_unmatched (policy_input leak) 2000

leak-status : (policy_input leak).status ≡ some Status.opened
unfolding new_request
leak-status = refl

primary_queue-none_iff_example : (primary_queue (policy_input leak) 2000 ≡ none) ↔ (
    (is_overdue (policy_input leak) 2000 ≡ false)
    × ((((Status.opened ≡ Status.completed) ⊎ (Status.opened ≡ Status.canceled))
          × (approval_of (policy_input leak) ≢ ApprovalStatus.pending)
          × ((approval_of (policy_input leak) ≢ ApprovalStatus.not_required)
              ⊎ (estimate_of (policy_input leak) ≢ EstimateStatus.requested)))
        ⊎ ((Status.opened ≡ Status.opened)
            × ((approval_of (policy_input leak) ≡ ApprovalStatus.rejected)
                ⊎ ((approval_of (policy_input leak) ≡ ApprovalStatus.approved)
                    × (estimate_of (policy_input leak) ≡ EstimateStatus.requested))))))
primary_queue-none_iff_example = primary_queue-none_iff (policy_input leak) 2000 leak-status
