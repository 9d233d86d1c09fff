-- ===== src/Request/Policy/Queues.antt =====
-- The primary queue is the first that matches, and which requests no queue shows.
use towerdesk_backend_clean.Prelude.{ℕ, ◌≡◌, ◌≢◌, ◌↔◌, ◌⊎◌, true, false, none, some, arith}
use towerdesk_backend_clean.Request.Types.{Status, ApprovalStatus, EstimateStatus, Queue}
use towerdesk_backend_clean.Request.Policy.{
  PolicyInput, policy_route, approval_of, estimate_of, is_overdue, matches_queue, primary_queue,
}

-- The primary queue of a request is a queue that matches it.
pub matches-primary_queue :
    (i : PolicyInput) (now : ℕ) (q : Queue)
    → primary_queue i now ≡ some q
    → matches_queue q i now ≡ true
unfolding primary_queue
matches-primary_queue i now Queue.new e = ground arith
matches-primary_queue i now _ e = ground arith

unmatched :
    (i : PolicyInput) (now : ℕ) (q : Queue)
    → primary_queue i now ≡ none
    → matches_queue q i now ≡ false
unfolding primary_queue
unmatched i now Queue.new e = ground arith
unmatched i now _ e = ground arith

-- A request has no primary queue exactly when no queue matches it.
pub primary_queue-none_iff_unmatched :
    (i : PolicyInput) (now : ℕ)
    → (primary_queue i now ≡ none) ↔ ((q : Queue) → matches_queue q i now ≡ false)
unfolding primary_queue
primary_queue-none_iff_unmatched i now = (
  λ e q. unmatched i now q e,
  λ h. simp (
    h Queue.overdue,
    h Queue.awaiting_owner,
    h Queue.awaiting_estimate,
    h Queue.needs_estimate,
    h Queue.in_progress,
    h Queue.assigned,
    h Queue.ready_to_assign,
    h Queue.new,
  ),
)

-- A stored request is in no queue exactly when it is not overdue and either it is closed, with no
-- approval pending and no estimate outstanding before approval, or it is open and rejected by the
-- owner, or approved while its estimate is still outstanding.
pub primary_queue-none_iff :
    (i : PolicyInput) (now : ℕ) {s : Status}
    → i.status ≡ some s
    → (primary_queue i now ≡ none) ↔ (
        (is_overdue i now ≡ false)
        × ((((s ≡ Status.completed) ⊎ (s ≡ Status.canceled))
              × (approval_of i ≢ ApprovalStatus.pending)
              × ((approval_of i ≢ ApprovalStatus.not_required)
                  ⊎ (estimate_of i ≢ EstimateStatus.requested)))
            ⊎ ((s ≡ Status.opened)
                × ((approval_of i ≡ ApprovalStatus.rejected)
                    ⊎ ((approval_of i ≡ ApprovalStatus.approved)
                        × (estimate_of i ≡ EstimateStatus.requested))))))
unfolding primary_queue matches_queue policy_route
primary_queue-none_iff i now e = (ground arith, ground arith)
