-- ===== src/Request/Rules/Execution.antt =====
-- When work on a request may go on: `assertExecutionUnlocked`, `updateRequestStatus`,
-- `updateProviderRequestStatus`, `unassignProvider` and the cancellations.
use towerdesk_backend_clean.Prelude.{
  ℕ, ◌≡◌, ◌≢◌, ◌↔◌, ◌⊎◌, inl, inr, Bool-cases, Option-cases, refl, true, false, some, arith, has,
}
use towerdesk_backend_clean.Access.{BuildingAccess, ProviderAccess}
use towerdesk_backend_clean.Request.Types.{Status, ApprovalStatus, EstimateStatus, Route, Request}
use towerdesk_backend_clean.Result.{ok, is_ok}
use towerdesk_backend_clean.Request.Outcome.{Outcome}
use towerdesk_backend_clean.Request.Policy.{
  PolicyInput, approval_of, estimate_of, is_emergency_indicated, policy_route,
}
use towerdesk_backend_clean.Request.Policy.Routes.{owner_approval_required_iff, IsOwnerScope}
use towerdesk_backend_clean.Request.Steps.Guards.{
  policy_input, assert_execution_unlocked, assert_execution_unlocked-IsUnlocked,
}
use towerdesk_backend_clean.Request.Steps.Lifecycle.{
  is_transition, update_status_step, assert_provider_write_access, update_provider_status_step,
  unassign_step,
}

-- The emergency and the scope decide only while no approval is recorded.
IsFree : PolicyInput → Type 0
IsFree i =
    (approval_of i ≡ ApprovalStatus.approved)
    ⊎ ((approval_of i ≡ ApprovalStatus.not_required)
        × ((is_emergency_indicated i ≡ true) ⊎ (¬ (IsOwnerScope i))))

IsFree-if :
    (i : PolicyInput)
    → estimate_of i ≢ EstimateStatus.requested
    → approval_of i ≢ ApprovalStatus.pending
    → approval_of i ≢ ApprovalStatus.rejected
    → policy_route i ≢ Route.owner_approval_required
    → IsFree i
unfolding IsFree
IsFree-if i e p j n = elim (Bool-cases (is_emergency_indicated i)) [
  | inl t ↦ ground arith
  | inr f ↦
      elim (approval_of i) as (λ a. approval_of i ≡ a → IsFree i) [
        | ApprovalStatus.not_required ↦ λ a.
            inr
              (a, inr (λ scope. n ((owner_approval_required_iff i).1 (e, inr (inr (a, f, scope))))))
        | ApprovalStatus.pending ↦ λ a. absurd (p a)
        | ApprovalStatus.approved ↦ λ a. inl a
        | ApprovalStatus.rejected ↦ λ a. absurd (j a)
      ]
        refl
]

IsFree-only_if : (i : PolicyInput) → IsFree i → policy_route i ≢ Route.owner_approval_required
unfolding IsFree
IsFree-only_if i (inl a) o = elim ((owner_approval_required_iff i).0 o).1 [
  | inl b ↦ absurd (cc)
  | inr (inl b) ↦ absurd (cc)
  | inr (inr b) ↦ absurd (cc (b.0, a))
]
IsFree-only_if i (inr (a, b)) o = elim ((owner_approval_required_iff i).0 o).1 [
  | inl c ↦ absurd (cc)
  | inr (inl c) ↦ absurd (cc)
  | inr (inr (c, f, scope)) ↦ elim b [ inl t ↦ absurd (cc) | inr none_of ↦ none_of scope ]
]

unlocked_parts :
    (r : Request)
    → (assert_execution_unlocked r ≡ ok tt) ↔ (
        (r.estimate.status ≢ EstimateStatus.requested)
        × (r.approval.status ≢ ApprovalStatus.pending)
        × (r.approval.status ≢ ApprovalStatus.rejected)
        × (policy_route (policy_input r) ≢ Route.owner_approval_required))
unfolding assert_execution_unlocked
unlocked_parts r = (ground arith, ground arith)

-- Execution is unlocked exactly when no estimate is outstanding and the owner has approved, or no
-- approval is recorded and either an emergency is indicated or the scope is not the owner's to
-- decide.
pub execution_unlocked_iff :
    (r : Request)
    → (assert_execution_unlocked r ≡ ok tt) ↔ (
        (r.estimate.status ≢ EstimateStatus.requested)
        × ((r.approval.status ≡ ApprovalStatus.approved)
            ⊎ ((r.approval.status ≡ ApprovalStatus.not_required)
                × ((is_emergency_indicated (policy_input r) ≡ true)
                    ⊎ (¬ (IsOwnerScope (policy_input r)))))))
unfolding IsFree
execution_unlocked_iff r = (
  λ h. let (e, p, j, n) = (unlocked_parts r).0 h in (e, IsFree-if (policy_input r) e p j n),
  λ h.
      let n = IsFree-only_if (policy_input r) h.1 in
      (unlocked_parts r).1 (h.0, ground arith, ground arith, n),
)

-- A step of the building's staff or management to a status succeeds exactly when the diagram has the
-- transition, execution is unlocked, and a caller who is only staff is the assignee.
pub update_status_allowed_iff :
    (access : BuildingAccess) (user : ℕ) (to : Status) (now : ℕ) (r : Request)
    → (is_ok (update_status_step access user to now r) ≡ true) ↔ (
        (is_transition r.status to ≡ true)
        × (assert_execution_unlocked r ≡ ok tt)
        × ((access.is_building_staff_only ≡ false)
            ⊎ (r.assignment.assigned_to_user_id ≡ some user)))
unfolding update_status_step
update_status_allowed_iff access user to now r = (ground arith, ground arith)

-- The caller manages the provider of the request or is its worker.
abbrev pub IsWriter : ProviderAccess → ℕ → Request → Type 0
IsWriter access user r =
    (p : ℕ) × (r.assignment.service_provider_id ≡ some p)
    × ((has access.manager_provider_ids p ≡ true)
        ⊎ (r.assignment.service_provider_assigned_user_id ≡ some user))

write_access_iff :
    (access : ProviderAccess) (user : ℕ) (r : Request)
    → (assert_provider_write_access access user r ≡ ok tt) ↔ IsWriter access user r
unfolding assert_provider_write_access
write_access_iff access user r = (
  λ h. elim (Option-cases r.assignment.service_provider_id) [
    | inl e ↦ absurd (cc)
    | inr (p, e) ↦ (p, e, ground arith)
  ],
  λ (p, e, w). ground arith,
)

-- A step of a provider to a status succeeds exactly when the diagram has the transition, execution
-- is unlocked, and the caller manages the provider of the request or is its worker.
pub update_provider_status_allowed_iff :
    (access : ProviderAccess) (user : ℕ) (to : Status) (now : ℕ) (r : Request)
    → (is_ok (update_provider_status_step access user to now r) ≡ true) ↔ (
        (is_transition r.status to ≡ true)
        × (assert_execution_unlocked r ≡ ok tt)
        × IsWriter access user r)
unfolding update_provider_status_step
update_provider_status_allowed_iff access user to now r = (
  λ h. (ground arith, ground arith, (write_access_iff access user r).0 (ground arith)),
  λ (t, u, w). let writer = (write_access_iff access user r).1 w in ground arith,
)

-- Unassigning a provider never changes the estimate or the triage: where an estimate is outstanding
-- it fails, so that the branch for an outstanding estimate is never reached.
pub unassign-estimate :
    (r : Request) {o : Outcome}
    → unassign_step r ≡ ok o
    → (r.estimate.status ≢ EstimateStatus.requested)
      × (o.request.estimate ≡ r.estimate)
      × (o.request.triage ≡ r.triage)
unfolding unassign_step
unassign-estimate r h = ground (arith, assert_execution_unlocked-IsUnlocked r)
