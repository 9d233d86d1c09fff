-- ===== src/Request/Policy/Routes.antt =====
-- When the policy asks the owner, and when it dispatches at once.
use towerdesk_backend_clean.Prelude.{
  refl, Option, ◌<◌, ◌≡◌, ◌≢◌, ◌↔◌, ◌⊎◌, inl, inr, true, false, some, arith,
}
use towerdesk_backend_clean.Request.Types.{
  Status, ApprovalStatus, EstimateStatus, Route, Rest, Amount,
}
use towerdesk_backend_clean.Request.Policy.{
  PolicyInput, infer_emergency_from_intake, infer_direct_assign_from_intake, policy_route,
  approval_of, estimate_of, is_emergency_indicated, approval_threshold, is_above_threshold,
}

-- The scope of the work is the owner's to decide: an upgrade, a major replacement, a disputed
-- responsibility, no like-for-like repair, or an amount above the threshold.
abbrev pub IsOwnerScope : PolicyInput → Type 0
IsOwnerScope i =
    (i.is_upgrade ≡ some true)
    ⊎ (i.is_major_replacement ≡ some true)
    ⊎ (i.is_responsibility_disputed ≡ some true)
    ⊎ (i.is_like_for_like ≡ some false)
    ⊎ ((a : Amount) × (i.estimated_amount ≡ some a)
        × ((approval_threshold < a.hundredths)
            ⊎ ((a.hundredths ≡ approval_threshold) × (a.rest ≢ Rest.nothing))))

IsTestedScope : PolicyInput → Type 0
IsTestedScope i =
    (i.is_upgrade ≡ some true)
    ⊎ (i.is_major_replacement ≡ some true)
    ⊎ (i.is_responsibility_disputed ≡ some true)
    ⊎ (i.is_like_for_like ≡ some false)
    ⊎ ((a : Amount) × (i.estimated_amount ≡ some a) × (is_above_threshold a ≡ true))

above_iff :
    (a : Amount)
    → (is_above_threshold a ≡ true) ↔ (
        (approval_threshold < a.hundredths)
        ⊎ ((a.hundredths ≡ approval_threshold) × (a.rest ≢ Rest.nothing)))
unfolding is_above_threshold
above_iff a = (ground arith, ground arith)

-- The same scope, with the test of the amount as the code makes it.
IsOwnerScope-tested : (i : PolicyInput) → IsOwnerScope i ↔ IsTestedScope i
unfolding IsTestedScope
IsOwnerScope-tested i = (
  λ s. elim s [
    | inl p ↦ inl p
    | inr (inl p) ↦ inr (inl p)
    | inr (inr (inl p)) ↦ inr (inr (inl p))
    | inr (inr (inr (inl p))) ↦ inr (inr (inr (inl p)))
    | inr (inr (inr (inr (a, e, p)))) ↦ inr (inr (inr (inr (a, e, (above_iff a).1 p))))
  ],
  λ s. elim s [
    | inl p ↦ inl p
    | inr (inl p) ↦ inr (inl p)
    | inr (inr (inl p)) ↦ inr (inr (inl p))
    | inr (inr (inr (inl p))) ↦ inr (inr (inr (inl p)))
    | inr (inr (inr (inr (a, e, p)))) ↦ inr (inr (inr (inr (a, e, (above_iff a).0 p))))
  ],
)

route_tested_iff :
    (i : PolicyInput)
    → (policy_route i ≡ Route.owner_approval_required) ↔ (
        (estimate_of i ≢ EstimateStatus.requested)
        × ((approval_of i ≡ ApprovalStatus.pending)
            ⊎ (approval_of i ≡ ApprovalStatus.rejected)
            ⊎ ((approval_of i ≡ ApprovalStatus.not_required)
                × (is_emergency_indicated i ≡ false)
                × IsTestedScope i)))
unfolding policy_route IsTestedScope
route_tested_iff i = (ground arith, ground arith)

-- The route asks for the owner's approval exactly when no estimate is outstanding and either the
-- approval is pending or rejected, or none is recorded, nothing indicates an emergency and the
-- scope is the owner's to decide.
pub owner_approval_required_iff :
    (i : PolicyInput)
    → (policy_route i ≡ Route.owner_approval_required) ↔ (
        (estimate_of i ≢ EstimateStatus.requested)
        × ((approval_of i ≡ ApprovalStatus.pending)
            ⊎ (approval_of i ≡ ApprovalStatus.rejected)
            ⊎ ((approval_of i ≡ ApprovalStatus.not_required)
                × (is_emergency_indicated i ≡ false)
                × IsOwnerScope i)))
owner_approval_required_iff i =
    let (asks, asked) = route_tested_iff i in
    (
      λ e. (
        (asks e).0,
        elim (asks e).1 [
          | inl p ↦ inl p
          | inr (inl p) ↦ inr (inl p)
          | inr (inr (n, q, s)) ↦ inr (inr (n, q, (IsOwnerScope-tested i).1 s))
        ],
      ),
      λ (e, f). asked (
        e,
        elim f [
          | inl p ↦ inl p
          | inr (inl p) ↦ inr (inl p)
          | inr (inr (n, q, s)) ↦ inr (inr (n, q, (IsOwnerScope-tested i).0 s))
        ],
      ),
    )

-- A request is dispatched as an emergency exactly when no estimate is outstanding, the owner's
-- approval is neither pending nor rejected, and the flag, a signal or the intake text indicates
-- an emergency: no scope and no amount holds it back.
pub emergency_dispatch_iff :
    (i : PolicyInput)
    → (policy_route i ≡ Route.emergency_dispatch) ↔ (
        (estimate_of i ≢ EstimateStatus.requested)
        × (approval_of i ≢ ApprovalStatus.pending)
        × (approval_of i ≢ ApprovalStatus.rejected)
        × (is_emergency_indicated i ≡ true))
unfolding policy_route
emergency_dispatch_iff i = (ground arith, ground arith)

-- The route does not read the status of the request.
pub policy_route-status :
    (i : PolicyInput) (s : Option Status) → policy_route (record i { status = s }) ≡ policy_route i
unfolding policy_route infer_emergency_from_intake infer_direct_assign_from_intake
policy_route-status i s = refl

-- Nor does the test for an emergency read the approval.
pub emergency-approval :
    (i : PolicyInput) (s : Option ApprovalStatus)
    → is_emergency_indicated (record i { owner_approval_status = s }) ≡ is_emergency_indicated i
unfolding infer_emergency_from_intake
emergency-approval i s = refl
