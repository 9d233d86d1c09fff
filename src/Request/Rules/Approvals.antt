-- ===== src/Request/Rules/Approvals.antt =====
-- Who decides on an owner's approval, when, and what a decision leaves.
use towerdesk_backend_clean.Prelude.{
  ℕ, Bool, ◌≡◌, ◌≢◌, ◌↔◌, ◌⊎◌, ◌≤◌, inl, inr, true, false, Option, none, some, arith, Text, is_some,
  Option-cases,
}
use towerdesk_backend_clean.Request.Types.{ApprovalStatus, EstimateStatus, DecisionSource, Request}
use towerdesk_backend_clean.Result.{ok, is_ok}
use towerdesk_backend_clean.Request.Outcome.{Outcome}
use towerdesk_backend_clean.Request.Effects.{Result-cases}
use towerdesk_backend_clean.Request.Rules.Execution.{execution_unlocked_iff}
use towerdesk_backend_clean.Request.Steps.Guards.{is_closed, assert_execution_unlocked}
use towerdesk_backend_clean.Request.Steps.Approvals.{
  RequireDto, request_approval_now_step, mark_requested_step, override_step, owner_approve_step,
  owner_reject_step,
}

-- The deadline of the approval has passed.
abbrev pub IsPast : Option ℕ → ℕ → Type 0
IsPast deadline now = (d : ℕ) × (deadline ≡ some d) × (d ≤ now)

-- An override succeeds exactly on a pending approval, and a management override only once a deadline
-- was set and has passed; neither the flag of an emergency nor the status of the request is asked
-- for, and any other source, the owner's too, passes at any time.
pub override_allowed_iff :
    (source : DecisionSource) (reason : Text) (user now : ℕ) (r : Request)
    → (is_ok (override_step source reason user now r) ≡ true) ↔ (
        (r.approval.status ≡ ApprovalStatus.pending)
        × ((source ≢ DecisionSource.management_override) ⊎ IsPast r.approval.deadline_at now))
unfolding override_step
override_allowed_iff source reason user now r = (
  λ h. elim (Option-cases r.approval.deadline_at) [
    | inl e ↦ (ground arith, inl (ground arith))
    | inr (d, e) ↦ ground arith
  ],
  λ (p, s). elim s [ inl n ↦ ground arith | inr (d, e, b) ↦ ground arith ],
)

-- An approval can be asked for now exactly on a request with a unit that is not over, unless it is
-- pending and was asked for.
pub request_approval_now_allowed_iff :
    (dto : RequireDto) (user now : ℕ) (r : Request)
    → (is_ok (request_approval_now_step dto user now r) ≡ true) ↔ (
        (is_some r.unit_id ≡ true)
        × (is_closed r.status ≡ false)
        × ((r.approval.status ≢ ApprovalStatus.pending) ⊎ (r.approval.requested_at ≡ none)))
unfolding request_approval_now_step
request_approval_now_allowed_iff dto user now r = (ground arith, ground arith)

-- The owner is asked for an approval exactly while it is pending: a first time if it has not been
-- requested yet, and again if it has.
pub mark_requested_allowed_iff :
    (resend : Bool) (user now : ℕ) (r : Request)
    → (is_ok (mark_requested_step resend user now r) ≡ true)
      ↔ ((r.approval.status ≡ ApprovalStatus.pending) × (is_some r.approval.requested_at ≡ resend))
unfolding mark_requested_step
mark_requested_allowed_iff resend user now r = (ground arith, ground arith)

owner_approve-unlocks :
    (owner decided : ℕ) (reason : Option Text) (r : Request) {p : Outcome}
    → owner_approve_step reason owner decided r ≡ ok p
    → r.estimate.status ≢ EstimateStatus.requested
    → assert_execution_unlocked p.request ≡ ok tt
unfolding owner_approve_step
owner_approve-unlocks owner decided reason r {p = p} h e =
    let approved : p.request.approval.status ≡ ApprovalStatus.approved = ground arith in
    let same : p.request.estimate.status ≡ r.estimate.status = ground arith in
    (execution_unlocked_iff p.request).1 (rw same e, inl approved)

owner_approve-pending :
    (owner decided : ℕ) (reason : Option Text) (r : Request)
    → r.approval.status ≡ ApprovalStatus.pending
    → (p : Outcome) × (owner_approve_step reason owner decided r ≡ ok p)
unfolding owner_approve_step
owner_approve-pending owner decided reason r h =
    elim (Result-cases (owner_approve_step reason owner decided r)) [
      | inl (e, f) ↦ absurd (ground arith)
      | inr found ↦ found
    ]

-- Once an owner's approval has been asked for, the owner can approve it, and with no estimate
-- outstanding execution is then unlocked.
pub approval_unlocks :
    (dto : RequireDto) (manager owner asked decided : ℕ) (reason : Option Text) (r : Request)
    {o : Outcome}
    → request_approval_now_step dto manager asked r ≡ ok o
    → r.estimate.status ≢ EstimateStatus.requested
    → (p : Outcome) × (owner_approve_step reason owner decided o.request ≡ ok p)
      × (assert_execution_unlocked p.request ≡ ok tt)
unfolding request_approval_now_step
approval_unlocks dto manager owner asked decided reason r {o = o} h e =
    let pending : o.request.approval.status ≡ ApprovalStatus.pending = ground arith in
    let same : o.request.estimate.status ≡ r.estimate.status = ground arith in
    let (p, k) = owner_approve-pending owner decided reason o.request pending in
    (p, k, owner_approve-unlocks owner decided reason o.request k (rw same e))

-- An owner who rejects locks execution, whatever the policy says of the request.
pub rejection_locks :
    (reason : Text) (owner now : ℕ) (r : Request) {o : Outcome}
    → owner_reject_step reason owner now r ≡ ok o
    → is_ok (assert_execution_unlocked o.request) ≡ false
unfolding owner_reject_step assert_execution_unlocked
rejection_locks reason owner now r h = ground arith
