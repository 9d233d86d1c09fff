-- ===== src/Request/Rules/Estimates.antt =====
-- What an estimate does to the owner's approval.
use towerdesk_backend_clean.Prelude.{
  ℕ, ◌≡◌, ◌⊎◌, ◌↔◌, Bool, or_option, ◌&&◌, ap, sym, subst, ◌∙◌, Option, inl, inr, find, ◌==◌,
  Option-cases, Bool-cases, refl, true, false, none, some, arith, is_some,
}
use towerdesk_backend_clean.Directory.{ServiceProvider, Directory}
use towerdesk_backend_clean.Request.Types.{
  Status, ApprovalStatus, EstimateStatus, Route, Request, Amount, stored,
}
use towerdesk_backend_clean.Result.{ok, is_ok}
use towerdesk_backend_clean.Request.Outcome.{silent, Outcome}
use towerdesk_backend_clean.Request.Policy.{PolicyInput, policy_route, is_emergency_indicated}
use towerdesk_backend_clean.Request.Operations.Finding.{find-listed}
use towerdesk_backend_clean.Request.Steps.Execution.{find_active_provider}
use towerdesk_backend_clean.Request.Policy.Routes.{
  owner_approval_required_iff, IsOwnerScope, emergency-approval,
}
use towerdesk_backend_clean.Request.Steps.Guards.{
  policy_input, is_owner_route, assert_execution_unlocked,
}
use towerdesk_backend_clean.Request.Steps.Approvals.{next_amount}
use towerdesk_backend_clean.Request.Steps.Estimates.{
  estimate_triage, submit_for_approval, submitted_estimate, no_approval, estimated_input, SubmitDto,
  request_estimate_step, submit_estimate_step,
}

-- A row as the policy reads it, but with the amount of the estimate before it is rounded.
abbrev pub before_rounding : SubmitDto → Request → PolicyInput
before_rounding dto r = record (policy_input r) {
  estimated_amount = or_option dto.triage.estimated_amount (stored r.triage.estimated_amount);
}

-- The row that was written differs from what the policy read by the status of the approval.
abbrev IsReadAs : SubmitDto → Request → Request → Type 0
IsReadAs dto r written =
    record (before_rounding dto written) {
      owner_approval_status = some ApprovalStatus.not_required;
    }
    ≡ estimated_input dto.triage r

abbrev asks_owner : SubmitDto → Request → Bool
asks_owner dto r = is_owner_route (policy_route (estimated_input dto.triage r)) && is_some r.unit_id

or_option-next_amount :
    (a : Option Amount) (before : Option ℕ)
    → or_option a (stored (next_amount a before)) ≡ or_option a (stored before)
or_option-next_amount none before = refl
or_option-next_amount (some a) before = refl

module _ (dto : SubmitDto) (user now : ℕ) (r : Request) where
  written_without_approval :
      {o : Outcome}
      → submit_estimate_step dto user now r ≡ ok o
      → asks_owner dto r ≡ false
      → (o.request.approval ≡ no_approval)
        × (o.request.estimate.status ≡ EstimateStatus.submitted)
        × (o.request.unit_id ≡ r.unit_id)
        × IsReadAs dto r o.request
  unfolding submit_estimate_step estimated_input
  written_without_approval {o = o} h e =
      let left : o
          ≡ silent (record r {
            triage = estimate_triage dto.triage r.triage;
            estimate = submitted_estimate user now r.estimate;
            approval = no_approval;
          }) =
        ground arith in
      rw left (
        refl,
        refl,
        refl,
        ap (λ x. record (estimated_input dto.triage r) { estimated_amount = x })
            (or_option-next_amount dto.triage.estimated_amount r.triage.estimated_amount),
      )

  written_for_approval :
      {o : Outcome}
      → submit_estimate_step dto user now r ≡ ok o
      → asks_owner dto r ≡ true
      → (o.request.approval.status ≡ ApprovalStatus.pending)
        × (o.request.approval.decided_at ≡ none)
        × (o.request.estimate.status ≡ EstimateStatus.submitted)
        × (o.request.unit_id ≡ r.unit_id)
        × IsReadAs dto r o.request
  unfolding submit_estimate_step estimated_input submit_for_approval
  written_for_approval {o = o} h e =
      let left : o ≡ submit_for_approval dto user now r = ground arith in
      rw left (
        refl,
        refl,
        refl,
        refl,
        ap (λ x. record (estimated_input dto.triage r) { estimated_amount = x })
            (or_option-next_amount dto.triage.estimated_amount r.triage.estimated_amount),
      )

  asks_owner_iff : (asks_owner dto r ≡ true) ↔ (
      (is_some r.unit_id ≡ true)
      × (is_emergency_indicated (estimated_input dto.triage r) ≡ false)
      × IsOwnerScope (estimated_input dto.triage r))
  unfolding estimated_input
  asks_owner_iff =
      let (asks, asked) = owner_approval_required_iff (estimated_input dto.triage r) in
      (
        λ e.
            let owner : policy_route (estimated_input dto.triage r)
                ≡ Route.owner_approval_required =
              ground arith in
            elim (asks owner).1 [
              | inl p ↦ absurd (cc)
              | inr (inl p) ↦ absurd (cc)
              | inr (inr (n, q, s)) ↦ (ground arith, q, s)
            ],
        λ (u, q, s). let owner = asked (λ p. cc, inr (inr (refl, q, s))) in rw (owner, u) refl,
      )

  -- The row that was written answers the same.
  written_asks_iff :
      (w : Request)
      → IsReadAs dto r w
      → w.unit_id ≡ r.unit_id
      → (asks_owner dto r ≡ true) ↔ (
          (is_some w.unit_id ≡ true)
          × (is_emergency_indicated (before_rounding dto w) ≡ false)
          × IsOwnerScope (before_rounding dto w))
  written_asks_iff w same unit =
      let (asks, asked) = asks_owner_iff in
      let read =
        sym (emergency-approval (before_rounding dto w) (some ApprovalStatus.not_required))
        ∙ ap is_emergency_indicated same in
      (
        λ e. let (u, q, s) = asks e in (rw unit u, read ∙ q, subst IsOwnerScope (sym same) s),
        λ (u, q, s). asked (rw (← unit) u, sym read ∙ q, subst IsOwnerScope same s),
      )

-- Once an estimate is in, the approval is either pending or not required, and undecided: a decision
-- that the owner had made is gone. It is pending exactly when the request has a unit, nothing
-- indicates an emergency, and the scope of the row that was written is the owner's to decide, where
-- the amount counts as the estimate gives it, before it is rounded to hundredths.
pub submit_estimate-approval :
    (dto : SubmitDto) (user now : ℕ) (r : Request) {o : Outcome}
    → submit_estimate_step dto user now r ≡ ok o
    → (o.request.estimate.status ≡ EstimateStatus.submitted)
      × (o.request.approval.decided_at ≡ none)
      × ((o.request.approval.status ≡ ApprovalStatus.pending)
          ⊎ (o.request.approval.status ≡ ApprovalStatus.not_required))
      × ((o.request.approval.status ≡ ApprovalStatus.pending) ↔ (
          (is_some o.request.unit_id ≡ true)
          × (is_emergency_indicated (before_rounding dto o.request) ≡ false)
          × IsOwnerScope (before_rounding dto o.request)))
submit_estimate-approval dto user now r {o = o} h = elim (Bool-cases (asks_owner dto r)) [
  | inl e ↦
      let (p, d, s, u, same) = written_for_approval dto user now r h e in
      (s, d, inl p, (λ _. (written_asks_iff dto user now r o.request same u).0 e, λ _. p))
  | inr e ↦
      let (a, s, u, same) = written_without_approval dto user now r h e in
      (
        s,
        rw a refl,
        inr (rw a refl),
        (
          λ p. absurd (cc),
          λ c. let asked = (written_asks_iff dto user now r o.request same u).1 c in absurd (cc),
        ),
      )
]

find_active_provider-id :
    (dir : Directory) (provider : ℕ) {p : ServiceProvider}
    → find_active_provider dir provider ≡ some p
    → p.id ≡ provider
unfolding find_active_provider
find_active_provider-id dir provider {p = p} h =
    elim (Option-cases (find (λ x. x.id == provider) dir.providers)) [
      | inl e ↦ absurd (cc)
      | inr (x, e) ↦
          let (_, same) = find-listed (λ y. y.id == provider) dir.providers e in ground arith
    ]

-- Asking a provider for an estimate leaves the request open with that provider, with no approval
-- recorded and execution locked.
pub estimate_locks :
    (dir : Directory) (building provider user ttl now : ℕ) (r : Request) {o : Outcome}
    → request_estimate_step dir building provider user ttl now r ≡ ok o
    → (o.request.status ≡ Status.opened)
      × (o.request.approval.status ≡ ApprovalStatus.not_required)
      × (o.request.assignment.service_provider_id ≡ some provider)
      × (is_ok (assert_execution_unlocked o.request) ≡ false)
unfolding request_estimate_step assert_execution_unlocked
estimate_locks dir building provider user ttl now r h =
    elim (Option-cases (find_active_provider dir provider)) [
      | inl e ↦ absurd (ground arith)
      | inr (p, e) ↦ let same = find_active_provider-id dir provider e in ground arith
    ]
