-- ===== src/Request/Steps/Estimates.antt =====
-- Estimates: the transactions of `requestEstimateFromProvider` and `submitRequestEstimateInTx`.
use towerdesk_backend_clean.Prelude.{
  ℕ, ◌+◌, ◌*◌, Bool, true, false, not, ◌&&◌, Option, none, some, [], ◌∷◌, ◌++◌, if◌then◌else◌,
  is_some, is_true, or_else, or_option, Text, codes, trim, is_empty,
}
use towerdesk_backend_clean.Directory.{Directory}
use towerdesk_backend_clean.Request.Types.{
  Status, ApprovalStatus, EstimateStatus, Route, Request, Approval, Estimate, Triage, Amount,
  stored,
}
use towerdesk_backend_clean.Request.Policy.{
  PolicyInput, policy_route, is_pending, is_rejected, is_false, is_above_threshold,
}
use towerdesk_backend_clean.Result.{
  Result, ok, bad_request, conflict, approval_is_pending, not_awaiting_estimate,
  provider_not_found_or_inactive, provider_not_linked, throw_if, or_throw, ◌>>=◌, ◌>>◌,
}
use towerdesk_backend_clean.Request.Outcome.{Outcome, EventKind, silent}
use towerdesk_backend_clean.Request.Steps.Guards.{
  policy_input, is_owner_route, assert_open_or_assigned, assert_open_for_approval,
}
use towerdesk_backend_clean.Request.Steps.Execution.{announced, find_active_provider, is_linked}
use towerdesk_backend_clean.Request.Steps.Approvals.{
  TriageDto, build_triage, awaiting, required_audit, requested_audit, emit,
}

-- No approval is asked for, and nothing is left of an earlier one.
abbrev pub no_approval : Approval
no_approval = record {
  status = ApprovalStatus.not_required;
  requested_at = none;
  requested_by_user_id = none;
  deadline_at = none;
  decided_at = none;
  decided_by_owner_user_id = none;
  reason = none;
  required_reason = none;
  decision_source = none;
  override_reason = none;
  overridden_by_user_id = none;
}

abbrev is_needs_estimate : Route → Bool
is_needs_estimate Route.needs_estimate = true
is_needs_estimate _ = false

-- `buildEstimateDueAt`, with `MAINTENANCE_ESTIMATE_DEFAULT_TTL_HOURS`
abbrev estimate_due_at : ℕ → ℕ → ℕ
estimate_due_at ttl_hours now = now + ttl_hours * 60 * 60 * 1000

-- `requestEstimateFromProvider`
unfoldable pub request_estimate_step : Directory → ℕ → ℕ → ℕ → ℕ → ℕ → Request → Result Outcome
request_estimate_step dir building provider user ttl_hours now r = do
  assert_open_or_assigned r
  throw_if (is_pending r.approval.status) (conflict approval_is_pending)
  throw_if
      (not (is_needs_estimate (policy_route (policy_input r)))
        && not (is_rejected r.approval.status))
      (conflict not_awaiting_estimate)
  p ← or_throw (find_active_provider dir provider) (bad_request provider_not_found_or_inactive)
  throw_if (not (is_linked dir p.id building)) (bad_request provider_not_linked)
  ok (
      announced EventKind.assigned true (record r {
        assignment = record {
          assigned_to_user_id = none;
          service_provider_id = some p.id;
          service_provider_assigned_user_id = none;
          assigned_at = none;
        };
        estimate = record {
          status = EstimateStatus.requested;
          requested_at = some now;
          requested_by_user_id = some user;
          due_at = some (estimate_due_at ttl_hours now);
          reminder_sent_at = none;
          submitted_at = none;
          submitted_by_user_id = none;
        };
        approval = no_approval;
        triage = record r.triage { estimated_amount = none; estimated_currency = none };
        status = Status.opened;
      }))

-- `SubmitRequestEstimateDto`
pub record SubmitDto : Type 0 where
  pub triage : TriageDto
  pub approval_required_reason : Option Text
  pub owner_approval_deadline_at : Option ℕ

abbrev exceeds_threshold : Option Amount → Bool
exceeds_threshold none = false
exceeds_threshold (some amount) = is_above_threshold amount

-- `buildAutomaticApprovalReason`
automatic_reason : TriageDto → Text
automatic_reason dto =
    if is_true (or_else dto.is_upgrade none)
    then codes "Estimate indicates upgrade or alteration requiring owner approval"
    else if is_true (or_else dto.is_major_replacement none)
    then codes "Estimate indicates major replacement requiring owner approval"
    else if is_true (or_else dto.is_responsibility_disputed none)
    then codes "Estimate indicates disputed responsibility requiring owner approval"
    else if is_false (or_else dto.is_like_for_like none)
    then codes "Estimate indicates non-like-for-like work requiring owner approval"
    else if exceeds_threshold dto.estimated_amount
    then codes "Estimate exceeds owner approval threshold"
    else codes "Estimate requires owner approval before execution"

-- The reason given, trimmed, or the automatic one where that is empty.
required_reason : SubmitDto → Text
unfolding automatic_reason trim
required_reason dto =
    let given = trim (or_else dto.approval_required_reason []) in
    if is_empty given then automatic_reason dto.triage else given

-- The triage that an estimate leaves; the currency defaults to AED.
unfoldable pub estimate_triage : TriageDto → Triage → Triage
unfolding build_triage
estimate_triage dto t = build_triage dto t (some (or_else t.estimated_currency (codes "AED")))

-- The row as the policy reads it once the estimate is in and before any approval, with the amount of
-- the payload as it is before it is stored.
unfoldable pub estimated_input : TriageDto → Request → PolicyInput
unfolding estimate_triage
estimated_input dto r = record (policy_input (record r { triage = estimate_triage dto r.triage })) {
  estimated_amount = or_option dto.estimated_amount (stored r.triage.estimated_amount);
  owner_approval_status = some ApprovalStatus.not_required;
  estimate_status = some EstimateStatus.submitted;
}

abbrev pub submitted_estimate : ℕ → ℕ → Estimate → Estimate
submitted_estimate user now e = record e {
  status = EstimateStatus.submitted;
  submitted_at = some now;
  submitted_by_user_id = some user;
  reminder_sent_at = none;
}

-- `submitRequestEstimateInTx` where the owner must approve.
unfoldable pub submit_for_approval : SubmitDto → ℕ → ℕ → Request → Outcome
unfolding estimate_triage required_reason
submit_for_approval dto user now r =
    let reason = required_reason dto in
    let had_requested = is_pending r.approval.status && is_some r.approval.requested_at in
    record {
      request = record r {
        triage = estimate_triage dto.triage r.triage;
        estimate = submitted_estimate user now r.estimate;
        approval =
            awaiting reason (if had_requested then r.approval.requested_at else some now)
              (if had_requested
                then some (or_else r.approval.requested_by_user_id user)
                else some user)
              (or_option dto.owner_approval_deadline_at r.approval.deadline_at);
      };
      audits =
          required_audit r.approval.status reason
          ++ (if had_requested then [] else requested_audit reason ∷ []);
      emissions = if had_requested then [] else emit EventKind.owner_approval_requested;
    }

-- `submitRequestEstimateInTx`
unfoldable pub submit_estimate_step : SubmitDto → ℕ → ℕ → Request → Result Outcome
unfolding submit_for_approval estimate_triage estimated_input assert_open_for_approval
submit_estimate_step dto user now r = do
  assert_open_for_approval r
  ok (
      if is_owner_route (policy_route (estimated_input dto.triage r)) && is_some r.unit_id
      then submit_for_approval dto user now r
      else silent (record r {
        triage = estimate_triage dto.triage r.triage;
        estimate = submitted_estimate user now r.estimate;
        approval = no_approval;
      }))
