-- ===== src/Request/Steps/Approvals.antt =====
-- The owner's approval: the transactions of `requireOwnerApproval`, `requestOwnerApprovalNow`,
-- `markOwnerApprovalRequested`, `updateRequestPolicyTriage` and `overrideOwnerApproval`, and of
-- `approveAccessibleRequest` and `rejectAccessibleRequest` of owner-portfolio-scope.service.ts.
use towerdesk_backend_clean.Prelude.{
  ℕ, ◌-◌, Bool, true, false, not, ◌&&◌, ◌||◌, Option, none, some, List, [], ◌∷◌, ◌++◌, map,
  if◌then◌else◌, is_some, or_else, or_option, ltb, leb, Text, trim,
}
use towerdesk_backend_clean.Request.Types.{
  ApprovalStatus, DecisionSource, AuditAction, Request, Approval, Triage, Amount, rounded,
}
use towerdesk_backend_clean.Request.Policy.{is_pending}
use towerdesk_backend_clean.Result.{
  Result, ok, conflict, not_found, request_has_no_unit, approval_already_requested,
  approval_not_pending, approval_not_requested_yet, only_pending_overridden, deadline_not_expired,
  request_not_found, throw_if, ◌>>◌,
}
use towerdesk_backend_clean.Request.Outcome.{Outcome, AuditEntry, Emission, EventKind, silent}
use towerdesk_backend_clean.Request.Steps.Guards.{assert_open_for_approval}

-- `RequestPolicyTriageFieldsDto`. A flag that the row may keep as `null` is none where the payload
-- does not have it, and `some none` where it has it as `null`, which clears the flag of the row. A
-- `null` for the amount, the currency or the emergency makes the call fail, and is left out.
pub record TriageDto : Type 0 where
  pub estimated_amount : Option Amount
  pub estimated_currency : Option Text
  pub is_emergency : Option Bool
  pub is_like_for_like : Option (Option Bool)
  pub is_upgrade : Option (Option Bool)
  pub is_major_replacement : Option (Option Bool)
  pub is_responsibility_disputed : Option (Option Bool)

-- `RequireOwnerApprovalDto`
pub record RequireDto : Type 0 where
  pub triage : TriageDto
  pub approval_required_reason : Text
  pub owner_approval_deadline_at : Option ℕ

upper_unit : ℕ → ℕ
upper_unit c = if leb 97 c && leb c 122 then c - 32 else c

-- The currency, trimmed and in upper case; a letter outside ASCII is left as it is.
normalize_currency : Text → Text
unfolding upper_unit trim
normalize_currency c = map upper_unit (trim c)

-- The amount that the row keeps.
abbrev pub next_amount : Option Amount → Option ℕ → Option ℕ
next_amount (some a) before = some (rounded a)
next_amount none before = before

-- `buildPolicyTriageUpdateData`
unfoldable pub build_triage : TriageDto → Triage → Option Text → Triage
unfolding normalize_currency
build_triage dto t default_currency = record {
  estimated_amount = next_amount dto.estimated_amount t.estimated_amount;
  estimated_currency = elim dto.estimated_currency [
    | some c ↦ some (normalize_currency c)
    | none ↦
        if is_some dto.estimated_amount
        then or_option t.estimated_currency default_currency
        else t.estimated_currency
  ];
  is_emergency = or_else dto.is_emergency t.is_emergency;
  is_like_for_like = or_else dto.is_like_for_like t.is_like_for_like;
  is_upgrade = or_else dto.is_upgrade t.is_upgrade;
  is_major_replacement = or_else dto.is_major_replacement t.is_major_replacement;
  is_responsibility_disputed = or_else dto.is_responsibility_disputed t.is_responsibility_disputed;
}

-- An approval that waits for a decision: every field of an earlier decision is cleared.
abbrev pub awaiting : Text → Option ℕ → Option ℕ → Option ℕ → Approval
awaiting required_reason requested_at requested_by deadline = record {
  status = ApprovalStatus.pending;
  requested_at = requested_at;
  requested_by_user_id = requested_by;
  deadline_at = deadline;
  decided_at = none;
  decided_by_owner_user_id = none;
  reason = none;
  required_reason = some required_reason;
  decision_source = none;
  override_reason = none;
  overridden_by_user_id = none;
}

-- An audit row without a decision.
abbrev pub noted : AuditAction → ApprovalStatus → ApprovalStatus → Option Text → AuditEntry
noted action from to reason = record {
  action = action;
  from_status = from;
  to_status = to;
  reason = reason;
  decision_source = none;
}

-- `requireOwnerApproval`
unfoldable pub require_approval_step : RequireDto → Request → Result Outcome
unfolding build_triage assert_open_for_approval
require_approval_step dto r = do
  throw_if (not (is_some r.unit_id)) (conflict request_has_no_unit)
  assert_open_for_approval r
  ok (record {
    request = record r {
      approval =
          awaiting dto.approval_required_reason none none
            (or_option dto.owner_approval_deadline_at r.approval.deadline_at);
      triage = build_triage dto.triage r.triage none;
    };
    audits =
        noted AuditAction.required r.approval.status ApprovalStatus.pending
          (some dto.approval_required_reason)
        ∷ [];
    emissions = [];
  })

-- The audit row REQUIRED, unless the approval was pending already.
abbrev pub required_audit : ApprovalStatus → Text → List AuditEntry
required_audit ApprovalStatus.pending reason = []
required_audit from reason =
    noted AuditAction.required from ApprovalStatus.pending (some reason) ∷ []

abbrev pub requested_audit : Text → AuditEntry
requested_audit reason =
    noted AuditAction.requested ApprovalStatus.pending ApprovalStatus.pending (some reason)

abbrev pub emit : EventKind → List Emission
emit kind = record { kind = kind; has_previous = false } ∷ []

-- `requestOwnerApprovalNow`
unfoldable pub request_approval_now_step : RequireDto → ℕ → ℕ → Request → Result Outcome
unfolding build_triage assert_open_for_approval
request_approval_now_step dto user now r = do
  throw_if (not (is_some r.unit_id)) (conflict request_has_no_unit)
  assert_open_for_approval r
  throw_if (is_pending r.approval.status && is_some r.approval.requested_at)
      (conflict approval_already_requested)
  ok (record {
    request = record r {
      approval =
          awaiting dto.approval_required_reason (some now) (some user)
            (or_option dto.owner_approval_deadline_at r.approval.deadline_at);
      triage = build_triage dto.triage r.triage none;
    };
    audits =
        required_audit r.approval.status dto.approval_required_reason
        ++ (requested_audit dto.approval_required_reason ∷ []);
    emissions = emit EventKind.owner_approval_requested;
  })

-- `requestOwnerApproval` and `resendOwnerApprovalRequest` differ in the audit action.
abbrev requested_action : Bool → AuditAction
requested_action false = AuditAction.requested
requested_action true = AuditAction.resent

abbrev requested_event : Bool → EventKind
requested_event false = EventKind.owner_approval_requested
requested_event true = EventKind.owner_approval_reminder

-- `markOwnerApprovalRequested`; the flag is `requiresExistingRequest`.
unfoldable pub mark_requested_step : Bool → ℕ → ℕ → Request → Result Outcome
mark_requested_step resend user now r = do
  throw_if (not (is_pending r.approval.status)) (conflict approval_not_pending)
  throw_if (resend && not (is_some r.approval.requested_at)) (conflict approval_not_requested_yet)
  throw_if (not resend && is_some r.approval.requested_at) (conflict approval_already_requested)
  ok (record {
    request = record r {
      approval = record r.approval { requested_at = some now; requested_by_user_id = some user };
    };
    audits =
        noted (requested_action resend) r.approval.status r.approval.status
          r.approval.required_reason
        ∷ [];
    emissions = emit (requested_event resend);
  })

-- `ensureRequestPolicyPayload`
abbrev pub has_triage_changes : TriageDto → Bool
has_triage_changes dto =
    is_some dto.estimated_amount
    || is_some dto.estimated_currency
    || is_some dto.is_emergency
    || is_some dto.is_like_for_like
    || is_some dto.is_upgrade
    || is_some dto.is_major_replacement
    || is_some dto.is_responsibility_disputed

-- `updateRequestPolicyTriage`
unfoldable pub update_triage_step : TriageDto → Request → Result Outcome
unfolding build_triage assert_open_for_approval
update_triage_step dto r = do
  assert_open_for_approval r
  ok (silent (record r { triage = build_triage dto r.triage none }))

-- What a decision writes.
abbrev decided :
    ApprovalStatus
    → Option ℕ
    → Option Text
    → DecisionSource
    → Option Text
    → Option ℕ
    → ℕ
    → Approval
    → Approval
decided status owner_user reason source override_reason overridden_by now a = record a {
  status = status;
  decided_at = some now;
  decided_by_owner_user_id = owner_user;
  reason = reason;
  decision_source = some source;
  override_reason = override_reason;
  overridden_by_user_id = overridden_by;
}

abbrev decision_audit :
    AuditAction → ApprovalStatus → ApprovalStatus → Option Text → DecisionSource → AuditEntry
decision_audit action from to reason source = record {
  action = action;
  from_status = from;
  to_status = to;
  reason = reason;
  decision_source = some source;
}

abbrev is_management_override : DecisionSource → Bool
is_management_override DecisionSource.management_override = true
is_management_override _ = false

-- The deadline has passed: `deadline.getTime() > Date.now()` is false.
abbrev pub is_expired : Option ℕ → ℕ → Bool
is_expired none now = false
is_expired (some deadline) now = not (ltb now deadline)

-- `overrideOwnerApproval`
unfoldable pub override_step : DecisionSource → Text → ℕ → ℕ → Request → Result Outcome
override_step source reason user now r = do
  throw_if (not (is_pending r.approval.status)) (conflict only_pending_overridden)
  throw_if (is_management_override source && not (is_expired r.approval.deadline_at now))
      (conflict deadline_not_expired)
  ok (record {
    request = record r {
      approval =
          decided ApprovalStatus.approved none none source (some reason) (some user) now r.approval;
    };
    audits =
        decision_audit AuditAction.overridden r.approval.status ApprovalStatus.approved
          (some reason) source
        ∷ [];
    emissions = emit EventKind.owner_request_overridden;
  })

-- `approveAccessibleRequest`
unfoldable pub owner_approve_step : Option Text → ℕ → ℕ → Request → Result Outcome
owner_approve_step reason user now r = do
  throw_if (not (is_pending r.approval.status)) (not_found request_not_found)
  ok (record {
    request = record r {
      approval =
          decided ApprovalStatus.approved (some user) reason DecisionSource.owner none none now
            r.approval;
    };
    audits =
        decision_audit AuditAction.approved r.approval.status ApprovalStatus.approved reason
          DecisionSource.owner
        ∷ [];
    emissions = emit EventKind.owner_request_approved;
  })

-- `rejectAccessibleRequest`
unfoldable pub owner_reject_step : Text → ℕ → ℕ → Request → Result Outcome
owner_reject_step reason user now r = do
  throw_if (not (is_pending r.approval.status)) (not_found request_not_found)
  ok (record {
    request = record r {
      approval =
          decided ApprovalStatus.rejected (some user) (some reason) DecisionSource.owner none none
            now r.approval;
    };
    audits =
        decision_audit AuditAction.rejected r.approval.status ApprovalStatus.rejected (some reason)
          DecisionSource.owner
        ∷ [];
    emissions = emit EventKind.owner_request_rejected;
  })
