-- ===== src/Request/Types.antt =====
-- maintenance-requests.constants.ts and the row of `MaintenanceRequest` in prisma/schema.prisma.
-- Ids are numbers, times are milliseconds, and stored amounts are hundredths
-- (`Decimal(12, 2)`).
use towerdesk_backend_clean.Prelude.{ℕ, ◌+◌, Bool, Option, none, some, List, Text}

pub data Status : Type 0 where
  opened assigned in_progress completed canceled : Status

pub data ApprovalStatus : Type 0 where
  not_required pending approved rejected : ApprovalStatus

pub data EstimateStatus : Type 0 where
  not_requested requested submitted : EstimateStatus

pub data DecisionSource : Type 0 where
  owner management_override emergency_override : DecisionSource

pub data EmergencySignal : Type 0 where
  active_leak no_power safety_risk no_cooling : EmergencySignal

pub data Recommendation : Type 0 where
  proceed_now get_estimate request_owner_approval proceed_and_notify : Recommendation

pub data Route : Type 0 where
  direct_assign emergency_dispatch needs_estimate owner_approval_required : Route

pub data Queue : Type 0 where
  new needs_estimate awaiting_estimate awaiting_owner : Queue
  ready_to_assign assigned in_progress overdue : Queue

pub data AuditAction : Type 0 where
  required requested resent approved rejected overridden : AuditAction

pub data AuthorType : Type 0 where
  owner tenant staff system : AuthorType

pub data Visibility : Type 0 where
  shared internal : Visibility

pub data RequestType : Type 0 where
  cleaning electrical maintenance plumbing_ac_heating other : RequestType

pub data Priority : Type 0 where
  low normal high : Priority

-- What an amount has below its hundredths.
pub data Rest : Type 0 where
  nothing below_half half_or_more : Rest

-- An amount as a payload gives it: its hundredths, and what is left below them.
pub record Amount : Type 0 where
  pub hundredths : ℕ
  pub rest : Rest

-- The hundredths that `Decimal(12, 2)` keeps of an amount.
abbrev pub rounded : Amount → ℕ
rounded a = elim a.rest [
  | Rest.nothing ↦ a.hundredths
  | Rest.below_half ↦ a.hundredths
  | Rest.half_or_more ↦ a.hundredths + 1
]

-- A stored amount.
abbrev pub stored : Option ℕ → Option Amount
stored none = none
stored (some n) = some (record { hundredths = n; rest = Rest.nothing })

-- Who works on the request.
pub record Assignment : Type 0 where
  pub assigned_to_user_id : Option ℕ
  pub service_provider_id : Option ℕ
  pub service_provider_assigned_user_id : Option ℕ
  pub assigned_at : Option ℕ

-- The fields `estimate…`, but for the amount and the currency.
pub record Estimate : Type 0 where
  pub status : EstimateStatus
  pub requested_at : Option ℕ
  pub requested_by_user_id : Option ℕ
  pub due_at : Option ℕ
  pub reminder_sent_at : Option ℕ
  pub submitted_at : Option ℕ
  pub submitted_by_user_id : Option ℕ

-- The fields `ownerApproval…` and `approvalRequiredReason`.
pub record Approval : Type 0 where
  pub status : ApprovalStatus
  pub requested_at : Option ℕ
  pub requested_by_user_id : Option ℕ
  pub deadline_at : Option ℕ
  pub decided_at : Option ℕ
  pub decided_by_owner_user_id : Option ℕ
  pub reason : Option Text
  pub required_reason : Option Text
  pub decision_source : Option DecisionSource
  pub override_reason : Option Text
  pub overridden_by_user_id : Option ℕ

-- The fields that `buildPolicyTriageUpdateData` writes.
pub record Triage : Type 0 where
  pub estimated_amount : Option ℕ
  pub estimated_currency : Option Text
  pub is_emergency : Bool
  pub is_like_for_like : Option Bool
  pub is_upgrade : Option Bool
  pub is_major_replacement : Option Bool
  pub is_responsibility_disputed : Option Bool

pub record Request : Type 0 where
  pub id : ℕ
  pub org_id : ℕ
  pub building_id : ℕ
  pub unit_id : Option ℕ
  pub occupancy_id_at_creation : Option ℕ
  pub lease_id_at_creation : Option ℕ
  pub created_by_user_id : ℕ
  pub title : Text
  pub description : Option Text
  pub type : Option RequestType
  pub priority : Option Priority
  pub status : Status
  pub assignment : Assignment
  pub estimate : Estimate
  pub approval : Approval
  pub triage : Triage
  pub emergency_signals : List EmergencySignal
  pub completed_at : Option ℕ
  pub canceled_at : Option ℕ
  pub created_at : ℕ
