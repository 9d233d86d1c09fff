-- ===== src/Request/Outcome.antt =====
-- What the transaction of a handler leaves: the row that it writes, the audit rows that
-- `createOwnerApprovalAudit` adds, and the events that the handler emits after it commits.
use towerdesk_backend_clean.Prelude.{Bool, Option, List, [], Text}
use towerdesk_backend_clean.Request.Types.{ApprovalStatus, DecisionSource, AuditAction, Request}

-- `MAINTENANCE_REQUEST_EVENTS`
pub data EventKind : Type 0 where
  created assigned status_changed commented canceled estimate_reminder : EventKind
  owner_approval_requested owner_approval_reminder : EventKind
  owner_request_approved owner_request_rejected owner_request_overridden : EventKind

pub record AuditEntry : Type 0 where
  pub action : AuditAction
  pub from_status : ApprovalStatus
  pub to_status : ApprovalStatus
  pub reason : Option Text
  pub decision_source : Option DecisionSource

-- An event, and whether its payload has the row as it was before.
pub record Emission : Type 0 where
  pub kind : EventKind
  pub has_previous : Bool

pub record Outcome : Type 0 where
  pub request : Request
  pub audits : List AuditEntry
  pub emissions : List Emission

-- Only the row is written.
abbrev pub silent : Request → Outcome
silent r = record { request = r; audits = []; emissions = [] }
