-- ===== src/Request/Rows.antt =====
-- The rows beside the request itself: comments, read marks, attachments, audit rows, and the
-- events of maintenance-requests.events.ts.
use towerdesk_backend_clean.Prelude.{ℕ, Bool, Option, List, Text}
use towerdesk_backend_clean.Request.Types.{
  Status, ApprovalStatus, EmergencySignal, AuthorType, Visibility,
}
use towerdesk_backend_clean.Request.Outcome.{EventKind, AuditEntry}

pub data ReadScope : Type 0 where
  building provider : ReadScope

pub record Comment : Type 0 where
  pub id : ℕ
  pub request_id : ℕ
  pub org_id : ℕ
  pub author_user_id : ℕ
  pub author_type : AuthorType
  pub visibility : Visibility
  pub message : Text
  pub created_at : ℕ

pub record ReadState : Type 0 where
  pub user_id : ℕ
  pub request_id : ℕ
  pub scope : ReadScope
  pub last_read_at : ℕ

-- What a caller sends for an attachment.
pub record FileDto : Type 0 where
  pub file_name : Text
  pub mime_type : Text
  pub size_bytes : ℕ
  pub url : Text

pub record Attachment : Type 0 where
  pub request_id : ℕ
  pub org_id : ℕ
  pub uploaded_by_user_id : ℕ
  pub file : FileDto

pub record Audit : Type 0 where
  pub request_id : ℕ
  pub org_id : ℕ
  pub actor_user_id : ℕ
  pub entry : AuditEntry
  pub created_at : ℕ

-- `MaintenanceRequestSnapshot`, its unit's label apart.
pub record Snapshot : Type 0 where
  pub id : ℕ
  pub org_id : ℕ
  pub building_id : ℕ
  pub unit_id : Option ℕ
  pub title : Text
  pub status : Status
  pub owner_approval_status : ApprovalStatus
  pub created_by_user_id : ℕ
  pub assigned_to_user_id : Option ℕ
  pub service_provider_id : Option ℕ
  pub service_provider_assigned_user_id : Option ℕ
  pub is_emergency : Bool
  pub emergency_signals : List EmergencySignal

-- `MaintenanceRequestEventPayload`; the actor is none for the system.
pub record Event : Type 0 where
  pub kind : EventKind
  pub request : Snapshot
  pub previous_request : Option Snapshot
  pub actor_user_id : Option ℕ
  pub actor_is_resident : Option Bool
  pub comment : Option (ℕ × Text)
