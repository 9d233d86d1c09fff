-- ===== src/Request/Moves.antt =====
-- A transaction of the service on one row: which step was taken, and what it left.
pub mod Validity
pub mod Kept
pub mod Lifecycle
pub mod Unlocking
pub mod Auditing
pub mod Announcing
pub mod Deciding
use towerdesk_backend_clean.Prelude.{ℕ, ◌≡◌, Bool, Option, Text}
use towerdesk_backend_clean.Directory.{Directory}
use towerdesk_backend_clean.Access.{BuildingAccess, ProviderAccess}
use towerdesk_backend_clean.Request.Types.{Status, DecisionSource, Request}
use towerdesk_backend_clean.Result.{ok}
use towerdesk_backend_clean.Request.Outcome.{Outcome}
use towerdesk_backend_clean.Request.Steps.Execution.{
  assign_step, assign_provider_step, assign_worker_step, assign_worker_from_provider_step,
}
use towerdesk_backend_clean.Request.Steps.Lifecycle.{
  unassign_step, update_status_step, update_provider_status_step, cancel_step,
}
use towerdesk_backend_clean.Request.Steps.Approvals.{
  TriageDto, RequireDto, require_approval_step, request_approval_now_step, mark_requested_step,
  update_triage_step, override_step, owner_approve_step, owner_reject_step,
}
use towerdesk_backend_clean.Request.Steps.Estimates.{
  SubmitDto, request_estimate_step, submit_estimate_step,
}
use towerdesk_backend_clean.Request.Steps.Residents.{UpdateDto, update_resident_step}

pub data Move (r : Request) (o : Outcome) : Type 0 where
  assign :
      (dir : Directory) (org building staff now : ℕ)
      → assign_step dir org building staff now r ≡ ok o
      → Move r o
  assign_provider :
      (dir : Directory) (building provider now : ℕ)
      → assign_provider_step dir building provider now r ≡ ok o
      → Move r o
  assign_worker :
      (dir : Directory) (worker now : ℕ) → assign_worker_step dir worker now r ≡ ok o → Move r o
  assign_worker_from_provider :
      (dir : Directory) (access : ProviderAccess) (worker now : ℕ)
      → assign_worker_from_provider_step dir access worker now r ≡ ok o
      → Move r o
  unassign : unassign_step r ≡ ok o → Move r o
  update_status :
      (access : BuildingAccess) (user : ℕ) (to : Status) (now : ℕ)
      → update_status_step access user to now r ≡ ok o
      → Move r o
  update_provider_status :
      (access : ProviderAccess) (user : ℕ) (to : Status) (now : ℕ)
      → update_provider_status_step access user to now r ≡ ok o
      → Move r o
  cancel : (now : ℕ) → cancel_step now r ≡ ok o → Move r o
  require_approval : (dto : RequireDto) → require_approval_step dto r ≡ ok o → Move r o
  request_approval_now :
      (dto : RequireDto) (user now : ℕ) → request_approval_now_step dto user now r ≡ ok o → Move r o
  mark_requested :
      (resend : Bool) (user now : ℕ) → mark_requested_step resend user now r ≡ ok o → Move r o
  update_triage : (dto : TriageDto) → update_triage_step dto r ≡ ok o → Move r o
  override :
      (source : DecisionSource) (reason : Text) (user now : ℕ)
      → override_step source reason user now r ≡ ok o
      → Move r o
  owner_approve :
      (reason : Option Text) (user now : ℕ) → owner_approve_step reason user now r ≡ ok o → Move r o
  owner_reject :
      (reason : Text) (user now : ℕ) → owner_reject_step reason user now r ≡ ok o → Move r o
  request_estimate :
      (dir : Directory) (building provider user ttl now : ℕ)
      → request_estimate_step dir building provider user ttl now r ≡ ok o
      → Move r o
  submit_estimate :
      (dto : SubmitDto) (user now : ℕ) → submit_estimate_step dto user now r ≡ ok o → Move r o
  update_resident : (dto : UpdateDto) → update_resident_step dto r ≡ ok o → Move r o
