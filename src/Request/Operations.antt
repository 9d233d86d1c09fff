-- ===== src/Request/Operations.antt =====
-- The writing operations of the service as one type, and what each is allowed to touch.
pub mod Finding
pub mod Building
pub mod Others
pub mod Authority
use towerdesk_backend_clean.Prelude.{ℕ, ◌≡◌, Bool, true, Option, some, List, Text}
use towerdesk_backend_clean.Access.{ProviderAccess, provider_access_context, accessible_unit_ids}
use towerdesk_backend_clean.Request.Types.{Status, DecisionSource, Request}
use towerdesk_backend_clean.Request.Steps.Approvals.{TriageDto, RequireDto}
use towerdesk_backend_clean.Request.Steps.Estimates.{SubmitDto}
use towerdesk_backend_clean.Request.Steps.Residents.{UpdateDto}
use towerdesk_backend_clean.Request.World.{World, Action, is_one_of}
use towerdesk_backend_clean.Request.Callers.{AuthUser, org_of, sub_of}
use towerdesk_backend_clean.Request.Service

-- Every operation that writes a request that is there; `createResidentRequest` inserts one.
pub data Operation : Type 0 where
  assign_request : (user : Option AuthUser) (building id staff : ℕ) → Operation
  assign_provider : (user : Option AuthUser) (building id provider : ℕ) → Operation
  request_estimate_from_provider : (user : Option AuthUser) (building id provider : ℕ) → Operation
  assign_provider_worker : (user : Option AuthUser) (building id worker : ℕ) → Operation
  unassign_provider : (user : Option AuthUser) (building id : ℕ) → Operation
  update_request_status : (user : Option AuthUser) (building id : ℕ) (to : Status) → Operation
  require_owner_approval : (user : Option AuthUser) (building id : ℕ) (dto : RequireDto) → Operation
  request_owner_approval_now :
      (user : Option AuthUser) (building id : ℕ) (dto : RequireDto) → Operation
  request_owner_approval : (user : Option AuthUser) (building id : ℕ) → Operation
  resend_owner_approval_request : (user : Option AuthUser) (building id : ℕ) → Operation
  update_request_policy_triage :
      (user : Option AuthUser) (building id : ℕ) (dto : TriageDto) → Operation
  submit_request_estimate : (user : Option AuthUser) (building id : ℕ) (dto : SubmitDto) → Operation
  override_owner_approval :
      (user : Option AuthUser) (building id : ℕ) (source : DecisionSource) (reason : Text)
      → Operation
  cancel_building_request : (user : Option AuthUser) (building id : ℕ) → Operation
  submit_provider_request_estimate : (user : Option AuthUser) (id : ℕ) (dto : SubmitDto) → Operation
  update_provider_request_status : (user : Option AuthUser) (id : ℕ) (to : Status) → Operation
  assign_provider_worker_from_provider : (user : Option AuthUser) (id worker : ℕ) → Operation
  update_resident_request : (user : Option AuthUser) (id : ℕ) (dto : UpdateDto) → Operation
  cancel_resident_request : (user : Option AuthUser) (id : ℕ) → Operation
  approve_accessible_request : (user id : ℕ) (reason : Option Text) → Operation
  reject_accessible_request : (user id : ℕ) (reason : Text) → Operation

unfoldable pub run : Operation → Action Request
run (Operation.assign_request user building id staff) =
    Service.assign_request user building id staff
run (Operation.assign_provider user building id provider) =
    Service.assign_provider user building id provider
run (Operation.request_estimate_from_provider user building id provider) =
    Service.request_estimate_from_provider user building id provider
run (Operation.assign_provider_worker user building id worker) =
    Service.assign_provider_worker user building id worker
run (Operation.unassign_provider user building id) = Service.unassign_provider user building id
run (Operation.update_request_status user building id to) =
    Service.update_request_status user building id to
run (Operation.require_owner_approval user building id dto) =
    Service.require_owner_approval user building id dto
run (Operation.request_owner_approval_now user building id dto) =
    Service.request_owner_approval_now user building id dto
run (Operation.request_owner_approval user building id) =
    Service.request_owner_approval user building id
run (Operation.resend_owner_approval_request user building id) =
    Service.resend_owner_approval_request user building id
run (Operation.update_request_policy_triage user building id dto) =
    Service.update_request_policy_triage user building id dto
run (Operation.submit_request_estimate user building id dto) =
    Service.submit_request_estimate user building id dto
run (Operation.override_owner_approval user building id source reason) =
    Service.override_owner_approval user building id source reason
run (Operation.cancel_building_request user building id) =
    Service.cancel_building_request user building id
run (Operation.submit_provider_request_estimate user id dto) =
    Service.submit_provider_request_estimate user id dto
run (Operation.update_provider_request_status user id to) =
    Service.update_provider_request_status user id to
run (Operation.assign_provider_worker_from_provider user id worker) =
    Service.assign_provider_worker_from_provider user id worker
run (Operation.update_resident_request user id dto) = Service.update_resident_request user id dto
run (Operation.cancel_resident_request user id) = Service.cancel_resident_request user id
run (Operation.approve_accessible_request user id reason) =
    Service.approve_accessible_request user id reason
run (Operation.reject_accessible_request user id reason) =
    Service.reject_accessible_request user id reason

-- A row of the caller's organisation.
abbrev pub InOrg : Option AuthUser → World → Request → Type 0
InOrg user w r = org_of user ≡ some r.org_id

-- A row of a provider of which the caller is a member with access.
abbrev pub OfProvider : Option AuthUser → World → Request → Type 0
OfProvider user w r =
    (k : ℕ) × (access : ProviderAccess) × (sub_of user ≡ some k)
    × (provider_access_context w.dir k ≡ some access)
    × (is_one_of r.assignment.service_provider_id access.provider_ids ≡ true)

-- A row of a unit that the owner's user reaches.
abbrev pub OfUnit : ℕ → World → Request → Type 0
OfUnit user w r = is_one_of r.unit_id (accessible_unit_ids w.dir user) ≡ true

-- What an operation may touch.
abbrev pub MayTouch : Operation → World → Request → Type 0
MayTouch (Operation.assign_request user _ _ _) = InOrg user
MayTouch (Operation.assign_provider user _ _ _) = InOrg user
MayTouch (Operation.request_estimate_from_provider user _ _ _) = InOrg user
MayTouch (Operation.assign_provider_worker user _ _ _) = InOrg user
MayTouch (Operation.unassign_provider user _ _) = InOrg user
MayTouch (Operation.update_request_status user _ _ _) = InOrg user
MayTouch (Operation.require_owner_approval user _ _ _) = InOrg user
MayTouch (Operation.request_owner_approval_now user _ _ _) = InOrg user
MayTouch (Operation.request_owner_approval user _ _) = InOrg user
MayTouch (Operation.resend_owner_approval_request user _ _) = InOrg user
MayTouch (Operation.update_request_policy_triage user _ _ _) = InOrg user
MayTouch (Operation.submit_request_estimate user _ _ _) = InOrg user
MayTouch (Operation.override_owner_approval user _ _ _ _) = InOrg user
MayTouch (Operation.cancel_building_request user _ _) = InOrg user
MayTouch (Operation.submit_provider_request_estimate user _ _) = OfProvider user
MayTouch (Operation.update_provider_request_status user _ _) = OfProvider user
MayTouch (Operation.assign_provider_worker_from_provider user _ _) = OfProvider user
MayTouch (Operation.update_resident_request user _ _) = InOrg user
MayTouch (Operation.cancel_resident_request user _) = InOrg user
MayTouch (Operation.approve_accessible_request user _ _) = OfUnit user
MayTouch (Operation.reject_accessible_request user _ _) = OfUnit user
