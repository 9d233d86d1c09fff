-- ===== src/Request/Service.antt =====
-- The handlers of maintenance-requests.service.ts that write requests, and the two decisions of an
-- owner in owner-portfolio-scope.service.ts.
use towerdesk_backend_clean.Prelude.{
  ℕ, suc, Bool, true, false, not, ◌&&◌, Option, none, some, List, [], ◌∷◌, ◌++◌, map, Text,
}
use towerdesk_backend_clean.Directory.{PermissionKey}
use towerdesk_backend_clean.Access.{has_key, user_effective_permissions, accessible_unit_ids}
use towerdesk_backend_clean.Request.Types.{Status, DecisionSource, Request}
use towerdesk_backend_clean.Result.{
  Result, ok, err, forbidden, bad_request, active_occupancy_required, no_permission,
  staff_cannot_assign, staff_cannot_request_estimates, staff_cannot_request_approval,
  staff_cannot_update_triage, staff_cannot_submit_estimates, staff_cannot_cancel, no_triage_changes,
  throw_if,
}
use towerdesk_backend_clean.Request.Outcome.{Outcome, EventKind}
use towerdesk_backend_clean.Request.Steps.Execution.{
  assign_step, assign_provider_step, assign_worker_step, assign_worker_from_provider_step,
}
use towerdesk_backend_clean.Request.Steps.Lifecycle.{
  unassign_step, update_status_step, update_provider_status_step, cancel_step,
  assert_provider_write_access,
}
use towerdesk_backend_clean.Request.Steps.Approvals.{
  TriageDto, RequireDto, require_approval_step, request_approval_now_step, mark_requested_step,
  has_triage_changes, update_triage_step, override_step, owner_approve_step, owner_reject_step,
}
use towerdesk_backend_clean.Request.Steps.Estimates.{
  SubmitDto, request_estimate_step, submit_estimate_step,
}
use towerdesk_backend_clean.Request.Steps.Residents.{
  CreateDto, UpdateDto, new_request, update_resident_step,
}
use towerdesk_backend_clean.Request.World.{
  World, Action, ◌>>=◌, ◌>>◌, gets, lift, snapshot, find_by_id_for_units, find_active_occupancy,
}
use towerdesk_backend_clean.Request.Rows.{FileDto}
use towerdesk_backend_clean.Request.Callers.{
  AuthUser, OrgCaller, org_caller, building_caller, manager, ProviderCaller, provider_caller,
  resident_caller, transact, in_building, of_creator, of_providers,
}

unfoldable pub assign_request : Option AuthUser → ℕ → ℕ → ℕ → Action Request
assign_request user building id staff = do
  c ← manager staff_cannot_assign user building
  transact c.user_id (in_building c building id)
      (λ w r. assign_step w.dir c.org_id building staff w.now r)

unfoldable pub assign_provider : Option AuthUser → ℕ → ℕ → ℕ → Action Request
assign_provider user building id provider = do
  c ← manager staff_cannot_assign user building
  transact c.user_id (in_building c building id)
      (λ w r. assign_provider_step w.dir building provider w.now r)

unfoldable pub request_estimate_from_provider : Option AuthUser → ℕ → ℕ → ℕ → Action Request
request_estimate_from_provider user building id provider = do
  c ← manager staff_cannot_request_estimates user building
  transact c.user_id (in_building c building id)
      (λ w r. request_estimate_step w.dir building provider c.user_id w.estimate_ttl_hours w.now r)

unfoldable pub assign_provider_worker : Option AuthUser → ℕ → ℕ → ℕ → Action Request
assign_provider_worker user building id worker = do
  c ← manager staff_cannot_assign user building
  transact c.user_id (in_building c building id) (λ w r. assign_worker_step w.dir worker w.now r)

unfoldable pub unassign_provider : Option AuthUser → ℕ → ℕ → Action Request
unassign_provider user building id = do
  c ← manager staff_cannot_assign user building
  transact c.user_id (in_building c building id) (λ w r. unassign_step r)

unfoldable pub update_request_status : Option AuthUser → ℕ → ℕ → Status → Action Request
update_request_status user building id to = do
  c ← building_caller user building
  transact c.user_id (in_building c building id)
      (λ w r. update_status_step c.access c.user_id to w.now r)

unfoldable pub require_owner_approval : Option AuthUser → ℕ → ℕ → RequireDto → Action Request
require_owner_approval user building id dto = do
  c ← manager staff_cannot_request_approval user building
  transact c.user_id (in_building c building id) (λ w r. require_approval_step dto r)

unfoldable pub request_owner_approval_now : Option AuthUser → ℕ → ℕ → RequireDto → Action Request
request_owner_approval_now user building id dto = do
  c ← manager staff_cannot_request_approval user building
  transact c.user_id (in_building c building id)
      (λ w r. request_approval_now_step dto c.user_id w.now r)

-- `markOwnerApprovalRequested`, with its `requiresExistingRequest`.
unfoldable pub mark_owner_approval_requested : Bool → Option AuthUser → ℕ → ℕ → Action Request
mark_owner_approval_requested resend user building id = do
  c ← manager staff_cannot_request_approval user building
  transact c.user_id (in_building c building id)
      (λ w r. mark_requested_step resend c.user_id w.now r)

unfoldable pub request_owner_approval : Option AuthUser → ℕ → ℕ → Action Request
request_owner_approval = mark_owner_approval_requested false

unfoldable pub resend_owner_approval_request : Option AuthUser → ℕ → ℕ → Action Request
resend_owner_approval_request = mark_owner_approval_requested true

-- The payload is checked before the caller.
unfoldable pub update_request_policy_triage : Option AuthUser → ℕ → ℕ → TriageDto → Action Request
update_request_policy_triage user building id dto = do
  lift (throw_if (not (has_triage_changes dto)) (bad_request no_triage_changes))
  c ← manager staff_cannot_update_triage user building
  transact c.user_id (in_building c building id) (λ w r. update_triage_step dto r)

unfoldable pub submit_request_estimate : Option AuthUser → ℕ → ℕ → SubmitDto → Action Request
submit_request_estimate user building id dto = do
  c ← manager staff_cannot_submit_estimates user building
  transact c.user_id (in_building c building id) (λ w r. submit_estimate_step dto c.user_id w.now r)

-- A step that a provider takes: first `assertProviderRequestWriteAccess`.
abbrev pub if_writable : ProviderCaller → Request → Result Outcome → Result Outcome
if_writable c r next = elim (assert_provider_write_access c.access c.user_id r) [
  | ok _ ↦ next
  | err e ↦ err e
]

unfoldable pub submit_provider_request_estimate : Option AuthUser → ℕ → SubmitDto → Action Request
submit_provider_request_estimate user id dto = do
  c ← provider_caller user
  transact c.user_id (of_providers c id)
      (λ w r. if_writable c r (submit_estimate_step dto c.user_id w.now r))

-- `assertOverridePermission` takes the place of the test for staff.
unfoldable pub override_owner_approval :
    Option AuthUser → ℕ → ℕ → DecisionSource → Text → Action Request
override_owner_approval user building id source reason = do
  c ← building_caller user building
  keys ← gets (λ w. user_effective_permissions w.dir c.user_id (some c.org_id) (some building))
  lift (
      throw_if (not (has_key keys PermissionKey.requests_owner_approval_override))
        (forbidden no_permission))
  transact c.user_id (in_building c building id)
      (λ w r. override_step source reason c.user_id w.now r)

unfoldable pub cancel_building_request : Option AuthUser → ℕ → ℕ → Action Request
cancel_building_request user building id = do
  c ← building_caller user building
  keys ← gets (λ w. user_effective_permissions w.dir c.user_id (some c.org_id) none)
  lift (
      throw_if
        (not c.access.has_any_building_access
          && not (has_key keys PermissionKey.requests_update_status))
        (forbidden no_permission))
  lift (throw_if c.access.is_building_staff_only (forbidden staff_cannot_cancel))
  transact c.user_id (in_building c building id) (λ w r. cancel_step w.now r)

unfoldable pub update_provider_request_status : Option AuthUser → ℕ → Status → Action Request
update_provider_request_status user id to = do
  c ← provider_caller user
  transact c.user_id (of_providers c id)
      (λ w r. update_provider_status_step c.access c.user_id to w.now r)

unfoldable pub assign_provider_worker_from_provider : Option AuthUser → ℕ → ℕ → Action Request
assign_provider_worker_from_provider user id worker = do
  c ← provider_caller user
  transact c.user_id (of_providers c id)
      (λ w r. assign_worker_from_provider_step w.dir c.access worker w.now r)

unfoldable pub update_resident_request : Option AuthUser → ℕ → UpdateDto → Action Request
update_resident_request user id dto = do
  c ← resident_caller user
  transact c.user_id (of_creator c id) (λ w r. update_resident_step dto r)

unfoldable pub cancel_resident_request : Option AuthUser → ℕ → Action Request
cancel_resident_request user id = do
  c ← resident_caller user
  transact c.user_id (of_creator c id) (λ w r. cancel_step w.now r)

abbrev pub accessible_to : ℕ → ℕ → World → Option Request
accessible_to user id w = find_by_id_for_units (accessible_unit_ids w.dir user) id w.requests

-- `approveAccessibleRequest` and `rejectAccessibleRequest` of the owner's portfolio.
unfoldable pub approve_accessible_request : ℕ → ℕ → Option Text → Action Request
approve_accessible_request user id reason =
    transact user (accessible_to user id) (λ w r. owner_approve_step reason user w.now r)

unfoldable pub reject_accessible_request : ℕ → ℕ → Text → Action Request
reject_accessible_request user id reason =
    transact user (accessible_to user id) (λ w r. owner_reject_step reason user w.now r)

-- The row and its attachments are inserted, and the event goes out.
unfoldable pub insert_request : OrgCaller → CreateDto → List FileDto → Action Request
unfolding new_request
insert_request c dto files w = elim (find_active_occupancy w.dir c.user_id c.org_id) [
  | none ↦ err (forbidden active_occupancy_required)
  | some occupancy ↦
      let r = new_request w.next_id c.org_id c.user_id w.now occupancy dto in
      ok (
        r,
        record w {
          next_id = suc w.next_id;
          requests = w.requests ++ (r ∷ []);
          attachments =
              w.attachments
              ++ map
                  (λ f. record {
                    request_id = r.id;
                    org_id = c.org_id;
                    uploaded_by_user_id = c.user_id;
                    file = f;
                  })
                  files;
          events =
              w.events
              ++ (record {
                kind = EventKind.created;
                request = snapshot r;
                previous_request = none;
                actor_user_id = some c.user_id;
                actor_is_resident = none;
                comment = none;
              }
                  ∷ []);
        },
      )
]

unfoldable pub create_resident_request : Option AuthUser → CreateDto → List FileDto → Action Request
create_resident_request user dto files = do c ← org_caller user; insert_request c dto files
