-- ===== src/Request/Operations/Building.antt =====
-- What the operations of a building touch.
use towerdesk_backend_clean.Prelude.{ℕ, ◌≡◌, true, false, not, ◌&&◌, Option, none, some, List, Text}
use towerdesk_backend_clean.Directory.{PermissionKey}
use towerdesk_backend_clean.Access.{has_key, user_effective_permissions}
use towerdesk_backend_clean.Request.Types.{Status, DecisionSource, Request}
use towerdesk_backend_clean.Result.{
  Result, ok, throw_if, bad_request, no_triage_changes, forbidden, no_permission,
  staff_cannot_cancel, staff_cannot_assign, staff_cannot_request_estimates,
  staff_cannot_request_approval, staff_cannot_update_triage, staff_cannot_submit_estimates,
}
use towerdesk_backend_clean.Request.Outcome.{Outcome}
use towerdesk_backend_clean.Request.Steps.Approvals.{TriageDto, RequireDto, has_triage_changes}
use towerdesk_backend_clean.Request.Steps.Estimates.{SubmitDto}
use towerdesk_backend_clean.Request.World.{World, gets}
use towerdesk_backend_clean.Request.Callers.{
  AuthUser, org_of, BuildingCaller, transact, in_building,
}
use towerdesk_backend_clean.Request.Moves.{Move}
use towerdesk_backend_clean.Request.Effects.{
  Touches, Touches-bind, Touches-transact, Touches-after, Checks-lift, Checks-gets,
}
use towerdesk_backend_clean.Request.Service.{
  mark_owner_approval_requested, assign_request, assign_provider, request_estimate_from_provider,
  assign_provider_worker, unassign_provider, update_request_status, require_owner_approval,
  request_owner_approval_now, request_owner_approval, resend_owner_approval_request,
  update_request_policy_triage, submit_request_estimate, override_owner_approval,
  cancel_building_request,
}
use towerdesk_backend_clean.Request.Operations.{InOrg}
use towerdesk_backend_clean.Request.Operations.Finding.{
  find_by_id_for_building-InOrg, building_caller-Checks, manager-Checks,
}

-- A transaction on a row of a building touches a row of the caller's organisation.
module _ (user : Option AuthUser) (building id : ℕ) (c : BuildingCaller) where
  Touches-in_building :
      (step : World → Request → Result Outcome)
      → ((w : World) (r : Request) (o : Outcome) → step w r ≡ ok o → Move r o)
      → Touches
          (transact c.user_id (in_building c building id) step)
          (λ w r. org_of user ≡ some c.org_id → InOrg user w r)
  Touches-in_building step moved =
      Touches-transact c.user_id (in_building c building id) step
        (λ w r found.
          let (listed, same) =
            find_by_id_for_building-InOrg c.org_id building id w.requests found in
          (listed, λ org. rw same org))
        moved

pub assign_request-Touches :
    (user : Option AuthUser) (building id staff : ℕ)
    → Touches (assign_request user building id staff) (InOrg user)
unfolding assign_request
assign_request-Touches user building id staff =
    Touches-bind _ _ (manager-Checks staff_cannot_assign user building) (λ c.
      Touches-in_building user building id c _
        (λ w r o e. Move.assign w.dir c.org_id building staff w.now e))

pub assign_provider-Touches :
    (user : Option AuthUser) (building id provider : ℕ)
    → Touches (assign_provider user building id provider) (InOrg user)
unfolding assign_provider
assign_provider-Touches user building id provider =
    Touches-bind _ _ (manager-Checks staff_cannot_assign user building) (λ c.
      Touches-in_building user building id c _
        (λ w r o e. Move.assign_provider w.dir building provider w.now e))

pub request_estimate_from_provider-Touches :
    (user : Option AuthUser) (building id provider : ℕ)
    → Touches (request_estimate_from_provider user building id provider) (InOrg user)
unfolding request_estimate_from_provider
request_estimate_from_provider-Touches user building id provider =
    Touches-bind _ _ (manager-Checks staff_cannot_request_estimates user building) (λ c.
      Touches-in_building user building id c _ (λ w r o e.
        Move.request_estimate w.dir building provider c.user_id w.estimate_ttl_hours w.now e))

pub assign_provider_worker-Touches :
    (user : Option AuthUser) (building id worker : ℕ)
    → Touches (assign_provider_worker user building id worker) (InOrg user)
unfolding assign_provider_worker
assign_provider_worker-Touches user building id worker =
    Touches-bind _ _ (manager-Checks staff_cannot_assign user building) (λ c.
      Touches-in_building user building id c _ (λ w r o e. Move.assign_worker w.dir worker w.now e))

pub unassign_provider-Touches :
    (user : Option AuthUser) (building id : ℕ)
    → Touches (unassign_provider user building id) (InOrg user)
unfolding unassign_provider
unassign_provider-Touches user building id =
    Touches-bind _ _ (manager-Checks staff_cannot_assign user building)
      (λ c. Touches-in_building user building id c _ (λ w r o e. Move.unassign e))

pub update_request_status-Touches :
    (user : Option AuthUser) (building id : ℕ) (to : Status)
    → Touches (update_request_status user building id to) (InOrg user)
unfolding update_request_status
update_request_status-Touches user building id to =
    Touches-bind _ _ (building_caller-Checks user building) (λ c.
      Touches-in_building user building id c _
        (λ w r o e. Move.update_status c.access c.user_id to w.now e))

pub require_owner_approval-Touches :
    (user : Option AuthUser) (building id : ℕ) (dto : RequireDto)
    → Touches (require_owner_approval user building id dto) (InOrg user)
unfolding require_owner_approval
require_owner_approval-Touches user building id dto =
    Touches-bind _ _ (manager-Checks staff_cannot_request_approval user building)
      (λ c. Touches-in_building user building id c _ (λ w r o e. Move.require_approval dto e))

pub request_owner_approval_now-Touches :
    (user : Option AuthUser) (building id : ℕ) (dto : RequireDto)
    → Touches (request_owner_approval_now user building id dto) (InOrg user)
unfolding request_owner_approval_now
request_owner_approval_now-Touches user building id dto =
    Touches-bind _ _ (manager-Checks staff_cannot_request_approval user building) (λ c.
      Touches-in_building user building id c _
        (λ w r o e. Move.request_approval_now dto c.user_id w.now e))

pub request_owner_approval-Touches :
    (user : Option AuthUser) (building id : ℕ)
    → Touches (request_owner_approval user building id) (InOrg user)
unfolding request_owner_approval mark_owner_approval_requested
request_owner_approval-Touches user building id =
    Touches-bind _ _ (manager-Checks staff_cannot_request_approval user building) (λ c.
      Touches-in_building user building id c _
        (λ w r o e. Move.mark_requested false c.user_id w.now e))

pub resend_owner_approval_request-Touches :
    (user : Option AuthUser) (building id : ℕ)
    → Touches (resend_owner_approval_request user building id) (InOrg user)
unfolding resend_owner_approval_request mark_owner_approval_requested
resend_owner_approval_request-Touches user building id =
    Touches-bind _ _ (manager-Checks staff_cannot_request_approval user building) (λ c.
      Touches-in_building user building id c _
        (λ w r o e. Move.mark_requested true c.user_id w.now e))

pub submit_request_estimate-Touches :
    (user : Option AuthUser) (building id : ℕ) (dto : SubmitDto)
    → Touches (submit_request_estimate user building id dto) (InOrg user)
unfolding submit_request_estimate
submit_request_estimate-Touches user building id dto =
    Touches-bind _ _ (manager-Checks staff_cannot_submit_estimates user building) (λ c.
      Touches-in_building user building id c _
        (λ w r o e. Move.submit_estimate dto c.user_id w.now e))

pub update_request_policy_triage-Touches :
    (user : Option AuthUser) (building id : ℕ) (dto : TriageDto)
    → Touches (update_request_policy_triage user building id dto) (InOrg user)
unfolding update_request_policy_triage
update_request_policy_triage-Touches user building id dto =
    Touches-after _ _
      (Checks-lift (throw_if (not (has_triage_changes dto)) (bad_request no_triage_changes)))
      (λ _.
        Touches-bind _ _ (manager-Checks staff_cannot_update_triage user building)
          (λ c. Touches-in_building user building id c _ (λ w r o e. Move.update_triage dto e)))

pub override_owner_approval-Touches :
    (user : Option AuthUser) (building id : ℕ) (source : DecisionSource) (reason : Text)
    → Touches (override_owner_approval user building id source reason) (InOrg user)
unfolding override_owner_approval
override_owner_approval-Touches user building id source reason =
    Touches-bind _ _ (building_caller-Checks user building) (λ c.
      Touches-after {A = List PermissionKey}
        (gets (λ w. user_effective_permissions w.dir c.user_id (some c.org_id) (some building))) _
        (Checks-gets
          (λ w. user_effective_permissions w.dir c.user_id (some c.org_id) (some building)))
        (λ keys.
          Touches-after _ _
            (Checks-lift (
              throw_if (not (has_key keys PermissionKey.requests_owner_approval_override))
                (forbidden no_permission)))
            (λ _.
              Touches-in_building user building id c _
                (λ w r o e. Move.override source reason c.user_id w.now e))))

pub cancel_building_request-Touches :
    (user : Option AuthUser) (building id : ℕ)
    → Touches (cancel_building_request user building id) (InOrg user)
unfolding cancel_building_request
cancel_building_request-Touches user building id =
    Touches-bind _ _ (building_caller-Checks user building) (λ c.
      Touches-after {A = List PermissionKey}
        (gets (λ w. user_effective_permissions w.dir c.user_id (some c.org_id) none)) _
        (Checks-gets (λ w. user_effective_permissions w.dir c.user_id (some c.org_id) none))
        (λ keys.
          Touches-after _ _
            (Checks-lift (
              throw_if
                (not c.access.has_any_building_access
                  && not (has_key keys PermissionKey.requests_update_status))
                (forbidden no_permission)))
            (λ _.
              Touches-after _ _
                (Checks-lift
                  (throw_if c.access.is_building_staff_only (forbidden staff_cannot_cancel)))
                (λ _. Touches-in_building user building id c _ (λ w r o e. Move.cancel w.now e)))))
