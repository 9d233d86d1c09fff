-- ===== src/Request/Operations/Others.antt =====
-- What the operations of providers, residents and owners touch.
use towerdesk_backend_clean.Prelude.{ℕ, ◌≡◌, Option, some, arith, Text}
use towerdesk_backend_clean.Access.{provider_access_context, accessible_unit_ids}
use towerdesk_backend_clean.Request.Types.{Status, Request}
use towerdesk_backend_clean.Result.{Result, ok}
use towerdesk_backend_clean.Request.Outcome.{Outcome}
use towerdesk_backend_clean.Request.Steps.Estimates.{SubmitDto, submit_estimate_step}
use towerdesk_backend_clean.Request.Steps.Residents.{UpdateDto}
use towerdesk_backend_clean.Request.World.{World}
use towerdesk_backend_clean.Request.Callers.{
  AuthUser, org_of, sub_of, OrgCaller, ProviderCaller, transact, of_creator, of_providers,
}
use towerdesk_backend_clean.Request.Moves.{Move}
use towerdesk_backend_clean.Request.Effects.{Touches, Touches-bind, Touches-transact}
use towerdesk_backend_clean.Request.Service.{
  if_writable, accessible_to, approve_accessible_request, reject_accessible_request,
  submit_provider_request_estimate, update_provider_request_status,
  assign_provider_worker_from_provider, update_resident_request, cancel_resident_request,
}
use towerdesk_backend_clean.Request.Operations.{InOrg, OfProvider, OfUnit}
use towerdesk_backend_clean.Request.Operations.Finding.{
  find_by_id_for_creator-InOrg, find_by_id_for_providers-listed, find_by_id_for_units-listed,
  resident_caller-Checks, provider_caller-Checks,
}

if_writable-ok :
    (c : ProviderCaller) (r : Request) (next : Result Outcome) {o : Outcome}
    → if_writable c r next ≡ ok o
    → next ≡ ok o
if_writable-ok c r next h = ground arith

-- A transaction of a member of a provider touches a row of that provider.
module _ (user : Option AuthUser) (id : ℕ) (c : ProviderCaller) where
  Touches-of_providers :
      (step : World → Request → Result Outcome)
      → ((w : World) (r : Request) (o : Outcome) → step w r ≡ ok o → Move r o)
      → Touches (transact c.user_id (of_providers c id) step) (λ w r.
        (sub_of user ≡ some c.user_id) × (provider_access_context w.dir c.user_id ≡ some c.access)
        → OfProvider user w r)
  Touches-of_providers step moved =
      Touches-transact c.user_id (of_providers c id) step
        (λ w r found.
          let (listed, one) =
            find_by_id_for_providers-listed c.access.provider_ids id w.requests found in
          (listed, λ caller. (c.user_id, c.access, caller.0, caller.1, one)))
        moved

-- A transaction of a resident touches a row of the resident's organisation.
module _ (user : Option AuthUser) (id : ℕ) (c : OrgCaller) where
  Touches-of_creator :
      (step : World → Request → Result Outcome)
      → ((w : World) (r : Request) (o : Outcome) → step w r ≡ ok o → Move r o)
      → Touches
          (transact c.user_id (of_creator c id) step)
          (λ w r. org_of user ≡ some c.org_id → InOrg user w r)
  Touches-of_creator step moved =
      Touches-transact c.user_id (of_creator c id) step
        (λ w r found.
          let (listed, same) =
            find_by_id_for_creator-InOrg c.org_id c.user_id id w.requests found in
          (listed, λ org. rw same org))
        moved

pub submit_provider_request_estimate-Touches :
    (user : Option AuthUser) (id : ℕ) (dto : SubmitDto)
    → Touches (submit_provider_request_estimate user id dto) (OfProvider user)
unfolding submit_provider_request_estimate
submit_provider_request_estimate-Touches user id dto =
    Touches-bind _ _ (provider_caller-Checks user) (λ c.
      Touches-of_providers user id c _ (λ w r o e.
        Move.submit_estimate dto c.user_id w.now
          (if_writable-ok c r (submit_estimate_step dto c.user_id w.now r) e)))

pub update_provider_request_status-Touches :
    (user : Option AuthUser) (id : ℕ) (to : Status)
    → Touches (update_provider_request_status user id to) (OfProvider user)
unfolding update_provider_request_status
update_provider_request_status-Touches user id to =
    Touches-bind _ _ (provider_caller-Checks user) (λ c.
      Touches-of_providers user id c _
        (λ w r o e. Move.update_provider_status c.access c.user_id to w.now e))

pub assign_provider_worker_from_provider-Touches :
    (user : Option AuthUser) (id worker : ℕ)
    → Touches (assign_provider_worker_from_provider user id worker) (OfProvider user)
unfolding assign_provider_worker_from_provider
assign_provider_worker_from_provider-Touches user id worker =
    Touches-bind _ _ (provider_caller-Checks user) (λ c.
      Touches-of_providers user id c _
        (λ w r o e. Move.assign_worker_from_provider w.dir c.access worker w.now e))

pub update_resident_request-Touches :
    (user : Option AuthUser) (id : ℕ) (dto : UpdateDto)
    → Touches (update_resident_request user id dto) (InOrg user)
unfolding update_resident_request
update_resident_request-Touches user id dto =
    Touches-bind _ _ (resident_caller-Checks user)
      (λ c. Touches-of_creator user id c _ (λ w r o e. Move.update_resident dto e))

pub cancel_resident_request-Touches :
    (user : Option AuthUser) (id : ℕ) → Touches (cancel_resident_request user id) (InOrg user)
unfolding cancel_resident_request
cancel_resident_request-Touches user id =
    Touches-bind _ _ (resident_caller-Checks user)
      (λ c. Touches-of_creator user id c _ (λ w r o e. Move.cancel w.now e))

module _ (user id : ℕ) where
  Touches-accessible :
      (step : World → Request → Result Outcome)
      → ((w : World) (r : Request) (o : Outcome) → step w r ≡ ok o → Move r o)
      → Touches (transact user (accessible_to user id) step) (OfUnit user)
  Touches-accessible step moved =
      Touches-transact user (accessible_to user id) step
        (λ w r found.
          find_by_id_for_units-listed (accessible_unit_ids w.dir user) id w.requests found)
        moved

pub approve_accessible_request-Touches :
    (user id : ℕ) (reason : Option Text)
    → Touches (approve_accessible_request user id reason) (OfUnit user)
unfolding approve_accessible_request
approve_accessible_request-Touches user id reason =
    Touches-accessible user id _ (λ w r o e. Move.owner_approve reason user w.now e)

pub reject_accessible_request-Touches :
    (user id : ℕ) (reason : Text) → Touches (reject_accessible_request user id reason) (OfUnit user)
unfolding reject_accessible_request
reject_accessible_request-Touches user id reason =
    Touches-accessible user id _ (λ w r o e. Move.owner_reject reason user w.now e)
