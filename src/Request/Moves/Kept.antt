-- ===== src/Request/Moves/Kept.antt =====
-- That approvals, estimates and edits keep a row valid, and so every transaction.
use towerdesk_backend_clean.Prelude.{ℕ, ◌≡◌, Bool, Option, arith, Text}
use towerdesk_backend_clean.Request.Types.{DecisionSource, Request}
use towerdesk_backend_clean.Request.Outcome.{Outcome}
use towerdesk_backend_clean.Result.{ok}
use towerdesk_backend_clean.Request.Steps.Approvals.{
  require_approval_step, request_approval_now_step, mark_requested_step, update_triage_step,
  override_step, owner_approve_step, owner_reject_step,
}
use towerdesk_backend_clean.Request.Steps.Estimates.{request_estimate_step, submit_estimate_step}
use towerdesk_backend_clean.Request.Steps.Residents.{update_resident_step}
use towerdesk_backend_clean.Request.Moves.{Move}
use towerdesk_backend_clean.Directory.{Directory}
use towerdesk_backend_clean.Request.Steps.Approvals.{TriageDto, RequireDto}
use towerdesk_backend_clean.Request.Steps.Estimates.{SubmitDto}
use towerdesk_backend_clean.Request.Steps.Residents.{UpdateDto}
use towerdesk_backend_clean.Request.Steps.Guards.{assert_open_or_assigned-eq_ok}
use towerdesk_backend_clean.Request.Moves.Validity.{
  IsValid, assign-IsValid, assign_provider-IsValid, assign_worker-IsValid,
  assign_worker_from_provider-IsValid, unassign-IsValid, update_status-IsValid,
  update_provider_status-IsValid, cancel-IsValid,
}

require_approval-IsValid :
    (r : Request) {o : Outcome}
    → IsValid r
    → (dto : RequireDto) → require_approval_step dto r ≡ ok o
    → IsValid o.request
unfolding require_approval_step
require_approval-IsValid r v dto h = ground arith

request_approval_now-IsValid :
    (r : Request) {o : Outcome}
    → IsValid r
    → (dto : RequireDto) (user now : ℕ) → request_approval_now_step dto user now r ≡ ok o
    → IsValid o.request
unfolding request_approval_now_step
request_approval_now-IsValid r v dto user now h = ground arith

mark_requested-IsValid :
    (r : Request) {o : Outcome}
    → IsValid r
    → (resend : Bool) (user now : ℕ) → mark_requested_step resend user now r ≡ ok o
    → IsValid o.request
unfolding mark_requested_step
mark_requested-IsValid r v resend user now h = ground arith

update_triage-IsValid :
    (r : Request) {o : Outcome}
    → IsValid r
    → (dto : TriageDto) → update_triage_step dto r ≡ ok o
    → IsValid o.request
unfolding update_triage_step
update_triage-IsValid r v dto h = ground arith

override-IsValid :
    (r : Request) {o : Outcome}
    → IsValid r
    → (source : DecisionSource) (reason : Text) (user now : ℕ)
    → override_step source reason user now r ≡ ok o
    → IsValid o.request
unfolding override_step
override-IsValid r v source reason user now h = ground arith

owner_approve-IsValid :
    (r : Request) {o : Outcome}
    → IsValid r
    → (reason : Option Text) (user now : ℕ) → owner_approve_step reason user now r ≡ ok o
    → IsValid o.request
unfolding owner_approve_step
owner_approve-IsValid r v reason user now h = ground arith

owner_reject-IsValid :
    (r : Request) {o : Outcome}
    → IsValid r
    → (reason : Text) (user now : ℕ) → owner_reject_step reason user now r ≡ ok o
    → IsValid o.request
unfolding owner_reject_step
owner_reject-IsValid r v reason user now h = ground arith

request_estimate-IsValid :
    (r : Request) {o : Outcome}
    → IsValid r
    → (dir : Directory) (building provider user ttl now : ℕ)
    → request_estimate_step dir building provider user ttl now r ≡ ok o
    → IsValid o.request
unfolding request_estimate_step
request_estimate-IsValid r v dir building provider user ttl now h =
    ground (arith, assert_open_or_assigned-eq_ok r)

submit_estimate-IsValid :
    (r : Request) {o : Outcome}
    → IsValid r
    → (dto : SubmitDto) (user now : ℕ) → submit_estimate_step dto user now r ≡ ok o
    → IsValid o.request
unfolding submit_estimate_step
submit_estimate-IsValid r v dto user now h = ground arith

update_resident-IsValid :
    (r : Request) {o : Outcome}
    → IsValid r
    → (dto : UpdateDto) → update_resident_step dto r ≡ ok o
    → IsValid o.request
unfolding update_resident_step
update_resident-IsValid r v dto h = ground arith

-- Every transaction of the service keeps a row valid: it has a staff assignee or a provider, never
-- both, a worker only under a provider, an end stamped exactly when it has ended, a decision
-- stamped and sourced exactly when it is approved or rejected, a rejection only by an owner, an
-- approval only with a unit, an outstanding estimate only with a provider and a due date, and a
-- reminder only of an outstanding estimate.
pub Move-IsValid : {r : Request} {o : Outcome} → IsValid r → Move r o → IsValid o.request
Move-IsValid {r} v (Move.assign dir org b s now h) = assign-IsValid r v dir org b s now h
Move-IsValid {r} v (Move.assign_provider dir b p now h) = assign_provider-IsValid r v dir b p now h
Move-IsValid {r} v (Move.assign_worker dir w now h) = assign_worker-IsValid r v dir w now h
Move-IsValid {r} v (Move.assign_worker_from_provider dir a w now h) =
    assign_worker_from_provider-IsValid r v dir a w now h
Move-IsValid {r} v (Move.unassign h) = unassign-IsValid r v h
Move-IsValid {r} v (Move.update_status a u to now h) = update_status-IsValid r v a u to now h
Move-IsValid {r} v (Move.update_provider_status a u to now h) =
    update_provider_status-IsValid r v a u to now h
Move-IsValid {r} v (Move.cancel now h) = cancel-IsValid r v now h
Move-IsValid {r} v (Move.require_approval dto h) = require_approval-IsValid r v dto h
Move-IsValid {r} v (Move.request_approval_now dto u now h) =
    request_approval_now-IsValid r v dto u now h
Move-IsValid {r} v (Move.mark_requested x u now h) = mark_requested-IsValid r v x u now h
Move-IsValid {r} v (Move.update_triage dto h) = update_triage-IsValid r v dto h
Move-IsValid {r} v (Move.override s x u now h) = override-IsValid r v s x u now h
Move-IsValid {r} v (Move.owner_approve x u now h) = owner_approve-IsValid r v x u now h
Move-IsValid {r} v (Move.owner_reject x u now h) = owner_reject-IsValid r v x u now h
Move-IsValid {r} v (Move.request_estimate dir b p u ttl now h) =
    request_estimate-IsValid r v dir b p u ttl now h
Move-IsValid {r} v (Move.submit_estimate dto u now h) = submit_estimate-IsValid r v dto u now h
Move-IsValid {r} v (Move.update_resident dto h) = update_resident-IsValid r v dto h
