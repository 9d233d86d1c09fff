-- ===== src/Request/Tests.antt =====
-- Runs of the example through the theorems.
pub mod Moves
pub mod Rules
pub mod Access
pub mod Policy
pub mod Progress
use towerdesk_backend_clean.Prelude.{
  ℕ, ◌≡◌, ◌⊎◌, ◌≢◌, refl, Bool, true, false, Option, none, some, List, [], ◌∷◌, codes, All, trim,
}
use mathlib.Core.List.{Memᴰ}
use towerdesk_backend_clean.Access.{
  user_scoped_assignments, role_permission_keys, user_effective_permissions, apply_overrides,
  is_building_in_org, building_access_context, accessible_unit_ids, is_granted_owner,
}
use towerdesk_backend_clean.Request.Types.{Status, Request, Approval}
use towerdesk_backend_clean.Result.{ok, is_ok}
use towerdesk_backend_clean.Request.World.{
  World, Action, find_active_occupancy, latest, replace, commit, find_by_id_for_building,
  find_by_id_for_creator, find_by_id_for_units,
}
use towerdesk_backend_clean.Request.Callers.{
  AuthUser, org_caller, building_caller, manager, resident_caller, transact,
}
use towerdesk_backend_clean.Request.Service.{
  create_resident_request, insert_request, request_owner_approval_now, cancel_resident_request,
  approve_accessible_request,
}
use towerdesk_backend_clean.Request.Steps.Residents.{normalize_signals, new_request}
use towerdesk_backend_clean.Request.Steps.Guards.{is_closed, assert_open_for_approval}
use towerdesk_backend_clean.Request.Steps.Approvals.{
  awaiting, request_approval_now_step, owner_approve_step, build_triage,
}
use towerdesk_backend_clean.Request.Steps.Lifecycle.{cancel_step}
use towerdesk_backend_clean.Request.Operations.{Operation, run, MayTouch}
use towerdesk_backend_clean.Request.Runs.{Happens, Runs, IsSound, IsTrailed}
use towerdesk_backend_clean.Request.Runs.Soundness.{Runs-IsSound}
use towerdesk_backend_clean.Request.Runs.Isolation.{run-isolated}
use towerdesk_backend_clean.Request.Runs.Closing.{Runs-closed}
use towerdesk_backend_clean.Request.Runs.Trail.{Runs-IsTrailed}
use towerdesk_backend_clean.Request.Examples.{
  first_occupancy, start, tower, user_of, new_door, ask_owner, after, after-eq_ok,
}

abbrev created : World
created = after (create_resident_request (user_of 2) new_door []) start

create_works : is_ok (create_resident_request (user_of 2) new_door [] start) ≡ true
unfolding create_resident_request insert_request org_caller find_active_occupancy latest
    normalize_signals new_request
create_works = refl

start-IsSound : IsSound start
start-IsSound = record { rows_valid = tt; ids_distinct = tt; ids_used = tt }

abbrev creating : Happens start created
creating =
    Happens.create (user_of 2) new_door []
      (after-eq_ok (create_resident_request (user_of 2) new_door []) start create_works).1

Runs-IsSound_example : IsSound created
Runs-IsSound_example = Runs-IsSound (Runs.then Runs.done creating) start-IsSound

abbrev asking : Operation
asking = Operation.request_owner_approval_now (user_of 5) 1 1 ask_owner

abbrev asked : World
asked = after (run asking) created

ask_works : is_ok (run asking created) ≡ true
unfolding run request_owner_approval_now manager building_caller org_caller is_building_in_org
    building_access_context user_scoped_assignments user_effective_permissions transact
    find_by_id_for_building request_approval_now_step build_triage assert_open_for_approval commit
    replace create_resident_request insert_request find_active_occupancy latest normalize_signals
    new_request
ask_works = refl

asking_happens : Happens created asked
asking_happens = Happens.operate asking (after-eq_ok (run asking) created ask_works).1

-- The request as it is created.
abbrev door : Request
door = new_request 1 10 2 1000 first_occupancy new_door

door-listed : Memᴰ door created.requests
unfolding create_resident_request insert_request org_caller find_active_occupancy latest
    normalize_signals new_request
door-listed = Memᴰ.head refl

created-IsSound : IsSound created
created-IsSound = Runs-IsSound (Runs.then Runs.done creating) start-IsSound

run-isolated_example : Memᴰ door asked.requests ⊎ MayTouch asking created door
run-isolated_example =
    run-isolated asking created-IsSound (after-eq_ok (run asking) created ask_works).1 door-listed

Runs-IsTrailed_example : All (IsTrailed asked.audits) asked.requests
Runs-IsTrailed_example = Runs-IsTrailed (Runs.then (Runs.then Runs.done creating) asking_happens) tt

abbrev canceling : Operation
canceling = Operation.cancel_resident_request (user_of 2) 1

abbrev canceled : World
canceled = after (run canceling) asked

abbrev approving : Operation
approving = Operation.approve_accessible_request 4 1 none

abbrev approved : World
approved = after (run approving) canceled

-- The request after its approval was asked for and it was canceled.
abbrev canceled_door : Request
canceled_door = record door {
  approval = awaiting (codes "upgrade") (some 1000) (some 5) (some 5000);
  status = Status.canceled;
  canceled_at = some 1000;
}

cancel_works : is_ok (run canceling asked) ≡ true
unfolding run request_owner_approval_now manager building_caller org_caller is_building_in_org
    building_access_context user_scoped_assignments user_effective_permissions transact
    find_by_id_for_building request_approval_now_step build_triage assert_open_for_approval commit
    replace create_resident_request insert_request find_active_occupancy latest normalize_signals
    new_request cancel_resident_request resident_caller find_by_id_for_creator cancel_step
cancel_works = refl

approve_works : is_ok (run approving canceled) ≡ true
unfolding run request_owner_approval_now manager building_caller org_caller is_building_in_org
    building_access_context user_scoped_assignments user_effective_permissions transact
    find_by_id_for_building request_approval_now_step build_triage assert_open_for_approval commit
    replace create_resident_request insert_request find_active_occupancy latest normalize_signals
    new_request cancel_resident_request resident_caller find_by_id_for_creator cancel_step
    approve_accessible_request find_by_id_for_units accessible_unit_ids owner_approve_step
approve_works = refl

canceled_door-listed : Memᴰ canceled_door canceled.requests
unfolding run request_owner_approval_now manager building_caller org_caller is_building_in_org
    building_access_context user_scoped_assignments user_effective_permissions transact
    find_by_id_for_building request_approval_now_step build_triage assert_open_for_approval commit
    replace create_resident_request insert_request find_active_occupancy latest normalize_signals
    new_request cancel_resident_request resident_caller find_by_id_for_creator cancel_step
canceled_door-listed = Memᴰ.head refl

canceling_happens : Happens asked canceled
canceling_happens = Happens.operate canceling (after-eq_ok (run canceling) asked cancel_works).1

approving_happens : Happens canceled approved
approving_happens = Happens.operate approving (after-eq_ok (run approving) canceled approve_works).1

canceled-IsSound : IsSound canceled
canceled-IsSound =
    Runs-IsSound (Runs.then (Runs.then Runs.done asking_happens) canceling_happens) created-IsSound

Runs-closed_example :
    (a : Approval) × Memᴰ (record canceled_door { approval = a }) approved.requests
Runs-closed_example =
    Runs-closed (Runs.then Runs.done approving_happens) canceled-IsSound canceled_door-listed refl
