-- ===== src/Result.antt =====
-- The exceptions of the services as values: the class and the message.
use towerdesk_backend_clean.Prelude.{◌≡◌, Bool, true, false, Option, none, some}

pub data Reason : Type 0 where
  org_scope_required building_not_found request_not_found active_occupancy_required : Reason
  no_permission staff_cannot_assign staff_cannot_request_estimates : Reason
  staff_cannot_request_approval staff_cannot_update_triage staff_cannot_submit_estimates : Reason
  staff_cannot_cancel : Reason
  request_cannot_be_edited no_changes_provided request_cannot_be_canceled request_is_closed : Reason
  not_open_or_assigned staff_not_in_org staff_lacks_access staff_not_assigned_to_building : Reason
  provider_not_found_or_inactive provider_not_linked approval_is_pending : Reason
  not_awaiting_estimate no_provider_yet provider_no_longer_active not_a_provider_member : Reason
  not_assigned_to_provider invalid_status_transition request_has_no_unit : Reason
  approval_already_requested approval_not_pending approval_not_requested_yet : Reason
  no_triage_changes only_pending_overridden deadline_not_expired : Reason
  blocked_by_owner_approval blocked_by_estimate needs_owner_approval : Reason
  slot_code_exists slot_not_found slots_not_found slots_already_allocated : Reason
  not_enough_slots either_target either_slots occupancy_not_found occupancy_not_active : Reason
  no_active_lease unit_not_found allocation_not_found allocation_already_ended : Reason
  plate_number_exists vehicle_not_found csv_required terminal_only : Reason

pub data Error : Type 0 where
  unauthorized unique_violation record_not_found : Error
  forbidden bad_request conflict not_found : Reason → Error

pub data Result {ℓ} (A : Type ℓ) : Type ℓ where
  err : Error → Result A
  ok : A → Result A

-- What follows a statement that may throw.
infixl 5 ◌>>=◌
abbrev pub ◌>>=◌ {ℓ κ} :
    {Found : Type ℓ} {T : Type κ} → Result Found → (Found → Result T) → Result T
err thrown >>= next = err thrown
ok found >>= next = next found

infixl 5 ◌>>◌
abbrev pub ◌>>◌ {κ} : {T : Type κ} → Result (Unit {0}) → Result T → Result T
test >> rest = test >>= λ passed. rest

-- `if (c) { throw e; }`
abbrev pub throw_if : Bool → Error → Result (Unit {0})
throw_if true e = err e
throw_if false e = ok tt

-- `if (!x) { throw e; }`, which leaves the value.
abbrev pub or_throw {ℓ} : {A : Type ℓ} → Option A → Error → Result A
or_throw none e = err e
or_throw (some a) e = ok a

abbrev pub is_ok {ℓ} : {A : Type ℓ} → Result A → Bool
is_ok (ok a) = true
is_ok (err e) = false

pub ok_same {ℓ} : {A : Type ℓ} {a b : A} → ok a ≡ ok b → a ≡ b
ok_same e = cc
