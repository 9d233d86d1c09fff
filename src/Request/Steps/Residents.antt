-- ===== src/Request/Steps/Residents.antt =====
-- What a resident writes: the rows of `createResidentRequest` and `updateResidentRequest`.
use towerdesk_backend_clean.Prelude.{
  ℕ, Bool, true, false, not, ◌||◌, Option, none, some, List, [], ◌∷◌, if◌then◌else◌, is_some,
  is_true, filter, or_else, or_option, Text,
}
use towerdesk_backend_clean.Directory.{Occupancy}
use towerdesk_backend_clean.Request.Types.{Status, EmergencySignal, RequestType, Priority, Request}
use towerdesk_backend_clean.Result.{
  Result, ok, conflict, bad_request, request_cannot_be_edited, no_changes_provided, throw_if, ◌>>◌,
}
use towerdesk_backend_clean.Request.Outcome.{Outcome, silent}
use towerdesk_backend_clean.Request.Steps.Lifecycle.{no_estimate}
use towerdesk_backend_clean.Request.Steps.Estimates.{no_approval}

abbrev pub same_signal : EmergencySignal → EmergencySignal → Bool
same_signal EmergencySignal.active_leak EmergencySignal.active_leak = true
same_signal EmergencySignal.no_power EmergencySignal.no_power = true
same_signal EmergencySignal.safety_risk EmergencySignal.safety_risk = true
same_signal EmergencySignal.no_cooling EmergencySignal.no_cooling = true
same_signal _ _ = false

-- `[...new Set(values)]` of `normalizeEmergencySignals`: each signal once, where it first stands.
unfoldable pub normalize_signals : List EmergencySignal → List EmergencySignal
normalize_signals [] = []
normalize_signals (s ∷ ss) = s ∷ filter (λ x. not (same_signal x s)) (normalize_signals ss)

-- `CreateResidentRequestDto`, its attachments apart.
pub record CreateDto : Type 0 where
  pub title : Text
  pub description : Option Text
  pub type : Option RequestType
  pub priority : Option Priority
  pub is_emergency : Option Bool
  pub emergency_signals : Option (List EmergencySignal)

abbrev pub is_nonempty : List EmergencySignal → Bool
is_nonempty [] = false
is_nonempty (s ∷ ss) = true

-- The row that `createResidentRequest` inserts.
unfoldable pub new_request : ℕ → ℕ → ℕ → ℕ → Occupancy → CreateDto → Request
unfolding normalize_signals
new_request id org user now occupancy dto =
    let signals = normalize_signals (or_else dto.emergency_signals []) in
    record {
      id = id;
      org_id = org;
      building_id = occupancy.building_id;
      unit_id = some occupancy.unit_id;
      occupancy_id_at_creation = some occupancy.id;
      lease_id_at_creation = if occupancy.lease_is_active then occupancy.lease_id else none;
      created_by_user_id = user;
      title = dto.title;
      description = dto.description;
      type = dto.type;
      priority = dto.priority;
      status = Status.opened;
      assignment = record {
        assigned_to_user_id = none;
        service_provider_id = none;
        service_provider_assigned_user_id = none;
        assigned_at = none;
      };
      estimate = no_estimate;
      approval = no_approval;
      triage = record {
        estimated_amount = none;
        estimated_currency = none;
        is_emergency = is_true dto.is_emergency || is_nonempty signals;
        is_like_for_like = none;
        is_upgrade = none;
        is_major_replacement = none;
        is_responsibility_disputed = none;
      };
      emergency_signals = signals;
      completed_at = none;
      canceled_at = none;
      created_at = now;
    }

-- `UpdateResidentRequestDto`
pub record UpdateDto : Type 0 where
  pub title : Option Text
  pub description : Option Text
  pub type : Option RequestType
  pub priority : Option Priority
  pub is_emergency : Option Bool
  pub emergency_signals : Option (List EmergencySignal)

abbrev is_opened : Status → Bool
is_opened Status.opened = true
is_opened _ = false

abbrev has_changes : UpdateDto → Bool
has_changes dto =
    is_some dto.title
    || is_some dto.description
    || is_some dto.type
    || is_some dto.priority
    || is_some dto.is_emergency
    || is_some dto.emergency_signals

updated_signals : UpdateDto → Request → List EmergencySignal
unfolding normalize_signals
updated_signals dto r = elim dto.emergency_signals [
  | some ss ↦ normalize_signals ss
  | none ↦ r.emergency_signals
]

-- `updateResidentRequest`
unfoldable pub update_resident_step : UpdateDto → Request → Result Outcome
unfolding updated_signals
update_resident_step dto r = do
  throw_if (not (is_opened r.status)) (conflict request_cannot_be_edited)
  throw_if (not (has_changes dto)) (bad_request no_changes_provided)
  ok (
      silent (record r {
        title = or_else dto.title r.title;
        description = or_option dto.description r.description;
        type = or_option dto.type r.type;
        priority = or_option dto.priority r.priority;
        triage = record r.triage {
          is_emergency =
              if is_some dto.is_emergency || is_some dto.emergency_signals
              then is_true dto.is_emergency || is_nonempty (updated_signals dto r)
              else r.triage.is_emergency;
        };
        emergency_signals = updated_signals dto r;
      }))
