-- ===== src/Request/World.antt =====
-- The tables that the service reads and writes, and the queries of maintenance-requests.repo.ts.
-- A handler is an action: it fails and leaves the world alone, as its transaction is rolled back,
-- or it returns the world that it leaves. `now` is the time at which it runs.
use towerdesk_backend_clean.Prelude.{
  ℕ, Bool, false, ◌&&◌, ◌||◌, Option, none, some, List, [], ◌∷◌, ◌++◌, map, ◌==◌, ltb,
  if◌then◌else◌, find, filter, any, has,
}
pub use towerdesk_backend_clean.Action.{pure, ◌>>=◌, ◌>>◌, gets, lift}
use towerdesk_backend_clean.Action as Stateful
use towerdesk_backend_clean.Directory.{Directory, Occupancy}
use towerdesk_backend_clean.Request.Types.{Request}
use towerdesk_backend_clean.Request.Outcome.{AuditEntry, Emission, Outcome}
use towerdesk_backend_clean.Request.Rows.{Comment, ReadState, Attachment, Audit, Snapshot, Event}

pub record World : Type 0 where
  pub now : ℕ
  pub next_id : ℕ
  pub estimate_ttl_hours : ℕ
  pub dir : Directory
  pub requests : List Request
  pub comments : List Comment
  pub read_states : List ReadState
  pub attachments : List Attachment
  pub audits : List Audit
  pub events : List Event

abbrev pub Action : Type 0 → Type 0
Action A = Stateful.Action World A

-- `toEventRequest`
abbrev pub snapshot : Request → Snapshot
snapshot r = record {
  id = r.id;
  org_id = r.org_id;
  building_id = r.building_id;
  unit_id = r.unit_id;
  title = r.title;
  status = r.status;
  owner_approval_status = r.approval.status;
  created_by_user_id = r.created_by_user_id;
  assigned_to_user_id = r.assignment.assigned_to_user_id;
  service_provider_id = r.assignment.service_provider_id;
  service_provider_assigned_user_id = r.assignment.service_provider_assigned_user_id;
  is_emergency = r.triage.is_emergency;
  emergency_signals = r.emergency_signals;
}

-- `findByIdForBuilding`
unfoldable pub find_by_id_for_building : ℕ → ℕ → ℕ → List Request → Option Request
find_by_id_for_building org building id rs =
    find (λ r. (r.id == id) && (r.org_id == org) && (r.building_id == building)) rs

-- `findByIdForCreator`
unfoldable pub find_by_id_for_creator : ℕ → ℕ → ℕ → List Request → Option Request
find_by_id_for_creator org user id rs =
    find (λ r. (r.id == id) && (r.org_id == org) && (r.created_by_user_id == user)) rs

abbrev pub is_one_of : Option ℕ → List ℕ → Bool
is_one_of none ids = false
is_one_of (some k) ids = has ids k

-- `findByIdForServiceProviders`; its callers give no organisation.
unfoldable pub find_by_id_for_providers : List ℕ → ℕ → List Request → Option Request
find_by_id_for_providers providers id rs =
    find (λ r. (r.id == id) && is_one_of r.assignment.service_provider_id providers) rs

-- The `where` of `getAccessibleRequestRowByIdOrThrow`.
unfoldable pub find_by_id_for_units : List ℕ → ℕ → List Request → Option Request
find_by_id_for_units units id rs = find (λ r. (r.id == id) && is_one_of r.unit_id units) rs

-- `updateById`
unfoldable pub replace : ℕ → Request → List Request → List Request
replace id r [] = []
replace id r (x ∷ xs) = (if x.id == id then r else x) ∷ replace id r xs

abbrev pub is_later : Occupancy → Occupancy → Bool
is_later a b =
    ltb b.start_at a.start_at
    || ((a.start_at == b.start_at)
        && (ltb b.created_at a.created_at || ((a.created_at == b.created_at) && ltb b.id a.id)))

abbrev pub later_of : Occupancy → Option Occupancy → Option Occupancy
later_of o none = some o
later_of o (some p) = if is_later p o then some p else some o

unfoldable pub latest : List Occupancy → Option Occupancy
latest [] = none
latest (o ∷ os) = later_of o (latest os)

-- `findAssignedActiveOccupancy`: the latest active occupancy of the user in the organisation.
unfoldable pub find_active_occupancy : Directory → ℕ → ℕ → Option Occupancy
unfolding latest
find_active_occupancy dir user org = latest (
    filter
      (λ o.
        (o.resident_user_id == user)
        && o.is_active
        && any (λ b. (b.id == o.building_id) && (b.org_id == org)) dir.buildings)
      dir.occupancies)

abbrev pub to_audit : Request → ℕ → ℕ → AuditEntry → Audit
to_audit r actor now entry = record {
  request_id = r.id;
  org_id = r.org_id;
  actor_user_id = actor;
  entry = entry;
  created_at = now;
}

abbrev pub to_event : Request → Request → ℕ → Emission → Event
to_event r r' actor e = record {
  kind = e.kind;
  request = snapshot r';
  previous_request = if e.has_previous then some (snapshot r) else none;
  actor_user_id = some actor;
  actor_is_resident = none;
  comment = none;
}

-- The row is written, the audit rows are added, and the events go out.
unfoldable pub commit : ℕ → Request → Outcome → World → World
unfolding replace
commit actor r o w = record w {
  requests = replace r.id o.request w.requests;
  audits = w.audits ++ map (to_audit o.request actor w.now) o.audits;
  events = w.events ++ map (to_event r o.request actor) o.emissions;
}
