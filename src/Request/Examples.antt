-- ===== src/Request/Examples.antt =====
-- A small organisation and the run of one request through it, for the tests.
use towerdesk_backend_clean.Prelude.{
  ℕ, ◌≡◌, refl, true, Option, none, some, [], ◌∷◌, codes, inl, inr,
}
use towerdesk_backend_clean.Directory.{
  Directory, Occupancy, ScopeType, PermissionKey, PermissionEffect, RoleKey, RoleTemplate,
  AccessAssignment, ProviderRole, GrantStatus,
}
use towerdesk_backend_clean.Result.{Result, ok, err, is_ok}
use towerdesk_backend_clean.Request.Steps.Residents.{CreateDto}
use towerdesk_backend_clean.Request.Steps.Approvals.{TriageDto, RequireDto}
use towerdesk_backend_clean.Request.World.{World, Action}
use towerdesk_backend_clean.Request.Callers.{AuthUser}
use towerdesk_backend_clean.Request.Effects.{Result-cases}

abbrev pub manager_role : RoleTemplate
manager_role = record {
  key = RoleKey.building_manager;
  is_system = true;
  org_id = some 10;
  scope_type = ScopeType.building;
  permissions = PermissionKey.requests_assign ∷ PermissionKey.requests_owner_approval_override ∷ [];
}

abbrev pub staff_role : RoleTemplate
staff_role = record {
  key = RoleKey.building_staff;
  is_system = true;
  org_id = some 10;
  scope_type = ScopeType.building;
  permissions =
      PermissionKey.requests_read ∷ PermissionKey.requests_comment
      ∷ PermissionKey.requests_update_status ∷ [];
}

abbrev in_tower : ℕ → RoleTemplate → AccessAssignment
in_tower user role = record {
  user_id = user;
  scope_type = ScopeType.building;
  scope_id = some 1;
  role_template = role;
}

abbrev pub first_occupancy : Occupancy
first_occupancy = record {
  id = 20;
  building_id = 1;
  unit_id = 3;
  resident_user_id = 2;
  is_active = true;
  start_at = 100;
  created_at = 100;
  lease_id = some 30;
  lease_is_active = true;
}

-- Manager 5, staff 6, resident 2 of unit 3, owner's user 4, and provider 7 with its admin 8.
abbrev pub tower : Directory
tower = record {
  buildings = record { id = 1; org_id = 10 } ∷ [];
  users = record { id = 6; is_active = true; org_id = some 10 } ∷ [];
  occupancies = first_occupancy ∷ [];
  assignments = in_tower 5 manager_role ∷ in_tower 6 staff_role ∷ [];
  user_permissions =
      record { user_id = 6; key = PermissionKey.requests_comment; effect = PermissionEffect.deny }
      ∷ [];
  providers = record { id = 7; is_active = true } ∷ [];
  provider_buildings = record { service_provider_id = 7; building_id = 1 } ∷ [];
  provider_users =
      record {
        service_provider_id = 7;
        user_id = 8;
        role = ProviderRole.admin;
        is_active = true;
        user_is_active = true;
        provider_is_active = true;
      }
      ∷ [];
  provider_grants = [];
  owners = record { id = 40; is_active = true } ∷ [];
  owner_grants = record { owner_id = 40; user_id = 4; status = GrantStatus.active } ∷ [];
  ownerships = record { owner_id = 40; unit_id = 3; is_current = true } ∷ [];
  units = record { id = 3; owner_id = none } ∷ [];
}

abbrev pub start : World
start = record {
  now = 1000;
  next_id = 1;
  estimate_ttl_hours = 48;
  dir = tower;
  requests = [];
  comments = [];
  read_states = [];
  attachments = [];
  audits = [];
  events = [];
}

abbrev pub user_of : ℕ → Option AuthUser
user_of id = some (record { sub = some id; org_id = some 10 })

abbrev pub new_door : CreateDto
new_door = record {
  title = codes "door";
  description = none;
  type = none;
  priority = none;
  is_emergency = none;
  emergency_signals = none;
}

abbrev pub no_triage : TriageDto
no_triage = record {
  estimated_amount = none;
  estimated_currency = none;
  is_emergency = none;
  is_like_for_like = none;
  is_upgrade = none;
  is_major_replacement = none;
  is_responsibility_disputed = none;
}

abbrev pub ask_owner : RequireDto
ask_owner = record {
  triage = no_triage;
  approval_required_reason = codes "upgrade";
  owner_approval_deadline_at = some 5000;
}

-- What a computation that succeeds leaves, and something else where it fails.
abbrev pub value : {A : Type 0} → Result A → A → A
value (ok a) d = a
value (err e) d = d

pub value-eq_ok : {A : Type 0} (x : Result A) (d : A) → is_ok x ≡ true → x ≡ ok (value x d)
value-eq_ok (ok a) d h = refl
value-eq_ok (err e) d h = absurd (cc)

abbrev pub left_by : {A : Type 0} → Result (A × World) → World → World
left_by (ok a) d = a.1
left_by (err e) d = d

-- The world that an action leaves, or the one where it failed.
abbrev pub after : {A : Type 0} → Action A → World → World
after m w = left_by (m w) w

pub after-eq_ok :
    {A : Type 0} (m : Action A) (w : World)
    → is_ok (m w) ≡ true
    → (a : A) × (m w ≡ ok (a, after m w))
after-eq_ok m w h = elim (Result-cases (m w)) [
  | inl (e, p) ↦ absurd (cc)
  | inr ((a, v), p) ↦ (a, rw p refl)
]
