-- ===== src/Directory.antt =====
-- The rows of prisma/schema.prisma that the request services only read. Ids are numbers.
use towerdesk_backend_clean.Prelude.{ℕ, Bool, true, false, Option, List, ◌==◌}

pub data ScopeType : Type 0 where
  org building : ScopeType

-- `Permission.key`: the keys that the request service names, and the others by number.
pub data PermissionKey : Type 0 where
  requests_assign requests_read requests_comment requests_update_status : PermissionKey
  requests_owner_approval_override : PermissionKey
  other : ℕ → PermissionKey

-- `RoleTemplate.key`: the keys that role-defaults.ts names, and the others by number.
pub data RoleKey : Type 0 where
  platform_superadmin org_admin viewer building_admin building_manager building_staff : RoleKey
  custom : ℕ → RoleKey

pub data PermissionEffect : Type 0 where
  allow deny : PermissionEffect

pub record RoleTemplate : Type 0 where
  pub key : RoleKey
  pub is_system : Bool
  pub org_id : Option ℕ
  pub scope_type : ScopeType
  pub permissions : List PermissionKey

pub record AccessAssignment : Type 0 where
  pub user_id : ℕ
  pub scope_type : ScopeType
  pub scope_id : Option ℕ
  pub role_template : RoleTemplate

pub record UserPermission : Type 0 where
  pub user_id : ℕ
  pub key : PermissionKey
  pub effect : PermissionEffect

pub record Building : Type 0 where
  pub id : ℕ
  pub org_id : ℕ

pub record User : Type 0 where
  pub id : ℕ
  pub is_active : Bool
  pub org_id : Option ℕ

-- `lease_id` and `lease_is_active` are those of the lease of the occupancy, if it has one.
pub record Occupancy : Type 0 where
  pub id : ℕ
  pub building_id : ℕ
  pub unit_id : ℕ
  pub resident_user_id : ℕ
  pub is_active : Bool
  pub start_at : ℕ
  pub created_at : ℕ
  pub lease_id : Option ℕ
  pub lease_is_active : Bool

pub record ServiceProvider : Type 0 where
  pub id : ℕ
  pub is_active : Bool

pub record ProviderBuilding : Type 0 where
  pub service_provider_id : ℕ
  pub building_id : ℕ

pub data ProviderRole : Type 0 where
  admin worker : ProviderRole

-- A row of `ServiceProviderUser`; `user_is_active` and `provider_is_active` are joined.
pub record ProviderUser : Type 0 where
  pub service_provider_id : ℕ
  pub user_id : ℕ
  pub role : ProviderRole
  pub is_active : Bool
  pub user_is_active : Bool
  pub provider_is_active : Bool

pub data GrantStatus : Type 0 where
  pending active disabled : GrantStatus

pub record ProviderGrant : Type 0 where
  pub service_provider_id : ℕ
  pub user_id : ℕ
  pub status : GrantStatus

pub record Owner : Type 0 where
  pub id : ℕ
  pub is_active : Bool

pub record OwnerGrant : Type 0 where
  pub owner_id : ℕ
  pub user_id : ℕ
  pub status : GrantStatus

-- A row of `UnitOwnership`; `is_current` says that `endDate` is null.
pub record UnitOwnership : Type 0 where
  pub owner_id : ℕ
  pub unit_id : ℕ
  pub is_current : Bool

-- A unit with the owner that the row itself names.
pub record UnitRow : Type 0 where
  pub id : ℕ
  pub owner_id : Option ℕ

pub record Directory : Type 0 where
  pub buildings : List Building
  pub users : List User
  pub occupancies : List Occupancy
  pub assignments : List AccessAssignment
  pub user_permissions : List UserPermission
  pub providers : List ServiceProvider
  pub provider_buildings : List ProviderBuilding
  pub provider_users : List ProviderUser
  pub provider_grants : List ProviderGrant
  pub owners : List Owner
  pub owner_grants : List OwnerGrant
  pub ownerships : List UnitOwnership
  pub units : List UnitRow

-- Equality of keys, as `Set.has` tests it.
abbrev pub key_eq : PermissionKey → PermissionKey → Bool
key_eq PermissionKey.requests_assign PermissionKey.requests_assign = true
key_eq PermissionKey.requests_read PermissionKey.requests_read = true
key_eq PermissionKey.requests_comment PermissionKey.requests_comment = true
key_eq PermissionKey.requests_update_status PermissionKey.requests_update_status = true
key_eq PermissionKey.requests_owner_approval_override
      PermissionKey.requests_owner_approval_override =
    true
key_eq (PermissionKey.other m) (PermissionKey.other n) = m == n
key_eq _ _ = false
