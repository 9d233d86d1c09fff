-- ===== src/Access.antt =====
-- Who may do what: access-control.service.ts and access-control.repo.ts (effective permissions),
-- building-access.service.ts, provider-access.service.ts, and the scope of an owner of
-- owner-portfolio-scope.service.ts.
pub mod Permissions
pub mod Scopes
use towerdesk_backend_clean.Prelude.{
  ℕ, Bool, true, false, not, ◌&&◌, ◌||◌, Option, none, some, List, [], ◌∷◌, ◌++◌, map, ◌==◌,
  if◌then◌else◌, is_id, filter, any, all, find, has, length,
}
use towerdesk_backend_clean.Directory.{
  Directory, ScopeType, PermissionKey, RoleKey, PermissionEffect, RoleTemplate, AccessAssignment,
  UserPermission, Building, ProviderRole, ProviderUser, GrantStatus, ProviderGrant, Owner,
  OwnerGrant, UnitOwnership, UnitRow, key_eq,
}

abbrev pub is_org_scope : ScopeType → Bool
is_org_scope ScopeType.org = true
is_org_scope ScopeType.building = false

abbrev pub is_building_scope : ScopeType → Bool
is_building_scope ScopeType.org = false
is_building_scope ScopeType.building = true

-- `isVisibleRoleTemplate`, on the key and on the flag.
is_visible : RoleKey → Bool → Bool
is_visible RoleKey.platform_superadmin is_system = false
is_visible (RoleKey.custom n) is_system = not is_system
is_visible _ is_system = true

-- Two nullable ids are equal.
abbrev pub same_id : Option ℕ → Option ℕ → Bool
same_id none none = true
same_id (some a) (some b) = a == b
same_id _ _ = false

abbrev pub is_null : Option ℕ → Bool
is_null none = true
is_null (some a) = false

abbrev is_of_org : AccessAssignment → Bool
is_of_org a =
    is_org_scope a.scope_type && is_null a.scope_id && is_org_scope a.role_template.scope_type

-- The `where` of `getUserScopedAccess`. The organisation is asked for only with a building: without
-- one, the `roleTemplate` that is spread later takes the place of the one with `orgId`.
in_scope : Option ℕ → Option ℕ → AccessAssignment → Bool
in_scope org none a = is_of_org a
in_scope org (some b) a =
    same_id a.role_template.org_id org
    && (is_of_org a
        || (is_building_scope a.scope_type
            && is_id a.scope_id b
            && is_building_scope a.role_template.scope_type))

-- `getUserScopedAssignments`: the visible assignments of a user in a building of an organisation, or
-- in any organisation if no building is given.
unfoldable pub user_scoped_assignments : Directory → ℕ → Option ℕ → Option ℕ → List AccessAssignment
unfolding in_scope is_visible
user_scoped_assignments dir user org building =
    filter (λ a. is_visible a.role_template.key a.role_template.is_system)
      (filter (λ a. (a.user_id == user) && in_scope org building a) dir.assignments)

abbrev pub has_key : List PermissionKey → PermissionKey → Bool
has_key [] k = false
has_key (x ∷ xs) k = key_eq x k || has_key xs k

pub role_permission_keys : List AccessAssignment → List PermissionKey
role_permission_keys [] = []
role_permission_keys (a ∷ rest) = a.role_template.permissions ++ role_permission_keys rest

abbrev apply_effect : PermissionEffect → PermissionKey → List PermissionKey → List PermissionKey
apply_effect PermissionEffect.allow k keys = k ∷ keys
apply_effect PermissionEffect.deny k keys = filter (λ x. not (key_eq x k)) keys

-- The loop over the overrides: `effective.add` and `effective.delete`.
pub apply_overrides : List UserPermission → List PermissionKey → List PermissionKey
apply_overrides [] keys = keys
apply_overrides (o ∷ os) keys = apply_overrides os (apply_effect o.effect o.key keys)

-- `getUserEffectivePermissions`; the set as a list, which only `has` reads.
unfoldable pub user_effective_permissions : Directory → ℕ → Option ℕ → Option ℕ → List PermissionKey
unfolding user_scoped_assignments role_permission_keys apply_overrides
user_effective_permissions dir user org building =
    apply_overrides (filter (λ o. o.user_id == user) dir.user_permissions)
      (role_permission_keys (user_scoped_assignments dir user org building))

-- `assertBuildingInOrg`, as a test.
unfoldable pub is_building_in_org : Directory → ℕ → ℕ → Bool
is_building_in_org dir building org =
    any (λ b. (b.id == building) && (b.org_id == org)) dir.buildings

-- `getBuildingAccessContext` of the request service.
pub record BuildingAccess : Type 0 where
  pub has_any_building_access : Bool
  pub is_building_staff_only : Bool

unfoldable pub building_access_context : Directory → ℕ → ℕ → ℕ → BuildingAccess
unfolding user_scoped_assignments user_effective_permissions
building_access_context dir user org building =
    let any_access =
      any (λ a. is_building_scope a.scope_type)
        (user_scoped_assignments dir user (some org) (some building)) in
    let elevated =
      has_key (user_effective_permissions dir user (some org) (some building))
        PermissionKey.requests_assign in
    record {
      has_any_building_access = any_access;
      is_building_staff_only = any_access && not elevated;
    }

abbrev pub is_active_grant : GrantStatus → Bool
is_active_grant GrantStatus.active = true
is_active_grant _ = false

abbrev is_admin : ProviderRole → Bool
is_admin ProviderRole.admin = true
is_admin ProviderRole.worker = false

-- `toAccessibleMembership`: grants, where there are any, must include an active one.
is_accessible : Directory → ℕ → ProviderUser → Bool
is_accessible dir user m =
    let grants =
      filter (λ g. (g.service_provider_id == m.service_provider_id) && (g.user_id == user))
        dir.provider_grants in
    elim grants [ [] ↦ true | g ∷ gs ↦ any (λ h. is_active_grant h.status) (g ∷ gs) ]

-- `findActiveMembershipsForUser` and `listAccessibleMemberships`.
unfoldable pub accessible_memberships : Directory → ℕ → List ProviderUser
unfolding is_accessible
accessible_memberships dir user = filter (is_accessible dir user) (
    filter (λ m. (m.user_id == user) && m.is_active && m.user_is_active && m.provider_is_active)
      dir.provider_users)

-- `getAccessibleProviderContext`, and `getProviderAccessContext` of the request service; none
-- where the source throws.
pub record ProviderAccess : Type 0 where
  pub provider_ids : List ℕ
  pub manager_provider_ids : List ℕ

unfoldable pub provider_access_context : Directory → ℕ → Option ProviderAccess
unfolding accessible_memberships
provider_access_context dir user = elim (accessible_memberships dir user) [
  | [] ↦ none
  | m ∷ ms ↦ some (record {
    provider_ids = map (λ (x : ProviderUser). x.service_provider_id) (m ∷ ms);
    manager_provider_ids =
        map (λ (x : ProviderUser). x.service_provider_id) (filter (λ x. is_admin x.role) (m ∷ ms));
  })
]

-- An active owner, with an active grant for the user.
pub is_granted_owner : Directory → ℕ → ℕ → Bool
is_granted_owner dir user owner =
    any (λ o. (o.id == owner) && o.is_active) dir.owners
    && any (λ g. (g.owner_id == owner) && (g.user_id == user) && is_active_grant g.status)
        dir.owner_grants

-- `loadActiveOwnerGrantRows`: the owners that a user acts for.
active_owner_ids : Directory → ℕ → List ℕ
unfolding is_granted_owner
active_owner_ids dir user =
    map (λ (g : OwnerGrant). g.owner_id)
      (filter
        (λ g.
          (g.user_id == user)
          && is_active_grant g.status
          && any (λ o. (o.id == g.owner_id) && o.is_active) dir.owners)
        dir.owner_grants)

abbrev is_granted : Directory → ℕ → List ℕ → Option ℕ → Bool
is_granted dir user owners none = false
is_granted dir user owners (some o) = has owners o && is_granted_owner dir user o

-- `loadAccessibleUnitScope`: the units whose current ownership, or, where they have none, whose
-- own row names an owner that the user acts for.
unfoldable pub accessible_unit_ids : Directory → ℕ → List ℕ
unfolding active_owner_ids is_granted_owner
accessible_unit_ids dir user =
    let owners = active_owner_ids dir user in
    map (λ (w : UnitOwnership). w.unit_id)
      (filter (λ w. has owners w.owner_id && w.is_current && is_granted_owner dir user w.owner_id)
        dir.ownerships)
    ++ map (λ (u : UnitRow). u.id)
        (filter
          (λ u.
            is_granted dir user owners u.owner_id
            && not (any (λ w. (w.unit_id == u.id) && w.is_current) dir.ownerships))
          dir.units)
