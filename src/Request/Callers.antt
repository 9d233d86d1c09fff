-- ===== src/Request/Callers.antt =====
-- Who calls: the checks with which every handler of maintenance-requests.service.ts begins, and the
-- shape that its transactions share.
use towerdesk_backend_clean.Prelude.{ℕ, not, Option, none, some}
use towerdesk_backend_clean.Access.{
  BuildingAccess, ProviderAccess, is_building_in_org, building_access_context,
  provider_access_context,
}
use towerdesk_backend_clean.Request.Types.{Request}
use towerdesk_backend_clean.Result.{
  Reason, Result, ok, err, unauthorized, forbidden, not_found, org_scope_required,
  building_not_found, request_not_found, active_occupancy_required, no_permission, throw_if,
  or_throw,
}
use towerdesk_backend_clean.Request.Outcome.{Outcome}
use towerdesk_backend_clean.Request.World.{
  World, Action, pure, ◌>>=◌, ◌>>◌, gets, lift, find_by_id_for_building, find_by_id_for_creator,
  find_by_id_for_providers, find_active_occupancy, commit,
}

-- `AuthenticatedUser`
pub record AuthUser : Type 0 where
  pub sub : Option ℕ
  pub org_id : Option ℕ

abbrev pub org_of : Option AuthUser → Option ℕ
org_of none = none
org_of (some u) = u.org_id

abbrev pub sub_of : Option AuthUser → Option ℕ
sub_of none = none
sub_of (some u) = u.sub

-- A caller in an organisation: `assertOrgScope` and the test of `user?.sub`.
pub record OrgCaller : Type 0 where
  pub org_id : ℕ
  pub user_id : ℕ

unfoldable pub org_caller : Option AuthUser → Action OrgCaller
org_caller user = do
  org ← lift (or_throw (org_of user) (forbidden org_scope_required))
  id ← lift (or_throw (sub_of user) unauthorized)
  pure (record { org_id = org; user_id = id })

-- `assertBuildingInOrg`
assert_building_in_org : ℕ → ℕ → Action Unit
assert_building_in_org building org = do
  found ← gets (λ w. is_building_in_org w.dir building org)
  lift (throw_if (not found) (not_found building_not_found))

-- A caller in a building, with what `getBuildingAccessContext` says of it.
pub record BuildingCaller : Type 0 where
  pub org_id : ℕ
  pub user_id : ℕ
  pub access : BuildingAccess

unfoldable pub building_caller : Option AuthUser → ℕ → Action BuildingCaller
unfolding org_caller assert_building_in_org
building_caller user building = do
  c ← org_caller user
  assert_building_in_org building c.org_id
  access ← gets (λ w. building_access_context w.dir c.user_id c.org_id building)
  pure (record { org_id = c.org_id; user_id = c.user_id; access = access })

-- The same, refused where the caller is only staff of the building.
unfoldable pub manager : Reason → Option AuthUser → ℕ → Action BuildingCaller
unfolding building_caller
manager reason user building = do
  c ← building_caller user building
  lift (throw_if c.access.is_building_staff_only (forbidden reason))
  pure c

-- A member of a provider, with `getProviderAccessContext`.
pub record ProviderCaller : Type 0 where
  pub user_id : ℕ
  pub access : ProviderAccess

unfoldable pub provider_caller : Option AuthUser → Action ProviderCaller
provider_caller user = do
  id ← lift (or_throw (sub_of user) unauthorized)
  access ← gets (λ w. provider_access_context w.dir id)
  found ← lift (or_throw access (forbidden no_permission))
  pure (record { user_id = id; access = found })

-- A resident with an active occupancy: `requireActiveResidentOccupancy`.
unfoldable pub resident_caller : Option AuthUser → Action OrgCaller
unfolding org_caller
resident_caller user = do
  c ← org_caller user
  found ← gets (λ w. find_active_occupancy w.dir c.user_id c.org_id)
  lift (or_throw found (forbidden active_occupancy_required))
  pure c

-- The body of the transactions: the row is found, the step is taken on it, and what it leaves is
-- written, audited and announced.
unfoldable pub transact :
    ℕ → (World → Option Request) → (World → Request → Result Outcome) → Action Request
unfolding commit
transact actor find_row step w = elim (find_row w) [
  | none ↦ err (not_found request_not_found)
  | some r ↦ elim (step w r) [ err e ↦ err e | ok o ↦ ok (o.request, commit actor r o w) ]
]

abbrev pub in_building : BuildingCaller → ℕ → ℕ → World → Option Request
in_building c building id w = find_by_id_for_building c.org_id building id w.requests

abbrev pub of_creator : OrgCaller → ℕ → World → Option Request
of_creator c id w = find_by_id_for_creator c.org_id c.user_id id w.requests

abbrev pub of_providers : ProviderCaller → ℕ → World → Option Request
of_providers c id w = find_by_id_for_providers c.access.provider_ids id w.requests
