-- ===== src/Parking/Lists.antt =====
-- `listAllocations`, `listAllocationsForUnit`, `getActiveAllocationForResident` and `listVehicles`.
use towerdesk_backend_clean.Prelude.{
  ℕ, Bool, true, not, ◌&&◌, ◌||◌, Option, none, some, List, [], ◌∷◌, ◌==◌, ltb, leb, if◌then◌else◌,
  find, filter, any, is_id, is_true,
}
use towerdesk_backend_clean.Directory.{Occupancy}
use towerdesk_backend_clean.Result.{
  not_found, unauthorized, or_throw, throw_if, occupancy_not_found, unit_not_found,
}
use towerdesk_backend_clean.Action.{pure, ◌>>=◌, ◌>>◌, gets, lift}
use towerdesk_backend_clean.Request.Callers.{AuthUser, sub_of}
use towerdesk_backend_clean.Parking.Types.{Allocation, Vehicle}
use towerdesk_backend_clean.Parking.World.{ParkingWorld, Action, is_active, is_of_org, org_scope}
use towerdesk_backend_clean.Parking.Ending.{is_unit_in_org}

-- A list in the order in which `first` puts its elements; the order of equal ones is kept.
unfoldable pub insert_by : {A : Type 0} → (A → A → Bool) → A → List A → List A
insert_by first a [] = a ∷ []
insert_by first a (x ∷ xs) =
    let rest = insert_by first a xs in if first a x then a ∷ (x ∷ xs) else x ∷ rest

unfoldable pub order_by : {A : Type 0} → (A → A → Bool) → List A → List A
unfolding insert_by
order_by first [] = []
order_by first (a ∷ rest) = insert_by first a (order_by first rest)

-- `orderBy: [{ startDate: 'desc' }, { createdAt: 'desc' }]`
abbrev starts_later : Allocation → Allocation → Bool
starts_later a b =
    ltb b.start_date a.start_date || (a.start_date == b.start_date && leb b.created_at a.created_at)

abbrev is_wanted : Option Bool → Allocation → Bool
is_wanted active a = not (is_true active) || is_active a

-- `listAllocationsForOccupancy` of the repository.
unfoldable pub allocations_for_occupancy : ℕ → ℕ → Option Bool → ParkingWorld → List Allocation
unfolding order_by
allocations_for_occupancy org occupancy active w = order_by starts_later (
    filter (λ a. (a.org_id == org) && is_id a.occupancy_id occupancy && is_wanted active a)
      w.allocations)

-- `listAllocationsForUnit` of the repository.
unfoldable pub allocations_for_unit : ℕ → ℕ → Option Bool → ParkingWorld → List Allocation
unfolding order_by
allocations_for_unit org unit active w =
    order_by starts_later
      (filter (λ a. (a.org_id == org) && is_id a.unit_id unit && is_wanted active a) w.allocations)

-- `assertOccupancyInOrg`, with the error.
unfoldable pub occupancy_in_org : ℕ → ℕ → Action Occupancy
occupancy_in_org org id = do
  found ← gets (λ w. find (is_of_org w org id) w.occupancies)
  lift (or_throw found (not_found occupancy_not_found))

-- `listAllocations`
unfoldable pub list_allocations : Option AuthUser → ℕ → Option Bool → Action (List Allocation)
unfolding allocations_for_occupancy
list_allocations user occupancy active = do
  org ← org_scope user
  found ← occupancy_in_org org occupancy
  gets (allocations_for_occupancy org occupancy active)

-- `listAllocationsForUnit`
unfoldable pub list_allocations_for_unit :
    Option AuthUser → ℕ → Option Bool → Action (List Allocation)
unfolding allocations_for_unit
list_allocations_for_unit user unit active = do
  org ← org_scope user
  found ← gets (is_unit_in_org org unit)
  lift (throw_if (not found) (not_found unit_not_found))
  gets (allocations_for_unit org unit active)

abbrev is_created_later : Occupancy → Occupancy → Bool
is_created_later a b = leb b.created_at a.created_at

abbrev get_first? : {A : Type 0} → List A → Option A
get_first? [] = none
get_first? (a ∷ rest) = some a

-- The latest active occupancy of the resident in the organisation.
unfoldable pub resident_occupancy : ℕ → ℕ → ParkingWorld → Option Occupancy
resident_occupancy org user w = get_first? (
    order_by is_created_later (
      filter
        (λ o.
          (o.resident_user_id == user)
          && o.is_active
          && any (λ b. (b.id == o.building_id) && (b.org_id == org)) w.buildings)
        w.occupancies))

-- `getActiveAllocationForResident`
unfoldable pub get_active_allocation_for_resident : Option AuthUser → Action (Option Allocation)
unfolding resident_occupancy
get_active_allocation_for_resident user = do
  org ← org_scope user
  id ← lift (or_throw (sub_of user) unauthorized)
  occupancy ← gets (resident_occupancy org id)
  elim occupancy [
    | none ↦ pure none
    | some o ↦ gets (λ w. get_first? (allocations_for_occupancy org o.id (some true) w))
  ]

abbrev was_created_first : Vehicle → Vehicle → Bool
was_created_first a b = leb a.created_at b.created_at

-- `listVehicles`
unfoldable pub list_vehicles : Option AuthUser → ℕ → Action (List Vehicle)
unfolding occupancy_in_org
list_vehicles user occupancy = do
  org ← org_scope user
  found ← occupancy_in_org org occupancy
  gets (λ w.
      order_by was_created_first
        (filter (λ v. (v.org_id == org) && (v.occupancy_id == occupancy)) w.vehicles))
