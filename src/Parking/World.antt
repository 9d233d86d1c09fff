-- ===== src/Parking/World.antt =====
-- The tables of the parking service, the queries of parking.repo.ts, and the checks that the handlers
-- share. `now` is the time at which a handler runs.
use towerdesk_backend_clean.Prelude.{
  ℕ, Bool, true, false, not, ◌&&◌, Option, none, some, List, [], ◌∷◌, ◌++◌, ◌==◌, find, any,
  is_some, Text,
}
use towerdesk_backend_clean.Directory.{Building, Occupancy}
use towerdesk_backend_clean.Result.{
  ok, err, throw_if, or_throw, forbidden, not_found, bad_request, org_scope_required,
  building_not_found, occupancy_not_found, occupancy_not_active, no_active_lease,
}
use towerdesk_backend_clean.Action as Stateful
use towerdesk_backend_clean.Action.{pure, ◌>>=◌, ◌>>◌, gets, lift}
use towerdesk_backend_clean.Request.Callers.{AuthUser, org_of, sub_of}
use towerdesk_backend_clean.Parking.Types.{
  Slot, Allocation, Vehicle, UnitPlace, LeaseRow, Activity, ActivityAction,
}

pub record ParkingWorld : Type 0 where
  pub now : ℕ
  pub next_id : ℕ
  -- The order of texts in the database.
  pub precedes : Text → Text → Bool
  pub buildings : List Building
  pub units : List UnitPlace
  pub occupancies : List Occupancy
  pub leases : List LeaseRow
  pub slots : List Slot
  pub allocations : List Allocation
  pub vehicles : List Vehicle
  pub activities : List Activity

abbrev pub Action : Type 0 → Type 0
Action A = Stateful.Action ParkingWorld A

-- `endDate: null`
abbrev pub is_active : Allocation → Bool
is_active a = not (is_some a.end_date)

-- An active allocation of the slot.
abbrev pub holds : ℕ → Allocation → Bool
holds slot a = a.slot_id == slot && is_active a

-- `allocations: { none: { endDate: null } }`
abbrev pub is_free : List Allocation → ℕ → Bool
is_free allocations slot = not (any (holds slot) allocations)

-- `assertOrgScope`
unfoldable pub org_scope : Option AuthUser → Action ℕ
org_scope user = lift (or_throw (org_of user) (forbidden org_scope_required))

abbrev pub has_building : ℕ → ℕ → ParkingWorld → Bool
has_building org building w = any (λ b. (b.id == building) && (b.org_id == org)) w.buildings

-- `assertOrgScope` and `findByIdForOrg` of the building.
unfoldable pub org_in_building : Option AuthUser → ℕ → Action ℕ
unfolding org_scope
org_in_building user building = do
  org ← org_scope user
  found ← gets (has_building org building)
  lift (throw_if (not found) (not_found building_not_found))
  pure org

-- The building of the occupancy is in the organisation.
abbrev pub is_of_org : ParkingWorld → ℕ → ℕ → Occupancy → Bool
is_of_org w org id o =
    (o.id == id) && any (λ b. (b.id == o.building_id) && (b.org_id == org)) w.buildings

abbrev pub is_lease_of : ℕ → ℕ → LeaseRow → Bool
is_lease_of org occupancy l = (l.org_id == org) && (l.occupancy_id == occupancy) && l.is_active

-- `assertActiveLeaseContextForOccupancy`
unfoldable pub active_lease : ℕ → ℕ → Action (Occupancy × LeaseRow)
active_lease org id w = elim (find (is_of_org w org id) w.occupancies) [
  | none ↦ err (not_found occupancy_not_found)
  | some o ↦ elim o.is_active [
    | false ↦ err (bad_request occupancy_not_active)
    | true ↦ elim (find (is_lease_of org id) w.leases) [
      | none ↦ err (bad_request no_active_lease)
      | some l ↦ ok ((o, l), w)
    ]
  ]
]

-- `createLeaseActivity`
unfoldable pub create_activity :
    ℕ → LeaseRow → ActivityAction → Option AuthUser → ℕ → Action (Unit {0})
create_activity org lease action user count w = ok (
  tt,
  record w {
    activities =
        w.activities
        ++ (record {
          org_id = org;
          lease_id = lease.id;
          action = action;
          changed_by_user_id = sub_of user;
          count = count;
        }
            ∷ []);
  },
)
