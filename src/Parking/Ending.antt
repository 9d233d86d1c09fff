-- ===== src/Parking/Ending.antt =====
-- `endAllocation`, `endAllForOccupancy`, `endAllForUnit`, and the lists of allocations.
use towerdesk_backend_clean.Prelude.{
  ℕ, Bool, not, ◌&&◌, Option, none, some, List, [], ◌∷◌, ◌==◌, if◌then◌else◌, find, filter, any,
  is_id, is_some, or_else, length,
}
use towerdesk_backend_clean.Result.{
  ok, not_found, bad_request, or_throw, throw_if, allocation_not_found, allocation_already_ended,
  unit_not_found,
}
use towerdesk_backend_clean.Action.{pure, ◌>>=◌, ◌>>◌, gets, lift}
use towerdesk_backend_clean.Request.Callers.{AuthUser}
use towerdesk_backend_clean.Parking.Types.{Allocation, LeaseRow, ActivityAction}
use towerdesk_backend_clean.Parking.World.{ParkingWorld, Action, is_active, org_scope, active_lease}
use towerdesk_backend_clean.Parking.Allocating.{tell_lease}

-- `findAllocationByIdForOrg`
unfoldable pub find_allocation : ℕ → ℕ → List Allocation → Option Allocation
find_allocation org id allocations = find (λ a. (a.id == id) && (a.org_id == org)) allocations

-- `data: { endDate }` on the rows that pass.
unfoldable pub end_where : (Allocation → Bool) → ℕ → List Allocation → List Allocation
end_where p end [] = []
end_where p end (a ∷ rest) =
    (if p a then record a { end_date = some end } else a) ∷ end_where p end rest

unfoldable pub write_ends : (Allocation → Bool) → ℕ → Action ℕ
unfolding end_where
write_ends p end w =
    ok (length (filter p w.allocations), record w { allocations = end_where p end w.allocations })

-- The lease of the occupancy of the allocation, if it has one.
unfoldable pub allocation_lease : ℕ → Option ℕ → Action (Option LeaseRow)
allocation_lease org none = pure none
allocation_lease org (some o) = do context ← active_lease org o; pure (some context.1)

abbrev pub end_of : Option ℕ → Action ℕ
end_of end_date = gets (λ w. or_else end_date w.now)

-- `endAllocation`
unfoldable pub end_allocation : Option AuthUser → ℕ → Option ℕ → Action Allocation
unfolding find_allocation
end_allocation user id end_date = do
  org ← org_scope user
  found ← gets (λ w. find_allocation org id w.allocations)
  allocation ← lift (or_throw found (not_found allocation_not_found))
  lift (throw_if (is_some allocation.end_date) (bad_request allocation_already_ended))
  end ← end_of end_date
  lease ← allocation_lease org allocation.occupancy_id
  count ← write_ends (λ a. a.id == id) end
  again ← gets (λ w. find_allocation org id w.allocations)
  updated ← lift (or_throw again (not_found allocation_not_found))
  tell_lease org lease ActivityAction.parking_allocation_ended user 1
  pure updated

abbrev pub is_active_of_occupancy : ℕ → ℕ → Allocation → Bool
is_active_of_occupancy org occupancy a =
    (a.org_id == org) && is_id a.occupancy_id occupancy && is_active a

abbrev pub is_active_of_unit : ℕ → ℕ → Allocation → Bool
is_active_of_unit org unit a = (a.org_id == org) && is_id a.unit_id unit && is_active a

abbrev pub if_any : ℕ → LeaseRow → Option LeaseRow
if_any count lease = if count == 0 then none else some lease

-- `endAllForOccupancy`
unfoldable pub end_all_for_occupancy : Option AuthUser → ℕ → Option ℕ → Action ℕ
end_all_for_occupancy user occupancy end_date = do
  org ← org_scope user
  end ← end_of end_date
  context ← active_lease org occupancy
  count ← write_ends (is_active_of_occupancy org occupancy) end
  tell_lease org (if_any count context.1) ActivityAction.parking_allocation_ended user count
  pure count

-- `assertUnitInOrg`
abbrev pub is_unit_in_org : ℕ → ℕ → ParkingWorld → Bool
is_unit_in_org org unit w =
    any (λ u. (u.id == unit) && any (λ b. (b.id == u.building_id) && (b.org_id == org)) w.buildings)
      w.units

-- `endAllForUnit`
unfoldable pub end_all_for_unit : Option AuthUser → ℕ → Option ℕ → Action ℕ
end_all_for_unit user unit end_date = do
  org ← org_scope user
  found ← gets (is_unit_in_org org unit)
  lift (throw_if (not found) (not_found unit_not_found))
  end ← end_of end_date
  write_ends (is_active_of_unit org unit) end
