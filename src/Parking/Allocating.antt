-- ===== src/Parking/Allocating.antt =====
-- `allocate`.
use towerdesk_backend_clean.Prelude.{
  ℕ, ◌+◌, suc, Bool, not, ◌&&◌, ◌||◌, Option, none, some, List, [], ◌∷◌, ◌++◌, map, ◌==◌, ltb,
  if◌then◌else◌, filter, any, has, take, is_id, length, Text, same_text,
}
use towerdesk_backend_clean.Result.{
  Result, ok, err, conflict, not_found, bad_request, throw_if, occupancy_not_found, unit_not_found,
  slots_not_found, slots_already_allocated, not_enough_slots, either_target, either_slots,
}
use towerdesk_backend_clean.Action.{pure, ◌>>=◌, ◌>>◌, gets, lift}
use towerdesk_backend_clean.Request.Callers.{AuthUser}
use towerdesk_backend_clean.Parking.Types.{Slot, Allocation, LeaseRow, Target, ActivityAction}
use towerdesk_backend_clean.Parking.World.{
  is_active, ParkingWorld, Action, is_free, org_in_building, active_lease, create_activity,
}

-- `AllocateParkingSlotsDto`
pub record AllocateDto : Type 0 where
  pub occupancy_id : Option ℕ
  pub unit_id : Option ℕ
  pub slot_ids : Option (List ℕ)
  pub count : Option ℕ

-- Exactly one of the two is given.
abbrev pub allocation_target : Option ℕ → Option ℕ → Result Target
allocation_target (some o) none = ok (Target.occupancy o)
allocation_target none (some u) = ok (Target.unit u)
allocation_target _ _ = err (bad_request either_target)

-- What is asked for: slots by id, or any so many.
pub data Choice : Type 0 where
  slots_by_id : List ℕ → Choice
  any_slots : ℕ → Choice

abbrev pub slot_choice : Option (List ℕ) → Option ℕ → Result Choice
slot_choice (some ids) none = ok (Choice.slots_by_id ids)
slot_choice none (some n) = ok (Choice.any_slots n)
slot_choice _ _ = err (bad_request either_slots)

abbrev pub has_unit : ℕ → ℕ → ParkingWorld → Bool
has_unit building unit w = any (λ x. (x.id == unit) && (x.building_id == building)) w.units

-- The context of the target: an occupancy with an active lease in the building, and that lease, or a
-- unit of the building.
unfoldable pub target_lease : ℕ → ℕ → Target → Action (Option LeaseRow)
target_lease org building (Target.occupancy o) = do
  context ← active_lease org o
  lift (throw_if (not (context.0.building_id == building)) (not_found occupancy_not_found))
  pure (some context.1)
target_lease org building (Target.unit u) = do
  found ← gets (has_unit building u)
  lift (throw_if (not found) (not_found unit_not_found))
  pure none

-- The context again, inside the transaction; its lease is the one that the activity names.
unfoldable pub lease_again : ℕ → Target → Action (Option LeaseRow)
lease_again org (Target.occupancy o) = do context ← active_lease org o; pure (some context.1)
lease_again org (Target.unit u) = pure none

abbrev pub is_offered : ℕ → ℕ → Slot → Bool
is_offered org building s = (s.org_id == org) && (s.building_id == building) && s.is_active

-- `ORDER BY code, "createdAt"`
abbrev pub comes_first : (Text → Text → Bool) → Slot → Slot → Bool
comes_first precedes s t =
    precedes s.code t.code || (same_text s.code t.code && not (ltb t.created_at s.created_at))

unfoldable pub insert_ordered : (Text → Text → Bool) → Slot → List Slot → List Slot
insert_ordered precedes s [] = s ∷ []
insert_ordered precedes s (x ∷ xs) =
    let rest = insert_ordered precedes s xs in
    if comes_first precedes s x then s ∷ (x ∷ xs) else x ∷ rest

unfoldable pub in_order : (Text → Text → Bool) → List Slot → List Slot
unfolding insert_ordered
in_order precedes [] = []
in_order precedes (s ∷ ss) = insert_ordered precedes s (in_order precedes ss)

-- `findAvailableSlots`
unfoldable pub find_available_slots : ℕ → ℕ → ℕ → ParkingWorld → List Slot
unfolding in_order
find_available_slots org building n w = take n (
    in_order w.precedes
      (filter (λ s. is_offered org building s && is_free w.allocations s.id) w.slots))

-- The ids of the slots to allocate; the slots asked for are found, active, distinct and free.
unfoldable pub chosen_slots : ℕ → ℕ → Choice → ParkingWorld → Result (List ℕ)
chosen_slots org building (Choice.slots_by_id ids) w =
    if length (filter (λ s. has ids s.id && is_offered org building s) w.slots) == length ids
    then if any (λ a. has ids a.slot_id && is_active a) w.allocations
      then err (conflict slots_already_allocated)
      else ok ids
    else err (not_found slots_not_found)
chosen_slots org building (Choice.any_slots n) w =
    let available = find_available_slots org building n w in
    if ltb (length available) n
    then err (conflict not_enough_slots)
    else ok (map (λ (s : Slot). s.id) available)

abbrev pub occupancy_of : Target → Option ℕ
occupancy_of (Target.occupancy o) = some o
occupancy_of (Target.unit u) = none

abbrev pub unit_of : Target → Option ℕ
unit_of (Target.occupancy o) = none
unit_of (Target.unit u) = some u

abbrev pub new_allocation : ℕ → ℕ → ℕ → Target → ℕ → ℕ → Allocation
new_allocation id org building target now slot = record {
  id = id;
  org_id = org;
  building_id = building;
  slot_id = slot;
  occupancy_id = occupancy_of target;
  unit_id = unit_of target;
  start_date = now;
  end_date = none;
  created_at = now;
}

-- `createMany`; the ids are new ones.
unfoldable pub new_allocations : ℕ → ℕ → ℕ → Target → ℕ → List ℕ → List Allocation
new_allocations id org building target now [] = []
new_allocations id org building target now (slot ∷ slots) =
    new_allocation id org building target now slot
    ∷ new_allocations (suc id) org building target now slots

abbrev same_target : Target → Allocation → Bool
same_target (Target.occupancy o) a = is_id a.occupancy_id o
same_target (Target.unit u) a = is_id a.unit_id u

-- `createAllocations`: what is returned is read back by the target, the slots and the start.
unfoldable pub create_allocations : ℕ → ℕ → Target → List ℕ → Action (List Allocation)
unfolding new_allocations
create_allocations org building target slots w =
    let allocations = w.allocations ++ new_allocations w.next_id org building target w.now slots in
    ok (
      filter
          (λ a.
            (a.org_id == org)
            && (a.building_id == building)
            && same_target target a
            && has slots a.slot_id
            && (a.start_date == w.now))
          allocations,
      record w { next_id = w.next_id + length slots; allocations = allocations },
    )

-- The activity of the lease, if the target is an occupancy.
unfoldable pub tell_lease :
    ℕ → Option LeaseRow → ActivityAction → Option AuthUser → ℕ → Action (Unit {0})
tell_lease org none action user count = pure tt
tell_lease org (some lease) action user count = create_activity org lease action user count

-- `allocate`
unfoldable pub allocate : Option AuthUser → ℕ → AllocateDto → Action (List Allocation)
allocate user building dto = do
  org ← org_in_building user building
  target ← lift (allocation_target dto.occupancy_id dto.unit_id)
  context ← target_lease org building target
  choice ← lift (slot_choice dto.slot_ids dto.count)
  lease ← lease_again org target
  chosen ← gets (chosen_slots org building choice)
  slots ← lift chosen
  created ← create_allocations org building target slots
  tell_lease org lease ActivityAction.parking_allocated user (length created)
  pure created
