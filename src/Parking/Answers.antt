-- ===== src/Parking/Answers.antt =====
-- When `allocate` by number returns.
use towerdesk_backend_clean.Prelude.{
  ℕ, zero, suc, ◌≡◌, refl, ap, ◌∙◌, Bool, true, ◌&&◌, Option, none, some, List, [], ◌∷◌, length,
  take, filter, ltb, leb, Text, arith, Bool-cases, inl, inr,
}
use towerdesk_backend_clean.Result.{is_ok}
use towerdesk_backend_clean.Request.Callers.{AuthUser, org_of}
use towerdesk_backend_clean.Parking.Types.{Slot}
use towerdesk_backend_clean.Parking.World.{
  ParkingWorld, org_scope, org_in_building, has_building, is_free,
}
use towerdesk_backend_clean.Parking.Allocating.{
  AllocateDto, allocate, target_lease, has_unit, lease_again, is_offered, comes_first,
  insert_ordered, in_order, find_available_slots, chosen_slots, create_allocations, tell_lease,
}

abbrev pub any_for_unit : ℕ → ℕ → AllocateDto
any_for_unit u n = record { occupancy_id = none; unit_id = some u; slot_ids = none; count = some n }

-- The slots that may be given.
abbrev pub free_slots : ℕ → ℕ → ParkingWorld → List Slot
free_slots org building w =
    filter (λ s. is_offered org building s && is_free w.allocations s.id) w.slots

module _ (precedes : Text → Text → Bool) where
  length-insert_ordered :
      (s : Slot) (xs : List Slot) → length (insert_ordered precedes s xs) ≡ suc (length xs)
  unfolding insert_ordered
  length-insert_ordered s [] = refl
  length-insert_ordered s (x ∷ xs) = elim (Bool-cases (comes_first precedes s x)) [
    | inl e ↦ rw (length, e) refl
    | inr e ↦ rw (length, e) (ap (λ (n : ℕ). suc n) (length-insert_ordered s xs))
  ]

  length-in_order : (xs : List Slot) → length (in_order precedes xs) ≡ length xs
  unfolding in_order
  length-in_order [] = refl
  length-in_order (x ∷ xs) =
      length-insert_ordered x (in_order precedes xs) ∙ ap (λ (n : ℕ). suc n) (length-in_order xs)

length-take : (n : ℕ) (xs : List Slot) → ltb (length (take n xs)) n ≡ ltb (length xs) n
length-take zero xs = ground arith
length-take (suc n) [] = refl
length-take (suc n) (x ∷ xs) = ground (arith, length-take n xs)

length-available :
    (org building n : ℕ) (w : ParkingWorld)
    → ltb (length (find_available_slots org building n w)) n
      ≡ ltb (length (free_slots org building w)) n
unfolding find_available_slots
length-available org building n w =
    length-take n (in_order w.precedes (free_slots org building w))
    ∙ ap (λ k. ltb k n) (length-in_order w.precedes (free_slots org building w))

-- Slots asked for by number, for a unit of a building of the caller's organisation, are given exactly
-- when the building has so many active slots without an active allocation.
pub allocate-is_ok :
    (user : Option AuthUser) (org building u n : ℕ) (w : ParkingWorld)
    → org_of user ≡ some org
    → has_building org building w ≡ true
    → has_unit building u w ≡ true
    → is_ok (allocate user building (any_for_unit u n) w)
      ≡ leb n (length (free_slots org building w))
unfolding allocate org_scope org_in_building target_lease lease_again chosen_slots
    create_allocations tell_lease
allocate-is_ok user org building u n w is_org is_building is_unit =
    elim (Bool-cases (ltb (length (free_slots org building w)) n)) [
      | inl e ↦
          rw (is_ok, is_org, is_building, is_unit, length-available org building n w, e)
            (ground arith)
      | inr e ↦
          rw (is_ok, is_org, is_building, is_unit, length-available org building n w, e)
            (ground arith)
    ]
