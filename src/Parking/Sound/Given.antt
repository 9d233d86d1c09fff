-- ===== src/Parking/Sound/Given.antt =====
-- What `allocate` leaves.
use towerdesk_backend_clean.Prelude.{
  ℕ, suc, ◌+◌, ◌≡◌, refl, sym, ap, subst, ◌∙◌, true, false, Option, none, some, List, [], ◌∷◌, ◌++◌,
  length, has, or_option, if◌then◌else◌, All, All-map, AreDistinct, ltb, arith, Bool-cases, ◌⊎◌,
  inl, inr,
}
use towerdesk_backend_clean.Result.{ok_same, ok}
use towerdesk_backend_clean.Action.{After, After-bind, After-reader, After-lift}
use towerdesk_backend_clean.Request.Callers.{AuthUser}
use towerdesk_backend_clean.Parking.Types.{Allocation, Target, ActivityAction}
use towerdesk_backend_clean.Parking.World.{ParkingWorld, holds}
use towerdesk_backend_clean.Parking.Allocating.{
  AllocateDto, Choice, allocate, allocation_target, slot_choice, chosen_slots, new_allocation,
  new_allocations, create_allocations, tell_lease,
}
use towerdesk_backend_clean.Parking.Board.{board, AreGiven, Given, AreAsked}
use towerdesk_backend_clean.Parking.Sound.Allocations.{
  find-append, find-none, find-new_allocations, any-new_allocations, new_allocations-AreExclusive,
  append-AreExclusive, new_id,
}
use towerdesk_backend_clean.Parking.Sound.Chosen.{AreChosen, AreFree, Fits, chosen_slots-AreChosen}
use towerdesk_backend_clean.Parking.Sound.Readers.{
  tell_lease-After, org_in_building-Reads, target_lease-Reads, lease_again-Reads,
}
use towerdesk_backend_clean.Parking.Sound.{IsSound, HasTarget, slot_ids}

used_later :
    (n m : ℕ) (ks : List ℕ) → All (λ k. ltb k n ≡ true) ks → All (λ k. ltb k (n + m) ≡ true) ks
used_later n m ks h =
    All-map (λ k. ltb k n ≡ true) (λ k. ltb k (n + m) ≡ true) ks (λ k e. ground arith) h

or_none {ℓ} : {A : Type ℓ} (o : Option A) → or_option o none ≡ o
or_none none = refl
or_none (some a) = refl

All-append {ℓ κ} :
    {A : Type ℓ} (P : A → Type κ) (xs ys : List A) → All P xs → All P ys → All P (xs ++ ys)
All-append P [] ys h k = k
All-append P (x ∷ xs) ys h k = (h.0, All-append P xs ys h.1 k)

AreFree-All :
    (l : List Allocation) (slots : List ℕ)
    → AreFree l slots
    → All (λ slot. board l slot ≡ none) slots
AreFree-All l [] free = tt
AreFree-All l (x ∷ xs) free =
    (find-none (holds x) l (free x (ground arith)), AreFree-All l xs (λ k m. free k (ground arith)))

module _ (org building now : ℕ) (target : Target) where
  new_allocations-HasTarget :
      (id : ℕ) (slots : List ℕ) → All HasTarget (new_allocations id org building target now slots)
  unfolding new_allocations
  new_allocations-HasTarget id [] = tt
  new_allocations-HasTarget id (x ∷ xs) = (one target, new_allocations-HasTarget (suc id) xs)
    where
      one : (t : Target) → HasTarget (new_allocation id org building t now x)
      one (Target.occupancy o) = refl
      one (Target.unit u) = refl

  -- The new allocations give the slots to the target.
  append-AreGiven :
      (id : ℕ) (slots : List ℕ) (l : List Allocation)
      → AreDistinct slots
      → AreFree l slots
      → AreGiven org building now target slots
          (board l)
          (board (l ++ new_allocations id org building target now slots))
  append-AreGiven id slots l d free = (
    d,
    AreFree-All l slots free,
    new_id id slots,
    λ slot.
        find-append (holds slot) l (new_allocations id org building target now slots)
        ∙ ap (or_option (board l slot)) (find-new_allocations org building now target id slots slot)
        ∙ who slot (Bool-cases (has slots slot)),
  )
    where
      who :
          (slot : ℕ)
          → (has slots slot ≡ true) ⊎ (has slots slot ≡ false)
          → or_option (board l slot) (
              if has slots slot
              then some (new_allocation (new_id id slots slot) org building target now slot)
              else none)
            ≡ (if has slots slot
                then some (new_allocation (new_id id slots slot) org building target now slot)
                else board l slot)
      who slot (inl e) = rw (e, find-none (holds slot) l (free slot e)) refl
      who slot (inr e) = rw e (or_none (board l slot))

abbrev Taken : ℕ → ℕ → Target → List ℕ → ParkingWorld → ParkingWorld → Type 0
Taken org building target slots w v =
    IsSound v × AreGiven org building w.now target slots (board w.allocations) (board v.allocations)

abbrev pub Allocated : Option AuthUser → ℕ → AllocateDto → ParkingWorld → ParkingWorld → Type 0
Allocated user building dto w v =
    IsSound v × Given user building dto w.now (board w.allocations) (board v.allocations)

-- The writes of `allocate` keep the tables sound.
create_allocations-IsSound :
    (org building : ℕ) (target : Target) (slots : List ℕ) (w : ParkingWorld)
    → IsSound w
    → AreDistinct slots
    → AreFree w.allocations slots
    → After
        (λ _ v.
          IsSound v
          × AreGiven org building w.now target slots (board w.allocations) (board v.allocations))
        (create_allocations org building target slots w)
unfolding create_allocations
create_allocations-IsSound org building target slots w (exclusive, targets, distinct, used) d free =
    let made = new_allocations w.next_id org building target w.now slots in
    (
      (
        append-AreExclusive w.allocations made exclusive
            (new_allocations-AreExclusive org building w.now target w.next_id slots d)
            (λ k m.
              free k (sym (any-new_allocations org building w.now target w.next_id slots k) ∙ m)),
        All-append HasTarget w.allocations made targets
            (new_allocations-HasTarget org building w.now target w.next_id slots),
        distinct,
        used_later w.next_id (length slots) (slot_ids w.slots) used,
      ),
      append-AreGiven org building w.now target w.next_id slots w.allocations d free,
    )

Fits-AreAsked :
    (ids : Option (List ℕ)) (count : Option ℕ) (choice : Choice) (slots : List ℕ)
    → slot_choice ids count ≡ ok choice
    → Fits choice slots
    → AreAsked ids count slots
Fits-AreAsked (some ids) none choice slots e f = subst (λ c. Fits c slots) (sym (ok_same e)) f
Fits-AreAsked none (some n) choice slots e f = subst (λ c. Fits c slots) (sym (ok_same e)) f
Fits-AreAsked (some ids) (some n) choice slots e f = cc
Fits-AreAsked none none choice slots e f = cc

pub allocate-Given :
    (user : Option AuthUser) (building : ℕ) (dto : AllocateDto) (w : ParkingWorld)
    → IsSound w
    → After
        (λ _ v.
          IsSound v × Given user building dto w.now (board w.allocations) (board v.allocations))
        (allocate user building dto w)
unfolding allocate
allocate-Given user building dto w sound =
    After-reader _ _ _ w _ (org_in_building-Reads user building) (λ org is_org.
      After-lift _ (allocation_target dto.occupancy_id dto.unit_id) _ w (λ target is_target.
        After-reader _ _ _ w _ (target_lease-Reads org building target) (λ context _.
          After-lift _ (slot_choice dto.slot_ids dto.count) _ w (λ choice is_choice.
            After-reader _ _ _ w _ (lease_again-Reads org target) (λ lease _.
              After-lift _ (chosen_slots org building choice w) _ w (λ slots are_chosen.
                let (d, free, fits) =
                  subst (AreChosen w.allocations choice) are_chosen
                    (chosen_slots-AreChosen org building choice w sound.2) in
                After-bind _ (create_allocations org building target slots) _ w
                  (λ _ v. Taken org building target slots w v)
                  (create_allocations-IsSound org building target slots w sound d free)
                  (λ created v p.
                    After-bind (λ _ u. Allocated user building dto w u)
                      (tell_lease org lease ActivityAction.parking_allocated user (length created))
                      _ v (λ _ u. Allocated user building dto w u)
                      (tell_lease-After (Allocated user building dto w) org lease
                        ActivityAction.parking_allocated user (length created) v
                        (λ rows. (
                          p.0,
                          (
                            org,
                            target,
                            slots,
                            is_org,
                            is_target,
                            Fits-AreAsked dto.slot_ids dto.count choice slots is_choice fits,
                            p.1,
                          ),
                        )))
                      (λ _ u q. q))))))))
