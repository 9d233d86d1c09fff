-- ===== src/Parking/Sound/Kept.antt =====
-- What the handlers of slots leave: nobody gains or loses a slot.
use towerdesk_backend_clean.Prelude.{
  ℕ, suc, ◌≡◌, refl, ap, subst, true, not, ◌&&◌, Option, List, [], ◌∷◌, ◌++◌, filter, find,
  All-append_one, AreDistinct-append_one, All-map, ltb, ◌==◌, arith, Bool-cases, inl, inr,
}
use towerdesk_backend_clean.Result.{
  Error, or_throw, not_found, conflict, slot_not_found, slot_code_exists,
}
use towerdesk_backend_clean.Action.{Reads, ◌>>=◌, After, After-bind, After-reader, After-lift}
use towerdesk_backend_clean.Request.Callers.{AuthUser}
use towerdesk_backend_clean.Parking.Types.{Slot}
use towerdesk_backend_clean.Parking.World.{ParkingWorld, Action}
use towerdesk_backend_clean.Parking.Slots.{
  SlotDto, SlotUpdate, has_code, new_slot, insert_slot, create_slot, updated_slot, replace_slot,
  write_slot, update_slot,
}
use towerdesk_backend_clean.Parking.Sound.Readers.{org_scope-Reads, org_in_building-Reads}
use towerdesk_backend_clean.Parking.Sound.{IsSound, slot_ids}

-- The tables are sound, and the allocations are the same ones.
abbrev pub IsKept : ParkingWorld → ParkingWorld → Type 0
IsKept w v = IsSound v × (v.allocations ≡ w.allocations)

slot_ids-append :
    (xs : List Slot) (s : Slot) → slot_ids (xs ++ (s ∷ [])) ≡ (slot_ids xs ++ (s.id ∷ []))
slot_ids-append [] s = refl
slot_ids-append (x ∷ xs) s = ap (λ ys. x.id ∷ ys) (slot_ids-append xs s)

slot_ids-replace :
    (id : ℕ) (s : Slot) (xs : List Slot) → s.id ≡ id → slot_ids (replace_slot id s xs) ≡ slot_ids xs
unfolding replace_slot
slot_ids-replace id s [] h = refl
slot_ids-replace id s (x ∷ xs) h = ground (arith, slot_ids-replace id s xs h)

pub insert_slot-IsKept :
    (e : Error) (org building : ℕ) (dto : SlotDto) (w : ParkingWorld)
    → IsSound w
    → After (λ _ v. IsKept w v) (insert_slot e org building dto w)
unfolding insert_slot
insert_slot-IsKept e org building dto w (exclusive, targets, distinct, used) =
    elim (Bool-cases (has_code building dto.code w.slots)) [
      | inl f ↦ rw (After, f) tt
      | inr f ↦
          rw (After, f)
            (
              (
                exclusive,
                targets,
                rw (slot_ids-append w.slots (new_slot w.next_id org building w.now dto))
                    (AreDistinct-append_one w.next_id (slot_ids w.slots) distinct used),
                rw (slot_ids-append w.slots (new_slot w.next_id org building w.now dto)) (
                    All-append_one (λ k. ltb k (suc w.next_id) ≡ true) (slot_ids w.slots)
                      (All-map (λ k. ltb k w.next_id ≡ true) (λ k. ltb k (suc w.next_id) ≡ true)
                        (slot_ids w.slots) (λ k g. ground arith) used)
                      (ground arith)),
              ),
              refl,
            )
    ]

pub create_slot-IsKept :
    (user : Option AuthUser) (building : ℕ) (dto : SlotDto) (w : ParkingWorld)
    → IsSound w
    → After (λ _ v. IsKept w v) (create_slot user building dto w)
unfolding create_slot
create_slot-IsKept user building dto w sound =
    After-reader _ _ _ w _ (org_in_building-Reads user building)
      (λ org _. insert_slot-IsKept (conflict slot_code_exists) org building dto w sound)

write_slot-IsKept :
    (s : Slot) (w : ParkingWorld) → IsSound w → After (λ _ v. IsKept w v) (write_slot s w)
unfolding write_slot
write_slot-IsKept s w (exclusive, targets, distinct, used) =
    elim (Bool-cases (has_code s.building_id s.code (filter (λ x. not (x.id == s.id)) w.slots))) [
      | inl f ↦ rw (After, f) tt
      | inr f ↦
          rw (After, f)
            (
              (
                exclusive,
                targets,
                rw (slot_ids-replace s.id s w.slots refl) distinct,
                rw (slot_ids-replace s.id s w.slots refl) used,
              ),
              refl,
            )
    ]

pub update_slot-IsKept :
    (user : Option AuthUser) (id : ℕ) (dto : SlotUpdate) (w : ParkingWorld)
    → IsSound w
    → After (λ _ v. IsKept w v) (update_slot user id dto w)
unfolding update_slot
update_slot-IsKept user id dto w sound = After-reader _ _ _ w _ (org_scope-Reads user) (λ org _.
    After-lift _
      (or_throw (find (λ s. (s.id == id) && (s.org_id == org)) w.slots) (not_found slot_not_found))
      _ w (λ s _. write_slot-IsKept (updated_slot dto s) w sound))

-- The action keeps the tables sound and the allocations as they are.
abbrev pub Keeps : {A : Type 0} → Action A → Type 0
Keeps m = (w : ParkingWorld) → IsSound w → After (λ _ v. IsKept w v) (m w)

pub Keeps-bind :
    {A B : Type 0} (m : Action A) (f : A → Action B)
    → Keeps m
    → ((a : A) → Keeps (f a))
    → Keeps (m >>= f)
Keeps-bind m f first next w sound =
    After-bind (λ _ v. IsKept w v) m f w (λ _ v. IsKept w v) (first w sound)
      (λ a v kept.
        subst (λ l. After (λ _ u. IsSound u × (u.allocations ≡ l)) (f a v)) kept.1
          (next a v kept.0))

pub Keeps-reader :
    {A B : Type 0} (P : A → Type 0) (m : Action A) (f : A → Action B)
    → Reads P m
    → ((a : A) → Keeps (f a))
    → Keeps (m >>= f)
Keeps-reader P m f reads next w sound =
    After-reader (λ _ v. IsKept w v) m f w _ reads (λ a _. next a w sound)
