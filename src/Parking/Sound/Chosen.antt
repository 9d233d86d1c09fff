-- ===== src/Parking/Sound/Chosen.antt =====
-- The slots that `allocate` chooses, by their ids or as the first free ones.
use towerdesk_backend_clean.Prelude.{
  ℕ, zero, suc, ◌≡◌, refl, sym, ap, subst, ◌∙◌, inl, inr, Bool, true, false, ◌||◌, ◌&&◌, List, [],
  ◌∷◌, map, length, take, filter, any, any_witness, has, has-map-filter, AreDistinct,
  AreDistinct-Includes, ==_iff, Bool-cases, ltb, ◌==◌, Text, arith,
}
use towerdesk_backend_clean.Result.{Result, ok, err}
use towerdesk_backend_clean.Parking.Types.{Slot, Allocation}
use towerdesk_backend_clean.Parking.World.{ParkingWorld, is_active, holds, is_free}
use towerdesk_backend_clean.Parking.Allocating.{
  Choice, slots_by_id, any_slots, chosen_slots, find_available_slots, in_order, insert_ordered,
  is_offered, comes_first,
}

abbrev ids : List Slot → List ℕ
ids slots = map (λ (s : Slot). s.id) slots

module _ {ℓ κ} {A : Type ℓ} {B : Type κ} (f : A → B) where
  length-map : (xs : List A) → length (map f xs) ≡ length xs
  length-map [] = refl
  length-map (x ∷ xs) = ap suc (length-map xs)

has-filter :
    (p : Slot → Bool) (xs : List Slot) (k : ℕ)
    → has (ids (filter p xs)) k ≡ true
    → has (ids xs) k ≡ true
has-filter p [] k h = h
has-filter p (x ∷ xs) k h = ground (arith, has-filter p xs k)

filter-AreDistinct :
    (p : Slot → Bool) (xs : List Slot) → AreDistinct (ids xs) → AreDistinct (ids (filter p xs))
filter-AreDistinct p [] d = tt
filter-AreDistinct p (x ∷ xs) d = elim (Bool-cases (p x)) [
  | inl e ↦ rw e (ground (arith, has-filter p xs x.id), filter-AreDistinct p xs d.1)
  | inr e ↦ rw e (filter-AreDistinct p xs d.1)
]

-- What passes for every row that passes holds of the ids that are left.
passed :
    (p : Slot → Bool) (Q : ℕ → Type 0) (xs : List Slot) (k : ℕ)
    → ((x : Slot) → p x ≡ true → Q x.id)
    → has (ids (filter p xs)) k ≡ true
    → Q k
passed p Q xs k f h =
    let (x, e, _) =
      any_witness (λ x. p x && (x.id == k)) xs
        (sym (has-map-filter (λ (s : Slot). s.id) p xs k) ∙ h) in
    subst Q ((==_iff x.id k).0 (ground arith)) (f x (ground arith))

-- The ids are of different slots, since as many slots have them.
by_id-AreDistinct :
    (org building : ℕ) (wanted : List ℕ) (xs : List Slot)
    → AreDistinct (ids xs)
    → (length (filter (λ s. has wanted s.id && is_offered org building s) xs) == length wanted)
      ≡ true
    → AreDistinct wanted
by_id-AreDistinct org building wanted xs d h =
    let p = λ (s : Slot). has wanted s.id && is_offered org building s in
    AreDistinct-Includes wanted (ids (filter p xs)) (filter-AreDistinct p xs d)
      (λ k m. passed p (λ j. has wanted j ≡ true) xs k (λ x e. ground arith) m)
      (ground (arith, length-map (λ (s : Slot). s.id) (filter p xs)))

none_active :
    (wanted : List ℕ) (l : List Allocation) (k : ℕ)
    → any (λ a. has wanted a.slot_id && is_active a) l ≡ false
    → has wanted k ≡ true
    → any (holds k) l ≡ false
none_active wanted [] k h m = refl
none_active wanted (a ∷ l) k h m = elim (Bool-cases (a.slot_id == k)) [
  | inl e ↦
      let same = subst (λ j. has wanted j ≡ true) (sym ((==_iff a.slot_id k).0 e)) m in
      ground (arith, none_active wanted l k)
  | inr e ↦ ground (arith, none_active wanted l k)
]

module _ (precedes : Text → Text → Bool) where
  has-insert_ordered :
      (s : Slot) (xs : List Slot) (k : ℕ)
      → has (ids (insert_ordered precedes s xs)) k ≡ ((s.id == k) || has (ids xs) k)
  unfolding insert_ordered
  has-insert_ordered s [] k = refl
  has-insert_ordered s (x ∷ xs) k = ground (arith, has-insert_ordered s xs k)

  insert_ordered-AreDistinct :
      (s : Slot) (xs : List Slot)
      → has (ids xs) s.id ≡ false
      → AreDistinct (ids xs)
      → AreDistinct (ids (insert_ordered precedes s xs))
  unfolding insert_ordered
  insert_ordered-AreDistinct s [] n d = (refl, tt)
  insert_ordered-AreDistinct s (x ∷ xs) n d = elim (Bool-cases (comes_first precedes s x)) [
    | inl e ↦ rw e (n, d)
    | inr e ↦ rw e (
      ground (arith, has-insert_ordered s xs x.id),
      insert_ordered-AreDistinct s xs (ground arith) d.1,
    )
  ]

  has-in_order : (xs : List Slot) (k : ℕ) → has (ids (in_order precedes xs)) k ≡ has (ids xs) k
  unfolding in_order
  has-in_order [] k = refl
  has-in_order (x ∷ xs) k =
      ground (arith, has-insert_ordered x (in_order precedes xs) k, has-in_order xs k)

  in_order-AreDistinct :
      (xs : List Slot) → AreDistinct (ids xs) → AreDistinct (ids (in_order precedes xs))
  unfolding in_order
  in_order-AreDistinct [] d = tt
  in_order-AreDistinct (x ∷ xs) d =
      insert_ordered-AreDistinct x (in_order precedes xs) (has-in_order xs x.id ∙ d.0)
        (in_order-AreDistinct xs d.1)

has-take : (n : ℕ) (xs : List Slot) (k : ℕ) → has (ids (take n xs)) k ≡ true → has (ids xs) k ≡ true
has-take zero xs k h = absurd (ground arith)
has-take (suc n) [] k h = h
has-take (suc n) (x ∷ xs) k h = ground (arith, has-take n xs k)

take-AreDistinct : (n : ℕ) (xs : List Slot) → AreDistinct (ids xs) → AreDistinct (ids (take n xs))
take-AreDistinct zero xs d = tt
take-AreDistinct (suc n) [] d = tt
take-AreDistinct (suc n) (x ∷ xs) d =
    (ground (arith, has-take n xs x.id), take-AreDistinct n xs d.1)

length-take : (n : ℕ) (xs : List Slot) → ltb (length (take n xs)) n ≡ false → length (take n xs) ≡ n
length-take zero xs h = refl
length-take (suc n) [] h = absurd (ground arith)
length-take (suc n) (x ∷ xs) h = ap suc (length-take n xs (ground arith))

-- What was asked for.
abbrev pub Fits : Choice → List ℕ → Type 0
Fits (slots_by_id wanted) slots = slots ≡ wanted
Fits (any_slots n) slots = length slots ≡ n

abbrev pub AreFree : List Allocation → List ℕ → Type 0
AreFree l slots = (k : ℕ) → has slots k ≡ true → any (holds k) l ≡ false

-- The slots that are chosen, if any are, are distinct, free and what was asked for.
abbrev pub AreChosen : List Allocation → Choice → Result (List ℕ) → Type 0
AreChosen l choice (ok slots) = AreDistinct slots × AreFree l slots × Fits choice slots
AreChosen l choice (err e) = Unit

available-AreFree :
    (org building n : ℕ) (w : ParkingWorld)
    → AreFree w.allocations (ids (find_available_slots org building n w))
unfolding find_available_slots
available-AreFree org building n w k h =
    let p = λ (s : Slot). is_offered org building s && is_free w.allocations s.id in
    passed p (λ j. any (holds j) w.allocations ≡ false) w.slots k (λ x e. ground arith)
      (sym (has-in_order w.precedes (filter p w.slots) k)
        ∙ has-take n (in_order w.precedes (filter p w.slots)) k h)

available-AreDistinct :
    (org building n : ℕ) (w : ParkingWorld)
    → AreDistinct (ids w.slots)
    → AreDistinct (ids (find_available_slots org building n w))
unfolding find_available_slots
available-AreDistinct org building n w d =
    let p = λ (s : Slot). is_offered org building s && is_free w.allocations s.id in
    take-AreDistinct n (in_order w.precedes (filter p w.slots))
      (in_order-AreDistinct w.precedes (filter p w.slots) (filter-AreDistinct p w.slots d))

length-available :
    (org building n : ℕ) (w : ParkingWorld)
    → ltb (length (find_available_slots org building n w)) n ≡ false
    → length (find_available_slots org building n w) ≡ n
unfolding find_available_slots
length-available org building n w h = length-take n _ h

pub chosen_slots-AreChosen :
    (org building : ℕ) (choice : Choice) (w : ParkingWorld)
    → AreDistinct (ids w.slots)
    → AreChosen w.allocations choice (chosen_slots org building choice w)
unfolding chosen_slots
chosen_slots-AreChosen org building (slots_by_id wanted) w d =
    let fits =
      length (filter (λ s. has wanted s.id && is_offered org building s) w.slots)
      == length wanted in
    let taken = any (λ a. has wanted a.slot_id && is_active a) w.allocations in
    elim (Bool-cases fits) [
      | inl e ↦ elim (Bool-cases taken) [
        | inl f ↦ rw (e, f) tt
        | inr f ↦
            rw (e, f)
              (
                by_id-AreDistinct org building wanted w.slots d e,
                λ k. none_active wanted w.allocations k f,
                refl,
              )
      ]
      | inr e ↦ rw e tt
    ]
chosen_slots-AreChosen org building (any_slots n) w d =
    let available = find_available_slots org building n w in
    elim (Bool-cases (ltb (length available) n)) [
      | inl e ↦ rw e tt
      | inr e ↦ rw e (
        available-AreDistinct org building n w d,
        available-AreFree org building n w,
        length-map (λ (s : Slot). s.id) available ∙ length-available org building n w e,
      )
    ]
