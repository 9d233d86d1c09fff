-- ===== src/Parking/Sound/Allocations.antt =====
-- Who has a slot in a list of allocations, when allocations are added and when they end.
use towerdesk_backend_clean.Prelude.{
  ℕ, suc, ◌≡◌, refl, ap, subst, ◌∙◌, inl, inr, Bool, true, false, not, ◌&&◌, none, some, List, [],
  ◌∷◌, ◌++◌, if◌then◌else◌, find, any, has, keep, or_option, AreDistinct, any-append, ==_iff,
  Bool-cases, ◌==◌, arith,
}
use towerdesk_backend_clean.Parking.Types.{Allocation, Target}
use towerdesk_backend_clean.Parking.World.{is_active, holds}
use towerdesk_backend_clean.Parking.Allocating.{new_allocation, new_allocations}
use towerdesk_backend_clean.Parking.Ending.{end_where}
use towerdesk_backend_clean.Parking.Sound.{AreExclusive}

pub find-append {ℓ} :
    {A : Type ℓ} (p : A → Bool) (xs ys : List A)
    → find p (xs ++ ys) ≡ or_option (find p xs) (find p ys)
find-append p [] ys = refl
find-append p (x ∷ xs) ys = ground (arith, find-append p xs ys)

pub find-none {ℓ} : {A : Type ℓ} (p : A → Bool) (xs : List A) → any p xs ≡ false → find p xs ≡ none
find-none p [] h = refl
find-none p (x ∷ xs) h = ground (arith, find-none p xs)

-- The id of the new allocation of a slot.
unfoldable pub new_id : ℕ → List ℕ → ℕ → ℕ
new_id id [] slot = id
new_id id (x ∷ xs) slot = let later = new_id (suc id) xs slot in if x == slot then id else later

pub any-end_where :
    (p : Allocation → Bool) (end slot : ℕ) (l : List Allocation)
    → any (holds slot) l ≡ false
    → any (holds slot) (end_where p end l) ≡ false
unfolding end_where
any-end_where p end slot [] h = refl
any-end_where p end slot (a ∷ l) h = ground (arith, any-end_where p end slot l)

pub end_where-AreExclusive :
    (p : Allocation → Bool) (end : ℕ) (l : List Allocation)
    → AreExclusive l
    → AreExclusive (end_where p end l)
unfolding end_where
end_where-AreExclusive p end [] h = tt
end_where-AreExclusive p end (a ∷ l) h = elim (Bool-cases (p a)) [
  | inl e ↦ rw e (refl, end_where-AreExclusive p end l h.1)
  | inr e ↦
      rw e (ground (arith, any-end_where p end a.slot_id l), end_where-AreExclusive p end l h.1)
]

and_false : (b : Bool) → (b && false) ≡ false
and_false b = ground arith

-- The rest has no active allocation of a slot that the first one has.
held_once :
    (slot : ℕ) (a : Allocation) (l : List Allocation)
    → holds slot a ≡ true
    → (is_active a && any (holds a.slot_id) l) ≡ false
    → any (holds slot) l ≡ false
held_once slot a l e h =
    subst (λ s. any (holds s) l ≡ false) ((==_iff a.slot_id slot).0 (ground arith)) (ground arith)

pub find-end_where :
    (p : Allocation → Bool) (end slot : ℕ) (l : List Allocation)
    → AreExclusive l
    → find (holds slot) (end_where p end l) ≡ keep (λ a. not (p a)) (find (holds slot) l)
unfolding end_where
find-end_where p end slot [] h = refl
find-end_where p end slot (a ∷ l) h = elim (Bool-cases (holds slot a)) [
  | inl e ↦ elim (Bool-cases (p a)) [
    | inl f ↦
        rw (f, e, f, and_false (a.slot_id == slot))
          (find-none (holds slot) (end_where p end l)
            (any-end_where p end slot l (held_once slot a l e h.0)))
    | inr f ↦ rw (f, e, f) refl
  ]
  | inr e ↦ elim (Bool-cases (p a)) [
    | inl f ↦ rw (f, e, and_false (a.slot_id == slot)) (find-end_where p end slot l h.1)
    | inr f ↦ rw (f, e) (find-end_where p end slot l h.1)
  ]
]

module _ (org building now : ℕ) (target : Target) where
  abbrev new : ℕ → List ℕ → List Allocation
  unfolding new_allocations
  new id slots = new_allocations id org building target now slots

  pub any-new_allocations :
      (id : ℕ) (slots : List ℕ) (slot : ℕ)
      → any (holds slot) (new_allocations id org building target now slots) ≡ has slots slot
  unfolding new_allocations
  any-new_allocations id [] slot = refl
  any-new_allocations id (x ∷ xs) slot = ground (arith, any-new_allocations (suc id) xs slot)

  pub find-new_allocations :
      (id : ℕ) (slots : List ℕ) (slot : ℕ)
      → find (holds slot) (new_allocations id org building target now slots) ≡ (
          if has slots slot
          then some (new_allocation (new_id id slots slot) org building target now slot)
          else none)
  unfolding new_allocations new_id
  find-new_allocations id [] slot = refl
  find-new_allocations id (x ∷ xs) slot = elim (Bool-cases (x == slot)) [
    | inl e ↦
        rw e (ap (λ s. some (new_allocation id org building target now s)) ((==_iff x slot).0 e))
    | inr e ↦ rw e (find-new_allocations (suc id) xs slot)
  ]

  pub new_allocations-AreExclusive :
      (id : ℕ) (slots : List ℕ)
      → AreDistinct slots
      → AreExclusive (new_allocations id org building target now slots)
  unfolding new_allocations
  new_allocations-AreExclusive id [] d = tt
  new_allocations-AreExclusive id (x ∷ xs) d =
      (any-new_allocations (suc id) xs x ∙ d.0, new_allocations-AreExclusive (suc id) xs d.1)

pub append-AreExclusive :
    (l m : List Allocation)
    → AreExclusive l
    → AreExclusive m
    → ((slot : ℕ) → any (holds slot) m ≡ true → any (holds slot) l ≡ false)
    → AreExclusive (l ++ m)
append-AreExclusive [] m h k free = k
append-AreExclusive (a ∷ l) m h k free = (
  ground (arith, any-append (holds a.slot_id) l m, free a.slot_id),
  append-AreExclusive l m h.1 k (λ slot n. ground (arith, free slot n)),
)
