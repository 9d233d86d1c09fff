-- ===== src/Parking/Import/Updating.antt =====
-- The slots of the table after the update of one and after the insertion of one, for `importSlotsCsv`.
use mathlib.Core.List.{Memᴰ}
use towerdesk_backend_clean.Prelude.{
  ℕ, ◌≡◌, ◌≢◌, refl, ap, sym, subst, Bool, some, List, [], ◌∷◌, ◌++◌, ◌==◌, if◌then◌else◌, Text,
  arith, Bool-cases, inl, inr,
}
use towerdesk_backend_clean.Parking.Types.{Slot}
use towerdesk_backend_clean.Parking.Slots.{SlotDto}
use towerdesk_backend_clean.Parking.Import.Writing.{imported_slot, update_imported}

-- The slot is in the building and has what the row says: its code, its type, and the level and the
-- flags that the row gives.
abbrev pub IsFrom : ℕ → SlotDto → Slot → Type 0
IsFrom building dto s =
    (s.building_id ≡ building)
    × (s.code ≡ dto.code)
    × (s.type ≡ dto.type)
    × ((l : Text) → dto.level ≡ some l → s.level ≡ some l)
    × ((b : Bool) → dto.is_covered ≡ some b → s.is_covered ≡ b)
    × ((b : Bool) → dto.is_active ≡ some b → s.is_active ≡ b)

module _ (id : ℕ) (dto : SlotDto) where
  abbrev pub after_update : Slot → Slot
  after_update s = if s.id == id then imported_slot dto s else s

  pub Mem-update :
      (xs : List Slot) {s : Slot} → Memᴰ s xs → Memᴰ (after_update s) (update_imported id dto xs)
  unfolding update_imported
  Mem-update [] m = elim m [ ]
  Mem-update (x ∷ xs) (Memᴰ.head e) = Memᴰ.head (ap after_update e)
  Mem-update (x ∷ xs) (Memᴰ.tail m) = Memᴰ.tail (Mem-update xs m)

  pub Mem-updated :
      (xs : List Slot) {t : Slot}
      → Memᴰ t (update_imported id dto xs)
      → (s : Slot) × Memᴰ s xs × (t ≡ after_update s)
  unfolding update_imported
  Mem-updated [] m = elim m [ ]
  Mem-updated (x ∷ xs) (Memᴰ.head e) = (x, Memᴰ.head refl, e)
  Mem-updated (x ∷ xs) (Memᴰ.tail m) = let (s, k, e) = Mem-updated xs m in (s, Memᴰ.tail k, e)

  pub after_update-IsFrom :
      (building : ℕ) (s : Slot)
      → s.id ≡ id
      → s.building_id ≡ building
      → IsFrom building dto (after_update s)
  after_update-IsFrom building s e b = rw (e) (
    ground arith,
    ground arith,
    ground arith,
    λ l k. ground arith,
    λ x k. ground arith,
    λ x k. ground arith,
  )

  pub after_update-id : (s : Slot) → (after_update s).id ≡ s.id
  after_update-id s = ground arith

  pub after_update-building : (s : Slot) → (after_update s).building_id ≡ s.building_id
  after_update-building s = ground arith

  pub after_update-code :
      (s : Slot) → (s.id ≡ id → dto.code ≡ s.code) → (after_update s).code ≡ s.code
  after_update-code s h = elim (Bool-cases (s.id == id)) [
    | inl e ↦ rw e (h (ground arith))
    | inr e ↦ rw e refl
  ]

  pub after_update-other : (s : Slot) → s.id ≢ id → after_update s ≡ s
  after_update-other s h = elim (Bool-cases (s.id == id)) [
    | inl e ↦ absurd (h (ground arith))
    | inr e ↦ rw e refl
  ]

pub Mem-append_one : (xs : List Slot) (x : Slot) {s : Slot} → Memᴰ s xs → Memᴰ s (xs ++ (x ∷ []))
Mem-append_one [] x m = elim m [ ]
Mem-append_one (y ∷ xs) x (Memᴰ.head e) = Memᴰ.head e
Mem-append_one (y ∷ xs) x (Memᴰ.tail m) = Memᴰ.tail (Mem-append_one xs x m)

pub Mem-last : (xs : List Slot) (x : Slot) → Memᴰ x (xs ++ (x ∷ []))
Mem-last [] x = Memᴰ.head refl
Mem-last (y ∷ xs) x = Memᴰ.tail (Mem-last xs x)

-- A member of the longer list is one of the list or the new one.
pub Mem-appended :
    (P : Slot → Type 0) (xs : List Slot) {t x : Slot}
    → ((s : Slot) → Memᴰ s xs → P s)
    → P x
    → Memᴰ t (xs ++ (x ∷ []))
    → P t
Mem-appended P [] f p (Memᴰ.head e) = subst P (sym e) p
Mem-appended P [] f p (Memᴰ.tail m) = elim m [ ]
Mem-appended P (y ∷ xs) f p (Memᴰ.head e) = f _ (Memᴰ.head e)
Mem-appended P (y ∷ xs) f p (Memᴰ.tail m) = Mem-appended P xs (λ s k. f s (Memᴰ.tail k)) p m
