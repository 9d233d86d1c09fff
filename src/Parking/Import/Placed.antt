-- ===== src/Parking/Import/Placed.antt =====
-- What the transaction of `importSlotsCsv` leaves of each row: a slot with the values of the row.
use mathlib.Core.List.{Memᴰ}
use towerdesk_backend_clean.Prelude.{
  ℕ, suc, ◌<◌, ◌≡◌, ◌≢◌, refl, ap, sym, ◌∙◌, subst, some, List, [], ◌∷◌, ◌++◌, Text, All, arith,
  Option-cases, Bool-cases, inl, inr,
}
use towerdesk_backend_clean.Action.{After, After-bind, After-map}
use towerdesk_backend_clean.Parking.Types.{Slot}
use towerdesk_backend_clean.Parking.World.{ParkingWorld}
use towerdesk_backend_clean.Parking.Slots.{SlotDto, has_code, insert_slot, new_slot}
use towerdesk_backend_clean.Parking.Import.Reading.{Entry}
use towerdesk_backend_clean.Parking.Import.Updating.{
  IsFrom, after_update, Mem-update, Mem-updated, after_update-IsFrom, after_update-id,
  after_update-building, after_update-code, after_update-other, Mem-append_one, Mem-last,
  Mem-appended,
}
use towerdesk_backend_clean.Parking.Import.Writing.{
  ImportMode, Written, existing_id, update_imported, upserted_id, write_entry, write_entries,
}

-- A slot has what the row says.
abbrev pub IsPlaced : ℕ → List Slot → Entry → Type 0
IsPlaced building slots e = (s : Slot) × Memᴰ s slots × IsFrom building e.slot s

-- The existing codes with their ids are those of slots of the building that are in the table.
pub record IsKnown (building : ℕ) (existing : List (Text × ℕ)) (w : ParkingWorld) : Type 0 where
  pub named :
      (c : Text) (id : ℕ)
      → existing_id c existing ≡ some id
      → (s : Slot) → Memᴰ s w.slots
      → s.id ≡ id
      → (s.code ≡ c) × (s.building_id ≡ building)
  pub listed :
      (c : Text) (id : ℕ)
      → existing_id c existing ≡ some id
      → (s : Slot) × Memᴰ s w.slots × (s.id ≡ id)
  pub old : (c : Text) (id : ℕ) → existing_id c existing ≡ some id → id < w.next_id

new_slot-IsFrom :
    (id org building now : ℕ) (dto : SlotDto)
    → IsFrom building dto (new_slot id org building now dto)
new_slot-IsFrom id org building now dto =
    (refl, refl, refl, λ l k. k, λ x k. ground arith, λ x k. ground arith)

-- A row has been written: a slot has what it says, the slots with other codes are as they were, and
-- the existing codes are as well known as before.
HasPlaced : ℕ → List (Text × ℕ) → ParkingWorld → Entry → ParkingWorld → Type 0
HasPlaced building existing w e v =
    IsKnown building existing v
    × IsPlaced building v.slots e
    × ((s : Slot) → Memᴰ s w.slots → s.code ≢ e.slot.code → Memᴰ s v.slots)

module _ (building : ℕ) (existing : List (Text × ℕ)) (w : ParkingWorld) where
  update-named :
      (e : Entry) (id : ℕ)
      → existing_id e.slot.code existing ≡ some id
      → IsKnown building existing w
      → (c : Text) (i : ℕ) → existing_id c existing ≡ some i
      → (t : Slot) → Memᴰ t (update_imported id e.slot w.slots)
      → t.id ≡ i
      → (t.code ≡ c) × (t.building_id ≡ building)
  update-named e id f k c i g t n j =
      let (x, m, from) = Mem-updated id e.slot w.slots n in
      let same : x.id ≡ i =
        sym (after_update-id id e.slot x) ∙ ap (λ (y : Slot). y.id) (sym from) ∙ j in
      let (code, at) = k.named c i g x m same in
      (
        ap (λ (y : Slot). y.code) from
            ∙ after_update-code id e.slot x (λ h. sym (k.named e.slot.code id f x m h).0)
            ∙ code,
        ap (λ (y : Slot). y.building_id) from ∙ after_update-building id e.slot x ∙ at,
      )

  update-listed :
      (e : Entry) (id : ℕ)
      → IsKnown building existing w
      → (c : Text) (i : ℕ) → existing_id c existing ≡ some i
      → (s : Slot) × Memᴰ s (update_imported id e.slot w.slots) × (s.id ≡ i)
  update-listed e id k c i g =
      let (s, m, same) = k.listed c i g in
      (after_update id e.slot s, Mem-update id e.slot w.slots m, after_update-id id e.slot s ∙ same)

  update-HasPlaced :
      (e : Entry) (id : ℕ)
      → existing_id e.slot.code existing ≡ some id
      → IsKnown building existing w
      → HasPlaced building existing w e (record w { slots = update_imported id e.slot w.slots })
  unfolding HasPlaced
  update-HasPlaced e id f k =
      let (s, m, same) = k.listed e.slot.code id f in
      let (code, at) = k.named e.slot.code id f s m same in
      (
        record { named = update-named e id f k; listed = update-listed e id k; old = k.old },
        (
          after_update id e.slot s,
          Mem-update id e.slot w.slots m,
          after_update-IsFrom id e.slot building s same at,
        ),
        λ t n other.
            subst (λ x. Memᴰ x (update_imported id e.slot w.slots))
              (after_update-other id e.slot t (λ j. other (k.named e.slot.code id f t n j).0))
              (Mem-update id e.slot w.slots n),
      )

  insert-HasPlaced :
      (org : ℕ) (e : Entry)
      → IsKnown building existing w
      → HasPlaced building existing w e (record w {
        next_id = suc w.next_id;
        slots = w.slots ++ (new_slot w.next_id org building w.now e.slot ∷ []);
      })
  unfolding HasPlaced
  insert-HasPlaced org e k =
      let new = new_slot w.next_id org building w.now e.slot in
      (
        record {
          named = λ c i g t n.
              Mem-appended (λ x. x.id ≡ i → (x.code ≡ c) × (x.building_id ≡ building)) w.slots
                (λ x m. k.named c i g x m) (λ j. absurd (let past = k.old c i g in omega arith)) n;
          listed =
              λ c i g. let (s, m, same) = k.listed c i g in (s, Mem-append_one w.slots new m, same);
          old = λ c i g. let past = k.old c i g in omega arith;
        },
        (new, Mem-last w.slots new, new_slot-IsFrom w.next_id org building w.now e.slot),
        λ t n other. Mem-append_one w.slots new n,
      )

upserted-existing :
    (mode : ImportMode) (existing : List (Text × ℕ)) (c : Text) {id : ℕ}
    → upserted_id mode existing c ≡ some id
    → existing_id c existing ≡ some id
unfolding upserted_id
upserted-existing ImportMode.create existing c h = absurd (cc)
upserted-existing ImportMode.upsert existing c h = h

write_entry-HasPlaced :
    (mode : ImportMode) (org building : ℕ) (existing : List (Text × ℕ)) (e : Entry) (done : Written)
    → (w : ParkingWorld) → IsKnown building existing w
    → After
        (λ _ v. HasPlaced building existing w e v)
        (write_entry mode org building existing e done w)
unfolding write_entry insert_slot
write_entry-HasPlaced mode org building existing e done w k =
    elim (Option-cases (upserted_id mode existing e.slot.code)) [
      | inr (id, f) ↦
          rw (After, f)
            (update-HasPlaced building existing w e id
              (upserted-existing mode existing e.slot.code f) k)
      | inl f ↦ elim (Bool-cases (has_code building e.slot.code w.slots)) [
        | inl g ↦ rw (After, f, g) tt
        | inr g ↦ rw (After, f, g) (insert-HasPlaced building existing w org e k)
      ]
    ]

-- No two rows have one code.
abbrev pub AreApart : List Entry → Type 0
AreApart [] = Unit
AreApart (e ∷ es) = All (λ x. x.slot.code ≢ e.slot.code) es × AreApart es

-- Every row has been written, and the slots with codes that no row has are as they were.
abbrev pub AllPlaced : ℕ → List Entry → ParkingWorld → ParkingWorld → Type 0
AllPlaced building es w v =
    All (IsPlaced building v.slots) es
    × ((s : Slot) → Memᴰ s w.slots → All (λ x. x.slot.code ≢ s.code) es → Memᴰ s v.slots)

pub write_entries-AllPlaced :
    (mode : ImportMode) (org building : ℕ) (existing : List (Text × ℕ)) (es : List Entry)
    → (done : Written) (w : ParkingWorld) → AreApart es
    → IsKnown building existing w
    → After (λ _ v. AllPlaced building es w v) (write_entries mode org building existing es done w)
unfolding write_entries HasPlaced
write_entries-AllPlaced mode org building existing [] done w apart k = (tt, λ s m h. m)
write_entries-AllPlaced mode org building existing (e ∷ es) done w apart k =
    After-bind (λ _ v. AllPlaced building (e ∷ es) w v)
      (write_entry mode org building existing e done) _ w (λ _ v. HasPlaced building existing w e v)
      (write_entry-HasPlaced mode org building existing e done w k)
      (λ d v (known, (s, m, from), kept).
        After-map (λ _ u. AllPlaced building es v u) (λ _ u. AllPlaced building (e ∷ es) w u)
          (write_entries mode org building existing es d v)
          (λ _ u (placed, kept'). (
            ((s, kept' s m (rw from.1 apart.0), from), placed),
            λ t n other. kept' t (kept t n (λ h. other.0 (sym h))) other.1,
          ))
          (write_entries-AllPlaced mode org building existing es d v apart.1 known))
