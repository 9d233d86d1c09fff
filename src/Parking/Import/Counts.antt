-- ===== src/Parking/Import/Counts.antt =====
-- How many rows the loops of `importSlotsCsv` read and write.
use towerdesk_backend_clean.Prelude.{
  ℕ, suc, ◌+◌, ◌≤◌, ◌≡◌, refl, ap, List, [], ◌∷◌, ◌++◌, length, Text, arith, Option-cases,
  Bool-cases, inl, inr,
}
use towerdesk_backend_clean.Csv.{Row}
use towerdesk_backend_clean.Action.{After, After-bind, After-map}
use towerdesk_backend_clean.Parking.World.{ParkingWorld}
use towerdesk_backend_clean.Parking.Types.{Slot}
use towerdesk_backend_clean.Parking.Slots.{SlotDto, has_code, insert_slot}
use towerdesk_backend_clean.Parking.Import.Headers.{Field, ImportError}
use towerdesk_backend_clean.Parking.Import.Reading.{
  Entry, Progress, read_cell, parse_type, read_fields, read_coded, read_row, read_rows, add_entry,
  has_value, has_seen,
}
use towerdesk_backend_clean.Parking.Import.Writing.{
  ImportMode, Written, upserted_id, update_imported, write_entry, write_entries,
}

pub length-append {ℓ} : {A : Type ℓ} (xs ys : List A) → length (xs ++ ys) ≡ length xs + length ys
length-append [] ys = omega arith
length-append (x ∷ xs) ys = omega (arith, length-append xs ys)

length-add_entry :
    (flags : List ImportError) (e : Entry) (p : Progress)
    → length (add_entry flags e p).entries ≤ suc (length p.entries)
length-add_entry [] e p = omega (arith, length-append p.entries (e ∷ []))
length-add_entry (f ∷ fs) e p = omega arith

module _ (actual : List (Field × Text)) (row : ℕ) (r : Row) where
  length-read_fields :
      (c t : Text) (p : Progress)
      → length (read_fields actual row r c t p).entries ≤ suc (length p.entries)
  unfolding read_fields
  length-read_fields c t p = elim (Option-cases (parse_type t)) [
    | inl e ↦ rw (length, e) (omega arith)
    | inr (k, e) ↦ rw (length, e) (length-add_entry _ _ p)
  ]

  length-read_coded :
      (c : Text) (p : Progress)
      → length (read_coded actual row r c p).entries ≤ suc (length p.entries)
  unfolding read_coded
  length-read_coded c p = elim (Option-cases (read_cell actual r Field.type_field)) [
    | inl e ↦ rw (length, e) (omega arith)
    | inr (t, e) ↦ elim (Bool-cases (has_seen c p.seen)) [
      | inl f ↦ rw (length, e, f) (omega arith)
      | inr f ↦ rw (length, e, f) (length-read_fields c t _)
    ]
  ]

  length-read_row :
      (p : Progress) → length (read_row actual row r p).entries ≤ suc (length p.entries)
  unfolding read_row
  length-read_row p = elim (Bool-cases (has_value r)) [
    | inr e ↦ rw (length, e) (omega arith)
    | inl e ↦ elim (Option-cases (read_cell actual r Field.code_field)) [
      | inl f ↦ rw (length, e, f) (omega arith)
      | inr (c, f) ↦ rw (length, e, f) (length-read_coded c p)
    ]
  ]

pub length-read_rows :
    (actual : List (Field × Text)) (row : ℕ) (rs : List Row) (p : Progress)
    → length (read_rows actual row rs p).entries ≤ length rs + length p.entries
unfolding read_rows
length-read_rows actual row [] p = omega arith
length-read_rows actual row (r ∷ rs) p = omega (
  arith,
  length-read_row actual row r p,
  length-read_rows actual (suc row) rs (read_row actual row r p),
)

length-update_imported :
    (id : ℕ) (dto : SlotDto) (xs : List Slot) → length (update_imported id dto xs) ≡ length xs
unfolding update_imported
length-update_imported id dto [] = refl
length-update_imported id dto (x ∷ xs) = ap (λ (n : ℕ). suc n) (length-update_imported id dto xs)

-- `n` more rows are written, and the table of the slots is longer by what was created.
abbrev pub HasWritten : ℕ → Written → ParkingWorld → Written → ParkingWorld → Type 0
HasWritten n before w after v =
    (after.created + after.updated ≡ before.created + before.updated + n)
    × (length after.slot_ids ≡ length before.slot_ids + n)
    × (length v.slots + before.created ≡ length w.slots + after.created)

write_entry-HasWritten :
    (mode : ImportMode) (org building : ℕ) (existing : List (Text × ℕ)) (e : Entry) (done : Written)
    → (w : ParkingWorld)
    → After (λ d v. HasWritten 1 done w d v) (write_entry mode org building existing e done w)
unfolding write_entry insert_slot
write_entry-HasWritten mode org building existing e done w =
    elim (Option-cases (upserted_id mode existing e.slot.code)) [
      | inr (id, f) ↦
          rw (After, f)
            (
              omega arith,
              omega (arith, length-append done.slot_ids (id ∷ [])),
              omega (arith, length-update_imported id e.slot w.slots),
            )
      | inl f ↦ elim (Bool-cases (has_code building e.slot.code w.slots)) [
        | inl g ↦ rw (After, f, g) tt
        | inr g ↦
            rw (After, f, g)
              (
                omega arith,
                omega (arith, length-append done.slot_ids (w.next_id ∷ [])),
                omega (arith, length-append w.slots (_ ∷ [])),
              )
      ]
    ]

pub write_entries-HasWritten :
    (mode : ImportMode) (org building : ℕ) (existing : List (Text × ℕ)) (es : List Entry)
    → (done : Written) (w : ParkingWorld)
    → After
        (λ d v. HasWritten (length es) done w d v)
        (write_entries mode org building existing es done w)
unfolding write_entries
write_entries-HasWritten mode org building existing [] done w =
    (omega arith, omega arith, omega arith)
write_entries-HasWritten mode org building existing (e ∷ es) done w =
    After-bind (λ d v. HasWritten (suc (length es)) done w d v)
      (write_entry mode org building existing e done) _ w (λ d v. HasWritten 1 done w d v)
      (write_entry-HasWritten mode org building existing e done w)
      (λ d v (sum, ids, rows).
        After-map (λ d' u. HasWritten (length es) d v d' u)
          (λ d' u. HasWritten (suc (length es)) done w d' u)
          (write_entries mode org building existing es d v)
          (λ d' u (sum', ids', rows'). (omega arith, omega arith, omega arith))
          (write_entries-HasWritten mode org building existing es d v))
