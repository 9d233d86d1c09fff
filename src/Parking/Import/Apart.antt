-- ===== src/Parking/Import/Apart.antt =====
-- The rows that `importSlotsCsv` keeps, and the codes that it asks for before it writes them.
use mathlib.Core.List.{Memᴰ}
use towerdesk_backend_clean.Prelude.{
  ℕ, suc, ◌<◌, ◌≡◌, ◌≢◌, ◌⊎◌, refl, ap, sym, ◌∙◌, subst, true, false, ◌&&◌, some, List, [], ◌∷◌,
  ◌++◌, map, filter, ◌==◌, Text, same_text, All, All-append_one, All-map, AreDistinct, has, ltb,
  arith, Option-cases, Bool-cases, inl, inr,
}
use towerdesk_backend_clean.Csv.{Row}
use towerdesk_backend_clean.Parking.Types.{Slot}
use towerdesk_backend_clean.Parking.World.{ParkingWorld}
use towerdesk_backend_clean.Parking.Sound.{IsSound, slot_ids}
use towerdesk_backend_clean.Parking.Import.Headers.{Field, ImportError}
use towerdesk_backend_clean.Parking.Import.Reading.{
  Entry, Progress, read_cell, parse_type, read_fields, read_coded, read_row, read_rows, add_entry,
  has_value, has_seen,
}
use towerdesk_backend_clean.Parking.Import.Writing.{existing_id, existing_of}
use towerdesk_backend_clean.Parking.Import.Placed.{AreApart, IsKnown}

same_text_sound : (t u : Text) → same_text t u ≡ true → t ≡ u
same_text_sound [] [] h = refl
same_text_sound [] (d ∷ ds) h = absurd (ground arith)
same_text_sound (c ∷ cs) [] h = absurd (ground arith)
same_text_sound (c ∷ cs) (d ∷ ds) h =
    let tails = same_text_sound cs ds (ground arith) in
    let heads : c ≡ d = ground arith in rw (heads, tails) refl

same_text_refl : (t : Text) → same_text t t ≡ true
same_text_refl [] = refl
same_text_refl (c ∷ cs) = ground (arith, same_text_refl cs)

-- The codes of the rows that are kept have been seen, and no two rows have one.
abbrev pub IsApart : Progress → Type 0
IsApart p = All (λ e. has_seen e.slot.code p.seen ≡ true) p.entries × AreApart p.entries

AreApart-append_one :
    (es : List Entry) (n : Entry)
    → AreApart es
    → All (λ x. n.slot.code ≢ x.slot.code) es
    → AreApart (es ++ (n ∷ []))
AreApart-append_one [] n a h = (tt, tt)
AreApart-append_one (e ∷ es) n a h =
    (All-append_one (λ x. x.slot.code ≢ e.slot.code) es a.0 h.0, AreApart-append_one es n a.1 h.1)

add_entry-IsApart :
    (flags : List ImportError) (e : Entry) (p : Progress)
    → IsApart p
    → has_seen e.slot.code p.seen ≡ false
    → IsApart (add_entry flags e (record p { seen = e.slot.code ∷ p.seen }))
add_entry-IsApart [] e p (seen, apart) new = (
  All-append_one (λ x. has_seen x.slot.code (e.slot.code ∷ p.seen) ≡ true) p.entries
      (All-map (λ x. has_seen x.slot.code p.seen ≡ true)
        (λ x. has_seen x.slot.code (e.slot.code ∷ p.seen) ≡ true) p.entries (λ x h. ground arith)
        seen)
      (ground (arith, same_text_refl e.slot.code)),
  AreApart-append_one p.entries e apart (
      All-map (λ x. has_seen x.slot.code p.seen ≡ true) (λ x. e.slot.code ≢ x.slot.code) p.entries
        (λ x h same. absurd (
          let h' : has_seen e.slot.code p.seen ≡ true =
            subst (λ c. has_seen c p.seen ≡ true) (sym same) h in
          cc))
        seen),
)
add_entry-IsApart (f ∷ fs) e p (seen, apart) new = (
  All-map (λ x. has_seen x.slot.code p.seen ≡ true)
      (λ x. has_seen x.slot.code (e.slot.code ∷ p.seen) ≡ true) p.entries (λ x h. ground arith)
      seen,
  apart,
)

more_seen :
    (c : Text) (p : Progress)
    → IsApart p
    → All (λ x. has_seen x.slot.code (c ∷ p.seen) ≡ true) p.entries
more_seen c p (seen, apart) =
    All-map (λ x. has_seen x.slot.code p.seen ≡ true)
      (λ x. has_seen x.slot.code (c ∷ p.seen) ≡ true) p.entries (λ x h. ground arith) seen

module _ (actual : List (Field × Text)) (row : ℕ) (r : Row) where
  read_coded-IsApart : (c : Text) (p : Progress) → IsApart p → IsApart (read_coded actual row r c p)
  unfolding read_coded read_fields
  read_coded-IsApart c p a = elim (Option-cases (read_cell actual r Field.type_field)) [
    | inl e ↦ rw (read_coded, e) a
    | inr (t, e) ↦ elim (Bool-cases (has_seen c p.seen)) [
      | inl f ↦ rw (read_coded, e, f) a
      | inr f ↦ elim (Option-cases (parse_type t)) [
        | inl g ↦ rw (read_coded, e, f) (rw (read_fields, g) (more_seen c p a, a.1))
        | inr (k, g) ↦ rw (read_coded, e, f) (rw (read_fields, g) (add_entry-IsApart _ _ p a f))
      ]
    ]
  ]

  read_row-IsApart : (p : Progress) → IsApart p → IsApart (read_row actual row r p)
  unfolding read_row
  read_row-IsApart p a = elim (Bool-cases (has_value r)) [
    | inr e ↦ rw (read_row, e) a
    | inl e ↦ elim (Option-cases (read_cell actual r Field.code_field)) [
      | inl f ↦ rw (read_row, e, f) a
      | inr (c, f) ↦ rw (read_row, e, f) (read_coded-IsApart c p a)
    ]
  ]

pub read_rows-IsApart :
    (actual : List (Field × Text)) (row : ℕ) (rs : List Row) (p : Progress)
    → IsApart p
    → IsApart (read_rows actual row rs p)
unfolding read_rows
read_rows-IsApart actual row [] p a = a
read_rows-IsApart actual row (r ∷ rs) p a =
    read_rows-IsApart actual (suc row) rs (read_row actual row r p)
      (read_row-IsApart actual row r p a)

has-slot_ids : (xs : List Slot) {s : Slot} → Memᴰ s xs → has (slot_ids xs) s.id ≡ true
has-slot_ids [] m = elim m [ ]
has-slot_ids (x ∷ xs) (Memᴰ.head e) = rw e (ground arith)
has-slot_ids (x ∷ xs) (Memᴰ.tail m) = ground (arith, has-slot_ids xs m)

-- Slots of one id are one slot.
same_slot :
    (xs : List Slot) {s t : Slot}
    → AreDistinct (slot_ids xs)
    → Memᴰ s xs
    → Memᴰ t xs
    → s.id ≡ t.id
    → s ≡ t
same_slot [] d m n e = elim m [ ]
same_slot (x ∷ xs) d (Memᴰ.head f) (Memᴰ.head g) e = f ∙ sym g
same_slot (x ∷ xs) {s} {t} d (Memᴰ.head f) (Memᴰ.tail n) e =
    let id : t.id ≡ x.id = sym e ∙ ap (λ (y : Slot). y.id) f in
    let listed : has (slot_ids xs) x.id ≡ true =
      subst (λ k. has (slot_ids xs) k ≡ true) id (has-slot_ids xs n) in
    absurd (ground arith)
same_slot (x ∷ xs) {s} {t} d (Memᴰ.tail m) (Memᴰ.head g) e =
    let id : s.id ≡ x.id = e ∙ ap (λ (y : Slot). y.id) g in
    let listed : has (slot_ids xs) x.id ≡ true =
      subst (λ k. has (slot_ids xs) k ≡ true) id (has-slot_ids xs m) in
    absurd (ground arith)
same_slot (x ∷ xs) d (Memᴰ.tail m) (Memᴰ.tail n) e = same_slot xs d.1 m n e

none_existing : (c : Text) {id : ℕ} → existing_id c [] ≢ some id
unfolding existing_id
none_existing c h = absurd (cc)

existing_id-cons :
    (c k : Text) (j : ℕ) (rest : List (Text × ℕ)) {id : ℕ}
    → existing_id c ((k, j) ∷ rest) ≡ some id
    → (existing_id c rest ≡ some id) ⊎ ((same_text k c ≡ true) × (j ≡ id))
unfolding existing_id
existing_id-cons c k j rest h = ground arith

found_existing :
    (org building : ℕ) (xs : List Slot) (c : Text) {id : ℕ}
    → existing_id c (
        map
          (λ (s : Slot). (s.code, s.id))
          (filter (λ s. (s.org_id == org) && (s.building_id == building)) xs))
      ≡ some id
    → (s : Slot) × Memᴰ s xs × (s.id ≡ id) × (s.code ≡ c) × (s.building_id ≡ building)
found_existing org building [] c h = absurd (none_existing c h)
found_existing org building (x ∷ xs) c {id} h =
    elim (Bool-cases ((x.org_id == org) && (x.building_id == building))) [
      | inr p ↦
          let (s, m, i, code, at) = found_existing org building xs c (rw p at h) in
          (s, Memᴰ.tail m, i, code, at)
      | inl p ↦ elim (existing_id-cons c x.code x.id _ (rw p at h)) [
        | inl later ↦
            let (s, m, i, code, at) = found_existing org building xs c later in
            (s, Memᴰ.tail m, i, code, at)
        | inr (same, e) ↦ (x, Memᴰ.head refl, e, same_text_sound x.code c same, ground arith)
      ]
    ]

id_used :
    (next : ℕ) (ks : List ℕ) (id : ℕ)
    → All (λ k. ltb k next ≡ true) ks
    → has ks id ≡ true
    → id < next
id_used next [] id u h = absurd (cc)
id_used next (k ∷ ks) id u h = ground (arith, id_used next ks id u.1)

pub existing_of-IsKnown :
    (org building : ℕ) (w : ParkingWorld)
    → IsSound w
    → IsKnown building (existing_of org building w) w
unfolding existing_of
existing_of-IsKnown org building w (_, _, distinct, used) = record {
  named = λ c id h s m e.
      let (t, n, same, code, at) = found_existing org building w.slots c h in
      let one = same_slot w.slots distinct m n (e ∙ sym same) in
      (ap (λ (y : Slot). y.code) one ∙ code, ap (λ (y : Slot). y.building_id) one ∙ at);
  listed = λ c id h.
      let (t, n, same, code, at) = found_existing org building w.slots c h in (t, n, same);
  old = λ c id h.
      let (t, n, same, code, at) = found_existing org building w.slots c h in
      id_used w.next_id (slot_ids w.slots) id used
        (subst (λ k. has (slot_ids w.slots) k ≡ true) same (has-slot_ids w.slots n));
}
