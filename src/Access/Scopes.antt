-- ===== src/Access/Scopes.antt =====
-- What a user reaches as an owner and as a member of a service provider.
use towerdesk_backend_clean.Prelude.{
  ℕ, ◌≡◌, refl, Bool, true, not, ◌&&◌, ◌||◌, some, arith, ◌==◌, is_id, any, has, has-map-filter,
  has-append, any_witness, or_cases, or_right, Option-cases, inl, inr,
}
use towerdesk_backend_clean.Directory.{Directory, UnitOwnership, UnitRow}
use towerdesk_backend_clean.Access.{
  is_granted_owner, is_granted, active_owner_ids, accessible_unit_ids,
}

-- The owner holds the unit: by a current ownership, or by the unit's own row while it has none.
abbrev pub owns : Directory → ℕ → ℕ → Bool
owns dir owner unit =
    any (λ w. (w.owner_id == owner) && (w.unit_id == unit) && w.is_current) dir.ownerships
    || (not (any (λ w. (w.unit_id == unit) && w.is_current) dir.ownerships)
        && any (λ u. (u.id == unit) && is_id u.owner_id owner) dir.units)

module _ (dir : Directory) (user unit : ℕ) where
  -- The tests of `accessible_unit_ids`, with the unit asked for.
  abbrev by_ownership : UnitOwnership → Bool
  by_ownership w =
      (has (active_owner_ids dir user) w.owner_id
        && w.is_current
        && is_granted_owner dir user w.owner_id)
      && (w.unit_id == unit)

  abbrev by_row : UnitRow → Bool
  by_row u =
      (is_granted dir user (active_owner_ids dir user) u.owner_id
        && not (any (λ w. (w.unit_id == u.id) && w.is_current) dir.ownerships))
      && (u.id == unit)

  abbrev IsHeld : Type 0
  IsHeld = (o : ℕ) × (is_granted_owner dir user o ≡ true) × (owns dir o unit ≡ true)

  held_by_ownership : any by_ownership dir.ownerships ≡ true → IsHeld
  held_by_ownership h =
      let (w, e, member) = any_witness by_ownership dir.ownerships h in
      let owned =
        λ (v : UnitOwnership). (v.owner_id == w.owner_id) && (v.unit_id == unit) && v.is_current in
      let found : any owned dir.ownerships ≡ true = member owned (ground arith) in
      (w.owner_id, ground arith, rw found)

  -- The row of a unit, once its owner is known.
  held_row :
      (o : ℕ) (u : UnitRow)
      → u.owner_id ≡ some o
      → by_row u ≡ true
      → ((q : UnitRow → Bool) → q u ≡ true → any q dir.units ≡ true)
      → IsHeld
  held_row o u f e member =
      let own = λ (v : UnitRow). (v.id == unit) && is_id v.owner_id o in
      let found : any own dir.units ≡ true = member own (ground arith) in
      let same : u.id ≡ unit = ground arith in
      let free : not (any (λ w. (w.unit_id == u.id) && w.is_current) dir.ownerships) ≡ true =
        ground arith in
      (
        o,
        ground arith,
        rw (found, rw same at free)
            (or_right
              (any (λ w. (w.owner_id == o) && (w.unit_id == unit) && w.is_current) dir.ownerships)
              true refl),
      )

  held_by_row : any by_row dir.units ≡ true → IsHeld
  held_by_row h =
      let (u, e, member) = any_witness by_row dir.units h in
      elim (Option-cases u.owner_id) [ inl f ↦ ground arith | inr (o, f) ↦ held_row o u f e member ]

  -- A unit that an owner's user reaches is held by an active owner for whom the user has an
  -- active grant.
  pub accessible_unit-owned :
      has (accessible_unit_ids dir user) unit ≡ true
      → (o : ℕ) × (is_granted_owner dir user o ≡ true) × (owns dir o unit ≡ true)
  unfolding accessible_unit_ids
  accessible_unit-owned h =
      elim (or_cases (any by_ownership dir.ownerships) (any by_row dir.units)
        (rw (has-append, has-map-filter, has-map-filter) at h)) [
          | inl current ↦ held_by_ownership current
          | inr own_row ↦ held_by_row own_row
        ]
