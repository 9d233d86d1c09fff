-- ===== src/Parking/Sound/Readers.antt =====
-- The checks of the handlers, which leave the tables alone.
use towerdesk_backend_clean.Prelude.{
  ℕ, ◌≡◌, refl, Option, none, some, Option-cases, Bool-cases, inl, inr, List, find, ◌==◌,
}
use towerdesk_backend_clean.Action.{Reads, After, After-reader}
use towerdesk_backend_clean.Request.Callers.{AuthUser, org_of}
use towerdesk_backend_clean.Parking.Types.{LeaseRow, Target, Activity, ActivityAction}
use towerdesk_backend_clean.Parking.World.{
  ParkingWorld, create_activity, org_scope, org_in_building, has_building, active_lease, is_of_org,
  is_lease_of,
}
use towerdesk_backend_clean.Parking.Allocating.{target_lease, tell_lease, lease_again, has_unit}
use towerdesk_backend_clean.Parking.Ending.{allocation_lease}

abbrev pub Any : {A : Type 0} → A → Type 0
Any a = Unit

pub org_scope-Reads :
    (user : Option AuthUser) → Reads (λ org. org_of user ≡ some org) (org_scope user)
unfolding org_scope
org_scope-Reads user w = elim (Option-cases (org_of user)) [
  | inl e ↦ rw e tt
  | inr (org, e) ↦ rw e (refl, refl)
]

pub org_in_building-Reads :
    (user : Option AuthUser) (building : ℕ)
    → Reads (λ org. org_of user ≡ some org) (org_in_building user building)
unfolding org_in_building org_scope
org_in_building-Reads user building w = elim (Option-cases (org_of user)) [
  | inl e ↦ rw e tt
  | inr (org, e) ↦ elim (Bool-cases (has_building org building w)) [
    | inl f ↦ rw (e, f) (refl, refl)
    | inr f ↦ rw (After, e, f) tt
  ]
]

pub active_lease-Reads : (org id : ℕ) → Reads Any (active_lease org id)
unfolding active_lease
active_lease-Reads org id w = elim (Option-cases (find (is_of_org w org id) w.occupancies)) [
  | inl e ↦ rw (After, e) tt
  | inr (o, e) ↦ elim (Bool-cases o.is_active) [
    | inr f ↦ rw (After, e, f) tt
    | inl f ↦ elim (Option-cases (find (is_lease_of org id) w.leases)) [
      | inl g ↦ rw (After, e, f, g) tt
      | inr (l, g) ↦ rw (After, e, f, g) (refl, tt)
    ]
  ]
]

pub target_lease-Reads : (org building : ℕ) (t : Target) → Reads Any (target_lease org building t)
unfolding target_lease
target_lease-Reads org building (Target.occupancy o) w =
    After-reader _ _ _ w _ (active_lease-Reads org o) (λ context _.
      elim (Bool-cases (context.0.building_id == building)) [
        | inl e ↦ rw e (refl, tt)
        | inr e ↦ rw e tt
      ])
target_lease-Reads org building (Target.unit u) w = elim (Bool-cases (has_unit building u w)) [
  | inl e ↦ rw e (refl, tt)
  | inr e ↦ rw e tt
]

pub lease_again-Reads : (org : ℕ) (t : Target) → Reads Any (lease_again org t)
unfolding lease_again
lease_again-Reads org (Target.occupancy o) w =
    After-reader _ _ _ w _ (active_lease-Reads org o) (λ _ _. (refl, tt))
lease_again-Reads org (Target.unit u) w = (refl, tt)

pub allocation_lease-Reads : (org : ℕ) (o : Option ℕ) → Reads Any (allocation_lease org o)
unfolding allocation_lease
allocation_lease-Reads org none w = (refl, tt)
allocation_lease-Reads org (some o) w =
    After-reader _ _ _ w _ (active_lease-Reads org o) (λ _ _. (refl, tt))

-- The rows of activities are nothing to most properties.
pub tell_lease-After :
    (P : ParkingWorld → Type 0)
    → (org : ℕ) (lease : Option LeaseRow) (action : ActivityAction) (user : Option AuthUser)
    → (count : ℕ) (w : ParkingWorld) → ((rows : List Activity) → P (record w { activities = rows }))
    → After (λ _ v. P v) (tell_lease org lease action user count w)
unfolding tell_lease create_activity
tell_lease-After P org none action user count w p = p w.activities
tell_lease-After P org (some l) action user count w p = p _
