-- ===== src/Request/Operations/Finding.antt =====
-- The checks leave the world alone, and the rows that the finders return are listed.
use towerdesk_backend_clean.Prelude.{
  ℕ, ◌≡◌, Bool, true, ◌&&◌, Option, some, List, [], ◌∷◌, arith, ◌==◌, find, Bool-cases, inl, inr,
}
use mathlib.Core.List.{Memᴰ}
use towerdesk_backend_clean.Access.{provider_access_context}
use towerdesk_backend_clean.Request.Types.{Request}
use towerdesk_backend_clean.Result.{Reason}
use towerdesk_backend_clean.Request.World.{
  is_one_of, find_by_id_for_building, find_by_id_for_creator, find_by_id_for_providers,
  find_by_id_for_units,
}
use towerdesk_backend_clean.Request.Callers.{
  AuthUser, org_of, sub_of, building_caller, manager, provider_caller, resident_caller,
}
use towerdesk_backend_clean.Request.Effects.{Checks}

pub find-listed {ℓ} :
    {A : Type ℓ} (p : A → Bool) (xs : List A) {x : A}
    → find p xs ≡ some x
    → Memᴰ x xs × (p x ≡ true)
find-listed p [] h = absurd (cc)
find-listed p (y ∷ ys) {x = x} h = elim (Bool-cases (p y)) [
  | inl e ↦ let same : y ≡ x = cc (rw (e, find) at h) in (Memᴰ.head (cc same), rw (← same) e)
  | inr e ↦ let (m, f) = find-listed p ys (rw e at h) in (Memᴰ.tail m, f)
]

pub find_by_id_for_building-InOrg :
    (org building id : ℕ) (rs : List Request) {r : Request}
    → find_by_id_for_building org building id rs ≡ some r
    → Memᴰ r rs × (r.org_id ≡ org)
unfolding find_by_id_for_building
find_by_id_for_building-InOrg org building id rs h =
    let (m, e) =
      find-listed (λ x. (x.id == id) && (x.org_id == org) && (x.building_id == building)) rs h in
    (m, ground arith)

pub find_by_id_for_creator-InOrg :
    (org user id : ℕ) (rs : List Request) {r : Request}
    → find_by_id_for_creator org user id rs ≡ some r
    → Memᴰ r rs × (r.org_id ≡ org)
unfolding find_by_id_for_creator
find_by_id_for_creator-InOrg org user id rs h =
    let (m, e) =
      find-listed (λ x. (x.id == id) && (x.org_id == org) && (x.created_by_user_id == user)) rs h in
    (m, ground arith)

pub find_by_id_for_providers-listed :
    (providers : List ℕ) (id : ℕ) (rs : List Request) {r : Request}
    → find_by_id_for_providers providers id rs ≡ some r
    → Memᴰ r rs × (is_one_of r.assignment.service_provider_id providers ≡ true)
unfolding find_by_id_for_providers
find_by_id_for_providers-listed providers id rs h =
    let (m, e) =
      find-listed (λ x. (x.id == id) && is_one_of x.assignment.service_provider_id providers) rs
        h in
    (m, ground arith)

pub find_by_id_for_units-listed :
    (units : List ℕ) (id : ℕ) (rs : List Request) {r : Request}
    → find_by_id_for_units units id rs ≡ some r
    → Memᴰ r rs × (is_one_of r.unit_id units ≡ true)
unfolding find_by_id_for_units
find_by_id_for_units-listed units id rs h =
    let (m, e) = find-listed (λ x. (x.id == id) && is_one_of x.unit_id units) rs h in
    (m, ground arith)

-- A caller in a building acts for the organisation of its token.
pub building_caller-Checks :
    (user : Option AuthUser) (building : ℕ)
    → Checks (building_caller user building) (λ w c. org_of user ≡ some c.org_id)
unfolding building_caller
building_caller-Checks user building = record { at = λ w c w' h. (ground arith, ground arith) }

pub manager-Checks :
    (reason : Reason) (user : Option AuthUser) (building : ℕ)
    → Checks (manager reason user building) (λ w c. org_of user ≡ some c.org_id)
unfolding manager
manager-Checks reason user building = record { at = λ w c w' h. (ground arith, ground arith) }

pub resident_caller-Checks :
    (user : Option AuthUser) → Checks (resident_caller user) (λ w c. org_of user ≡ some c.org_id)
unfolding resident_caller
resident_caller-Checks user = record { at = λ w c w' h. (ground arith, ground arith) }

-- A member of a provider acts with the access that the user of its token has.
pub provider_caller-Checks :
    (user : Option AuthUser)
    → Checks (provider_caller user) (λ w c.
      (sub_of user ≡ some c.user_id) × (provider_access_context w.dir c.user_id ≡ some c.access))
unfolding provider_caller
provider_caller-Checks user = record { at = λ w c w' h. (ground arith, ground arith) }
