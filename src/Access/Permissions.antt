-- ===== src/Access/Permissions.antt =====
-- What the overrides of a user do to the permissions of the user's roles.
use towerdesk_backend_clean.Prelude.{
  ℕ, ◌≡◌, refl, ap, ◌∙◌, ◌&&◌, ◌++◌, none, some, is_id, any, Bool, true, false, not, ◌||◌, Option,
  List, [], ◌∷◌, arith, ◌==◌, if◌then◌else◌, filter, Bool-cases, inl, inr,
}
use towerdesk_backend_clean.Directory.{
  Directory, AccessAssignment, RoleTemplate, RoleKey, ScopeType, PermissionKey, PermissionEffect,
  UserPermission, key_eq,
}
use towerdesk_backend_clean.Access.{
  is_building_scope, is_org_scope, same_id, is_null, is_visible, in_scope, has_key, apply_effect,
  apply_overrides, role_permission_keys, user_scoped_assignments, user_effective_permissions,
}

abbrev pub is_allow : PermissionEffect → Bool
is_allow PermissionEffect.allow = true
is_allow PermissionEffect.deny = false

-- The last override of a key decides; with none, what the roles give stands.
abbrev pub verdict : List UserPermission → PermissionKey → Bool → Bool
verdict [] k given = given
verdict (o ∷ os) k given = verdict os k (if key_eq o.key k then is_allow o.effect else given)

key_eq_refl : (k : PermissionKey) → key_eq k k ≡ true
key_eq_refl PermissionKey.requests_assign = refl
key_eq_refl (PermissionKey.other n) = ground arith
key_eq_refl _ = refl

key_eq_sound : (j k : PermissionKey) → key_eq j k ≡ true → j ≡ k
key_eq_sound j k h = ground arith

drop_again : (a b : Bool) → (if a then false else b) ≡ (if a then false else a || b)
drop_again true b = refl
drop_again false b = refl

-- Deleting a key takes away that key and no other.
has_key-delete :
    (j k : PermissionKey) (keys : List PermissionKey)
    → has_key (filter (λ x. not (key_eq x j)) keys) k
      ≡ (if key_eq j k then false else has_key keys k)
has_key-delete j k [] = ground arith
has_key-delete j k (x ∷ xs) = elim (Bool-cases (key_eq x j)) [
  | inl e ↦
      rw (e, has_key-delete j k xs, key_eq_sound x j e) (drop_again (key_eq j k) (has_key xs k))
  | inr e ↦ elim (Bool-cases (key_eq j k)) [
    | inl f ↦ rw (e, ← key_eq_sound j k f, e, has_key-delete j j xs, key_eq_refl j)
    | inr f ↦ rw (e, has_key-delete j k xs, f)
  ]
]

has_key-apply_effect :
    (e : PermissionEffect) (j k : PermissionKey) (keys : List PermissionKey)
    → has_key (apply_effect e j keys) k ≡ (if key_eq j k then is_allow e else has_key keys k)
has_key-apply_effect PermissionEffect.allow j k keys = ground arith
has_key-apply_effect PermissionEffect.deny j k keys = has_key-delete j k keys

has_key-apply_overrides :
    (os : List UserPermission) (keys : List PermissionKey) (k : PermissionKey)
    → has_key (apply_overrides os keys) k ≡ verdict os k (has_key keys k)
unfolding apply_overrides
has_key-apply_overrides [] keys k = refl
has_key-apply_overrides (o ∷ os) keys k = rw (has_key-apply_overrides os, has_key-apply_effect) refl

-- The role is hidden: that of the platform's superadmin, and a role of the system that is not one of
-- the five that an organisation shows.
abbrev pub is_hidden : RoleTemplate → Bool
is_hidden t = elim t.key [
  | RoleKey.platform_superadmin ↦ true
  | RoleKey.custom n ↦ t.is_system
  | _ ↦ false
]

-- The assignment and its role are for an organisation as a whole.
abbrev pub is_wide : AccessAssignment → Bool
is_wide a = elim a.scope_type [
  | ScopeType.building ↦ false
  | ScopeType.org ↦ is_null a.scope_id && is_org_scope a.role_template.scope_type
]

-- The assignment and its role are for the building.
abbrev pub is_local : ℕ → AccessAssignment → Bool
is_local b a = elim a.scope_type [
  | ScopeType.org ↦ false
  | ScopeType.building ↦ is_id a.scope_id b && is_building_scope a.role_template.scope_type
]

-- The assignment counts for the question.
abbrev pub counts : Option ℕ → Option ℕ → AccessAssignment → Bool
counts org none a = is_wide a
counts org (some b) a = same_id a.role_template.org_id org && (is_wide a || is_local b a)

-- The assignment gives the key to the user.
abbrev pub gives : ℕ → Option ℕ → Option ℕ → PermissionKey → AccessAssignment → Bool
gives user org building k a =
    (a.user_id == user)
    && counts org building a
    && not (is_hidden a.role_template)
    && has_key a.role_template.permissions k

has_key-append :
    (xs ys : List PermissionKey) (k : PermissionKey)
    → has_key (xs ++ ys) k ≡ (has_key xs k || has_key ys k)
has_key-append [] ys k = refl
has_key-append (x ∷ xs) ys k = ground (arith, has_key-append xs ys k)

in_scope-counts :
    (org building : Option ℕ) (a : AccessAssignment)
    → in_scope org building a ≡ counts org building a
unfolding in_scope
in_scope-counts org none a = ground arith
in_scope-counts org (some b) a = ground arith

is_visible-is_hidden :
    (a : AccessAssignment)
    → is_visible a.role_template.key a.role_template.is_system ≡ not (is_hidden a.role_template)
unfolding is_visible
is_visible-is_hidden a = ground arith

has_key-scoped :
    (user : ℕ) (org building : Option ℕ) (k : PermissionKey) (xs : List AccessAssignment)
    → has_key
        (role_permission_keys (
          filter
            (λ a. is_visible a.role_template.key a.role_template.is_system)
            (filter (λ a. (a.user_id == user) && in_scope org building a) xs)))
        k
      ≡ any (gives user org building k) xs
unfolding role_permission_keys
has_key-scoped user org building k [] = refl
has_key-scoped user org building k (a ∷ xs) = elim (Bool-cases (a.user_id == user)) [
  | inr e ↦ rw (e, has_key-scoped user org building k xs)
  | inl e ↦ elim (Bool-cases (counts org building a)) [
    | inr c ↦ rw (e, in_scope-counts org building a, c, has_key-scoped user org building k xs)
    | inl c ↦ elim (Bool-cases (is_hidden a.role_template)) [
      | inl v ↦ rw (
        e,
        in_scope-counts org building a,
        c,
        is_visible-is_hidden a,
        v,
        has_key-scoped user org building k xs,
      )
      | inr v ↦ rw (
        e,
        in_scope-counts org building a,
        c,
        is_visible-is_hidden a,
        v,
        has_key-append a.role_template.permissions,
        has_key-scoped user org building k xs,
      )
    ]
  ]
]

-- A user has a permission exactly when the user's last override of that key allows it, or there is no
-- override of it and an assignment of the user gives it: one whose role is not hidden and has the key,
-- and which is for an organisation as a whole, or, where a building is asked for, for that building,
-- its role then being one of the organisation that is asked for. Where no building is asked for, an
-- assignment in any organisation counts.
pub effective_permission_verdict :
    (dir : Directory) (user : ℕ) (org building : Option ℕ) (k : PermissionKey)
    → has_key (user_effective_permissions dir user org building) k
      ≡ verdict
          (filter (λ o. o.user_id == user) dir.user_permissions)
          k
          (any (gives user org building k) dir.assignments)
unfolding user_effective_permissions user_scoped_assignments
effective_permission_verdict dir user org building k =
    has_key-apply_overrides (filter (λ o. o.user_id == user) dir.user_permissions)
      (role_permission_keys (user_scoped_assignments dir user org building)) k
    ∙ ap (verdict (filter (λ o. o.user_id == user) dir.user_permissions) k)
        (has_key-scoped user org building k dir.assignments)
