-- ===== src/Request/Tests/Access.antt =====
-- What the users of the example reach.
use towerdesk_backend_clean.Prelude.{ℕ, ◌≡◌, refl, true, some, ◌==◌, filter, has, any}
use towerdesk_backend_clean.Directory.{PermissionKey}
use towerdesk_backend_clean.Access.{
  has_key, user_effective_permissions, accessible_unit_ids, is_granted_owner,
}
use towerdesk_backend_clean.Access.Permissions.{gives, verdict, effective_permission_verdict}
use towerdesk_backend_clean.Access.Scopes.{owns, accessible_unit-owned}
use towerdesk_backend_clean.Request.Examples.{tower}

-- Staff to whom comments are denied.
effective_permission_verdict_example :
    has_key (user_effective_permissions tower 6 (some 10) (some 1)) PermissionKey.requests_comment
    ≡ verdict
        (filter (λ o. o.user_id == 6) tower.user_permissions)
        PermissionKey.requests_comment
        (any (gives 6 (some 10) (some 1) PermissionKey.requests_comment) tower.assignments)
effective_permission_verdict_example =
    effective_permission_verdict tower 6 (some 10) (some 1) PermissionKey.requests_comment

unit-reached : has (accessible_unit_ids tower 4) 3 ≡ true
unfolding accessible_unit_ids
unit-reached = refl

accessible_unit-owned_example :
    (o : ℕ) × (is_granted_owner tower 4 o ≡ true) × (owns tower o 3 ≡ true)
accessible_unit-owned_example = accessible_unit-owned tower 4 3 unit-reached
