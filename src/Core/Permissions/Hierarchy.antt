-- ===== src/Core/Permissions/Hierarchy.antt =====
-- How the grants of the roles compare, for every permission text.
use fissionplane.Prelude.{
  ◌≡◌, refl, ◌↔◌, Bool, true, ◌&&◌, String, List, [], ◌∷◌, contains, eq_iff, arith,
}
use fissionplane.Core.Permissions.{
  owner, admin, developer, viewer, has_organization_permission, organization_permissions,
  OrganizationRole, permission_set_from_statements, role_statements,
}

abbrev subset : List String → List String → Bool
subset [] ys = true
subset (x ∷ xs) ys = contains x ys && subset xs ys

contains-subset :
    (p : String) (xs ys : List String)
    → subset xs ys ≡ true
    → contains p xs ≡ true
    → contains p ys ≡ true
contains-subset p [] ys h k = absurd (cc)
contains-subset p (x ∷ xs) ys h k = ground (arith, eq_iff x p, contains-subset p xs ys)

abbrev grants : OrganizationRole → List String
grants role = permission_set_from_statements (role_statements role)

-- For every text: the wire catalogue names it exactly when it is a grant of the owner; a grant of the
-- admin is one of the owner's, and a grant of the developer or of the viewer is one of the admin's.
pub has_organization_permission_monotone :
    (p : String)
    → ((has_organization_permission owner p ≡ true) ↔ (contains p organization_permissions ≡ true))
      × (has_organization_permission admin p ≡ true → has_organization_permission owner p ≡ true)
      × (has_organization_permission developer p ≡ true
          → has_organization_permission admin p ≡ true)
      × (has_organization_permission viewer p ≡ true → has_organization_permission admin p ≡ true)
unfolding has_organization_permission
has_organization_permission_monotone p = (
  (
    contains-subset p (grants owner) organization_permissions refl,
    contains-subset p organization_permissions (grants owner) refl,
  ),
  contains-subset p (grants admin) (grants owner) refl,
  contains-subset p (grants developer) (grants admin) refl,
  contains-subset p (grants viewer) (grants admin) refl,
)
