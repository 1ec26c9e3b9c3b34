-- ===== src/Core/Permissions.antt =====
-- src/libs/typescript/core/src/organizations/permissions.ts and types.ts: the roles of an organization,
-- the grants of each, and the check that reads them.
pub mod Hierarchy
use Prim.Native.String.{◌++◌ as join}
use fissionplane.Prelude.{
  Bool, String, Option, none, some, List, [], ◌∷◌, ◌++◌, map, ◌==◌, contains, if◌then◌else◌,
}

pub data OrganizationRole : Type 0 where
  owner admin developer viewer : OrganizationRole

-- The literals of OrganizationRoleSchema.
unfoldable pub role_name : OrganizationRole → String
role_name owner = "owner"
role_name admin = "admin"
role_name developer = "developer"
role_name viewer = "viewer"

unfoldable pub decode_role : String → Option OrganizationRole
decode_role s =
    if s == "owner"
    then some owner
    else if s == "admin"
    then some admin
    else if s == "developer"
    then some developer
    else if s == "viewer"
    then some viewer
    else none

-- OrganizationPermissionSchema.
abbrev pub organization_permissions : List String
organization_permissions =
    "organization:update" ∷ "organization:delete" ∷ "member:create" ∷ "member:update"
    ∷ "member:delete" ∷ "invitation:create" ∷ "invitation:cancel" ∷ "sandbox:create"
    ∷ "sandbox:read" ∷ "sandbox:pause" ∷ "sandbox:resume" ∷ "sandbox:terminate" ∷ "template:create"
    ∷ "template:read" ∷ "template:delete" ∷ "apiKey:create" ∷ "apiKey:read" ∷ "apiKey:revoke"
    ∷ "billing:read" ∷ "billing:manage" ∷ []

abbrev pub RoleGrants : Type 0
RoleGrants = List (String × List String)

abbrev pub statements : RoleGrants
statements =
    ("organization", "update" ∷ "delete" ∷ [])
    ∷ ("member", "create" ∷ "update" ∷ "delete" ∷ [])
    ∷ ("invitation", "create" ∷ "cancel" ∷ [])
    ∷ ("sandbox", "create" ∷ "read" ∷ "pause" ∷ "resume" ∷ "terminate" ∷ [])
    ∷ ("template", "create" ∷ "read" ∷ "delete" ∷ [])
    ∷ ("apiKey", "create" ∷ "read" ∷ "revoke" ∷ [])
    ∷ ("billing", "read" ∷ "manage" ∷ [])
    ∷ []

unfoldable pub role_statements : OrganizationRole → RoleGrants
role_statements owner = statements
role_statements admin =
    ("organization", "update" ∷ [])
    ∷ ("member", "create" ∷ "update" ∷ "delete" ∷ [])
    ∷ ("invitation", "create" ∷ "cancel" ∷ [])
    ∷ ("sandbox", "create" ∷ "read" ∷ "pause" ∷ "resume" ∷ "terminate" ∷ [])
    ∷ ("template", "create" ∷ "read" ∷ "delete" ∷ [])
    ∷ ("apiKey", "create" ∷ "read" ∷ "revoke" ∷ [])
    ∷ ("billing", "read" ∷ [])
    ∷ []
role_statements developer =
    ("organization", [])
    ∷ ("member", [])
    ∷ ("invitation", [])
    ∷ ("sandbox", "create" ∷ "read" ∷ "pause" ∷ "resume" ∷ "terminate" ∷ [])
    ∷ ("template", "create" ∷ "read" ∷ [])
    ∷ ("apiKey", "create" ∷ "read" ∷ "revoke" ∷ [])
    ∷ ("billing", [])
    ∷ []
role_statements viewer =
    ("organization", [])
    ∷ ("member", [])
    ∷ ("invitation", [])
    ∷ ("sandbox", "read" ∷ [])
    ∷ ("template", "read" ∷ [])
    ∷ ("apiKey", [])
    ∷ ("billing", "read" ∷ [])
    ∷ []

unfoldable pub permission_set_from_statements : RoleGrants → List String
permission_set_from_statements [] = []
permission_set_from_statements ((resource, actions) ∷ grants) =
    map (λ action. join resource (join ":" action)) actions ++ permission_set_from_statements grants

unfoldable pub has_organization_permission : OrganizationRole → String → Bool
unfolding role_statements permission_set_from_statements
has_organization_permission role permission =
    contains permission (permission_set_from_statements (role_statements role))
