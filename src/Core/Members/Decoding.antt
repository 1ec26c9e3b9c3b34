-- ===== src/Core/Members/Decoding.antt =====
-- AuthenticatedMemberSchema: what a decoded member holds.
use fissionplane.Prelude.{◌≡◌, refl, true, String, Option, some, none, arith}
use fissionplane.Core.Permissions.{OrganizationRole, role_name, decode_role}
use fissionplane.Core.Permissions
use fissionplane.Core.Members.{
  AuthenticatedMember, decode_member, member_of, has_length, auth_organization_id_max_length,
  user_id_max_length,
}

-- The fields of a decoded member: the two ids as they came, within the bounds, and the role named.
pub record IsDecoded (organization_id user_id : String) (given_role : Option String)
    (member : AuthenticatedMember) : Type 0 where
  pub organization : member.organization_id ≡ organization_id
  pub user : member.user_id ≡ user_id
  pub name : String
  pub given : given_role ≡ some name
  pub role : decode_role name ≡ some member.role
  pub organization_fits : has_length 1 auth_organization_id_max_length organization_id ≡ true
  pub user_fits : has_length 1 user_id_max_length user_id ≡ true

member_of-cases :
    (organization_id user_id : String) (r : Option OrganizationRole) {member : AuthenticatedMember}
    → member_of organization_id r user_id ≡ some member
    → (member.organization_id ≡ organization_id)
      × (member.user_id ≡ user_id)
      × (r ≡ some member.role)
      × (has_length 1 auth_organization_id_max_length organization_id ≡ true)
      × (has_length 1 user_id_max_length user_id ≡ true)
unfolding member_of
member_of-cases o u none e = absurd (cc)
member_of-cases o u (some role) e = ground (arith)

pub decode_member-fields :
    (organization_id user_id : String) (role : Option String) {member : AuthenticatedMember}
    → decode_member (some organization_id) role (some user_id) ≡ some member
    → IsDecoded organization_id user_id role member
unfolding decode_member
decode_member-fields o u none e = absurd (cc)
decode_member-fields o u (some name) e =
    let (organization, user, role, fits, fits') = member_of-cases o u (decode_role name) e in
    record {
      organization = organization;
      user = user;
      name = name;
      given = refl;
      role = role;
      organization_fits = fits;
      user_fits = fits';
    }

-- The four role names decode to their roles.
pub decode_role-role_name : (role : OrganizationRole) → decode_role (role_name role) ≡ some role
unfolding decode_role role_name
decode_role-role_name Permissions.owner = refl
decode_role-role_name Permissions.admin = refl
decode_role-role_name Permissions.developer = refl
decode_role-role_name Permissions.viewer = refl
