-- ===== src/Console/Member.antt =====
-- modules/authorization of src/libs/typescript/api: the subject headers, the middleware that reads them,
-- and the check of a permission.
pub mod Stripping
pub mod Roundtrip
use fissionplane.Prelude.{
  ℕ, Bool, true, false, String, Option, some, none, List, [], ◌∷◌, if◌then◌else◌,
}
use fissionplane.Core.Permissions.{role_name, has_organization_permission}
use fissionplane.Core.Members.{AuthenticatedMember, decode_member}
use fissionplane.Web.Headers.{WebHeaders, WebRequest, ◌>>=◌}

abbrev pub organization_id_header : String
organization_id_header = "x-fissionplane-auth-organization-id"

abbrev pub organization_role_header : String
organization_role_header = "x-fissionplane-auth-organization-role"

abbrev pub user_id_header : String
user_id_header = "x-fissionplane-auth-user-id"

-- Object.values(AUTHENTICATED_MEMBER_HEADERS).
abbrev pub authenticated_member_headers : List String
authenticated_member_headers =
    organization_id_header ∷ organization_role_header ∷ user_id_header ∷ []

-- The errors that the host and the handlers answer with.
pub data DomainError : Type 0 where
  unauthenticated unauthorized active_organization_required : DomainError
  forbidden : String → DomainError

-- HttpApiSchema.getStatusError.
unfoldable pub status_of : DomainError → ℕ
status_of unauthenticated = 401
status_of unauthorized = 403
status_of active_organization_required = 403
status_of (forbidden permission) = 403

module _ {H : Type 0} (web : WebHeaders H) where
  -- The loop of withoutAuthenticatedMember, with the flag `forged`.
  unfoldable pub strip : List String → H → Bool → H × Bool
  strip [] headers forged = (headers, forged)
  strip (header ∷ rest) headers forged =
      let dropped = strip rest (web.delete headers header) true in
      let kept = strip rest headers forged in if web.has headers header then dropped else kept

  abbrev pub replaced : WebRequest H → H × Bool → WebRequest H
  replaced request (headers, true) = record request { headers = headers }
  replaced request (headers, false) = request

  unfoldable pub without_authenticated_member : WebRequest H → WebRequest H
  unfolding strip
  without_authenticated_member request =
      replaced request (strip authenticated_member_headers request.headers false)

  -- `none` where a `set` throws.
  unfoldable pub with_authenticated_member :
      WebRequest H → AuthenticatedMember → Option (WebRequest H)
  with_authenticated_member request subject = do
    with_user ← web.set request.headers user_id_header subject.user_id
    with_organization ← web.set with_user organization_id_header subject.organization_id
    with_role ← web.set with_organization organization_role_header (role_name subject.role)
    some (record request { headers = with_role })

  -- OrganizationAuthenticationLive; `none` is its UnauthenticatedError.
  unfoldable pub authenticated_subject : WebRequest H → Option AuthenticatedMember
  authenticated_subject request =
      decode_member (web.get request.headers organization_id_header)
        (web.get request.headers organization_role_header) (web.get request.headers user_id_header)

-- OrganizationRbacService.requirePermission: the error, if it fails.
unfoldable pub require_permission : String → AuthenticatedMember → Option DomainError
require_permission permission subject =
    if has_organization_permission subject.role permission
    then none
    else some (forbidden permission)
