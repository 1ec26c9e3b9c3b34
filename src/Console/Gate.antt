-- ===== src/Console/Gate.antt =====
-- src/apps/console-api/src/server.ts, resolveAuthenticatedMember, and the dispatch of createNodeServer
-- in src/libs/typescript/api/src/http/node-server.ts.
pub mod Trust
use fissionplane.Prelude.{Bool, String, Option, some, none, if◌then◌else◌}
use fissionplane.Core.Members.{AuthenticatedMember, decode_member}
use fissionplane.Web.Headers.{WebHeaders, WebRequest}
use fissionplane.Console.Member.{
  DomainError, unauthenticated, unauthorized, active_organization_required,
  without_authenticated_member, with_authenticated_member,
}

-- How a promise of a service settles.
pub data Reply (A : Type 0) : Type 0 where
  answered : A → Reply A
  rejected : Reply A

-- What the host reads of a session; an active organization that is null or undefined is `none`.
pub record Session : Type 0 where
  pub active_organization_id : Option String
  pub user_id : String

-- Better Auth (`get_session`, `get_active_member_role` with its `organizationId`), and the matcher
-- that createGuardedRouteMatcher derives from the contract.
pub record AuthHost (H : Type 0) : Type 0 where
  pub get_session : H → Reply (Option Session)
  pub get_active_member_role : H → String → Reply String
  pub requires_authenticated_member : WebRequest H → Bool

-- A request to hand on, a response, or a rejection, which the server answers with status 500.
pub data Authorization (H : Type 0) : Type 0 where
  passed : WebRequest H → Authorization H
  refused : DomainError → Authorization H
  failed : Authorization H

-- `member?.role`, after `.catch(() => null)`.
unfoldable pub member_role : Reply String → Option String
member_role (answered role) = some role
member_role rejected = none

module _ {H : Type 0} (web : WebHeaders H) (host : AuthHost H) where
  unfoldable pub handed_on : Option (WebRequest H) → Authorization H
  handed_on (some request) = passed request
  handed_on none = failed

  unfoldable pub with_subject : WebRequest H → Option AuthenticatedMember → Authorization H
  unfolding handed_on
  with_subject request (some subject) = handed_on (with_authenticated_member web request subject)
  with_subject request none = refused unauthorized

  unfoldable pub with_organization : WebRequest H → Session → Option String → Authorization H
  unfolding with_subject member_role
  with_organization request session none = refused active_organization_required
  with_organization request session (some organization_id) = with_subject request (
      decode_member (some organization_id)
        (member_role (host.get_active_member_role request.headers organization_id))
        (some session.user_id))

  unfoldable pub with_session : WebRequest H → Reply (Option Session) → Authorization H
  unfolding with_organization
  with_session request rejected = failed
  with_session request (answered none) = refused unauthenticated
  with_session request (answered (some session)) =
      with_organization request session session.active_organization_id

  unfoldable pub resolve_authenticated_member : WebRequest H → Authorization H
  unfolding with_session
  resolve_authenticated_member incoming =
      let request = without_authenticated_member web incoming in
      let guarded = with_session request (host.get_session request.headers) in
      if host.requires_authenticated_member request then guarded else passed request

-- What the server writes back: a response of the API or of the auth handler, the error of a gate, or
-- a bare status 500.
pub data Served (R : Type 0) : Type 0 where
  response : R → Served R
  rejection : DomainError → Served R
  internal_error : Served R

unfoldable pub serve_api : {H R : Type 0} → (WebRequest H → Reply R) → Authorization H → Served R
serve_api api (passed request) = elim (api request) [
  | answered r ↦ response r
  | rejected ↦ internal_error
]
serve_api api (refused error) = rejection error
serve_api api failed = internal_error

-- `handle` of createNodeServer, with an `authorizeApi`; `is_auth_request` tells whether the path starts
-- with `authPath`.
unfoldable pub handle :
    {H R : Type 0}
    → (is_auth_request : WebRequest H → Bool) → (auth api : WebRequest H → Reply R)
    → (authorize_api : WebRequest H → Authorization H) → WebRequest H
    → Served R
unfolding serve_api
handle is_auth_request auth api authorize_api request =
    let authorization = serve_api api (authorize_api request) in
    if is_auth_request request
    then elim (auth request) [ answered r ↦ response r | rejected ↦ internal_error ]
    else authorization
