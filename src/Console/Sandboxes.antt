-- ===== src/Console/Sandboxes.antt =====
-- modules/sandboxes of src/libs/typescript/api: the use case that lists sandboxes and its handler.
-- The repository is a parameter, a function of the organization.
pub mod Access
use fissionplane.Prelude.{String, Option, some, none, List}
use fissionplane.Core.Members.{AuthenticatedMember}
use fissionplane.Web.Headers.{WebHeaders, WebRequest}
use fissionplane.Console.Member.{
  DomainError, unauthenticated, authenticated_subject, require_permission,
}
use fissionplane.Console.Gate.{Reply, answered}

-- The answer of the endpoint, over the summaries `A`.
pub data Listing (A : Type 0) : Type 0 where
  listed : List A → Listing A
  denied : DomainError → Listing A

module _ {A : Type 0} (repository : String → List A) where
  unfoldable pub after_check : AuthenticatedMember → Option DomainError → Listing A
  after_check subject (some error) = denied error
  after_check subject none = listed (repository subject.organization_id)

  -- ListSandboxesUseCase.execute.
  unfoldable pub execute : AuthenticatedMember → Listing A
  unfolding after_check
  execute subject = after_check subject (require_permission "sandbox:read" subject)

  unfoldable pub on_subject : Option AuthenticatedMember → Listing A
  unfolding execute
  on_subject none = denied unauthenticated
  on_subject (some subject) = execute subject

  -- The endpoint `list` behind the OrganizationAuthentication middleware.
  unfoldable pub list_sandboxes : {H : Type 0} → WebHeaders H → WebRequest H → Reply (Listing A)
  unfolding on_subject
  list_sandboxes web request = answered (on_subject (authenticated_subject web request))
