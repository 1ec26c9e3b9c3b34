-- ===== src/Console/Sandboxes/Access.antt =====
-- Listing sandboxes behind the host: who is shown what.
use fissionplane.Prelude.{
  ◌≡◌, refl, inl, inr, Bool, true, false, String, Option, some, none, List, Bool-cases, ap, sym,
  ◌∙◌,
}
use fissionplane.Core.Permissions.{has_organization_permission, role_name, decode_role}
use fissionplane.Core.Members.{AuthenticatedMember}
use fissionplane.Core.Members.Decoding.{decode_member-fields, decode_role-role_name}
use mathlib.Core.Option.{some-injective}
use fissionplane.Web.Headers.{WebHeaders, IsWebHeaders, WebRequest}
use fissionplane.Console.Member.{authenticated_subject, require_permission}
use fissionplane.Console.Gate.{
  AuthHost, Authorization, passed, refused, failed, resolve_authenticated_member, response,
  serve_api, handle, Reply,
}
use fissionplane.Console.Gate.Trust.{
  IsResolved, Carried, open_route, guarded_route, resolve_authenticated_member-Carried,
}
use fissionplane.Console.Sandboxes.{
  Listing, listed, after_check, execute, on_subject, list_sandboxes,
}

module _ {A : Type 0} (repository : String → List A) where
  on_subject-listed :
      (subject : Option AuthenticatedMember) (xs : List A)
      → on_subject repository subject ≡ listed xs
      → (member : AuthenticatedMember) × (subject ≡ some member)
        × (has_organization_permission member.role "sandbox:read" ≡ true)
        × (repository member.organization_id ≡ xs)
  unfolding on_subject execute after_check require_permission
  on_subject-listed none xs e = absurd (cc)
  on_subject-listed (some member) xs e =
      elim (Bool-cases (has_organization_permission member.role "sandbox:read")) [
        | inr lacks ↦ absurd (cc (rw lacks at e))
        | inl grants ↦
            let same : listed (repository member.organization_id) ≡ listed xs = rw grants at e in
            (member, refl, grants, cc)
      ]

  module _ {H : Type 0} (web : WebHeaders H) (laws : IsWebHeaders web) (host : AuthHost H) where
    abbrev api : WebRequest H → Reply (Listing A)
    api = list_sandboxes repository web

    -- Whom an answer of the endpoint was made for.
    pub record IsShown (incoming : WebRequest H) (xs : List A) : Type 0 where
      pub member : AuthenticatedMember
      pub resolved : IsResolved web host incoming member
      pub may_read : has_organization_permission member.role "sandbox:read" ≡ true
      pub shown : xs ≡ repository (web.normal member.organization_id)

    serve_api-passed :
        (authorization : Authorization H) (xs : List A)
        → serve_api api authorization ≡ response (listed xs)
        → (request : WebRequest H) × (authorization ≡ passed request)
          × (on_subject repository (authenticated_subject web request) ≡ listed xs)
    unfolding serve_api list_sandboxes
    serve_api-passed (passed request) xs e = (request, refl, cc)
    serve_api-passed (refused error) xs e = absurd (cc)
    serve_api-passed failed xs e = absurd (cc)

    Carried-IsShown :
        (incoming request : WebRequest H) (xs : List A)
        → Carried web host incoming request
        → on_subject repository (authenticated_subject web request) ≡ listed xs
        → IsShown incoming xs
    Carried-IsShown incoming request xs (open_route open_ absent) e =
        let (member, found, may, shown) =
          on_subject-listed (authenticated_subject web request) xs e in
        absurd (cc (absent, found))
    Carried-IsShown incoming request xs (guarded_route guarded member resolved read) e =
        let (seen, found, may, shown) =
          on_subject-listed (authenticated_subject web request) xs e in
        let fields = decode_member-fields _ _ _ (sym read ∙ found) in
        let named : role_name member.role ≡ fields.name = some-injective _ _ fields.given in
        let same : seen.role ≡ member.role =
          some-injective _ _
            (sym fields.role ∙ (ap decode_role (sym named) ∙ decode_role-role_name member.role)) in
        record {
          member = member;
          resolved = resolved;
          may_read = ap (λ r. has_organization_permission r "sandbox:read") (sym same) ∙ may;
          shown = sym shown ∙ ap repository fields.organization;
        }

    -- A caller is shown sandboxes only if the route does not belong to the auth handler, Better Auth
    -- knows its session, the session's active organization has it as a member whose role may read
    -- sandboxes, and then it is shown those of that organization: its own subject headers change
    -- nothing.
    pub handle-IsShown :
        (is_auth_request : WebRequest H → Bool) (auth : WebRequest H → Reply (Listing A))
        (incoming : WebRequest H) (xs : List A)
        → is_auth_request incoming ≡ false
        → handle is_auth_request auth api (resolve_authenticated_member web host) incoming
          ≡ response (listed xs)
        → IsShown incoming xs
    unfolding handle
    handle-IsShown is_auth_request auth incoming xs routed e =
        let (request, let_through, answer) =
          serve_api-passed (resolve_authenticated_member web host incoming) xs (rw routed at e) in
        Carried-IsShown incoming request xs
          (resolve_authenticated_member-Carried web host laws incoming request let_through) answer
