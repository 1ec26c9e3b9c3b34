-- ===== src/Console/Routes/Host.antt =====
-- The gate of src/apps/console-api/src/server.ts over the contract of
-- src/libs/typescript/core/src/backend-api: `requiresAuthenticatedMember` is the contract's matcher.
use fissionplane.Prelude.{ℕ, ◌≡◌, sym, ap, ◌∙◌, String, Option, some, none, List, [], ◌∷◌}
use mathlib.Core.Bool.{false≢true}
use fissionplane.Core.Permissions.{role_name}
use fissionplane.Core.Members.{AuthenticatedMember, decode_member}
use fissionplane.Web.Headers.{WebHeaders, IsWebHeaders, WebRequest}
use fissionplane.Console.Member.{without_authenticated_member, authenticated_subject}
use fissionplane.Console.Member.Stripping.{without_target}
use fissionplane.Console.Gate.{AuthHost, Reply, Session, passed, resolve_authenticated_member}
use fissionplane.Console.Gate.Trust.{
  IsResolved, open_route, guarded_route, resolve_authenticated_member-Carried,
}
use fissionplane.Console.Routes.{Endpoint, create_guarded_route_matcher}
use fissionplane.Console.Routes.Guarding.{Guarded, create_guarded_route_matcher_iff}

abbrev pub organization_authentication : String
organization_authentication = "@fissionplane/core/OrganizationAuthentication"

-- The endpoints that HttpApi.reflect shows of ConsoleApi, its prefix put in front.
abbrev pub console_api : List Endpoint
console_api =
    record { method = "GET"; path = "/api/health"; middleware = [] }
    ∷ record {
      method = "GET";
      path = "/api/sandboxes";
      middleware = organization_authentication ∷ [];
    }
    ∷ []

module _ {H : Type 0} (web : WebHeaders H) (pathname_of : String → List ℕ)
    (get_session : H → Reply (Option Session))
    (get_active_member_role : H → String → Reply String) where
  abbrev pub console_host : AuthHost H
  console_host = record {
    get_session = get_session;
    get_active_member_role = get_active_member_role;
    requires_authenticated_member =
        create_guarded_route_matcher pathname_of console_api organization_authentication;
  }

  -- What is known of a request that passed, by the endpoint of the contract it is for.
  pub data Admitted (incoming request : WebRequest H) : Type 0 where
    to_guarded :
        Guarded organization_authentication incoming.method (pathname_of incoming.url) console_api
        → (member : AuthenticatedMember) → IsResolved web console_host incoming member
        → authenticated_subject web request
          ≡ decode_member
              (some (web.normal member.organization_id))
              (some (role_name member.role))
              (some (web.normal member.user_id))
        → Admitted incoming request
    to_open :
        ¬ Guarded organization_authentication incoming.method (pathname_of incoming.url) console_api
        → authenticated_subject web request ≡ none
        → Admitted incoming request

  same_endpoint :
      {method method' : String} {pathname pathname' : List ℕ}
      → method ≡ method'
      → pathname ≡ pathname'
      → Guarded organization_authentication method pathname console_api
      → Guarded organization_authentication method' pathname' console_api
  same_endpoint m p guarded = rw (← m, ← p) guarded

  -- Under the laws of the headers, a request that passes the gate of the console API is for a guarded
  -- endpoint and carries the member that its session resolves to, or it is for no guarded endpoint and
  -- carries no subject.
  pub resolve_authenticated_member-Admitted :
      (laws : IsWebHeaders web) (incoming request : WebRequest H)
      → resolve_authenticated_member web console_host incoming ≡ passed request
      → Admitted incoming request
  resolve_authenticated_member-Admitted laws incoming request e =
      let (same_method, same_url) = without_target web laws incoming in
      let iff =
        create_guarded_route_matcher_iff pathname_of console_api organization_authentication
          (without_authenticated_member web incoming) in
      let here = same_endpoint (sym same_method) (sym (ap pathname_of same_url)) in
      let stripped = same_endpoint same_method (ap pathname_of same_url) in
      elim (resolve_authenticated_member-Carried web console_host laws incoming request e) [
        | open_route is_open subject ↦
            to_open (λ guarded. false≢true (sym is_open ∙ iff.1 (here guarded))) subject
        | guarded_route is_guarded member resolved subject ↦
            to_guarded (stripped (iff.0 is_guarded)) member resolved subject
      ]
