-- ===== src/Console/Routes/Tests.antt =====
-- A contract with a guarded and an open endpoint.
use fissionplane.Prelude.{
  ◌≡◌, refl, ◌↔◌, true, false, String, Option, some, none, List, [], ◌∷◌, codes, lookup, is_some,
  if◌then◌else◌,
}
use fissionplane.Core.Permissions.{decode_role, role_name}
use fissionplane.Core.Members.{decode_member, member_of, has_length, utf16_length}
use fissionplane.Web.Headers.{WebRequest}
use fissionplane.Web.Entries.{Entries, entries, entries_IsWebHeaders}
use fissionplane.Console.Member.{
  organization_id_header, organization_role_header, user_id_header, with_authenticated_member,
  without_authenticated_member, strip,
}
use fissionplane.Console.Gate.{
  Reply, Session, answered, passed, resolve_authenticated_member, with_session, with_organization,
  with_subject, member_role, handed_on,
}
use fissionplane.Web.RegExp.{test, is_metacharacter}
use fissionplane.Console.Routes.{
  Endpoint, create_guarded_route_matcher, guarded_routes, guards, routes_of, to_path_pattern,
  segment_lexemes, escape_segment, escape_character,
}
use fissionplane.Console.Routes.Host.{console_host, Admitted, resolve_authenticated_member-Admitted}
use fissionplane.Console.Routes.Guarding.{Guarded, create_guarded_route_matcher_iff}

abbrev api : List Endpoint
api =
    record { method = "GET"; path = "/api/health"; middleware = [] }
    ∷ record { method = "GET"; path = "/api/sandboxes/:id"; middleware = "auth" ∷ [] }
    ∷ []

abbrev request : WebRequest Entries
request = record { method = "GET"; url = "/api/sandboxes/s1/"; headers = [] }

guarded : create_guarded_route_matcher codes api "auth" request ≡ true
unfolding create_guarded_route_matcher guarded_routes guards routes_of to_path_pattern
    segment_lexemes escape_segment escape_character test is_metacharacter
guarded = refl

other_depth :
    create_guarded_route_matcher codes api "auth"
      (record { method = "GET"; url = "/api/sandboxes/s1/files"; headers = request.headers })
    ≡ false
unfolding create_guarded_route_matcher guarded_routes guards routes_of to_path_pattern
    segment_lexemes escape_segment escape_character test is_metacharacter
other_depth = refl

create_guarded_route_matcher_iff_example :
    (create_guarded_route_matcher codes api "auth" request ≡ true)
    ↔ Guarded "auth" "GET" (codes "/api/sandboxes/s1/") api
create_guarded_route_matcher_iff_example = create_guarded_route_matcher_iff codes api "auth" request

abbrev session : Session
session = record { active_organization_id = some "acme"; user_id = "u1" }

abbrev get_session : Entries → Reply (Option Session)
get_session h = answered (if is_some (lookup "cookie" h) then some session else none)

abbrev get_role : Entries → String → Reply String
get_role h organization_id = answered "viewer"

-- A caller with a session that claims to own another organization.
abbrev forged : WebRequest Entries
forged = record {
  method = "GET";
  url = "/api/sandboxes/";
  headers = ("cookie", "c") ∷ (organization_role_header, "owner") ∷ [];
}

abbrev honest : WebRequest Entries
honest = record {
  method = "GET";
  url = "/api/sandboxes/";
  headers =
      ("cookie", "c")
      ∷ (user_id_header, "u1")
      ∷ (organization_id_header, "acme")
      ∷ (organization_role_header, "viewer")
      ∷ [];
}

forged_passes :
    resolve_authenticated_member entries (console_host entries codes get_session get_role) forged
    ≡ passed honest
unfolding resolve_authenticated_member without_authenticated_member strip with_session
    with_organization with_subject handed_on member_role with_authenticated_member decode_member
    member_of decode_role role_name has_length utf16_length create_guarded_route_matcher
    guarded_routes guards routes_of to_path_pattern segment_lexemes escape_segment escape_character
    test is_metacharacter
forged_passes = refl

resolve_authenticated_member-Admitted_example :
    Admitted entries codes get_session get_role forged honest
resolve_authenticated_member-Admitted_example =
    resolve_authenticated_member-Admitted entries codes get_session get_role entries_IsWebHeaders
      forged honest forged_passes
