-- ===== src/Console/Tests.antt =====
-- Runs of the host on association lists, which store every value as it is.
use fissionplane.Prelude.{
  ℕ, ◌≡◌, refl, arith, ◌↔◌, true, false, String, some, none, List, [], ◌∷◌, is_some, lookup, ◌==◌,
  if◌then◌else◌, contains,
}
use fissionplane.Core.Permissions.{
  owner, admin, developer, viewer, has_organization_permission, organization_permissions,
  statements, permission_set_from_statements, decode_role, role_name, role_statements,
}
use fissionplane.Core.Permissions.Hierarchy.{has_organization_permission_monotone}
use fissionplane.Core.Members.{
  AuthenticatedMember, decode_member, member_of, has_length, utf16_length,
}
use fissionplane.Web.Entries.{Entries, entries, entries_IsWebHeaders}
use fissionplane.Web.Headers.{WebRequest}
use fissionplane.Console.Member.{
  authenticated_subject, organization_id_header, organization_role_header, user_id_header,
  with_authenticated_member, without_authenticated_member, strip, require_permission,
}
use fissionplane.Console.Gate.{
  AuthHost, Session, answered, rejected, passed, resolve_authenticated_member, handle, response,
  with_session, with_organization, with_subject, member_role, handed_on, serve_api,
}
use fissionplane.Console.Gate.Trust.{Carried, resolve_authenticated_member-Carried}
use fissionplane.Console.Sandboxes.{list_sandboxes, listed, on_subject, execute, after_check}
use fissionplane.Console.Member.Roundtrip.{authenticated_subject-with_authenticated_member}
use fissionplane.Console.Sandboxes.Access.{IsShown, handle-IsShown}

-- One session, which is in the headers as a cookie, of a viewer.
abbrev session : Session
session = record { active_organization_id = some "acme"; user_id = "u1" }

abbrev host : AuthHost Entries
host = record {
  get_session = λ h. answered (if is_some (lookup "cookie" h) then some session else none);
  get_active_member_role = λ h organization_id. answered "viewer";
  requires_authenticated_member = λ request. request.url == "/api/sandboxes";
}

-- A caller with a session that claims to own another organization.
abbrev forged : WebRequest Entries
forged = record {
  method = "GET";
  url = "/api/sandboxes";
  headers =
      ("cookie", "c")
      ∷ (organization_id_header, "other")
      ∷ (organization_role_header, "owner")
      ∷ [];
}

abbrev honest : WebRequest Entries
honest = record {
  method = "GET";
  url = "/api/sandboxes";
  headers =
      ("cookie", "c")
      ∷ (user_id_header, "u1")
      ∷ (organization_id_header, "acme")
      ∷ (organization_role_header, "viewer")
      ∷ [];
}

forged_passes : resolve_authenticated_member entries host forged ≡ passed honest
unfolding resolve_authenticated_member without_authenticated_member strip with_session
    with_organization with_subject handed_on member_role with_authenticated_member decode_member
    member_of decode_role role_name has_length utf16_length
forged_passes = refl

resolve_authenticated_member-Carried_example : Carried entries host forged honest
resolve_authenticated_member-Carried_example =
    resolve_authenticated_member-Carried entries host entries_IsWebHeaders forged honest
      forged_passes

abbrev viewer_member : AuthenticatedMember
viewer_member = record { organization_id = "acme"; role = viewer; user_id = "u1" }

abbrev bare : WebRequest Entries
bare = record { method = "GET"; url = "/api/sandboxes"; headers = ("cookie", "c") ∷ [] }

written : with_authenticated_member entries bare viewer_member ≡ some honest
unfolding with_authenticated_member role_name
written = refl

authenticated_subject-with_authenticated_member_example :
    authenticated_subject entries honest ≡ some viewer_member
unfolding utf16_length
authenticated_subject-with_authenticated_member_example =
    authenticated_subject-with_authenticated_member entries entries_IsWebHeaders bare honest
      viewer_member written (omega arith, omega arith) (omega arith, omega arith)

abbrev repository : String → List ℕ
repository organization_id = if organization_id == "acme" then 7 ∷ [] else 8 ∷ []

forged_is_shown :
    handle
      (λ request. false)
      (λ request. rejected)
      (list_sandboxes repository entries)
      (resolve_authenticated_member entries host)
      forged
    ≡ response (listed (7 ∷ []))
unfolding handle serve_api list_sandboxes on_subject execute after_check require_permission
    authenticated_subject resolve_authenticated_member without_authenticated_member strip
    with_session with_organization with_subject handed_on member_role with_authenticated_member
    decode_member member_of decode_role role_name has_length utf16_length
    has_organization_permission role_statements permission_set_from_statements
forged_is_shown = refl

handle-IsShown_example : IsShown repository entries entries_IsWebHeaders host forged (7 ∷ [])
handle-IsShown_example =
    handle-IsShown repository entries entries_IsWebHeaders host (λ request. false)
      (λ request. rejected) forged (7 ∷ []) refl forged_is_shown

catalogue : permission_set_from_statements statements ≡ organization_permissions
unfolding permission_set_from_statements
catalogue = refl

has_organization_permission_monotone_example :
    ((has_organization_permission owner "sandbox:read" ≡ true)
      ↔ (contains "sandbox:read" organization_permissions ≡ true))
    × (has_organization_permission admin "sandbox:read" ≡ true
        → has_organization_permission owner "sandbox:read" ≡ true)
    × (has_organization_permission developer "sandbox:read" ≡ true
        → has_organization_permission admin "sandbox:read" ≡ true)
    × (has_organization_permission viewer "sandbox:read" ≡ true
        → has_organization_permission admin "sandbox:read" ≡ true)
has_organization_permission_monotone_example = has_organization_permission_monotone "sandbox:read"
