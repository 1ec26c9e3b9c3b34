-- ===== src/Console/Gate/Trust.antt =====
-- resolveAuthenticatedMember: whom the middleware sees behind it.
use fissionplane.Prelude.{
  ◌≡◌, refl, inl, inr, ◌⊎◌, true, false, String, Option, some, none, Bool-cases, Option-cases, sym,
  ◌∙◌, ap,
}
use mathlib.Core.Option.{some-injective}
use fissionplane.Core.Permissions.{role_name, decode_role}
use fissionplane.Core.Members.{AuthenticatedMember, decode_member}
use fissionplane.Core.Members.Decoding.{decode_member-fields}
use fissionplane.Web.Headers.{WebHeaders, IsWebHeaders, WebRequest}
use fissionplane.Console.Member.{
  with_authenticated_member, without_authenticated_member, authenticated_subject,
  organization_id_header,
}
use fissionplane.Console.Member.Stripping.{without-absent}
use fissionplane.Console.Member.Roundtrip.{decoded-written}
use fissionplane.Console.Gate.{
  AuthHost, Session, Reply, answered, rejected, passed, member_role, handed_on, with_subject,
  with_organization, with_session, resolve_authenticated_member,
}

member_role-answered :
    (reply : Reply String) (name : String) → member_role reply ≡ some name → reply ≡ answered name
unfolding member_role
member_role-answered (answered role) name e = ap answered (some-injective _ _ e)
member_role-answered rejected name e = absurd (cc)

session-cases :
    (reply : Reply (Option Session))
    → (reply ≡ rejected) ⊎ ((s : Option Session) × (reply ≡ answered s))
session-cases rejected = inl refl
session-cases (answered s) = inr (s, refl)

module _ {H : Type 0} (web : WebHeaders H) (host : AuthHost H) where
  -- The member that the session of the stripped request stands for: its active organization, its user,
  -- and the role that the membership has there.
  pub record IsResolved (incoming : WebRequest H) (member : AuthenticatedMember) : Type 0 where
    pub session : Session
    pub in_session :
        host.get_session (without_authenticated_member web incoming).headers
        ≡ answered (some session)
    pub active : session.active_organization_id ≡ some member.organization_id
    pub user : session.user_id ≡ member.user_id
    pub role : String
    pub in_organization :
        host.get_active_member_role
          (without_authenticated_member web incoming).headers
          member.organization_id
        ≡ answered role
    pub decoded : decode_role role ≡ some member.role

  -- What a request that passed carries.
  pub data Carried (incoming request : WebRequest H) : Type 0 where
    open_route :
        host.requires_authenticated_member (without_authenticated_member web incoming) ≡ false
        → authenticated_subject web request ≡ none
        → Carried incoming request
    guarded_route :
        host.requires_authenticated_member (without_authenticated_member web incoming) ≡ true
        → (member : AuthenticatedMember) → IsResolved incoming member
        → authenticated_subject web request
          ≡ decode_member
              (some (web.normal member.organization_id))
              (some (role_name member.role))
              (some (web.normal member.user_id))
        → Carried incoming request

  with_subject-passed :
      (request request' : WebRequest H) (subject : Option AuthenticatedMember)
      → with_subject web host request subject ≡ passed request'
      → (member : AuthenticatedMember) × (subject ≡ some member)
        × (with_authenticated_member web request member ≡ some request')
  unfolding with_subject handed_on
  with_subject-passed request request' none e = absurd (cc)
  with_subject-passed request request' (some member) e =
      elim (Option-cases (with_authenticated_member web request member)) [
        | inl throws ↦ absurd (cc (rw throws at e))
        | inr (written, done) ↦
            let same : passed written ≡ passed request' = rw done at e in
            let same' : written ≡ request' = cc in (member, refl, done ∙ ap some same')
      ]

  module _ (laws : IsWebHeaders web) (incoming request : WebRequest H) where
    abbrev stripped : WebRequest H
    stripped = without_authenticated_member web incoming

    stripped-no_subject : authenticated_subject web stripped ≡ none
    unfolding authenticated_subject decode_member
    stripped-no_subject =
        rw (without-absent web laws incoming organization_id_header refl refl) refl

    with_organization-Carried :
        host.requires_authenticated_member stripped ≡ true
        → (session : Session) → host.get_session stripped.headers ≡ answered (some session)
        → (organization_id : Option String) → session.active_organization_id ≡ organization_id
        → with_organization web host stripped session organization_id ≡ passed request
        → Carried incoming request
    unfolding with_organization
    with_organization-Carried guarded session found none active e = absurd (cc)
    with_organization-Carried guarded session found (some o) active e =
        let reply = host.get_active_member_role stripped.headers o in
        let (member, decoded, written) =
          with_subject-passed stripped request
            (decode_member (some o) (member_role reply) (some session.user_id)) e in
        let fields = decode_member-fields o session.user_id (member_role reply) decoded in
        guarded_route guarded member
          (record {
            session = session;
            in_session = found;
            active = active ∙ ap some (sym fields.organization);
            user = sym fields.user;
            role = fields.name;
            in_organization =
                rw (fields.organization) (member_role-answered reply fields.name fields.given);
            decoded = fields.role;
          })
          (decoded-written web laws stripped request member written)

    -- A request that the gate lets through carries no subject if its route is open, and otherwise the
    -- one that Better Auth resolved: the headers that the caller sent have no say in it.
    pub resolve_authenticated_member-Carried :
        resolve_authenticated_member web host incoming ≡ passed request → Carried incoming request
    unfolding resolve_authenticated_member with_session
    resolve_authenticated_member-Carried e =
        elim (Bool-cases (host.requires_authenticated_member stripped)) [
          | inr open_ ↦
              let same : passed stripped ≡ passed request = rw open_ at e in
              let same' : stripped ≡ request = cc in
              rw (← same') (open_route open_ (stripped-no_subject))
          | inl guarded ↦ elim (session-cases (host.get_session stripped.headers)) [
            | inl rejects ↦ absurd (cc (rw (guarded, rejects) at e))
            | inr (none, found) ↦ absurd (cc (rw (guarded, found) at e))
            | inr (some session, found) ↦
                with_organization-Carried guarded session found session.active_organization_id refl
                  (rw (guarded, found) at e)
          ]
        ]
