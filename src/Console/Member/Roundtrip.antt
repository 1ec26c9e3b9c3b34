-- ===== src/Console/Member/Roundtrip.antt =====
-- withAuthenticatedMember and the middleware: what is written is what is read.
use fissionplane.Prelude.{differ, ◌≡◌, ◌≤◌, refl, true, String, some, ◌∙◌, ap, arith}
use mathlib.Core.Option.{some-injective}
use fissionplane.Core.Permissions.{OrganizationRole, role_name, decode_role}
use fissionplane.Core.Permissions
use fissionplane.Core.Members.{
  AuthenticatedMember, decode_member, member_of, has_length, utf16_length,
}
use fissionplane.Core.Members.Decoding.{decode_role-role_name}
use fissionplane.Web.Headers.{WebHeaders, IsWebHeaders, WebRequest, bind_some, is_solid}
use fissionplane.Console.Member.{
  with_authenticated_member, authenticated_subject, organization_id_header,
  organization_role_header, user_id_header,
}

role_name-is_solid : (role : OrganizationRole) → is_solid (role_name role) ≡ true
unfolding role_name
role_name-is_solid Permissions.owner = refl
role_name-is_solid Permissions.admin = refl
role_name-is_solid Permissions.developer = refl
role_name-is_solid Permissions.viewer = refl

abbrev pub Fits : String → Type 0
Fits id = (1 ≤ utf16_length id) × (utf16_length id ≤ 255)

Fits-has_length : (id : String) → Fits id → has_length 1 255 id ≡ true
unfolding has_length
Fits-has_length id (low, high) = ground arith

module _ {H : Type 0} (web : WebHeaders H) (laws : IsWebHeaders web) where
  -- The middleware behind a request that carries a member decodes what was written.
  pub decoded-written :
      (request request' : WebRequest H) (member : AuthenticatedMember)
      → with_authenticated_member web request member ≡ some request'
      → authenticated_subject web request'
        ≡ decode_member
            (some (web.normal member.organization_id))
            (some (role_name member.role))
            (some (web.normal member.user_id))
  unfolding with_authenticated_member authenticated_subject
  decoded-written request request' member e =
      let (h₁, e₁, r₁) =
        bind_some (web.set request.headers user_id_header member.user_id) _ request' e in
      let (h₂, e₂, r₂) =
        bind_some (web.set h₁ organization_id_header member.organization_id) _ request' r₁ in
      let (h₃, e₃, r₃) =
        bind_some (web.set h₂ organization_role_header (role_name member.role)) _ request' r₂ in
      let same : (record request { headers = h₃ }) ≡ request' = some-injective _ _ r₃ in
      let role : web.get h₃ organization_role_header ≡ some (role_name member.role) =
        laws.get-set h₂ h₃ organization_role_header (role_name member.role) e₃
        ∙ ap some (laws.normal_solid (role_name member.role) (role_name-is_solid member.role)) in
      let organization : web.get h₃ organization_id_header
          ≡ some (web.normal member.organization_id) =
        laws.get-set_other h₂ h₃ organization_role_header organization_id_header
          (role_name member.role) refl refl
          (differ organization_role_header organization_id_header refl) e₃
        ∙ laws.get-set h₁ h₂ organization_id_header member.organization_id e₂ in
      let user : web.get h₃ user_id_header ≡ some (web.normal member.user_id) =
        laws.get-set_other h₂ h₃ organization_role_header user_id_header (role_name member.role)
          refl refl (differ organization_role_header user_id_header refl) e₃
        ∙ (laws.get-set_other h₁ h₂ organization_id_header user_id_header member.organization_id
              refl refl (differ organization_id_header user_id_header refl) e₂
            ∙ laws.get-set request.headers h₁ user_id_header member.user_id e₁) in
      rw (← same) (rw (role, organization, user) refl)

  -- Where a member was written whose ids, without the white space around them, have from 1 to 255
  -- UTF-16 units, the middleware reads that member, with these ids.
  pub authenticated_subject-with_authenticated_member :
      (request request' : WebRequest H) (member : AuthenticatedMember)
      → with_authenticated_member web request member ≡ some request'
      → Fits (web.normal member.organization_id)
      → Fits (web.normal member.user_id)
      → authenticated_subject web request'
        ≡ some (record {
          organization_id = web.normal member.organization_id;
          role = member.role;
          user_id = web.normal member.user_id;
        })
  unfolding decode_member member_of
  authenticated_subject-with_authenticated_member request request' member e organization user =
      decoded-written request request' member e
      ∙ rw
          (
            decode_role-role_name member.role,
            Fits-has_length (web.normal member.organization_id) organization,
            Fits-has_length (web.normal member.user_id) user,
          )
          refl
