-- ===== src/Core/Members.antt =====
-- src/libs/typescript/core/src/auth/models.ts, auth/types.ts and users/types.ts: the caller's identity
-- and its decoding. A schema's length counts UTF-16 code units, as a JavaScript string does.
pub mod Decoding
use Prim.Native.Char.{Char, code}
use fissionplane.Prelude.{ℕ, ◌+◌, Bool, ◌&&◌, String, Option, none, some, leb, ltb, if◌then◌else◌}
use fissionplane.Core.Permissions.{OrganizationRole, decode_role}

abbrev units : Char → ℕ
units c = if ltb (code c) 65536 then 1 else 2

unfoldable pub utf16_length : String → ℕ
utf16_length String.[] = 0
utf16_length (String.◌∷◌ c s) = units c + utf16_length s

abbrev pub user_id_max_length : ℕ
user_id_max_length = 255

abbrev pub auth_organization_id_max_length : ℕ
auth_organization_id_max_length = 255

-- `Schema.minLength(min)` with `Schema.maxLength(max)`.
unfoldable pub has_length : ℕ → ℕ → String → Bool
has_length min max s = leb min (utf16_length s) && leb (utf16_length s) max

pub record AuthenticatedMember : Type 0 where
  pub organization_id : String
  pub role : OrganizationRole
  pub user_id : String

unfoldable pub member_of : String → Option OrganizationRole → String → Option AuthenticatedMember
member_of organization_id none user_id = none
member_of organization_id (some role) user_id =
    if has_length 1 auth_organization_id_max_length organization_id
      && has_length 1 user_id_max_length user_id
    then some (record { organization_id = organization_id; role = role; user_id = user_id })
    else none

-- Decoding by AuthenticatedMemberSchema; a field that is undefined fails.
unfoldable pub decode_member :
    Option String → Option String → Option String → Option AuthenticatedMember
unfolding member_of
decode_member (some organization_id) (some role) (some user_id) =
    member_of organization_id (decode_role role) user_id
decode_member _ _ _ = none
