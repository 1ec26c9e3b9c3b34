-- ===== src/Sdk/DataPlane.antt =====
-- src/sdks/typescript/src/dataplane.ts: capability tokens and the recovery from a rejected one.
pub mod Recovery
pub mod Calls
pub mod CallLaws
pub mod Requests
pub mod Budget
pub mod Socket
mod Tests
mod CallTests
use Prim.Native.String.{◌++◌}
use fissionplane.Prelude.{ℕ, Bool, true, false, String, Option, none, some, if◌then◌else◌, decimal}
use fissionplane.Sdk.Errors.{Thrown, fission, ErrorClass, authentication, plain_error}
use fissionplane.Sdk.Effect.{Outcome, ok, raise, Eff, ◌>>=◌, ◌>>◌, catch, throw, pure}
use fissionplane.Sdk.Http.{Logger, debug}

abbrev pub default_agent_port : ℕ
default_agent_port = 50000

pub record CapabilityToken : Type 0 where
  pub token : String
  pub expires_at : String

-- The handle is mutable, so its current info and token are read from the world.
pub record TokenSource (W : Type 0) : Type 0 where
  pub sandbox_id : W → String
  pub domain : W → String
  pub token : W → Option CapabilityToken
  pub mint_token : Option (Eff W CapabilityToken)

abbrev class_is_authentication : ErrorClass → Bool
class_is_authentication authentication = true
class_is_authentication _ = false

-- `error instanceof AuthenticationError`.
unfoldable pub is_authentication_error : Thrown → Bool
is_authentication_error (fission e) = class_is_authentication e.class
is_authentication_error _ = false

module _ {W : Type 0} (sandbox : TokenSource W) where
  pub remint_message : W → String
  remint_message w =
      "sandbox "
      ++ sandbox.sandbox_id w
      ++ " rejected the capability token; "
      ++ "minting a fresh one and replaying the request"

  unfoldable pub with_fresh_token : {A : Type 0} → Logger W → Eff W A → Eff W A
  unfolding remint_message
  with_fresh_token logger run = catch run λ error.
      if is_authentication_error error
      then elim sandbox.mint_token [
        | none ↦ throw error
        | some mint ↦ λ w. (debug logger (remint_message w) >> (mint >> run)) w
      ]
      else throw error

  unarmed : W → String
  unarmed w =
      "sandbox "
      ++ sandbox.sandbox_id w
      ++ " has no capability token; "
      ++ "obtain one via sandboxes.create, sandbox.resume, or sandbox.mintToken"

  unfoldable pub token_text : W → Option CapabilityToken → Outcome String
  unfolding unarmed
  token_text w none = raise (fission (plain_error (unarmed w)))
  token_text w (some token) = ok token.token

  unfoldable pub capability_token : Eff W String
  capability_token w = (token_text w (sandbox.token w), w)

  unfoldable pub data_plane_origin : ℕ → W → String
  data_plane_origin agent_port w =
      "https://" ++ decimal agent_port ++ "-" ++ sandbox.sandbox_id w ++ "." ++ sandbox.domain w
