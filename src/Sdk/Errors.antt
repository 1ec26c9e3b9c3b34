-- ===== src/Sdk/Errors.antt =====
-- src/sdks/typescript/src/errors.ts: the SDK's error classes and the mapping of a failed response.
pub mod Laws
mod Tests
use Prim.Native.String
use fissionplane.Prelude.{
  ℕ, Bool, false, ◌||◌, String, Option, none, some, leb, eqb, or_else, if◌then◌else◌, decimal,
}
use fissionplane.Sdk.Value.{Value, object, Fields, end, property, as_text, as_boolean}

-- The classes below FissionPlaneError; `base` is FissionPlaneError itself.
pub data ErrorClass : Type 0 where
  base authentication forbidden not_found conflict : ErrorClass
  snapshot_expired rate_limit command_timeout template_build : ErrorClass

pub record FissionPlaneError : Type 0 where
  pub class : ErrorClass
  pub message : String
  pub status : Option ℕ
  pub code : Option String
  pub retryable : Bool
  pub request_id : Option String
  pub build_error : Option String

-- What a promise can reject with. `foreign` is any other value, such as an abort reason.
pub data Thrown : Type 0 where
  fission : FissionPlaneError → Thrown
  type_error range_error protocol_error foreign : String → Thrown

-- `new FissionPlaneError(message)`, with the constructor's defaults.
abbrev pub plain_error : String → FissionPlaneError
plain_error message = record {
  class = base;
  message = message;
  status = none;
  code = none;
  retryable = false;
  request_id = none;
  build_error = none;
}

-- `new TemplateBuildError(message, buildError)`.
abbrev pub template_build_error : String → Option String → FissionPlaneError
template_build_error message build_error = record (plain_error message) {
  class = template_build;
  build_error = build_error;
}

-- The fields of a body that is an object; any other body has none of those that are read.
abbrev body_fields : Option Value → Fields
body_fields (some (object fields)) = fields
body_fields _ = end

abbrev error_class : ℕ → ErrorClass
error_class status =
    if eqb status 401
    then authentication
    else if eqb status 403
    then forbidden
    else if eqb status 404
    then not_found
    else if eqb status 408
    then command_timeout
    else if eqb status 409
    then conflict
    else if eqb status 410
    then snapshot_expired
    else if eqb status 429
    then rate_limit
    else base

unfoldable pub error_from_response : ℕ → Option Value → FissionPlaneError
unfolding property
error_from_response status body =
    let fields = body_fields body in
    record {
      class = error_class status;
      message =
          or_else (as_text (property "message" fields))
            (String.◌++◌ "request failed with status " (decimal status));
      status = some status;
      code = as_text (property "code" fields);
      retryable =
          or_else (as_boolean (property "retryable" fields)) (eqb status 429 || leb 500 status);
      request_id = as_text (property "request_id" fields);
      build_error = none;
    }
