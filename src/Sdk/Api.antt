-- ===== src/Sdk/Api.antt =====
-- src/sdks/typescript/src/api/index.ts and api/metadata.ts: default headers, the control-plane client's
-- headers, and the reading of a response. openapi-fetch itself is the parameter `Transport`.
use Prim.Native.String.{◌++◌}
use fissionplane.Prelude.{
  ℕ, Bool, not, ◌||◌, String, Option, none, some, [], ◌∷◌, is_some, if◌then◌else◌, assign,
}
use fissionplane.Sdk.Value.{Value, Fields, end, field}
use fissionplane.Sdk.Errors.{fission, error_from_response}
use fissionplane.Sdk.Effect.{Outcome, ok, raise, Eff, ◌>>=◌}
use fissionplane.Sdk.Http.{Headers, CallInit}

abbrev pub sdk_version : String
sdk_version = "0.0.1-beta"

abbrev pub user_agent : String
user_agent = "fissionplane-typescript/" ++ sdk_version

abbrev pub default_headers : Headers
default_headers = ("User-Agent", user_agent) ∷ []

pub record Credentials : Type 0 where
  pub api_key : Option String
  pub access_token : Option String

-- The headers of createApiClient: an API key wins over an access token.
unfoldable pub client_headers : Credentials → Headers
client_headers config = elim config.api_key [
  | some key ↦ assign "X-API-Key" key default_headers
  | none ↦ elim config.access_token [
    | some token ↦ assign "Authorization" ("Bearer " ++ token) default_headers
    | none ↦ default_headers
  ]
]

-- The argument of one call of the generated client: `client.METHOD(path, { params, body, ...init })`.
pub record ApiRequest : Type 0 where
  pub method : String
  pub path : String
  pub path_params : Fields
  pub query : Fields
  pub header : Fields
  pub body : Option Value
  pub init : CallInit

-- What the generated client answers.
pub record ApiResult : Type 0 where
  pub data_ : Option Value
  pub error : Option Value
  pub status : ℕ
  pub is_ok : Bool

abbrev pub Transport : Type 0 → Type 0
Transport W = ApiRequest → Eff W ApiResult

unfoldable pub unwrap : ApiResult → Outcome (Option Value)
unwrap result =
    if is_some result.error || not result.is_ok
    then raise (fission (error_from_response result.status result.error))
    else ok result.data_

-- `unwrap(await client.METHOD(…))`.
unfoldable pub call_api : {W : Type 0} → Transport W → ApiRequest → Eff W (Option Value)
call_api client request = do result ← client request; λ w. (unwrap result, w)

-- A request with no parameters and no body.
abbrev pub plain_request : String → String → CallInit → ApiRequest
plain_request method path init = record {
  method = method;
  path = path;
  path_params = end;
  query = end;
  header = end;
  body = none;
  init = init;
}

-- `...(value !== undefined && { [key]: value })`, in front of the other fields.
abbrev pub with_field : String → Option Value → Fields → Fields
with_field key none fields = fields
with_field key (some v) fields = field key v fields
