-- ===== src/Sdk/Client.antt =====
-- src/sdks/typescript/src/index.ts: the constructor of the SDK's entry point and its test of a
-- credential.
pub mod Credentials
mod Tests
use Prim.Native.Char.{Char, code}
use Prim.Native.String
use Prim.Native.String.{◌++◌}
use fissionplane.Prelude.{
  ℕ, Bool, true, false, not, ◌&&◌, ◌||◌, String, Option, none, some, List, lookup, ltb, leb, eqb,
  or_else, ◌==◌, if◌then◌else◌,
}
use fissionplane.Sdk.Errors.{Thrown, fission, plain_error, authentication}
use fissionplane.Sdk.Effect.{Outcome, ok, raise}
use fissionplane.Sdk.Http.{Logger, RequestDefaults}
use fissionplane.Sdk.Api

-- `\s` of a regular expression: the white space and the line ends of JavaScript.
abbrev pub is_space : Char → Bool
is_space c =
    let u = code c in
    (leb 9 u && leb u 13)
    || eqb u 32
    || eqb u 160
    || eqb u 5760
    || (leb 8192 u && leb u 8202)
    || eqb u 8232
    || eqb u 8233
    || eqb u 8239
    || eqb u 8287
    || eqb u 12288
    || eqb u 65279

abbrev pub has_space : String → Bool
has_space String.[] = false
has_space (String.◌∷◌ c s) = is_space c || has_space s

abbrev pub is_blank : String → Bool
is_blank String.[] = true
is_blank (String.◌∷◌ c s) = false

unfoldable pub credential_fault : String → Option String
credential_fault value =
    if is_blank value
    then some "empty"
    else if has_space value
    then some "not a single token: it contains whitespace"
    else none

credential_message : String → String → String
credential_message option fault =
    option
    ++ " is "
    ++ fault
    ++ "; pass one as new FissionPlane({ "
    ++ option
    ++ ": '…' })"
    ++ (if option == "apiKey" then " or set FISSIONPLANE_API_KEY in the environment" else "")

unfoldable pub fault_error : String → Option String → Option Thrown
unfolding credential_message
fault_error option none = none
fault_error option (some fault) = some (
    fission (record (plain_error (credential_message option fault)) {
      class = authentication;
      code = some "invalid_credential";
    }))

-- checkCredential: the error that it throws, if any.
unfoldable pub check_credential : String → String → Option Thrown
unfolding credential_fault fault_error
check_credential value option = fault_error option (credential_fault value)

-- FissionPlaneOptions, besides `fetch` and `webSocket`, which are handed on as they are.
pub record FissionPlaneOptions (W : Type 0) : Type 0 where
  pub api_key : Option String
  pub access_token : Option String
  pub base_url : Option String
  pub agent_port : Option ℕ
  pub request_timeout_ms : Option ℕ
  pub max_retries : Option ℕ
  pub logger : Option (Logger W)

-- What the constructor makes of them: the credentials and the base URL of the control-plane client,
-- the agent's port, and the defaults of the requests.
pub record FissionPlane (W : Type 0) : Type 0 where
  pub credentials : Api.Credentials
  pub base_url : String
  pub agent_port : Option ℕ
  pub defaults : RequestDefaults W

abbrev first_some : Option String → Option String → Option String
first_some (some a) b = some a
first_some none b = b

-- `if (value !== undefined) checkCredential(value, option)`.
unfoldable pub check_given : Option String → String → Option Thrown
unfolding check_credential
check_given none option = none
check_given (some value) option = check_credential value option

module _ {W : Type 0} (env : List (String × String)) where
  -- `options.apiKey ?? env['FISSIONPLANE_API_KEY']`; `env` is empty where there is no `process`.
  abbrev pub api_key_of : FissionPlaneOptions W → Option String
  api_key_of options = first_some options.api_key (lookup "FISSIONPLANE_API_KEY" env)

  abbrev pub configured : FissionPlaneOptions W → FissionPlane W
  configured options = record {
    credentials = record { api_key = api_key_of options; access_token = options.access_token };
    base_url =
        or_else (first_some options.base_url (lookup "FISSIONPLANE_API_URL" env))
          "https://api.example.com";
    agent_port = options.agent_port;
    defaults = record {
      request_timeout_ms = options.request_timeout_ms;
      max_retries = options.max_retries;
      logger = options.logger;
    };
  }

  unfoldable pub checked : FissionPlane W → Option Thrown → Option Thrown → Outcome (FissionPlane W)
  checked client (some e) second = raise e
  checked client none (some e) = raise e
  checked client none none = ok client

  -- The constructor.
  unfoldable pub new_client : FissionPlaneOptions W → Outcome (FissionPlane W)
  unfolding checked
  new_client options =
      checked (configured options) (check_given (api_key_of options) "apiKey")
        (check_given options.access_token "accessToken")
