-- ===== src/Sdk/Files/Contents.antt =====
-- files.ts: reading and writing bytes over `fetch`, and watching.
use fissionplane.Prelude.{
  ℕ, Bool, true, false, String, Option, none, some, List, [], ◌∷◌, or_else, if◌then◌else◌, is_some,
  assign,
}
use fissionplane.Sdk.Value.{Value, Number, pos}
use fissionplane.Sdk.Errors.{range_error, fission, error_from_response}
use fissionplane.Sdk.Effect.{Outcome, ok, raise, Eff, ◌>>=◌, pure, throw, Signal}
use fissionplane.Sdk.Http.{Headers, RequestOptions, CallSpec, CallInit}
use fissionplane.Sdk.Http.Retry.{send}
use fissionplane.Sdk.Frames.{is_non_negative_integer}
use fissionplane.Sdk.Streaming.{Stream, new_stream}
use fissionplane.Sdk.DataPlane.{capability_token, data_plane_origin, with_fresh_token}
use fissionplane.Sdk.DataPlane.Calls.{Connection}
use fissionplane.Sdk.DataPlane.Socket.{SocketPlatform, open_data_plane_web_socket}
use fissionplane.Sdk.Commands.Attaching.{handshake_timeout, printed}
use fissionplane.Sdk.Files.Watching.{FileWatchEvent}

abbrev pub Bytes : Type 0
Bytes = List ℕ

-- One request of `fetch`, and its response; `body` is what `response.json()` reads, or undefined.
pub record RawRequest : Type 0 where
  pub url : String
  pub method : String
  pub headers : Headers
  pub body : Option Bytes
  pub signal : Option Signal

pub record RawResponse : Type 0 where
  pub status : ℕ
  pub is_ok : Bool
  pub body : Option Value
  pub content : Bytes

-- `fetch` with the SDK's headers and limit, the URL of a path with a query on an origin, and
-- `response.arrayBuffer()`.
pub record FetchPlatform (W : Type 0) : Type 0 where
  pub fetch : RawRequest → Eff W RawResponse
  pub url : String → String → List (String × String) → String
  pub array_buffer : RawResponse → Eff W Bytes

-- `{ 'X-Sandbox-Token', ...(body && { 'Content-Type' }), ...init.headers }`: later entries win.
abbrev pub overlay : Headers → Headers → Headers
overlay base [] = base
overlay base ((name, value) ∷ rest) = overlay (assign name value base) rest

unfoldable pub raw_headers : String → Option Bytes → Option Headers → Headers
raw_headers token body own =
    let typed = if is_some body then ("Content-Type", "application/octet-stream") ∷ [] else [] in
    overlay (("X-Sandbox-Token", token) ∷ typed) (or_else own [])

unfoldable pub check_response : RawResponse → Outcome RawResponse
check_response response =
    if response.is_ok
    then ok response
    else raise (fission (error_from_response response.status response.body))

-- The entries of a query that are not undefined.
abbrev pub defined : List (String × Option String) → List (String × String)
defined [] = []
defined ((name, none) ∷ rest) = defined rest
defined ((name, some value) ∷ rest) = (name, value) ∷ defined rest

module _ {W : Type 0} (platform : FetchPlatform W) (c : Connection W) where
  -- One attempt with a token.
  unfoldable pub raw_attempt :
      String → String → Option Bytes → String → CallInit → Eff W RawResponse
  unfolding check_response raw_headers
  raw_attempt url method body token init = do
    response ← platform.fetch (record {
      url = url;
      method = method;
      headers = raw_headers token body init.headers;
      body = body;
      signal = init.signal;
    })
    λ w. (check_response response, w)

  -- The private method `request`.
  unfoldable pub raw_request :
      String → CallSpec → String → List (String × Option String) → Option Bytes → Eff W RawResponse
  unfolding raw_attempt
  raw_request path spec method query body w =
      let url = platform.url path (data_plane_origin c.sandbox c.agent_port w) (defined query) in
      with_fresh_token c.sandbox c.requests.logger
        (do
          token ← capability_token c.sandbox
          send c.runtime c.requests spec (raw_attempt url method body token))
        w

  unfoldable pub read : String → Option RequestOptions → Eff W Bytes
  unfolding raw_request
  read path options = do
    response ←
        raw_request "/files/content"
          (record { operation = "GET /files/content"; idempotent = true; options = options }) "GET"
          (("path", some path) ∷ []) none
    platform.array_buffer response

  unfoldable pub download : String → Option RequestOptions → Eff W Bytes
  download = read

  -- `mode` is that of the options.
  unfoldable pub write : String → Bytes → Option String → Option RequestOptions → Eff W (Unit {0})
  unfolding raw_request
  write path bytes mode options = do
    response ←
        raw_request "/files/content"
          (record { operation = "PUT /files/content"; idempotent = true; options = options }) "PUT"
          (("path", some path) ∷ ("mode", mode) ∷ []) (some bytes)
    pure tt

  unfoldable pub upload : String → Bytes → Option String → Option RequestOptions → Eff W (Unit {0})
  upload = write

module _ {W S : Type 0} (platform : SocketPlatform W S)
    (factory : Option (String → List (List ℕ) → Eff W S)) (c : Connection W) where
  unfoldable pub watch_at :
      String → Bool → Number → Option RequestOptions → Eff W (S × Stream FileWatchEvent)
  watch_at path recursive after options = do
    socket ← open_data_plane_web_socket platform c.sandbox c.agent_port factory "/files/watch" (
        ("path", path)
        ∷ ("recursive", if recursive then "true" else "false")
        ∷ ("after", printed after)
        ∷ [])
    pure (socket, new_stream (handshake_timeout c.requests options))

  -- SandboxFiles.watch; `recursive` and `after` are those of the options.
  unfoldable pub watch :
      String
      → Option Bool
      → Option Number
      → Option RequestOptions
      → Eff W (S × Stream FileWatchEvent)
  unfolding watch_at
  watch path recursive after options =
      if is_non_negative_integer (or_else after (pos 0))
      then watch_at path (or_else recursive false) (or_else after (pos 0)) options
      else throw (range_error "after must be a non-negative integer")
