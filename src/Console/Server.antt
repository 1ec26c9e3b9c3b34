-- ===== src/Console/Server.antt =====
-- createNodeServer of src/libs/typescript/api/src/http/node-server.ts: from a message of Node to a
-- request, and from a response to what is written back.
pub mod Writing
mod Tests
use Prim.Native.String.{◌++◌}
use fissionplane.Prelude.{
  ℕ, Bool, true, false, not, ◌||◌, String, Option, some, none, List, [], ◌∷◌, ◌==◌, lookup, assign,
  or_else, decimal, if◌then◌else◌,
}
use fissionplane.Web.Headers.{WebHeaders, WebRequest, ◌>>=◌}
use fissionplane.Console.Member.{DomainError, status_of}
use fissionplane.Console.Gate.{
  Reply, Authorization, passed, Served, response, rejection, internal_error, handle,
}

-- A header of Node: one text, a list of them, or undefined.
pub data NodeHeader : Type 0 where
  one : String → NodeHeader
  several : List String → NodeHeader
  missing : NodeHeader

abbrev pub NodeHeaders : Type 0
NodeHeaders = List (String × NodeHeader)

-- `parts` are those of the body, none where reading them fails; `B` are bytes.
pub record IncomingMessage (B : Type 0) : Type 0 where
  pub method : Option String
  pub url : Option String
  pub host : Option String
  pub headers : NodeHeaders
  pub parts : Option (List B)

-- `content` is what `arrayBuffer()` resolves to; `entries` and `cookies` are those of the headers.
pub record WebResponse (B : Type 0) : Type 0 where
  pub status : ℕ
  pub status_text : String
  pub entries : List (String × String)
  pub cookies : List String
  pub content : Option B

pub record Head : Type 0 where
  pub status : ℕ
  pub status_text : Option String
  pub headers : NodeHeaders

-- The calls of `writeHead` and `end` on a ServerResponse.
pub data Call (B : Type 0) : Type 0 where
  wrote_head : Head → Call B
  ended : B → Call B

-- `append` and `new_request` are `none` where they throw; `sendable` tells whether `writeHead` takes a
-- head, which has to have a valid status and valid headers.
pub record NodePlatform (H B : Type 0) : Type 0 where
  pub web : WebHeaders H
  pub new_headers : H
  pub append : H → String → String → Option H
  pub blob : List B → B
  pub new_request : String → Option String → Option B → H → Option (WebRequest H)
  pub is_path_under : String → WebRequest H → Bool
  pub sendable : Head → Bool
  pub encode : DomainError → B
  pub internal_body : B

-- NodeServerOptions; `auth` and `api` are handlers.
pub record NodeServerOptions (H B : Type 0) : Type 0 where
  pub api : WebRequest H → Reply (WebResponse B)
  pub auth : WebRequest H → Reply (WebResponse B)
  pub auth_path : Option String
  pub authorize_api : Option (WebRequest H → Authorization H)
  pub port : ℕ

abbrev pub has_no_body : Option String → Bool
has_no_body (some method) = method == "GET" || method == "HEAD"
has_no_body none = false

-- The names whose value is not assigned: the cookies, and the name that reaches the prototype of a
-- plain object, where the assignment of a text does nothing.
abbrev pub is_skipped : String → Bool
is_skipped name = name == "set-cookie" || name == "__proto__"

-- The loop over `response.headers.entries()`.
unfoldable pub plain_headers : List (String × String) → NodeHeaders → NodeHeaders
plain_headers [] headers = headers
plain_headers ((name, value) ∷ rest) headers =
    plain_headers rest (if is_skipped name then headers else assign name (one value) headers)

abbrev pub with_cookies : List String → NodeHeaders → NodeHeaders
with_cookies [] headers = headers
with_cookies (cookie ∷ cookies) headers = assign "set-cookie" (several (cookie ∷ cookies)) headers

unfoldable pub node_headers : {B : Type 0} → WebResponse B → NodeHeaders
unfolding plain_headers
node_headers r = with_cookies r.cookies (plain_headers r.entries [])

abbrev pub head_of : {B : Type 0} → WebResponse B → Head
head_of r = record { status = r.status; status_text = some r.status_text; headers = node_headers r }

abbrev pub internal_head : Head
internal_head = record {
  status = 500;
  status_text = none;
  headers = ("content-type", one "application/json") ∷ [];
}

module _ {H B : Type 0} (platform : NodePlatform H B) where
  unfoldable pub append_all : H → String → List String → Option H
  append_all headers name [] = some headers
  append_all headers name (item ∷ items) = do
    headers' ← platform.append headers name item
    append_all headers' name items

  unfoldable pub put_header : H → String → NodeHeader → Option H
  unfolding append_all
  put_header headers name (one value) = platform.web.set headers name value
  put_header headers name (several items) = append_all headers name items
  put_header headers name missing = some headers

  unfoldable pub headers_from : H → NodeHeaders → Option H
  unfolding put_header
  headers_from headers [] = some headers
  headers_from headers ((name, value) ∷ rest) = do
    headers' ← put_header headers name value
    headers_from headers' rest

  unfoldable pub to_headers : NodeHeaders → Option H
  unfolding headers_from
  to_headers = headers_from platform.new_headers

  abbrev pub blob_of : List B → Option B
  blob_of [] = none
  blob_of (part ∷ parts) = some (platform.blob (part ∷ parts))

  unfoldable pub read_body : IncomingMessage B → Option (Option B)
  read_body request =
      if has_no_body request.method
      then some none
      else (request.parts >>= λ parts. some (blob_of parts))

  unfoldable pub to_web_request : IncomingMessage B → ℕ → Option (WebRequest H)
  unfolding read_body to_headers
  to_web_request request port = do
    let host = or_else request.host ("localhost:" ++ decimal port)
    body ← read_body request
    headers ← to_headers request.headers
    platform.new_request ("http://" ++ host ++ or_else request.url "/") request.method body headers

  -- What has been written, with `false` where an error was thrown.
  unfoldable pub write_web_response : WebResponse B → List (Call B) × Bool
  unfolding node_headers
  write_web_response r =
      if platform.sendable (head_of r)
      then elim r.content [
        | some body ↦ (wrote_head (head_of r) ∷ ended body ∷ [], true)
        | none ↦ (wrote_head (head_of r) ∷ [], false)
      ]
      else ([], false)

  -- domainErrorResponse of error-response.ts; a Response without a status text has the empty one.
  unfoldable pub domain_error_response : DomainError → WebResponse B
  domain_error_response error = record {
    status = status_of error;
    status_text = "";
    entries = ("content-type", "application/json") ∷ [];
    cookies = [];
    content = some (platform.encode error);
  }

  -- The response that `handle` comes to, none where it throws before it writes.
  unfoldable pub response_of : Served (WebResponse B) → Option (WebResponse B)
  unfolding domain_error_response
  response_of (response r) = some r
  response_of (rejection error) = some (domain_error_response error)
  response_of internal_error = none

  unfoldable pub web_response : NodeServerOptions H B → IncomingMessage B → Option (WebResponse B)
  unfolding to_web_request response_of
  web_response options message = do
    request ← to_web_request message options.port
    response_of (
        handle (platform.is_path_under (or_else options.auth_path "/api/auth/")) options.auth
          options.api (or_else options.authorize_api passed) request)

  abbrev pub finished : List (Call B) → List (Call B)
  finished [] = ended platform.internal_body ∷ []
  finished (call ∷ calls) = call ∷ finished calls

  -- The handler of `catch`, which looks whether a head has been sent.
  unfoldable pub caught : List (Call B) × Bool → List (Call B)
  caught (calls, true) = calls
  caught ([], false) = finished (wrote_head internal_head ∷ [])
  caught (call ∷ calls, false) = finished (call ∷ calls)

  unfoldable pub answer_to : Option (WebResponse B) → List (Call B)
  unfolding write_web_response caught
  answer_to (some r) = caught (write_web_response r)
  answer_to none = caught ([], false)

  unfoldable pub serve : NodeServerOptions H B → IncomingMessage B → List (Call B)
  unfolding web_response answer_to
  serve options message = answer_to (web_response options message)
