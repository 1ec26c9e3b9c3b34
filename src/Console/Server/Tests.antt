-- ===== src/Console/Server/Tests.antt =====
-- A server on association lists: its API sets two cookies, and its authorization may refuse.
use Prim.Native.String.{◌++◌}
use fissionplane.Prelude.{
  ◌≡◌, refl, true, ◌==◌, String, Option, some, none, [], ◌∷◌, is_some, lookup, assign,
  if◌then◌else◌,
}
use fissionplane.Web.Entries.{Entries, entries}
use fissionplane.Console.Member.{unauthorized}
use fissionplane.Console.Gate.{answered, rejected, refused, passed, handle, serve_api}
use fissionplane.Console.Server.{
  one, missing, IncomingMessage, WebResponse, wrote_head, ended, NodePlatform, NodeServerOptions,
  node_headers, head_of, internal_head, put_header, headers_from, to_headers, read_body,
  to_web_request, response_of, web_response, write_web_response, caught, answer_to, serve,
}
use fissionplane.Console.Server.Writing.{
  value_in, all_cookies, lookup-node_headers, IsAnswer, serve-IsAnswer,
}

abbrev appended : Entries → String → String → Option String → Entries
appended h name item none = assign name item h
appended h name item (some before) = assign name (before ++ (", " ++ item)) h

abbrev platform : NodePlatform Entries String
platform = record {
  web = entries;
  new_headers = [];
  append = λ h name item. some (appended h name item (lookup name h));
  blob = λ parts. "body";
  new_request = λ url method body h. some (record { method = "GET"; url = url; headers = h });
  is_path_under = λ path request. request.url == "http://here/api/auth/";
  sendable = λ head. true;
  encode = λ error. "refused";
  internal_body = "internal";
}

abbrev greeting : WebResponse String
greeting = record {
  status = 200;
  status_text = "OK";
  entries = ("content-type", "text/plain") ∷ ("set-cookie", "a=1") ∷ ("set-cookie", "b=2") ∷ [];
  cookies = "a=1" ∷ "b=2" ∷ [];
  content = some "hello";
}

abbrev options : NodeServerOptions Entries String
options = record {
  api = λ request. answered greeting;
  auth = λ request. rejected;
  auth_path = none;
  authorize_api = some (λ request.
      if is_some (lookup "cookie" request.headers) then passed request else refused unauthorized);
  port = 3000;
}

abbrev message : IncomingMessage String
message = record {
  method = some "GET";
  url = some "/api/sandboxes";
  host = some "here";
  headers = ("host", one "here") ∷ ("cookie", one "s") ∷ ("x", missing) ∷ [];
  parts = none;
}

greets : serve platform options message ≡ wrote_head (head_of greeting) ∷ ended "hello" ∷ []
unfolding serve web_response to_web_request read_body to_headers headers_from put_header handle
    serve_api response_of answer_to caught write_web_response
greets = refl

-- The auth handler fails.
fails :
    serve platform options (record message { url = some "/api/auth/" })
    ≡ wrote_head internal_head ∷ ended "internal" ∷ []
unfolding serve web_response to_web_request read_body to_headers headers_from put_header handle
    serve_api response_of answer_to caught
fails = refl

lookup-node_headers_example : lookup "set-cookie" (node_headers greeting) ≡ (
    if "set-cookie" == "set-cookie"
    then all_cookies greeting.cookies
    else value_in "set-cookie" greeting.entries none)
lookup-node_headers_example = lookup-node_headers greeting "set-cookie"

serve-IsAnswer_example :
    IsAnswer platform (web_response platform options message) (serve platform options message)
serve-IsAnswer_example = serve-IsAnswer platform options message
