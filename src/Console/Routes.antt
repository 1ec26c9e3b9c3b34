-- ===== src/Console/Routes.antt =====
-- src/libs/typescript/api/src/modules/authorization/infrastructure/http/authenticated-routes.ts:
-- which requests the gate guards.
pub mod Patterns
pub mod Guarding
pub mod Host
mod Tests
use fissionplane.Prelude.{
  ℕ, Bool, true, false, ◌&&◌, String, Option, List, [], ◌∷◌, ◌++◌, map, any, eqb, ◌==◌, codes,
  join_with, split_on, if◌then◌else◌,
}
use fissionplane.Web.RegExp.{
  Lexeme, plain, escaped, non_slashes, anything, optional_slash, is_metacharacter, test,
}
use fissionplane.Web.Headers.{WebRequest}

unfoldable pub escape_character : ℕ → Lexeme
escape_character c = if is_metacharacter c then escaped c else plain c

unfoldable pub escape_segment : List ℕ → List Lexeme
unfolding escape_character
escape_segment segment = map escape_character segment

abbrev pub starts_with_colon : List ℕ → Bool
starts_with_colon [] = false
starts_with_colon (c ∷ s) = eqb c 58

abbrev pub is_star : List ℕ → Bool
is_star [] = false
is_star (c ∷ []) = eqb c 42
is_star (c ∷ d ∷ s) = false

unfoldable pub segment_lexemes : List ℕ → List Lexeme
unfolding escape_segment
segment_lexemes segment =
    if starts_with_colon segment
    then non_slashes ∷ []
    else if is_star segment
    then anything ∷ []
    else escape_segment segment

unfoldable pub to_path_pattern : List ℕ → List Lexeme
unfolding segment_lexemes
to_path_pattern path =
    join_with (plain 47 ∷ []) (map segment_lexemes (split_on 47 path)) ++ (optional_slash ∷ [])

pub record GuardedRoute : Type 0 where
  pub method : String
  pub path : List Lexeme

-- What HttpApi.reflect shows of an endpoint of the contract: the keys of its middleware among it.
pub record Endpoint : Type 0 where
  pub method : String
  pub path : String
  pub middleware : List String

-- The loop of `onEndpoint` over the middleware of one endpoint.
unfoldable pub routes_of : String → Endpoint → List String → List GuardedRoute
unfolding to_path_pattern
routes_of key endpoint [] = []
routes_of key endpoint (tag ∷ tags) =
    let rest = routes_of key endpoint tags in
    if tag == key
    then record { method = endpoint.method; path = to_path_pattern (codes endpoint.path) } ∷ rest
    else rest

unfoldable pub guarded_routes : String → List Endpoint → List GuardedRoute
unfolding routes_of
guarded_routes key [] = []
guarded_routes key (endpoint ∷ api) =
    routes_of key endpoint endpoint.middleware ++ guarded_routes key api

unfoldable pub guards : String → List ℕ → GuardedRoute → Bool
guards method pathname route = (route.method == method) && test route.path pathname

-- `pathname_of` is the `pathname` of `new URL(url)`.
unfoldable pub create_guarded_route_matcher :
    {H : Type 0} → (pathname_of : String → List ℕ) → List Endpoint → String → WebRequest H → Bool
unfolding guarded_routes guards
create_guarded_route_matcher pathname_of api key request =
    any (guards request.method (pathname_of request.url)) (guarded_routes key api)
