-- ===== src/Console/Routes/Guarding.antt =====
-- Which requests the matcher guards.
use fissionplane.Prelude.{
  ℕ, ◌≡◌, refl, ◌↔◌, sym, ◌∙◌, inl, inr, true, ◌&&◌, ◌||◌, String, List, [], ◌∷◌, ◌++◌, any, ◌==◌,
  eq_iff, codes, Bool-cases, contains, and_true, and_false, or_true, true_or,
}
use fissionplane.Web.Headers.{WebRequest}
use fissionplane.Web.RegExp.{test}
use fissionplane.Console.Routes.{
  Endpoint, GuardedRoute, routes_of, guarded_routes, guards, to_path_pattern,
  create_guarded_route_matcher,
}
use fissionplane.Console.Routes.Patterns.{IsUnder, to_path_pattern_iff}

-- An endpoint of the contract that stands behind the middleware and that a request is for.
pub data Guarded (key method : String) (pathname : List ℕ) : List Endpoint → Type 0 where
  here :
      {endpoint : Endpoint} {api : List Endpoint}
      → contains key endpoint.middleware ≡ true
      → endpoint.method ≡ method
      → IsUnder (codes endpoint.path) pathname
      → Guarded key method pathname (endpoint ∷ api)
  there :
      {endpoint : Endpoint} {api : List Endpoint}
      → Guarded key method pathname api
      → Guarded key method pathname (endpoint ∷ api)

module _ (key method : String) (pathname : List ℕ) where
  any-append :
      (xs ys : List GuardedRoute)
      → any (guards method pathname) (xs ++ ys)
        ≡ (any (guards method pathname) xs || any (guards method pathname) ys)
  any-append [] ys = refl
  any-append (x ∷ xs) ys = elim (Bool-cases (guards method pathname x)) [
    | inl e ↦ rw e refl
    | inr e ↦ rw e (any-append xs ys)
  ]

  -- The route that stands for an endpoint, once for each time its middleware has the key.
  abbrev route_of : Endpoint → GuardedRoute
  route_of endpoint = record {
    method = endpoint.method;
    path = to_path_pattern (codes endpoint.path);
  }

  any-routes_of :
      (endpoint : Endpoint) (tags : List String)
      → any (guards method pathname) (routes_of key endpoint tags)
        ≡ (contains key tags && guards method pathname (route_of endpoint))
  unfolding routes_of
  any-routes_of endpoint [] = refl
  any-routes_of endpoint (tag ∷ tags) =
      let rest = any-routes_of endpoint tags in
      elim (Bool-cases (tag == key)) [
        | inr e ↦ rw e rest
        | inl e ↦ elim (Bool-cases (guards method pathname (route_of endpoint))) [
          | inl g ↦ rw (e, g) refl
          | inr g ↦
              rw (e, g)
                (rest
                  ∙ and_false (contains key tags) (guards method pathname (route_of endpoint)) g)
        ]
      ]

  any-guarded_routes :
      (endpoint : Endpoint) (api : List Endpoint)
      → any (guards method pathname) (guarded_routes key (endpoint ∷ api)) ≡ (
          (contains key endpoint.middleware && guards method pathname (route_of endpoint))
          || any (guards method pathname) (guarded_routes key api))
  unfolding guarded_routes
  any-guarded_routes endpoint api =
      any-append (routes_of key endpoint endpoint.middleware) (guarded_routes key api)
      ∙ (rw (any-routes_of endpoint endpoint.middleware) refl)

  here-guards :
      (endpoint : Endpoint)
      → contains key endpoint.middleware ≡ true
      → endpoint.method ≡ method
      → IsUnder (codes endpoint.path) pathname
      → (contains key endpoint.middleware && guards method pathname (route_of endpoint)) ≡ true
  unfolding guards
  here-guards endpoint has same under =
      rw (has, (eq_iff endpoint.method method).1 same)
        ((to_path_pattern_iff (codes endpoint.path) pathname).1 under)

  guards-here :
      (endpoint : Endpoint) (api : List Endpoint)
      → (contains key endpoint.middleware && guards method pathname (route_of endpoint)) ≡ true
      → Guarded key method pathname (endpoint ∷ api)
  unfolding guards
  guards-here endpoint api h =
      let (has, passes) =
        and_true (contains key endpoint.middleware) (guards method pathname (route_of endpoint))
          h in
      let (same, fits) =
        and_true (endpoint.method == method) (test (to_path_pattern (codes endpoint.path)) pathname)
          passes in
      here has ((eq_iff endpoint.method method).0 same)
        ((to_path_pattern_iff (codes endpoint.path) pathname).0 fits)

  Guarded-any :
      (api : List Endpoint)
      → Guarded key method pathname api
      → any (guards method pathname) (guarded_routes key api) ≡ true
  Guarded-any [] h = elim h [ ]
  Guarded-any (endpoint ∷ api) (here has same under) =
      rw (any-guarded_routes endpoint api, here-guards endpoint has same under) refl
  Guarded-any (endpoint ∷ api) (there h) =
      rw (any-guarded_routes endpoint api) (true_or _ _ (Guarded-any api h))

  any-Guarded :
      (api : List Endpoint)
      → any (guards method pathname) (guarded_routes key api) ≡ true
      → Guarded key method pathname api
  unfolding guarded_routes
  any-Guarded [] h = absurd (cc)
  any-Guarded (endpoint ∷ api) h =
      let split = sym (any-guarded_routes endpoint api) ∙ h in
      elim (or_true (contains key endpoint.middleware && guards method pathname (route_of endpoint))
        (any (guards method pathname) (guarded_routes key api)) split) [
          | inl first ↦ guards-here endpoint api first
          | inr later ↦ there (any-Guarded api later)
        ]

-- A request is guarded exactly if the contract has an endpoint behind the middleware, of its method,
-- with its path under the endpoint's.
pub create_guarded_route_matcher_iff :
    {H : Type 0} (pathname_of : String → List ℕ) (api : List Endpoint) (key : String)
    (request : WebRequest H)
    → (create_guarded_route_matcher pathname_of api key request ≡ true)
      ↔ Guarded key request.method (pathname_of request.url) api
unfolding create_guarded_route_matcher
create_guarded_route_matcher_iff pathname_of api key request = (
  any-Guarded key request.method (pathname_of request.url) api,
  Guarded-any key request.method (pathname_of request.url) api,
)
