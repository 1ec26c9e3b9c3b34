-- ===== src/Sdk/Sandbox/Listing.antt =====
-- sandbox.ts, Sandboxes.get and Sandboxes.list, and how often they reach the control plane.
use fissionplane.Prelude.{
  ℕ, ◌+◌, ◌≤◌, ◌≡◌, refl, ◌∙◌, inl, inr, true, String, Option, some, none, List, [], ◌∷◌,
}
use fissionplane.Sdk.Errors.{type_error}
use fissionplane.Sdk.Value.{
  Value, null, boolean, number, text, array, object, Values, nil, cons, Fields, end,
}
use fissionplane.Sdk.Effect.{Eff, ◌>>=◌, pure, throw, run-cases}
use fissionplane.Sdk.Http.{RequestOptions, CallSpec, CallInit}
use fissionplane.Sdk.Api.{ApiRequest, plain_request, with_field}
use fissionplane.Sdk.DataPlane.Requests.{read_items}
use fissionplane.Sdk.Sandbox.{ControlPlane, control}
use fissionplane.Sdk.Sandbox.Handle.{read_items-world}
use fissionplane.Sdk.Sandbox.Create.{IsCounter, control-le}
use fissionplane.Sdk.Templates.{nullish}

-- ListSandboxesOptions, besides its request options.
pub record ListSandboxesOptions : Type 0 where
  pub state : Option Value
  pub name : Option Value
  pub metadata : Option Value
  pub limit : Option Value
  pub cursor : Option Value

-- `encode` is `new URLSearchParams(metadata).toString()`.
unfoldable pub encoded : (Value → String) → Option Value → Option Value
encoded encode none = none
encoded encode (some metadata) = some (text (encode metadata))

unfoldable pub list_query : (Value → String) → ListSandboxesOptions → Fields
unfolding encoded
list_query encode options = with_field "state" options.state (
    with_field "name" options.name (
      with_field "metadata" (encoded encode options.metadata)
        (with_field "limit" options.limit (with_field "cursor" options.cursor end))))

abbrev pub values : Values → List Value
values nil = []
values (cons v vs) = v ∷ values vs

-- `page.items.map`: what is no array has no method `map`.
unfoldable pub array_of : {W : Type 0} → Option Value → Eff W (List Value)
array_of (some (array vs)) = pure (values vs)
array_of none = throw (type_error "cannot read properties of undefined")
array_of (some null) = throw (type_error "cannot read properties of null")
array_of (some _) = throw (type_error "page.items.map is not a function")

array_of-world : {W : Type 0} (v : Option Value) (w : W) → (array_of v w).1 ≡ w
unfolding array_of
array_of-world none w = refl
array_of-world (some null) w = refl
array_of-world (some (boolean b)) w = refl
array_of-world (some (number n)) w = refl
array_of-world (some (text s)) w = refl
array_of-world (some (array vs)) w = refl
array_of-world (some (object fields)) w = refl

module _ {W : Type 0} (plane : ControlPlane W) where
  unfoldable pub get : String → Option RequestOptions → Eff W (Option Value)
  get sandbox_id options =
      control plane
        (record {
          operation = "GET /v1/sandboxes/{sandboxId}";
          idempotent = true;
          options = options;
        })
        λ init. record (plain_request "GET" "/v1/sandboxes/{sandboxId}" init) {
          path_params = with_field "sandboxId" (some (text sandbox_id)) end;
        }

  unfoldable pub list_request :
      (Value → String) → ListSandboxesOptions → Option RequestOptions → Eff W (Option Value)
  unfolding list_query
  list_request encode query options =
      control plane
        (record { operation = "GET /v1/sandboxes"; idempotent = true; options = options })
        λ init. record (plain_request "GET" "/v1/sandboxes" init) {
          query = list_query encode query;
        }

  unfoldable pub page_parts : Option Value → Eff W (List Value × Option Value)
  unfolding read_items array_of
  page_parts page = do
    items ← read_items "items" page
    infos ← array_of items
    next_cursor ← read_items "next_cursor" page
    pure (infos, nullish next_cursor)

  -- The infos of the page, of which the source makes one handle each, and the cursor of the next page.
  unfoldable pub list :
      (Value → String)
      → ListSandboxesOptions
      → Option RequestOptions
      → Eff W (List Value × Option Value)
  unfolding list_request page_parts
  list encode query options = do page ← list_request encode query options; page_parts page

  page_parts-world : (page : Option Value) (w : W) → (page_parts page w).1 ≡ w
  unfolding page_parts
  page_parts-world page w =
      let first = read_items-world "items" page w in
      elim (run-cases (read_items "items" page w)) [
        | inr (x, w', e) ↦ rw e (rw e at first)
        | inl (items, w', e) ↦
            let same : w' ≡ w = rw e at first in
            let mapped = array_of-world items w' in
            elim (run-cases (array_of items w')) [
              | inr (x, w₁, e₁) ↦ rw (e, e₁) ((rw e₁ at mapped) ∙ same)
              | inl (infos, w₁, e₁) ↦
                  let same₁ : w₁ ≡ w = (rw e₁ at mapped) ∙ same in
                  let second = read_items-world "next_cursor" page w₁ in
                  elim (run-cases (read_items "next_cursor" page w₁)) [
                    | inr (x, w₂, e₂) ↦ rw (e, e₁, e₂) ((rw e₂ at second) ∙ same₁)
                    | inl (next_cursor, w₂, e₂) ↦ rw (e, e₁, e₂) ((rw e₂ at second) ∙ same₁)
                  ]
            ]
      ]

  module _ (sends : W → ℕ) (counts : IsCounter plane sends) where
    list-le :
        (encode : Value → String) (query : ListSandboxesOptions) (options : Option RequestOptions)
        (w : W)
        → sends (list encode query options w).1 ≤ sends w + (plane.requests.max_retries + 1)
    unfolding list list_request
    list-le encode query options w =
        let spec : CallSpec = record {
          operation = "GET /v1/sandboxes";
          idempotent = true;
          options = options;
        } in
        let build : CallInit → ApiRequest = λ init.
          record (plain_request "GET" "/v1/sandboxes" init) { query = list_query encode query } in
        let bound = control-le plane sends counts spec build w in
        elim (run-cases (control plane spec build w)) [
          | inr (x, w', e) ↦ rw e (rw e at bound)
          | inl (page, w', e) ↦
              let bound' : sends w' ≤ sends w + (plane.requests.max_retries + 1) = rw e at bound in
              rw e (rw (page_parts-world page w') bound')
        ]

    -- Getting a sandbox and listing a page of them stay within the retry budget.
    pub listing-le :
        (encode : Value → String) (query : ListSandboxesOptions) (sandbox_id : String)
        (options : Option RequestOptions) (w : W)
        → (sends (get sandbox_id options w).1 ≤ sends w + (plane.requests.max_retries + 1))
          × (sends (list encode query options w).1 ≤ sends w + (plane.requests.max_retries + 1))
    unfolding get
    listing-le encode query sandbox_id options w =
        (control-le plane sends counts _ _ w, list-le encode query options w)
