-- ===== src/Sdk/Sandbox/Pages/Order.antt =====
-- sandbox.ts, Sandboxes.iterate: the chain of pages that the control plane serves.
use fissionplane.Prelude.{String, ℕ, suc, ◌≡◌, Option, some, none, List, [], ◌++◌, true}
use fissionplane.Sdk.Value.{Value, end}
use fissionplane.Sdk.Errors.{Thrown}
use fissionplane.Sdk.Effect.{Eff, ok, raise}
use fissionplane.Sdk.Http.{RequestOptions, debug}
use fissionplane.Sdk.Api.{plain_request, with_field}
use fissionplane.Sdk.Sandbox.{ControlPlane, control}
use fissionplane.Sdk.Sandbox.Listing.{ListSandboxesOptions, encoded}
use fissionplane.Sdk.Sandbox.Pages.Answers.{IsPage, IsMalformed}
use fissionplane.Sdk.Sandbox.Pages.{Ending, finished, spent, broke, page_message}

module _ {W : Type 0} (plane : ControlPlane W) (encode : Value → String)
    (query : ListSandboxesOptions) (options : Option RequestOptions) where
  abbrev logged : ℕ → List Value → Option Value → W → W
  logged number items next_cursor w =
      (debug plane.requests.logger (page_message number items next_cursor) w).1

  -- The request for a page: the filters of the query and the cursor, and nothing else.
  abbrev pub asked : Option Value → Eff W (Option Value)
  asked cursor =
      control plane
        (record { operation = "GET /v1/sandboxes"; idempotent = true; options = options })
        λ init. record (plain_request "GET" "/v1/sandboxes" init) {
          query = with_field "state" query.state (
              with_field "name" query.name (
                with_field "metadata" (encoded encode query.metadata)
                  (with_field "limit" query.limit (with_field "cursor" cursor end))));
        }

  -- From a cursor in a world the control plane serves a chain of pages: its items in order, and its
  -- end, a page without a next cursor, a request that fails or an answer that is no page.
  pub data Serves : ℕ → Option Value → W → List Value → Ending → W → Type 0 where
    fails :
        {number : ℕ} {cursor : Option Value} {w w' : W} (e : Thrown)
        → asked cursor w ≡ (raise e, w')
        → Serves number cursor w [] (broke e) w'
    breaks :
        {number : ℕ} {cursor : Option Value} {w w' : W} (answer : Option Value) (e : Thrown)
        → asked cursor w ≡ (ok answer, w')
        → IsMalformed plane answer e
        → Serves number cursor w [] (broke e) w'
    last :
        {number : ℕ} {cursor : Option Value} {w w' : W} (answer : Option Value) (items : List Value)
        → asked cursor w ≡ (ok answer, w')
        → IsPage answer items none
        → Serves number cursor w items finished (logged (suc number) items none w')
    more :
        {number : ℕ} {cursor : Option Value} {w w' w'' : W} {rest : List Value} {ending : Ending}
        (answer : Option Value) (items : List Value) (next : Value)
        → asked cursor w ≡ (ok answer, w')
        → IsPage answer items (some next)
        → Serves (suc number) (some next) (logged (suc number) items (some next) w') rest ending w''
        → Serves number cursor w (items ++ rest) ending w''

  -- The number of pages of a chain.
  abbrev pub pages :
      {number : ℕ} {cursor : Option Value} {w w' : W} {xs : List Value} {ending : Ending}
      → Serves number cursor w xs ending w'
      → ℕ
  pages (fails e p) = 1
  pages (breaks answer e p bad) = 1
  pages (last answer items p page) = 1
  pages (more answer items next p page rest) = suc (pages rest)

  -- What `iterate` does with any fuel: it stops short, or it went along a chain of pages.
  data Reads (number : ℕ) (cursor : Option Value) (w : W) : (List Value × Ending) × W → Type 0 where
    short : {xs : List Value} {w' : W} → Reads number cursor w ((xs, spent), w')
    through :
        {xs : List Value} {ending : Ending} {w' : W}
        → Serves number cursor w xs ending w'
        → Reads number cursor w ((xs, ending), w')
