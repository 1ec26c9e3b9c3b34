-- ===== src/Sdk/Templates/Operations.antt =====
-- templates.ts, the class Templates: its calls on the control plane.
use fissionplane.Prelude.{true, false, Option, some}
use fissionplane.Sdk.Value.{Value, Fields, end}
use fissionplane.Sdk.Effect.{Eff, ◌>>=◌, pure}
use fissionplane.Sdk.Http.{RequestOptions}
use fissionplane.Sdk.Api.{plain_request, with_field}
use fissionplane.Sdk.DataPlane.Requests.{read_items}
use fissionplane.Sdk.Sandbox.{ControlPlane, control}
use fissionplane.Sdk.Templates.{nullish}

unfoldable pub page_query : Option Value → Option Value → Fields
page_query limit cursor = with_field "limit" limit (with_field "cursor" cursor end)

module _ {W : Type 0} (plane : ControlPlane W) where
  -- The page's items and the cursor of the next one.
  unfoldable pub list :
      Option Value → Option Value → Option RequestOptions → Eff W (Option Value × Option Value)
  unfolding page_query
  list limit cursor options = do
    page ←
        control plane
          (record { operation = "GET /v1/templates"; idempotent = true; options = options })
          λ init. record (plain_request "GET" "/v1/templates" init) {
            query = page_query limit cursor;
          }
    items ← read_items "items" page
    next_cursor ← read_items "next_cursor" page
    pure (items, nullish next_cursor)

  unfoldable pub get : Value → Option RequestOptions → Eff W (Option Value)
  get template options =
      control plane
        (record {
          operation = "GET /v1/templates/{template}";
          idempotent = true;
          options = options;
        })
        λ init. record (plain_request "GET" "/v1/templates/{template}" init) {
          path_params = with_field "template" (some template) end;
        }

  -- `build`, with the info that the new TemplateBuild takes.
  unfoldable pub build : Value → Option RequestOptions → Eff W (Option Value)
  build request options =
      control plane
        (record { operation = "POST /v1/templates/builds"; idempotent = false; options = options })
        λ init. record (plain_request "POST" "/v1/templates/builds" init) { body = some request }

  unfoldable pub get_build : Value → Option RequestOptions → Eff W (Option Value)
  get_build build_id options =
      control plane
        (record {
          operation = "GET /v1/templates/builds/{buildId}";
          idempotent = true;
          options = options;
        })
        λ init. record (plain_request "GET" "/v1/templates/builds/{buildId}" init) {
          path_params = with_field "buildId" (some build_id) end;
        }

  unfoldable pub delete : Value → Option RequestOptions → Eff W (Option Value)
  delete template options =
      control plane
        (record {
          operation = "DELETE /v1/templates/{template}";
          idempotent = true;
          options = options;
        })
        λ init. record (plain_request "DELETE" "/v1/templates/{template}" init) {
          path_params = with_field "template" (some template) end;
        }
