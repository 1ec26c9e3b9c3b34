-- ===== src/Sdk/Ports.antt =====
-- src/sdks/typescript/src/ports.ts: the exposure records of a sandbox's ports.
use fissionplane.Prelude.{ℕ, true, String, Option, some}
use fissionplane.Sdk.Value.{Value, pos, text, number, object, Fields, end, field}
use fissionplane.Sdk.Effect.{Eff, ◌>>=◌, pure}
use fissionplane.Sdk.Http.{RequestOptions}
use fissionplane.Sdk.Api.{plain_request}
use fissionplane.Sdk.DataPlane.Requests.{read_items}
use fissionplane.Sdk.Sandbox.{ControlPlane, control}

-- One SandboxPorts object.
pub record SandboxPorts (W : Type 0) : Type 0 where
  pub plane : ControlPlane W
  pub sandbox_id : Value

abbrev pub port_path : Value → ℕ → Fields
port_path sandbox_id port = field "sandboxId" sandbox_id (field "port" (number (pos port)) end)

module _ {W : Type 0} (ports : SandboxPorts W) where
  unfoldable pub list : Option RequestOptions → Eff W (Option Value)
  unfolding read_items
  list options = do
    page ←
        control ports.plane
          (record {
            operation = "GET /v1/sandboxes/{sandboxId}/ports";
            idempotent = true;
            options = options;
          })
          λ init. record (plain_request "GET" "/v1/sandboxes/{sandboxId}/ports" init) {
            path_params = field "sandboxId" ports.sandbox_id end;
          }
    read_items "items" page

  unfoldable pub expose : ℕ → String → Option RequestOptions → Eff W (Option Value)
  expose port visibility options =
      control ports.plane
        (record {
          operation = "PUT /v1/sandboxes/{sandboxId}/ports/{port}";
          idempotent = true;
          options = options;
        })
        λ init. record (plain_request "PUT" "/v1/sandboxes/{sandboxId}/ports/{port}" init) {
          path_params = port_path ports.sandbox_id port;
          body = some (object (field "visibility" (text visibility) end));
        }

  unfoldable pub unexpose : ℕ → Option RequestOptions → Eff W (Unit {0})
  unexpose port options = do
    answer ←
        control ports.plane
          (record {
            operation = "DELETE /v1/sandboxes/{sandboxId}/ports/{port}";
            idempotent = true;
            options = options;
          })
          λ init. record (plain_request "DELETE" "/v1/sandboxes/{sandboxId}/ports/{port}" init) {
            path_params = port_path ports.sandbox_id port;
          }
    pure tt
