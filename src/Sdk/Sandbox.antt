-- ===== src/Sdk/Sandbox.antt =====
-- src/sdks/typescript/src/sandbox.ts: the handle of one sandbox and the calls that make one.
pub mod Handle
pub mod Create
pub mod Listing
pub mod Pages
mod Tests
use fissionplane.Prelude.{true, false, String, Option, some, none, is_some}
use fissionplane.Sdk.Value.{Value, text, object, Fields, end}
use fissionplane.Sdk.Effect.{Eff, ◌>>=◌, pure, Runtime}
use fissionplane.Sdk.Http.{CallSpec, CallInit, RequestOptions, RequestPipeline}
use fissionplane.Sdk.Http.Retry.{send}
use fissionplane.Sdk.Api.{ApiRequest, Transport, call_api, plain_request, with_field}
use fissionplane.Sdk.DataPlane.Requests.{read_items}

-- The control-plane client of a handle and its request pipeline.
pub record ControlPlane (W : Type 0) : Type 0 where
  pub runtime : Runtime W
  pub requests : RequestPipeline W
  pub api : Transport W

-- One Sandbox object; its fields `info` and `token`, which hold what the control plane answered, live
-- in the world.
pub record SandboxHandle (W : Type 0) : Type 0 where
  pub plane : ControlPlane W
  pub info : W → Option Value
  pub set_info : Option Value → W → W
  pub token : W → Option Value
  pub set_token : Option Value → W → W

-- CreateSandboxOptions, besides its request options.
pub record CreateSandboxOptions : Type 0 where
  pub request : Option RequestOptions
  pub idempotency_key : Option String

unfoldable pub key_header : Option String → Fields
key_header none = end
key_header (some key) = with_field "Idempotency-Key" (some (text key)) end

abbrev pub create_spec : CreateSandboxOptions → CallSpec
create_spec options = record {
  operation = "POST /v1/sandboxes";
  idempotent = is_some options.idempotency_key;
  options = options.request;
}

unfoldable pub create_request : Value → CreateSandboxOptions → CallInit → ApiRequest
unfolding key_header
create_request request options init = record (plain_request "POST" "/v1/sandboxes" init) {
  header = key_header options.idempotency_key;
  body = some request;
}

module _ {W : Type 0} (plane : ControlPlane W) where
  -- `this.requests.send(spec, async (init) => unwrap(await this.api.METHOD(…)))`.
  unfoldable pub control : CallSpec → (CallInit → ApiRequest) → Eff W (Option Value)
  control spec build =
      send plane.runtime plane.requests spec λ init. call_api plane.api (build init)

  -- Sandboxes.create, with the two fields of its answer that the new handle takes.
  unfoldable pub create : Value → CreateSandboxOptions → Eff W (Option Value × Option Value)
  unfolding control read_items
  create request options = do
    result ← control (create_spec options) (create_request request options)
    sandbox ← read_items "sandbox" result
    token ← read_items "token" result
    pure (sandbox, token)

module _ {W : Type 0} (handle : SandboxHandle W) where
  -- `sandboxId`: reading it throws where there is no `info`.
  unfoldable pub sandbox_id : Eff W (Option Value)
  unfolding read_items
  sandbox_id w = read_items "sandbox_id" (handle.info w) w

  -- One attempt of a call on this sandbox, and the call. The id is read again for every attempt.
  unfoldable pub attempt : (Option Value → ApiRequest) → Eff W (Option Value)
  unfolding sandbox_id
  attempt build = do id ← sandbox_id; call_api handle.plane.api (build id)

  unfoldable pub on_sandbox :
      CallSpec → (CallInit → Option Value → ApiRequest) → Eff W (Option Value)
  unfolding attempt
  on_sandbox spec build =
      send handle.plane.runtime handle.plane.requests spec λ init. attempt (build init)

  abbrev pub sandbox_request : String → String → CallInit → Option Value → ApiRequest
  sandbox_request method path init id = record (plain_request method path init) {
    path_params = with_field "sandboxId" id end;
  }

  -- `this.info = await …; return this.info`.
  unfoldable pub store_info : Option Value → Eff W (Option Value)
  store_info info w = pure info (handle.set_info info w)

  unfoldable pub store_token : Option Value → Eff W (Option Value)
  store_token token w = pure token (handle.set_token token w)

  unfoldable pub refresh : Option RequestOptions → Eff W (Option Value)
  unfolding on_sandbox store_info
  refresh options = do
    info ←
        on_sandbox
          (record {
            operation = "GET /v1/sandboxes/{sandboxId}";
            idempotent = true;
            options = options;
          })
          (sandbox_request "GET" "/v1/sandboxes/{sandboxId}")
    store_info info

  unfoldable pub pause : Option RequestOptions → Eff W (Option Value)
  unfolding on_sandbox store_info
  pause options = do
    info ←
        on_sandbox
          (record {
            operation = "POST /v1/sandboxes/{sandboxId}/pause";
            idempotent = false;
            options = options;
          })
          (sandbox_request "POST" "/v1/sandboxes/{sandboxId}/pause")
    store_info info

  -- The end of `resume`: both fields are read from the answer and stored.
  unfoldable pub adopt : Option Value → Eff W (Option Value)
  unfolding read_items store_info store_token
  adopt result = do
    sandbox ← read_items "sandbox" result
    info ← store_info sandbox
    token ← read_items "token" result
    ignored ← store_token token
    pure info

  -- `deadline_seconds` is that of the options.
  unfoldable pub resume : Option Value → Option RequestOptions → Eff W (Option Value)
  unfolding on_sandbox adopt
  resume deadline_seconds options = do
    result ←
        on_sandbox
          (record {
            operation = "POST /v1/sandboxes/{sandboxId}/resume";
            idempotent = false;
            options = options;
          })
          λ init id. record (sandbox_request "POST" "/v1/sandboxes/{sandboxId}/resume" init id) {
            body = some (object (with_field "deadline_seconds" deadline_seconds end));
          }
    adopt result

  unfoldable pub extend_deadline : Value → Option RequestOptions → Eff W (Option Value)
  unfolding on_sandbox store_info
  extend_deadline deadline_seconds options = do
    info ←
        on_sandbox
          (record {
            operation = "POST /v1/sandboxes/{sandboxId}/deadline";
            idempotent = false;
            options = options;
          })
          λ init id. record (sandbox_request "POST" "/v1/sandboxes/{sandboxId}/deadline" init id) {
            body = some (object (with_field "deadline_seconds" (some deadline_seconds) end));
          }
    store_info info

  -- `ttl_seconds` and `ports` are those of the options.
  unfoldable pub mint_token :
      Option Value → Option Value → Option RequestOptions → Eff W (Option Value)
  unfolding on_sandbox store_token
  mint_token ttl_seconds ports options = do
    token ←
        on_sandbox
          (record {
            operation = "POST /v1/sandboxes/{sandboxId}/token";
            idempotent = false;
            options = options;
          })
          λ init id. record (sandbox_request "POST" "/v1/sandboxes/{sandboxId}/token" init id) {
            body =
                some (object (with_field "ttl_seconds" ttl_seconds (with_field "ports" ports end)));
          }
    store_token token

  unfoldable pub delete : Option RequestOptions → Eff W (Option Value)
  unfolding on_sandbox
  delete options =
      on_sandbox
        (record {
          operation = "DELETE /v1/sandboxes/{sandboxId}";
          idempotent = true;
          options = options;
        })
        (sandbox_request "DELETE" "/v1/sandboxes/{sandboxId}")
