-- ===== src/Sdk/DataPlane/Calls.antt =====
-- The part that commands.ts and files.ts share word for word: the client that is rebuilt when the
-- token rotates, and one call with retry and recovery.
use fissionplane.Prelude.{ℕ, ◌≡◌, String, Option, none, some, ◌==◌, if◌then◌else◌, assign}
use fissionplane.Sdk.Effect.{Eff, ◌>>=◌, pure, Runtime}
use fissionplane.Sdk.Http.{Headers, CallSpec, CallInit, RequestPipeline}
use fissionplane.Sdk.Http.Retry.{send}
use fissionplane.Sdk.Api.{Transport, default_headers}
use fissionplane.Sdk.DataPlane.{TokenSource, capability_token, data_plane_origin, with_fresh_token}

-- What createClient is given besides `fetch`.
pub record DataPlaneClient : Type 0 where
  pub base_url : String
  pub headers : Headers

-- One Commands or SandboxFiles object. Its fields `client` and `clientToken`, which are always set
-- together, live in the world; `transport` is openapi-fetch over the wrapped `fetch`.
pub record Connection (W : Type 0) : Type 0 where
  pub sandbox : TokenSource W
  pub agent_port : ℕ
  pub requests : RequestPipeline W
  pub runtime : Runtime W
  pub client : W → Option (DataPlaneClient × String)
  pub set_client : DataPlaneClient → String → W → W
  pub transport : DataPlaneClient → Transport W

-- The fields are a store of their own: what is written is read back, and neither the token nor the
-- origin of the sandbox changes.
pub record IsStore {W : Type 0} (c : Connection W) : Type 0 where
  pub reads_back :
      (client : DataPlaneClient) (token : String) (w : W)
      → c.client (c.set_client client token w) ≡ some (client, token)
  pub keeps_token :
      (client : DataPlaneClient) (token : String) (w : W)
      → c.sandbox.token (c.set_client client token w) ≡ c.sandbox.token w
  pub keeps_origin :
      (client : DataPlaneClient) (token : String) (w : W)
      → data_plane_origin c.sandbox c.agent_port (c.set_client client token w)
        ≡ data_plane_origin c.sandbox c.agent_port w

module _ {W : Type 0} (c : Connection W) where
  unfoldable pub new_client : String → W → DataPlaneClient
  new_client token w = record {
    base_url = data_plane_origin c.sandbox c.agent_port w;
    headers = assign "X-Sandbox-Token" token default_headers;
  }

  unfoldable pub rebuild : String → Eff W DataPlaneClient
  rebuild token w = pure (new_client token w) (c.set_client (new_client token w) token w)

  unfoldable pub reuse : String → Option (DataPlaneClient × String) → Eff W DataPlaneClient
  reuse token none = rebuild token
  reuse token (some (client, client_token)) =
      if client_token == token then pure client else rebuild token

  -- The private method `dataplane`.
  unfoldable pub dataplane : Eff W DataPlaneClient
  unfolding reuse rebuild
  dataplane = do token ← capability_token c.sandbox; λ w. reuse token (c.client w) w

  -- The private method `call`: the client is resolved outside the retry loop.
  unfoldable pub call : {A : Type 0} → CallSpec → (DataPlaneClient → CallInit → Eff W A) → Eff W A
  call spec run =
      with_fresh_token c.sandbox c.requests.logger
        do client ← dataplane; send c.runtime c.requests spec (run client)
