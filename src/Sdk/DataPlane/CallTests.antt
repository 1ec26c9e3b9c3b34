-- ===== src/Sdk/DataPlane/CallTests.antt =====
-- Runs of a data-plane call. The world holds the client that is stored, the number of the token and
-- the count of the requests; the agent accepts the token "t1" only.
use fissionplane.Prelude.{
  ℕ, suc, ◌+◌, ◌≤◌, ◌≡◌, refl, true, false, String, Option, some, none, ltb, lookup, arith,
  if◌then◌else◌, ◌==◌,
}
use mathlib.Core.Option.{some-injective}
use fissionplane.Sdk.Value.{Value, text}
use fissionplane.Sdk.Errors.{error_from_response}
use fissionplane.Sdk.Effect.{ok, Eff}
use fissionplane.Sdk.Http.{CallSpec, CallInit, debug, init, should_retry, signal_of}
use fissionplane.Sdk.Http.Retry.{send, back_off}
use fissionplane.Sdk.Api.{ApiRequest, ApiResult, call_api, plain_request, unwrap}
use fissionplane.Sdk.DataPlane.{
  CapabilityToken, data_plane_origin, default_agent_port, with_fresh_token, is_authentication_error,
  capability_token, token_text,
}
use fissionplane.Sdk.DataPlane.Calls.{
  Connection, IsStore, DataPlaneClient, call, dataplane, reuse, rebuild, new_client,
}
use fissionplane.Sdk.DataPlane.CallLaws.{
  IsCoherent, Resolves, dataplane-Resolves, call_not_idempotent-le,
}
use fissionplane.Sdk.DataPlane.Budget.{IsCounter}
use fissionplane.Sdk.Commands.Operations.{RunCommandOptions, StartProcessOptions}
use fissionplane.Sdk.Files.Operations.{MakeDirectoryOptions}

abbrev Agent : Type 0
Agent = Option (DataPlaneClient × String) × (ℕ × ℕ)

abbrev numbered : ℕ → CapabilityToken
numbered n = record { token = if ltb 0 n then "t1" else "t0"; expires_at = "soon" }

abbrev mint : Eff Agent CapabilityToken
mint (client, (n, sends)) = (ok (numbered (suc n)), (client, (suc n, sends)))

abbrev unauthorized : ApiResult
unauthorized = record { data_ = none; error = none; status = 401; is_ok = false }

abbrev answer_to : Option String → ApiResult
answer_to none = unauthorized
answer_to (some token) =
    if token == "t1"
    then record { data_ = some (text "done"); error = none; status = 200; is_ok = true }
    else unauthorized

abbrev agent : DataPlaneClient → ApiRequest → Eff Agent ApiResult
agent client request (stored, (n, sends)) =
    (ok (answer_to (lookup "X-Sandbox-Token" client.headers)), (stored, (n, suc sends)))

abbrev connection : Connection Agent
connection = record {
  sandbox = record {
    sandbox_id = λ w. "s1";
    domain = λ w. "example.com";
    token = λ w. some (numbered w.1.0);
    mint_token = some mint;
  };
  agent_port = default_agent_port;
  requests = record {
    request_timeout_ms = 60000;
    max_retries = 2;
    logger = record { debug = none };
  };
  runtime = record {
    aborted = λ s w. none;
    wait = λ d s w. (none, w);
    random = λ w. (7, w);
    now = λ w. (0, w);
  };
  client = λ w. w.0;
  set_client = λ client token w. (some (client, token), w.1);
  transport = agent;
}

connection_IsStore : IsStore connection
unfolding data_plane_origin
connection_IsStore = record {
  reads_back = λ client token w. refl;
  keeps_token = λ client token w. refl;
  keeps_origin = λ client token w. refl;
}

abbrev moving : CallSpec
moving = record { operation = "POST /files/move"; idempotent = false; options = none }

abbrev moving_call : DataPlaneClient → CallInit → Eff Agent (Option Value)
moving_call client i = call_api (connection.transport client) (plain_request "POST" "/files/move" i)

recovered_call : (call connection moving moving_call (none, (0, 0))).0 ≡ ok (some (text "done"))
unfolding call with_fresh_token send back_off call_api unwrap dataplane reuse rebuild new_client
    capability_token token_text debug should_retry is_authentication_error signal_of
    error_from_response
recovered_call = refl

fresh_world : IsCoherent connection (none, (0, 0))
fresh_world client token e = absurd (cc)

dataplane-Resolves_example :
    Resolves connection connection_IsStore (numbered 0).token (none, (0, 0))
dataplane-Resolves_example =
    dataplane-Resolves connection connection_IsStore (none, (0, 0)) (numbered 0) fresh_world refl

one :
    (client : DataPlaneClient) (w : Agent)
    → (moving_call client (init moving.options) w).1.1.1 ≤ w.1.1 + 1
unfolding call_api
one client (stored, (n, sends)) = omega arith

mint_keeps : (m : Eff Agent CapabilityToken) (w : Agent) → some mint ≡ some m → (m w).1.1.1 ≡ w.1.1
mint_keeps m w e = let same : mint ≡ m = some-injective _ _ e in rw (← same)

call_not_idempotent-le_example : (call connection moving moving_call (none, (0, 0))).1.1.1 ≤ 0 + 2
unfolding debug
call_not_idempotent-le_example =
    call_not_idempotent-le connection (λ w. w.1.1) (λ client token w. refl) (λ d s w. refl)
      (λ w. refl) (λ m w. refl) mint_keeps moving moving_call one (none, (0, 0)) refl

counter : IsCounter connection (λ w. w.1.1)
unfolding debug
counter = record {
  transporting = λ client r (stored, (n, sends)). omega arith;
  storing = λ client token w. refl;
  waiting = λ d s w. refl;
  drawing = λ w. refl;
  logging = λ m w. refl;
  minting = mint_keeps;
}

abbrev running : RunCommandOptions
running = record {
  request = none;
  args = none;
  cwd = none;
  env = none;
  stdin = none;
  timeout_seconds = none;
}

abbrev starting : StartProcessOptions
starting = record { request = none; args = none; cwd = none; env = none; pty = none }

abbrev making : MakeDirectoryOptions
making = record { request = none; parents = none; mode = none }
