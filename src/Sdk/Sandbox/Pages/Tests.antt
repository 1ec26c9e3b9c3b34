-- ===== src/Sdk/Sandbox/Pages/Tests.antt =====
-- A control plane that serves two pages, the world being the count of its requests.
use fissionplane.Prelude.{ℕ, zero, suc, true, some, none}
use fissionplane.Sdk.Value.{Value, text, object, end, field, array, nil, cons}
use fissionplane.Sdk.Effect.{ok}
use fissionplane.Sdk.Sandbox.{ControlPlane}
use fissionplane.Sdk.Sandbox.Listing.{ListSandboxesOptions}

abbrev page : ℕ → Value
page zero =
    object (field "items" (array (cons (text "a") nil)) (field "next_cursor" (text "c") end))
page (suc n) = object (field "items" (array (cons (text "b") nil)) end)

abbrev plane : ControlPlane ℕ
plane = record {
  runtime = record {
    aborted = λ s w. none;
    wait = λ d s w. (none, w);
    random = λ w. (7, w);
    now = λ w. (0, w);
  };
  requests = record {
    request_timeout_ms = 60000;
    max_retries = 2;
    logger = record { debug = none };
  };
  api = λ request w.
      (ok (record { data_ = some (page w); error = none; status = 200; is_ok = true }), suc w);
}

abbrev query : ListSandboxesOptions
query = record { state = none; name = none; metadata = none; limit = none; cursor = none }
