-- ===== src/Sdk/Sandbox/Tests.antt =====
-- A handle over a control plane that answers every call but a pause.
use fissionplane.Prelude.{ℕ, suc, refl, Option, some, none, ◌==◌, if◌then◌else◌, true, false, arith}
use fissionplane.Sdk.Value.{Value, text, object, end, field}
use fissionplane.Sdk.Effect.{ok}
use fissionplane.Sdk.Http.{debug}
use fissionplane.Sdk.Api.{ApiRequest, ApiResult}
use fissionplane.Sdk.Sandbox.{ControlPlane, SandboxHandle, resume}
use fissionplane.Sdk.Sandbox.Handle.{IsStore, Resumes, resume_call, resume-Resumes}
use fissionplane.Sdk.Sandbox.Create.{IsCounter}
use fissionplane.Sdk.Sandbox.Listing.{ListSandboxesOptions}

-- The info, the token and the count of requests.
abbrev Cell : Type 0
Cell = Option Value × (Option Value × ℕ)

abbrev body : Value
body =
    object (
      field "sandbox" (object (field "sandbox_id" (text "s1") end)) (field "token" (text "t1") end))

abbrev answer : ApiRequest → ApiResult
answer request =
    if request.path == "/v1/sandboxes/{sandboxId}/pause"
    then record { data_ = none; error = none; status = 409; is_ok = false }
    else record { data_ = some body; error = none; status = 200; is_ok = true }

abbrev plane : ControlPlane Cell
plane = record {
  runtime = record {
    aborted = λ s w. none;
    wait = λ d s w. (none, w);
    random = λ w. (7, w);
    now = λ w. (0, w);
  };
  requests = record {
    request_timeout_ms = 60000;
    max_retries = 2;
    logger = record { debug = none };
  };
  api = λ request (info, (token, sends)). (ok (answer request), (info, (token, suc sends)));
}

abbrev handle : SandboxHandle Cell
handle = record {
  plane = plane;
  info = λ w. w.0;
  set_info = λ info w. (info, w.1);
  token = λ w. w.1.0;
  set_token = λ token w. (w.0, (token, w.1.1));
}

handle_IsStore : IsStore handle
unfolding debug
handle_IsStore = record {
  info_back = λ v w. refl;
  token_back = λ v w. refl;
  info-set_token = λ v w. refl;
  token-set_info = λ v w. refl;
  info_kept = record {
    by_api = λ r w. refl;
    waiting = λ d s w. refl;
    drawing = λ w. refl;
    logging = λ m w. refl;
  };
  token_kept = record {
    by_api = λ r w. refl;
    waiting = λ d s w. refl;
    drawing = λ w. refl;
    logging = λ m w. refl;
  };
}

abbrev start : Cell
start = (some (object (field "sandbox_id" (text "s1") end)), (none, 0))

resume-Resumes_example :
    Resumes handle (resume_call handle none none) start (resume handle none none start)
resume-Resumes_example = resume-Resumes handle handle_IsStore none none start

counter : IsCounter plane (λ w. w.1.1)
unfolding debug
counter = record {
  by_api = λ r (info, (token, sends)). omega arith;
  waiting = λ d s w. refl;
  drawing = λ w. refl;
  logging = λ m w. refl;
}

abbrev first_page : ListSandboxesOptions
first_page = record { state = none; name = none; metadata = none; limit = none; cursor = none }
