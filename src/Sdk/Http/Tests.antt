-- ===== src/Sdk/Http/Tests.antt =====
-- Runs of the retry loop. The world counts the requests; the first two fail in transit.
use fissionplane.Prelude.{ℕ, suc, ◌+◌, ◌≤◌, ◌≡◌, refl, true, false, none, ltb, arith, if◌then◌else◌}
use fissionplane.Sdk.Errors.{type_error}
use fissionplane.Sdk.Effect.{ok, raise, Eff, Runtime}
use fissionplane.Sdk.Http.{
  CallSpec, CallInit, RequestPipeline, init, debug, should_retry, signal_of,
}
use fissionplane.Sdk.Http.Retry.{send, back_off}
use fissionplane.Sdk.Http.Loop.{Sends, send-Sends}
use fissionplane.Sdk.Http.Replay.{send_not_idempotent}

abbrev clockwork : Runtime ℕ
clockwork = record {
  aborted = λ s w. none;
  wait = λ d s w. (none, w);
  random = λ w. (7, w);
  now = λ w. (0, w);
}

abbrev flaky : CallInit → Eff ℕ ℕ
flaky i w = if ltb w 2 then (raise (type_error "fetch failed"), suc w) else (ok w, suc w)

abbrev reading : CallSpec
reading = record { operation = "GET /files"; idempotent = true; options = none }

abbrev moving : CallSpec
moving = record { operation = "POST /files/move"; idempotent = false; options = none }

abbrev defaults : RequestPipeline ℕ
defaults = record { request_timeout_ms = 60000; max_retries = 2; logger = record { debug = none } }

third_succeeds : send clockwork defaults reading flaky 0 ≡ (ok 2, 3)
unfolding send back_off should_retry debug signal_of
third_succeeds = refl

send-Sends_example :
    Sends clockwork defaults reading flaky 0 0 (send clockwork defaults reading flaky 0)
send-Sends_example = send-Sends clockwork defaults reading flaky 0

send_not_idempotent_example :
    send clockwork defaults moving flaky 0 ≡ (raise (type_error "fetch failed"), 1)
send_not_idempotent_example = send_not_idempotent clockwork defaults moving flaky 0 refl

flaky-le : (w : ℕ) → (flaky (init reading.options) w).1 ≤ w + 1
flaky-le w = ground arith
