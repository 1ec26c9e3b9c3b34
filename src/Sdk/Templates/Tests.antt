-- ===== src/Sdk/Templates/Tests.antt =====
-- A build that succeeds at the third poll, with a clock that sleeping advances.
use fissionplane.Prelude.{
  ℕ, suc, ◌+◌, ◌≤◌, ◌≡◌, refl, ap, inl, inr, true, Option, some, none, ltb, arith, if◌then◌else◌,
}
use fissionplane.Sdk.Value.{Value, text, object, end, field, property}
use fissionplane.Sdk.Effect.{ok, run-cases}
use fissionplane.Sdk.Sandbox.Handle.{read_items-world}
use fissionplane.Sdk.Http.{debug}
use fissionplane.Sdk.Http.Retry.{send}
use fissionplane.Sdk.Http.Keeping.{send-keeps}
use fissionplane.Sdk.Api.{ApiRequest, call_api, unwrap}
use fissionplane.Sdk.DataPlane.Requests.{read_items}
use fissionplane.Sdk.Templates.{
  TemplateBuild, WaitForBuildOptions, wait, polls, settle, refresh, fetch, attempt, is_status,
  past_deadline, deadline_of,
}
use fissionplane.Sdk.Templates.Waiting.{has_ended, wait-has_ended}
use fissionplane.Sdk.Templates.Results.{Ends, wait-Ends}

-- The info, the count of polls and the time.
abbrev Cell : Type 0
Cell = Option Value × (ℕ × ℕ)

abbrev status : ℕ → Value
status polls_ = object (
    field "build_id" (text "b1")
      (field "status" (text (if ltb polls_ 2 then "building" else "succeeded")) end))

abbrev build : TemplateBuild Cell
build = record {
  plane = record {
    runtime = record {
      aborted = λ s w. none;
      wait = λ d s w. (none, w);
      random = λ w. (7, w);
      now = λ w. (w.1.1, w);
    };
    requests = record {
      request_timeout_ms = 60000;
      max_retries = 2;
      logger = record { debug = none };
    };
    api = λ request (info, (polled, now)). (
      ok (record { data_ = some (status polled); error = none; status = 200; is_ok = true }),
      (info, (suc polled, now)),
    );
  };
  info = λ w. w.0;
  set_info = λ info w. (info, w.1);
  sleep = λ ms (info, (polled, now)). (ok tt, (info, (polled, now + ms)));
  render = λ v. "";
}

abbrev start : Cell
start = (some (status 0), (0, 0))

abbrev options : WaitForBuildOptions
options = record { request = none; poll_interval_ms = some 10; timeout_ms = some 50 }

third_poll : wait build 4 options start ≡ (ok (some (some (status 2))), (some (status 2), (3, 20)))
unfolding wait polls settle refresh fetch attempt is_status past_deadline deadline_of send call_api
    unwrap read_items property
third_poll = refl

wait-Ends_example : Ends build (wait build 4 options start)
wait-Ends_example = wait-Ends build (λ v w. refl) 4 options start

attempt_time :
    (request : Option Value → ApiRequest) (w : Cell) → (attempt build request w).1.1.1 ≡ w.1.1
unfolding attempt call_api
attempt_time request w =
    let same = read_items-world "build_id" w.0 w in
    elim (run-cases (read_items "build_id" w.0 w)) [
      | inl (id, w', e) ↦ let same' : w' ≡ w = rw e at same in rw e (ap (λ v. v.1.1) same')
      | inr (x, w', e) ↦ let same' : w' ≡ w = rw e at same in rw e (ap (λ v. v.1.1) same')
    ]

fetch_time : (w : Cell) → (fetch build none w).1.1.1 ≡ w.1.1
unfolding fetch debug
fetch_time w =
    send-keeps (λ v. v.1.1) build.plane.runtime build.plane.requests _ _ (λ v. attempt_time _ v)
      (λ d s v. refl) (λ v. refl) (λ m v. refl) w

refresh_time : (w : Cell) → w.1.1 ≤ (refresh build none w).1.1.1
unfolding refresh
refresh_time w =
    let same = fetch_time w in
    elim (run-cases (fetch build none w)) [
      | inl (info, w', e) ↦ let same' : w'.1.1 ≡ w.1.1 = rw e at same in rw e (omega arith)
      | inr (x, w', e) ↦ let same' : w'.1.1 ≡ w.1.1 = rw e at same in rw e (omega arith)
    ]

wait-has_ended_example :
    has_ended (
      wait build 51
        (record { request = none; poll_interval_ms = some 10; timeout_ms = some 50 })
        start)
    ≡ true
wait-has_ended_example =
    wait-has_ended build (λ w. w.1.1) none refresh_time (λ w. omega arith) (λ w. omega arith)
      (λ ms w. omega arith) 50 10 50 start (omega arith) refl (omega arith)
