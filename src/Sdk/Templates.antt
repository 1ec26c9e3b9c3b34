-- ===== src/Sdk/Templates.antt =====
-- src/sdks/typescript/src/templates.ts: one template build, its polling loop, and the calls on templates.
pub mod Waiting
pub mod Results
pub mod Operations
pub mod Budget
mod Tests
use Prim.Native.String.{◌++◌}
use fissionplane.Prelude.{
  ℕ, zero, suc, ◌+◌, Bool, true, false, String, Option, some, none, or_else, leb, decimal, ◌==◌,
  if◌then◌else◌,
}
use fissionplane.Sdk.Value.{Value, null, text, object, Fields, end, field, property, as_text}
use fissionplane.Sdk.Errors.{Thrown, fission, plain_error, template_build_error}
use fissionplane.Sdk.Effect.{Eff, ◌>>=◌, ◌>>◌, pure, throw}
use fissionplane.Sdk.Http.{CallSpec, CallInit, RequestOptions}
use fissionplane.Sdk.Http.Retry.{send}
use fissionplane.Sdk.Api.{ApiRequest, call_api, plain_request, with_field}
use fissionplane.Sdk.DataPlane.Requests.{read_items}
use fissionplane.Sdk.Sandbox.{ControlPlane, control}

-- One TemplateBuild object: its field `info` lives in the world; `sleep` is the function that the
-- constructor is given, and `render` the conversion of a value to a text in a template literal.
pub record TemplateBuild (W : Type 0) : Type 0 where
  pub plane : ControlPlane W
  pub info : W → Option Value
  pub set_info : Option Value → W → W
  pub sleep : ℕ → Eff W (Unit {0})
  pub render : Option Value → String

-- A field of an answer that is no null.
abbrev pub field_of : String → Option Value → Option Value
field_of key (some (object fields)) = property key fields
field_of key _ = none

-- `value ?? undefined`.
abbrev pub nullish : Option Value → Option Value
nullish (some null) = none
nullish v = v

unfoldable pub is_status : String → Option Value → Bool
is_status name (some (text s)) = s == name
is_status name _ = false

-- WaitForBuildOptions, besides its request options.
pub record WaitForBuildOptions : Type 0 where
  pub request : Option RequestOptions
  pub poll_interval_ms : Option ℕ
  pub timeout_ms : Option ℕ

module _ {W : Type 0} (build : TemplateBuild W) where
  -- `buildId`, read again for every attempt.
  unfoldable pub attempt : (Option Value → ApiRequest) → Eff W (Option Value)
  attempt request = do
    id ← λ w. read_items "build_id" (build.info w) w
    call_api build.plane.api (request id)

  -- The request of `refresh`.
  unfoldable pub fetch : Option RequestOptions → Eff W (Option Value)
  unfolding attempt
  fetch options =
      send build.plane.runtime build.plane.requests
        (record {
          operation = "GET /v1/templates/builds/{buildId}";
          idempotent = true;
          options = options;
        })
        λ init. attempt λ id. record (plain_request "GET" "/v1/templates/builds/{buildId}" init) {
          path_params = with_field "buildId" id end;
        }

  unfoldable pub refresh : Option RequestOptions → Eff W (Option Value)
  unfolding fetch
  refresh options = do info ← fetch options; λ w. pure info (build.set_info info w)

  -- `offset` is undefined where it is `none`. The answer's `entries` and `next_offset`.
  unfoldable pub logs : Option Value → Option RequestOptions → Eff W (Option Value × Option Value)
  unfolding attempt read_items
  logs offset options = do
    page ←
        send build.plane.runtime build.plane.requests
          (record {
            operation = "GET /v1/templates/builds/{buildId}/logs";
            idempotent = true;
            options = options;
          })
          λ init. attempt λ id.
            record (plain_request "GET" "/v1/templates/builds/{buildId}/logs" init) {
              path_params = with_field "buildId" id end;
              query = with_field "offset" offset end;
            }
    entries ← read_items "entries" page
    next_offset ← read_items "next_offset" page
    pure (entries, next_offset)

  failed_error : Option Value → Thrown
  failed_error info =
      let reason = nullish (field_of "error" info) in
      fission (
        template_build_error
          ("template build "
            ++ build.render (field_of "build_id" info)
            ++ " failed: "
            ++ build.render (some (or_else reason (text "no error reported"))))
          (as_text reason))

  late_error : ℕ → Option Value → Thrown
  late_error timeout_ms info = fission (
      plain_error (
        "template build "
        ++ build.render (field_of "build_id" info)
        ++ " did not reach a terminal status within "
        ++ decimal timeout_ms
        ++ "ms (last status: "
        ++ build.render (field_of "status" info)
        ++ "); the build keeps running — call wait() or refresh() again"))

  -- The test on the deadline: `none` where the loop goes on.
  unfoldable pub past_deadline : Option (ℕ × ℕ) → Option Value → Eff W (Unit {0})
  unfolding late_error
  past_deadline none info w = pure tt w
  past_deadline (some (timeout_ms, deadline)) info w =
      let (now, w') = build.plane.runtime.now w in
      if leb deadline now then throw (late_error timeout_ms info) w' else pure tt w'

  -- The tests on the status; `going` is the rest of the round.
  unfoldable pub settle :
      Option Value → Option Value → Eff W (Option (Option Value)) → Eff W (Option (Option Value))
  unfolding failed_error
  settle info status going =
      if is_status "succeeded" status
      then pure (some info)
      else if is_status "failed" status
      then throw (failed_error info)
      else going

  -- The loop of `wait`, for at most `fuel` rounds; `none` if they are spent. The deadline comes with
  -- the timeout that it was made of.
  unfoldable pub polls :
      ℕ → Option (ℕ × ℕ) → ℕ → Option RequestOptions → Eff W (Option (Option Value))
  unfolding settle past_deadline
  polls zero deadline interval options = pure none
  polls (suc fuel) deadline interval options = do
    info ← refresh options
    status ← read_items "status" info
    let rest = polls fuel deadline interval options
    settle info status (past_deadline deadline info >> (build.sleep interval >> rest))

  unfoldable pub deadline_of : Option ℕ → Eff W (Option (ℕ × ℕ))
  deadline_of none w = pure none w
  deadline_of (some timeout_ms) w =
      let (now, w') = build.plane.runtime.now w in pure (some (timeout_ms, now + timeout_ms)) w'

  unfoldable pub wait : ℕ → WaitForBuildOptions → Eff W (Option (Option Value))
  unfolding polls deadline_of
  wait fuel options = do
    deadline ← deadline_of options.timeout_ms
    polls fuel deadline (or_else options.poll_interval_ms 2000) options.request
