-- ===== src/Sdk/Http/Fetch.antt =====
-- http.ts, createHttpFetch: the headers of a request, its time limit, and the race between the
-- transport, the timer and the caller's signal.
pub mod Race
pub mod Plans
mod Tests
use Prim.Native.String.{◌++◌}
use fissionplane.Prelude.{
  ℕ, Bool, true, false, String, Option, none, some, List, [], ◌∷◌, ltb, not, ◌||◌, decimal,
  if◌then◌else◌, is_some,
}
use fissionplane.Web.Headers.{WebHeaders, ◌>>=◌}
use fissionplane.Sdk.Errors.{Thrown, fission, plain_error}
use fissionplane.Sdk.Effect.{Outcome, ok, raise}
use fissionplane.Sdk.Api.{user_agent}

-- The names of the headers in lower case, as the Fetch API compares them.
abbrev pub default_fields : List (String × String)
default_fields = ("user-agent", user_agent) ∷ []

abbrev pub timeout_name : String
timeout_name = "x-fissionplane-request-timeout-ms"

-- `Number(text)`: `none` if it is not finite or not above zero; else the limit in milliseconds, as
-- the timer takes it, and as a template literal prints it.
pub record Limit : Type 0 where
  pub ms : ℕ
  pub printed : String

abbrev pub limit_of : ℕ → Option Limit
limit_of ms = if ltb 0 ms then some (record { ms = ms; printed = decimal ms }) else none

module _ {H : Type 0} (web : WebHeaders H) where
  -- The loop over the default headers.
  unfoldable pub fill : List (String × String) → H → Option H
  fill [] headers = some headers
  fill ((name, value) ∷ rest) headers =
      let kept = fill rest headers in
      let added = web.set headers name value >>= (λ filled. fill rest filled) in
      if web.has headers name then kept else added

  -- The override that the pipeline sent along, if there is one.
  unfoldable pub limit_for : (String → Option Limit) → ℕ → Option String → Option Limit
  limit_for number request_timeout_ms none = limit_of request_timeout_ms
  limit_for number request_timeout_ms (some text) = number text

  -- The headers that go out, and the limit; `none` where a `set` throws. `number` is `Number(text)`.
  unfoldable pub prepare :
      (number : String → Option Limit) (request_timeout_ms : ℕ) → H → Option (H × Option Limit)
  unfolding fill limit_for
  prepare number request_timeout_ms headers = do
    filled ← fill default_fields (web.delete headers timeout_name)
    some (filled, limit_for number request_timeout_ms (web.get headers timeout_name))

-- One request with a limit, in flight: the outcome of the race, whether the timer runs, whether the
-- caller's signal is listened to, and the reason with which `deadline` was aborted.
pub record Flight (R : Type 0) : Type 0 where
  pub outcome : Option (Outcome R)
  pub timer : Bool
  pub listening : Bool
  pub aborted : Option Thrown

pub data Event (R : Type 0) : Type 0 where
  responds : R → Event R
  breaks : Thrown → Event R
  expires : Event R
  aborts : Thrown → Event R

pub timeout_error : String → Limit → Thrown
timeout_error url limit =
    fission
      (record (plain_error ("request to " ++ url ++ " timed out after " ++ limit.printed ++ "ms")) {
        code = some "request_timeout";
        retryable = true;
      })

abbrev pub first_reason : Option Thrown → Thrown → Option Thrown
first_reason (some reason) new_reason = some reason
first_reason none new_reason = some new_reason

module _ {R : Type 0} where
  -- `already` is the reason of the caller's signal, if it has fired before the request starts.
  unfoldable pub depart : Option Thrown → Flight R
  depart already = record {
    outcome = none;
    timer = true;
    listening = not (is_some already);
    aborted = already;
  }

  -- The first of the two promises that settles decides, and `finally` releases timer and listener.
  unfoldable pub settle : Outcome R → Flight R → Flight R
  settle result f =
      if is_some f.outcome
      then f
      else record f { outcome = some result; timer = false; listening = false }

  -- The timer's callback; `gone` is the reason of an `abort()` without one.
  unfoldable pub expire : Thrown → Thrown → Flight R → Flight R
  unfolding settle
  expire late gone f =
      if f.timer
      then settle (raise late) (record f { aborted = first_reason f.aborted gone })
      else f

  unfoldable pub abort : Thrown → Flight R → Flight R
  abort reason f =
      if f.listening
      then record f { listening = false; aborted = first_reason f.aborted reason }
      else f

  module _ (url : String) (limit : Limit) (gone : Thrown) where
    unfoldable pub fly : Event R → Flight R → Flight R
    unfolding timeout_error expire abort settle
    fly (responds r) f = settle (ok r) f
    fly (breaks e) f = settle (raise e) f
    fly expires f = expire (timeout_error url limit) gone f
    fly (aborts reason) f = abort reason f

    unfoldable pub race : List (Event R) → Flight R → Flight R
    race [] f = f
    race (e ∷ es) f = race es (fly e f)
