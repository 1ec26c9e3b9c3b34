-- ===== src/Sdk/Http/Retry.antt =====
-- http.ts, sleep and RequestPipeline.send: one logical call, replayed while that is safe.
use Prim.Native.String.{◌++◌}
use fissionplane.Prelude.{ℕ, zero, suc, ◌+◌, String, Option, none, some, if◌then◌else◌, decimal}
use fissionplane.Sdk.Errors.{Thrown}
use fissionplane.Sdk.Effect.{Outcome, ok, raise, Eff, ◌>>=◌, ◌>>◌, catch, throw, Signal, Runtime}
use fissionplane.Sdk.Http.{
  CallSpec, CallInit, RequestPipeline, init, signal_of, should_retry, describe, retry_delay,
  round_delay, debug,
}

pub retry_message : {W : Type 0} → RequestPipeline W → CallSpec → Thrown → ℕ → ℕ → String
retry_message pipeline spec error delay attempt =
    spec.operation
    ++ " failed ("
    ++ describe error
    ++ "); retrying in "
    ++ decimal (round_delay delay)
    ++ "ms (attempt "
    ++ decimal (attempt + 2)
    ++ " of "
    ++ decimal (pipeline.max_retries + 1)
    ++ ")"

module _ {W : Type 0} (runtime : Runtime W) where
  woken : Option Thrown × W → Outcome (Unit {0}) × W
  woken (none, w) = (ok tt, w)
  woken (some reason, w) = (raise reason, w)

  fired : Option Signal → W → Option Thrown
  fired none w = none
  fired (some signal) w = runtime.aborted signal w

  -- A signal that has fired already rejects at once, without a timer.
  unfoldable pub sleep : ℕ → Option Signal → Eff W (Unit {0})
  unfolding woken fired
  sleep delay signal w = elim (fired signal w) [
    | none ↦ woken (runtime.wait delay signal w)
    | some reason ↦ (raise reason, w)
  ]

  draw : Eff W ℕ
  draw w = let (drawn, w') = runtime.random w in (ok drawn, w')

  -- The part of the loop between a retryable failure and the next attempt.
  unfoldable pub back_off : RequestPipeline W → CallSpec → Thrown → ℕ → Eff W (Unit {0})
  unfolding draw sleep
  back_off pipeline spec error attempt = do
    drawn ← draw
    let delay = retry_delay drawn attempt
    debug pipeline.logger (retry_message pipeline spec error delay attempt)
    sleep delay (signal_of spec.options)

  module _ {A : Type 0} (pipeline : RequestPipeline W) (spec : CallSpec)
      (run : CallInit → Eff W A) where
    -- The loop. `budget` is maxRetries - attempt, so `attempt >= maxRetries` is `budget` at zero.
    unfoldable pub attempts : ℕ → ℕ → Eff W A
    attempts zero attempt = catch (run (init spec.options)) throw
    attempts (suc budget) attempt =
        let again = attempts budget (suc attempt) in
        catch (run (init spec.options)) λ error.
          if should_retry error spec.idempotent
          then back_off pipeline spec error attempt >> again
          else throw error

    unfoldable pub send : Eff W A
    unfolding attempts
    send = attempts pipeline.max_retries 0
