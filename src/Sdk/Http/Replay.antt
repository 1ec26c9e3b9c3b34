-- ===== src/Sdk/Http/Replay.antt =====
-- http.ts: how often one logical call reaches the network.
use fissionplane.Prelude.{
  ℕ, zero, suc, ◌+◌, ◌≤◌, ◌≡◌, inl, inr, false, String, Option, arith, Bool-cases,
}
use fissionplane.Sdk.Errors.{Thrown}
use fissionplane.Sdk.Effect.{Eff, Signal, Runtime, run-cases}
use fissionplane.Sdk.Http.{
  CallSpec, CallInit, RequestPipeline, init, should_retry, debug, retry_delay, signal_of,
}
use fissionplane.Sdk.Http.Retry.{sleep, retry_message, back_off, attempts, send}

module _ {W : Type 0} (runtime : Runtime W) {A : Type 0} (pipeline : RequestPipeline W)
    (spec : CallSpec) (run : CallInit → Eff W A) where
  attempts_once :
      (budget k : ℕ) (w : W)
      → spec.idempotent ≡ false
      → attempts runtime pipeline spec run budget k w ≡ run (init spec.options) w
  unfolding attempts should_retry
  attempts_once zero k w h = elim (run-cases (run (init spec.options) w)) [
    | inl (a, w', e) ↦ rw (e, attempts)
    | inr (x, w', e) ↦ rw (e, attempts)
  ]
  attempts_once (suc budget) k w h = elim (run-cases (run (init spec.options) w)) [
    | inl (a, w', e) ↦ rw (e, attempts)
    | inr (x, w', e) ↦ rw (e, attempts, h)
  ]

  -- A call that is not idempotent makes exactly one attempt, and its outcome is that attempt's:
  -- nothing is drawn, logged or slept, whatever the failure and the retry budget.
  pub send_not_idempotent :
      (w : W)
      → spec.idempotent ≡ false
      → send runtime pipeline spec run w ≡ run (init spec.options) w
  unfolding send
  send_not_idempotent w h = attempts_once pipeline.max_retries 0 w h

  -- `requests` counts what reached the network; timers, random numbers and the log add nothing.
  module _ (requests : W → ℕ)
      (one : (w : W) → requests (run (init spec.options) w).1 ≤ requests w + 1)
      (waiting : (d : ℕ) (s : Option Signal) (w : W) → requests (runtime.wait d s w).1 ≡ requests w)
      (drawing : (w : W) → requests (runtime.random w).1 ≡ requests w)
      (logging : (m : String) (w : W) → requests (debug pipeline.logger m w).1 ≡ requests w) where
    sleep_quiet :
        (d : ℕ) (s : Option Signal) (w : W) → requests (sleep runtime d s w).1 ≡ requests w
    unfolding sleep
    sleep_quiet d s w = ground (arith, waiting d s w)

    back_off_quiet :
        (e : Thrown) (k : ℕ) (w : W)
        → requests (back_off runtime pipeline spec e k w).1 ≡ requests w
    unfolding back_off
    back_off_quiet e k w =
        let drawn = (runtime.random w).0 in
        let w₁ = (runtime.random w).1 in
        let message = retry_message pipeline spec e (retry_delay drawn k) k in
        let w₂ = (debug pipeline.logger message w₁).1 in
        let slept = sleep_quiet (retry_delay drawn k) (signal_of spec.options) w₂ in
        ground (arith, drawing w, logging message w₁, slept)

    attempts-le :
        (budget k : ℕ) (w : W)
        → requests (attempts runtime pipeline spec run budget k w).1 ≤ requests w + (budget + 1)
    unfolding attempts
    attempts-le zero k w = elim (run-cases (run (init spec.options) w)) [
      | inl (a, w', e) ↦ let step = one w in rw (e, attempts) (rw e at step)
      | inr (x, w', e) ↦ let step = one w in rw (e, attempts) (rw e at step)
    ]
    attempts-le (suc budget) k w = elim (run-cases (run (init spec.options) w)) [
      | inl (a, w', e) ↦
          let step : requests w' ≤ requests w + 1 = rw e at (one w) in
          rw (e, attempts) (omega arith)
      | inr (x, w', e) ↦
          let step : requests w' ≤ requests w + 1 = rw e at (one w) in
          elim (Bool-cases (should_retry x spec.idempotent)) [
            | inr final ↦ rw (e, attempts, final) (omega arith)
            | inl again ↦ elim (run-cases (back_off runtime pipeline spec x k w')) [
              | inl (_, w'', slept) ↦
                  let quiet : requests w'' ≡ requests w' = rw slept at (back_off_quiet x k w') in
                  rw (e, attempts, again, slept) (omega (arith, attempts-le budget (suc k) w''))
              | inr (reason, w'', cut) ↦
                  let quiet : requests w'' ≡ requests w' = rw cut at (back_off_quiet x k w') in
                  rw (e, attempts, again, cut) (omega arith)
            ]
          ]
    ]

    -- `send` makes at most one attempt more than the retry budget, if neither the timers, nor the
    -- draws, nor the log make requests and one attempt makes one at most.
    pub send-le :
        (w : W)
        → requests (send runtime pipeline spec run w).1 ≤ requests w + (pipeline.max_retries + 1)
    unfolding send
    send-le w = attempts-le pipeline.max_retries 0 w
