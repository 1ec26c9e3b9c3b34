-- ===== src/Sdk/Http/Keeping.antt =====
-- http.ts: what a call leaves alone. A part of the world that neither the attempts nor the runtime
-- change is the same after the retry loop.
use fissionplane.Prelude.{ℕ, ◌≡◌, ◌∙◌, arith, String, Option}
use fissionplane.Sdk.Errors.{Thrown}
use fissionplane.Sdk.Effect.{Outcome, Eff, Runtime, Signal}
use fissionplane.Sdk.Http.{CallSpec, CallInit, RequestPipeline, init, debug, retry_delay, signal_of}
use fissionplane.Sdk.Http.Retry.{send, back_off, sleep, retry_message}
use fissionplane.Sdk.Http.Loop.{Sends, succeeds, gives_up, interrupted, retries, send-Sends}

module _ {W X A : Type 0} (part : W → X) (runtime : Runtime W) (pipeline : RequestPipeline W)
    (spec : CallSpec) (run : CallInit → Eff W A)
    (running : (w : W) → part (run (init spec.options) w).1 ≡ part w)
    (waiting : (d : ℕ) (s : Option Signal) (w : W) → part (runtime.wait d s w).1 ≡ part w)
    (drawing : (w : W) → part (runtime.random w).1 ≡ part w)
    (logging : (m : String) (w : W) → part (debug pipeline.logger m w).1 ≡ part w) where
  sleep_keeps : (d : ℕ) (s : Option Signal) (w : W) → part (sleep runtime d s w).1 ≡ part w
  unfolding sleep
  sleep_keeps d s w = ground (arith, waiting d s w)

  back_off_keeps :
      (e : Thrown) (k : ℕ) (w : W) → part (back_off runtime pipeline spec e k w).1 ≡ part w
  unfolding back_off
  back_off_keeps e k w =
      let drawn = (runtime.random w).0 in
      let w₁ = (runtime.random w).1 in
      let message = retry_message pipeline spec e (retry_delay drawn k) k in
      let w₂ = (debug pipeline.logger message w₁).1 in
      let slept = sleep_keeps (retry_delay drawn k) (signal_of spec.options) w₂ in
      ground (arith, drawing w, logging message w₁, slept)

  Sends-keeps :
      {k : ℕ} {w : W} {result : Outcome A × W}
      → Sends runtime pipeline spec run k w result
      → part result.1 ≡ part w
  Sends-keeps {w = w} (succeeds a e) = rw e at (running w)
  Sends-keeps {w = w} (gives_up x e final) = rw e at (running w)
  Sends-keeps {k} {w} (interrupted {w' = w'} x reason e more again slept) =
      let one = rw e at (running w) in let two = rw slept at (back_off_keeps x k w') in two ∙ one
  Sends-keeps {k} {w} (retries {w' = w'} x e more again slept rest) =
      let one = rw e at (running w) in
      let two = rw slept at (back_off_keeps x k w') in Sends-keeps rest ∙ (two ∙ one)

  pub send-keeps : (w : W) → part (send runtime pipeline spec run w).1 ≡ part w
  send-keeps w = Sends-keeps (send-Sends runtime pipeline spec run w)
