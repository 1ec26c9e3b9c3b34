-- ===== src/Sdk/Http/Loop.antt =====
-- The retry loop of http.ts as a relation, with the source's own test on the attempt number.
use fissionplane.Prelude.{
  ℕ, zero, suc, ◌+◌, ◌≤◌, ◌<◌, ◌≡◌, ◌⊎◌, inl, inr, true, false, arith, Bool-cases,
}
use fissionplane.Sdk.Errors.{Thrown}
use fissionplane.Sdk.Effect.{Outcome, ok, raise, Eff, Runtime, run-cases}
use fissionplane.Sdk.Http.{CallSpec, CallInit, RequestPipeline, init, should_retry}
use fissionplane.Sdk.Http.Retry.{back_off, attempts, send}

module _ {W : Type 0} (runtime : Runtime W) {A : Type 0} (pipeline : RequestPipeline W)
    (spec : CallSpec) (run : CallInit → Eff W A) where
  -- From attempt number `k` in world `w` the loop ends with `result`.
  pub data Sends : ℕ → W → Outcome A × W → Type 0 where
    succeeds :
        {k : ℕ} {w w' : W} (a : A) → run (init spec.options) w ≡ (ok a, w') → Sends k w (ok a, w')
    gives_up :
        {k : ℕ} {w w' : W} (e : Thrown)
        → run (init spec.options) w ≡ (raise e, w')
        → (pipeline.max_retries ≤ k) ⊎ (should_retry e spec.idempotent ≡ false)
        → Sends k w (raise e, w')
    interrupted :
        {k : ℕ} {w w' w'' : W} (e reason : Thrown)
        → run (init spec.options) w ≡ (raise e, w')
        → k < pipeline.max_retries
        → should_retry e spec.idempotent ≡ true
        → back_off runtime pipeline spec e k w' ≡ (raise reason, w'')
        → Sends k w (raise reason, w'')
    retries :
        {k : ℕ} {w w' w'' : W} {result : Outcome A × W} (e : Thrown)
        → run (init spec.options) w ≡ (raise e, w')
        → k < pipeline.max_retries
        → should_retry e spec.idempotent ≡ true
        → back_off runtime pipeline spec e k w' ≡ (ok tt, w'')
        → Sends (suc k) w'' result
        → Sends k w result

  attempts-Sends :
      (budget k : ℕ) (w : W)
      → k + budget ≡ pipeline.max_retries
      → Sends k w (attempts runtime pipeline spec run budget k w)
  unfolding attempts
  attempts-Sends zero k w spent = elim (run-cases (run (init spec.options) w)) [
    | inl (a, w', e) ↦ rw (e, attempts) (succeeds a e)
    | inr (x, w', e) ↦ rw (e, attempts) (gives_up x e (inl (omega arith)))
  ]
  attempts-Sends (suc budget) k w spent = elim (run-cases (run (init spec.options) w)) [
    | inl (a, w', e) ↦ rw (e, attempts) (succeeds a e)
    | inr (x, w', e) ↦ elim (Bool-cases (should_retry x spec.idempotent)) [
      | inr final ↦ rw (e, attempts, final) (gives_up x e (inr final))
      | inl again ↦ elim (run-cases (back_off runtime pipeline spec x k w')) [
        | inl (_, w'', slept) ↦
            rw (e, attempts, again, slept)
              (retries x e (omega arith) again slept
                (attempts-Sends budget (suc k) w'' (omega arith)))
        | inr (reason, w'', cut) ↦
            rw (e, attempts, again, cut) (interrupted x reason e (omega arith) again cut)
      ]
    ]
  ]

  -- `send` ends, and what it returns is what the loop of the source returns from attempt 0.
  pub send-Sends : (w : W) → Sends 0 w (send runtime pipeline spec run w)
  unfolding send
  send-Sends w = attempts-Sends pipeline.max_retries 0 w (omega arith)
