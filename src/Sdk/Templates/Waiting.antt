-- ===== src/Sdk/Templates/Waiting.antt =====
-- templates.ts, TemplateBuild.wait: when it ends, and with what.
use fissionplane.Prelude.{
  ℕ, zero, suc, ◌+◌, ◌≤◌, ◌<◌, ◌≡◌, refl, sym, ap, inl, inr, Bool, true, false, Option, some, none,
  leb, arith, Bool-cases,
}
use fissionplane.Sdk.Value.{Value}
use fissionplane.Sdk.Effect.{Outcome, ok, raise, Eff, ◌>>◌, run-cases}
use fissionplane.Sdk.Http.{RequestOptions}
use fissionplane.Sdk.DataPlane.Requests.{read_items}
use fissionplane.Sdk.Sandbox.Handle.{read_items-world}
use fissionplane.Sdk.Templates.{
  TemplateBuild, is_status, refresh, past_deadline, settle, polls, deadline_of, wait,
}

-- The run ended before its fuel was spent.
abbrev pub has_ended : {W : Type 0} → Outcome (Option (Option Value)) × W → Bool
has_ended (ok none, w) = false
has_ended (ok (some info), w) = true
has_ended (raise e, w) = true

module _ {W : Type 0} (build : TemplateBuild W) (clock : W → ℕ) (options : Option RequestOptions)
    (refreshing : (w : W) → clock w ≤ clock (refresh build options w).1)
    (reading : (w : W) → clock w ≤ (build.plane.runtime.now w).0)
    (passing : (w : W) → (build.plane.runtime.now w).0 ≤ clock (build.plane.runtime.now w).1)
    (sleeping : (ms : ℕ) (w : W) → clock w + ms ≤ clock (build.sleep ms w).1) where
  past_deadline-ok :
      (timeout_ms deadline : ℕ) (info : Option Value) (w w' : W) (u : Unit {0})
      → past_deadline build (some (timeout_ms, deadline)) info w ≡ (ok u, w')
      → ((build.plane.runtime.now w).0 < deadline) × (w' ≡ (build.plane.runtime.now w).1)
  unfolding past_deadline
  past_deadline-ok timeout_ms deadline info w w' u e =
      elim (Bool-cases (leb deadline (build.plane.runtime.now w).0)) [
        | inl late ↦ absurd (cc (rw late at e))
        | inr early ↦
            let same : w' ≡ (build.plane.runtime.now w).1 = ap (λ r. r.1) (sym (rw early at e)) in
            (ground (arith, early), same)
      ]

  going-has_ended :
      (timeout_ms deadline interval : ℕ) (info : Option Value)
      (rest : Eff W (Option (Option Value))) (w : W)
      → ((v : W)
          → (build.plane.runtime.now w).0 < deadline
          → clock w + interval ≤ clock v
          → has_ended (rest v) ≡ true)
      → has_ended (
          (past_deadline build (some (timeout_ms, deadline)) info >> (build.sleep interval >> rest))
            w)
        ≡ true
  going-has_ended timeout_ms deadline interval info rest w goes =
      elim (run-cases (past_deadline build (some (timeout_ms, deadline)) info w)) [
        | inr (x, w', e) ↦ rw e refl
        | inl (u, w', e) ↦
            let (early, same) = past_deadline-ok timeout_ms deadline info w w' u e in
            elim (run-cases (build.sleep interval w')) [
              | inr (x, v, e') ↦ rw (e, e') refl
              | inl (u', v, e') ↦
                  let slept : clock w' + interval ≤ clock v = rw e' at (sleeping interval w') in
                  let read : clock w ≤ clock w' = rw same (omega (arith, reading w, passing w)) in
                  rw (e, e') (goes v early (omega arith))
            ]
      ]

  settle-has_ended :
      (info status : Option Value) (going : Eff W (Option (Option Value))) (w : W)
      → has_ended (going w) ≡ true
      → has_ended (settle build info status going w) ≡ true
  unfolding settle
  settle-has_ended info status going w goes = elim (Bool-cases (is_status "succeeded" status)) [
    | inl done ↦ rw done refl
    | inr running ↦ elim (Bool-cases (is_status "failed" status)) [
      | inl failed ↦ rw (running, failed) refl
      | inr building ↦ rw (running, building) goes
    ]
  ]

  round-has_ended :
      (fuel timeout_ms deadline interval : ℕ) (w : W)
      → ((v : W) (now : ℕ)
          → clock w ≤ now
          → now < deadline
          → clock w + interval ≤ clock v
          → has_ended (polls build fuel (some (timeout_ms, deadline)) interval options v) ≡ true)
      → has_ended (polls build (suc fuel) (some (timeout_ms, deadline)) interval options w) ≡ true
  unfolding polls
  round-has_ended fuel timeout_ms deadline interval w goes =
      elim (run-cases (refresh build options w)) [
        | inr (x, w', e) ↦ rw e refl
        | inl (info, w', e) ↦
            let refreshed : clock w ≤ clock w' = rw e at (refreshing w) in
            let world = read_items-world "status" info w' in
            elim (run-cases (read_items "status" info w')) [
              | inr (x, w'', e') ↦ rw (e, e') refl
              | inl (status, w'', e') ↦
                  let same : w'' ≡ w' = rw e' at world in
                  let refreshed' : clock w ≤ clock w'' = rw same refreshed in
                  rw (e, e')
                    (settle-has_ended info status _ w'' (
                      going-has_ended timeout_ms deadline interval info _ w'' λ v early slept.
                        goes v (build.plane.runtime.now w'').0 (omega (arith, reading w'')) early
                          (omega arith)))
            ]
      ]

  polls-has_ended :
      (fuel timeout_ms deadline interval : ℕ) (w : W)
      → 0 < interval
      → deadline ≤ clock w + fuel
      → has_ended (polls build (suc fuel) (some (timeout_ms, deadline)) interval options w) ≡ true
  polls-has_ended zero timeout_ms deadline interval w positive near =
      round-has_ended zero timeout_ms deadline interval w
        λ v now late early slept. absurd (omega arith)
  polls-has_ended (suc fuel) timeout_ms deadline interval w positive near =
      round-has_ended (suc fuel) timeout_ms deadline interval w λ v now late early slept.
        polls-has_ended fuel timeout_ms deadline interval v positive (omega arith)

  -- With a timeout and a polling interval that is not zero, `wait` ends: as many rounds as the timeout
  -- has milliseconds, and one more, are enough, if a refresh does not turn the clock back, the clock
  -- is read as it stands, and a sleep takes its time.
  pub wait-has_ended :
      (timeout_ms interval fuel : ℕ) (w : W)
      → 0 < interval
      → clock (build.plane.runtime.now w).1 ≡ (build.plane.runtime.now w).0
      → timeout_ms ≤ fuel
      → has_ended (
          wait build
            (suc fuel)
            (record {
              request = options;
              poll_interval_ms = some interval;
              timeout_ms = some timeout_ms;
            })
            w)
        ≡ true
  unfolding wait deadline_of
  wait-has_ended timeout_ms interval fuel w positive exact enough =
      polls-has_ended fuel timeout_ms ((build.plane.runtime.now w).0 + timeout_ms) interval
        (build.plane.runtime.now w).1 positive (omega (arith, exact, enough))
