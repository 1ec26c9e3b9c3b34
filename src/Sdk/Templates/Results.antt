-- ===== src/Sdk/Templates/Results.antt =====
-- templates.ts, TemplateBuild.wait: what it returns.
use fissionplane.Prelude.{ℕ, zero, suc, ◌≡◌, inl, inr, true, ap, Option, some, none, Bool-cases}
use fissionplane.Sdk.Value.{Value}
use fissionplane.Sdk.Errors.{Thrown}
use fissionplane.Sdk.Effect.{Outcome, ok, raise, Eff, ◌>>◌, run-cases}
use fissionplane.Sdk.Http.{RequestOptions}
use fissionplane.Sdk.DataPlane.Requests.{read_items}
use fissionplane.Sdk.Sandbox.Handle.{read_items-world}
use fissionplane.Sdk.Templates.{
  TemplateBuild, WaitForBuildOptions, is_status, refresh, fetch, past_deadline, settle, polls,
  deadline_of, wait,
}

module _ {W : Type 0} (build : TemplateBuild W) where
  -- What a run of `wait` may end with: only an info whose status is "succeeded" is returned, and it is
  -- the one that the handle holds.
  pub data Ends : Outcome (Option (Option Value)) × W → Type 0 where
    spent : {w : W} → Ends (ok none, w)
    threw : {e : Thrown} {w : W} → Ends (raise e, w)
    succeeded :
        {info : Option Value} {w : W} (status : Option Value)
        → read_items "status" info w ≡ (ok status, w)
        → is_status "succeeded" status ≡ true
        → build.info w ≡ info
        → Ends (ok (some info), w)

  going-Ends :
      (deadline : Option (ℕ × ℕ)) (interval : ℕ) (info : Option Value)
      (rest : Eff W (Option (Option Value))) (w : W)
      → ((v : W) → Ends (rest v))
      → Ends ((past_deadline build deadline info >> (build.sleep interval >> rest)) w)
  going-Ends deadline interval info rest w goes =
      elim (run-cases (past_deadline build deadline info w)) [
        | inr (x, w', e) ↦ rw e threw
        | inl (u, w', e) ↦ elim (run-cases (build.sleep interval w')) [
          | inr (x, v, e') ↦ rw (e, e') threw
          | inl (u', v, e') ↦ rw (e, e') (goes v)
        ]
      ]

  settle-Ends :
      (info status : Option Value) (going : Eff W (Option (Option Value))) (w : W)
      → read_items "status" info w ≡ (ok status, w)
      → build.info w ≡ info
      → Ends (going w)
      → Ends (settle build info status going w)
  unfolding settle
  settle-Ends info status going w read held goes =
      elim (Bool-cases (is_status "succeeded" status)) [
        | inl done ↦ rw done (succeeded status read done held)
        | inr running ↦ elim (Bool-cases (is_status "failed" status)) [
          | inl failed ↦ rw (running, failed) threw
          | inr building ↦ rw (running, building) goes
        ]
      ]

  module _ (info_back : (v : Option Value) (w : W) → build.info (build.set_info v w) ≡ v) where
    refresh-held :
        (options : Option RequestOptions) (info : Option Value) (w w' : W)
        → refresh build options w ≡ (ok info, w')
        → build.info w' ≡ info
    unfolding refresh
    refresh-held options info w w' e = elim (run-cases (fetch build options w)) [
      | inr (x, v, e') ↦ absurd (cc (rw e' at e))
      | inl (info', v, e') ↦
          let done = rw e' at e in
          let answer : ◌≡◌ {A = Outcome (Option Value)} (ok info') (ok info) = ap (λ r. r.0) done in
          let world : build.set_info info' v ≡ w' = ap (λ r. r.1) done in
          let same : info' ≡ info = cc (answer) in rw (← world, ← same) (info_back info' v)
    ]

    polls-Ends :
        (fuel interval : ℕ) (deadline : Option (ℕ × ℕ)) (options : Option RequestOptions) (w : W)
        → Ends (polls build fuel deadline interval options w)
    unfolding polls
    polls-Ends zero interval deadline options w = spent
    polls-Ends (suc fuel) interval deadline options w = elim (run-cases (refresh build options w)) [
      | inr (x, w', e) ↦ rw e threw
      | inl (info, w', e) ↦
          let held = refresh-held options info w w' e in
          let world = read_items-world "status" info w' in
          elim (run-cases (read_items "status" info w')) [
            | inr (x, w'', e') ↦ rw (e, e') threw
            | inl (status, w'', e') ↦
                let same : w'' ≡ w' = rw e' at world in
                rw (e, e')
                  (settle-Ends info status _ w'' (rw same (rw same at e')) (rw same held) (
                    going-Ends deadline interval info _ w''
                      λ v. polls-Ends fuel interval deadline options v))
          ]
    ]

    -- Where a handle reads back the info that it stored: `wait` returns an info only if its status is
    -- "succeeded", and that info is then the handle's.
    pub wait-Ends :
        (fuel : ℕ) (options : WaitForBuildOptions) (w : W) → Ends (wait build fuel options w)
    unfolding wait
    wait-Ends fuel options w = elim (run-cases (deadline_of build options.timeout_ms w)) [
      | inr (x, w', e) ↦ rw e threw
      | inl (deadline, w', e) ↦ rw e (polls-Ends fuel _ deadline options.request w')
    ]
