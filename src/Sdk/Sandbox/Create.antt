-- ===== src/Sdk/Sandbox/Create.antt =====
-- sandbox.ts, Sandboxes.create: when it is replayed.
use fissionplane.Prelude.{ℕ, ◌+◌, ◌≤◌, ◌≡◌, ◌∙◌, refl, inl, inr, false, String, Option, some, none}
use fissionplane.Sdk.Value.{Value}
use fissionplane.Sdk.Effect.{run-cases, Signal, ◌>>=◌, Eff, pure}
use fissionplane.Sdk.Http.{CallSpec, CallInit, RequestOptions, debug, init}
use fissionplane.Sdk.Http.Replay.{send_not_idempotent, send-le}
use fissionplane.Sdk.Api.{ApiRequest, call_api}
use fissionplane.Sdk.DataPlane.Requests.{read_items}
use fissionplane.Sdk.Sandbox.{
  ControlPlane, CreateSandboxOptions, control, create, create_spec, create_request,
}
use fissionplane.Sdk.Sandbox.Handle.{read_items-world}

-- `sends` counts the requests to the control plane: one call of the client is one at most, and nothing
-- else is any.
pub record IsCounter {W : Type 0} (plane : ControlPlane W) (sends : W → ℕ) : Type 0 where
  pub by_api : (r : ApiRequest) (w : W) → sends (plane.api r w).1 ≤ sends w + 1
  pub waiting : (d : ℕ) (s : Option Signal) (w : W) → sends (plane.runtime.wait d s w).1 ≡ sends w
  pub drawing : (w : W) → sends (plane.runtime.random w).1 ≡ sends w
  pub logging : (m : String) (w : W) → sends (debug plane.requests.logger m w).1 ≡ sends w

module _ {W : Type 0} (plane : ControlPlane W) (sends : W → ℕ)
    (counts : IsCounter plane sends) where
  call_api-le : (r : ApiRequest) (w : W) → sends (call_api plane.api r w).1 ≤ sends w + 1
  unfolding call_api
  call_api-le r w = elim (run-cases (plane.api r w)) [
    | inl (a, w', e) ↦ rw e (rw e at (counts.by_api r w))
    | inr (x, w', e) ↦ rw e (rw e at (counts.by_api r w))
  ]

  pub control_once :
      (spec : CallSpec) (build : CallInit → ApiRequest) (w : W)
      → spec.idempotent ≡ false
      → sends (control plane spec build w).1 ≤ sends w + 1
  unfolding control
  control_once spec build w h =
      rw
        (send_not_idempotent plane.runtime plane.requests spec
          (λ init. call_api plane.api (build init)) w h)
        (call_api-le (build (init spec.options)) w)

  pub control-le :
      (spec : CallSpec) (build : CallInit → ApiRequest) (w : W)
      → sends (control plane spec build w).1 ≤ sends w + (plane.requests.max_retries + 1)
  unfolding control
  control-le spec build w =
      send-le plane.runtime plane.requests spec (λ init. call_api plane.api (build init)) sends
        (λ v. call_api-le _ v) counts.waiting counts.drawing counts.logging w

  abbrev parts : Option Value → Eff W (Option Value × Option Value)
  parts result = do
    sandbox ← read_items "sandbox" result
    token ← read_items "token" result
    pure (sandbox, token)

  parts-world : (result : Option Value) (w : W) → (parts result w).1 ≡ w
  parts-world result w =
      let first = read_items-world "sandbox" result w in
      elim (run-cases (read_items "sandbox" result w)) [
        | inr (x, w', e) ↦ rw e (rw e at first)
        | inl (sandbox, w', e) ↦
            let same : w' ≡ w = rw e at first in
            let second = read_items-world "token" result w' in
            elim (run-cases (read_items "token" result w')) [
              | inr (x, w'', e') ↦ rw (e, e') ((rw e' at second) ∙ same)
              | inl (token, w'', e') ↦ rw (e, e') ((rw e' at second) ∙ same)
            ]
      ]

  parts-le :
      (m : Eff W (Option Value)) (w : W) (most : ℕ)
      → sends (m w).1 ≤ most
      → sends ((m >>= λ result. parts result) w).1 ≤ most
  parts-le m w most bound = elim (run-cases (m w)) [
    | inr (x, w', e) ↦ rw e (rw e at bound)
    | inl (result, w', e) ↦
        let bound' : sends w' ≤ most = rw e at bound in rw e (rw (parts-world result w') bound')
  ]

  -- Without an idempotency key, creating a sandbox makes one request at most, whatever the retry
  -- budget; with one it stays within that budget.
  pub create-le :
      (request : Value) (options : Option RequestOptions) (key : String) (w : W)
      → (sends (create plane request (record { request = options; idempotency_key = none }) w).1
          ≤ sends w + 1)
        × (sends
              (create plane request (record { request = options; idempotency_key = some key }) w).1
            ≤ sends w + (plane.requests.max_retries + 1))
  unfolding create
  create-le request options key w =
      let without : CreateSandboxOptions = record { request = options; idempotency_key = none } in
      let keyed : CreateSandboxOptions = record { request = options; idempotency_key = some key } in
      (
        parts-le (control plane (create_spec without) (create_request request without)) w
            (sends w + 1)
            (control_once (create_spec without) (create_request request without) w refl),
        parts-le (control plane (create_spec keyed) (create_request request keyed)) w
            (sends w + (plane.requests.max_retries + 1))
            (control-le (create_spec keyed) (create_request request keyed) w),
      )
