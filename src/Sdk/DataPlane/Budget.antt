-- ===== src/Sdk/DataPlane/Budget.antt =====
-- How many requests one method call makes to the agent.
use fissionplane.Prelude.{
  ℕ, ◌+◌, ◌*◌, ◌≤◌, ◌≡◌, refl, false, String, Option, some, none, arith, inl, inr,
}
use fissionplane.Sdk.Value.{Value, null, boolean, number, text, array, object}
use fissionplane.Sdk.Effect.{Eff, Signal, run-cases}
use fissionplane.Sdk.Http.{CallSpec, CallInit, debug}
use fissionplane.Sdk.Api.{ApiRequest, call_api}
use fissionplane.Sdk.DataPlane.{CapabilityToken}
use fissionplane.Sdk.DataPlane.Calls.{Connection, DataPlaneClient}
use fissionplane.Sdk.DataPlane.CallLaws.{call-le, call_not_idempotent-le}
use fissionplane.Sdk.DataPlane.Requests.{request, request_items, read_items}

-- `sends` counts the requests to the agent: one request of the transport is one at most, and nothing
-- else is any.
pub record IsCounter {W : Type 0} (c : Connection W) (sends : W → ℕ) : Type 0 where
  pub transporting :
      (client : DataPlaneClient) (r : ApiRequest) (w : W)
      → sends (c.transport client r w).1 ≤ sends w + 1
  pub storing :
      (client : DataPlaneClient) (token : String) (w : W)
      → sends (c.set_client client token w) ≡ sends w
  pub waiting : (d : ℕ) (s : Option Signal) (w : W) → sends (c.runtime.wait d s w).1 ≡ sends w
  pub drawing : (w : W) → sends (c.runtime.random w).1 ≡ sends w
  pub logging : (m : String) (w : W) → sends (debug c.requests.logger m w).1 ≡ sends w
  pub minting :
      (mint : Eff W CapabilityToken) (w : W)
      → c.sandbox.mint_token ≡ some mint
      → sends (mint w).1 ≡ sends w

module _ {W : Type 0} (c : Connection W) (sends : W → ℕ) (counts : IsCounter c sends) where
  call_api-le :
      (client : DataPlaneClient) (r : ApiRequest) (w : W)
      → sends (call_api (c.transport client) r w).1 ≤ sends w + 1
  unfolding call_api
  call_api-le client r w = elim (run-cases (c.transport client r w)) [
    | inl (a, w', e) ↦
        let one : sends w' ≤ sends w + 1 = rw e at (counts.transporting client r w) in rw e one
    | inr (x, w', e) ↦
        let one : sends w' ≤ sends w + 1 = rw e at (counts.transporting client r w) in rw e one
  ]

  pub request-le :
      (spec : CallSpec) (build : CallInit → ApiRequest) (w : W)
      → sends (request c spec build w).1 ≤ sends w + 2 * (c.requests.max_retries + 1)
  unfolding request
  request-le spec build w =
      call-le c sends counts.storing counts.waiting counts.drawing counts.logging counts.minting
        spec (λ client init. call_api (c.transport client) (build init))
        (λ client v. call_api-le client _ v) w

  pub request_once-le :
      (spec : CallSpec) (build : CallInit → ApiRequest) (w : W)
      → spec.idempotent ≡ false
      → sends (request c spec build w).1 ≤ sends w + 2
  unfolding request
  request_once-le spec build w =
      call_not_idempotent-le c sends counts.storing counts.waiting counts.drawing counts.logging
        counts.minting spec (λ client init. call_api (c.transport client) (build init))
        (λ client v. call_api-le client _ v) w

  read_items-quiet :
      (key : String) (v : Option Value) (w : W) → sends (read_items key v w).1 ≡ sends w
  unfolding read_items
  read_items-quiet key none w = refl
  read_items-quiet key (some null) w = refl
  read_items-quiet key (some (boolean b)) w = refl
  read_items-quiet key (some (number n)) w = refl
  read_items-quiet key (some (text s)) w = refl
  read_items-quiet key (some (array vs)) w = refl
  read_items-quiet key (some (object fields)) w = refl

  pub request_items-le :
      (spec : CallSpec) (build : CallInit → ApiRequest) (w : W)
      → sends (request_items c spec build w).1 ≤ sends w + 2 * (c.requests.max_retries + 1)
  unfolding request_items
  request_items-le spec build w = elim (run-cases (request c spec build w)) [
    | inl (a, w', e) ↦
        let most : sends w' ≤ sends w + 2 * (c.requests.max_retries + 1) =
          rw e at (request-le spec build w) in
        rw e (omega (arith, read_items-quiet "items" a w'))
    | inr (x, w', e) ↦
        let most : sends w' ≤ sends w + 2 * (c.requests.max_retries + 1) =
          rw e at (request-le spec build w) in
        rw e most
  ]
