-- ===== src/Sdk/Templates/Budget.antt =====
-- templates.ts: how often each call on templates reaches the control plane.
use fissionplane.Prelude.{ℕ, ◌+◌, ◌≤◌, refl, Option}
use fissionplane.Sdk.Value.{Value}
use fissionplane.Sdk.Http.{RequestOptions}
use fissionplane.Sdk.Sandbox.{ControlPlane}
use fissionplane.Sdk.Sandbox.Create.{IsCounter, control_once, control-le}
use fissionplane.Sdk.Templates.Operations.{get, build, get_build, delete}

module _ {W : Type 0} (plane : ControlPlane W) (sends : W → ℕ)
    (counts : IsCounter plane sends) where
  -- Submitting a build makes one request at most, whatever the retry budget; reading a template or a
  -- build and deleting a template stay within that budget.
  pub templates-le :
      (v : Value) (options : Option RequestOptions) (w : W)
      → (sends (build plane v options w).1 ≤ sends w + 1)
        × (sends (get plane v options w).1 ≤ sends w + (plane.requests.max_retries + 1))
        × (sends (get_build plane v options w).1 ≤ sends w + (plane.requests.max_retries + 1))
        × (sends (delete plane v options w).1 ≤ sends w + (plane.requests.max_retries + 1))
  unfolding build get get_build delete
  templates-le v options w = (
    control_once plane sends counts _ _ w refl,
    control-le plane sends counts _ _ w,
    control-le plane sends counts _ _ w,
    control-le plane sends counts _ _ w,
  )
