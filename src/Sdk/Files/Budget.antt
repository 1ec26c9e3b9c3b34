-- ===== src/Sdk/Files/Budget.antt =====
-- files.ts: how often each method of SandboxFiles reaches the agent.
use fissionplane.Prelude.{ℕ, ◌+◌, ◌*◌, ◌≤◌, refl, Bool, String, Option}
use fissionplane.Sdk.Value.{Value}
use fissionplane.Sdk.Http.{RequestOptions}
use fissionplane.Sdk.DataPlane.Calls.{Connection}
use fissionplane.Sdk.DataPlane.Budget.{IsCounter, request-le, request_once-le, request_items-le}
use fissionplane.Sdk.Files.Operations.{MakeDirectoryOptions, list, stat, make_dir, move, remove}

module _ {W : Type 0} (c : Connection W) (sends : W → ℕ) (counts : IsCounter c sends) where
  -- A move reaches the agent at most twice, however large the retry budget is; every other method
  -- here makes at most two requests for each attempt that the budget allows.
  pub files-le :
      (path destination : String) (overwrite : Option Bool) (recursive : Option Value)
      (options : Option RequestOptions) (making : MakeDirectoryOptions) (w : W)
      → (sends (move c path destination overwrite options w).1 ≤ sends w + 2)
        × (sends (list c path options w).1 ≤ sends w + 2 * (c.requests.max_retries + 1))
        × (sends (stat c path options w).1 ≤ sends w + 2 * (c.requests.max_retries + 1))
        × (sends (make_dir c path making w).1 ≤ sends w + 2 * (c.requests.max_retries + 1))
        × (sends (remove c path recursive options w).1 ≤ sends w + 2 * (c.requests.max_retries + 1))
  unfolding move list stat make_dir remove
  files-le path destination overwrite recursive options making w = (
    request_once-le c sends counts _ _ w refl,
    request_items-le c sends counts _ _ w,
    request-le c sends counts _ _ w,
    request-le c sends counts _ _ w,
    request-le c sends counts _ _ w,
  )
