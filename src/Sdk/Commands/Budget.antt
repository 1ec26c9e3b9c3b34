-- ===== src/Sdk/Commands/Budget.antt =====
-- commands.ts: how often each method of Commands reaches the agent.
use fissionplane.Prelude.{ℕ, ◌+◌, ◌*◌, ◌≤◌, refl, String, Option}
use fissionplane.Sdk.Value.{Value}
use fissionplane.Sdk.Http.{RequestOptions}
use fissionplane.Sdk.DataPlane.Calls.{Connection}
use fissionplane.Sdk.DataPlane.Budget.{IsCounter, request-le, request_once-le, request_items-le}
use fissionplane.Sdk.Commands.Operations.{
  RunCommandOptions, StartProcessOptions, run, start, get_process, logs, list_processes, kill,
}

module _ {W : Type 0} (c : Connection W) (sends : W → ℕ) (counts : IsCounter c sends) where
  -- Running a command or starting a process reaches the agent at most twice, however large the retry
  -- budget is: the second time only after the agent rejected the token of the first.
  pub start_effects-le :
      (command : String) (running : RunCommandOptions) (starting : StartProcessOptions) (w : W)
      → (sends (run c command running w).1 ≤ sends w + 2)
        × (sends (start c command starting w).1 ≤ sends w + 2)
  unfolding run start
  start_effects-le command running starting w =
      (request_once-le c sends counts _ _ w refl, request_once-le c sends counts _ _ w refl)

  -- The methods that read processes or signal one make at most two requests for each attempt that the
  -- retry budget allows.
  pub replayed-le :
      (pid : ℕ) (field_ : Option Value) (options : Option RequestOptions) (w : W)
      → (sends (get_process c pid options w).1 ≤ sends w + 2 * (c.requests.max_retries + 1))
        × (sends (logs c pid field_ options w).1 ≤ sends w + 2 * (c.requests.max_retries + 1))
        × (sends (list_processes c options w).1 ≤ sends w + 2 * (c.requests.max_retries + 1))
        × (sends (kill c pid field_ options w).1 ≤ sends w + 2 * (c.requests.max_retries + 1))
  unfolding get_process logs list_processes kill
  replayed-le pid field_ options w = (
    request-le c sends counts _ _ w,
    request-le c sends counts _ _ w,
    request_items-le c sends counts _ _ w,
    request-le c sends counts _ _ w,
  )
