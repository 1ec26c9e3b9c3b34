-- ===== src/Sdk/Commands/Operations.antt =====
-- commands.ts, the class Commands: its calls, as requests to the sandbox's agent. What an answer
-- holds is the value that the agent sent; the types of the generated schema are not checked here
-- either.
use fissionplane.Prelude.{ℕ, true, false, String, Option, some}
use fissionplane.Sdk.Value.{Value, pos, text, number, object, Fields, end, field}
use fissionplane.Sdk.Effect.{Eff}
use fissionplane.Sdk.Http.{RequestOptions}
use fissionplane.Sdk.Api.{plain_request, with_field}
use fissionplane.Sdk.DataPlane.Calls.{Connection}
use fissionplane.Sdk.DataPlane.Requests.{request, request_items}

-- RunCommandOptions, besides its request options; the values are those of the request's fields.
pub record RunCommandOptions : Type 0 where
  pub request : Option RequestOptions
  pub args : Option Value
  pub cwd : Option Value
  pub env : Option Value
  pub stdin : Option Value
  pub timeout_seconds : Option Value

pub record StartProcessOptions : Type 0 where
  pub request : Option RequestOptions
  pub args : Option Value
  pub cwd : Option Value
  pub env : Option Value
  pub pty : Option Value

unfoldable pub run_body : String → RunCommandOptions → Fields
run_body command opts = field "command" (text command) (
    with_field "args" opts.args (
      with_field "cwd" opts.cwd (
        with_field "env" opts.env
          (with_field "stdin" opts.stdin (with_field "timeout_seconds" opts.timeout_seconds end)))))

unfoldable pub start_body : String → StartProcessOptions → Fields
start_body command opts = field "command" (text command) (
    with_field "args" opts.args
      (with_field "cwd" opts.cwd (with_field "env" opts.env (with_field "pty" opts.pty end))))

abbrev pub process_path : ℕ → Fields
process_path pid = field "pid" (number (pos pid)) end

module _ {W : Type 0} (c : Connection W) where
  unfoldable pub run : String → RunCommandOptions → Eff W (Option Value)
  unfolding run_body
  run command opts =
      request c
        (record { operation = "POST /commands"; idempotent = false; options = opts.request })
        λ init. record (plain_request "POST" "/commands" init) {
          body = some (object (run_body command opts));
        }

  -- `start`; the handle keeps the answer as its `info`.
  unfoldable pub start : String → StartProcessOptions → Eff W (Option Value)
  unfolding start_body
  start command opts =
      request c
        (record { operation = "POST /processes"; idempotent = false; options = opts.request })
        λ init. record (plain_request "POST" "/processes" init) {
          body = some (object (start_body command opts));
        }

  unfoldable pub get_process : ℕ → Option RequestOptions → Eff W (Option Value)
  get_process pid options =
      request c
        (record { operation = "GET /processes/{pid}"; idempotent = true; options = options })
        λ init. record (plain_request "GET" "/processes/{pid}" init) {
          path_params = process_path pid;
        }

  unfoldable pub logs : ℕ → Option Value → Option RequestOptions → Eff W (Option Value)
  logs pid after options =
      request c
        (record { operation = "GET /processes/{pid}/logs"; idempotent = true; options = options })
        λ init. record (plain_request "GET" "/processes/{pid}/logs" init) {
          path_params = process_path pid;
          query = with_field "after" after end;
        }

  unfoldable pub list_processes : Option RequestOptions → Eff W (Option Value)
  list_processes options =
      request_items c
        (record { operation = "GET /processes"; idempotent = true; options = options })
        (plain_request "GET" "/processes")

  unfoldable pub kill : ℕ → Option Value → Option RequestOptions → Eff W (Option Value)
  kill pid signal options =
      request c
        (record { operation = "DELETE /processes/{pid}"; idempotent = true; options = options })
        λ init. record (plain_request "DELETE" "/processes/{pid}" init) {
          path_params = process_path pid;
          query = with_field "signal" signal end;
        }
