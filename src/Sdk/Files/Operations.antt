-- ===== src/Sdk/Files/Operations.antt =====
-- files.ts, the class SandboxFiles: its calls on the generated client, as requests to the sandbox's
-- agent.
use fissionplane.Prelude.{Bool, true, false, String, Option, some, or_else}
use fissionplane.Sdk.Value.{Value, boolean, text, object, Fields, end, field}
use fissionplane.Sdk.Effect.{Eff}
use fissionplane.Sdk.Http.{RequestOptions}
use fissionplane.Sdk.Api.{plain_request, with_field}
use fissionplane.Sdk.DataPlane.Calls.{Connection}
use fissionplane.Sdk.DataPlane.Requests.{request, request_items}

-- MakeDirectoryOptions, besides its request options.
pub record MakeDirectoryOptions : Type 0 where
  pub request : Option RequestOptions
  pub parents : Option Bool
  pub mode : Option Value

unfoldable pub make_dir_body : String → MakeDirectoryOptions → Fields
make_dir_body path options =
    field "path" (text path) (
      field "parents" (boolean (or_else options.parents true)) (with_field "mode" options.mode end))

unfoldable pub move_body : String → String → Option Bool → Fields
move_body source destination overwrite = field "source" (text source) (
    field "destination" (text destination)
      (field "overwrite" (boolean (or_else overwrite false)) end))

module _ {W : Type 0} (c : Connection W) where
  unfoldable pub list : String → Option RequestOptions → Eff W (Option Value)
  list path options =
      request_items c (record { operation = "GET /files"; idempotent = true; options = options })
        λ init. record (plain_request "GET" "/files" init) { query = field "path" (text path) end }

  unfoldable pub stat : String → Option RequestOptions → Eff W (Option Value)
  stat path options =
      request c (record { operation = "GET /files/stat"; idempotent = true; options = options })
        λ init. record (plain_request "GET" "/files/stat" init) {
          query = field "path" (text path) end;
        }

  unfoldable pub make_dir : String → MakeDirectoryOptions → Eff W (Option Value)
  unfolding make_dir_body
  make_dir path options =
      request c
        (record {
          operation = "POST /files/directories";
          idempotent = true;
          options = options.request;
        })
        λ init. record (plain_request "POST" "/files/directories" init) {
          body = some (object (make_dir_body path options));
        }

  -- `overwrite` is that of the options.
  unfoldable pub move : String → String → Option Bool → Option RequestOptions → Eff W (Option Value)
  unfolding move_body
  move source destination overwrite options =
      request c (record { operation = "POST /files/move"; idempotent = false; options = options })
        λ init. record (plain_request "POST" "/files/move" init) {
          body = some (object (move_body source destination overwrite));
        }

  -- `recursive` is that of the options.
  unfoldable pub remove : String → Option Value → Option RequestOptions → Eff W (Option Value)
  remove path recursive options =
      request c (record { operation = "DELETE /files"; idempotent = true; options = options })
        λ init. record (plain_request "DELETE" "/files" init) {
          query = field "path" (text path) (with_field "recursive" recursive end);
        }
