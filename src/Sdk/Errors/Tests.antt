-- ===== src/Sdk/Errors/Tests.antt =====
-- Runs of errorFromResponse.
use fissionplane.Prelude.{◌≡◌, refl, true, some}
use fissionplane.Sdk.Value.{Value, object, field, end, text, boolean}
use fissionplane.Sdk.Errors.{error_from_response}

abbrev busy : Value
busy = object (field "code" (text "busy") end)

-- The body's own verdict wins.
final :
    (error_from_response 503 (some (object (field "retryable" (boolean true) end)))).status
    ≡ some 503
unfolding error_from_response
final = refl
