-- ===== src/Sdk/Errors/Laws.antt =====
-- errors.ts: what a failed response becomes, for every status and body.
use fissionplane.Prelude.{ℕ, ◌≤◌, ◌≡◌, ◌↔◌, ◌⊎◌, Option, none, true, arith}
use fissionplane.Sdk.Value.{Value, as_boolean, property}
use fissionplane.Sdk.Errors.{authentication, error_from_response, body_fields}

-- Only a 401 becomes an AuthenticationError, whatever the body says.
pub error_from_response-authentication_iff :
    (status : ℕ) (body : Option Value)
    → ((error_from_response status body).class ≡ authentication) ↔ (status ≡ 401)
unfolding error_from_response
error_from_response-authentication_iff status body = ground arith

-- With no verdict in the body, exactly the rate limits and the server faults are retryable.
pub error_from_response-retryable_iff :
    (status : ℕ) (body : Option Value)
    → as_boolean (property "retryable" (body_fields body)) ≡ none
    → ((error_from_response status body).retryable ≡ true) ↔ ((status ≡ 429) ⊎ (500 ≤ status))
unfolding error_from_response
error_from_response-retryable_iff status body silent = ground arith
