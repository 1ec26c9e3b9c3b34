-- ===== src/Sdk/DataPlane/Tests.antt =====
-- Runs of the token recovery. The world is the number of the token and of the calls made; the
-- agent accepts tokens from number 1 on.
use fissionplane.Prelude.{ℕ, suc, ◌+◌, ◌≤◌, ◌≡◌, refl, none, some, ltb, arith, if◌then◌else◌}
use mathlib.Core.Option.{some-injective}
use fissionplane.Sdk.Errors.{fission, error_from_response}
use fissionplane.Sdk.Effect.{ok, raise, Eff}
use fissionplane.Sdk.Http.{Logger, debug}
use fissionplane.Sdk.DataPlane.{
  TokenSource, CapabilityToken, with_fresh_token, is_authentication_error,
}
use fissionplane.Sdk.DataPlane.Recovery.{Recovers, with_fresh_token-Recovers}

abbrev Counts : Type 0
Counts = ℕ × ℕ

abbrev fresh : CapabilityToken
fresh = record { token = "t1"; expires_at = "soon" }

abbrev mint : Eff Counts CapabilityToken
mint (token, calls) = (ok fresh, (suc token, calls))

abbrev box : TokenSource Counts
box = record {
  sandbox_id = λ w. "s1";
  domain = λ w. "example.com";
  token = λ w. some fresh;
  mint_token = some mint;
}

abbrev quiet : Logger Counts
quiet = record { debug = none }

-- A call that the agent rejects with 401 while the token is number 0.
abbrev guarded : Eff Counts ℕ
guarded (token, calls) =
    if ltb 0 token
    then (ok token, (token, suc calls))
    else (raise (fission (error_from_response 401 none)), (token, suc calls))

recovered : with_fresh_token box quiet guarded (0, 0) ≡ (ok 1, (1, 2))
unfolding with_fresh_token debug is_authentication_error error_from_response
recovered = refl

with_fresh_token-Recovers_example :
    Recovers box quiet guarded (0, 0) (with_fresh_token box quiet guarded (0, 0))
with_fresh_token-Recovers_example = with_fresh_token-Recovers box quiet guarded (0, 0)

guarded-le : (w : Counts) → (guarded w).1.1 ≤ w.1 + 1
guarded-le (token, calls) = ground arith

mint_keeps : (m : Eff Counts CapabilityToken) (w : Counts) → some mint ≡ some m → (m w).1.1 ≡ w.1
mint_keeps m w e = let same : mint ≡ m = some-injective _ _ e in rw (← same)
