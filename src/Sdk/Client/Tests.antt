-- ===== src/Sdk/Client/Tests.antt =====
-- A client whose key comes from the environment.
use fissionplane.Prelude.{◌≡◌, refl, ◌↔◌, String, some, none, List, [], ◌∷◌, ℕ}
use fissionplane.Sdk.Effect.{ok}
use fissionplane.Sdk.Client.{
  FissionPlaneOptions, new_client, configured, checked, check_given, check_credential,
  credential_fault, fault_error,
}
use fissionplane.Sdk.Client.Credentials.{IsGood, new_client_iff}

abbrev env : List (String × String)
env = ("FISSIONPLANE_API_KEY", "k1") ∷ []

abbrev options : FissionPlaneOptions ℕ
options = record {
  api_key = none;
  access_token = some "t1";
  base_url = none;
  agent_port = none;
  request_timeout_ms = none;
  max_retries = none;
  logger = none;
}

made : new_client env options ≡ ok (configured env options)
unfolding new_client checked check_given check_credential credential_fault fault_error
made = refl

-- A check mark passes, though no header value can hold it.
unsendable : check_credential "✓" "apiKey" ≡ none
unfolding check_credential credential_fault fault_error
unsendable = refl

new_client_iff_example :
    (new_client env options ≡ ok (configured env options))
    ↔ (IsGood (some "k1") × IsGood (some "t1") × (configured env options ≡ configured env options))
new_client_iff_example = new_client_iff env options (configured env options)
