-- ===== src/Sdk/Client/Credentials.antt =====
-- index.ts: which credentials a client can be made with, and which of them its requests carry.
use Prim.Native.String.{◌++◌}
use fissionplane.Prelude.{
  ap, Option-cases, ◌≡◌, refl, ◌↔◌, false, String, Option, some, none, List, lookup, Bool-cases,
  inl, inr,
}
use fissionplane.Sdk.Errors.{Thrown}
use fissionplane.Sdk.Effect.{ok}
use fissionplane.Sdk.Api.{client_headers}
use fissionplane.Sdk.Client.{
  FissionPlaneOptions, FissionPlane, has_space, is_blank, credential_fault, check_credential,
  fault_error, check_given, api_key_of, configured, checked, new_client,
}

-- A credential is one token: not empty and without white space; an undefined one is no credential.
pub record IsToken (value : String) : Type 0 where
  pub filled : is_blank value ≡ false
  pub solid : has_space value ≡ false

abbrev pub IsGood : Option String → Type 0
IsGood none = Unit
IsGood (some value) = IsToken value

check_given-IsGood :
    (value : Option String) (option : String) → (check_given value option ≡ none) ↔ IsGood value
unfolding check_given check_credential credential_fault fault_error
check_given-IsGood none option = (λ h. tt, λ h. refl)
check_given-IsGood (some value) option = elim (Bool-cases (is_blank value)) [
  | inl blank ↦ (λ h. absurd (cc (rw blank at h)), λ good. absurd (cc (blank, good.filled)))
  | inr filled ↦ elim (Bool-cases (has_space value)) [
    | inl spaced ↦
        (λ h. absurd (cc (rw (filled, spaced) at h)), λ good. absurd (cc (spaced, good.solid)))
    | inr solid ↦ (λ h. record { filled = filled; solid = solid }, λ good. rw (filled, solid) refl)
  ]
]

module _ {W : Type 0} (env : List (String × String)) where
  checked-ok :
      (made client : FissionPlane W) (first second : Option Thrown)
      → checked env made first second ≡ ok client
      → (first ≡ none) × (second ≡ none) × (made ≡ client)
  unfolding checked
  checked-ok made client none none e = (refl, refl, cc)
  checked-ok made client none (some x) e = absurd (cc)
  checked-ok made client (some x) second e = absurd (cc)

  -- A client is made exactly when the API key of the options, or else of the environment, and the
  -- access token are single tokens or absent; and then it is the one that is configured.
  pub new_client_iff :
      (options : FissionPlaneOptions W) (client : FissionPlane W)
      → (new_client env options ≡ ok client) ↔ (
          IsGood (api_key_of env options)
          × IsGood options.access_token
          × (configured env options ≡ client))
  unfolding new_client checked
  new_client_iff options client =
      let key = check_given-IsGood (api_key_of env options) "apiKey" in
      let token = check_given-IsGood options.access_token "accessToken" in
      (
        λ e.
            let (first, second, made) = checked-ok (configured env options) client _ _ e in
            (key.0 first, token.0 second, made),
        λ (good, good', made). rw (key.1 good, token.1 good') (ap ok made),
      )

  -- Of the credentials the API key goes out alone, if there is one, and else the access token.
  pub client_headers-credentials :
      (options : FissionPlaneOptions W)
      → let headers = client_headers (configured env options).credentials in
        (lookup "X-API-Key" headers ≡ api_key_of env options)
        × (lookup "Authorization" headers ≡ (elim (api_key_of env options) [
          | some key ↦ none
          | none ↦ elim options.access_token [
            | none ↦ none
            | some token ↦ some ("Bearer " ++ token)
          ]
        ]))
  unfolding client_headers
  client_headers-credentials options = elim (Option-cases (api_key_of env options)) [
    | inr (key, given) ↦ simp given (refl, refl)
    | inl absent ↦ elim (Option-cases options.access_token) [
      | inr (token, given) ↦ simp (absent, given) (refl, refl)
      | inl nothing ↦ simp (absent, nothing) (refl, refl)
    ]
  ]
