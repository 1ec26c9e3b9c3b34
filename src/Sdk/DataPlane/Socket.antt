-- ===== src/Sdk/DataPlane/Socket.antt =====
-- dataplane.ts, base64Url and openDataPlaneWebSocket. The text that base64Url handles is a list of
-- code units; `btoa` and TextEncoder are parameters.
mod Native
pub mod Tokens
mod Tests
use fissionplane.Prelude.{
  ℕ, Bool, true, false, ◌&&◌, String, Option, none, some, List, [], ◌∷◌, ◌++◌, map, codes, eqb,
  if◌then◌else◌,
}
use fissionplane.Sdk.Errors.{fission, plain_error}
use fissionplane.Sdk.Effect.{Eff, ◌>>=◌, throw}
use fissionplane.Sdk.DataPlane.{TokenSource, capability_token, data_plane_origin}

abbrev pub is_empty {ℓ} : {A : Type ℓ} → List A → Bool
is_empty [] = true
is_empty (x ∷ xs) = false

-- `text.replaceAll(from, to)` of single characters.
unfoldable pub replace_unit : ℕ → ℕ → ℕ → ℕ
replace_unit from to c = if eqb c from then to else c

-- `text.replace(/=+$/u, '')`, of any character.
unfoldable pub strip_end : ℕ → List ℕ → List ℕ
strip_end c [] = []
strip_end c (x ∷ xs) =
    let rest = strip_end c xs in if eqb x c && is_empty rest then [] else x ∷ rest

unfoldable pub base64_url : (List ℕ → List ℕ) → List ℕ → List ℕ
unfolding replace_unit strip_end
base64_url btoa bytes =
    strip_end 61 (map (replace_unit 47 95) (map (replace_unit 43 45) (btoa bytes)))

-- What the platform gives: the socket of a URL and its sub-protocols, the URL of a path with a query
-- on an origin, with the scheme `wss:`, `btoa` and TextEncoder.
pub record SocketPlatform (W S : Type 0) : Type 0 where
  pub native : Option (String → List (List ℕ) → Eff W S)
  pub socket_url : String → String → List (String × String) → String
  pub btoa : List ℕ → List ℕ
  pub encode : String → List ℕ

abbrev pub token_protocol : List ℕ → List ℕ
token_protocol token = codes "fissionplane.token." ++ token

module _ {W S : Type 0} (platform : SocketPlatform W S) (sandbox : TokenSource W) where
  -- `factory ?? defaultWebSocketFactory`.
  unfoldable pub factory_or_native :
      Option (String → List (List ℕ) → Eff W S) → String → List (List ℕ) → Eff W S
  factory_or_native (some factory) url protocols = factory url protocols
  factory_or_native none url protocols = elim platform.native [
    | some open_ ↦ open_ url protocols
    | none ↦
        throw (fission (plain_error "WebSocket is unavailable; provide DataPlaneOptions.webSocket"))
  ]

  -- `query` holds the fields that are not undefined, as texts.
  unfoldable pub open_data_plane_web_socket :
      (agent_port : ℕ)
      → Option (String → List (List ℕ) → Eff W S)
      → String
      → List (String × String)
      → Eff W S
  unfolding factory_or_native
  open_data_plane_web_socket agent_port factory path query = do
    token ← capability_token sandbox
    λ w.
        factory_or_native factory
          (platform.socket_url path (data_plane_origin sandbox agent_port w) query)
          (codes "fissionplane.v1"
            ∷ token_protocol (base64_url platform.btoa (platform.encode token))
            ∷ [])
          w
