-- ===== src/Sdk/DataPlane/CallLaws.antt =====
-- Calls on the data plane: the token that they carry, and how often they reach the agent.
use mathlib.Core.Option.{some-injective}
use fissionplane.Prelude.{
  ℕ, ◌+◌, ◌*◌, ◌≤◌, ◌≡◌, refl, inl, inr, false, String, Option, some, arith, lookup, ◌==◌, eq_iff,
  sym, ◌∙◌, ap, Bool-cases, Option-cases,
}
use fissionplane.Sdk.Effect.{ok, Eff, ◌>>=◌, Signal, run-cases}
use fissionplane.Sdk.Http.{CallSpec, CallInit, init, debug}
use fissionplane.Sdk.Http.Retry.{send}
use fissionplane.Sdk.Http.Replay.{send_not_idempotent, send-le}
use fissionplane.Sdk.DataPlane.{CapabilityToken, capability_token, token_text, data_plane_origin}
use fissionplane.Sdk.DataPlane.Recovery.{with_fresh_token-le}
use fissionplane.Sdk.DataPlane.Calls.{
  Connection, IsStore, DataPlaneClient, new_client, rebuild, reuse, dataplane, call,
}

module _ {W : Type 0} (c : Connection W) where
  -- A client that carries the token in its header and points at the origin that the sandbox has now.
  pub record Carries (token : String) (client : DataPlaneClient) (w : W) : Type 0 where
    pub header : lookup "X-Sandbox-Token" client.headers ≡ some token
    pub origin : client.base_url ≡ data_plane_origin c.sandbox c.agent_port w

  -- The stored client carries the token that is stored beside it, and points at the sandbox's origin.
  abbrev pub IsCoherent : W → Type 0
  IsCoherent w =
      (client : DataPlaneClient) (token : String)
      → c.client w ≡ some (client, token)
      → Carries token client w

  new_client-Carries : (token : String) (w : W) → Carries token (new_client c token w) w
  unfolding new_client
  new_client-Carries token w = record { header = refl; origin = refl }

  module _ (store : IsStore c) where
    -- What `dataplane` answers in world `w` for a token.
    pub record Resolves (token : String) (w : W) : Type 0 where
      pub client : DataPlaneClient
      pub after : W
      pub result : dataplane c w ≡ (ok client, after)
      pub carries : Carries token client after
      pub coherent : IsCoherent after

    rebuilt-Carries :
        (token : String) (w : W)
        → Carries token (new_client c token w) (c.set_client (new_client c token w) token w)
    rebuilt-Carries token w = record {
      header = (new_client-Carries token w).header;
      origin =
          (new_client-Carries token w).origin
          ∙ sym (store.keeps_origin (new_client c token w) token w);
    }

    rebuild-IsCoherent :
        (token : String) (w : W) → IsCoherent (c.set_client (new_client c token w) token w)
    rebuild-IsCoherent token w client t stored =
        let both =
          some-injective _ _ (sym (store.reads_back (new_client c token w) token w) ∙ stored) in
        let same_client : new_client c token w ≡ client = ap (λ p. p.0) both in
        let same_token : token ≡ t = ap (λ p. p.1) both in
        rw (← same_client, ← same_token) (rebuilt-Carries token w)

    rebuild-Resolves :
        (w : W) (token : String) → dataplane c w ≡ rebuild c token w → Resolves token w
    unfolding rebuild
    rebuild-Resolves w token e = record {
      client = new_client c token w;
      after = c.set_client (new_client c token w) token w;
      result = e;
      carries = rebuilt-Carries token w;
      coherent = rebuild-IsCoherent token w;
    }

    -- From a world where the stored client, if any, carries the token beside it and points at the
    -- sandbox's origin, and where the handle has a token, a call is given a client that carries the
    -- handle's token and points at the sandbox's origin, and the store stays so.
    pub dataplane-Resolves :
        (w : W) (token : CapabilityToken)
        → IsCoherent w
        → c.sandbox.token w ≡ some token
        → Resolves token.token w
    unfolding dataplane capability_token token_text reuse
    dataplane-Resolves w token coherent armed = elim (Option-cases (c.client w)) [
      | inl fresh ↦ rebuild-Resolves w token.token (simp (armed, fresh))
      | inr ((client, old), stored) ↦ elim (Bool-cases (old == token.token)) [
        | inr rotated ↦ rebuild-Resolves w token.token (simp (armed, stored, rotated))
        | inl current ↦ record {
          client = client;
          after = w;
          result = simp (armed, stored, current);
          carries = rw ((eq_iff old token.token).0 current) at (coherent client old stored);
          coherent = coherent;
        }
      ]
    ]

  -- `sends` counts the requests that reach the agent: only the transport makes one, and one at most.
  module _ (sends : W → ℕ)
      (storing : (client : DataPlaneClient) (token : String) (w : W)
        → sends (c.set_client client token w) ≡ sends w)
      (waiting : (d : ℕ) (s : Option Signal) (w : W) → sends (c.runtime.wait d s w).1 ≡ sends w)
      (drawing : (w : W) → sends (c.runtime.random w).1 ≡ sends w)
      (logging : (m : String) (w : W) → sends (debug c.requests.logger m w).1 ≡ sends w)
      (minting : (mint : Eff W CapabilityToken) (w : W)
        → c.sandbox.mint_token ≡ some mint
        → sends (mint w).1 ≡ sends w) where
    dataplane_quiet : (w : W) → sends (dataplane c w).1 ≡ sends w
    unfolding dataplane capability_token token_text reuse rebuild
    dataplane_quiet w = elim (Option-cases (c.sandbox.token w)) [
      | inl unarmed ↦ simp unarmed
      | inr (token, armed) ↦
          let stored = storing (new_client c token.token w) token.token w in
          elim (Option-cases (c.client w)) [
            | inl fresh ↦ simp (armed, fresh) stored
            | inr ((client, old), found) ↦ elim (Bool-cases (old == token.token)) [
              | inl current ↦ simp (armed, found, current)
              | inr rotated ↦ simp (armed, found, rotated) stored
            ]
          ]
    ]

    module _ {A : Type 0} (spec : CallSpec) (run : DataPlaneClient → CallInit → Eff W A)
        (one : (client : DataPlaneClient) (w : W)
          → sends (run client (init spec.options) w).1 ≤ sends w + 1) where
      abbrev attempt : Eff W A
      attempt = do client ← dataplane c; send c.runtime c.requests spec (run client)

      attempt-le :
          (most : ℕ)
          → ((client : DataPlaneClient) (w : W)
              → sends (send c.runtime c.requests spec (run client) w).1 ≤ sends w + most)
          → (w : W) → sends (attempt w).1 ≤ sends w + most
      attempt-le most bounded w = elim (run-cases (dataplane c w)) [
        | inl (client, w', e) ↦
            let quiet : sends w' ≡ sends w = rw e at (dataplane_quiet w) in
            rw e (omega (arith, bounded client w'))
        | inr (x, w', e) ↦
            let quiet : sends w' ≡ sends w = rw e at (dataplane_quiet w) in rw e (omega arith)
      ]

      -- A data-plane call reaches the agent at most twice for each attempt that the retry budget
      -- allows.
      pub call-le :
          (w : W) → sends (call c spec run w).1 ≤ sends w + 2 * (c.requests.max_retries + 1)
      unfolding call
      call-le w =
          with_fresh_token-le c.sandbox c.requests.logger attempt sends (c.requests.max_retries + 1)
            (attempt-le (c.requests.max_retries + 1) λ client.
              send-le c.runtime c.requests spec (run client) sends (one client) waiting drawing
                logging)
            minting logging w

      -- A call that is not idempotent reaches the agent at most twice: the retry budget adds nothing,
      -- and only the recovery from an authentication error runs the call again.
      pub call_not_idempotent-le :
          (w : W) → spec.idempotent ≡ false → sends (call c spec run w).1 ≤ sends w + 2
      unfolding call
      call_not_idempotent-le w h =
          with_fresh_token-le c.sandbox c.requests.logger attempt sends 1
            (attempt-le 1 λ client v.
              rw (send_not_idempotent c.runtime c.requests spec (run client) v h) (one client v))
            minting logging w
