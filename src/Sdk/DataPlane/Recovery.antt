-- ===== src/Sdk/DataPlane/Recovery.antt =====
-- dataplane.ts, withFreshToken: the recovery as a relation, and what it can never do.
use fissionplane.Prelude.{
  ℕ, ◌+◌, ◌*◌, ◌≤◌, ◌≡◌, inl, inr, true, false, String, none, some, arith, Bool-cases, Option-cases,
}
use fissionplane.Sdk.Errors.{Thrown}
use fissionplane.Sdk.Effect.{Outcome, ok, raise, Eff, run-cases}
use fissionplane.Sdk.Http.{Logger, debug}
use fissionplane.Sdk.DataPlane.{
  TokenSource, CapabilityToken, is_authentication_error, remint_message, with_fresh_token,
}

module _ {W A : Type 0} (sandbox : TokenSource W) (logger : Logger W) (run : Eff W A) where
  -- From world `w` the recovering call ends with `result`.
  pub data Recovers (w : W) : Outcome A × W → Type 0 where
    accepted : {w' : W} (a : A) → run w ≡ (ok a, w') → Recovers w (ok a, w')
    other_failure :
        {w' : W} (e : Thrown)
        → run w ≡ (raise e, w')
        → is_authentication_error e ≡ false
        → Recovers w (raise e, w')
    cannot_mint :
        {w' : W} (e : Thrown)
        → run w ≡ (raise e, w')
        → sandbox.mint_token ≡ none
        → Recovers w (raise e, w')
    mint_failed :
        {w' w₁ w'' : W} (e reason : Thrown) (mint : Eff W CapabilityToken)
        → run w ≡ (raise e, w')
        → is_authentication_error e ≡ true
        → sandbox.mint_token ≡ some mint
        → debug logger (remint_message sandbox w') w' ≡ (ok tt, w₁)
        → mint w₁ ≡ (raise reason, w'')
        → Recovers w (raise reason, w'')
    replayed :
        {w' w₁ w'' : W} (e : Thrown) (mint : Eff W CapabilityToken) (token : CapabilityToken)
        → run w ≡ (raise e, w')
        → is_authentication_error e ≡ true
        → sandbox.mint_token ≡ some mint
        → debug logger (remint_message sandbox w') w' ≡ (ok tt, w₁)
        → mint w₁ ≡ (ok token, w'')
        → Recovers w (run w'')

  log_ends : (message : String) (w : W) → (w' : W) × (debug logger message w ≡ (ok tt, w'))
  unfolding debug
  log_ends message w = elim (Option-cases logger.debug) [
    | inl silent ↦ (w, rw (silent, debug))
    | inr (write, found) ↦ (write message w, rw (found, debug))
  ]

  -- `withFreshToken` ends in one of these ways and no other: its result is that of the first run,
  -- or of a second run in the world that a successful mint left, or the mint's own failure. A
  -- second run needs an authentication error and a way to mint.
  pub with_fresh_token-Recovers : (w : W) → Recovers w (with_fresh_token sandbox logger run w)
  unfolding with_fresh_token
  with_fresh_token-Recovers w = elim (run-cases (run w)) [
    | inl (a, w', e) ↦ rw (e, with_fresh_token) (accepted a e)
    | inr (x, w', e) ↦ elim (Bool-cases (is_authentication_error x)) [
      | inr other ↦ rw (e, with_fresh_token, other) (other_failure x e other)
      | inl rejected ↦ elim (Option-cases sandbox.mint_token) [
        | inl unable ↦ simp (e, rejected, unable) (cannot_mint x e unable)
        | inr (mint, able) ↦
            let (w₁, logged) = log_ends (remint_message sandbox w') w' in
            elim (run-cases (mint w₁)) [
              | inl (token, w'', minted) ↦
                  simp (e, rejected, able, logged, minted)
                    (replayed x mint token e rejected able logged minted)
              | inr (reason, w'', failed) ↦
                  simp (e, rejected, able, logged, failed)
                    (mint_failed x reason mint e rejected able logged failed)
            ]
      ]
    ]
  ]

  -- `uses` counts what `run` does to the world; minting and logging leave it alone.
  module _ (uses : W → ℕ) (most : ℕ) (bounded : (w : W) → uses (run w).1 ≤ uses w + most)
      (minting : (mint : Eff W CapabilityToken) (w : W)
        → sandbox.mint_token ≡ some mint
        → uses (mint w).1 ≡ uses w)
      (logging : (m : String) (w : W) → uses (debug logger m w).1 ≡ uses w) where
    Recovers-le :
        (w : W) (result : Outcome A × W) → Recovers w result → uses result.1 ≤ uses w + 2 * most
    Recovers-le w result (accepted {w'} a e) =
        let step : uses w' ≤ uses w + most = rw e at (bounded w) in omega arith
    Recovers-le w result (other_failure {w'} x e _) =
        let step : uses w' ≤ uses w + most = rw e at (bounded w) in omega arith
    Recovers-le w result (cannot_mint {w'} x e _) =
        let step : uses w' ≤ uses w + most = rw e at (bounded w) in omega arith
    Recovers-le w result (mint_failed {w'} {w₁} {w''} x reason mint e _ able logged failed) =
        let step : uses w' ≤ uses w + most = rw e at (bounded w) in
        let log : uses w₁ ≡ uses w' = rw logged at (logging (remint_message sandbox w') w') in
        let minted : uses w'' ≡ uses w₁ = rw failed at (minting mint w₁ able) in omega arith
    Recovers-le w result (replayed {w'} {w₁} {w''} x mint token e _ able logged done) =
        let step : uses w' ≤ uses w + most = rw e at (bounded w) in
        let log : uses w₁ ≡ uses w' = rw logged at (logging (remint_message sandbox w') w') in
        let minted : uses w'' ≡ uses w₁ = rw done at (minting mint w₁ able) in
        omega (arith, bounded w'')

    -- The call runs at most twice, however often the token is rejected.
    pub with_fresh_token-le :
        (w : W) → uses (with_fresh_token sandbox logger run w).1 ≤ uses w + 2 * most
    with_fresh_token-le w =
        Recovers-le w (with_fresh_token sandbox logger run w) (with_fresh_token-Recovers w)
