-- ===== src/Sdk/Effect.antt =====
-- A promise-returning function as a step on the world `W`: it settles with a value or a rejection.
-- The world holds whatever the runtime, the network and the mutable handles hold.
use fissionplane.Prelude.{ℕ, Option, ◌≡◌, refl, ◌⊎◌, inl, inr}
use fissionplane.Sdk.Errors.{Thrown}

pub data Outcome {ℓ} (A : Type ℓ) : Type ℓ where
  ok : A → Outcome A
  raise : Thrown → Outcome A

abbrev pub Eff : Type 0 → Type 0 → Type 0
Eff W A = W → Outcome A × W

module _ {W : Type 0} where
  abbrev pub continue : {A B : Type 0} → Outcome A × W → (A → Eff W B) → Outcome B × W
  continue (ok a, w) f = f a w
  continue (raise e, w) f = (raise e, w)

  abbrev pub recover : {A : Type 0} → Outcome A × W → (Thrown → Eff W A) → Outcome A × W
  recover (ok a, w) f = (ok a, w)
  recover (raise e, w) f = f e w

  -- `await m`, then `f`; a rejection skips `f`.
  infixl 5 ◌>>=◌ ◌>>◌
  abbrev pub ◌>>=◌ : {A B : Type 0} → Eff W A → (A → Eff W B) → Eff W B
  ◌>>=◌ m f w = continue (m w) f

  abbrev pub ◌>>◌ : {A B : Type 0} → Eff W A → Eff W B → Eff W B
  m >> k = m >>= λ _. k

  abbrev pub pure : {A : Type 0} → A → Eff W A
  pure a w = (ok a, w)

  abbrev pub throw : {A : Type 0} → Thrown → Eff W A
  throw e w = (raise e, w)

  -- `try { m } catch (e) { handler(e) }`.
  abbrev pub catch : {A : Type 0} → Eff W A → (Thrown → Eff W A) → Eff W A
  catch m handler w = recover (m w) handler

-- To split on a run and keep the equation.
pub run-cases :
    {A W : Type 0} (r : Outcome A × W)
    → ((a : A) × (w : W) × (r ≡ (ok a, w))) ⊎ ((e : Thrown) × (w : W) × (r ≡ (raise e, w)))
run-cases (ok a, w) = inl (a, w, refl)
run-cases (raise e, w) = inr (e, w, refl)

-- An AbortSignal, by a number that names it.
abbrev pub Signal : Type 0
Signal = ℕ

-- What the JavaScript runtime gives. `aborted` is the reason of a signal that has fired;
-- `wait` lets a timer run and answers with the reason of the signal if that fires first;
-- `random` is the numerator of Math.random() over 2 ^ 53; `now` is Date.now().
pub record Runtime (W : Type 0) : Type 0 where
  pub aborted : Signal → W → Option Thrown
  pub wait : ℕ → Option Signal → W → Option Thrown × W
  pub random : W → ℕ × W
  pub now : W → ℕ × W
