-- ===== src/Sdk/Sandbox/Pages.antt =====
-- sandbox.ts, Sandboxes.iterate: the pages of a listing, one after another.
mod Tests
pub mod Answers
pub mod Order
use Prim.Native.String.{◌++◌ as join}
use fissionplane.Prelude.{
  ℕ, zero, suc, ◌+◌, String, Option, some, none, List, [], ◌++◌, decimal, length, is_some,
  if◌then◌else◌,
}
use fissionplane.Sdk.Value.{Value}
use fissionplane.Sdk.Errors.{Thrown}
use fissionplane.Sdk.Effect.{Outcome, ok, raise, Eff}
use fissionplane.Sdk.Http.{RequestOptions, debug}
use fissionplane.Sdk.Sandbox.{ControlPlane}
use fissionplane.Sdk.Sandbox.Listing.{ListSandboxesOptions, list}

abbrev pub page_message : ℕ → List Value → Option Value → String
page_message number items next_cursor = join "sandboxes.iterate fetched page " (
    join (decimal number) (
      join " (" (
        join (decimal (length items)) (
          join " sandboxes, "
            (join (if is_some next_cursor then "more follow" else "last page") ")")))))

-- How a generator that is read to its end ends: by itself, or with the error of a page. `spent` is
-- no end of it: the fuel, one for each page, ran out.
pub data Ending : Type 0 where
  finished spent : Ending
  broke : Thrown → Ending

abbrev pub prepend :
    {W : Type 0} → List Value → (List Value × Ending) × W → (List Value × Ending) × W
prepend items ((rest, ending), w) = ((items ++ rest, ending), w)

module _ {W : Type 0} (plane : ControlPlane W) (encode : Value → String)
    (query : ListSandboxesOptions) (options : Option RequestOptions) where
  -- `this.list({ ...options, cursor })`.
  unfoldable pub page_at : Option Value → Eff W (List Value × Option Value)
  page_at cursor = list plane encode (record query { cursor = cursor }) options

  -- The rest of a round, once its page is there; `go` is the next round.
  unfoldable pub follow :
      (Option Value → W → (List Value × Ending) × W)
      → List Value
      → Option Value
      → W
      → (List Value × Ending) × W
  follow go items none w = ((items, finished), w)
  follow go items (some cursor) w = prepend items (go (some cursor) w)

  unfoldable pub turn :
      (Option Value → W → (List Value × Ending) × W)
      → ℕ
      → Outcome (List Value × Option Value) × W
      → (List Value × Ending) × W
  unfolding follow
  turn go number (raise e, w) = (([], broke e), w)
  turn go number (ok (items, next_cursor), w) =
      follow go items next_cursor
        (debug plane.requests.logger (page_message number items next_cursor) w).1

  unfoldable pub iterate_from : ℕ → ℕ → Option Value → W → (List Value × Ending) × W
  unfolding turn
  iterate_from zero number cursor w = (([], spent), w)
  iterate_from (suc fuel) number cursor w =
      turn (iterate_from fuel (suc number)) (suc number) (page_at cursor w)

  -- The generator, read to its end, with fuel for each page.
  unfoldable pub iterate : ℕ → W → (List Value × Ending) × W
  unfolding iterate_from
  iterate fuel = iterate_from fuel 0 none
