-- ===== src/Assets/Shapes/Grid.antt =====
-- gridUnitOf finds the greatest unit on whose grid all coordinates lie.
use Prim.Native.Nat.{◌∣◌}
use native.Mathlib.Nat
use fissionplane.Prelude.{
  ℕ, zero, suc, ◌%◌, ◌<◌, ◌≡◌, refl, sym, ◌∙◌, ◌↔◌, Option, some, List, [], ◌∷◌, All, arith,
}
use fissionplane.Assets.Shapes.{
  Numbers, SvgShape, gcd_within, gcd, each, unit_with, unit_of_point, unit_of_shape, or_one,
  grid_unit_of,
}

dvd-gcd_within : (k fuel a b : ℕ) → b < fuel → (k ∣ gcd_within fuel a b) ↔ ((k ∣ a) × (k ∣ b))
unfolding gcd_within
dvd-gcd_within k zero a b h = absurd (omega arith)
dvd-gcd_within k (suc fuel) a zero h = (λ d. (d, Nat.dvd-zero k), λ d. d.0)
dvd-gcd_within k (suc fuel) a (suc b) h =
    let less : a % suc b < fuel = omega arith in
    let (to, from) = dvd-gcd_within k fuel (suc b) (a % suc b) less in
    (
      λ d. let (left, right) = to d in ((Nat.dvd-mod_iff k left).0 right, left),
      λ d. from (d.1, (Nat.dvd-mod_iff k d.1).1 d.0),
    )

dvd-gcd : (k a b : ℕ) → (k ∣ gcd a b) ↔ ((k ∣ a) × (k ∣ b))
unfolding gcd
dvd-gcd k a b = dvd-gcd_within k (suc b) a b (omega arith)

-- On what is whole, a step ends with the greatest common divisor of the unit before and of what it sees.
abbrev Gathers : {A : Type 0} → (ℕ → A → Option ℕ) → (A → Type 0) → (ℕ → A → Type 0) → Type 0
Gathers {A} step IsWhole On =
    (unit : ℕ) (a : A)
    → IsWhole a
    → (u : ℕ) × (step unit a ≡ some u) × ((k : ℕ) → (k ∣ u) ↔ ((k ∣ unit) × On k a))

each-Gathers :
    {A : Type 0} (step : ℕ → A → Option ℕ) (IsWhole : A → Type 0) (On : ℕ → A → Type 0)
    → Gathers step IsWhole On
    → Gathers (each step) (All IsWhole) (λ k. All (On k))
unfolding each
each-Gathers step IsWhole On h unit [] whole = (unit, refl, λ k. (λ d. (d, tt), λ d. d.0))
each-Gathers step IsWhole On h unit (a ∷ rest) (first, whole) =
    let (u, e, spec) = h unit a first in
    let (v, e', spec') = each-Gathers step IsWhole On h u rest whole in
    (
      v,
      rw e e',
      λ k. (
        λ d.
            let (below, later) = (spec' k).0 d in
            let (start, here) = (spec k).0 below in (start, (here, later)),
        λ d. (spec' k).1 ((spec k).1 (d.0, d.1.0), d.1.1),
      ),
    )

module _ {F : Type 0} (numbers : Numbers F) where
  abbrev IsInteger : F → Type 0
  IsInteger value = (n : ℕ) × (numbers.absolute value ≡ some n)

  abbrev pub IsMultiple : ℕ → F → Type 0
  IsMultiple k value = (n : ℕ) × (numbers.absolute value ≡ some n) × (k ∣ n)

  abbrev pub PointOn : ℕ → F × F → Type 0
  PointOn k point = IsMultiple k point.0 × IsMultiple k point.1

  -- Every coordinate is an integer.
  abbrev pub AreWhole : List (SvgShape F) → Type 0
  AreWhole shapes =
      All (λ shape. All (All (λ point. IsInteger point.0 × IsInteger point.1)) shape.polygons)
        shapes

  -- Every coordinate is an integer and a multiple of `k`.
  abbrev pub OnGrid : ℕ → List (SvgShape F) → Type 0
  OnGrid k shapes = All (λ shape. All (All (PointOn k)) shape.polygons) shapes

  unit_with-Gathers : Gathers (unit_with numbers) IsInteger IsMultiple
  unfolding unit_with
  unit_with-Gathers unit value (n, e) = (
    gcd unit n,
    rw e refl,
    λ k. (
      λ d. let (left, right) = (dvd-gcd k unit n).0 d in (left, (n, e, right)),
      λ (left, (m, e', right)).
          let both : some m ≡ some n = sym e' ∙ e in
          let same : m ≡ n = cc in (dvd-gcd k unit n).1 (left, rw (← same) right),
    ),
  )

  unit_of_point-Gathers :
      Gathers (unit_of_point numbers) (λ point. IsInteger point.0 × IsInteger point.1) PointOn
  unfolding unit_of_point
  unit_of_point-Gathers unit (x, y) (first, second) =
      let (u, e, spec) = unit_with-Gathers unit x first in
      let (v, e', spec') = unit_with-Gathers u y second in
      (
        v,
        rw e e',
        λ k. (
          λ d.
              let (below, later) = (spec' k).0 d in
              let (start, here) = (spec k).0 below in (start, (here, later)),
          λ d. (spec' k).1 ((spec k).1 (d.0, d.1.0), d.1.1),
        ),
      )

  shapes-Gathers : Gathers (each (unit_of_shape numbers)) AreWhole OnGrid
  unfolding unit_of_shape
  shapes-Gathers = each-Gathers (unit_of_shape numbers) _ _ λ unit shape whole.
      each-Gathers (each (unit_of_point numbers)) _ _
        (each-Gathers (unit_of_point numbers) _ _ unit_of_point-Gathers) unit shape.polygons whole

  or_one-dvd :
      (k u : ℕ) (shapes : List (SvgShape F))
      → ¬ OnGrid 0 shapes
      → ((d : ℕ) → (d ∣ u) ↔ ((d ∣ 0) × OnGrid d shapes))
      → (k ∣ or_one numbers (some u)) ↔ OnGrid k shapes
  or_one-dvd k zero shapes apart spec = absurd (apart ((spec 0).0 (Nat.dvd-zero 0)).1)
  or_one-dvd k (suc n) shapes apart spec =
      (λ d. ((spec k).0 d).1, λ on. (spec k).1 (Nat.dvd-zero k, on))

  -- Where all coordinates are integers and not all of them are zero, the units on whose grid they lie
  -- are the divisors of the grid unit: it is the greatest of them.
  pub dvd-grid_unit_of :
      (k : ℕ) (shapes : List (SvgShape F))
      → AreWhole shapes
      → ¬ OnGrid 0 shapes
      → (k ∣ grid_unit_of numbers shapes) ↔ OnGrid k shapes
  unfolding grid_unit_of
  dvd-grid_unit_of k shapes whole apart =
      let (u, e, spec) = shapes-Gathers 0 shapes whole in rw e (or_one-dvd k u shapes apart spec)
