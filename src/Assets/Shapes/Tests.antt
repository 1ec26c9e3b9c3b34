-- ===== src/Assets/Shapes/Tests.antt =====
-- Tests for shapes, on the natural numbers.
use Prim.Native.Nat.{◌∣◌}
use native.Mathlib.Nat
use fissionplane.Prelude.{ℕ, ◌+◌, ◌-◌, ◌*◌, ◌≡◌, ◌↔◌, refl, false, some, List, [], ◌∷◌, arith}
use fissionplane.Assets.Shapes.{
  Numbers, SvgShape, Polygon, letter, closing, numeric, move, vertical, parsed, refused, gcd,
  gcd_within, each, unit_with, unit_of_point, unit_of_shape, grid_unit_of, parse_path_data, loop,
  turn, drawn, draw, number, reach, close, frame, rectangle,
}
use fissionplane.Assets.Shapes.Grid.{AreWhole, OnGrid, dvd-grid_unit_of}

abbrev naturals : Numbers ℕ
naturals = record {
  nil = 0;
  plus = λ a b. a + b;
  minus = λ a b. a - b;
  times = λ a b. a * b;
  twice = λ a. a * 2;
  absolute = λ a. some a;
}

abbrev triangle : Polygon ℕ
triangle = (0, 4) ∷ (6, 0) ∷ (8, 10) ∷ []

abbrev shapes : List (SvgShape ℕ)
shapes = record { fill = "black"; polygons = triangle ∷ [] } ∷ []

unit_is_two : grid_unit_of naturals shapes ≡ 2
unfolding grid_unit_of each unit_of_shape unit_of_point unit_with gcd gcd_within
unit_is_two = refl

-- "m1 1 2 0v2z", with a pair that is a line since it follows a move.
relative :
    parse_path_data naturals (
      letter move false
      ∷ numeric (some 1)
      ∷ numeric (some 1)
      ∷ numeric (some 2)
      ∷ numeric (some 0)
      ∷ letter vertical false
      ∷ numeric (some 2)
      ∷ closing
      ∷ [])
    ≡ parsed (((1, 1) ∷ (3, 1) ∷ (3, 3) ∷ []) ∷ [])
unfolding parse_path_data loop turn drawn draw number reach close
relative = refl

-- A number after a closing letter.
stray : parse_path_data naturals (closing ∷ numeric (some 1) ∷ []) ≡ refused
unfolding parse_path_data loop turn drawn close
stray = refl

framed :
    frame naturals 0 0 10 10 1
    ≡ ((0, 0) ∷ (10, 0) ∷ (10, 1) ∷ (0, 1) ∷ [])
      ∷ ((0, 9) ∷ (10, 9) ∷ (10, 10) ∷ (0, 10) ∷ [])
      ∷ ((0, 1) ∷ (1, 1) ∷ (1, 9) ∷ (0, 9) ∷ [])
      ∷ ((9, 1) ∷ (10, 1) ∷ (10, 9) ∷ (9, 9) ∷ [])
      ∷ []
unfolding frame rectangle
framed = refl

whole : AreWhole naturals shapes
whole =
    (((((0, refl), (4, refl)), (((6, refl), (0, refl)), (((8, refl), (10, refl)), tt))), tt), tt)

apart : ¬ OnGrid naturals 0 shapes
apart on =
    let (n, e, d) = on.0.0.0.1 in
    let zeroed = Nat.eq-zero_of_zero-dvd d in
    let four : some 4 ≡ some n = e in let same : 4 ≡ n = cc in absurd (omega (arith, zeroed, same))

dvd-grid_unit_of_example : (2 ∣ grid_unit_of naturals shapes) ↔ OnGrid naturals 2 shapes
dvd-grid_unit_of_example = dvd-grid_unit_of naturals 2 shapes whole apart
