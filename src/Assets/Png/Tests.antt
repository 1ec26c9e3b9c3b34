-- ===== src/Assets/Png/Tests.antt =====
-- An image of two rows, with a deflate that leaves its bytes as they are.
use fissionplane.Prelude.{ℕ, ◌<◌, arith, ◌≡◌, refl, some, List, [], ◌∷◌, length}
use fissionplane.Assets.Scanlines.{
  filter_scanlines, lines_from, best, choose, score_from, raw, left, above, sub_byte, up_byte,
}
use fissionplane.Assets.Png.{Canvas, to_png}
use fissionplane.Assets.Png.Decoding.{IsDeflate, IsCanvas, decode, decode-to_png}

abbrev canvas : Canvas
canvas = record { width = 1; height = 2; pixels = 1 ∷ 2 ∷ 3 ∷ 1 ∷ 2 ∷ 4 ∷ [] }

abbrev stored : List ℕ → List ℕ
stored plain = plain

stored-IsDeflate : IsDeflate stored (λ packed. some packed)
stored-IsDeflate = record { bytes = λ plain h. h; inflates = λ plain h. refl }

canvas-IsCanvas : IsCanvas canvas
canvas-IsCanvas = record {
  bytes = omega arith;
  filled = refl;
  wide = omega arith;
  high = omega arith;
}

-- The first row as it is, and the second by its difference from the first.
lines : filter_scanlines canvas.pixels 1 2 ≡ 1 ∷ 1 ∷ 2 ∷ 3 ∷ 2 ∷ 0 ∷ 0 ∷ 1 ∷ []
unfolding filter_scanlines lines_from best choose score_from raw left above sub_byte up_byte
lines = refl

small : length (filter_scanlines canvas.pixels 1 2) < 4294967296
small = rw lines (omega arith)

decode-to_png_example :
    (png : List ℕ) × (to_png stored canvas ≡ some png)
    × (decode (λ packed. some packed) png ≡ some canvas)
decode-to_png_example =
    decode-to_png stored (λ packed. some packed) stored-IsDeflate canvas canvas-IsCanvas small
