-- ===== src/Assets/Scanlines/Tests.antt =====
-- An image of two columns and two rows.
use fissionplane.Prelude.{ℕ, ◌<◌, arith, ◌≡◌, refl, List, [], ◌∷◌, All}
use fissionplane.Assets.Scanlines.{
  filter_scanlines, lines_from, best, choose, score_from, raw, left, above, sub_byte, up_byte,
}

abbrev pixels : List ℕ
pixels = 200 ∷ 0 ∷ 9 ∷ 201 ∷ 255 ∷ 9 ∷ 200 ∷ 0 ∷ 9 ∷ 200 ∷ 0 ∷ 9 ∷ []

pixels_bytes : All (λ x. x < 256) pixels
pixels_bytes = omega arith

-- Both rows are cheapest by the difference from the pixel to the left.
lines :
    filter_scanlines pixels 2 2 ≡ 1 ∷ 200 ∷ 0 ∷ 9 ∷ 1 ∷ 255 ∷ 0 ∷ 2 ∷ 0 ∷ 0 ∷ 0 ∷ 255 ∷ 1 ∷ 0 ∷ []
unfolding filter_scanlines lines_from best choose score_from raw left above sub_byte up_byte
lines = refl
