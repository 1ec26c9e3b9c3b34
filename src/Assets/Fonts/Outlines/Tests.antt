-- ===== src/Assets/Fonts/Outlines/Tests.antt =====
-- Tests for outlines: a glyph that is its own component is refused. The numbers are kept as the
-- expressions that make them.
use fissionplane.Prelude.{ℕ, ◌≡◌, ◌≢◌, refl, Option, [], ◌∷◌}
use fissionplane.Prelude.Integers.{ℤ, pos}
use fissionplane.Assets.Fonts.{fault, spent, too_deep, read_u16, read_i16, read_i8}
use fissionplane.Assets.Fonts.Loading.{Font}
use fissionplane.Assets.Fonts.Outlines.{
  Floats, contours_of, contours_within, located, outline_of, components, component, read_offset,
  offset_bytes, read_placement,
}
use fissionplane.Assets.Fonts.Outlines.Ending.{contours_of-not_spent}

data Term : Type 0 where
  entry : Option ℤ → Term
  sum product : Term → Term → Term
  quotient : Term → ℕ → Term

abbrev terms : Floats Term
terms = record { of_entry = entry; plus = sum; times = product; over = quotient }

-- The components of glyph 0 are glyph 0.
abbrev font : Font
font = record {
  units_per_em = 1000;
  cap_height = pos 700;
  glyph_count = 1;
  metric_count = 1;
  loca = 0 ∷ 16 ∷ [];
  cmap = [];
  hmtx = 2 ∷ 88 ∷ [];
  glyf = 255 ∷ 255 ∷ 0 ∷ 0 ∷ 0 ∷ 0 ∷ 0 ∷ 0 ∷ 0 ∷ 0 ∷ 0 ∷ 2 ∷ 0 ∷ 0 ∷ 0 ∷ 0 ∷ [];
}

cyclic : contours_of terms font 0 ≡ fault too_deep
unfolding contours_of contours_within located outline_of components component read_offset
    offset_bytes read_placement read_u16 read_i16 read_i8
cyclic = refl

contours_of-not_spent_example : contours_of terms font 0 ≢ fault spent
contours_of-not_spent_example = contours_of-not_spent terms font 0
