-- ===== src/Assets/Fonts/Glyphs/Tests.antt =====
-- Tests for simple glyphs: a triangle and a segment, with steps of each kind.
use fissionplane.Prelude.{ℕ, ◌≡◌, refl, arith, List, [], ◌∷◌}
use fissionplane.Prelude.Integers.{ℤ, pos, ◌+ℤ◌}
use fissionplane.Assets.Fonts.{done, Bytes}
use fissionplane.Assets.Fonts.Glyphs.{read_simple_glyph}
use fissionplane.Assets.Fonts.Glyphs.Format.{
  HasWords, HasFlags, HasSteps, IsSimpleGlyph, nil, cons, single, run, up, down, still, wide,
  read_simple_glyph-IsSimpleGlyph,
}
use fissionplane.Assets.Fonts.Glyphs.Partition.{cut, joined}

-- Two contours that end at the points 2 and 4. The flag 63 is that of the first three points, whose
-- steps are bytes to the right and up; 7 is that of a step to the left and down; and 16 is that of a
-- step of a signed word downwards.
abbrev glyph : Bytes
glyph =
    0 ∷ 2 ∷ 0 ∷ 0 ∷ 0 ∷ 0 ∷ 0 ∷ 0 ∷ 0 ∷ 0 ∷ 0 ∷ 2 ∷ 0 ∷ 4 ∷ 0 ∷ 0 ∷ 63 ∷ 2 ∷ 7 ∷ 16 ∷ 1 ∷ 2 ∷ 3 ∷ 4
    ∷ 9 ∷ 8 ∷ 7 ∷ 5 ∷ 255 ∷ 246 ∷ []

abbrev tops : List ℕ
tops = 2 ∷ 4 ∷ []

abbrev flags : List ℕ
flags = 63 ∷ 63 ∷ 63 ∷ 7 ∷ 16 ∷ []

abbrev xs : List ℤ
xs = pos 1 ∷ pos 3 ∷ pos 6 ∷ pos 2 ∷ pos 2 ∷ []

abbrev ys : List ℤ
ys = pos 9 ∷ pos 17 ∷ pos 24 ∷ pos 19 ∷ pos 9 ∷ []

has_tops : HasWords glyph 10 tops
has_tops = cons 0 2 refl refl (cons 0 4 refl refl nil)

has_flags : HasFlags glyph 16 flags 20
has_flags = run 63 2 refl refl refl (single 7 refl refl (single 16 refl refl nil))

has_xs : HasSteps glyph 1 4 20 flags (pos 0) xs 24
unfolding ◌+ℤ◌
has_xs =
    up 1 refl refl refl
      (up 2 refl refl refl (up 3 refl refl refl (down 4 refl refl refl (still refl refl nil))))

has_ys : HasSteps glyph 2 5 24 flags (pos 0) ys 30
unfolding ◌+ℤ◌
has_ys = up 9 refl refl refl (
    up 8 refl refl refl
      (up 7 refl refl refl (down 5 refl refl refl (wide 255 246 refl refl refl refl nil))))

glyph-IsSimpleGlyph : IsSimpleGlyph glyph tops flags xs ys
glyph-IsSimpleGlyph = record {
  high = 0;
  low = 0;
  xs_at = 20;
  ys_at = 24;
  stop = 30;
  topped = has_tops;
  sized_high = refl;
  sized_low = refl;
  flagged = has_flags;
  wide = has_xs;
  tall = has_ys;
  counted = refl;
}

read_simple_glyph-IsSimpleGlyph_example :
    read_simple_glyph glyph 2 ≡ done (cut 0 tops (joined flags xs ys))
read_simple_glyph-IsSimpleGlyph_example =
    read_simple_glyph-IsSimpleGlyph glyph tops flags xs ys glyph-IsSimpleGlyph
      (omega arith, (omega arith, tt))
