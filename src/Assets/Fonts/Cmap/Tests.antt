-- ===== src/Assets/Fonts/Cmap/Tests.antt =====
-- Tests for the map of characters: a subtable of one segment with a glyph array.
use fissionplane.Prelude.{ℕ, ◌≡◌, refl, none, [], ◌∷◌}
use fissionplane.Assets.Fonts.{done, fault, out_of_range, Bytes, read_u16}
use fissionplane.Assets.Fonts.Cmap.{CharMap, glyph_in, Segment, read_segment, format_4}
use fissionplane.Assets.Fonts.Cmap.Segments.{glyph_of, segments_from, format_4-glyph_in}

-- The characters 65 to 67, whose glyphs are 5 + 1, the missing one and 9 + 1.
abbrev subtable : Bytes
subtable =
    0 ∷ 4 ∷ 0 ∷ 30 ∷ 0 ∷ 0 ∷ 0 ∷ 2 ∷ 0 ∷ 0 ∷ 0 ∷ 0 ∷ 0 ∷ 0 ∷ 0 ∷ 67 ∷ 0 ∷ 0 ∷ 0 ∷ 65 ∷ 0 ∷ 1 ∷ 0 ∷ 2
    ∷ 0 ∷ 5 ∷ 0 ∷ 0 ∷ 0 ∷ 9 ∷ []

abbrev segment : Segment
segment = record { end = 67; start = 65; delta = 1; range_offset = 2; range_offset_at = 22 }

format_4-runs : format_4 subtable 0 ≡ done ((67, 10) ∷ (65, 6) ∷ [])
unfolding format_4 read_u16
format_4-runs = refl

format_4-fails : format_4 [] 0 ≡ fault out_of_range
unfolding format_4 read_u16
format_4-fails = refl

sized : read_u16 subtable 6 ≡ done 2
unfolding read_u16
sized = refl

segments : segments_from subtable 0 2 1 0 ≡ done (segment ∷ [])
unfolding segments_from read_segment read_u16
segments = refl

format_4-glyph_in_example :
    (m : CharMap) × (format_4 subtable 0 ≡ done m)
    × ((c : ℕ) → glyph_in c m ≡ glyph_of subtable (segment ∷ []) c none)
format_4-glyph_in_example = format_4-glyph_in subtable 0 2 (segment ∷ []) sized segments
