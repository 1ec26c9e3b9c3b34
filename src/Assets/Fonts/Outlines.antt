-- ===== src/Assets/Fonts/Outlines.antt =====
-- scripts/lib/woff.mjs, contoursOf. `Floats` stands for the arithmetic of JavaScript's numbers.
pub mod Ending
mod Tests
use fissionplane.Prelude.{
  ℕ, zero, suc, ◌+◌, ◌-◌, ◌*◌, ◌≡◌, Bool, true, false, not, Option, none, some, List, [], ◌∷◌, ◌++◌,
  map, length, codes, eqb, leb, min, if◌then◌else◌, get_elem?,
}
use fissionplane.Prelude.Integers.{ℤ, pos, negsuc}
use fissionplane.Assets.Fonts.{
  Reading, done, fault, ◌>>=◌, Bytes, read_u16, read_u32, read_i16, read_i8, subarray, has_bit,
  too_deep, no_glyph, point_matched, spent, no_character, out_of_range,
}
use fissionplane.Assets.Fonts.Loading.{Font}
use fissionplane.Assets.Fonts.Woff.{Tables, table_of, require_table, decode_woff}
use fissionplane.Assets.Fonts.Cmap.{CharMap, glyph_in, parse_cmap}
use fissionplane.Assets.Fonts.Glyphs.{Point, read_simple_glyph}

-- `of_entry none` is undefined.
pub record Floats (F : Type 0) : Type 0 where
  pub of_entry : Option ℤ → F
  pub plus : F → F → F
  pub times : F → F → F
  pub over : F → ℕ → F

-- The matrix and the offset of a component.
pub record Placement (F : Type 0) : Type 0 where
  pub a : F
  pub b : F
  pub c : F
  pub d : F
  pub dx : F
  pub dy : F

module _ {F : Type 0} (floats : Floats F) where
  abbrev pub Outline : Type 0
  Outline = List (List (Point F))

  abbrev pub whole : ℤ → F
  whole n = floats.of_entry (some n)

  unfoldable pub place : Placement F → Point F → Point F
  place p point = record {
    x = floats.plus (floats.plus (floats.times p.a point.x) (floats.times p.c point.y)) p.dx;
    y = floats.plus (floats.plus (floats.times p.b point.x) (floats.times p.d point.y)) p.dy;
    on_curve = point.on_curve;
  }

  abbrev pub as_floats : Point (Option ℤ) → Point F
  as_floats point = record {
    x = floats.of_entry point.x;
    y = floats.of_entry point.y;
    on_curve = point.on_curve;
  }

  module _ (glyph : Bytes) where
    -- `f2dot14`.
    unfoldable pub f2dot14 : ℕ → Reading F
    f2dot14 offset = do n ← read_i16 glyph offset; done (floats.over (whole n) 16384)

    -- `dx` and `dy`, and the place after them.
    unfoldable pub offset_words : ℕ → Reading (F × F × ℕ)
    offset_words at = do
      dx ← read_i16 glyph at
      dy ← read_i16 glyph (at + 2)
      done (whole dx, whole dy, at + 4)

    unfoldable pub offset_bytes : ℕ → Reading (F × F × ℕ)
    offset_bytes at = do
      dx ← read_i8 glyph at
      dy ← read_i8 glyph (at + 1)
      done (whole dx, whole dy, at + 2)

    unfoldable pub read_offset : ℕ → ℕ → Reading (F × F × ℕ)
    unfolding offset_words offset_bytes
    read_offset flags at = if has_bit flags 0 then offset_words at else offset_bytes at

    module _ (dx dy : F) (at : ℕ) where
      abbrev pub placed : F → F → F → F → ℕ → Placement F × ℕ
      placed a b c d after = (record { a = a; b = b; c = c; d = d; dx = dx; dy = dy }, after)

      unfoldable pub one_scale : Reading (Placement F × ℕ)
      unfolding f2dot14
      one_scale = do a ← f2dot14 at; done (placed a (whole (pos 0)) (whole (pos 0)) a (at + 2))

      unfoldable pub two_scales : Reading (Placement F × ℕ)
      unfolding f2dot14
      two_scales = do
        a ← f2dot14 at
        d ← f2dot14 (at + 2)
        done (placed a (whole (pos 0)) (whole (pos 0)) d (at + 4))

      unfoldable pub matrix : Reading (Placement F × ℕ)
      unfolding f2dot14
      matrix = do
        a ← f2dot14 at
        b ← f2dot14 (at + 2)
        c ← f2dot14 (at + 4)
        d ← f2dot14 (at + 6)
        done (placed a b c d (at + 8))

      unfoldable pub read_placement : ℕ → Reading (Placement F × ℕ)
      unfolding one_scale two_scales matrix
      read_placement flags =
          if has_bit flags 3
          then one_scale
          else if has_bit flags 6
          then two_scales
          else if has_bit flags 7
          then matrix
          else done (placed (whole (pos 1)) (whole (pos 0)) (whole (pos 0)) (whole (pos 1)) at)

    -- One component: its outline where it is placed, its flags and the place after it.
    unfoldable pub component : (ℕ → Reading Outline) → ℕ → Reading (Outline × ℕ × ℕ)
    unfolding read_offset read_placement place
    component inner at = do
      flags ← read_u16 glyph at
      component_id ← read_u16 glyph (at + 2)
      offset ← read_offset flags (at + 4)
      placement ← read_placement offset.0 offset.1 offset.2 flags
      outline ← (if has_bit flags 1 then inner component_id else fault point_matched)
      done (map (map (place placement.0)) outline, flags, placement.1)

    -- The loop over the components, on fuel.
    unfoldable pub components : (ℕ → Reading Outline) → (fuel at : ℕ) → Reading Outline
    unfolding component
    components inner zero at = fault spent
    components inner (suc fuel) at = do
      first ← component inner at
      rest ← elim (has_bit first.1 5) [ true ↦ components inner fuel first.2 | false ↦ done [] ]
      done (first.0 ++ rest)

    -- The length of a glyph is fuel enough: a component takes six bytes at least.
    unfoldable pub outline_of : (ℕ → Reading Outline) → ℤ → Reading Outline
    unfolding components
    outline_of inner (pos count) = do
      contours ← read_simple_glyph glyph count
      done (map (map as_floats) contours)
    outline_of inner (negsuc n) = components inner (length glyph) 10

  -- `loca` has one entry more than there are glyphs, so that none is missing. `depth` is 5 less
  -- `left`, and more than 4 where no level is left.
  module _ (font : Font) where
    unfoldable pub located : (ℕ → Reading Outline) → Option ℕ → Option ℕ → Reading Outline
    unfolding outline_of
    located inner (some start) (some end) =
        let glyph = subarray font.glyf start end in
        if leb end start
        then done []
        else (read_i16 glyph 0 >>= λ count. outline_of glyph inner count)
    located inner (some start) none = fault out_of_range
    located inner none end = fault out_of_range

    unfoldable pub contours_within : (left : ℕ) → ℕ → Reading Outline
    unfolding located
    contours_within zero glyph_id = fault too_deep
    contours_within (suc left) glyph_id =
        let inner = contours_within left in
        if leb font.glyph_count glyph_id
        then fault (no_glyph glyph_id)
        else located inner (get_elem? font.loca glyph_id) (get_elem? font.loca (glyph_id + 1))

    unfoldable pub contours_of : ℕ → Reading Outline
    unfolding contours_within
    contours_of = contours_within 5
