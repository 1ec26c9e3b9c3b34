-- ===== src/Assets/Fonts/Outlines/Ending.antt =====
-- contoursOf ends: the fuel of the loop over the components never runs out.
use fissionplane.Prelude.{
  ℕ, zero, suc, ◌+◌, ◌*◌, ◌<◌, ◌≤◌, ◌≢◌, Option, none, some, List, [], ◌∷◌, length, get_elem?, leb,
  Bool-cases, inl, inr, arith,
}
use fissionplane.Prelude.Integers.{ℤ, pos, negsuc}
use fissionplane.Assets.Fonts.{
  Reading, fault, Bytes, spent, too_deep, no_glyph, point_matched, out_of_range, subarray, has_bit,
}
use fissionplane.Assets.Fonts.Ends.{
  Ends, ends, throws, Anything, Ends-not_spent, Ends->>=, Ends-if, read_u16-Ends, read_i16-Ends,
  read_i8-Ends,
}
use fissionplane.Assets.Fonts.Glyphs.{
  point_count, end_points, flags_from, advance, coordinates, read_simple_glyph,
}
use fissionplane.Assets.Fonts.Loading.{Font}
use fissionplane.Assets.Fonts.Outlines.{
  Floats, Outline, f2dot14, offset_words, offset_bytes, read_offset, one_scale, two_scales, matrix,
  read_placement, component, components, outline_of, located, contours_within, contours_of,
}

module _ (glyph : Bytes) where
  end_points-Ends : (count index : ℕ) → Ends Anything (end_points glyph count index)
  unfolding end_points
  end_points-Ends zero index = (ends _ tt)
  end_points-Ends (suc count) index =
      Ends->>= (read_u16-Ends glyph (10 + index * 2))
        λ end h. Ends->>= (end_points-Ends count (suc index)) λ rest h'. (ends _ tt)

  advance-Ends :
      (short same flag : ℕ) (value : Option ℤ) (at : ℕ)
      → Ends Anything (advance glyph short same flag value at)
  unfolding advance
  advance-Ends short same flag value at = Ends-if (has_bit flag short) (ends _ tt) (
      Ends-if (has_bit flag same) (ends _ tt)
        (Ends->>= (read_i16-Ends glyph at) λ delta h. (ends _ tt)))

  coordinates-Ends :
      (short same : ℕ) (flags : List ℕ) (value : Option ℤ) (at : ℕ)
      → Ends Anything (coordinates glyph short same flags value at)
  unfolding coordinates
  coordinates-Ends short same [] value at = (ends _ tt)
  coordinates-Ends short same (flag ∷ flags) value at =
      Ends->>= (advance-Ends short same flag value at)
        λ next h. Ends->>= (coordinates-Ends short same flags next.0 next.1) λ rest h'. (ends _ tt)

  read_simple_glyph-Ends : (count : ℕ) → Ends Anything (read_simple_glyph glyph count)
  unfolding read_simple_glyph
  read_simple_glyph-Ends count = Ends->>= (end_points-Ends count 0) λ lasts h.
      Ends->>= (read_u16-Ends glyph (10 + count * 2)) λ size h'.
        let (flags, at) = flags_from glyph (point_count lasts) (10 + count * 2 + (2 + size)) 0 0 in
        Ends->>= (coordinates-Ends 1 4 flags (some (pos 0)) at)
          λ xs h''. Ends->>= (coordinates-Ends 2 5 flags (some (pos 0)) xs.1) λ ys h3. (ends _ tt)

module _ {F : Type 0} (floats : Floats F) (glyph : Bytes) where
  f2dot14-Ends : (offset : ℕ) → Ends Anything (f2dot14 floats glyph offset)
  unfolding f2dot14
  f2dot14-Ends offset = Ends->>= (read_i16-Ends glyph offset) λ n h. (ends _ tt)

  read_offset-Ends :
      (flags at : ℕ) → Ends (λ offset. at ≤ offset.2) (read_offset floats glyph flags at)
  unfolding read_offset offset_words offset_bytes
  read_offset-Ends flags at =
      Ends-if (has_bit flags 0)
        (Ends->>= (read_i16-Ends glyph at)
          λ dx h. Ends->>= (read_i16-Ends glyph (at + 2)) λ dy h'. ends _ (omega arith))
        (Ends->>= (read_i8-Ends glyph at)
          λ dx h. Ends->>= (read_i8-Ends glyph (at + 1)) λ dy h'. ends _ (omega arith))

  module _ (dx dy : F) (at : ℕ) where
    matrix-Ends : Ends (λ placed. at ≤ placed.1) (matrix floats glyph dx dy at)
    unfolding matrix
    matrix-Ends = Ends->>= (f2dot14-Ends at) λ a h. Ends->>= (f2dot14-Ends (at + 2)) λ b h'.
        Ends->>= (f2dot14-Ends (at + 4))
          λ c h''. Ends->>= (f2dot14-Ends (at + 6)) λ d h3. ends _ (omega arith)

    read_placement-Ends :
        (flags : ℕ) → Ends (λ placed. at ≤ placed.1) (read_placement floats glyph dx dy at flags)
    unfolding read_placement one_scale two_scales
    read_placement-Ends flags =
        Ends-if (has_bit flags 3) (Ends->>= (f2dot14-Ends at) λ a h. ends _ (omega arith)) (
          Ends-if (has_bit flags 6)
            (Ends->>= (f2dot14-Ends at)
              λ a h. Ends->>= (f2dot14-Ends (at + 2)) λ d h'. ends _ (omega arith))
            (Ends-if (has_bit flags 7) matrix-Ends (ends _ (omega arith))))

  module _ (inner : ℕ → Reading (Outline floats)) (h : (id : ℕ) → Ends Anything (inner id)) where
    -- A component begins within the glyph, and the place goes on.
    component-Ends :
        (at : ℕ)
        → Ends (λ r. (at + 1 < length glyph) × (at < r.2)) (component floats glyph inner at)
    unfolding component
    component-Ends at = Ends->>= (read_u16-Ends glyph at) λ flags inside.
        Ends->>= (read_u16-Ends glyph (at + 2)) λ id h'.
          Ends->>= (read_offset-Ends flags (at + 4)) λ o later.
            Ends->>= (read_placement-Ends o.0 o.1 o.2 flags) λ p later'.
              Ends->>= (Ends-if (has_bit flags 1) (h id) (throws point_matched λ e. absurd (cc)))
                λ outline h3. ends _ (inside, omega arith)

    components-Ends :
        (fuel at : ℕ)
        → 1 ≤ fuel
        → length glyph ≤ fuel + at
        → Ends Anything (components floats glyph inner fuel at)
    unfolding components
    components-Ends zero at some_left enough = absurd (omega arith)
    components-Ends (suc fuel) at some_left enough =
        Ends->>= (component-Ends at) λ first (inside, later).
          elim (Bool-cases (has_bit first.1 5)) [
            | inl e ↦ rw e (
                Ends->>= (components-Ends fuel first.2 (omega arith) (omega arith))
                  λ rest h'. (ends _ tt))
            | inr e ↦ rw e (ends _ tt)
          ]

    outline_of-Ends :
        (count : ℤ) → 1 < length glyph → Ends Anything (outline_of floats glyph inner count)
    unfolding outline_of
    outline_of-Ends (pos count) filled =
        Ends->>= (read_simple_glyph-Ends glyph count) λ contours h'. ends _ tt
    outline_of-Ends (negsuc n) filled =
        components-Ends (length glyph) 10 (omega arith) (omega arith)

module _ {F : Type 0} (floats : Floats F) (font : Font) where
  located-Ends :
      (inner : ℕ → Reading (Outline floats)) (start end : Option ℕ)
      → ((id : ℕ) → Ends Anything (inner id))
      → Ends Anything (located floats font inner start end)
  unfolding located
  located-Ends inner none end h = throws out_of_range λ e. absurd (cc)
  located-Ends inner (some start) none h = throws out_of_range λ e. absurd (cc)
  located-Ends inner (some start) (some end) h =
      let glyph = subarray font.glyf start end in
      Ends-if (leb end start) (ends _ tt) (
        Ends->>= (read_i16-Ends glyph 0)
          λ count filled. outline_of-Ends floats glyph inner h count (omega arith))

  contours_within-Ends :
      (left glyph_id : ℕ) → Ends Anything (contours_within floats font left glyph_id)
  unfolding contours_within
  contours_within-Ends zero glyph_id = throws too_deep λ e. absurd (cc)
  contours_within-Ends (suc left) glyph_id =
      Ends-if (leb font.glyph_count glyph_id) (throws (no_glyph glyph_id) λ e. absurd (cc)) (
        located-Ends (contours_within floats font left) (get_elem? font.loca glyph_id)
          (get_elem? font.loca (glyph_id + 1)) (contours_within-Ends left))

-- Whatever the bytes of a font are, the outline of a glyph is made or one of the source's errors is
-- thrown: neither the components of a glyph nor glyphs within glyphs go on for ever.
pub contours_of-not_spent :
    {F : Type 0} (floats : Floats F) (font : Font) (glyph_id : ℕ)
    → contours_of floats font glyph_id ≢ fault spent
unfolding contours_of
contours_of-not_spent floats font glyph_id =
    Ends-not_spent (contours_within-Ends floats font 5 glyph_id)
