-- ===== src/Assets/Fonts/Cmap/Segments.antt =====
-- The map of format 4 against its description in the OpenType specification.
use fissionplane.Prelude.{
  ℕ, zero, suc, ◌+◌, ◌-◌, ◌*◌, ◌/◌, ◌%◌, ◌≡◌, refl, sym, ap, ◌∙◌, inl, inr, Bool, true, false, not,
  ◌&&◌, Option, none, some, List, [], ◌∷◌, length, get_elem?, get_elem?-some, get_elem?-none, eqb,
  eqb→eq, ltb, leb, leb→le, not-leb→lt, Bool-cases, arith, if◌then◌else◌,
}
use fissionplane.Assets.Fonts.{Reading, done, ◌>>=◌, >>=-eq-done, Bytes, read_u16, read_u16-done}
use fissionplane.Assets.Fonts.Cmap.{
  CharMap, glyph_in, Segment, shifted, glyph_at, put, fill, fill_segment, read_segment,
  fill_segments, format_4,
}

abbrev pub first_of_two : Option ℕ → Option ℕ → Option ℕ
first_of_two (some glyph) base = some glyph
first_of_two none base = base

-- Glyph 0 is the missing one.
abbrev pub present : ℕ → Option ℕ
present glyph = if eqb glyph 0 then none else some glyph

abbrev pub through : ℕ → Option ℕ → Option ℕ → Option ℕ
through delta (some a) (some b) =
    if eqb (a * 256 + b) 0 then none else present ((a * 256 + b + delta) % 65536)
through delta (some a) none = none
through delta none b = none

module _ (cmap : Bytes) where
  -- The glyph that a segment gives a character: by its delta, or by way of the glyph array.
  abbrev pub segment_glyph : Segment → ℕ → Option ℕ
  segment_glyph s code =
      let at = s.range_offset_at + s.range_offset + (code - s.start) * 2 in
      if eqb s.range_offset 0
      then present ((code + s.delta) % 65536)
      else through s.delta (get_elem? cmap at) (get_elem? cmap (at + 1))

  abbrev pub covers : Segment → ℕ → Bool
  covers s code = not (eqb s.start 65535) && (leb s.start code && leb code s.end)

  -- The last segment that covers a character and has a glyph for it.
  abbrev pub glyph_of : List Segment → ℕ → Option ℕ → Option ℕ
  glyph_of [] code base = base
  glyph_of (s ∷ ss) code base =
      glyph_of ss code (if covers s code then first_of_two (segment_glyph s code) base else base)

  unfoldable pub segments_from : (offset size count segment : ℕ) → Reading (List Segment)
  segments_from offset size zero segment = done []
  segments_from offset size (suc count) segment = do
    s ← read_segment cmap offset size segment
    ss ← segments_from offset size count (suc segment)
    done (s ∷ ss)

  abbrev solid : Option ℕ → Option ℕ
  solid none = none
  solid (some glyph) = present glyph

  through-none : (delta : ℕ) (a : Option ℕ) → through delta a none ≡ none
  through-none delta none = refl
  through-none delta (some a) = refl

  present-shifted :
      (raw delta : ℕ)
      → present (shifted cmap raw delta)
        ≡ (if eqb raw 0 then none else present ((raw + delta) % 65536))
  present-shifted raw delta = elim (Bool-cases (eqb raw 0)) [
    | inl e ↦ rw e refl
    | inr e ↦ rw e refl
  ]

  glyph_at-done :
      (s : Segment) (code : ℕ)
      → (g : Option ℕ) × (glyph_at cmap s code ≡ done g) × (solid g ≡ segment_glyph s code)
  unfolding glyph_at
  glyph_at-done s code =
      let at = s.range_offset_at + s.range_offset + (code - s.start) * 2 in
      elim (Bool-cases (eqb s.range_offset 0)) [
        | inl e ↦ (some ((code + s.delta) % 65536), rw e refl, rw e refl)
        | inr e ↦ elim (Bool-cases (leb (length cmap) (at + 1))) [
          | inl e' ↦ (
            none,
            rw (e, e') refl,
            rw (e, get_elem?-none cmap (at + 1) (leb→le _ _ e'))
                (sym (through-none s.delta (get_elem? cmap at))),
          )
          | inr e' ↦
              let inside = not-leb→lt _ _ e' in
              let (a, first) = get_elem?-some cmap at (omega arith) in
              let (b, second) = get_elem?-some cmap (at + 1) inside in
              (
                some (shifted cmap (a * 256 + b) s.delta),
                rw (e, e', read_u16-done cmap at a b first second) refl,
                rw (e, first, second) (present-shifted (a * 256 + b) s.delta),
              )
        ]
      ]

  glyph_in-put :
      (c code : ℕ) (g : Option ℕ) (map : CharMap)
      → glyph_in c (put cmap code g map)
        ≡ (if eqb code c then first_of_two (solid g) (glyph_in c map) else glyph_in c map)
  glyph_in-put c code none map = elim (Bool-cases (eqb code c)) [
    | inl e ↦ rw e refl
    | inr e ↦ rw e refl
  ]
  glyph_in-put c code (some g) map = elim (Bool-cases (eqb g 0)) [
    | inl e ↦ elim (Bool-cases (eqb code c)) [ inl e' ↦ rw (e, e') refl | inr e' ↦ rw (e, e') refl ]
    | inr e ↦ elim (Bool-cases (eqb code c)) [ inl e' ↦ rw (e, e') refl | inr e' ↦ rw (e, e') refl ]
  ]

  -- A character is one of the next `count` ones.
  abbrev within : ℕ → ℕ → ℕ → Bool
  within code count c = leb code c && ltb c (code + count)

  within-here : (code count c : ℕ) → code ≡ c → within (suc code) count c ≡ false
  within-here code count c e = ground arith

  within-now : (code count c : ℕ) → code ≡ c → within code (suc count) c ≡ true
  within-now code count c e = ground arith

  within-later :
      (code count c : ℕ)
      → eqb code c ≡ false
      → within code (suc count) c ≡ within (suc code) count c
  within-later code count c e = ground arith

  -- One turn of the loop over the characters of a segment.
  fill-step :
      (glyph : ℕ → Option ℕ) (code count c : ℕ) (base now : Option ℕ)
      → now ≡ (if eqb code c then first_of_two (glyph code) base else base)
      → (if within (suc code) count c then first_of_two (glyph c) now else now)
        ≡ (if within code (suc count) c then first_of_two (glyph c) base else base)
  fill-step glyph code count c base now h = elim (Bool-cases (eqb code c)) [
    | inl e ↦
        let same = eqb→eq code c e in
        let set : now ≡ first_of_two (glyph code) base = rw e at h in
        rw (within-here code count c same, within-now code count c same, set, same) refl
    | inr e ↦ let kept : now ≡ base = rw e at h in rw (within-later code count c e, kept) refl
  ]

  fill-glyph_in :
      (s : Segment) (count code : ℕ) (map : CharMap)
      → (m : CharMap) × (fill cmap s count code map ≡ done m)
        × ((c : ℕ)
            → glyph_in c m ≡ (
                if within code count c
                then first_of_two (segment_glyph s c) (glyph_in c map)
                else glyph_in c map))
  unfolding fill
  fill-glyph_in s zero code map =
      (map, refl, λ c. let outside : within code 0 c ≡ false = ground arith in rw outside refl)
  fill-glyph_in s (suc count) code map =
      let (g, e, same) = glyph_at-done s code in
      let (m, run, spec) = fill-glyph_in s count (suc code) (put cmap code g map) in
      (
        m,
        rw e run,
        λ c.
            spec c
            ∙ fill-step (segment_glyph s) code count c (glyph_in c map)
                (glyph_in c (put cmap code g map)) (rw (← same) (glyph_in-put c code g map)),
      )

  covers-within :
      (s : Segment) (c : ℕ)
      → eqb s.start 65535 ≡ false
      → within s.start (s.end + 1 - s.start) c ≡ covers s c
  covers-within s c e = rw e (ground arith)

  fill_segment-glyph_in :
      (s : Segment) (map : CharMap)
      → (m : CharMap) × (fill_segment cmap s map ≡ done m)
        × ((c : ℕ)
            → glyph_in c m ≡ (
                if covers s c
                then first_of_two (segment_glyph s c) (glyph_in c map)
                else glyph_in c map))
  unfolding fill_segment
  fill_segment-glyph_in s map = elim (Bool-cases (eqb s.start 65535)) [
    | inl e ↦ (map, rw e refl, λ c. rw e refl)
    | inr e ↦
        let (m, run, spec) = fill-glyph_in s (s.end + 1 - s.start) s.start map in
        (m, rw e run, λ c. rw (← covers-within s c e) (spec c))
  ]

  fill_segments-glyph_in :
      (offset size count segment : ℕ) (map : CharMap) (ss : List Segment)
      → segments_from offset size count segment ≡ done ss
      → (m : CharMap) × (fill_segments cmap offset size count segment map ≡ done m)
        × ((c : ℕ) → glyph_in c m ≡ glyph_of ss c (glyph_in c map))
  unfolding fill_segments segments_from
  fill_segments-glyph_in offset size zero segment map ss h =
      let none_left : [] ≡ ss = cc in (map, refl, λ c. rw (← none_left) refl)
  fill_segments-glyph_in offset size (suc count) segment map ss h =
      let (s, first, h') = >>=-eq-done (read_segment cmap offset size segment) _ h in
      let (rest, later, h'') = >>=-eq-done (segments_from offset size count (suc segment)) _ h' in
      let whole : s ∷ rest ≡ ss = cc in
      let (map', run, spec) = fill_segment-glyph_in s map in
      let (m, runs, specs) =
        fill_segments-glyph_in offset size count (suc segment) map' rest later in
      (m, rw (first, run) runs, λ c. rw (← whole) (specs c ∙ ap (λ b. glyph_of rest c b) (spec c)))

  -- Where the segments of a subtable of format 4 can be read, its map is made, and the glyph of each
  -- character is that of the last segment that covers it and has a glyph for it.
  pub format_4-glyph_in :
      (offset size : ℕ) (ss : List Segment)
      → read_u16 cmap (offset + 6) ≡ done size
      → segments_from offset size ((size + 1) / 2) 0 ≡ done ss
      → (m : CharMap) × (format_4 cmap offset ≡ done m)
        × ((c : ℕ) → glyph_in c m ≡ glyph_of ss c none)
  unfolding format_4
  format_4-glyph_in offset size ss sized h =
      let (m, run, spec) = fill_segments-glyph_in offset size ((size + 1) / 2) 0 [] ss h in
      (m, rw sized run, spec)
