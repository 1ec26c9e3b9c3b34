-- ===== src/Assets/Fonts/Cmap.antt =====
-- scripts/lib/woff.mjs, parseCmap: the map of characters to glyphs.
pub mod Segments
mod Tests
use fissionplane.Prelude.{
  ℕ, zero, suc, ◌+◌, ◌-◌, ◌*◌, ◌/◌, ◌%◌, Bool, ◌&&◌, Option, none, some, List, [], ◌∷◌, length, eqb,
  ltb, leb, if◌then◌else◌,
}
use fissionplane.Assets.Fonts.{
  no_subtable, unsupported_format, Reading, done, fault, ◌>>=◌, Bytes, read_u16, read_u32,
}

-- What was set last stands in front.
abbrev pub CharMap : Type 0
CharMap = List (ℕ × ℕ)

abbrev pub glyph_in : ℕ → CharMap → Option ℕ
glyph_in code [] = none
glyph_in code ((c, glyph) ∷ map) = if eqb c code then some glyph else glyph_in code map

abbrev pub score : ℕ → ℕ → ℕ
score platform encoding =
    if eqb platform 3 && eqb encoding 10
    then 4
    else if eqb platform 3 && eqb encoding 1
    then 3
    else if eqb platform 0
    then 2
    else 1

-- `bestScore` and `bestOffset`, which are both -1 at first.
abbrev pub better : ℕ → ℕ → Option (ℕ × ℕ) → Option (ℕ × ℕ)
better new offset none = some (new, offset)
better new offset (some (top, best)) = if ltb top new then some (new, offset) else some (top, best)

-- A segment of format 4. `idDelta` is kept as the bits of its word, since it is only added modulo 2 ^ 16.
pub record Segment : Type 0 where
  pub end : ℕ
  pub start : ℕ
  pub delta : ℕ
  pub range_offset : ℕ
  pub range_offset_at : ℕ

module _ (cmap : Bytes) where
  unfoldable pub best_subtable : ℕ → ℕ → Option (ℕ × ℕ) → Reading (Option (ℕ × ℕ))
  best_subtable zero index best = done best
  best_subtable (suc count) index best = do
    let record_ = 4 + index * 8
    platform ← read_u16 cmap record_
    encoding ← read_u16 cmap (record_ + 2)
    offset ← read_u32 cmap (record_ + 4)
    best_subtable count (suc index) (better (score platform encoding) offset best)

  abbrev pub shifted : ℕ → ℕ → ℕ
  shifted raw delta = if eqb raw 0 then 0 else (raw + delta) % 65536

  -- The glyph of a character of a segment; none where the loop goes on to the next character.
  unfoldable pub glyph_at : Segment → ℕ → Reading (Option ℕ)
  glyph_at s code =
      let at = s.range_offset_at + s.range_offset + (code - s.start) * 2 in
      if eqb s.range_offset 0
      then done (some ((code + s.delta) % 65536))
      else if leb (length cmap) (at + 1)
      then done none
      else (read_u16 cmap at >>= λ raw. done (some (shifted raw s.delta)))

  abbrev pub put : ℕ → Option ℕ → CharMap → CharMap
  put code none map = map
  put code (some glyph) map = if eqb glyph 0 then map else (code, glyph) ∷ map

  -- The loop over `code`, of which `count` are left.
  unfoldable pub fill : Segment → ℕ → ℕ → CharMap → Reading CharMap
  unfolding glyph_at
  fill s zero code map = done map
  fill s (suc count) code map = do
    glyph ← glyph_at s code
    fill s count (suc code) (put code glyph map)

  unfoldable pub fill_segment : Segment → CharMap → Reading CharMap
  unfolding fill
  fill_segment s map =
      if eqb s.start 65535 then done map else fill s (s.end + 1 - s.start) s.start map

  -- `size` is `segCount * 2`; where it is odd, the loop runs once more than its half.
  unfoldable pub read_segment : (offset size segment : ℕ) → Reading Segment
  read_segment offset size segment = do
    let end_codes = offset + 14
    let start_codes = end_codes + size + 2
    let id_deltas = start_codes + size
    let id_range_offsets = id_deltas + size
    end ← read_u16 cmap (end_codes + segment * 2)
    start ← read_u16 cmap (start_codes + segment * 2)
    delta ← read_u16 cmap (id_deltas + segment * 2)
    range_offset ← read_u16 cmap (id_range_offsets + segment * 2)
    done (record {
      end = end;
      start = start;
      delta = delta;
      range_offset = range_offset;
      range_offset_at = id_range_offsets + segment * 2;
    })

  unfoldable pub fill_segments : (offset size count segment : ℕ) → CharMap → Reading CharMap
  unfolding read_segment fill_segment
  fill_segments offset size zero segment map = done map
  fill_segments offset size (suc count) segment map = do
    s ← read_segment offset size segment
    map' ← fill_segment s map
    fill_segments offset size count (suc segment) map'

  unfoldable pub format_4 : ℕ → Reading CharMap
  unfolding fill_segments
  format_4 offset = do
    size ← read_u16 cmap (offset + 6)
    fill_segments offset size ((size + 1) / 2) 0 []

  unfoldable pub spread : ℕ → ℕ → ℕ → CharMap → CharMap
  spread zero code glyph map = map
  spread (suc count) code glyph map = spread count (suc code) (suc glyph) ((code, glyph) ∷ map)

  unfoldable pub fill_groups : (offset count group : ℕ) → CharMap → Reading CharMap
  unfolding spread
  fill_groups offset zero group map = done map
  fill_groups offset (suc count) group map = do
    let at = offset + 16 + group * 12
    start ← read_u32 cmap at
    end ← read_u32 cmap (at + 4)
    start_glyph ← read_u32 cmap (at + 8)
    fill_groups offset count (suc group) (spread (end + 1 - start) start start_glyph map)

  unfoldable pub format_12 : ℕ → Reading CharMap
  unfolding fill_groups
  format_12 offset = do count ← read_u32 cmap (offset + 12); fill_groups offset count 0 []

  unfoldable pub by_format : ℕ → ℕ → Reading CharMap
  unfolding format_4 format_12
  by_format offset format =
      if eqb format 4
      then format_4 offset
      else if eqb format 12
      then format_12 offset
      else fault (unsupported_format format)

  unfoldable pub with_subtable : Option (ℕ × ℕ) → Reading CharMap
  unfolding by_format
  with_subtable none = fault no_subtable
  with_subtable (some (top, offset)) = do format ← read_u16 cmap offset; by_format offset format

  unfoldable pub parse_cmap : Reading CharMap
  unfolding best_subtable with_subtable
  parse_cmap = do count ← read_u16 cmap 2; best ← best_subtable count 0 none; with_subtable best
