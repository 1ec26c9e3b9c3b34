-- ===== src/Assets/Fonts/Glyphs/Format.antt =====
-- woff.mjs, readSimpleGlyph: the format of a simple glyph, what the bytes behind a place of it hold.
use fissionplane.Prelude.{
  ℕ, zero, suc, ◌+◌, ◌*◌, ◌≡◌, refl, ap, ◌∙◌, true, false, some, List, [], ◌∷◌, length, get_elem?,
  arith,
}
use fissionplane.Prelude.Integers.{ℤ, pos, ◌+ℤ◌, minus, signed_16}
use fissionplane.Assets.Fonts.{done, Bytes, read_u16-done, read_i16, has_bit}
use fissionplane.Assets.Fonts.Glyphs.{
  point_count, end_points, flags_from, advance, coordinates, read_simple_glyph,
}
use fissionplane.Assets.Fonts.Glyphs.Partition.{
  Ascends, cut, joined, after, contours_from-joined, after_zero,
}

-- `n` times the flag before the others.
abbrev pub repeated : ℕ → ℕ → List ℕ → List ℕ
repeated zero flag flags = flags
repeated (suc n) flag flags = flag ∷ repeated n flag flags

module _ (glyph : Bytes) where
  -- From the place on, two bytes for each word, the high one first.
  pub data HasWords : ℕ → List ℕ → Type 0 where
    nil : {at : ℕ} → HasWords at []
    cons :
        {at : ℕ} {words : List ℕ} (high low : ℕ)
        → get_elem? glyph at ≡ some high
        → get_elem? glyph (at + 1) ≡ some low
        → HasWords (at + 2) words
        → HasWords at ((high * 256 + low) ∷ words)

  -- From the place on, up to the other, the flags: a flag with bit 3 has the count of its further
  -- copies behind it, one without stands for itself.
  pub data HasFlags : ℕ → List ℕ → ℕ → Type 0 where
    nil : {at : ℕ} → HasFlags at [] at
    single :
        {at at' : ℕ} {flags : List ℕ} (flag : ℕ)
        → get_elem? glyph at ≡ some flag
        → has_bit flag 3 ≡ false
        → HasFlags (at + 1) flags at'
        → HasFlags at (flag ∷ flags) at'
    run :
        {at at' : ℕ} {flags : List ℕ} (flag copies : ℕ)
        → get_elem? glyph at ≡ some flag
        → has_bit flag 3 ≡ true
        → get_elem? glyph (at + 1) ≡ some copies
        → HasFlags (at + 2) flags at'
        → HasFlags at (flag ∷ repeated copies flag flags) at'

  -- From the place on, up to the other, the steps from a value to the next ones, one for each flag:
  -- with the bit `short` a byte, that goes up with the bit `same` and down without it; without
  -- `short`, no step where `same` is set, and else a signed word.
  pub data HasSteps (short same : ℕ) : ℕ → List ℕ → ℤ → List ℤ → ℕ → Type 0 where
    nil : {at : ℕ} {value : ℤ} → HasSteps short same at [] value [] at
    up :
        {at at' flag : ℕ} {flags : List ℕ} {value : ℤ} {values : List ℤ} (step : ℕ)
        → has_bit flag short ≡ true
        → has_bit flag same ≡ true
        → get_elem? glyph at ≡ some step
        → HasSteps short same (at + 1) flags (value +ℤ pos step) values at'
        → HasSteps short same at (flag ∷ flags) value ((value +ℤ pos step) ∷ values) at'
    down :
        {at at' flag : ℕ} {flags : List ℕ} {value : ℤ} {values : List ℤ} (step : ℕ)
        → has_bit flag short ≡ true
        → has_bit flag same ≡ false
        → get_elem? glyph at ≡ some step
        → HasSteps short same (at + 1) flags (value +ℤ minus step) values at'
        → HasSteps short same at (flag ∷ flags) value ((value +ℤ minus step) ∷ values) at'
    still :
        {at at' flag : ℕ} {flags : List ℕ} {value : ℤ} {values : List ℤ}
        → has_bit flag short ≡ false
        → has_bit flag same ≡ true
        → HasSteps short same at flags value values at'
        → HasSteps short same at (flag ∷ flags) value (value ∷ values) at'
    wide :
        {at at' flag : ℕ} {flags : List ℕ} {value : ℤ} {values : List ℤ} (high low : ℕ)
        → has_bit flag short ≡ false
        → has_bit flag same ≡ false
        → get_elem? glyph at ≡ some high
        → get_elem? glyph (at + 1) ≡ some low
        → HasSteps short same (at + 2) flags (value +ℤ signed_16 (high * 256 + low)) values at'
        → HasSteps short same at
            (flag ∷ flags)
            value
            ((value +ℤ signed_16 (high * 256 + low)) ∷ values)
            at'

  -- A simple glyph: a header of ten bytes, the end points, as many bytes of instructions as a word
  -- says, the flags of all points, the steps to the right (bits 1 and 4) and up (bits 2 and 5).
  pub record IsSimpleGlyph (tops flags : List ℕ) (xs ys : List ℤ) : Type 0 where
    pub high : ℕ
    pub low : ℕ
    pub xs_at : ℕ
    pub ys_at : ℕ
    pub stop : ℕ
    pub topped : HasWords 10 tops
    pub sized_high : get_elem? glyph (10 + length tops * 2) ≡ some high
    pub sized_low : get_elem? glyph (10 + length tops * 2 + 1) ≡ some low
    pub flagged : HasFlags (10 + length tops * 2 + (2 + (high * 256 + low))) flags xs_at
    pub wide : HasSteps 1 4 xs_at flags (pos 0) xs ys_at
    pub tall : HasSteps 2 5 ys_at flags (pos 0) ys stop
    pub counted : length flags ≡ after 0 tops

  end_points-HasWords :
      (index : ℕ) (tops : List ℕ)
      → HasWords (10 + index * 2) tops
      → end_points glyph (length tops) index ≡ done tops
  unfolding end_points
  end_points-HasWords index [] nil = refl
  end_points-HasWords index (word ∷ words) (cons high low e e' rest) =
      let next : 10 + index * 2 + 2 ≡ 10 + suc index * 2 = omega arith in
      let first = read_u16-done glyph (10 + index * 2) high low e e' in
      rw (first, end_points-HasWords (suc index) words (rw next at rest)) refl

  flags_from-repeated :
      (n at flag : ℕ) (flags : List ℕ) (at' : ℕ)
      → flags_from glyph (length flags) at flag 0 ≡ (flags, at')
      → flags_from glyph (length (repeated n flag flags)) at flag n ≡ (repeated n flag flags, at')
  unfolding flags_from
  flags_from-repeated zero at flag flags at' h = h
  flags_from-repeated (suc n) at flag flags at' h =
      rw (flags_from-repeated n at flag flags at' h) refl

  flags_from-HasFlags :
      {at at' : ℕ} {flags : List ℕ}
      → HasFlags at flags at'
      → (before : ℕ) → flags_from glyph (length flags) at before 0 ≡ (flags, at')
  unfolding flags_from
  flags_from-HasFlags nil before = refl
  flags_from-HasFlags (single flag e alone rest) before =
      rw (e, alone, flags_from-HasFlags rest flag) refl
  flags_from-HasFlags {at} {at'} (run {flags = flags} flag copies e more e' rest) before =
      rw
        (
          e,
          more,
          e',
          flags_from-repeated copies (at + 2) flag flags at' (flags_from-HasFlags rest flag),
        )
        refl

  length-HasSteps :
      {short same at at' : ℕ} {flags : List ℕ} {value : ℤ} {values : List ℤ}
      → HasSteps short same at flags value values at'
      → length values ≡ length flags
  length-HasSteps nil = refl
  length-HasSteps (up step h h' e rest) = ap suc (length-HasSteps rest)
  length-HasSteps (down step h h' e rest) = ap suc (length-HasSteps rest)
  length-HasSteps (still h h' rest) = ap suc (length-HasSteps rest)
  length-HasSteps (wide high low h h' e e' rest) = ap suc (length-HasSteps rest)

  coordinates-HasSteps :
      {short same at at' : ℕ} {flags : List ℕ} {value : ℤ} {values : List ℤ}
      → HasSteps short same at flags value values at'
      → coordinates glyph short same flags (some value) at ≡ done (values, at')
  unfolding coordinates advance read_i16
  coordinates-HasSteps nil = refl
  coordinates-HasSteps (up step h h' e rest) = rw (h, h', e, coordinates-HasSteps rest) refl
  coordinates-HasSteps (down step h h' e rest) = rw (h, h', e, coordinates-HasSteps rest) refl
  coordinates-HasSteps (still h h' rest) = rw (h, h', coordinates-HasSteps rest) refl
  coordinates-HasSteps {at = at} (wide high low h h' e e' rest) =
      rw (h, h', read_u16-done glyph at high low e e', coordinates-HasSteps rest) refl

  -- A simple glyph whose end points go up is read without an error, and its contours are the points
  -- that its flags and its steps describe, cut behind each end point.
  pub read_simple_glyph-IsSimpleGlyph :
      (tops flags : List ℕ) (xs ys : List ℤ)
      → IsSimpleGlyph tops flags xs ys
      → Ascends 0 tops
      → read_simple_glyph glyph (length tops) ≡ done (cut 0 tops (joined flags xs ys))
  unfolding read_simple_glyph
  read_simple_glyph-IsSimpleGlyph tops flags xs ys g rising =
      let counted : length flags ≡ point_count tops = g.counted ∙ after_zero tops in
      let size = read_u16-done glyph (10 + length tops * 2) g.high g.low g.sized_high g.sized_low in
      rw
        (
          end_points-HasWords 0 tops g.topped,
          size,
          ← counted,
          flags_from-HasFlags g.flagged 0,
          coordinates-HasSteps g.wide,
          coordinates-HasSteps g.tall,
          contours_from-joined flags xs ys tops rising counted (length-HasSteps g.wide)
              (length-HasSteps g.tall),
        )
        refl
