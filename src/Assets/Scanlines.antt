-- ===== src/Assets/Scanlines.antt =====
-- scripts/lib/raster.mjs, filterScanlines. The pixels are bytes, three for each column of a row.
pub mod Unfiltering
pub mod Rows
mod Tests
use fissionplane.Prelude.{
  ℕ, zero, suc, ◌+◌, ◌-◌, ◌*◌, ◌%◌, Bool, ◌&&◌, List, [], ◌∷◌, ◌++◌, entry_at, ltb, leb,
  if◌then◌else◌,
}

-- What the loop over `index` writes, from an index on.
abbrev pub bytes_from : ℕ → ℕ → (ℕ → ℕ) → List ℕ
bytes_from zero index byte = []
bytes_from (suc count) index byte = byte index ∷ bytes_from count (suc index) byte

abbrev pub score_of : ℕ → ℕ
score_of byte = if ltb byte 128 then byte else 256 - byte

-- What it adds up in a score.
unfoldable pub score_from : ℕ → ℕ → (ℕ → ℕ) → ℕ
score_from zero index byte = 0
score_from (suc count) index byte = score_of (byte index) + score_from count (suc index) byte

-- `(a - b) & 0xff` of bytes.
abbrev pub difference : ℕ → ℕ → ℕ
difference a b = (a + 256 - b) % 256

module _ (rgb : List ℕ) (stride : ℕ) where
  unfoldable pub raw : ℕ → ℕ → ℕ
  raw y index = entry_at rgb (y * stride + index)

  unfoldable pub left : ℕ → ℕ → ℕ
  left y index = if leb 3 index then entry_at rgb (y * stride + index - 3) else 0

  unfoldable pub above : ℕ → ℕ → ℕ
  above y index = if ltb 0 y then entry_at rgb (y * stride - stride + index) else 0

  unfoldable pub sub_byte : ℕ → ℕ → ℕ
  unfolding raw left
  sub_byte y index = difference (raw y index) (left y index)

  unfoldable pub up_byte : ℕ → ℕ → ℕ
  unfolding raw above
  up_byte y index = difference (raw y index) (above y index)

  -- `best`: the filter's type and its bytes.
  unfoldable pub choose : (none_score sub_score up_score : ℕ) → ℕ → ℕ × List ℕ
  unfolding sub_byte up_byte
  choose none_score sub_score up_score y =
      if leb sub_score none_score && leb sub_score up_score
      then (1, bytes_from stride 0 (sub_byte y))
      else if leb up_score none_score
      then (2, bytes_from stride 0 (up_byte y))
      else (0, bytes_from stride 0 (raw y))

  unfoldable pub best : ℕ → ℕ × List ℕ
  unfolding choose score_from
  best y =
      choose (score_from stride 0 (raw y)) (score_from stride 0 (sub_byte y))
        (score_from stride 0 (up_byte y)) y

  abbrev pub line : ℕ × List ℕ → List ℕ
  line (kind, data_) = kind ∷ data_

  unfoldable pub lines_from : ℕ → ℕ → List ℕ
  unfolding best
  lines_from zero y = []
  lines_from (suc count) y = line (best y) ++ lines_from count (suc y)

unfoldable pub filter_scanlines : List ℕ → (width height : ℕ) → List ℕ
unfolding lines_from
filter_scanlines rgb width height = lines_from rgb (width * 3) height 0
