-- ===== src/Assets/Fonts/Glyphs.antt =====
-- scripts/lib/woff.mjs, readSimpleGlyph. An entry that a buffer or an array does not have is undefined,
-- and a coordinate that it is added to is NaN from there on: both are `none`.
pub mod Format
pub mod Partition
mod Tests
use fissionplane.Prelude.{
  ℕ, zero, suc, ◌+◌, ◌-◌, ◌*◌, Bool, true, false, Option, none, some, List, [], ◌∷◌, get_elem?,
  or_else, if◌then◌else◌,
}
use fissionplane.Prelude.Integers.{ℤ, pos, ◌+ℤ◌, minus}
use fissionplane.Assets.Fonts.{Reading, done, ◌>>=◌, Bytes, read_u16, read_i16, has_bit}

pub record Point (A : Type 0) : Type 0 where
  pub x : A
  pub y : A
  pub on_curve : Bool

abbrev pub Contour : Type 0
Contour = List (Point (Option ℤ))

-- `endPoints[numberOfContours - 1] + 1`; without contours it is NaN, and an array of that length is
-- empty.
abbrev pub point_count : List ℕ → ℕ
point_count [] = 0
point_count (end ∷ []) = end + 1
point_count (end ∷ next ∷ ends) = point_count (next ∷ ends)

-- What an Int32Array keeps. The sums fit into it: there are at most 65536 points, and a step has 16
-- bits.
abbrev pub stored : Option ℤ → ℤ
stored (some value) = value
stored none = pos 0

abbrev pub added : Option ℤ → Option ℤ → Option ℤ
added (some value) (some delta) = some (value +ℤ delta)
added (some value) none = none
added none delta = none

-- `flag & sameBit ? delta : -delta`.
abbrev pub signed : Bool → Option ℕ → Option ℤ
signed positive none = none
signed true (some delta) = some (pos delta)
signed false (some delta) = some (minus delta)

abbrev pub on_curve_of : Option ℕ → Bool
on_curve_of none = false
on_curve_of (some flag) = has_bit flag 0

module _ (glyph : Bytes) where
  unfoldable pub end_points : ℕ → ℕ → Reading (List ℕ)
  end_points zero index = done []
  end_points (suc count) index = do
    end ← read_u16 glyph (10 + index * 2)
    ends ← end_points count (suc index)
    done (end ∷ ends)

  abbrev pub entry_at : ℕ → ℕ
  entry_at at = or_else (get_elem? glyph at) 0

  -- The flags of the points that are left, where the flag before is repeated `repeats` times still,
  -- with the place after them.
  unfoldable pub flags_from : (count at flag repeats : ℕ) → List ℕ × ℕ
  flags_from zero at flag repeats = ([], at)
  flags_from (suc count) at flag (suc repeats) =
      let rest = flags_from count at flag repeats in (flag ∷ rest.0, rest.1)
  flags_from (suc count) at flag zero =
      let next = entry_at at in
      let repeated = has_bit next 3 in
      let rest =
        flags_from count (if repeated then at + 2 else at + 1) next
          (if repeated then entry_at (at + 1) else 0) in
      (next ∷ rest.0, rest.1)

  -- `readCoordinates`; the bits are given by their place.
  unfoldable pub advance : (short same flag : ℕ) → Option ℤ → ℕ → Reading (Option ℤ × ℕ)
  advance short same flag value at =
      if has_bit flag short
      then done (added value (signed (has_bit flag same) (get_elem? glyph at)), at + 1)
      else if has_bit flag same
      then done (value, at)
      else (read_i16 glyph at >>= λ delta. done (added value (some delta), at + 2))

  unfoldable pub coordinates : (short same : ℕ) → List ℕ → Option ℤ → ℕ → Reading (List ℤ × ℕ)
  unfolding advance
  coordinates short same [] value at = done ([], at)
  coordinates short same (flag ∷ flags) value at = do
    next ← advance short same flag value at
    rest ← coordinates short same flags next.0 next.1
    done (stored next.0 ∷ rest.0, rest.1)

module _ (flags : List ℕ) (xs ys : List ℤ) where
  abbrev pub point_at : ℕ → Point (Option ℤ)
  point_at index = record {
    x = get_elem? xs index;
    y = get_elem? ys index;
    on_curve = on_curve_of (get_elem? flags index);
  }

  unfoldable pub points_from : (index count : ℕ) → Contour
  points_from index zero = []
  points_from index (suc count) = point_at index ∷ points_from (suc index) count

  abbrev pub keep : Contour → List Contour → List Contour
  keep [] contours = contours
  keep (point ∷ contour) contours = (point ∷ contour) ∷ contours

  unfoldable pub contours_from : ℕ → List ℕ → List Contour
  unfolding points_from
  contours_from start [] = []
  contours_from start (end ∷ ends) =
      keep (points_from start (end + 1 - start)) (contours_from (end + 1) ends)

unfoldable pub read_simple_glyph : Bytes → ℕ → Reading (List Contour)
unfolding end_points flags_from coordinates contours_from
read_simple_glyph glyph count = do
  ends ← end_points glyph count 0
  let at = 10 + count * 2
  size ← read_u16 glyph at
  let flagged = flags_from glyph (point_count ends) (at + (2 + size)) 0 0
  xs ← coordinates glyph 1 4 flagged.0 (some (pos 0)) flagged.1
  ys ← coordinates glyph 2 5 flagged.0 (some (pos 0)) xs.1
  done (contours_from flagged.0 xs.0 ys.0 0 ends)
