-- ===== src/Assets/Fonts/Glyphs/Partition.antt =====
-- woff.mjs, readSimpleGlyph: the points of a glyph, and cutting them behind each end point.
use fissionplane.Prelude.{
  ℕ, zero, suc, ◌+◌, ◌-◌, ◌≤◌, ◌≡◌, refl, ap, ◌∙◌, some, List, [], ◌∷◌, length, take, drop, arith,
}
use fissionplane.Prelude.Integers.{ℤ}
use fissionplane.Assets.Fonts.{has_bit}
use fissionplane.Assets.Fonts.Glyphs.{Contour, point_count, points_from, keep, contours_from}

-- The end points go up, from `start` on.
abbrev pub Ascends : ℕ → List ℕ → Type 0
Ascends start [] = Unit
Ascends start (end ∷ rest) = (start ≤ end) × Ascends (end + 1) rest

abbrev pub cut : ℕ → List ℕ → Contour → List Contour
cut start [] points = []
cut start (end ∷ rest) points =
    take (end + 1 - start) points ∷ cut (end + 1) rest (drop (end + 1 - start) points)

-- The points of flags and coordinates that are as many.
abbrev pub joined : List ℕ → List ℤ → List ℤ → Contour
joined (flag ∷ flags) (x ∷ xs) (y ∷ ys) =
    record { x = some x; y = some y; on_curve = has_bit flag 0 } ∷ joined flags xs ys
joined (flag ∷ flags) (x ∷ xs) [] = []
joined (flag ∷ flags) [] ys = []
joined [] xs ys = []

-- The first place that is behind all end points.
abbrev pub after : ℕ → List ℕ → ℕ
after start [] = start
after start (end ∷ rest) = after (end + 1) rest

after-point_count :
    (start end : ℕ) (rest : List ℕ) → after start (end ∷ rest) ≡ point_count (end ∷ rest)
after-point_count start end [] = refl
after-point_count start end (next ∷ rest) = after-point_count (end + 1) next rest

pub after_zero : (tops : List ℕ) → after 0 tops ≡ point_count tops
after_zero [] = refl
after_zero (end ∷ rest) = after-point_count 0 end rest

start-after : (start : ℕ) (tops : List ℕ) → Ascends start tops → start ≤ after start tops
start-after start [] h = omega arith
start-after start (end ∷ rest) (low, h) = omega (arith, start-after (end + 1) rest h)

module _ (flags : List ℕ) (xs ys : List ℤ) where
  take-points :
      (index n m : ℕ)
      → take n (points_from flags xs ys index (n + m)) ≡ points_from flags xs ys index n
  unfolding points_from
  take-points index zero m = refl
  take-points index (suc n) m =
      let e : suc n + m ≡ suc (n + m) = omega arith in rw (e, take-points (suc index) n m) refl

  drop-points :
      (index n m : ℕ)
      → drop n (points_from flags xs ys index (n + m)) ≡ points_from flags xs ys (index + n) m
  unfolding points_from
  drop-points index zero m =
      let e : 0 + m ≡ m = omega arith in let e' : index + 0 ≡ index = omega arith in rw (e, e') refl
  drop-points index (suc n) m =
      let e : suc n + m ≡ suc (n + m) = omega arith in
      let e' : index + suc n ≡ suc index + n = omega arith in
      rw (e, e') (drop-points (suc index) n m)

  keep-points :
      (index n : ℕ) (contours : List Contour)
      → 1 ≤ n
      → keep flags xs ys (points_from flags xs ys index n) contours
        ≡ points_from flags xs ys index n ∷ contours
  unfolding points_from
  keep-points index zero contours h = absurd (omega arith)
  keep-points index (suc n) contours h = refl

  contours_from-cut :
      (start : ℕ) (tops : List ℕ)
      → Ascends start tops
      → contours_from flags xs ys start tops
        ≡ cut start tops (points_from flags xs ys start (after start tops - start))
  unfolding contours_from
  contours_from-cut start [] h = refl
  contours_from-cut start (end ∷ rest) (low, h) =
      let n = end + 1 - start in
      let m = after (end + 1) rest - (end + 1) in
      let bound = start-after (end + 1) rest h in
      let whole : after (end + 1) rest - start ≡ n + m = omega (arith, bound, low) in
      let next : start + n ≡ end + 1 = omega (arith, low) in
      rw
        (
          whole,
          take-points start n m,
          drop-points start n m,
          next,
          ← contours_from-cut (end + 1) rest h,
        )
        (keep-points start n (contours_from flags xs ys (end + 1) rest) (omega (arith, low)))

points_from-tail :
    (flag : ℕ) (flags : List ℕ) (x y : ℤ) (xs ys : List ℤ) (index n : ℕ)
    → points_from (flag ∷ flags) (x ∷ xs) (y ∷ ys) (suc index) n ≡ points_from flags xs ys index n
unfolding points_from
points_from-tail flag flags x y xs ys index zero = refl
points_from-tail flag flags x y xs ys index (suc n) =
    rw (points_from-tail flag flags x y xs ys (suc index) n) refl

points_from-joined :
    (flags : List ℕ) (xs ys : List ℤ)
    → length xs ≡ length flags
    → length ys ≡ length flags
    → points_from flags xs ys 0 (length flags) ≡ joined flags xs ys
unfolding points_from
points_from-joined [] xs ys h k = refl
points_from-joined (flag ∷ flags) [] ys h k = absurd (omega arith)
points_from-joined (flag ∷ flags) (x ∷ xs) [] h k = absurd (omega arith)
points_from-joined (flag ∷ flags) (x ∷ xs) (y ∷ ys) h k =
    rw
      (
        points_from-tail flag flags x y xs ys 0 (length flags),
        points_from-joined flags xs ys (omega arith) (omega arith),
      )
      refl

pub contours_from-joined :
    (flags : List ℕ) (xs ys : List ℤ) (tops : List ℕ)
    → Ascends 0 tops
    → length flags ≡ point_count tops
    → length xs ≡ length flags
    → length ys ≡ length flags
    → contours_from flags xs ys 0 tops ≡ cut 0 tops (joined flags xs ys)
contours_from-joined flags xs ys tops up sized wide high =
    contours_from-cut flags xs ys 0 tops up
    ∙ (let e : point_count tops - 0 ≡ length flags = omega (arith, sized) in
        rw (after_zero tops, e) (ap (cut 0 tops) (points_from-joined flags xs ys wide high)))
