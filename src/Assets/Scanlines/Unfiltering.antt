-- ===== src/Assets/Scanlines/Unfiltering.antt =====
-- The reconstruction of the PNG specification gives the filtered pixels back.
use fissionplane.Prelude.{
  ℕ, zero, suc, ◌+◌, ◌-◌, ◌*◌, ◌%◌, ◌<◌, arith, ◌≡◌, refl, ap, ◌⊎◌, inl, inr, true, List, [], ◌∷◌,
  ◌++◌, All, entry_at, leb, ltb, eqb, Bool-cases, if◌then◌else◌, ◌&&◌,
}
use fissionplane.Assets.Scanlines.{
  bytes_from, difference, score_from, raw, left, above, sub_byte, up_byte, choose, best, lines_from,
}

-- Filter 1: each byte is added to the one three places before it.
unfoldable pub sub_back : (third second first : ℕ) → List ℕ → List ℕ
sub_back third second first [] = []
sub_back third second first (b ∷ bs) = let x = (b + third) % 256 in x ∷ sub_back second first x bs

-- Filter 2: each byte is added to the one above it.
unfoldable pub up_back : List ℕ → List ℕ → List ℕ
up_back prior [] = []
up_back [] (b ∷ bs) = b ∷ bs
up_back (p ∷ prior) (b ∷ bs) = ((b + p) % 256) ∷ up_back prior bs

unfoldable pub reconstruct : ℕ → List ℕ → List ℕ → List ℕ
unfolding sub_back up_back
reconstruct kind prior bs =
    if eqb kind 1 then sub_back 0 0 0 bs else if eqb kind 2 then up_back prior bs else bs

-- `stride` bytes and what follows them.
unfoldable pub taken : ℕ → List ℕ → List ℕ × List ℕ
taken zero bs = ([], bs)
taken (suc n) [] = ([], [])
taken (suc n) (b ∷ bs) = let (front, rest) = taken n bs in (b ∷ front, rest)

-- The rows of an image, given the row before them.
unfoldable pub unfilter : ℕ → ℕ → List ℕ → List ℕ → List ℕ
unfolding taken reconstruct
unfilter stride zero prior bs = []
unfilter stride (suc count) prior [] = []
unfilter stride (suc count) prior (kind ∷ bs) =
    let row = reconstruct kind prior (taken stride bs).0 in
    row ++ unfilter stride count row (taken stride bs).1

unfoldable pub unfilter_scanlines : (width height : ℕ) → List ℕ → List ℕ
unfolding unfilter
unfilter_scanlines width height bs =
    unfilter (width * 3) height (bytes_from (width * 3) 0 (λ index. 0)) bs

add-difference : (a b : ℕ) → a < 256 → b < 256 → (difference a b + b) % 256 ≡ a
add-difference a b h k = omega arith

pub bytes_from-ap :
    (count index : ℕ) (f g : ℕ → ℕ)
    → ((i : ℕ) → f i ≡ g i)
    → bytes_from count index f ≡ bytes_from count index g
bytes_from-ap zero index f g h = refl
bytes_from-ap (suc count) index f g h = rw (h index, bytes_from-ap count (suc index) f g h) refl

up_back-bytes_from :
    (count index : ℕ) (up prior row : ℕ → ℕ)
    → ((i : ℕ) → (up i + prior i) % 256 ≡ row i)
    → up_back (bytes_from count index prior) (bytes_from count index up)
      ≡ bytes_from count index row
unfolding up_back
up_back-bytes_from zero index up prior row h = refl
up_back-bytes_from (suc count) index up prior row h =
    rw (h index, up_back-bytes_from count (suc index) up prior row h) refl

sub_back-bytes_from :
    (count index : ℕ) (sub prior row : ℕ → ℕ)
    → ((i : ℕ) → (sub i + prior i) % 256 ≡ row i)
    → ((i : ℕ) → prior (suc (suc (suc i))) ≡ row i)
    → sub_back
        (prior index)
        (prior (suc index))
        (prior (suc (suc index)))
        (bytes_from count index sub)
      ≡ bytes_from count index row
unfolding sub_back
sub_back-bytes_from zero index sub prior row h shifted = refl
sub_back-bytes_from (suc count) index sub prior row h shifted =
    rw (h index, ← shifted index)
      (ap (λ bs. prior (suc (suc (suc index))) ∷ bs)
        (sub_back-bytes_from count (suc index) sub prior row h shifted))

taken-bytes_from :
    (count index : ℕ) (f : ℕ → ℕ) (rest : List ℕ)
    → taken count (bytes_from count index f ++ rest) ≡ (bytes_from count index f, rest)
unfolding taken
taken-bytes_from zero index f rest = refl
taken-bytes_from (suc count) index f rest = rw (taken-bytes_from count (suc index) f rest) refl

entry-bound : (xs : List ℕ) (i : ℕ) → All (λ x. x < 256) xs → entry_at xs i < 256
entry-bound [] i h = omega arith
entry-bound (x ∷ xs) zero (first, rest) = first
entry-bound (x ∷ xs) (suc i) (first, rest) = entry-bound xs i rest

-- A filtered row is one of three, in each case with the type that tells how to read it.
module _ (rgb : List ℕ) (stride : ℕ) where
  pub choose-cases :
      (none_score sub_score up_score y : ℕ)
      → (choose rgb stride none_score sub_score up_score y
          ≡ (1, bytes_from stride 0 (sub_byte rgb stride y)))
        ⊎ (choose rgb stride none_score sub_score up_score y
            ≡ (2, bytes_from stride 0 (up_byte rgb stride y)))
        ⊎ (choose rgb stride none_score sub_score up_score y
            ≡ (0, bytes_from stride 0 (raw rgb stride y)))
  unfolding choose
  choose-cases n s u y = elim (Bool-cases (leb s n && leb s u)) [
    | inl e ↦ inl (rw e refl)
    | inr e ↦ elim (Bool-cases (leb u n)) [
      | inl e' ↦ inr (inl (rw (e, e') refl))
      | inr e' ↦ inr (inr (rw (e, e') refl))
    ]
  ]

  best-bytes_from : (y : ℕ) → (f : ℕ → ℕ) × ((best rgb stride y).1 ≡ bytes_from stride 0 f)
  unfolding best
  best-bytes_from y =
      elim (choose-cases (score_from stride 0 (raw rgb stride y))
        (score_from stride 0 (sub_byte rgb stride y)) (score_from stride 0 (up_byte rgb stride y))
        y) [
          | inl e ↦ (sub_byte rgb stride y, ap (λ b. b.1) e)
          | inr (inl e) ↦ (up_byte rgb stride y, ap (λ b. b.1) e)
          | inr (inr e) ↦ (raw rgb stride y, ap (λ b. b.1) e)
        ]

  above-raw : (y i : ℕ) → above rgb stride (suc y) i ≡ raw rgb stride y i
  unfolding above raw
  above-raw y i =
      let lower : ltb 0 (suc y) ≡ true = ground arith in
      let place : suc y * stride - stride + i ≡ y * stride + i = omega arith in
      rw (lower, place) refl

  -- The rows of the image from one on.
  abbrev pub rows_from : ℕ → ℕ → List ℕ
  rows_from zero y = []
  rows_from (suc count) y = bytes_from stride 0 (raw rgb stride y) ++ rows_from count (suc y)

  module _ (bytes : All (λ x. x < 256) rgb) where
    pub raw-bound : (y i : ℕ) → raw rgb stride y i < 256
    unfolding raw
    raw-bound y i = entry-bound rgb (y * stride + i) bytes

    left-bound : (y i : ℕ) → left rgb stride y i < 256
    unfolding left
    left-bound y i = elim (Bool-cases (leb 3 i)) [
      | inl e ↦ rw e (entry-bound rgb (y * stride + i - 3) bytes)
      | inr e ↦ rw e (omega arith)
    ]

    above-bound : (y i : ℕ) → above rgb stride y i < 256
    unfolding above
    above-bound y i = elim (Bool-cases (ltb 0 y)) [
      | inl e ↦ rw e (entry-bound rgb (y * stride - stride + i) bytes)
      | inr e ↦ rw e (omega arith)
    ]

    left-raw : (y i : ℕ) → left rgb stride y (suc (suc (suc i))) ≡ raw rgb stride y i
    unfolding left raw
    left-raw y i =
        let far : leb 3 (suc (suc (suc i))) ≡ true = ground arith in
        let place : y * stride + suc (suc (suc i)) - 3 ≡ y * stride + i = omega arith in
        rw (far, place) refl

    -- Read with its type and the row above it, the line gives the row of the image back.
    reconstruct-best :
        (y : ℕ)
        → reconstruct
            (best rgb stride y).0
            (bytes_from stride 0 (above rgb stride y))
            (best rgb stride y).1
          ≡ bytes_from stride 0 (raw rgb stride y)
    unfolding reconstruct best sub_byte up_byte
    reconstruct-best y =
        elim (choose-cases (score_from stride 0 (raw rgb stride y))
          (score_from stride 0 (sub_byte rgb stride y)) (score_from stride 0 (up_byte rgb stride y))
          y) [
            | inl e ↦ rw e (
                sub_back-bytes_from stride 0 _ (left rgb stride y) (raw rgb stride y)
                  (λ i. add-difference _ _ (raw-bound y i) (left-bound y i)) (left-raw y))
            | inr (inl e) ↦ rw e (
                up_back-bytes_from stride 0 _ (above rgb stride y) (raw rgb stride y)
                  (λ i. add-difference _ _ (raw-bound y i) (above-bound y i)))
            | inr (inr e) ↦ rw e refl
          ]

    pub unfilter-lines_from :
        (count y : ℕ)
        → unfilter stride count
            (bytes_from stride 0 (above rgb stride y))
            (lines_from rgb stride count y)
          ≡ rows_from count y
    unfolding unfilter lines_from
    unfilter-lines_from zero y = refl
    unfilter-lines_from (suc count) y =
        let (f, data_) = best-bytes_from y in
        let row = reconstruct-best y in
        let split : taken stride ((best rgb stride y).1 ++ lines_from rgb stride count (suc y))
            ≡ ((best rgb stride y).1, lines_from rgb stride count (suc y)) =
          rw data_ (taken-bytes_from stride 0 f (lines_from rgb stride count (suc y))) in
        let prior =
          bytes_from-ap stride 0 (above rgb stride (suc y)) (raw rgb stride y) (above-raw y) in
        rw (split, row)
          (ap (λ rest. bytes_from stride 0 (raw rgb stride y) ++ rest)
            (rw (← prior) (unfilter-lines_from count (suc y))))
