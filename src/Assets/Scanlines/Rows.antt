-- ===== src/Assets/Scanlines/Rows.antt =====
-- The rows of an image, one after another, are its pixels; so unfiltering gives the image back.
use fissionplane.Prelude.{
  ℕ, zero, suc, ◌+◌, ◌*◌, ◌≤◌, ◌<◌, arith, ◌≡◌, refl, sym, ap, ◌∙◌, List, [], ◌∷◌, ◌++◌,
  append_assoc, length, length-append, All, entry_at,
}
use mathlib.Core.Path.{subst}
use fissionplane.Assets.Scanlines.{bytes_from, raw, above, filter_scanlines}
use fissionplane.Assets.Scanlines.Unfiltering.{unfilter_scanlines, rows_from, unfilter-lines_from}

entry-append : (pre rest : List ℕ) (x : ℕ) → entry_at (pre ++ (x ∷ rest)) (length pre) ≡ x
entry-append [] rest x = refl
entry-append (p ∷ pre) rest x = entry-append pre rest x

-- The entries of a list past its front are its middle.
bytes_from-entries :
    (a pre b : List ℕ) (base index : ℕ)
    → base + index ≡ length pre
    → bytes_from (length a) index (λ i. entry_at (pre ++ (a ++ b)) (base + i)) ≡ a
bytes_from-entries [] pre b base index h = refl
bytes_from-entries (x ∷ a) pre b base index h =
    let moved : (pre ++ (x ∷ [])) ++ (a ++ b) ≡ pre ++ (x ∷ (a ++ b)) =
      append_assoc pre (x ∷ []) (a ++ b) in
    let rest =
      bytes_from-entries a (pre ++ (x ∷ [])) b base (suc index)
        (omega (arith, length-append pre (x ∷ []))) in
    let rest' : bytes_from (length a) (suc index) (λ i. entry_at (pre ++ (x ∷ (a ++ b))) (base + i))
        ≡ a =
      rw (← moved) rest in
    rw (h, entry-append pre (a ++ b) x, rest') refl

-- A list falls in two wherever it is long enough.
split_list :
    (n : ℕ) (xs : List ℕ)
    → n ≤ length xs
    → (a : List ℕ) × (b : List ℕ) × (xs ≡ a ++ b) × (length a ≡ n)
split_list zero xs h = ([], xs, refl, refl)
split_list (suc n) [] h = absurd (omega arith)
split_list (suc n) (x ∷ xs) h =
    let (a, b, e, l) = split_list n xs (omega arith) in (x ∷ a, b, ap (λ s. x ∷ s) e, ap suc l)

row-then :
    (stride count y : ℕ) (pre a b : List ℕ)
    → length pre ≡ y * stride
    → length a ≡ stride
    → rows_from (pre ++ (a ++ b)) stride count (suc y) ≡ b
    → rows_from (pre ++ (a ++ b)) stride (suc count) y ≡ a ++ b
unfolding raw
row-then stride count y pre a b h l later =
    let row =
      subst (λ n. bytes_from n 0 (λ i. entry_at (pre ++ (a ++ b)) (y * stride + i)) ≡ a) l
        (bytes_from-entries a pre b (y * stride) 0 (omega arith)) in
    rw (row, later) refl

rows-rest :
    (stride count y : ℕ) (pre rest : List ℕ)
    → length pre ≡ y * stride
    → length rest ≡ count * stride
    → rows_from (pre ++ rest) stride count y ≡ rest
rows-rest stride zero y pre [] h k = refl
rows-rest stride zero y pre (x ∷ rest) h k = absurd (omega arith)
rows-rest stride (suc count) y pre rest h k =
    let (a, b, e, l) = split_list stride rest (omega arith) in
    let lengths : length rest ≡ length a + length b = ap length e ∙ length-append a b in
    let later =
      rows-rest stride count (suc y) (pre ++ a) b (omega (arith, length-append pre a, h, l))
        (omega (arith, lengths, k, l)) in
    let later' = subst (λ s. rows_from s stride count (suc y) ≡ b) (append_assoc pre a b) later in
    subst (λ r. rows_from (pre ++ r) stride (suc count) y ≡ r) (sym e)
      (row-then stride count y pre a b h l later')

-- Unfiltering what filterScanlines writes gives the pixels back, if they are bytes and fill the rows.
pub unfilter-filter_scanlines :
    (rgb : List ℕ) (width height : ℕ)
    → All (λ x. x < 256) rgb
    → length rgb ≡ height * (width * 3)
    → unfilter_scanlines width height (filter_scanlines rgb width height) ≡ rgb
unfolding unfilter_scanlines filter_scanlines above
unfilter-filter_scanlines rgb width height bytes filled =
    unfilter-lines_from rgb (width * 3) bytes height 0
    ∙ rows-rest (width * 3) height 0 [] rgb (omega arith) filled
