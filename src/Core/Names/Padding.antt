-- ===== src/Core/Names/Padding.antt =====
-- Padded names that DISPLAY_NAME_PATTERN accepts.
use fissionplane.Prelude.{ℕ, ◌≡◌, refl, true, false, not, List, [], ◌∷◌, ◌++◌, All, and_false}
use fissionplane.Web.RegExp.{is_line_terminator}
use fissionplane.Core.Names.{is_space, is_control, every, ends_in_space, display_name_pattern}

-- `.` does not match the separator, so the look-ahead never comes to the end.
ends_in_space-separator :
    (p : List ℕ) (v : ℕ) (s : List ℕ) → ends_in_space (p ++ (8232 ∷ (v ∷ s))) ≡ false
ends_in_space-separator [] v s = refl
ends_in_space-separator (u ∷ []) v s = and_false (not (is_line_terminator u)) false refl
ends_in_space-separator (u ∷ w ∷ p) v s =
    and_false (not (is_line_terminator u)) (ends_in_space ((w ∷ p) ++ (8232 ∷ (v ∷ s))))
      (ends_in_space-separator (w ∷ p) v s)

abbrev IsPrinting : List ℕ → Type 0
IsPrinting s = All (λ u. is_control u ≡ false) s

printing-every :
    (p s : List ℕ)
    → IsPrinting p
    → IsPrinting s
    → every (λ u. not (is_control u)) (p ++ (8232 ∷ (s ++ (32 ∷ [])))) ≡ true
printing-every [] [] h k = refl
printing-every [] (u ∷ s) h (first, k) = rw first (printing-every [] s h k)
printing-every (u ∷ p) s (first, h) k = rw first (printing-every p s h k)

-- A name that begins with no white space, holds no control character and has a line separator in it
-- is accepted although it ends with a blank.
pub display_name_pattern-padded :
    (u : ℕ) (p s : List ℕ)
    → is_space u ≡ false
    → All (λ v. is_control v ≡ false) (u ∷ p)
    → All (λ v. is_control v ≡ false) s
    → display_name_pattern ((u ∷ p) ++ (8232 ∷ (s ++ (32 ∷ [])))) ≡ true
unfolding display_name_pattern
display_name_pattern-padded u p [] solid h k =
    rw (solid, ends_in_space-separator (u ∷ p) 32 []) (printing-every (u ∷ p) [] h k)
display_name_pattern-padded u p (v ∷ s) solid h k =
    rw (solid, ends_in_space-separator (u ∷ p) v (s ++ (32 ∷ [])))
      (printing-every (u ∷ p) (v ∷ s) h k)
