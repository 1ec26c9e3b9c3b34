-- ===== src/Web/RegExp.antt =====
-- Regular expressions of the platform, in the part of their syntax that the code writes: characters,
-- `[^/]+`, `.*` and `/?`, tested against a whole text.
pub mod Language
use fissionplane.Prelude.{ℕ, Bool, true, false, ◌&&◌, ◌||◌, not, List, [], ◌∷◌, any, eqb}

-- A character that stands in the pattern as it is, one behind a backslash, and `[^/]+`, `.*`, `/?`.
pub data Lexeme : Type 0 where
  plain escaped : ℕ → Lexeme
  non_slashes anything optional_slash : Lexeme

-- `. * + ? ^ $ { } ( ) | [ ] \`.
abbrev pub metacharacters : List ℕ
metacharacters = 46 ∷ 42 ∷ 43 ∷ 63 ∷ 94 ∷ 36 ∷ 123 ∷ 125 ∷ 40 ∷ 41 ∷ 124 ∷ 91 ∷ 93 ∷ 92 ∷ []

unfoldable pub is_metacharacter : ℕ → Bool
is_metacharacter c = any (λ m. eqb m c) metacharacters

-- `.` matches no line terminator.
abbrev pub is_line_terminator : ℕ → Bool
is_line_terminator c = any (λ t. eqb t c) (10 ∷ 13 ∷ 8232 ∷ 8233 ∷ [])

abbrev pub starts_with : (ℕ → Bool) → (List ℕ → Bool) → List ℕ → Bool
starts_with accepts go [] = false
starts_with accepts go (c ∷ s) = accepts c && go s

-- As many characters as are accepted, none among them, and the rest of the pattern after some of them.
abbrev pub repeated : (ℕ → Bool) → (List ℕ → Bool) → List ℕ → Bool
repeated accepts go [] = go []
repeated accepts go (c ∷ s) = go (c ∷ s) || (accepts c && repeated accepts go s)

-- A metacharacter that stands plain is an operator, and matches nothing by itself.
abbrev pub is_plain : ℕ → ℕ → Bool
is_plain c x = not (is_metacharacter c) && eqb c x

-- `new RegExp('^' + lexemes + '$', 'u').test(text)`.
unfoldable pub test : List Lexeme → List ℕ → Bool
test [] [] = true
test [] (x ∷ s) = false
test (plain c ∷ ls) s = starts_with (is_plain c) (test ls) s
test (escaped c ∷ ls) s = starts_with (eqb c) (test ls) s
test (non_slashes ∷ ls) s =
    starts_with (λ x. not (eqb x 47)) (repeated (λ x. not (eqb x 47)) (test ls)) s
test (anything ∷ ls) s = repeated (λ x. not (is_line_terminator x)) (test ls) s
test (optional_slash ∷ ls) s = test ls s || starts_with (eqb 47) (test ls) s
