-- ===== src/Prelude/Texts.antt =====
-- Texts as lists of character codes.
use Prim.Native.Nat.{ℕ}
use Prim.Native.Char.{code}
use Prim.Native.String.{String}
use mathlib.Core.List.{List, [], ◌∷◌, ◌++◌}
use fissionplane.Prelude.Tests.{eqb, if◌then◌else◌}

abbrev pub codes : String → List ℕ
codes String.[] = []
codes (String.◌∷◌ c s) = code c ∷ codes s

module _ {ℓ} {A : Type ℓ} where
  -- `pieces.join(between)`.
  abbrev pub join_with : List A → List (List A) → List A
  join_with between [] = []
  join_with between (p ∷ []) = p
  join_with between (p ∷ q ∷ ps) = p ++ (between ++ join_with between (q ∷ ps))

-- A character in front of the first piece.
abbrev pub onto_first : ℕ → List (List ℕ) → List (List ℕ)
onto_first c [] = (c ∷ []) ∷ []
onto_first c (p ∷ ps) = (c ∷ p) ∷ ps

-- `text.split(separator)`, of one character.
abbrev pub split_on : ℕ → List ℕ → List (List ℕ)
split_on separator [] = [] ∷ []
split_on separator (c ∷ s) =
    let rest = split_on separator s in if eqb c separator then [] ∷ rest else onto_first c rest
