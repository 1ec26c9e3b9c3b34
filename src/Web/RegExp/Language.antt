-- ===== src/Web/RegExp/Language.antt =====
-- What a pattern matches: a text that falls into one part for each of its lexemes.
use fissionplane.Prelude.{
  ℕ, arith, ◌≡◌, refl, sym, ◌∙◌, ◌↔◌, ◌⊎◌, inl, inr, ap, Bool, true, false, ◌&&◌, not, List, [],
  ◌∷◌, ◌++◌, eqb, eqb→eq, and_true, or_true, true_or, not-true,
}
use fissionplane.Web.RegExp.{
  Lexeme, plain, escaped, non_slashes, anything, optional_slash, is_metacharacter,
  is_line_terminator, starts_with, repeated, is_plain, test,
}

abbrev pub IsAll : (ℕ → Bool) → List ℕ → Type 0
IsAll accepts [] = Unit
IsAll accepts (x ∷ xs) = (accepts x ≡ true) × IsAll accepts xs

-- The texts of a lexeme.
abbrev pub Spells : Lexeme → List ℕ → Type 0
Spells (plain c) p = (is_metacharacter c ≡ false) × (p ≡ c ∷ [])
Spells (escaped c) p = p ≡ c ∷ []
Spells non_slashes p = (x : ℕ) × (xs : List ℕ) × (p ≡ x ∷ xs) × IsAll (λ x. not (eqb x 47)) (x ∷ xs)
Spells anything p = IsAll (λ x. not (is_line_terminator x)) p
Spells optional_slash p = (p ≡ []) ⊎ (p ≡ 47 ∷ [])

abbrev pub Matches : List Lexeme → List ℕ → Type 0
Matches [] s = s ≡ []
Matches (l ∷ ls) s = (p : List ℕ) × (rest : List ℕ) × (s ≡ p ++ rest) × Spells l p × Matches ls rest

eqb_refl : (a : ℕ) → eqb a a ≡ true
eqb_refl a = ground arith

starts_with-true :
    (accepts : ℕ → Bool) (go : List ℕ → Bool) (s : List ℕ)
    → starts_with accepts go s ≡ true
    → (x : ℕ) × (rest : List ℕ) × (s ≡ x ∷ rest) × (accepts x ≡ true) × (go rest ≡ true)
starts_with-true accepts go [] h = absurd (cc)
starts_with-true accepts go (x ∷ rest) h =
    let both = and_true (accepts x) (go rest) h in (x, rest, refl, both.0, both.1)

repeated-true :
    (accepts : ℕ → Bool) (go : List ℕ → Bool) (s : List ℕ)
    → repeated accepts go s ≡ true
    → (p : List ℕ) × (rest : List ℕ) × (s ≡ p ++ rest) × IsAll accepts p × (go rest ≡ true)
repeated-true accepts go [] h = ([], [], refl, tt, h)
repeated-true accepts go (x ∷ s) h =
    elim (or_true (go (x ∷ s)) (accepts x && repeated accepts go s) h) [
      | inl now ↦ ([], x ∷ s, refl, tt, now)
      | inr later ↦
          let both = and_true (accepts x) (repeated accepts go s) later in
          let (p, rest, e, alls, after) = repeated-true accepts go s both.1 in
          (x ∷ p, rest, ap (λ s. x ∷ s) e, (both.0, alls), after)
    ]

true-repeated :
    (accepts : ℕ → Bool) (go : List ℕ → Bool) (p rest : List ℕ)
    → IsAll accepts p
    → go rest ≡ true
    → repeated accepts go (p ++ rest) ≡ true
true-repeated accepts go [] [] alls h = h
true-repeated accepts go [] (x ∷ rest) alls h = rw h refl
true-repeated accepts go (x ∷ p) rest (first, alls) h =
    true_or (go (x ∷ (p ++ rest))) (accepts x && repeated accepts go (p ++ rest))
      (rw (first, true-repeated accepts go p rest alls h) refl)

test-Matches : (ls : List Lexeme) (s : List ℕ) → test ls s ≡ true → Matches ls s
unfolding test
test-Matches [] [] h = refl
test-Matches [] (x ∷ s) h = absurd (cc)
test-Matches (plain c ∷ ls) s h =
    let (x, rest, e, accepted, after) = starts_with-true (is_plain c) (test ls) s h in
    let both = and_true (not (is_metacharacter c)) (eqb c x) accepted in
    (
      x ∷ [],
      rest,
      e,
      (not-true (is_metacharacter c) both.0, ap (λ y. y ∷ []) (sym (eqb→eq c x both.1))),
      test-Matches ls rest after,
    )
test-Matches (escaped c ∷ ls) s h =
    let (x, rest, e, accepted, after) = starts_with-true (eqb c) (test ls) s h in
    (x ∷ [], rest, e, ap (λ y. y ∷ []) (sym (eqb→eq c x accepted)), test-Matches ls rest after)
test-Matches (non_slashes ∷ ls) s h =
    let (x, rest, e, accepted, after) =
      starts_with-true (λ x. not (eqb x 47)) (repeated (λ x. not (eqb x 47)) (test ls)) s h in
    let (p, rest', e', alls, after') = repeated-true (λ x. not (eqb x 47)) (test ls) rest after in
    (
      x ∷ p,
      rest',
      e ∙ ap (λ s. x ∷ s) e',
      (x, p, refl, (accepted, alls)),
      test-Matches ls rest' after',
    )
test-Matches (anything ∷ ls) s h =
    let (p, rest, e, alls, after) = repeated-true (λ x. not (is_line_terminator x)) (test ls) s h in
    (p, rest, e, alls, test-Matches ls rest after)
test-Matches (optional_slash ∷ ls) s h =
    elim (or_true (test ls s) (starts_with (eqb 47) (test ls) s) h) [
      | inl now ↦ ([], s, refl, inl refl, test-Matches ls s now)
      | inr later ↦
          let (x, rest, e, accepted, after) = starts_with-true (eqb 47) (test ls) s later in
          (
            x ∷ [],
            rest,
            e,
            inr (ap (λ y. y ∷ []) (sym (eqb→eq 47 x accepted))),
            test-Matches ls rest after,
          )
    ]

Matches-test : (ls : List Lexeme) (s : List ℕ) → Matches ls s → test ls s ≡ true
unfolding test
Matches-test [] s h = rw h refl
Matches-test (plain c ∷ ls) s (p, rest, e, (literal, spelled), after) =
    rw (e, spelled, literal, eqb_refl c) (Matches-test ls rest after)
Matches-test (escaped c ∷ ls) s (p, rest, e, spelled, after) =
    rw (e, spelled, eqb_refl c) (Matches-test ls rest after)
Matches-test (non_slashes ∷ ls) s (p, rest, e, (x, xs, spelled, (first, alls)), after) =
    rw (e, spelled, first)
      (true-repeated (λ x. not (eqb x 47)) (test ls) xs rest alls (Matches-test ls rest after))
Matches-test (anything ∷ ls) s (p, rest, e, alls, after) = rw e (
    true-repeated (λ x. not (is_line_terminator x)) (test ls) p rest alls
      (Matches-test ls rest after))
Matches-test (optional_slash ∷ ls) s (p, rest, e, inl empty, after) =
    rw (e, empty, Matches-test ls rest after) refl
Matches-test (optional_slash ∷ ls) s (p, rest, e, inr slash, after) =
    rw (e, slash) (true_or (test ls (47 ∷ rest)) (test ls rest) (Matches-test ls rest after))

pub test_iff : (ls : List Lexeme) (s : List ℕ) → (test ls s ≡ true) ↔ Matches ls s
test_iff ls s = (test-Matches ls s, Matches-test ls s)
