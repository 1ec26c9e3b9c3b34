-- ===== src/Core/Names/Patterns.antt =====
-- Which texts the patterns of names.ts accept.
use fissionplane.Prelude.{
  ℕ, ◌≡◌, refl, inl, inr, Bool, true, false, not, List, [], ◌∷◌, ◌++◌, All, arith, ◌≤◌, Bool-cases,
  and_true, and_false, any, length, le→leb,
}
use fissionplane.Web.RegExp.{is_line_terminator}
use fissionplane.Core.Names.{
  is_space, is_control, every, begins, ends_in_space, is_filled, is_alphanumeric, is_label_unit,
  label_rest, dns_label_pattern, trim_start, trim_end, kept_start, trim, display_name_schema, made,
}

pub every-All :
    (accepts : ℕ → Bool) (s : List ℕ) → every accepts s ≡ true → All (λ u. accepts u ≡ true) s
every-All accepts [] h = tt
every-All accepts (u ∷ s) h =
    let (first, rest) = and_true (accepts u) (every accepts s) h in
    (first, every-All accepts s rest)

pub All-every :
    (accepts : ℕ → Bool) (s : List ℕ) → All (λ u. accepts u ≡ true) s → every accepts s ≡ true
All-every accepts [] h = refl
All-every accepts (u ∷ s) (first, rest) = rw first (All-every accepts s rest)

-- A label unit in front of one that ends well.
pub label_rest-append :
    (s : List ℕ) (u : ℕ)
    → All (λ v. is_label_unit v ≡ true) s
    → is_alphanumeric u ≡ true
    → label_rest (s ++ (u ∷ [])) ≡ true
label_rest-append [] u h k = k
label_rest-append (v ∷ []) u (first, h) k = rw (first, k) refl
label_rest-append (v ∷ w ∷ s) u (first, h) k = rw first (label_rest-append (w ∷ s) u h k)

pub dns_label_pattern-append :
    (c : ℕ) (s : List ℕ) (u : ℕ)
    → is_alphanumeric c ≡ true
    → All (λ v. is_label_unit v ≡ true) s
    → is_alphanumeric u ≡ true
    → dns_label_pattern (c ∷ (s ++ (u ∷ []))) ≡ true
unfolding dns_label_pattern
dns_label_pattern-append c [] u first h k = rw (first, k) refl
dns_label_pattern-append c (v ∷ s) u first h k = rw first (label_rest-append (v ∷ s) u h k)

-- Trimmed texts neither begin nor end with white space.
trim_start-begins : (s : List ℕ) → begins is_space (trim_start s) ≡ false
trim_start-begins [] = refl
trim_start-begins (u ∷ s) = elim (Bool-cases (is_space u)) [
  | inl e ↦ rw e (trim_start-begins s)
  | inr e ↦ rw e e
]

kept_start-begins :
    (u : ℕ) (s : List ℕ) → is_space u ≡ false → begins is_space (kept_start u s) ≡ false
kept_start-begins u [] h = rw h h
kept_start-begins u (v ∷ s) h = h

trim_end-begins : (s : List ℕ) → begins is_space s ≡ false → begins is_space (trim_end s) ≡ false
trim_end-begins [] h = refl
trim_end-begins (u ∷ s) h = kept_start-begins u (trim_end s) h

pub trim-begins : (s : List ℕ) → begins is_space (trim s) ≡ false
unfolding trim
trim-begins s = trim_end-begins (trim_start s) (trim_start-begins s)

kept_start-ends :
    (u : ℕ) (s : List ℕ) → ends_in_space s ≡ false → ends_in_space (kept_start u s) ≡ false
kept_start-ends u [] h = elim (Bool-cases (is_space u)) [ inl e ↦ rw e refl | inr e ↦ rw e e ]
kept_start-ends u (v ∷ s) h = and_false (not (is_line_terminator u)) (ends_in_space (v ∷ s)) h

trim_end-ends : (s : List ℕ) → ends_in_space (trim_end s) ≡ false
trim_end-ends [] = refl
trim_end-ends (u ∷ s) = kept_start-ends u (trim_end s) (trim_end-ends s)

pub trim-ends : (s : List ℕ) → ends_in_space (trim s) ≡ false
unfolding trim
trim-ends s = trim_end-ends (trim_start s)

pub every-any : (s : List ℕ) → every (λ u. not (is_control u)) s ≡ not (any is_control s)
every-any [] = refl
every-any (u ∷ s) = elim (Bool-cases (is_control u)) [
  | inl e ↦ rw e refl
  | inr e ↦ rw e (every-any s)
]

filled : (s : List ℕ) → 1 ≤ length s → is_filled s ≡ true
filled [] h = absurd (omega arith)
filled (u ∷ s) h = refl

-- A trimmed text of an admitted size is a name if it holds no control character.
pub display_name_schema-trim :
    (max : ℕ) (s : List ℕ)
    → 1 ≤ length (trim s)
    → length (trim s) ≤ max
    → display_name_schema 1 max (trim s) ≡ made (not (any is_control (trim s))) (trim s)
unfolding display_name_schema
display_name_schema-trim max s low high =
    rw
      (
        le→leb 1 (length (trim s)) low,
        le→leb (length (trim s)) max high,
        trim-begins s,
        trim-ends s,
        filled (trim s) low,
        every-any (trim s),
      )
      refl
