-- ===== src/Console/Routes/Patterns.antt =====
-- A path pattern matches the paths that fit the contract's path segment by segment.
use fissionplane.Prelude.{
  ℕ, ◌≡◌, refl, sym, ◌∙◌, ◌↔◌, ◌⊎◌, inl, inr, ap, true, false, List, [], ◌∷◌, ◌++◌, map,
  append_assoc, append-nil, join_with, split_on, Bool-cases, if◌then◌else◌,
}
use fissionplane.Web.RegExp.{
  Lexeme, plain, non_slashes, anything, optional_slash, is_metacharacter, test,
}
use fissionplane.Web.RegExp.Language.{Spells, Matches, test_iff}
use fissionplane.Console.Routes.{
  escape_character, escape_segment, starts_with_colon, is_star, segment_lexemes, to_path_pattern,
}

-- The part of a path that a segment of the contract admits: any text without a slash for a parameter,
-- any one without a line break for `*`, and otherwise the segment itself.
abbrev pub Admits : List ℕ → List ℕ → Type 0
Admits segment part =
    if starts_with_colon segment
    then Spells non_slashes part
    else if is_star segment
    then Spells anything part
    else (part ≡ segment)

abbrev pub Fits : List (List ℕ) → List (List ℕ) → Type 0
Fits [] [] = Unit
Fits [] (p ∷ ps) = ⊥
Fits (s ∷ ss) [] = ⊥
Fits (s ∷ ss) (p ∷ ps) = Admits s p × Fits ss ps

-- A path that falls at slashes into parts which the segments admit, with or without a slash at the end.
abbrev pub IsUnder : List ℕ → List ℕ → Type 0
IsUnder path pathname =
    (parts : List (List ℕ)) × Fits (split_on 47 path) parts
    × ((pathname ≡ join_with (47 ∷ []) parts) ⊎ (pathname ≡ join_with (47 ∷ []) parts ++ (47 ∷ [])))

module _ (after : List Lexeme) where
  Matches-append :
      (ls : List Lexeme) (s : List ℕ)
      → Matches (ls ++ after) s
      → (p : List ℕ) × (rest : List ℕ) × (s ≡ p ++ rest) × Matches ls p × Matches after rest
  Matches-append [] s h = ([], s, refl, refl, h)
  Matches-append (l ∷ ls) s (p, rest, e, spelled, h) =
      let (p', rest', e', m, h') = Matches-append ls rest h in
      (
        p ++ p',
        rest',
        e ∙ (ap (λ r. p ++ r) e' ∙ sym (append_assoc p p' rest')),
        (p, p', refl, spelled, m),
        h',
      )

  append-Matches :
      (ls : List Lexeme) (p rest : List ℕ)
      → Matches ls p
      → Matches after rest
      → Matches (ls ++ after) (p ++ rest)
  append-Matches [] p rest m h = rw m h
  append-Matches (l ∷ ls) p rest (q, q', e, spelled, m) h =
      (q, q' ++ rest, rw e (append_assoc q q' rest), spelled, append-Matches ls q' rest m h)

literal-Spells : (c : ℕ) → Spells (escape_character c) (c ∷ [])
unfolding escape_character
literal-Spells c = elim (Bool-cases (is_metacharacter c)) [
  | inl e ↦ rw e refl
  | inr e ↦ rw e (e, refl)
]

Spells-literal : (c : ℕ) (p : List ℕ) → Spells (escape_character c) p → p ≡ c ∷ []
unfolding escape_character
Spells-literal c p h = elim (Bool-cases (is_metacharacter c)) [
  | inl e ↦ rw e at h
  | inr e ↦ (rw e at h).1
]

escape_segment-Matches : (segment : List ℕ) → Matches (escape_segment segment) segment
unfolding escape_segment
escape_segment-Matches [] = refl
escape_segment-Matches (c ∷ s) = (c ∷ [], s, refl, literal-Spells c, escape_segment-Matches s)

Matches-escape_segment : (segment p : List ℕ) → Matches (escape_segment segment) p → p ≡ segment
unfolding escape_segment
Matches-escape_segment [] p h = h
Matches-escape_segment (c ∷ s) p (q, rest, e, spelled, m) =
    rw (e, Spells-literal c q spelled, Matches-escape_segment s rest m) refl

one-Matches : (l : Lexeme) (p : List ℕ) → Spells l p ↔ Matches (l ∷ []) p
one-Matches l p = (
  λ spelled. (p, [], sym (append-nil p), spelled, refl),
  λ (q, rest, e, spelled, empty). rw (e, empty, append-nil q) spelled,
)

segment_iff : (segment p : List ℕ) → Admits segment p ↔ Matches (segment_lexemes segment) p
unfolding segment_lexemes
segment_iff segment p = elim (Bool-cases (starts_with_colon segment)) [
  | inl e ↦ rw e (one-Matches non_slashes p)
  | inr e ↦ elim (Bool-cases (is_star segment)) [
    | inl e' ↦ rw (e, e') (one-Matches anything p)
    | inr e' ↦
        rw (e, e')
          (
            λ same. rw same (escape_segment-Matches segment),
            λ m. Matches-escape_segment segment p m,
          )
  ]
]

abbrev pattern_of : List (List ℕ) → List Lexeme
pattern_of segments = join_with (plain 47 ∷ []) (map segment_lexemes segments)

not_metacharacter : is_metacharacter 47 ≡ false
unfolding is_metacharacter
not_metacharacter = refl

-- The parts of a path with a segment are joined by a slash to the one before them.
join-cons :
    (part t : List ℕ) (segments parts : List (List ℕ))
    → Fits (t ∷ segments) parts
    → join_with (47 ∷ []) (part ∷ parts) ≡ part ++ ((47 ∷ []) ++ join_with (47 ∷ []) parts)
join-cons part t segments [] fits = absurd fits
join-cons part t segments (q ∷ parts) fits = refl

Matches-parts :
    (segments : List (List ℕ)) (p : List ℕ)
    → Matches (pattern_of segments) p
    → (parts : List (List ℕ)) × Fits segments parts × (p ≡ join_with (47 ∷ []) parts)
Matches-parts [] p h = ([], tt, h)
Matches-parts (s ∷ []) p h = (p ∷ [], ((segment_iff s p).1 h, tt), refl)
Matches-parts (s ∷ t ∷ segments) p h =
    let (part, rest, e, m, (slash, rest', e', (_, is_slash), m')) =
      Matches-append (plain 47 ∷ pattern_of (t ∷ segments)) (segment_lexemes s) p h in
    let (parts, fits, same) = Matches-parts (t ∷ segments) rest' m' in
    (
      part ∷ parts,
      ((segment_iff s part).1 m, fits),
      rw (e, e', is_slash, join-cons part t segments parts fits) (ap (λ r. part ++ (47 ∷ r)) same),
    )

parts-Matches :
    (segments parts : List (List ℕ))
    → Fits segments parts
    → Matches (pattern_of segments) (join_with (47 ∷ []) parts)
parts-Matches [] [] h = refl
parts-Matches [] (p ∷ parts) h = absurd h
parts-Matches (s ∷ segments) [] h = absurd h
parts-Matches (s ∷ []) (p ∷ []) (admits, h) = (segment_iff s p).0 admits
parts-Matches (s ∷ []) (p ∷ q ∷ parts) (admits, h) = absurd h
parts-Matches (s ∷ t ∷ segments) (p ∷ []) (admits, h) = absurd h
parts-Matches (s ∷ t ∷ segments) (p ∷ q ∷ parts) (admits, h) =
    append-Matches (plain 47 ∷ pattern_of (t ∷ segments)) (segment_lexemes s) p
      (47 ∷ join_with (47 ∷ []) (q ∷ parts)) ((segment_iff s p).0 admits)
      (
        47 ∷ [],
        join_with (47 ∷ []) (q ∷ parts),
        refl,
        (not_metacharacter, refl),
        parts-Matches (t ∷ segments) (q ∷ parts) h,
      )

-- The pattern of a path of the contract matches exactly the paths under it.
pub to_path_pattern_iff :
    (path pathname : List ℕ) → (test (to_path_pattern path) pathname ≡ true) ↔ IsUnder path pathname
unfolding to_path_pattern
to_path_pattern_iff path pathname =
    let iff = test_iff (to_path_pattern path) pathname in
    (
      λ h.
          let (p, rest, e, m, (q, empty, e', slash, nothing)) =
            Matches-append (optional_slash ∷ []) (pattern_of (split_on 47 path)) pathname
              (iff.0 h) in
          let (parts, fits, same) = Matches-parts (split_on 47 path) p m in
          let whole : pathname ≡ p ++ q = rw (e, e', nothing, append-nil q) refl in
          (
            parts,
            fits,
            elim slash [
              | inl none_there ↦ inl (rw (whole, none_there, append-nil p) same)
              | inr one_there ↦ inr (rw (whole, one_there, same) refl)
            ],
          ),
      λ (parts, fits, slash).
          let m = parts-Matches (split_on 47 path) parts fits in
          let joined = join_with (47 ∷ []) parts in
          iff.1 (elim slash [
            | inl plainly ↦ rw (plainly ∙ sym (append-nil joined)) (
                append-Matches (optional_slash ∷ []) (pattern_of (split_on 47 path)) joined [] m
                  ([], [], refl, inl refl, refl))
            | inr ended ↦ rw ended (
                append-Matches (optional_slash ∷ []) (pattern_of (split_on 47 path)) joined
                  (47 ∷ []) m (47 ∷ [], [], refl, inr refl, refl))
          ]),
    )
