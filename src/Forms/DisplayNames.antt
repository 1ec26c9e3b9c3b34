-- ===== src/Forms/DisplayNames.antt =====
-- features/organizations/parse-organization-name.ts and features/auth/parse-user-display-name.ts.
use fissionplane.Prelude.{
  ℕ, ◌≡◌, refl, inl, inr, true, false, not, String, Option, none, some, List, ltb, eqb, length, any,
  Bool-cases, arith, if◌then◌else◌,
}
use fissionplane.Core.Names.{is_control, trim, made, display_name_schema}
use fissionplane.Core.Names.Patterns.{display_name_schema-trim}

pub data NameResult : Type 0 where
  valid : List ℕ → NameResult
  invalid : String → NameResult

-- `try { … make(normalized) } catch { … }`.
abbrev pub tried : String → Option (List ℕ) → NameResult
tried unsupported (some value) = valid value
tried unsupported none = invalid unsupported

-- What the two functions have in common: their bounds and messages differ.
unfoldable pub parse_name :
    (min max : ℕ) → (required too_long unsupported : String) → List ℕ → NameResult
parse_name min max required too_long unsupported input =
    let normalized = trim input in
    if ltb (length normalized) min
    then invalid required
    else if ltb max (length normalized)
    then invalid too_long
    else tried unsupported (display_name_schema min max normalized)

unfoldable pub parse_organization_name : List ℕ → NameResult
unfolding parse_name
parse_organization_name =
    parse_name 1 100 "Organization name is required"
      "Organization name must be 100 characters or fewer"
      "Organization name contains unsupported characters"

unfoldable pub parse_user_display_name : List ℕ → NameResult
unfolding parse_name
parse_user_display_name =
    parse_name 1 80 "Name is required" "Name must be 80 characters or fewer"
      "Name contains unsupported characters"

-- What a form answers, by the trimmed input alone.
abbrev pub answer : ℕ → (required too_long unsupported : String) → List ℕ → NameResult
answer max required too_long unsupported name =
    if eqb (length name) 0
    then invalid required
    else if ltb max (length name)
    then invalid too_long
    else if any is_control name
    then invalid unsupported
    else valid name

tried-made :
    (unsupported : String) (name : List ℕ)
    → tried unsupported (made (not (any is_control name)) name)
      ≡ (if any is_control name then invalid unsupported else valid name)
tried-made unsupported name = elim (Bool-cases (any is_control name)) [
  | inl e ↦ rw e refl
  | inr e ↦ rw e refl
]

parse_name-answer :
    (max : ℕ) (required too_long unsupported : String) (input : List ℕ)
    → parse_name 1 max required too_long unsupported input
      ≡ answer max required too_long unsupported (trim input)
unfolding parse_name
parse_name-answer max required too_long unsupported input =
    let size = length (trim input) in
    elim (Bool-cases (ltb size 1)) [
      | inl e ↦ let none_left : eqb size 0 ≡ true = ground arith in rw (e, none_left) refl
      | inr e ↦
          let some_left : eqb size 0 ≡ false = ground arith in
          elim (Bool-cases (ltb max size)) [
            | inl e' ↦ rw (e, e', some_left) refl
            | inr e' ↦
                rw
                  (
                    e,
                    e',
                    some_left,
                    display_name_schema-trim max input (ground arith) (ground arith),
                  )
                  (tried-made unsupported (trim input))
          ]
    ]

-- A form answers with the trimmed input exactly if it is not empty, not longer than the bound and
-- without control characters, and else with the message for the first of these that fails.
pub parse_names-answer :
    (input : List ℕ)
    → (parse_organization_name input
        ≡ answer 100 "Organization name is required"
            "Organization name must be 100 characters or fewer"
            "Organization name contains unsupported characters"
            (trim input))
      × (parse_user_display_name input
          ≡ answer 80 "Name is required" "Name must be 80 characters or fewer"
              "Name contains unsupported characters"
              (trim input))
unfolding parse_organization_name parse_user_display_name
parse_names-answer input = (parse_name-answer 100 _ _ _ input, parse_name-answer 80 _ _ _ input)
