-- ===== src/Core/Names.antt =====
-- src/libs/typescript/core/src/shared/names.ts and shared/identifiers.ts: the patterns of names and
-- ids. A text is the list of its UTF-16 code units, which a schema's length counts; none of the classes
-- of these patterns holds half of a surrogate pair, so that a pattern with the flag `u` reads it alike.
pub mod Patterns
pub mod Padding
mod Tests
use fissionplane.Prelude.{
  ℕ, zero, suc, Bool, true, false, not, ◌&&◌, ◌||◌, Option, none, some, List, [], ◌∷◌, leb, eqb,
  length, if◌then◌else◌,
}
use fissionplane.Web.RegExp.{is_line_terminator}

-- `\s`, which is also what `trim` takes off.
abbrev pub is_space : ℕ → Bool
is_space u =
    (leb 9 u && leb u 13)
    || eqb u 32
    || eqb u 160
    || eqb u 5760
    || (leb 8192 u && leb u 8202)
    || eqb u 8232
    || eqb u 8233
    || eqb u 8239
    || eqb u 8287
    || eqb u 12288
    || eqb u 65279

-- `\p{Cc}`.
abbrev pub is_control : ℕ → Bool
is_control u = leb u 31 || (leb 127 u && leb u 159)

abbrev pub every : (ℕ → Bool) → List ℕ → Bool
every accepts [] = true
every accepts (u ∷ s) = accepts u && every accepts s

abbrev pub begins : (ℕ → Bool) → List ℕ → Bool
begins accepts [] = false
begins accepts (u ∷ s) = accepts u

-- `(?=.*\s$)`: a space at the end, and before it nothing that `.` does not match.
abbrev pub ends_in_space : List ℕ → Bool
ends_in_space [] = false
ends_in_space (u ∷ []) = is_space u
ends_in_space (u ∷ v ∷ s) = not (is_line_terminator u) && ends_in_space (v ∷ s)

abbrev pub is_filled : List ℕ → Bool
is_filled [] = false
is_filled (u ∷ s) = true

-- DISPLAY_NAME_PATTERN, `/^(?!\s)(?!.*\s$)[^\p{Cc}]+$/u`.
unfoldable pub display_name_pattern : List ℕ → Bool
display_name_pattern s =
    not (begins is_space s)
    && not (ends_in_space s)
    && is_filled s
    && every (λ u. not (is_control u)) s

abbrev pub is_alphanumeric : ℕ → Bool
is_alphanumeric u = (leb 97 u && leb u 122) || (leb 48 u && leb u 57)

abbrev pub is_label_unit : ℕ → Bool
is_label_unit u = is_alphanumeric u || eqb u 45

-- `(?:[a-z0-9-]*[a-z0-9])$`, of at least one unit.
abbrev pub label_rest : List ℕ → Bool
label_rest [] = false
label_rest (u ∷ []) = is_alphanumeric u
label_rest (u ∷ v ∷ s) = is_label_unit u && label_rest (v ∷ s)

-- DNS_LABEL_PATTERN, `/^[a-z0-9](?:[a-z0-9-]*[a-z0-9])?$/`.
unfoldable pub dns_label_pattern : List ℕ → Bool
dns_label_pattern [] = false
dns_label_pattern (u ∷ []) = is_alphanumeric u
dns_label_pattern (u ∷ v ∷ s) = is_alphanumeric u && label_rest (v ∷ s)

abbrev pub has_size : ℕ → ℕ → List ℕ → Bool
has_size min max s = leb min (length s) && leb (length s) max

-- The `make` of a schema returns its argument, or throws.
abbrev pub made : Bool → List ℕ → Option (List ℕ)
made true s = some s
made false s = none

unfoldable pub display_name_schema : ℕ → ℕ → List ℕ → Option (List ℕ)
unfolding display_name_pattern
display_name_schema min max s = made (has_size min max s && display_name_pattern s) s

unfoldable pub dns_label_schema : ℕ → ℕ → List ℕ → Option (List ℕ)
unfolding dns_label_pattern
dns_label_schema min max s = made (has_size min max s && dns_label_pattern s) s

abbrev pub nano_id_length : ℕ
nano_id_length = 24

-- NANO_ID_PATTERN.
unfoldable pub nano_id_pattern : List ℕ → Bool
nano_id_pattern s = eqb (length s) nano_id_length && every is_alphanumeric s

-- `id` is what nanoid's generator returns.
unfoldable pub generate_nano_id : List ℕ → Option (List ℕ)
unfolding nano_id_pattern
generate_nano_id id = made (nano_id_pattern id) id

-- `text.trim()`.
abbrev pub trim_start : List ℕ → List ℕ
trim_start [] = []
trim_start (u ∷ s) = let rest = trim_start s in if is_space u then rest else u ∷ s

abbrev pub kept_start : ℕ → List ℕ → List ℕ
kept_start u [] = if is_space u then [] else u ∷ []
kept_start u (v ∷ s) = u ∷ v ∷ s

abbrev pub trim_end : List ℕ → List ℕ
trim_end [] = []
trim_end (u ∷ s) = kept_start u (trim_end s)

unfoldable pub trim : List ℕ → List ℕ
trim s = trim_end (trim_start s)
