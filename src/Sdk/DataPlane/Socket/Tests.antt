-- ===== src/Sdk/DataPlane/Socket/Tests.antt =====
-- The encoding of RFC 4648, written out, as the platform's `btoa`.
use fissionplane.Prelude.{
  ℕ, ◌+◌, ◌-◌, ◌*◌, ◌/◌, ◌%◌, ◌<◌, ◌≡◌, refl, true, List, [], ◌∷◌, ◌++◌, All, length, ltb, eqb,
  codes, arith, if◌then◌else◌,
}
use fissionplane.Sdk.DataPlane.Socket.{base64_url, strip_end, replace_unit}
use fissionplane.Sdk.DataPlane.Socket.Tokens.{
  IsBase64, is_base64, is_base64_url, replicate, restore, restore-base64_url,
}

abbrev letter : ℕ → ℕ
letter d =
    if ltb d 26
    then 65 + d
    else if ltb d 52
    then 71 + d
    else if ltb d 62
    then d - 4
    else if eqb d 62
    then 43
    else 47

abbrev body : List ℕ → List ℕ
body [] = []
body (a ∷ []) = letter (a / 4) ∷ letter (a % 4 * 16) ∷ []
body (a ∷ b ∷ []) = letter (a / 4) ∷ letter (a % 4 * 16 + b / 16) ∷ letter (b % 16 * 4) ∷ []
body (a ∷ b ∷ c ∷ rest) =
    letter (a / 4)
    ∷ letter (a % 4 * 16 + b / 16)
    ∷ letter (b % 16 * 4 + c / 64)
    ∷ letter (c % 64)
    ∷ body rest

abbrev padding : List ℕ → ℕ
padding [] = 0
padding (a ∷ []) = 2
padding (a ∷ b ∷ []) = 1
padding (a ∷ b ∷ c ∷ rest) = padding rest

abbrev btoa : List ℕ → List ℕ
btoa bytes = body bytes ++ replicate (padding bytes) 61

letter_fits : (d : ℕ) → is_base64 (letter d) ≡ true
letter_fits d = ground arith

alphabet : (bytes : List ℕ) → All (λ c. is_base64 c ≡ true) (body bytes)
alphabet [] = tt
alphabet (a ∷ []) = (letter_fits (a / 4), (letter_fits (a % 4 * 16), tt))
alphabet (a ∷ b ∷ []) =
    (letter_fits (a / 4), (letter_fits (a % 4 * 16 + b / 16), (letter_fits (b % 16 * 4), tt)))
alphabet (a ∷ b ∷ c ∷ rest) = (
  letter_fits (a / 4),
  (
    letter_fits (a % 4 * 16 + b / 16),
    (letter_fits (b % 16 * 4 + c / 64), (letter_fits (c % 64), alphabet rest)),
  ),
)

short : (bytes : List ℕ) → padding bytes < 3
short [] = omega arith
short (a ∷ []) = omega arith
short (a ∷ b ∷ []) = omega arith
short (a ∷ b ∷ c ∷ rest) = short rest

full : (bytes : List ℕ) → (length (body bytes) + padding bytes) % 4 ≡ 0
full [] = refl
full (a ∷ []) = refl
full (a ∷ b ∷ []) = refl
full (a ∷ b ∷ c ∷ rest) = omega (arith, full rest)

btoa_IsBase64 : IsBase64 btoa
btoa_IsBase64 = record {
  body = body;
  padding = padding;
  split = λ bytes. refl;
  alphabet = alphabet;
  short = short;
  full = full;
}

-- The bytes of "<<???>>" need all the substitutions.
substituted : base64_url btoa (codes "<<???>>") ≡ codes "PDw_Pz8-Pg"
unfolding base64_url strip_end replace_unit
substituted = refl

restore-base64_url_example :
    All (λ c. is_base64_url c ≡ true) (base64_url btoa (codes "<<???>>"))
    × (restore (base64_url btoa (codes "<<???>>")) ≡ btoa (codes "<<???>>"))
restore-base64_url_example = restore-base64_url btoa btoa_IsBase64 (codes "<<???>>")
