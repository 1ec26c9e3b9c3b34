-- ===== src/Sdk/DataPlane/Socket/Tokens.antt =====
-- dataplane.ts, base64Url: a token is read back from its sub-protocol.
use fissionplane.Prelude.{
  ℕ, zero, suc, ◌+◌, ◌-◌, ◌%◌, ◌<◌, ◌≡◌, refl, sym, Bool, true, false, ◌&&◌, ◌||◌, List, [], ◌∷◌,
  ◌++◌, map, All, length, eqb, leb, arith, if◌then◌else◌,
}
use fissionplane.Sdk.DataPlane.Socket.{replace_unit, strip_end, base64_url}

-- The alphabet of RFC 4648: letters, digits, `+` and `/`.
abbrev pub is_letter_or_digit : ℕ → Bool
is_letter_or_digit c = (leb 65 c && leb c 90) || (leb 97 c && leb c 122) || (leb 48 c && leb c 57)

abbrev pub is_base64 : ℕ → Bool
is_base64 c = is_letter_or_digit c || eqb c 43 || eqb c 47

-- What a sub-protocol may hold of them.
abbrev pub is_base64_url : ℕ → Bool
is_base64_url c = is_letter_or_digit c || eqb c 45 || eqb c 95

abbrev pub replicate : ℕ → ℕ → List ℕ
replicate zero c = []
replicate (suc n) c = c ∷ replicate n c

-- The shape of what `btoa` returns: units of the alphabet, filled up with `=` to a multiple of four.
pub record IsBase64 (btoa : List ℕ → List ℕ) : Type 0 where
  pub body : List ℕ → List ℕ
  pub padding : List ℕ → ℕ
  pub split : (bytes : List ℕ) → btoa bytes ≡ body bytes ++ replicate (padding bytes) 61
  pub alphabet : (bytes : List ℕ) → All (λ c. is_base64 c ≡ true) (body bytes)
  pub short : (bytes : List ℕ) → padding bytes < 3
  pub full : (bytes : List ℕ) → (length (body bytes) + padding bytes) % 4 ≡ 0

-- The reader of a token: the substitutions are undone and the filling put back.
abbrev pub standard : ℕ → ℕ
standard c = if eqb c 45 then 43 else if eqb c 95 then 47 else c

abbrev pub restore : List ℕ → List ℕ
restore units = map standard units ++ replicate ((4 - length units % 4) % 4) 61

abbrev swapped : List ℕ → List ℕ
swapped xs = map (replace_unit 47 95) (map (replace_unit 43 45) xs)

swap-standard :
    (c : ℕ) → is_base64 c ≡ true → standard (replace_unit 47 95 (replace_unit 43 45 c)) ≡ c
unfolding replace_unit
swap-standard c h = ground arith

swapped-append : (xs ys : List ℕ) → swapped (xs ++ ys) ≡ swapped xs ++ swapped ys
swapped-append [] ys = refl
swapped-append (x ∷ xs) ys = cc (swapped-append xs ys)

swapped-replicate : (n : ℕ) → swapped (replicate n 61) ≡ replicate n 61
unfolding replace_unit
swapped-replicate zero = refl
swapped-replicate (suc n) = cc (swapped-replicate n)

swapped-standard : (xs : List ℕ) → All (λ c. is_base64 c ≡ true) xs → map standard (swapped xs) ≡ xs
swapped-standard [] h = refl
swapped-standard (x ∷ xs) (h, hs) = cc (swap-standard x h, swapped-standard xs hs)

length-swapped : (xs : List ℕ) → length (swapped xs) ≡ length xs
length-swapped [] = refl
length-swapped (x ∷ xs) = omega (arith, length-swapped xs)

swap-url :
    (c : ℕ) → is_base64 c ≡ true → is_base64_url (replace_unit 47 95 (replace_unit 43 45 c)) ≡ true
unfolding replace_unit
swap-url c h = ground arith

swapped-url :
    (xs : List ℕ)
    → All (λ c. is_base64 c ≡ true) xs
    → All (λ c. is_base64_url c ≡ true) (swapped xs)
swapped-url [] h = tt
swapped-url (x ∷ xs) (h, hs) = (swap-url x h, swapped-url xs hs)

strip_end-replicate : (n : ℕ) → strip_end 61 (replicate n 61) ≡ []
unfolding strip_end
strip_end-replicate zero = refl
strip_end-replicate (suc n) = simp (strip_end-replicate n)

-- No unit of the alphabet is `=`, so only the filling goes.
strip_end-append :
    (xs : List ℕ) (n : ℕ)
    → All (λ c. is_base64_url c ≡ true) xs
    → strip_end 61 (xs ++ replicate n 61) ≡ xs
unfolding strip_end
strip_end-append [] n h = strip_end-replicate n
strip_end-append (x ∷ xs) n (h, hs) =
    let other : eqb x 61 ≡ false = ground arith in simp (other, strip_end-append xs n hs)

module _ (btoa : List ℕ → List ℕ) (shape : IsBase64 btoa) where
  base64_url-body : (bytes : List ℕ) → base64_url btoa bytes ≡ swapped (shape.body bytes)
  unfolding base64_url
  base64_url-body bytes =
      simp
        (
          shape.split bytes,
          swapped-append (shape.body bytes) (replicate (shape.padding bytes) 61),
          swapped-replicate (shape.padding bytes),
        )
        (strip_end-append (swapped (shape.body bytes)) (shape.padding bytes)
          (swapped-url (shape.body bytes) (shape.alphabet bytes)))

  padding_left : (n p : ℕ) → p < 3 → (n + p) % 4 ≡ 0 → (4 - n % 4) % 4 ≡ p
  padding_left n p short full = omega arith

  -- Where `btoa` answers in the shape of RFC 4648: the encoded token holds only letters, digits, `-`
  -- and `_`, and undoing the substitutions and the filling gives back what `btoa` answered.
  pub restore-base64_url :
      (bytes : List ℕ)
      → All (λ c. is_base64_url c ≡ true) (base64_url btoa bytes)
        × (restore (base64_url btoa bytes) ≡ btoa bytes)
  restore-base64_url bytes =
      let body = shape.body bytes in
      let left =
        padding_left (length body) (shape.padding bytes) (shape.short bytes) (shape.full bytes) in
      rw (base64_url-body bytes) (
        swapped-url body (shape.alphabet bytes),
        rw (swapped-standard body (shape.alphabet bytes), length-swapped body, left)
            (sym (shape.split bytes)),
      )
