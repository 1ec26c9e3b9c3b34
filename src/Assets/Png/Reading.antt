-- ===== src/Assets/Png/Reading.antt =====
-- A reader of chunks by the PNG specification, and what it makes of those that pngChunk writes.
use fissionplane.Prelude.{
  ℕ, zero, suc, ◌+◌, ◌*◌, ◌/◌, ◌%◌, ◌<◌, arith, ◌≡◌, refl, ap, ◌∙◌, true, Option, some, none, List,
  [], ◌∷◌, ◌++◌, append_assoc, length, All, eqb, ltb, if◌then◌else◌,
}
use mathlib.Core.Path.{subst}
use fissionplane.Web.Headers.{◌>>=◌}
use fissionplane.Assets.Crc.{crc32}
use fissionplane.Assets.Crc.Serial.{checksum, crc32-checksum}
use fissionplane.Assets.Crc.Bounds.{crc32-word}
use fissionplane.Assets.Scanlines.Unfiltering.{taken}
use fissionplane.Assets.Png.{write_uint32, latin1, png_chunk}

abbrev pub IsBytes : List ℕ → Type 0
IsBytes bs = All (λ b. b < 256) bs

unfoldable pub read_uint32 : List ℕ → Option (ℕ × List ℕ)
read_uint32 (a ∷ b ∷ c ∷ d ∷ rest) = some (((a * 256 + b) * 256 + c) * 256 + d, rest)
read_uint32 _ = none

-- The name and the data of a chunk whose checksum is right, and what follows it.
unfoldable pub read_chunk : List ℕ → Option ((List ℕ × List ℕ) × List ℕ)
unfolding taken
read_chunk bytes = do
  (size, bytes') ← read_uint32 bytes
  let (name, named) = taken 4 bytes'
  let (data_, rest) = taken size named
  (crc, rest') ← read_uint32 rest
  if eqb crc (checksum (name ++ data_)) then some ((name, data_), rest') else none

-- Four bytes of a number of 32 bits.
abbrev pub word_bytes : ℕ → List ℕ
word_bytes n = (n / 16777216) ∷ (n / 65536 % 256) ∷ (n / 256 % 256) ∷ (n % 256) ∷ []

pub write_uint32-some : (n : ℕ) → n < 4294967296 → write_uint32 n ≡ some (word_bytes n)
unfolding write_uint32
write_uint32-some n h = let fits : ltb n 4294967296 ≡ true = ground arith in rw fits refl

pub read_uint32-word_bytes :
    (n : ℕ) (rest : List ℕ) → read_uint32 (word_bytes n ++ rest) ≡ some (n, rest)
unfolding read_uint32
read_uint32-word_bytes n rest =
    let whole : ((n / 16777216 * 256 + n / 65536 % 256) * 256 + n / 256 % 256) * 256 + n % 256 ≡ n =
      omega arith in
    rw whole refl

pub IsBytes-word_bytes : (n : ℕ) → n < 4294967296 → IsBytes (word_bytes n)
IsBytes-word_bytes n h = (omega arith, (omega arith, (omega arith, (omega arith, tt))))

pub IsBytes-append : (xs ys : List ℕ) → IsBytes xs → IsBytes ys → IsBytes (xs ++ ys)
IsBytes-append [] ys h k = k
IsBytes-append (x ∷ xs) ys (first, h) k = (first, IsBytes-append xs ys h k)

pub taken-append : (xs rest : List ℕ) → taken (length xs) (xs ++ rest) ≡ (xs, rest)
unfolding taken
taken-append [] rest = refl
taken-append (x ∷ xs) rest = rw (taken-append xs rest) refl

pub IsBytes-latin1 : (count : ℕ) (type : List ℕ) → IsBytes (latin1 count type)
unfolding latin1
IsBytes-latin1 zero type = tt
IsBytes-latin1 (suc count) [] = (omega arith, IsBytes-latin1 count [])
IsBytes-latin1 (suc count) (c ∷ type) = (omega arith, IsBytes-latin1 count type)

pub length-latin1 : (count : ℕ) (type : List ℕ) → length (latin1 count type) ≡ count
unfolding latin1
length-latin1 zero type = refl
length-latin1 (suc count) [] = ap suc (length-latin1 count [])
length-latin1 (suc count) (c ∷ type) = ap suc (length-latin1 count type)

abbrev pub chunk_bytes : List ℕ → List ℕ → List ℕ
chunk_bytes name data_ =
    word_bytes (length data_) ++ (name ++ (data_ ++ word_bytes (crc32 (name ++ data_))))

pub png_chunk-some :
    (type data_ : List ℕ)
    → IsBytes data_
    → length data_ < 4294967296
    → png_chunk type data_ ≡ some (chunk_bytes (latin1 4 type) data_)
unfolding png_chunk
png_chunk-some type data_ bytes small =
    let crc =
      crc32-word (latin1 4 type ++ data_)
        (IsBytes-append (latin1 4 type) data_ (IsBytes-latin1 4 type) bytes) in
    rw
      (
        write_uint32-some (length data_) small,
        write_uint32-some (crc32 (latin1 4 type ++ data_)) crc,
      )
      refl

-- A chunk in the grouping in which it is read.
read_fields :
    (name data_ rest : List ℕ) (crc : ℕ)
    → length name ≡ 4
    → crc ≡ checksum (name ++ data_)
    → read_chunk (word_bytes (length data_) ++ (name ++ (data_ ++ (word_bytes crc ++ rest))))
      ≡ some ((name, data_), rest)
unfolding read_chunk
read_fields name data_ rest crc four checked =
    let tail_ = word_bytes crc ++ rest in
    let named : taken 4 (name ++ (data_ ++ tail_)) ≡ (name, data_ ++ tail_) =
      subst (λ n. taken n (name ++ (data_ ++ tail_)) ≡ (name, data_ ++ tail_)) four
        (taken-append name (data_ ++ tail_)) in
    let same : eqb crc (checksum (name ++ data_)) ≡ true = ground (arith, checked) in
    rw
      (
        read_uint32-word_bytes (length data_) (name ++ (data_ ++ tail_)),
        named,
        taken-append data_ tail_,
        read_uint32-word_bytes crc rest,
        same,
      )
      refl

-- The chunk that is written is read back, and what follows it is left.
pub read_chunk-chunk_bytes :
    (name data_ rest : List ℕ)
    → IsBytes name
    → length name ≡ 4
    → IsBytes data_
    → read_chunk (chunk_bytes name data_ ++ rest) ≡ some ((name, data_), rest)
read_chunk-chunk_bytes name data_ rest bytes four bytes' =
    let crc = crc32 (name ++ data_) in
    let regrouped : chunk_bytes name data_ ++ rest
        ≡ word_bytes (length data_) ++ (name ++ (data_ ++ (word_bytes crc ++ rest))) =
      ap (λ s. word_bytes (length data_) ++ s)
        (append_assoc name (data_ ++ word_bytes crc) rest
          ∙ ap (λ s. name ++ s) (append_assoc data_ (word_bytes crc) rest)) in
    ap read_chunk regrouped
    ∙ read_fields name data_ rest crc four
        (crc32-checksum (name ++ data_) (IsBytes-append name data_ bytes bytes'))
