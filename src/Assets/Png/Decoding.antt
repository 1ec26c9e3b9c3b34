-- ===== src/Assets/Png/Decoding.antt =====
-- A decoder of images by the PNG specification, and what it makes of those that Canvas.toPng writes.
use fissionplane.Prelude.{
  same_bytes, ℕ, zero, suc, ◌*◌, ◌<◌, arith, ◌≡◌, refl, ◌∙◌, Bool, true, false, ◌&&◌, inl, inr,
  Option, some, none, List, [], ◌∷◌, ◌++◌, length, codes, if◌then◌else◌,
}
use fissionplane.Web.Headers.{◌>>=◌}
use fissionplane.Assets.Scanlines.{
  bytes_from, score_from, raw, sub_byte, up_byte, best, lines_from, filter_scanlines,
}
use fissionplane.Assets.Scanlines.Unfiltering.{taken, unfilter_scanlines, choose-cases, raw-bound}
use fissionplane.Assets.Scanlines.Rows.{unfilter-filter_scanlines}
use fissionplane.Assets.Png.{Canvas, latin1, signature, header_of, to_png}
use fissionplane.Assets.Png.Reading.{
  IsBytes, word_bytes, write_uint32-some, read_uint32, read_uint32-word_bytes, IsBytes-word_bytes,
  IsBytes-append, taken-append, read_chunk, chunk_bytes, png_chunk-some, read_chunk-chunk_bytes,
}

-- The data of the next chunk, which must have a name.
unfoldable pub named_chunk : List ℕ → List ℕ → Option (List ℕ × List ℕ)
named_chunk name bytes = do
  (chunk, rest) ← read_chunk bytes
  if same_bytes chunk.0 name then some (chunk.1, rest) else none

-- 8 bits a channel, true colour, and the only compression, filtering and interlacing modelled.
abbrev pub format : List ℕ
format = 8 ∷ 2 ∷ 0 ∷ 0 ∷ 0 ∷ []

unfoldable pub image_of :
    (inflate : List ℕ → Option (List ℕ)) → (width height : ℕ) → List ℕ → Option Canvas
image_of inflate width height packed = do
  lines ← inflate packed
  some (record { width = width; height = height; pixels = unfilter_scanlines width height lines })

unfoldable pub checked_image :
    (inflate : List ℕ → Option (List ℕ)) → Bool → (width height : ℕ) → List ℕ → Option Canvas
unfolding image_of
checked_image inflate true width height packed = image_of inflate width height packed
checked_image inflate false width height packed = none

unfoldable pub decode_chunks : (inflate : List ℕ → Option (List ℕ)) → List ℕ → Option Canvas
unfolding checked_image
decode_chunks inflate bytes = do
  (header, rest) ← named_chunk (codes "IHDR") bytes
  (packed, rest') ← named_chunk (codes "IDAT") rest
  (nothing, rest'') ← named_chunk (codes "IEND") rest'
  (width, header') ← read_uint32 header
  (height, header'') ← read_uint32 header'
  checked_image inflate (same_bytes header'' format && same_bytes rest'' []) width height packed

unfoldable pub decode : (inflate : List ℕ → Option (List ℕ)) → List ℕ → Option Canvas
decode inflate bytes =
    if same_bytes (taken 8 bytes).0 signature then decode_chunks inflate (taken 8 bytes).1 else none

-- What zlib promises of `deflateSync`: bytes that inflate to what was deflated.
pub record IsDeflate (deflate : List ℕ → List ℕ) (inflate : List ℕ → Option (List ℕ)) : Type 0 where
  pub bytes : (plain : List ℕ) → IsBytes plain → IsBytes (deflate plain)
  pub inflates : (plain : List ℕ) → IsBytes plain → inflate (deflate plain) ≡ some plain

same_bytes_refl : (xs : List ℕ) → same_bytes xs xs ≡ true
same_bytes_refl [] = refl
same_bytes_refl (x ∷ xs) = ground (arith, same_bytes_refl xs)

named_chunk-chunk_bytes :
    (name data_ rest : List ℕ)
    → IsBytes name
    → length name ≡ 4
    → IsBytes data_
    → named_chunk name (chunk_bytes name data_ ++ rest) ≡ some (data_, rest)
unfolding named_chunk
named_chunk-chunk_bytes name data_ rest bytes four bytes' =
    rw (read_chunk-chunk_bytes name data_ rest bytes four bytes', same_bytes_refl name) refl

-- The chunks of an image, one after another.
abbrev chunks : List ℕ → List ℕ → List ℕ
chunks header packed =
    chunk_bytes (codes "IHDR") header
    ++ (chunk_bytes (codes "IDAT") packed ++ chunk_bytes (codes "IEND") [])

abbrev header_bytes : ℕ → ℕ → List ℕ
header_bytes width height = word_bytes width ++ (word_bytes height ++ format)

module _ (inflate : List ℕ → Option (List ℕ)) where
  decode_chunks-chunks :
      (width height : ℕ) (packed : List ℕ)
      → IsBytes (header_bytes width height)
      → IsBytes packed
      → decode_chunks inflate (chunks (header_bytes width height) packed)
        ≡ image_of inflate width height packed
  unfolding decode_chunks checked_image
  decode_chunks-chunks width height packed bytes bytes' =
      rw
        (
          named_chunk-chunk_bytes (codes "IHDR") (header_bytes width height)
              (chunk_bytes (codes "IDAT") packed ++ chunk_bytes (codes "IEND") []) (omega arith)
              refl bytes,
          named_chunk-chunk_bytes (codes "IDAT") packed (chunk_bytes (codes "IEND") [])
              (omega arith) refl bytes',
          named_chunk-chunk_bytes (codes "IEND") [] [] (omega arith) refl tt,
          read_uint32-word_bytes width (word_bytes height ++ format),
          read_uint32-word_bytes height format,
        )
        refl

-- What filterScanlines writes are bytes.
IsBytes-bytes_from :
    (count index : ℕ) (f : ℕ → ℕ) → ((i : ℕ) → f i < 256) → IsBytes (bytes_from count index f)
IsBytes-bytes_from zero index f h = tt
IsBytes-bytes_from (suc count) index f h = (h index, IsBytes-bytes_from count (suc index) f h)

module _ (rgb : List ℕ) (stride : ℕ) (bytes : IsBytes rgb) where
  IsBytes-best : (y : ℕ) → IsBytes ((best rgb stride y).0 ∷ (best rgb stride y).1)
  unfolding best sub_byte up_byte
  IsBytes-best y =
      elim (choose-cases rgb stride (score_from stride 0 (raw rgb stride y))
        (score_from stride 0 (sub_byte rgb stride y)) (score_from stride 0 (up_byte rgb stride y))
        y) [
          | inl e ↦ rw e (omega arith, IsBytes-bytes_from stride 0 _ (λ i. omega arith))
          | inr (inl e) ↦ rw e (omega arith, IsBytes-bytes_from stride 0 _ (λ i. omega arith))
          | inr (inr e) ↦
              rw e (omega arith, IsBytes-bytes_from stride 0 _ (raw-bound rgb stride bytes y))
        ]

  IsBytes-lines_from : (count y : ℕ) → IsBytes (lines_from rgb stride count y)
  unfolding lines_from
  IsBytes-lines_from zero y = tt
  IsBytes-lines_from (suc count) y =
      IsBytes-append ((best rgb stride y).0 ∷ (best rgb stride y).1)
        (lines_from rgb stride count (suc y)) (IsBytes-best y) (IsBytes-lines_from count (suc y))

-- A canvas whose pixels are bytes that fill its rows, and whose sides are numbers of 32 bits.
pub record IsCanvas (canvas : Canvas) : Type 0 where
  pub bytes : IsBytes canvas.pixels
  pub filled : length canvas.pixels ≡ canvas.height * (canvas.width * 3)
  pub wide : canvas.width < 4294967296
  pub high : canvas.height < 4294967296

module _ (deflate : List ℕ → List ℕ) (inflate : List ℕ → Option (List ℕ))
    (laws : IsDeflate deflate inflate) where
  abbrev plain_of : Canvas → List ℕ
  plain_of canvas = filter_scanlines canvas.pixels canvas.width canvas.height

  IsBytes-plain_of : (canvas : Canvas) → IsBytes canvas.pixels → IsBytes (plain_of canvas)
  unfolding filter_scanlines
  IsBytes-plain_of canvas bytes =
      IsBytes-lines_from canvas.pixels (canvas.width * 3) bytes canvas.height 0

  IsBytes-header_bytes :
      (width height : ℕ)
      → width < 4294967296
      → height < 4294967296
      → IsBytes (header_bytes width height)
  IsBytes-header_bytes width height wide high =
      IsBytes-append (word_bytes width) (word_bytes height ++ format)
        (IsBytes-word_bytes width wide)
        (IsBytes-append (word_bytes height) format (IsBytes-word_bytes height high) (omega arith))

  abbrev png_of : Canvas → List ℕ
  png_of canvas =
      signature ++ chunks (header_bytes canvas.width canvas.height) (deflate (plain_of canvas))

  header_of-some :
      (canvas : Canvas)
      → IsCanvas canvas
      → header_of canvas ≡ some (header_bytes canvas.width canvas.height)
  unfolding header_of
  header_of-some canvas valid =
      rw (write_uint32-some canvas.width valid.wide, write_uint32-some canvas.height valid.high)
        refl

  to_png-some :
      (canvas : Canvas)
      → IsCanvas canvas
      → length (deflate (plain_of canvas)) < 4294967296
      → to_png deflate canvas ≡ some (png_of canvas)
  unfolding to_png latin1
  to_png-some canvas valid small =
      let bytes = IsBytes-plain_of canvas valid.bytes in
      rw
        (
          header_of-some canvas valid,
          png_chunk-some (codes "IHDR") (header_bytes canvas.width canvas.height)
              (IsBytes-header_bytes canvas.width canvas.height valid.wide valid.high) (omega arith),
          png_chunk-some (codes "IDAT") (deflate (plain_of canvas))
              (laws.bytes (plain_of canvas) bytes) small,
          png_chunk-some (codes "IEND") [] tt (omega arith),
        )
        refl

  -- The image that is written decodes to the canvas: its size and all its pixels.
  pub decode-to_png :
      (canvas : Canvas)
      → IsCanvas canvas
      → length (deflate (filter_scanlines canvas.pixels canvas.width canvas.height)) < 4294967296
      → (png : List ℕ) × (to_png deflate canvas ≡ some png) × (decode inflate png ≡ some canvas)
  unfolding decode image_of
  decode-to_png canvas valid small =
      let plain = plain_of canvas in
      let bytes = IsBytes-plain_of canvas valid.bytes in
      let read =
        decode_chunks-chunks inflate canvas.width canvas.height (deflate plain)
          (IsBytes-header_bytes canvas.width canvas.height valid.wide valid.high)
          (laws.bytes plain bytes) in
      let body = chunks (header_bytes canvas.width canvas.height) (deflate plain) in
      let restored =
        unfilter-filter_scanlines canvas.pixels canvas.width canvas.height valid.bytes
          valid.filled in
      (
        png_of canvas,
        to_png-some canvas valid small,
        rw (taken-append signature body) (read ∙ rw (laws.inflates plain bytes, restored) refl),
      )
