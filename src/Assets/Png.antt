-- ===== src/Assets/Png.antt =====
-- scripts/lib/raster.mjs, pngChunk and Canvas.toPng. zlib's deflateSync is a parameter.
pub mod Reading
pub mod Decoding
mod Tests
use fissionplane.Prelude.{
  ℕ, zero, suc, ◌/◌, ◌%◌, Option, some, none, String, List, [], ◌∷◌, ◌++◌, length, codes, ltb,
  if◌then◌else◌,
}
use fissionplane.Web.Headers.{◌>>=◌}
use fissionplane.Assets.Crc.{crc32}
use fissionplane.Assets.Scanlines.{filter_scanlines}

-- `writeUInt32BE`, which throws for a number of more than 32 bits.
unfoldable pub write_uint32 : ℕ → Option (List ℕ)
write_uint32 n =
    if ltb n 4294967296
    then some ((n / 16777216) ∷ (n / 65536 % 256) ∷ (n / 256 % 256) ∷ (n % 256) ∷ [])
    else none

-- `write(type, 4, 'latin1')` into the four bytes at the end of the header, which are 0 before.
unfoldable pub latin1 : ℕ → List ℕ → List ℕ
latin1 zero type = []
latin1 (suc count) [] = 0 ∷ latin1 count []
latin1 (suc count) (c ∷ type) = (c % 256) ∷ latin1 count type

unfoldable pub png_chunk : List ℕ → List ℕ → Option (List ℕ)
png_chunk type data_ = do
  size ← write_uint32 (length data_)
  let name = latin1 4 type
  crc ← write_uint32 (crc32 (name ++ data_))
  some (size ++ (name ++ (data_ ++ crc)))

pub record Canvas : Type 0 where
  pub width : ℕ
  pub height : ℕ
  pub pixels : List ℕ

abbrev pub signature : List ℕ
signature = 0x89 ∷ 0x50 ∷ 0x4e ∷ 0x47 ∷ 0x0d ∷ 0x0a ∷ 0x1a ∷ 0x0a ∷ []

-- The thirteen bytes of the header: 8 bits a channel, true colour without alpha, and three zeros.
unfoldable pub header_of : Canvas → Option (List ℕ)
header_of canvas = do
  width ← write_uint32 canvas.width
  height ← write_uint32 canvas.height
  some (width ++ (height ++ (8 ∷ 2 ∷ 0 ∷ 0 ∷ 0 ∷ [])))

unfoldable pub to_png : (deflate : List ℕ → List ℕ) → Canvas → Option (List ℕ)
to_png deflate canvas = do
  let raw = filter_scanlines canvas.pixels canvas.width canvas.height
  header ← header_of canvas
  ihdr ← png_chunk (codes "IHDR") header
  idat ← png_chunk (codes "IDAT") (deflate raw)
  iend ← png_chunk (codes "IEND") []
  some (signature ++ (ihdr ++ (idat ++ iend)))
