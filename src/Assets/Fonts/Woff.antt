-- ===== src/Assets/Fonts/Woff.antt =====
-- scripts/lib/woff.mjs, decodeWoff and requireTable. zlib's inflateSync is a parameter.
use fissionplane.Prelude.{
  ℕ, zero, suc, ◌+◌, ◌*◌, Bool, true, false, Option, none, some, List, [], ◌∷◌, codes, same_bytes,
  ltb, if◌then◌else◌,
}
use fissionplane.Assets.Fonts.{
  not_woff, inflation, no_table, Reading, done, fault, ◌>>=◌, Bytes, read_u16, read_u32, subarray,
}

-- The map of the tables: what was set last stands in front.
abbrev pub Tables : Type 0
Tables = List (List ℕ × Bytes)

abbrev pub table_of : List ℕ → Tables → Option Bytes
table_of tag [] = none
table_of tag ((key, table) ∷ tables) =
    if same_bytes key tag then some table else table_of tag tables

abbrev pub inflated : Option Bytes → Reading Bytes
inflated (some table) = done table
inflated none = fault inflation

-- `compressedLength < originalLength ? inflateSync(raw) : raw`.
unfoldable pub expanded : (inflate : Bytes → Option Bytes) → Bool → Bytes → Reading Bytes
expanded inflate true raw = inflated (inflate raw)
expanded inflate false raw = done raw

module _ (inflate : Bytes → Option Bytes) (buffer : Bytes) where
  unfoldable pub read_tables : ℕ → ℕ → Tables → Reading Tables
  unfolding expanded
  read_tables zero index tables = done tables
  read_tables (suc count) index tables = do
    let entry = 44 + index * 20
    let tag = subarray buffer entry (entry + 4)
    offset ← read_u32 buffer (entry + 4)
    compressed_length ← read_u32 buffer (entry + 8)
    original_length ← read_u32 buffer (entry + 12)
    let raw = subarray buffer offset (offset + compressed_length)
    table ← expanded inflate (ltb compressed_length original_length) raw
    read_tables count (suc index) ((tag, table) ∷ tables)

  unfoldable pub decode_woff : Reading Tables
  unfolding read_tables
  decode_woff =
      let tables = read_u16 buffer 12 >>= λ count. read_tables count 0 [] in
      if same_bytes (subarray buffer 0 4) (codes "wOFF") then tables else fault not_woff

unfoldable pub require_table : Tables → List ℕ → Reading Bytes
require_table tables tag = elim (table_of tag tables) [
  | some table ↦ done table
  | none ↦ fault (no_table tag)
]
