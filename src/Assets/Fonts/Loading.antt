-- ===== src/Assets/Fonts/Loading.antt =====
-- scripts/lib/woff.mjs, loadFont: the tables of a font and the numbers in them.
use fissionplane.Prelude.{
  ℕ, zero, suc, ◌+◌, ◌-◌, ◌*◌, Bool, true, false, Option, none, some, List, [], ◌∷◌, codes, eqb,
  leb, min, if◌then◌else◌,
}
use fissionplane.Prelude.Integers.{ℤ, pos, negsuc}
use fissionplane.Assets.Fonts.{
  Reading, done, fault, ◌>>=◌, Bytes, read_u16, read_u32, read_i16, no_character, out_of_range,
}
use fissionplane.Assets.Fonts.Woff.{table_of, require_table, decode_woff}
use fissionplane.Assets.Fonts.Cmap.{CharMap, glyph_in, parse_cmap}

-- The numbers that `loadFont` keeps, with the tables that its functions read.
pub record Font : Type 0 where
  pub units_per_em : ℕ
  pub cap_height : ℤ
  pub glyph_count : ℕ
  pub metric_count : ℕ
  pub loca : List ℕ
  pub cmap : CharMap
  pub hmtx : Bytes
  pub glyf : Bytes

-- `advanceOf` and `glyphId`.
unfoldable pub advance_of : Font → ℕ → Reading ℕ
advance_of font glyph_id =
    if eqb font.metric_count 0
    then fault out_of_range
    else read_u16 font.hmtx (min glyph_id (font.metric_count - 1) * 4)

unfoldable pub glyph_id : Font → ℕ → Reading ℕ
glyph_id font code = elim (glyph_in code font.cmap) [
  | some glyph ↦ done glyph
  | none ↦ fault (no_character code)
]

abbrev pub is_one : ℤ → Bool
is_one (pos n) = eqb n 1
is_one (negsuc n) = false

abbrev pub double : ℕ → Reading ℕ
double n = done (n * 2)

unfoldable pub read_entry : Bytes → Bool → ℕ → Reading ℕ
read_entry table true index = read_u32 table (index * 4)
read_entry table false index = read_u16 table (index * 2) >>= double

unfoldable pub read_loca : Bytes → Bool → (count index : ℕ) → Reading (List ℕ)
unfolding read_entry
read_loca table long zero index = done []
read_loca table long (suc count) index = do
  entry ← read_entry table long index
  entries ← read_loca table long count (suc index)
  done (entry ∷ entries)

unfoldable pub read_cap_height : Bytes → Option Bytes → Reading ℤ
read_cap_height hhea none = read_i16 hhea 4
read_cap_height hhea (some os2) = do
  version ← read_u16 os2 0
  if leb 2 version then read_i16 os2 88 else read_i16 hhea 4

-- `buffer` is what the file holds.
unfoldable pub load_font : (inflate : Bytes → Option Bytes) → Bytes → Reading Font
unfolding decode_woff require_table parse_cmap read_loca read_cap_height
load_font inflate buffer = do
  tables ← decode_woff inflate buffer
  head ← require_table tables (codes "head")
  maxp ← require_table tables (codes "maxp")
  hhea ← require_table tables (codes "hhea")
  hmtx ← require_table tables (codes "hmtx")
  glyf ← require_table tables (codes "glyf")
  loca_table ← require_table tables (codes "loca")
  units_per_em ← read_u16 head 18
  loca_format ← read_i16 head 50
  glyph_count ← read_u16 maxp 4
  metric_count ← read_u16 hhea 34
  loca ← read_loca loca_table (is_one loca_format) (glyph_count + 1) 0
  cmap_table ← require_table tables (codes "cmap")
  cmap ← parse_cmap cmap_table
  cap_height ← read_cap_height hhea (table_of (codes "OS/2") tables)
  done (record {
    units_per_em = units_per_em;
    cap_height = cap_height;
    glyph_count = glyph_count;
    metric_count = metric_count;
    loca = loca;
    cmap = cmap;
    hmtx = hmtx;
    glyf = glyf;
  })
