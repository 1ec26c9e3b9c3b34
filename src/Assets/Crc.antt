-- ===== src/Assets/Crc.antt =====
-- scripts/lib/raster.mjs, CRC_TABLE and crc32. A number of 32 bits stands for the one with the same
-- bits that the source holds, be it signed or not: the source only shifts and combines bits.
pub mod Serial
pub mod Bounds
mod Tests
use Prim.Native.Nat.{bit_xor}
use fissionplane.Prelude.{ℕ, zero, suc, ◌/◌, ◌%◌, List, [], ◌∷◌, entry_at, eqb, if◌then◌else◌}

-- One turn of the inner loop: `value & 1` is the remainder by 2, `value >>> 1` the half.
unfoldable pub shift : ℕ → ℕ
shift value = if eqb (value % 2) 1 then bit_xor 0xedb88320 (value / 2) else value / 2

unfoldable pub shifts : ℕ → ℕ → ℕ
unfolding shift
shifts zero value = value
shifts (suc bits) value = shifts bits (shift value)

-- The entries of the table from `index` on.
unfoldable pub table_from : ℕ → ℕ → List ℕ
unfolding shifts
table_from zero index = []
table_from (suc count) index = shifts 8 index ∷ table_from count (suc index)

unfoldable pub crc_table : List ℕ
unfolding table_from
crc_table = table_from 256 0

-- A turn of the loop of crc32: `& 0xff` is the remainder by 256, `>>> 8` the quotient.
unfoldable pub update : ℕ → ℕ → ℕ
unfolding crc_table
update crc byte = bit_xor (entry_at crc_table (bit_xor crc byte % 256)) (crc / 256)

unfoldable pub updates : ℕ → List ℕ → ℕ
unfolding update
updates crc [] = crc
updates crc (byte ∷ buffer) = updates (update crc byte) buffer

unfoldable pub crc32 : List ℕ → ℕ
unfolding updates
crc32 buffer = bit_xor (updates 0xffffffff buffer) 0xffffffff
