-- ===== src/Prelude/Integers.antt =====
-- Integers over the native numbers, as far as the coordinates of outlines need them.
use Prim.Native.Nat.{ℕ, zero, suc, ◌+◌, ◌-◌}
use fissionplane.Prelude.Tests.{ltb, leb, if◌then◌else◌}

-- `negsuc n` is -(n + 1).
pub data ℤ : Type 0 where
  pos : ℕ → ℤ
  negsuc : ℕ → ℤ

-- a - b.
abbrev pub sub_ℕ : ℕ → ℕ → ℤ
sub_ℕ a b = if leb b a then pos (a - b) else negsuc (b - a - 1)

infixl 65 ◌+ℤ◌
unfoldable pub ◌+ℤ◌ : ℤ → ℤ → ℤ
pos a +ℤ pos b = pos (a + b)
pos a +ℤ negsuc b = sub_ℕ a (suc b)
negsuc a +ℤ pos b = sub_ℕ b (suc a)
negsuc a +ℤ negsuc b = negsuc (suc (a + b))

-- -n.
abbrev pub minus : ℕ → ℤ
minus zero = pos 0
minus (suc n) = negsuc n

-- The integer of a two's complement word of 16 bits, or of 8.
abbrev pub signed_16 : ℕ → ℤ
signed_16 n = if ltb n 32768 then pos n else negsuc (65535 - n)

abbrev pub signed_8 : ℕ → ℤ
signed_8 n = if ltb n 128 then pos n else negsuc (255 - n)
