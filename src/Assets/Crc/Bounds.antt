-- ===== src/Assets/Crc/Bounds.antt =====
-- A checksum has 32 bits.
use Prim.Native.Nat.{bit_xor}
use fissionplane.Prelude.{
  ℕ, zero, suc, ◌+◌, ◌/◌, ◌%◌, ◌<◌, arith, List, [], ◌∷◌, All, eqb, Bool-cases, inl, inr,
}
use fissionplane.Prelude.Words.{bit_xor_step}
use fissionplane.Assets.Crc.{crc32}
use fissionplane.Assets.Crc.Serial.{moved_up, feed, feed_bits, feed_bytes, checksum, crc32-checksum}

bit_xor-bound :
    (bits a b : ℕ) → a < moved_up bits 1 → b < moved_up bits 1 → bit_xor a b < moved_up bits 1
bit_xor-bound zero zero zero h k = omega arith
bit_xor-bound zero zero (suc b) h k = absurd (omega arith)
bit_xor-bound zero (suc a) b h k = absurd (omega arith)
bit_xor-bound (suc bits) a b h k =
    omega (arith, bit_xor_step a b, bit_xor-bound bits (a / 2) (b / 2) (omega arith) (omega arith))

word-bit_xor : (a b : ℕ) → a < 4294967296 → b < 4294967296 → bit_xor a b < 4294967296
word-bit_xor a b h k = bit_xor-bound 32 a b h k

feed-word : (crc bit : ℕ) → crc < 4294967296 → feed crc bit < 4294967296
unfolding feed
feed-word crc bit h = elim (Bool-cases (eqb ((crc + bit) % 2) 1)) [
  | inl e ↦ rw e (word-bit_xor 0xedb88320 (crc / 2) (omega arith) (omega arith))
  | inr e ↦ rw e (omega arith)
]

feed_bits-word : (bits crc byte : ℕ) → crc < 4294967296 → feed_bits bits crc byte < 4294967296
unfolding feed_bits
feed_bits-word zero crc byte h = h
feed_bits-word (suc bits) crc byte h =
    feed_bits-word bits (feed crc (byte % 2)) (byte / 2) (feed-word crc (byte % 2) h)

feed_bytes-word :
    (buffer : List ℕ) (crc : ℕ) → crc < 4294967296 → feed_bytes crc buffer < 4294967296
unfolding feed_bytes
feed_bytes-word [] crc h = h
feed_bytes-word (byte ∷ buffer) crc h =
    feed_bytes-word buffer (feed_bits 8 crc byte) (feed_bits-word 8 crc byte h)

pub crc32-word : (buffer : List ℕ) → All (λ byte. byte < 256) buffer → crc32 buffer < 4294967296
unfolding checksum
crc32-word buffer h = rw (crc32-checksum buffer h) (
    word-bit_xor (feed_bytes 0xffffffff buffer) 0xffffffff
      (feed_bytes-word buffer 0xffffffff (omega arith)) (omega arith))
