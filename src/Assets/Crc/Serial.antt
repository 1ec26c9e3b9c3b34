-- ===== src/Assets/Crc/Serial.antt =====
-- The table-driven checksum is the one of the PNG specification, a register that takes in bit by bit.
use Prim.Native.Nat.{bit_xor}
use fissionplane.Prelude.{
  ℕ, zero, suc, ◌+◌, ◌*◌, ◌/◌, ◌%◌, ◌<◌, arith, ◌≡◌, refl, sym, ap, ◌∙◌, ◌⊎◌, inl, inr, List, [],
  ◌∷◌, All, entry_at, eqb, eqb→eq, Bool-cases, if◌then◌else◌,
}
use fissionplane.Prelude.Words.{
  zero-bit_xor, bit_xor-zero, bit_xor_assoc, half-bit_xor, parity-bit_xor, bit_xor_step,
}
use fissionplane.Assets.Crc.{shift, shifts, table_from, crc_table, update, updates, crc32}

-- The register takes in a bit: the polynomial is added where the bit and the one shifted out differ.
unfoldable pub feed : ℕ → ℕ → ℕ
feed crc bit = if eqb ((crc + bit) % 2) 1 then bit_xor 0xedb88320 (crc / 2) else crc / 2

-- The lowest bits of a byte, the lowest first.
unfoldable pub feed_bits : ℕ → ℕ → ℕ → ℕ
unfolding feed
feed_bits zero crc byte = crc
feed_bits (suc bits) crc byte = feed_bits bits (feed crc (byte % 2)) (byte / 2)

unfoldable pub feed_bytes : ℕ → List ℕ → ℕ
unfolding feed_bits
feed_bytes crc [] = crc
feed_bytes crc (byte ∷ buffer) = feed_bytes (feed_bits 8 crc byte) buffer

-- All 32 bits of the register are set before the message and inverted after it.
unfoldable pub checksum : List ℕ → ℕ
unfolding feed_bytes
checksum buffer = bit_xor (feed_bytes 0xffffffff buffer) 0xffffffff

shift-even : (v : ℕ) → v % 2 ≡ 0 → shift v ≡ v / 2
unfolding shift
shift-even v h = rw h refl

shift-odd : (v : ℕ) → v % 2 ≡ 1 → shift v ≡ bit_xor 0xedb88320 (v / 2)
unfolding shift
shift-odd v h = rw h refl

parity-cases : (v : ℕ) → (v % 2 ≡ 0) ⊎ (v % 2 ≡ 1)
parity-cases v = elim (Bool-cases (eqb (v % 2) 1)) [
  | inl e ↦ inr (eqb→eq (v % 2) 1 e)
  | inr e ↦ inl (ground arith)
]

-- Shifting is linear: a number whose lowest bit is unset moves past it.
shift-bit_xor : (a b : ℕ) → b % 2 ≡ 0 → shift (bit_xor a b) ≡ bit_xor (shift a) (b / 2)
shift-bit_xor a b h = elim (parity-cases a) [
  | inl e ↦
      shift-even (bit_xor a b) (omega (arith, parity-bit_xor a b))
      ∙ (rw (shift-even a e) (half-bit_xor a b))
  | inr e ↦
      shift-odd (bit_xor a b) (omega (arith, parity-bit_xor a b))
      ∙ (rw (shift-odd a e, half-bit_xor a b) (sym (bit_xor_assoc 0xedb88320 (a / 2) (b / 2))))
]

-- A number in two groups of digits: the lowest ones, the others, and those moved up again.
abbrev lowest : ℕ → ℕ → ℕ
lowest zero y = 0
lowest (suc bits) y = lowest bits (y / 2) * 2 + y % 2

abbrev others : ℕ → ℕ → ℕ
others zero y = y
others (suc bits) y = others bits (y / 2)

abbrev pub moved_up : ℕ → ℕ → ℕ
moved_up zero top = top
moved_up (suc bits) top = moved_up bits top * 2

shifts-moved_up :
    (bits a top : ℕ) → shifts bits (bit_xor a (moved_up bits top)) ≡ bit_xor (shifts bits a) top
unfolding shifts
shifts-moved_up zero a top = refl
shifts-moved_up (suc bits) a top =
    let half : moved_up bits top * 2 / 2 ≡ moved_up bits top = omega arith in
    rw (shift-bit_xor a (moved_up bits top * 2) (omega arith), half)
      (shifts-moved_up bits (shift a) top)

two_groups : (bits y : ℕ) → bit_xor (lowest bits y) (moved_up bits (others bits y)) ≡ y
two_groups zero y = zero-bit_xor y
two_groups (suc bits) y =
    let low : (lowest bits (y / 2) * 2 + y % 2) / 2 ≡ lowest bits (y / 2) = omega arith in
    let high : moved_up bits (others bits (y / 2)) * 2 / 2 ≡ moved_up bits (others bits (y / 2)) =
      omega arith in
    let step =
      bit_xor_step (lowest bits (y / 2) * 2 + y % 2) (moved_up bits (others bits (y / 2)) * 2) in
    let halves = rw (low, high) at step in omega (arith, halves, two_groups bits (y / 2))

lowest_byte : (y : ℕ) → lowest 8 y ≡ y % 256
lowest_byte y = omega arith

other_bytes : (y : ℕ) → others 8 y ≡ y / 256
other_bytes y = omega arith

-- Eight shifts of a number, from those of its lowest byte.
shifts-byte : (y : ℕ) → shifts 8 y ≡ bit_xor (shifts 8 (y % 256)) (y / 256)
shifts-byte y =
    let groups = shifts-moved_up 8 (lowest 8 y) (others 8 y) in
    let whole = rw (two_groups 8 y) at groups in rw (← lowest_byte y, ← other_bytes y) whole

entry-table_from :
    (count index k : ℕ) → k < count → entry_at (table_from count index) k ≡ shifts 8 (index + k)
unfolding table_from
entry-table_from zero index k h = absurd (omega arith)
entry-table_from (suc count) index zero h = ap (λ i. shifts 8 i) (omega arith)
entry-table_from (suc count) index (suc k) h =
    entry-table_from count (suc index) k (omega arith) ∙ ap (λ i. shifts 8 i) (omega arith)

entry-table : (count k : ℕ) → k < count → entry_at (table_from count 0) k ≡ shifts 8 k
entry-table count k h = entry-table_from count 0 k h ∙ ap (λ i. shifts 8 i) (omega arith)

entry-crc_table : (k : ℕ) → k < 256 → entry_at crc_table k ≡ shifts 8 k
unfolding crc_table
entry-crc_table k h = entry-table 256 k h

-- One bit taken in is one shift of the register with the bits that are still to come added to it.
shift-feed : (crc byte : ℕ) → shift (bit_xor crc byte) ≡ bit_xor (feed crc (byte % 2)) (byte / 2)
unfolding feed
shift-feed crc byte = elim (parity-cases (crc + byte % 2)) [
  | inl e ↦
      shift-even (bit_xor crc byte) (omega (arith, parity-bit_xor crc byte))
      ∙ (rw e (half-bit_xor crc byte))
  | inr e ↦
      shift-odd (bit_xor crc byte) (omega (arith, parity-bit_xor crc byte))
      ∙ (rw (e, half-bit_xor crc byte) (sym (bit_xor_assoc 0xedb88320 (crc / 2) (byte / 2))))
]

shifts-feed_bits :
    (bits crc byte : ℕ)
    → others bits byte ≡ 0
    → shifts bits (bit_xor crc byte) ≡ feed_bits bits crc byte
unfolding shifts feed_bits
shifts-feed_bits zero crc byte h = rw h (bit_xor-zero crc)
shifts-feed_bits (suc bits) crc byte h =
    rw (shift-feed crc byte) (shifts-feed_bits bits (feed crc (byte % 2)) (byte / 2) h)

others-bit_xor :
    (bits a b : ℕ) → others bits (bit_xor a b) ≡ bit_xor (others bits a) (others bits b)
others-bit_xor zero a b = refl
others-bit_xor (suc bits) a b = rw (half-bit_xor a b) (others-bit_xor bits (a / 2) (b / 2))

-- A byte leaves the bits above it as they are.
quotient-bit_xor : (crc byte : ℕ) → byte < 256 → bit_xor crc byte / 256 ≡ crc / 256
quotient-bit_xor crc byte h =
    let none_left : others 8 byte ≡ 0 = other_bytes byte ∙ omega arith in
    sym (other_bytes (bit_xor crc byte))
    ∙ (rw (others-bit_xor 8 crc byte, none_left) (bit_xor-zero (others 8 crc) ∙ other_bytes crc))

update-feed_bits : (crc byte : ℕ) → byte < 256 → update crc byte ≡ feed_bits 8 crc byte
unfolding update
update-feed_bits crc byte h =
    let mixed = bit_xor crc byte in
    let quotient : mixed / 256 ≡ crc / 256 = quotient-bit_xor crc byte h in
    rw (entry-crc_table (mixed % 256) (omega arith)) (
      (rw (← quotient) (sym (shifts-byte mixed)))
      ∙ shifts-feed_bits 8 crc byte (other_bytes byte ∙ omega arith))

updates-feed_bytes :
    (buffer : List ℕ) (crc : ℕ)
    → All (λ byte. byte < 256) buffer
    → updates crc buffer ≡ feed_bytes crc buffer
unfolding updates feed_bytes
updates-feed_bytes [] crc h = refl
updates-feed_bytes (byte ∷ buffer) crc (first, rest) =
    rw (update-feed_bits crc byte first) (updates-feed_bytes buffer (feed_bits 8 crc byte) rest)

-- On bytes, crc32 with its table is the checksum that takes in the message bit by bit.
pub crc32-checksum :
    (buffer : List ℕ) → All (λ byte. byte < 256) buffer → crc32 buffer ≡ checksum buffer
unfolding crc32 checksum
crc32-checksum buffer h = rw (updates-feed_bytes buffer 0xffffffff h) refl
