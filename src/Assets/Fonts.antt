-- ===== src/Assets/Fonts.antt =====
-- scripts/lib/woff.mjs: reading the fonts of the social card. A buffer is the list of its bytes.
pub mod Woff
pub mod Cmap
pub mod Ends
pub mod Glyphs
pub mod Loading
pub mod Outlines
use fissionplane.Prelude.{
  ℕ, ◌+◌, ◌-◌, ◌*◌, ◌/◌, ◌%◌, ◌^◌, ◌<◌, ◌≡◌, refl, Bool, Option, none, some, List, length,
  get_elem?, get_elem?-bound, take, drop, eqb, arith,
}
use fissionplane.Prelude.Integers.{ℤ, signed_16, signed_8}

-- The errors that are thrown; `out_of_range` is the RangeError of a buffer's methods, and `spent` is
-- none of them: the fuel of a loop ran out.
pub data Fault : Type 0 where
  out_of_range not_woff inflation no_subtable too_deep point_matched spent : Fault
  no_table : List ℕ → Fault
  unsupported_format no_glyph no_character : ℕ → Fault

pub data Reading {ℓ} (A : Type ℓ) : Type ℓ where
  done : A → Reading A
  fault : Fault → Reading A

infixl 5 ◌>>=◌
abbrev pub ◌>>=◌ {ℓ κ} : {A : Type ℓ} {B : Type κ} → Reading A → (A → Reading B) → Reading B
done a >>= f = f a
fault e >>= f = fault e

abbrev pub Bytes : Type 0
Bytes = List ℕ

abbrev word : Option ℕ → Option ℕ → Reading ℕ
word (some a) (some b) = done (a * 256 + b)
word (some a) none = fault out_of_range
word none b = fault out_of_range

-- `buffer.readUInt16BE(at)`, and so on.
unfoldable pub read_u16 : Bytes → ℕ → Reading ℕ
read_u16 bytes at = word (get_elem? bytes at) (get_elem? bytes (at + 1))

unfoldable pub read_u32 : Bytes → ℕ → Reading ℕ
read_u32 bytes at = do
  high ← read_u16 bytes at
  low ← read_u16 bytes (at + 2)
  done (high * 65536 + low)

unfoldable pub read_i16 : Bytes → ℕ → Reading ℤ
read_i16 bytes at = do n ← read_u16 bytes at; done (signed_16 n)

abbrev octet : Option ℕ → Reading ℤ
octet (some n) = done (signed_8 n)
octet none = fault out_of_range

unfoldable pub read_i8 : Bytes → ℕ → Reading ℤ
read_i8 bytes at = octet (get_elem? bytes at)

-- `buffer.subarray(from, to)`.
abbrev pub subarray : Bytes → ℕ → ℕ → Bytes
subarray bytes from to = take (to - from) (drop from bytes)

-- `n & (1 << k)`, as a test.
abbrev pub has_bit : ℕ → ℕ → Bool
has_bit n k = eqb (n / 2 ^ k % 2) 1

-- A word is only read within the buffer.
word-done : (a b : Option ℕ) (n : ℕ) → word a b ≡ done n → (x : ℕ) × (b ≡ some x)
word-done (some a) (some b) n h = (b, refl)
word-done (some a) none n h = absurd (cc)
word-done none b n h = absurd (cc)

pub read_u16-bound : (bytes : Bytes) (at n : ℕ) → read_u16 bytes at ≡ done n → at + 1 < length bytes
unfolding read_u16
read_u16-bound bytes at n h =
    let (x, e) = word-done (get_elem? bytes at) (get_elem? bytes (at + 1)) n h in
    get_elem?-bound bytes (at + 1) e

-- A bind that succeeded.
pub >>=-eq-done {ℓ κ} :
    {A : Type ℓ} {B : Type κ} (m : Reading A) (f : A → Reading B) {b : B}
    → (m >>= f) ≡ done b
    → (a : A) × (m ≡ done a) × (f a ≡ done b)
>>=-eq-done (done a) f h = (a, refl, h)
>>=-eq-done (fault e) f h = absurd (cc)

-- Within the buffer a word is read.
pub read_u16-done :
    (bytes : Bytes) (at a b : ℕ)
    → get_elem? bytes at ≡ some a
    → get_elem? bytes (at + 1) ≡ some b
    → read_u16 bytes at ≡ done (a * 256 + b)
unfolding read_u16
read_u16-done bytes at a b e e' = rw (e, e') refl
