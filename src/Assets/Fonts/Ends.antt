-- ===== src/Assets/Fonts/Ends.antt =====
-- Readings that end with a value of which `P` holds or with an error that the source throws: their fuel
-- does not run out.
use fissionplane.Prelude.{
  ℕ, ◌+◌, ◌*◌, ◌<◌, ◌≡◌, ◌≢◌, refl, Bool, true, false, Option, none, some, length, get_elem?,
  get_elem?-bound, if◌then◌else◌,
}
use fissionplane.Prelude.Integers.{signed_16, signed_8}
use fissionplane.Assets.Fonts.{
  Fault, spent, out_of_range, Reading, done, fault, ◌>>=◌, Bytes, word, octet, read_u16, read_i16,
  read_i8,
}

pub data Ends {ℓ} {A : Type ℓ} (P : A → Type 0) : Reading A → Type ℓ where
  ends : (a : A) → P a → Ends P (done a)
  throws : (e : Fault) → e ≢ spent → Ends P (fault e)

abbrev pub Anything {ℓ} : {A : Type ℓ} → A → Type 0
Anything a = Unit

pub Ends-not_spent {ℓ} : {A : Type ℓ} {P : A → Type 0} {m : Reading A} → Ends P m → m ≢ fault spent
Ends-not_spent (ends a h) = λ e. absurd (cc)
Ends-not_spent (throws e h) = λ e'. h (cc)

pub Ends->>= {ℓ κ} :
    {A : Type ℓ} {B : Type κ} {P : A → Type 0} {Q : B → Type 0} {m : Reading A} {f : A → Reading B}
    → Ends P m
    → ((a : A) → P a → Ends Q (f a))
    → Ends Q (m >>= f)
Ends->>= (ends a h) k = k a h
Ends->>= (throws e h) k = throws e h

pub Ends-if {ℓ} :
    {A : Type ℓ} {P : A → Type 0} (test : Bool) {m n : Reading A}
    → Ends P m
    → Ends P n
    → Ends P (if test then m else n)
Ends-if true h k = h
Ends-if false h k = k

word-Ends : (a b : Option ℕ) → Ends (λ n. (x : ℕ) × (b ≡ some x)) (word a b)
word-Ends (some a) (some b) = ends (a * 256 + b) (b, refl)
word-Ends (some a) none = throws out_of_range (λ e. absurd (cc))
word-Ends none b = throws out_of_range (λ e. absurd (cc))

octet-Ends : (n : Option ℕ) → Ends Anything (octet n)
octet-Ends (some n) = ends (signed_8 n) tt
octet-Ends none = throws out_of_range (λ e. absurd (cc))

module _ (bytes : Bytes) (at : ℕ) where
  inside :
      {m : Reading ℕ}
      → Ends (λ n. (x : ℕ) × (get_elem? bytes (at + 1) ≡ some x)) m
      → Ends (λ n. at + 1 < length bytes) m
  inside (ends n (x, e)) = ends n (get_elem?-bound bytes (at + 1) e)
  inside (throws e h) = throws e h

  -- A word is only read within the buffer.
  pub read_u16-Ends : Ends (λ n. at + 1 < length bytes) (read_u16 bytes at)
  unfolding read_u16
  read_u16-Ends = inside (word-Ends (get_elem? bytes at) (get_elem? bytes (at + 1)))

  pub read_i16-Ends : Ends (λ n. at + 1 < length bytes) (read_i16 bytes at)
  unfolding read_i16
  read_i16-Ends = Ends->>= read_u16-Ends λ n h. ends (signed_16 n) h

  pub read_i8-Ends : Ends Anything (read_i8 bytes at)
  unfolding read_i8
  read_i8-Ends = octet-Ends (get_elem? bytes at)
