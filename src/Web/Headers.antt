-- ===== src/Web/Headers.antt =====
-- The Fetch API's Headers and Request, which the host reads and rewrites and the platform provides.
-- The operations are parameters; the laws are what the Fetch standard says of them.
use Prim.Native.Char.{Char, code}
use fissionplane.Prelude.{
  ◌≡◌, ◌≢◌, refl, Bool, true, ◌&&◌, ◌||◌, not, String, Option, some, none, is_some, leb, eqb,
}

-- One step after another, where each may throw.
infixl 5 ◌>>=◌
abbrev pub ◌>>=◌ : {A B : Type 0} → Option A → (A → Option B) → Option B
◌>>=◌ none f = none
◌>>=◌ (some a) f = f a

pub bind_some :
    {A B : Type 0} (m : Option A) (f : A → Option B) (b : B)
    → (m >>= f) ≡ some b
    → (a : A) × (m ≡ some a) × (f a ≡ some b)
bind_some (some a) f b e = (a, refl, e)
bind_some none f b e = absurd (cc)

-- `set` answers `none` where it throws: the text is no header value. `normal` strips the white space
-- around a value, as `set` does before it stores it.
pub record WebHeaders (H : Type 0) : Type 0 where
  pub get : H → String → Option String
  pub has : H → String → Bool
  pub set : H → String → String → Option H
  pub delete : H → String → H
  pub normal : String → String

abbrev is_capital : Char → Bool
is_capital c = leb 65 (code c) && leb (code c) 90

-- A name without capitals: two such names are the same header only if they are the same text.
abbrev pub is_lower_case : String → Bool
is_lower_case String.[] = true
is_lower_case (String.◌∷◌ c s) = not (is_capital c) && is_lower_case s

abbrev is_space : Char → Bool
is_space c = eqb (code c) 9 || eqb (code c) 10 || eqb (code c) 13 || eqb (code c) 32

-- A text with no white space in it.
abbrev pub is_solid : String → Bool
is_solid String.[] = true
is_solid (String.◌∷◌ c s) = not (is_space c) && is_solid s

pub record IsWebHeaders {H : Type 0} (web : WebHeaders H) : Type 0 where
  pub has_is_get : (h : H) (name : String) → web.has h name ≡ is_some (web.get h name)
  pub get-delete : (h : H) (name : String) → web.get (web.delete h name) name ≡ none
  pub get-delete_other :
      (h : H) (name other : String)
      → is_lower_case name ≡ true
      → is_lower_case other ≡ true
      → name ≢ other
      → web.get (web.delete h name) other ≡ web.get h other
  pub get-set :
      (h h' : H) (name v : String)
      → web.set h name v ≡ some h'
      → web.get h' name ≡ some (web.normal v)
  pub get-set_other :
      (h h' : H) (name other v : String)
      → is_lower_case name ≡ true
      → is_lower_case other ≡ true
      → name ≢ other
      → web.set h name v ≡ some h'
      → web.get h' other ≡ web.get h other
  pub normal_solid : (v : String) → is_solid v ≡ true → web.normal v ≡ v

-- What the host looks at of a Request; a copy with other headers keeps the rest.
pub record WebRequest (H : Type 0) : Type 0 where
  pub method : String
  pub url : String
  pub headers : H
