-- ===== src/Web/Entries.antt =====
-- Headers as an association list that stores every value as it is: an instance of the laws.
use mathlib.Core.Option.{some-injective}
use fissionplane.Prelude.{
  ◌≡◌, ◌≢◌, refl, false, String, some, none, List, [], ◌∷◌, is_some, lookup, assign, ◌==◌,
  if◌then◌else◌, lookup-assign, ◌∙◌, eq_iff, arith, eq_refl, Bool-cases, inl, inr,
}
use fissionplane.Web.Headers.{WebHeaders, IsWebHeaders}

abbrev pub Entries : Type 0
Entries = List (String × String)

abbrev pub without : String → Entries → Entries
without name [] = []
without name ((key, v) ∷ rest) =
    if key == name then without name rest else (key, v) ∷ without name rest

abbrev pub entries : WebHeaders Entries
entries = record {
  get = λ h name. lookup name h;
  has = λ h name. is_some (lookup name h);
  set = λ h name v. some (assign name v h);
  delete = λ h name. without name h;
  normal = λ v. v;
}

lookup-without : (h : Entries) (name : String) → lookup name (without name h) ≡ none
lookup-without [] name = refl
lookup-without ((key, v) ∷ h) name = ground (arith, lookup-without h name)

apart : (a b : String) → a ≢ b → (a == b) ≡ false
apart a b distinct = elim (Bool-cases (a == b)) [
  | inl same ↦ absurd (distinct ((eq_iff a b).0 same))
  | inr other ↦ other
]

lookup-without_other :
    (h : Entries) (name other : String)
    → name ≢ other
    → lookup other (without name h) ≡ lookup other h
lookup-without_other [] name other distinct = refl
lookup-without_other ((key, v) ∷ h) name other distinct = ground (
  arith,
  eq_iff key name,
  eq_iff key other,
  apart name other distinct,
  eq_iff name other,
  lookup-without_other h name other distinct,
)

pub entries_IsWebHeaders : IsWebHeaders entries
entries_IsWebHeaders = record {
  has_is_get = λ h name. refl;
  get-delete = lookup-without;
  get-delete_other = λ h name other low low' distinct. lookup-without_other h name other distinct;
  get-set = λ h h' name v e.
      rw (← some-injective _ _ e) (lookup-assign name name v h ∙ simp (eq_refl name));
  get-set_other = λ h h' name other v low low' distinct e.
      rw (← some-injective _ _ e) (lookup-assign name other v h ∙ simp (apart name other distinct));
  normal_solid = λ v solid. refl;
}
