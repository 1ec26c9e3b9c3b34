-- ===== src/Forms/Slug/Labels.antt =====
-- Every slug that the form makes is a DNS label, so that its schema never throws.
use fissionplane.Prelude.{
  take, ℕ, zero, suc, ◌≤◌, arith, ◌≡◌, refl, sym, ap, inl, inr, Bool, true, false, some, List, [],
  ◌∷◌, ◌++◌, append_assoc, length, length-append, All, eqb, eqb→eq, le→leb, Bool-cases, and_true,
}
use fissionplane.Core.Names.{
  trim, is_alphanumeric, is_label_unit, every, dns_label_pattern, dns_label_schema, nano_id_pattern,
  generate_nano_id,
}
use fissionplane.Core.Names.Patterns.{every-All, dns_label_pattern-append}
use fissionplane.Forms.Slug.{
  collapse, drop_first_dash, drop_last_dash, prefix_max_length, or_organization, slug_prefix,
  create_organization_slug,
}

abbrev pub Starts : List ℕ → Type 0
Starts [] = Unit
Starts (u ∷ s) = is_alphanumeric u ≡ true

abbrev IsUnits : List ℕ → Type 0
IsUnits s = All (λ u. is_label_unit u ≡ true) s

-- Label units throughout, and a letter or a digit in front, if anything.
record IsStem (s : List ℕ) : Type 0 where
  units : IsUnits s
  first : Starts s

label_of : (u : ℕ) → is_alphanumeric u ≡ true → is_label_unit u ≡ true
label_of u h = rw h refl

labels_of : (s : List ℕ) → All (λ u. is_alphanumeric u ≡ true) s → IsUnits s
labels_of [] h = tt
labels_of (u ∷ s) (first, h) = (label_of u first, labels_of s h)

no_dash : (u : ℕ) → is_alphanumeric u ≡ true → eqb u 45 ≡ false
no_dash u h = ground arith

collapse-units : (inside : Bool) (s : List ℕ) → IsUnits (collapse inside s)
unfolding collapse
collapse-units inside [] = tt
collapse-units inside (u ∷ s) = elim (Bool-cases (is_alphanumeric u)) [
  | inl e ↦ rw e (label_of u e, collapse-units false s)
  | inr e ↦ elim (Bool-cases inside) [
    | inl e' ↦ rw (e, e') (collapse-units true s)
    | inr e' ↦ rw (e, e') (refl, collapse-units true s)
  ]
]

collapse-starts : (s : List ℕ) → Starts (collapse true s)
unfolding collapse
collapse-starts [] = tt
collapse-starts (u ∷ s) = elim (Bool-cases (is_alphanumeric u)) [
  | inl e ↦ rw e e
  | inr e ↦ rw e (collapse-starts s)
]

drop_first_dash-IsStem : (s : List ℕ) → IsStem (drop_first_dash (collapse false s))
unfolding collapse drop_first_dash
drop_first_dash-IsStem [] = record { units = tt; first = tt }
drop_first_dash-IsStem (u ∷ s) = elim (Bool-cases (is_alphanumeric u)) [
  | inl e ↦
      rw (e, no_dash u e) (record { units = (label_of u e, collapse-units false s); first = e })
  | inr e ↦ rw e (record { units = collapse-units true s; first = collapse-starts s })
]

drop_last_dash-units : (s : List ℕ) → IsUnits s → IsUnits (drop_last_dash s)
unfolding drop_last_dash
drop_last_dash-units [] h = tt
drop_last_dash-units (u ∷ []) h = elim (Bool-cases (eqb u 45)) [ inl e ↦ rw e tt | inr e ↦ rw e h ]
drop_last_dash-units (u ∷ v ∷ s) (first, h) = (first, drop_last_dash-units (v ∷ s) h)

drop_last_dash-starts : (s : List ℕ) → Starts s → Starts (drop_last_dash s)
unfolding drop_last_dash
drop_last_dash-starts [] h = tt
drop_last_dash-starts (u ∷ []) h = elim (Bool-cases (eqb u 45)) [ inl e ↦ rw e tt | inr e ↦ rw e h ]
drop_last_dash-starts (u ∷ v ∷ s) h = h

take-units : (n : ℕ) (s : List ℕ) → IsUnits s → IsUnits (take n s)
take-units zero s h = tt
take-units (suc n) [] h = tt
take-units (suc n) (u ∷ s) (first, h) = (first, take-units n s h)

take-starts : (n : ℕ) (s : List ℕ) → Starts s → Starts (take n s)
take-starts zero s h = tt
take-starts (suc n) [] h = tt
take-starts (suc n) (u ∷ s) h = h

length-take : (n : ℕ) (s : List ℕ) → length (take n s) ≤ n
length-take zero s = omega arith
length-take (suc n) [] = omega arith
length-take (suc n) (u ∷ s) = omega (arith, length-take n s)

-- A prefix: from 1 to 38 label units, with a letter or a digit in front.
pub record IsPrefix (s : List ℕ) : Type 0 where
  pub units : All (λ u. is_label_unit u ≡ true) s
  pub first : Starts s
  pub filled : 1 ≤ length s
  pub short : length s ≤ 38

or_organization-IsPrefix :
    (s : List ℕ) → IsUnits s → Starts s → length s ≤ 38 → IsPrefix (or_organization s)
or_organization-IsPrefix [] h starts short = record {
  units = ground arith;
  first = refl;
  filled = omega arith;
  short = omega arith;
}
or_organization-IsPrefix (u ∷ s) h starts short = record {
  units = h;
  first = starts;
  filled = omega arith;
  short = short;
}

slug_prefix-IsPrefix : (lower : List ℕ → List ℕ) (name : List ℕ) → IsPrefix (slug_prefix lower name)
unfolding slug_prefix
slug_prefix-IsPrefix lower name =
    let stem = drop_first_dash-IsStem (lower (trim name)) in
    let body = drop_first_dash (collapse false (lower (trim name))) in
    or_organization-IsPrefix (take prefix_max_length (drop_last_dash body))
      (take-units prefix_max_length (drop_last_dash body) (drop_last_dash-units body stem.units))
      (take-starts prefix_max_length (drop_last_dash body) (drop_last_dash-starts body stem.first))
      (length-take prefix_max_length (drop_last_dash body))

-- A text that is not empty, from its last unit.
split_last :
    (u : ℕ) (s : List ℕ)
    → All (λ v. is_alphanumeric v ≡ true) (u ∷ s)
    → (front : List ℕ) × (v : ℕ) × ((u ∷ s) ≡ front ++ (v ∷ []))
      × IsUnits front
      × (is_alphanumeric v ≡ true)
split_last u [] (first, h) = ([], u, refl, tt, first)
split_last u (w ∷ s) (first, h) =
    let (front, v, e, units, last) = split_last w s h in
    (u ∷ front, v, ap (λ r. u ∷ r) e, (label_of u first, units), last)

units-append : (s t : List ℕ) → IsUnits s → IsUnits t → IsUnits (s ++ t)
units-append [] t h k = k
units-append (u ∷ s) t (first, h) k = (first, units-append s t h k)

slug-label :
    (prefix id : List ℕ)
    → IsPrefix prefix
    → All (λ v. is_alphanumeric v ≡ true) id
    → length id ≡ 24
    → dns_label_pattern (prefix ++ (45 ∷ id)) ≡ true
slug-label [] id h alls size = absurd (omega (arith, h.filled))
slug-label (c ∷ p) [] h alls size = absurd (omega arith)
slug-label (c ∷ p) (u ∷ id) h alls size =
    let (front, v, e, units, last) = split_last u id alls in
    let grouped : p ++ (45 ∷ (front ++ (v ∷ []))) ≡ (p ++ (45 ∷ front)) ++ (v ∷ []) =
      sym (append_assoc p (45 ∷ front) (v ∷ [])) in
    rw (e, grouped)
      (dns_label_pattern-append c (p ++ (45 ∷ front)) v h.first
        (units-append p (45 ∷ front) h.units.1 (refl, units)) last)

-- For every name, whatever `toLowerCase` makes of it, and every id that the generator may return, the
-- slug is made, and it is a prefix of 1 to 38 label units that begins with a letter or a digit, a
-- dash and the id.
pub create_organization_slug-some :
    (lower : List ℕ → List ℕ) (id name : List ℕ)
    → nano_id_pattern id ≡ true
    → (prefix : List ℕ) × IsPrefix prefix
      × (create_organization_slug lower id name ≡ some (prefix ++ (45 ∷ id)))
unfolding create_organization_slug generate_nano_id dns_label_schema nano_id_pattern
create_organization_slug-some lower id name h =
    let prefix = slug_prefix lower name in
    let valid = slug_prefix-IsPrefix lower name in
    let (sized, alls) = and_true (eqb (length id) 24) (every is_alphanumeric id) h in
    let size = eqb→eq (length id) 24 sized in
    let whole = length-append prefix (45 ∷ id) in
    let low : 1 ≤ length (prefix ++ (45 ∷ id)) = omega (arith, whole) in
    let high : length (prefix ++ (45 ∷ id)) ≤ 63 = omega (arith, whole, valid.short) in
    (
      prefix,
      valid,
      rw
          (
            h,
            le→leb 1 (length (prefix ++ (45 ∷ id))) low,
            le→leb (length (prefix ++ (45 ∷ id))) 63 high,
            slug-label prefix id valid (every-All is_alphanumeric id alls) size,
          )
          refl,
    )
