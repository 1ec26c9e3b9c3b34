-- ===== src/Forms/Slug.antt =====
-- features/organizations/create-organization-slug.ts. `toLowerCase` and the generator of nanoid are
-- parameters.
pub mod Labels
use fissionplane.Prelude.{
  take, ℕ, zero, suc, Bool, true, false, not, Option, none, some, List, [], ◌∷◌, ◌++◌, codes, eqb,
  if◌then◌else◌,
}
use fissionplane.Web.Headers.{◌>>=◌}
use fissionplane.Core.Names.{is_alphanumeric, trim, dns_label_schema, generate_nano_id}

-- `replaceAll(/[^a-z0-9]+/g, '-')`; `inside` tells that the unit before was replaced too.
unfoldable pub collapse : Bool → List ℕ → List ℕ
collapse inside [] = []
collapse inside (u ∷ s) =
    let rest = collapse (not (is_alphanumeric u)) s in
    if is_alphanumeric u then u ∷ rest else if inside then rest else 45 ∷ rest

-- `replaceAll(/(^-|-$)/g, '')`: one dash at the start, and one at the end of what is left.
unfoldable pub drop_first_dash : List ℕ → List ℕ
drop_first_dash [] = []
drop_first_dash (u ∷ s) = if eqb u 45 then s else u ∷ s

unfoldable pub drop_last_dash : List ℕ → List ℕ
drop_last_dash [] = []
drop_last_dash (u ∷ []) = if eqb u 45 then [] else u ∷ []
drop_last_dash (u ∷ v ∷ s) = u ∷ drop_last_dash (v ∷ s)

-- ORGANIZATION_SLUG_PREFIX_MAX_LENGTH: 63 less the 24 units of an id and the separator.
abbrev pub prefix_max_length : ℕ
prefix_max_length = 38

abbrev pub or_organization : List ℕ → List ℕ
or_organization [] = codes "organization"
or_organization (u ∷ s) = u ∷ s

unfoldable pub slug_prefix : (lower : List ℕ → List ℕ) → List ℕ → List ℕ
unfolding collapse drop_first_dash drop_last_dash
slug_prefix lower name =
    or_organization (
      take prefix_max_length
        (drop_last_dash (drop_first_dash (collapse false (lower (trim name))))))

-- `id` is what nanoid's generator returns; `none` is the error that a schema's `make` throws.
unfoldable pub create_organization_slug :
    (lower : List ℕ → List ℕ) → List ℕ → List ℕ → Option (List ℕ)
unfolding slug_prefix
create_organization_slug lower id name = do
  generated ← generate_nano_id id
  dns_label_schema 1 63 (slug_prefix lower name ++ (45 ∷ generated))
