-- ===== src/Forms/Tests.antt =====
-- A name with accents and a bracket.
use fissionplane.Prelude.{ℕ, ◌≡◌, refl, true, some, List, ◌∷◌, ◌++◌, codes}
use fissionplane.Core.Names.{trim, nano_id_pattern}
use fissionplane.Forms.DisplayNames.{
  answer, parse_organization_name, parse_user_display_name, parse_names-answer,
}
use fissionplane.Forms.Slug.{
  create_organization_slug, slug_prefix, collapse, drop_first_dash, drop_last_dash,
}
use fissionplane.Forms.Slug.Labels.{IsPrefix, create_organization_slug-some}

abbrev id : List ℕ
id = codes "q1w2e3r4t5y6u7i8o9p0a1s2"

id_pattern : nano_id_pattern id ≡ true
unfolding nano_id_pattern
id_pattern = refl

slug : slug_prefix (λ s. s) (codes " (café) & co ") ≡ codes "caf-co"
unfolding slug_prefix collapse drop_first_dash drop_last_dash trim
slug = refl

create_organization_slug-some_example :
    (prefix : List ℕ) × IsPrefix prefix
    × (create_organization_slug (λ s. s) id (codes "--acme--") ≡ some (prefix ++ (45 ∷ id)))
create_organization_slug-some_example =
    create_organization_slug-some (λ s. s) id (codes "--acme--") id_pattern

parse_names-answer_example :
    (parse_organization_name (codes " acme ")
      ≡ answer 100 "Organization name is required"
          "Organization name must be 100 characters or fewer"
          "Organization name contains unsupported characters"
          (trim (codes " acme ")))
    × (parse_user_display_name (codes " acme ")
        ≡ answer 80 "Name is required" "Name must be 80 characters or fewer"
            "Name contains unsupported characters"
            (trim (codes " acme ")))
parse_names-answer_example = parse_names-answer (codes " acme ")
