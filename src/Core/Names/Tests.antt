-- ===== src/Core/Names/Tests.antt =====
-- A name with a line separator in it and a blank at its end.
use fissionplane.Prelude.{◌≡◌, refl, true, false, [], ◌∷◌, ◌++◌, codes}
use fissionplane.Core.Names.{display_name_pattern, dns_label_pattern, trim}
use fissionplane.Core.Names.Padding.{display_name_pattern-padded}

-- With the last blank, and without the separator, it is refused.
padded_is_refused : display_name_pattern (codes "ab ") ≡ false
unfolding display_name_pattern
padded_is_refused = refl

labels : (dns_label_pattern (codes "a-1") ≡ true) × (dns_label_pattern (codes "a-") ≡ false)
unfolding dns_label_pattern
labels = (refl, refl)

trimmed : trim (codes " a b ") ≡ codes "a b"
unfolding trim
trimmed = refl

display_name_pattern-padded_example :
    display_name_pattern (codes "a" ++ (8232 ∷ (codes "b" ++ codes " "))) ≡ true
display_name_pattern-padded_example =
    display_name_pattern-padded 97 [] (codes "b") refl (refl, tt) (refl, tt)
