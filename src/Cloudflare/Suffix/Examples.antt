-- ===== src/Cloudflare/Suffix/Examples.antt =====
-- The search for a suffix at concrete domains, with an ASCII stand-in for the package unicode.
use sakullla_plugins.Base.{
  true, List, [], ◌∷◌, ◌≡◌, refl, Bytes, bytes_eq, trim_space, trim_left, trim_right, has_suffix,
  has_prefix, split,
}
use sakullla_plugins.Doh.Wire.Name.{to_lower}
use sakullla_plugins.Cloudflare.Suffix.{
  Unicode, fold_ascii, has_two_dots, are_name_characters, is_label, are_labels, normalize_domain,
  domain_matches_suffix, longest_of, longest_suffix_match,
}

abbrev ascii : Unicode
ascii = record { trimmed = trim_space; fold = to_lower }

abbrev org : Bytes
org = b'o' ∷ b'r' ∷ b'g' ∷ []

abbrev a_org : Bytes
a_org = b'a' ∷ b'.' ∷ org

abbrev b_a_org : Bytes
b_a_org = b'b' ∷ b'.' ∷ a_org

-- `B.a.org.`
abbrev domain : Bytes
domain = b'B' ∷ b'.' ∷ b'a' ∷ b'.' ∷ b'o' ∷ b'r' ∷ b'g' ∷ b'.' ∷ []

abbrev suffixes : List Bytes
suffixes = org ∷ (b'-' ∷ []) ∷ a_org ∷ []

found : longest_suffix_match ascii domain suffixes ≡ (a_org, true)
unfolding longest_suffix_match longest_of domain_matches_suffix normalize_domain fold_ascii
    has_two_dots are_name_characters is_label are_labels trim_left trim_right has_suffix has_prefix
    split bytes_eq
found = refl
