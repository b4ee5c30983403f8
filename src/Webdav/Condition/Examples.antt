-- ===== src/Webdav/Condition/Examples.antt =====
-- If-Match at concrete headers.
use sakullla_plugins.Base.{false, [], ◌∷◌, ◌≡◌, refl, Bytes, bytes_eq, has_prefix}
use sakullla_plugins.Webdav.Condition.{
  matched, invalid, trim_blanks, tag_body, strong_etag_match, cut_entity_tag, classify_value,
  classify_values, classify_if_match, if_match_allowed,
}
use sakullla_plugins.Webdav.Condition.Missing.{if_match_allowed-missing}

-- `"a"`
abbrev tag_a : Bytes
tag_a = b'"' ∷ b'a' ∷ b'"' ∷ []

-- `W/"a", "a"`
abbrev weak_and_strong : Bytes
weak_and_strong = b'W' ∷ b'/' ∷ b'"' ∷ b'a' ∷ b'"' ∷ b',' ∷ 32 ∷ tag_a

strong_matches : classify_if_match (weak_and_strong ∷ []) tag_a ≡ matched
unfolding classify_if_match classify_values classify_value trim_blanks cut_entity_tag tag_body
    strong_etag_match bytes_eq has_prefix
strong_matches = refl

star_is_alone : classify_if_match ((b'*' ∷ []) ∷ tag_a ∷ []) tag_a ≡ invalid
unfolding classify_if_match classify_values classify_value trim_blanks cut_entity_tag tag_body
    strong_etag_match bytes_eq has_prefix
star_is_alone = refl

if_match_allowed-missing_example : if_match_allowed ((b'*' ∷ []) ∷ tag_a ∷ []) false [] ≡ false
if_match_allowed-missing_example = if_match_allowed-missing (b'*' ∷ []) (tag_a ∷ [])
