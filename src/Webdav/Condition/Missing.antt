-- ===== src/Webdav/Condition/Missing.antt =====
-- A resource without an entity tag, one that is missing or a collection, is never matched.
use sakullla_plugins.Base.{
  ℕ, zero, suc, ◌+◌, false, Option, none, some, List, [], ◌∷◌, ◌≡◌, ◌≢◌, refl, if-elim,
  if◌then◌else◌, ◌==◌, length, Bytes, bytes_eq,
}
use sakullla_plugins.Webdav.Condition.{
  IfMatchClass, invalid, absent, wildcard, matched, unmatched, trim_blanks, strong_etag_match,
  see_tag, see_star, resume, see_element, classify_value, classify_values, or_invalid,
  classify_if_match, allows, if_match_allowed,
}

-- A class that is not a match.
abbrev IsUnmatched : IfMatchClass → Type 0
IsUnmatched class = class ≢ matched

abbrev StaysUnmatched : Option IfMatchClass → Type 0
StaysUnmatched o = (class : IfMatchClass) → o ≡ some class → IsUnmatched class

strong_etag_match-empty : (candidate : Bytes) → strong_etag_match candidate [] ≡ false
unfolding strong_etag_match bytes_eq
strong_etag_match-empty [] = refl
strong_etag_match-empty (c ∷ cs) = refl

some-StaysUnmatched : (class : IfMatchClass) → IsUnmatched class → StaysUnmatched (some class)
some-StaysUnmatched class h other e is = h (cc (e, is))

tag-StaysUnmatched :
    (candidate : Bytes)
    → StaysUnmatched (if strong_etag_match candidate [] then some matched else some unmatched)
tag-StaysUnmatched candidate =
    rw (strong_etag_match-empty candidate) (some-StaysUnmatched unmatched (λ e. cc))

see_tag-StaysUnmatched :
    (tag : Bytes) (class : IfMatchClass) → IsUnmatched class → StaysUnmatched (see_tag [] tag class)
see_tag-StaysUnmatched [] class h = λ other e. cc
see_tag-StaysUnmatched (c ∷ tag) wildcard h = λ other e. cc
see_tag-StaysUnmatched (c ∷ tag) matched h = absurd (h refl)
see_tag-StaysUnmatched (c ∷ tag) invalid h = tag-StaysUnmatched (c ∷ tag)
see_tag-StaysUnmatched (c ∷ tag) absent h = tag-StaysUnmatched (c ∷ tag)
see_tag-StaysUnmatched (c ∷ tag) unmatched h = tag-StaysUnmatched (c ∷ tag)

see_star-StaysUnmatched : (class : IfMatchClass) → StaysUnmatched (see_star class)
see_star-StaysUnmatched absent = some-StaysUnmatched wildcard (λ e. cc)
see_star-StaysUnmatched wildcard = λ other e. cc
see_star-StaysUnmatched matched = λ other e. cc
see_star-StaysUnmatched invalid = λ other e. cc
see_star-StaysUnmatched unmatched = λ other e. cc

-- Going on from a class that is not a match.
abbrev Keeps : (Bytes → IfMatchClass → Option IfMatchClass) → Type 0
Keeps again =
    (rest : Bytes) (class : IfMatchClass) → IsUnmatched class → StaysUnmatched (again rest class)

resume-StaysUnmatched :
    (again : Bytes → IfMatchClass → Option IfMatchClass) (rest : Bytes) (o : Option IfMatchClass)
    → Keeps again
    → StaysUnmatched o
    → StaysUnmatched (resume again rest o)
resume-StaysUnmatched again rest none keeps h = λ other e. cc
resume-StaysUnmatched again rest (some class) keeps h = keeps rest class (h class refl)

see_element-Keeps :
    (again : Bytes → IfMatchClass → Option IfMatchClass)
    → Keeps again
    → Keeps (see_element again [])
see_element-Keeps again keeps [] class h = some-StaysUnmatched class h
see_element-Keeps again keeps (c ∷ rest) class h =
    if-elim StaysUnmatched (c == b',') (λ _. keeps rest class h)
      (λ _.
        if-elim StaysUnmatched (c == b'*')
          (λ _.
            resume-StaysUnmatched again rest (see_star class) keeps (see_star-StaysUnmatched class))
          (λ _. resume-StaysUnmatched again _ _ keeps (see_tag-StaysUnmatched _ class h)))

classify_value-Keeps : (rounds : ℕ) → Keeps (classify_value rounds [])
unfolding classify_value
classify_value-Keeps zero rest class h = some-StaysUnmatched class h
classify_value-Keeps (suc rounds) rest class h =
    see_element-Keeps (classify_value rounds []) (classify_value-Keeps rounds) (trim_blanks rest)
      class h

classify_values-StaysUnmatched :
    (values : List Bytes) (class : IfMatchClass)
    → IsUnmatched class
    → StaysUnmatched (classify_values [] values class)
unfolding classify_values
classify_values-StaysUnmatched [] class h = some-StaysUnmatched class h
classify_values-StaysUnmatched (value ∷ values) class h =
    resume-StaysUnmatched (λ rest next. classify_values [] values next) []
      (classify_value (length value + 1) [] value class)
      (λ rest next. classify_values-StaysUnmatched values next)
      (classify_value-Keeps (length value + 1) value class h)

refused : (o : Option IfMatchClass) → StaysUnmatched o → allows false (or_invalid o) ≡ false
refused none h = refl
refused (some absent) h = refl
refused (some invalid) h = refl
refused (some wildcard) h = refl
refused (some matched) h = absurd (h matched refl refl)
refused (some unmatched) h = refl

-- For a resource that does not exist and has no entity tag, `ifMatchAllowed` permits no If-Match header
-- with a value, whatever the values are.
pub if_match_allowed-missing :
    (value : Bytes) (values : List Bytes) → if_match_allowed (value ∷ values) false [] ≡ false
unfolding if_match_allowed classify_if_match
if_match_allowed-missing value values =
    refused _ (classify_values-StaysUnmatched (value ∷ values) absent (λ e. cc))
