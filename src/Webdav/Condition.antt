-- ===== src/Webdav/Condition.antt =====
-- plugins/webdav/condition.go: whether an If-Match header permits a method that changes a resource.
pub mod Missing
mod Rounds
mod Examples
use sakullla_plugins.Base.{
  ℕ, zero, suc, ◌+◌, ◌-◌, Bool, true, false, ◌&&◌, ◌||◌, Option, none, some, List, [], ◌∷◌, ◌++◌,
  leb, ◌==◌, if◌then◌else◌, length, get_or, drop, Bytes, bytes_eq, has_prefix,
}

pub data IfMatchClass : Type 0 where
  invalid absent wildcard matched unmatched : IfMatchClass

abbrev pub quote : ℕ
quote = 34

-- `strings.TrimLeft(rest, " \t")`
unfoldable pub trim_blanks : Bytes → Bytes
trim_blanks [] = []
trim_blanks (c ∷ cs) = let rest = trim_blanks cs in if (c == 32) || (c == 9) then rest else c ∷ cs

unfoldable pub strong_etag_match : Bytes → Bytes → Bool
strong_etag_match candidate current =
    bytes_eq candidate current
    && (leb 2 (length candidate)
        && ((get_or candidate 0 0 == quote)
            && (get_or candidate (length candidate - 1) 0 == quote)))

abbrev pub is_tag_character : ℕ → Bool
is_tag_character c = (c == 0x21) || ((leb 0x23 c && leb c 0x7e) || leb 0x80 c)

-- The characters up to the closing quote, and what is behind it.
abbrev pub before_tag : ℕ → Option (Bytes × Bytes) → Option (Bytes × Bytes)
before_tag c none = none
before_tag c (some (inner, rest)) = some (c ∷ inner, rest)

unfoldable pub tag_body : Bytes → Option (Bytes × Bytes)
tag_body [] = none
tag_body (c ∷ cs) =
    let later = tag_body cs in
    if c == quote then some ([], cs) else if is_tag_character c then before_tag c later else none

-- `cutEntityTag`: the tag with its weakness mark, and what is behind it, or two empty strings.
abbrev pub close_tag : Bytes → Option (Bytes × Bytes) → Bytes × Bytes
close_tag mark none = ([], [])
close_tag mark (some (inner, rest)) = (mark ++ (quote ∷ (inner ++ (quote ∷ []))), rest)

abbrev pub open_tag : Bytes → Bytes → Bytes × Bytes
open_tag mark [] = ([], [])
open_tag mark (c ∷ cs) = if c == quote then close_tag mark (tag_body cs) else ([], [])

abbrev pub weak_mark : Bytes
weak_mark = b'W' ∷ (b'/' ∷ [])

unfoldable pub cut_entity_tag : Bytes → Bytes × Bytes
cut_entity_tag value =
    if has_prefix value weak_mark then open_tag weak_mark (drop 2 value) else open_tag [] value

-- The class behind a tag; `none` is the early return of `ifMatchInvalid`.
abbrev pub see_tag : Bytes → Bytes → IfMatchClass → Option IfMatchClass
see_tag current [] class = none
see_tag current (c ∷ tag) wildcard = none
see_tag current (c ∷ tag) matched = some matched
see_tag current (c ∷ tag) invalid =
    if strong_etag_match (c ∷ tag) current then some matched else some unmatched
see_tag current (c ∷ tag) absent =
    if strong_etag_match (c ∷ tag) current then some matched else some unmatched
see_tag current (c ∷ tag) unmatched =
    if strong_etag_match (c ∷ tag) current then some matched else some unmatched

abbrev pub see_star : IfMatchClass → Option IfMatchClass
see_star absent = some wildcard
see_star class = none

abbrev pub resume :
    (Bytes → IfMatchClass → Option IfMatchClass) → Bytes → Option IfMatchClass → Option IfMatchClass
resume again rest none = none
resume again rest (some class) = again rest class

-- One element of a header value, behind its blanks.
abbrev pub see_element :
    (Bytes → IfMatchClass → Option IfMatchClass)
    → Bytes
    → Bytes
    → IfMatchClass
    → Option IfMatchClass
see_element again current [] class = some class
see_element again current (c ∷ rest) class =
    if c == b','
    then again rest class
    else if c == b'*'
    then resume again rest (see_star class)
    else resume again (cut_entity_tag (c ∷ rest)).1
        (see_tag current (cut_entity_tag (c ∷ rest)).0 class)

-- Each round takes a byte or more of the value.
unfoldable pub classify_value : ℕ → Bytes → Bytes → IfMatchClass → Option IfMatchClass
classify_value zero current rest class = some class
classify_value (suc rounds) current rest class =
    see_element (classify_value rounds current) current (trim_blanks rest) class

unfoldable pub classify_values : Bytes → List Bytes → IfMatchClass → Option IfMatchClass
classify_values current [] class = some class
classify_values current (value ∷ values) class =
    resume (λ rest next. classify_values current values next) []
      (classify_value (length value + 1) current value class)

abbrev pub or_invalid : Option IfMatchClass → IfMatchClass
or_invalid none = invalid
or_invalid (some absent) = invalid
or_invalid (some class) = class

unfoldable pub classify_if_match : List Bytes → Bytes → IfMatchClass
classify_if_match [] current = absent
classify_if_match (value ∷ values) current =
    or_invalid (classify_values current (value ∷ values) absent)

abbrev pub allows : Bool → IfMatchClass → Bool
allows exists absent = true
allows exists wildcard = exists
allows exists matched = true
allows exists unmatched = false
allows exists invalid = false

-- `ifMatchAllowed`, on the values of the header.
unfoldable pub if_match_allowed : List Bytes → Bool → Bytes → Bool
if_match_allowed values exists current = allows exists (classify_if_match values current)
