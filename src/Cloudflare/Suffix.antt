-- ===== src/Cloudflare/Suffix.antt =====
-- plugins/cloudflare-dns/suffix.go: normalized domains, and the longest configured suffix of one. Text is a
-- list of code points; what the package unicode does to them is a parameter.
pub mod Longest
mod Examples
use sakullla_plugins.Base.{
  ℕ, zero, suc, ◌+◌, Bool, true, false, not, ◌&&◌, ◌||◌, List, [], ◌∷◌, ltb, leb, ◌==◌,
  if◌then◌else◌, length, Bytes, bytes_eq, Result, ok, err, panic, ◌>>=◌, ◌>>◌, reject_if, is_empty,
  trim_dot, has_suffix, has_prefix, split,
}

-- `strings.TrimSpace`, and `unicode.ToLower` of the letters that `unicode.IsUpper` accepts.
pub record Unicode : Type 0 where
  pub trimmed : Bytes → Bytes
  pub fold : ℕ → ℕ

pub data InputError : Type 0 where
  invalid_input : InputError

unfoldable pub fold_ascii : Unicode → Bytes → Result InputError Bytes
fold_ascii u [] = ok []
fold_ascii u (c ∷ cs) = do
  reject_if (ltb 127 (u.fold c)) invalid_input
  rest ← fold_ascii u cs
  ok (u.fold c ∷ rest)

-- `strings.Contains(s, "..")`
unfoldable pub has_two_dots : Bytes → Bool
has_two_dots [] = false
has_two_dots (b ∷ bs) = has_prefix (b ∷ bs) (b'.' ∷ (b'.' ∷ [])) || has_two_dots bs

abbrev pub is_name_character : ℕ → Bool
is_name_character c = (leb b'a' c && leb c b'z') || ((leb b'0' c && leb c b'9') || (c == b'-'))

unfoldable pub are_name_characters : Bytes → Bool
are_name_characters [] = true
are_name_characters (c ∷ cs) = is_name_character c && are_name_characters cs

unfoldable pub is_label : Bytes → Bool
is_label [] = false
is_label (c ∷ cs) =
    not (ltb 63 (length (c ∷ cs)))
    && (not (c == b'-') && (not (has_suffix (c ∷ cs) (b'-' ∷ [])) && are_name_characters (c ∷ cs)))

unfoldable pub are_labels : List Bytes → Bool
are_labels [] = true
are_labels (label ∷ labels) = is_label label && are_labels labels

abbrev pub bad_dots : Bytes → Bool
bad_dots value =
    is_empty value
    || (ltb 253 (length value)
        || (has_two_dots value || (has_prefix value (b'.' ∷ []) || has_suffix value (b'.' ∷ []))))

unfoldable pub normalize_domain : Unicode → Bytes → Result InputError Bytes
normalize_domain u value = do
  reject_if (is_empty (u.trimmed value)) invalid_input
  folded ← fold_ascii u (u.trimmed value)
  let name = trim_dot folded
  reject_if (bad_dots name) invalid_input
  reject_if (not (are_labels (split b'.' name))) invalid_input
  ok name

unfoldable pub domain_matches_suffix : Bytes → Bytes → Bool
domain_matches_suffix domain suffix = bytes_eq domain suffix || has_suffix domain (b'.' ∷ suffix)

-- One round of the loop: a suffix that does not normalize is passed over.
abbrev pub take_longer : Bytes → Result InputError Bytes → Bytes × Bool → Bytes × Bool
take_longer domain (err e) state = state
take_longer domain panic state = state
take_longer domain (ok current) (best, found) =
    if not (domain_matches_suffix domain current)
    then (best, found)
    else if not found || ltb (length best) (length current)
    then (current, true)
    else (best, found)

unfoldable pub longest_of : Unicode → Bytes → List Bytes → Bytes × Bool → Bytes × Bool
longest_of u domain [] state = state
longest_of u domain (suffix ∷ suffixes) state =
    longest_of u domain suffixes (take_longer domain (normalize_domain u suffix) state)

abbrev pub match_normalized : Unicode → List Bytes → Result InputError Bytes → Bytes × Bool
match_normalized u suffixes (ok domain) = longest_of u domain suffixes ([], false)
match_normalized u suffixes (err e) = ([], false)
match_normalized u suffixes panic = ([], false)

unfoldable pub longest_suffix_match : Unicode → Bytes → List Bytes → Bytes × Bool
longest_suffix_match u domain suffixes = match_normalized u suffixes (normalize_domain u domain)
