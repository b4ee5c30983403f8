-- ===== src/Cloudflare/Suffix/Longest.antt =====
-- The suffix that is found is the longest one.
use sakullla_plugins.Base.{◌≤◌, Bool, true, false, List, [], ◌∷◌, ◌≡◌, ◌⊎◌, All, length, Bytes, ok}
use sakullla_plugins.Cloudflare.Suffix.{Unicode, normalize_domain, domain_matches_suffix}

-- A configured suffix that normalizes to one that a domain ends in.
abbrev pub IsSuffix : Unicode → Bytes → Bytes → Bytes → Type 0
IsSuffix u domain current suffix =
    (normalize_domain u suffix ≡ ok current) × (domain_matches_suffix domain current ≡ true)

abbrev pub Some : {A : Type 0} → (A → Type 0) → List A → Type 0
Some P [] = ⊥
Some P (x ∷ xs) = P x ⊎ Some P xs

-- The longest: one of the suffixes is it, and none is longer.
abbrev pub IsLongest : Unicode → Bytes → List Bytes → Bytes → Type 0
IsLongest u domain suffixes best =
    Some (IsSuffix u domain best) suffixes
    × All (λ suffix. (c : Bytes) → IsSuffix u domain c suffix → length c ≤ length best) suffixes

abbrev pub HasNone : Unicode → Bytes → List Bytes → Type 0
HasNone u domain suffixes = All (λ suffix. (c : Bytes) → IsSuffix u domain c suffix → ⊥) suffixes

-- What the loop does from a state on.
record IsRun (u : Unicode) (domain : Bytes) (suffixes : List Bytes) (start end : Bytes × Bool)
    : Type 0 where
  longest :
      end.1 ≡ true
      → All (λ suffix. (c : Bytes) → IsSuffix u domain c suffix → length c ≤ length end.0) suffixes
  grows : start.1 ≡ true → (end.1 ≡ true) × (length start.0 ≤ length end.0)
  origin :
      end.1 ≡ true
      → ((start.1 ≡ true) × (start.0 ≡ end.0)) ⊎ Some (IsSuffix u domain end.0) suffixes
  nothing : end.1 ≡ false → HasNone u domain suffixes

-- What one round does.
record IsRound (u : Unicode) (domain suffix : Bytes) (start end : Bytes × Bool) : Type 0 where
  longest : (c : Bytes) → IsSuffix u domain c suffix → (end.1 ≡ true) × (length c ≤ length end.0)
  grows : start.1 ≡ true → (end.1 ≡ true) × (length start.0 ≤ length end.0)
  origin : end.1 ≡ true → ((start.1 ≡ true) × (start.0 ≡ end.0)) ⊎ IsSuffix u domain end.0 suffix

module _ (u : Unicode) (domain : Bytes) where
  abbrev Origin : List Bytes → Bytes × Bool → Bytes → Type 0
  Origin suffixes start end =
      ((start.1 ≡ true) × (start.0 ≡ end)) ⊎ Some (IsSuffix u domain end) suffixes
