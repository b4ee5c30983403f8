-- ===== src/Doh/Config/Answering.antt =====
-- The upstreams of a name, in terms of the configuration alone.
use sakullla_plugins.Base.{
  ◌+◌, ◌-◌, ◌≤◌, Bool, true, false, not, ◌&&◌, ◌||◌, List, [], ◌∷◌, ◌++◌, ◌≡◌, ◌≢◌, ◌⊎◌, inl, inr,
  refl, sym, ap, subst, ◌∙◌, arith, All, Bool-cases, if-elim, leb, if◌then◌else◌, length,
  length-append, take, drop, drop-append, take-append-drop, Bytes, bytes_eq, bytes_eq_iff, is_empty,
  has_suffix,
}
use sakullla_plugins.Doh.Config.{
  Upstream, Configuration, normalize_domain, domain_matches, is_match, is_default,
  default_upstreams, or_defaults, upstreams_for_name,
}
use sakullla_plugins.Doh.Config.Selects.{selected, IsLongest, IsUnmatched, IsScan, scan}

-- The name is the domain, or a name below it.
abbrev pub IsUnder : Bytes → Bytes → Type 0
IsUnder qname domain = (qname ≡ domain) ⊎ ((p : Bytes) × (qname ≡ p ++ (b'.' ∷ domain)))

-- An enabled upstream with a domain that the name is under.
abbrev pub Serves : Bytes → Upstream → Type 0
Serves qname u = (u.enabled ≡ true) × (u.domain ≢ []) × IsUnder qname u.domain

-- A list is what is left of another when the elements without a property go.
abbrev pub Filters : (Upstream → Type 0) → List Upstream → List Upstream → Type 0
Filters P [] picked = picked ≡ []
Filters P (u ∷ us) picked =
    (P u × ((rest : List Upstream) × (picked ≡ u ∷ rest) × Filters P us rest))
    ⊎ ((¬ P u) × Filters P us picked)

-- What the tests of the code say.
has_suffix-ends : (s suffix : Bytes) → has_suffix s suffix ≡ true → (p : Bytes) × (s ≡ p ++ suffix)
unfolding has_suffix
has_suffix-ends s suffix h =
    let n = length s - length suffix in
    let same : drop n s ≡ suffix =
      (bytes_eq_iff (drop n s) suffix).0 (second (leb (length suffix) (length s)) _ h) in
    (take n s, sym (take-append-drop n s) ∙ ap (λ r. take n s ++ r) same)
  where
    second : (a b : Bool) → (a && b) ≡ true → b ≡ true
    second a b e = ground (arith, e)

has_suffix-append : (p suffix : Bytes) → has_suffix (p ++ suffix) suffix ≡ true
unfolding has_suffix
has_suffix-append p suffix =
    let long : length (p ++ suffix) ≡ length p + length suffix = length-append p suffix in
    let n : length (p ++ suffix) - length suffix ≡ length p = omega (arith, long) in
    both (leb (length suffix) (length (p ++ suffix))) _ (ground (arith, long))
      ((bytes_eq_iff _ suffix).1 (ap (λ k. drop k (p ++ suffix)) n ∙ drop-append p suffix))
  where
    both : (a b : Bool) → a ≡ true → b ≡ true → (a && b) ≡ true
    both a b g h = ground (arith, g, h)

domain_matches-IsUnder :
    (qname domain : Bytes)
    → domain_matches qname domain ≡ true
    → (domain ≢ []) × IsUnder qname domain
unfolding domain_matches
domain_matches-IsUnder qname [] h = ground (arith, h)
domain_matches-IsUnder qname (b ∷ d) h = (
  (λ e. cc e),
  elim (Bool-cases (bytes_eq qname (b ∷ d))) [
    | inl same ↦ inl ((bytes_eq_iff qname (b ∷ d)).0 same)
    | inr other ↦ inr (has_suffix-ends qname (b'.' ∷ (b ∷ d)) (last _ _ _ h other))
  ],
)
  where
    last : (a s e : Bool) → (a && (s || e)) ≡ true → s ≡ false → e ≡ true
    last a s e g k = ground (arith, g, k)

IsUnder-domain_matches :
    (qname domain : Bytes) → domain ≢ [] → IsUnder qname domain → domain_matches qname domain ≡ true
unfolding domain_matches
IsUnder-domain_matches qname [] ne h = absurd (ne refl)
IsUnder-domain_matches [] (b ∷ d) ne (inl e) = cc e
IsUnder-domain_matches [] (b ∷ d) ne (inr ([], e)) = cc e
IsUnder-domain_matches [] (b ∷ d) ne (inr (c ∷ p, e)) = cc e
IsUnder-domain_matches (q ∷ qs) (b ∷ d) ne (inl e) =
    or_first _ _ ((bytes_eq_iff (q ∷ qs) (b ∷ d)).1 e)
  where
    or_first : (s e : Bool) → s ≡ true → (s || e) ≡ true
    or_first s e g = ground (arith, g)
IsUnder-domain_matches (q ∷ qs) (b ∷ d) ne (inr (p, e)) = or_second _ _ (
    subst (λ s. has_suffix s (b'.' ∷ (b ∷ d)) ≡ true) (sym e)
      (has_suffix-append p (b'.' ∷ (b ∷ d))))
  where
    or_second : (s e : Bool) → e ≡ true → (s || e) ≡ true
    or_second s e g = ground (arith, g)

is_empty-nil : (s : Bytes) → is_empty s ≡ true → s ≡ []
is_empty-nil [] h = refl
is_empty-nil (b ∷ s) h = cc h

is_match-Serves : (qname : Bytes) (u : Upstream) → is_match qname u ≡ true → Serves qname u
is_match-Serves qname u h =
    let (enabled, matches) =
      parts u.enabled (not (is_empty u.domain)) (domain_matches qname u.domain) h in
    let (ne, under) = domain_matches-IsUnder qname u.domain matches in (enabled, ne, under)
  where
    parts : (a b c : Bool) → (a && (b && c)) ≡ true → (a ≡ true) × (c ≡ true)
    parts a b c e = ground (arith, e)

Serves-is_match : (qname : Bytes) (u : Upstream) → Serves qname u → is_match qname u ≡ true
Serves-is_match qname u (enabled, ne, under) =
    all u.enabled _ _ enabled (filled u.domain ne) (IsUnder-domain_matches qname u.domain ne under)
  where
    all : (a b c : Bool) → a ≡ true → b ≡ true → c ≡ true → (a && (b && c)) ≡ true
    all a b c g h k = ground (arith, g, h, k)

    filled : (d : Bytes) → d ≢ [] → not (is_empty d) ≡ true
    filled [] h = absurd (h refl)
    filled (b ∷ d) h = refl

-- A loop that keeps the elements of a test filters by what the test decides.
keeps_or_drops :
    (P : Upstream → Type 0) (test : Bool) (u : Upstream) (us rest : List Upstream)
    → (test ≡ true → P u)
    → (P u → test ≡ true)
    → Filters P us rest
    → Filters P (u ∷ us) (if test then u ∷ rest else rest)
keeps_or_drops P test u us rest sound complete h =
    if-elim (λ (r : List Upstream). Filters P (u ∷ us) r) test
      (λ on. inl (sound on, (rest, refl, h))) (λ off. inr ((λ p. cc (complete p, off)), h))

selected-Filters :
    (qname best : Bytes) (us : List Upstream)
    → Filters (λ u. Serves qname u × (u.domain ≡ best)) us (selected qname best us)
unfolding selected
selected-Filters qname best [] = refl
selected-Filters qname best (u ∷ us) =
    keeps_or_drops _ (is_match qname u && bytes_eq u.domain best) u us _
      (λ on.
        let (first, second) = parts (is_match qname u) (bytes_eq u.domain best) on in
        (is_match-Serves qname u first, (bytes_eq_iff u.domain best).0 second))
      (λ (serves, same).
        both (is_match qname u) _ (Serves-is_match qname u serves)
          ((bytes_eq_iff u.domain best).1 same))
      (selected-Filters qname best us)
  where
    parts : (a b : Bool) → (a && b) ≡ true → (a ≡ true) × (b ≡ true)
    parts a b e = ground (arith, e)

    both : (a b : Bool) → a ≡ true → b ≡ true → (a && b) ≡ true
    both a b g h = ground (arith, g, h)

default_upstreams-Filters :
    (us : List Upstream)
    → Filters (λ u. (u.enabled ≡ true) × (u.domain ≡ [])) us (default_upstreams us)
unfolding default_upstreams
default_upstreams-Filters [] = refl
default_upstreams-Filters (u ∷ us) =
    keeps_or_drops _ (is_default u) u us _
      (λ on.
        let (first, second) = parts u.enabled (is_empty u.domain) on in
        (first, is_empty-nil u.domain second))
      (λ (enabled, none). both u.enabled _ enabled (ap (λ d. is_empty d) none))
      (default_upstreams-Filters us)
  where
    parts : (a b : Bool) → (a && b) ≡ true → (a ≡ true) × (b ≡ true)
    parts a b e = ground (arith, e)

    both : (a b : Bool) → a ≡ true → b ≡ true → (a && b) ≡ true
    both a b g h = ground (arith, g, h)

longest-Serves :
    (qname best : Bytes) (us : List Upstream)
    → IsLongest qname best us
    → All (λ u. Serves qname u → length u.domain ≤ length best) us
longest-Serves qname best [] h = tt
longest-Serves qname best (u ∷ us) (first, rest) =
    ((λ serves. first (Serves-is_match qname u serves)), longest-Serves qname best us rest)

unmatched-Serves :
    (qname : Bytes) (us : List Upstream) → IsUnmatched qname us → All (λ u. ¬ Serves qname u) us
unmatched-Serves qname [] h = tt
unmatched-Serves qname (u ∷ us) (first, rest) =
    ((λ serves. cc (Serves-is_match qname u serves, first)), unmatched-Serves qname us rest)

-- The choice: of the upstreams that serve the name, those with a longest domain; where none serves it, the
-- enabled ones without a domain.
abbrev pub IsSelection : Bytes → List Upstream → List Upstream → Type 0
IsSelection qname us picked =
    ((best : Bytes) × (All (λ u. Serves qname u → length u.domain ≤ length best) us)
      × Filters (λ u. Serves qname u × (u.domain ≡ best)) us picked
      × (picked ≢ []))
    ⊎ (All (λ u. ¬ Serves qname u) us
        × Filters (λ u. (u.enabled ≡ true) × (u.domain ≡ [])) us picked)

selection :
    (qname best : Bytes) (us matched : List Upstream)
    → IsScan qname best matched us
    → IsSelection qname us (or_defaults us matched)
selection qname best us [] s =
    inr (unmatched-Serves qname us (s.unmatched refl).1, default_upstreams-Filters us)
selection qname best us (u ∷ matched) s = inl (
  best,
  longest-Serves qname best us s.longest,
  subst (Filters (λ v. Serves qname v × (v.domain ≡ best)) us) (sym s.same)
      (selected-Filters qname best us),
  λ none. cc none,
)

-- For every configuration and name, the upstreams that a query goes to are exactly the enabled ones of the
-- longest domain that the normalized name is equal to or below, in the order of the configuration; when
-- no enabled upstream has such a domain, they are exactly the enabled ones without a domain.
pub upstreams_for_name-IsSelection :
    (c : Configuration) (qname : Bytes)
    → IsSelection (normalize_domain qname) c.upstreams (upstreams_for_name c qname)
unfolding upstreams_for_name
upstreams_for_name-IsSelection c qname = selection (normalize_domain qname) _ c.upstreams _ (
    scan (normalize_domain qname) c.upstreams [] ([], [])
      (record { longest = tt; same = unfold selected in refl; unmatched = λ none. (refl, tt) }))
