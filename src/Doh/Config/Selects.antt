-- ===== src/Doh/Config/Selects.antt =====
-- Which upstreams answer for a name: those of the longest matching domain, or the ones without a domain.
use sakullla_plugins.Base.{
  is_empty, ◌≤◌, ◌<◌, Bool, true, false, not, ◌&&◌, List, [], ◌∷◌, ◌++◌, ◌≡◌, ◌≢◌, inl, inr, refl,
  sym, ap, subst, ◌∙◌, arith, All, Bool-cases, if-elim, ltb, if◌then◌else◌, length, Bytes, bytes_eq,
  bytes_eq_iff, bytes_eq_refl,
}
use sakullla_plugins.Doh.Config.{
  Upstream, domain_matches, is_match, match_upstream, matched_upstreams,
}

-- The upstreams of a list that match a name with one domain, in order.
unfoldable pub selected : Bytes → Bytes → List Upstream → List Upstream
selected qname best [] = []
selected qname best (u ∷ us) =
    let rest = selected qname best us in
    if is_match qname u && bytes_eq u.domain best then u ∷ rest else rest

-- No upstream matches with a domain longer than this one.
abbrev pub IsLongest : Bytes → Bytes → List Upstream → Type 0
IsLongest qname best us = All (λ u. is_match qname u ≡ true → length u.domain ≤ length best) us

abbrev pub IsUnmatched : Bytes → List Upstream → Type 0
IsUnmatched qname us = All (λ u. is_match qname u ≡ false) us

-- What the loop knows of the upstreams behind it.
pub record IsScan (qname best : Bytes) (matched past : List Upstream) : Type 0 where
  pub longest : IsLongest qname best past
  pub same : matched ≡ selected qname best past
  pub unmatched : matched ≡ [] → (length best ≡ 0) × IsUnmatched qname past

All-snoc :
    {A : Type 0} (P : A → Type 0) (xs : List A) (x : A) → All P xs → P x → All P (xs ++ (x ∷ []))
All-snoc P [] x all p = (p, tt)
All-snoc P (y ∷ xs) x (first, all) p = (first, All-snoc P xs x all p)

All-map :
    {A : Type 0} (P Q : A → Type 0) (xs : List A) → ((x : A) → P x → Q x) → All P xs → All Q xs
All-map P Q [] f all = tt
All-map P Q (x ∷ xs) f (first, all) = (f x first, All-map P Q xs f all)

snoc-filled : {A : Type 0} (xs : List A) (x : A) → xs ++ (x ∷ []) ≢ []
snoc-filled [] x h = cc
snoc-filled (y ∷ xs) x h = cc

bytes_eq-longer : (a b : Bytes) → length a < length b → bytes_eq a b ≡ false
bytes_eq-longer a b h = elim (Bool-cases (bytes_eq a b)) [
  | inl e ↦ absurd (omega (arith, h, ap (λ t. length t) ((bytes_eq_iff a b).0 e)))
  | inr e ↦ e
]

and_false : (a b : Bool) → b ≡ false → (a && b) ≡ false
and_false a b h = ground (arith, h)

and_true : (a b : Bool) → a ≡ true → b ≡ true → (a && b) ≡ true
and_true a b g h = ground (arith, g, h)

module _ (qname best : Bytes) where
  selected-picks :
      (us : List Upstream) (u : Upstream)
      → (is_match qname u && bytes_eq u.domain best) ≡ true
      → selected qname best (us ++ (u ∷ [])) ≡ selected qname best us ++ (u ∷ [])
  unfolding selected
  selected-picks [] u h = simp h
  selected-picks (v ∷ us) u h = ground (arith, selected-picks us u h)

  selected-drops :
      (us : List Upstream) (u : Upstream)
      → (is_match qname u && bytes_eq u.domain best) ≡ false
      → selected qname best (us ++ (u ∷ [])) ≡ selected qname best us
  unfolding selected
  selected-drops [] u h = simp h
  selected-drops (v ∷ us) u h = ground (arith, selected-drops us u h)

  -- A domain longer than the longest selects nothing.
  selected-longer :
      (longer : Bytes) (us : List Upstream)
      → IsLongest qname best us
      → length best < length longer
      → selected qname longer us ≡ []
  unfolding selected
  selected-longer longer [] all h = refl
  selected-longer longer (u ∷ us) (first, all) h =
      if-elim (λ (r : List Upstream). r ≡ []) (is_match qname u && bytes_eq u.domain longer)
        (λ both. elim (Bool-cases (is_match qname u)) [
          | inl is ↦ cc (
            both,
            and_false (is_match qname u) _
                (bytes_eq-longer u.domain longer (omega (arith, first is, h))),
          )
          | inr off ↦ ground (arith, both, off)
        ])
        (λ _. selected-longer longer us all h)

module _ (qname : Bytes) where
  skip-IsScan :
      (best : Bytes) (matched past : List Upstream) (u : Upstream)
      → IsScan qname best matched past
      → is_match qname u ≡ false
      → IsScan qname best matched (past ++ (u ∷ []))
  skip-IsScan best matched past u s off = record {
    longest = All-snoc _ past u s.longest (λ on. cc (on, off));
    same = s.same ∙ sym (selected-drops qname best past u (ground (arith, off)));
    unmatched = λ none. ((s.unmatched none).0, All-snoc _ past u (s.unmatched none).1 off);
  }

  -- A longer domain starts again.
  longer-IsScan :
      (best : Bytes) (matched past : List Upstream) (u : Upstream)
      → IsScan qname best matched past
      → is_match qname u ≡ true
      → length best < length u.domain
      → IsScan qname u.domain (u ∷ []) (past ++ (u ∷ []))
  longer-IsScan best matched past u s on h = record {
    longest =
        All-snoc _ past u (All-map _ _ past (λ v le is. omega (arith, le is, h)) s.longest)
          (λ _. omega arith);
    same = sym (
        selected-picks qname u.domain past u (and_true _ _ on (bytes_eq_refl u.domain))
        ∙ ap (λ r. r ++ (u ∷ [])) (selected-longer qname best u.domain past s.longest h));
    unmatched = λ none. cc none;
  }

  same-IsScan :
      (best : Bytes) (matched past : List Upstream) (u : Upstream)
      → IsScan qname best matched past
      → is_match qname u ≡ true
      → length u.domain ≤ length best
      → bytes_eq u.domain best ≡ true
      → IsScan qname best (matched ++ (u ∷ [])) (past ++ (u ∷ []))
  same-IsScan best matched past u s on h eq = record {
    longest = All-snoc _ past u s.longest (λ _. h);
    same =
        ap (λ r. r ++ (u ∷ [])) s.same
        ∙ sym (selected-picks qname best past u (and_true _ _ on eq));
    unmatched = λ none. absurd (snoc-filled matched u none);
  }

  -- A domain that is as long as the best one and another one is passed over; there is a best one then.
  other-IsScan :
      (best : Bytes) (matched past : List Upstream) (u : Upstream)
      → IsScan qname best matched past
      → is_match qname u ≡ true
      → length u.domain ≤ length best
      → bytes_eq u.domain best ≡ false
      → IsScan qname best matched (past ++ (u ∷ []))
  other-IsScan best matched past u s on h eq = record {
    longest = All-snoc _ past u s.longest (λ _. h);
    same = s.same ∙ sym (selected-drops qname best past u (and_false _ _ eq));
    unmatched = λ none. absurd (no_domain u.domain (omega (arith, h, (s.unmatched none).0)) on);
  }
    where
      no_domain :
          (d : Bytes)
          → length d ≡ 0
          → (u.enabled && (not (is_empty d) && domain_matches qname d)) ≡ true
          → ⊥
      no_domain [] z is = ground (arith, is)
      no_domain (b ∷ d) z is = omega (arith, z)

  match-IsScan :
      (best : Bytes) (matched past : List Upstream) (u : Upstream)
      → IsScan qname best matched past
      → is_match qname u ≡ true
      → IsScan qname
          (match_upstream u (best, matched)).0
          (match_upstream u (best, matched)).1
          (past ++ (u ∷ []))
  unfolding match_upstream
  match-IsScan best matched past u s on = elim (Bool-cases (ltb (length best) (length u.domain))) [
    | inl longer ↦
        simp (longer, bytes_eq_refl u.domain)
          (longer-IsScan best matched past u s on (ground (arith, longer)))
    | inr short ↦ elim (Bool-cases (bytes_eq u.domain best)) [
      | inl eq ↦ simp (short, eq) (same-IsScan best matched past u s on (ground (arith, short)) eq)
      | inr eq ↦ simp (short, eq) (other-IsScan best matched past u s on (ground (arith, short)) eq)
    ]
  ]

  snoc-next :
      (past : List Upstream) (u : Upstream) (us : List Upstream)
      → (past ++ (u ∷ [])) ++ us ≡ past ++ (u ∷ us)
  snoc-next [] u us = refl
  snoc-next (v ∷ past) u us = ap (λ r. v ∷ r) (snoc-next past u us)

  pub scan :
      (us past : List Upstream) (state : Bytes × List Upstream)
      → IsScan qname state.0 state.1 past
      → IsScan qname
          (matched_upstreams qname us state).0
          (matched_upstreams qname us state).1
          (past ++ us)
  unfolding matched_upstreams
  scan [] past state s = subst (IsScan qname state.0 state.1) (sym (ends_nil past)) s
    where
      ends_nil : (vs : List Upstream) → vs ++ [] ≡ vs
      ends_nil [] = refl
      ends_nil (v ∷ vs) = ap (λ r. v ∷ r) (ends_nil vs)
  scan (u ∷ us) past (best, matched) s = subst (IsScan qname _ _) (snoc-next past u us) (
      scan us (past ++ (u ∷ [])) _ (
        if-elim (λ (r : Bytes × List Upstream). IsScan qname r.0 r.1 (past ++ (u ∷ [])))
          (is_match qname u) (match-IsScan best matched past u s)
          (skip-IsScan best matched past u s)))
