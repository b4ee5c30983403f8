-- ===== src/Doh/Config/Valid.antt =====
-- What a validated configuration is.
use sakullla_plugins.Base.{
  ℕ, ◌+◌, ◌==◌, ltb, leb, not, true, ◌&&◌, ◌⊎◌, ◌≤◌, Bool, false, ◌||◌, List, [], ◌∷◌, ◌≡◌, ◌≢◌, ap,
  arith, All, Bool-cases, inl, inr, length, Bytes, bytes_eq, bytes_eq_refl, ok,
}
use sakullla_plugins.Doh.Wire.{max_dns_response_bytes}
use sakullla_plugins.Doh.Config.{
  ℤ, pos, negsuc, ref_start, ref_rest, all_bytes, opaque_ref, out_of_priority, Upstream,
  Configuration, bad_upstream, seen_id, validate_upstreams, bad_numbers, validate,
}

-- An upstream that is well formed and has none of the identifiers given.
abbrev IsNew : List Bytes → Upstream → Type 0
IsNew seen u = (bad_upstream u ≡ false) × (seen_id u.id seen ≡ false)

-- No two upstreams have the same identifier.
abbrev pub HasDistinctIds : List Upstream → Type 0
HasDistinctIds [] = Unit
HasDistinctIds (u ∷ us) = All (λ (v : Upstream). v.id ≢ u.id) us × HasDistinctIds us

-- The bytes of an identifier: lower case letters and digits, and behind the first also `.`, `_`, `:`, `/`
-- and `-`.
abbrev pub IsLetterOrDigit : ℕ → Type 0
IsLetterOrDigit b = ((97 ≤ b) × (b ≤ 122)) ⊎ ((48 ≤ b) × (b ≤ 57))

abbrev pub IsRefByte : ℕ → Type 0
IsRefByte b = IsLetterOrDigit b ⊎ ((b ≡ 46) ⊎ ((b ≡ 95) ⊎ ((b ≡ 58) ⊎ ((b ≡ 47) ⊎ (b ≡ 45)))))

abbrev pub IsRef : Bytes → Type 0
IsRef [] = ⊥
IsRef (b ∷ bs) = IsLetterOrDigit b × All IsRefByte bs × (length bs ≤ 127)

-- From -1000 to 1000; `negsuc n` is -1 - n.
abbrev pub IsPriority : ℤ → Type 0
IsPriority (pos n) = n ≤ 1000
IsPriority (negsuc n) = n + 1 ≤ 1000

pub record IsWellFormed (u : Upstream) : Type 0 where
  pub id : IsRef u.id
  pub endpoint : (1 ≤ length u.endpoint) × (length u.endpoint ≤ 512)
  pub domain : length u.domain ≤ 253
  pub priority : IsPriority u.priority

all_bytes-IsRefByte : (bs : Bytes) → all_bytes ref_rest bs ≡ true → All IsRefByte bs
unfolding all_bytes
all_bytes-IsRefByte [] h = tt
all_bytes-IsRefByte (b ∷ bs) h = (
  ref_rest-IsRefByte b (both (ref_rest b) _ h).0,
  all_bytes-IsRefByte bs (both (ref_rest b) _ h).1,
)
  where
    both : (a d : Bool) → (a && d) ≡ true → (a ≡ true) × (d ≡ true)
    both a d e = ground (arith, e)

    ref_rest-IsRefByte : (b : ℕ) → ref_rest b ≡ true → IsRefByte b
    ref_rest-IsRefByte b e = ground (arith, e)

opaque_ref-IsRef : (id : Bytes) → opaque_ref id ≡ true → IsRef id
unfolding opaque_ref
opaque_ref-IsRef [] h = cc h
opaque_ref-IsRef (b ∷ bs) h =
    let (first, rest, few) = parts (ref_start b) (all_bytes ref_rest bs) (leb (length bs) 127) h in
    (ground (arith, first), all_bytes-IsRefByte bs rest, ground (arith, few))
  where
    parts : (a d e : Bool) → (a && (d && e)) ≡ true → (a ≡ true) × (d ≡ true) × (e ≡ true)
    parts a d e h = ground (arith, h)

out_of_priority-IsPriority : (p : ℤ) → out_of_priority p ≡ false → IsPriority p
out_of_priority-IsPriority (pos n) h = ground (arith, h)
out_of_priority-IsPriority (negsuc n) h = ground (arith, h)

bad_upstream-IsWellFormed : (u : Upstream) → bad_upstream u ≡ false → IsWellFormed u
bad_upstream-IsWellFormed u h =
    let (named, some_endpoint, short, domain_fits, in_range) =
      parts (opaque_ref u.id) (length u.endpoint == 0) (ltb 512 (length u.endpoint))
        (ltb 253 (length u.domain)) (out_of_priority u.priority) h in
    record {
      id = opaque_ref-IsRef u.id named;
      endpoint = (ground (arith, some_endpoint), ground (arith, short));
      domain = ground (arith, domain_fits);
      priority = out_of_priority-IsPriority u.priority in_range;
    }
  where
    parts :
        (a b c d e : Bool)
        → (not a || (b || (c || (d || e)))) ≡ false
        → (a ≡ true) × (b ≡ false) × (c ≡ false) × (d ≡ false) × (e ≡ false)
    parts a b c d e h = ground (arith, h)

pub record IsValid (c : Configuration) : Type 0 where
  pub request_timeout : (1 ≤ c.request_timeout_ms) × (c.request_timeout_ms ≤ 10000)
  pub upstream_timeout :
      (1 ≤ c.upstream_timeout_ms) × (c.upstream_timeout_ms ≤ c.request_timeout_ms)
  pub concurrency : (1 ≤ c.max_concurrency) × (c.max_concurrency ≤ 256)
  pub entries : (1 ≤ c.cache_entries) × (c.cache_entries ≤ 4096)
  pub bytes : (max_dns_response_bytes ≤ c.cache_bytes) × (c.cache_bytes ≤ 67108864)
  pub ttl : (c.min_ttl_seconds ≤ c.max_ttl_seconds) × (c.max_ttl_seconds ≤ 86400)
  pub few : length c.upstreams ≤ 32
  pub good : All IsWellFormed c.upstreams
  pub distinct : HasDistinctIds c.upstreams

All-first :
    (P Q : Upstream → Type 0) (us : List Upstream)
    → ((u : Upstream) → P u → Q u)
    → All P us
    → All Q us
All-first P Q [] f all = tt
All-first P Q (u ∷ us) f (p, all) = (f u p, All-first P Q us f all)

unseen :
    (id other : Bytes) (seen : List Bytes)
    → seen_id id (other ∷ seen) ≡ false
    → (id ≢ other) × (seen_id id seen ≡ false)
unseen id other seen h = (
  (λ same. cc (
    bytes_eq_refl other,
    ap (bytes_eq other) same,
    or_first (bytes_eq other id) (seen_id id seen) h,
  )),
  or_second (bytes_eq other id) (seen_id id seen) h,
)
  where
    or_first : (a b : Bool) → (a || b) ≡ false → a ≡ false
    or_first a b e = ground (arith, e)

    or_second : (a b : Bool) → (a || b) ≡ false → b ≡ false
    or_second a b e = ground (arith, e)

validate_upstreams-IsNew :
    (seen : List Bytes) (us : List Upstream)
    → validate_upstreams seen us ≡ ok tt
    → All (IsNew seen) us × HasDistinctIds us
unfolding validate_upstreams
validate_upstreams-IsNew seen [] h = (tt, tt)
validate_upstreams-IsNew seen (u ∷ us) h = elim (Bool-cases (bad_upstream u || seen_id u.id seen)) [
  | inl bad ↦ cc (rw bad at h)
  | inr fine ↦
      let (rest, distinct) = validate_upstreams-IsNew (u.id ∷ seen) us (rw fine at h) in
      (
        (
          first (bad_upstream u) (seen_id u.id seen) fine,
          All-first (IsNew (u.id ∷ seen)) (IsNew seen) us
              (λ v (good, new). (good, (unseen v.id u.id seen new).1)) rest,
        ),
        (
          All-first (IsNew (u.id ∷ seen)) (λ v. v.id ≢ u.id) us
              (λ v (good, new). (unseen v.id u.id seen new).0) rest,
          distinct,
        ),
      )
]
  where
    first : (a b : Bool) → (a || b) ≡ false → (a ≡ false) × (b ≡ false)
    first a b e = ground (arith, e)

validate_numbers :
    (c : Configuration)
    → validate c ≡ ok tt
    → (bad_numbers c ≡ false) × (validate_upstreams [] c.upstreams ≡ ok tt)
unfolding validate
validate_numbers c h = elim (Bool-cases (bad_numbers c)) [
  | inl bad ↦ cc (rw bad at h)
  | inr fine ↦ (fine, rw fine at h)
]

-- A configuration that validation accepts is valid.
pub validate-IsValid : (c : Configuration) → validate c ≡ ok tt → IsValid c
validate-IsValid c h =
    let (numbers, upstreams) = validate_numbers c h in
    let (fresh_ids, distinct) = validate_upstreams-IsNew [] c.upstreams upstreams in
    record {
      request_timeout = ground (arith, numbers);
      upstream_timeout = ground (arith, numbers);
      concurrency = ground (arith, numbers);
      entries = ground (arith, numbers);
      bytes = ground (arith, numbers);
      ttl = ground (arith, numbers);
      few = ground (arith, numbers);
      good =
          All-first (IsNew []) IsWellFormed c.upstreams (λ u n. bad_upstream-IsWellFormed u n.0)
            fresh_ids;
      distinct = distinct;
    }
