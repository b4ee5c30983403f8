-- ===== src/Doh/Config/Accepts.antt =====
-- Validation accepts every valid configuration.
use sakullla_plugins.Base.{
  ℕ, ◌==◌, ltb, not, true, ◌&&◌, Bool, false, ◌||◌, List, [], ◌∷◌, ◌≡◌, ◌≢◌, arith, All, length,
  Bytes, bytes_eq_iff, ok, ◌↔◌, refl, sym,
}
use sakullla_plugins.Doh.Config.{
  ℤ, pos, negsuc, ref_start, ref_rest, all_bytes, opaque_ref, out_of_priority, Upstream,
  Configuration, bad_upstream, seen_id, validate_upstreams, bad_numbers, validate,
}
use sakullla_plugins.Doh.Config.Valid.{
  IsLetterOrDigit, IsRefByte, IsRef, IsPriority, IsWellFormed, HasDistinctIds, IsValid,
  validate-IsValid,
}

IsLetterOrDigit-ref_start : (b : ℕ) → IsLetterOrDigit b → ref_start b ≡ true
IsLetterOrDigit-ref_start b h = ground (arith, h)

IsRefByte-ref_rest : (b : ℕ) → IsRefByte b → ref_rest b ≡ true
IsRefByte-ref_rest b h = ground (arith, h)

all_bytes-ref_rest : (bs : Bytes) → All IsRefByte bs → all_bytes ref_rest bs ≡ true
unfolding all_bytes
all_bytes-ref_rest [] h = refl
all_bytes-ref_rest (b ∷ bs) (first, rest) =
    both _ _ (IsRefByte-ref_rest b first) (all_bytes-ref_rest bs rest)
  where
    both : (x y : Bool) → x ≡ true → y ≡ true → (x && y) ≡ true
    both x y g h = ground (arith, g, h)

IsRef-opaque_ref : (id : Bytes) → IsRef id → opaque_ref id ≡ true
unfolding opaque_ref
IsRef-opaque_ref [] h = elim h [ ]
IsRef-opaque_ref (b ∷ bs) (first, rest, few) =
    all_three _ _ _ (IsLetterOrDigit-ref_start b first) (all_bytes-ref_rest bs rest)
      (ground (arith, few))
  where
    all_three : (x y z : Bool) → x ≡ true → y ≡ true → z ≡ true → (x && (y && z)) ≡ true
    all_three x y z g h k = ground (arith, g, h, k)

IsPriority-out_of_priority : (p : ℤ) → IsPriority p → out_of_priority p ≡ false
IsPriority-out_of_priority (pos n) h = ground (arith, h)
IsPriority-out_of_priority (negsuc n) h = ground (arith, h)

IsWellFormed-bad_upstream : (u : Upstream) → IsWellFormed u → bad_upstream u ≡ false
IsWellFormed-bad_upstream u w =
    none_bad (opaque_ref u.id) (length u.endpoint == 0) (ltb 512 (length u.endpoint))
      (ltb 253 (length u.domain)) (out_of_priority u.priority) (IsRef-opaque_ref u.id w.id)
      (ground (arith, w.endpoint)) (ground (arith, w.endpoint)) (ground (arith, w.domain))
      (IsPriority-out_of_priority u.priority w.priority)
  where
    none_bad :
        (a b c d e : Bool)
        → a ≡ true
        → b ≡ false
        → c ≡ false
        → d ≡ false
        → e ≡ false
        → (not a || (b || (c || (d || e)))) ≡ false
    none_bad a b c d e g h i j k = ground (arith, g, h, i, j, k)

-- The identifiers seen so far, with one more.
still_unseen :
    (id : Bytes) (seen : List Bytes) (us : List Upstream)
    → All (λ (v : Upstream). v.id ≢ id) us
    → All (λ (v : Upstream). seen_id v.id seen ≡ false) us
    → All (λ (v : Upstream). seen_id v.id (id ∷ seen) ≡ false) us
still_unseen id seen [] others before = tt
still_unseen id seen (v ∷ us) (other, others) (unseen, before) = (
  neither _ _ (λ same. other (sym ((bytes_eq_iff id v.id).0 same))) unseen,
  still_unseen id seen us others before,
)
  where
    neither : (x y : Bool) → x ≢ true → y ≡ false → (x || y) ≡ false
    neither x y g h = ground (arith, g, h)

validate_upstreams-accepts :
    (seen : List Bytes) (us : List Upstream)
    → All IsWellFormed us
    → HasDistinctIds us
    → All (λ (v : Upstream). seen_id v.id seen ≡ false) us
    → validate_upstreams seen us ≡ ok tt
unfolding validate_upstreams
validate_upstreams-accepts seen [] good distinct before = refl
validate_upstreams-accepts seen (u ∷ us) (good, rest) (other, distinct) (unseen, before) =
    rw (IsWellFormed-bad_upstream u good, unseen)
      (validate_upstreams-accepts (u.id ∷ seen) us rest distinct
        (still_unseen u.id seen us other before))

none_seen : (us : List Upstream) → All (λ (v : Upstream). seen_id v.id [] ≡ false) us
none_seen [] = tt
none_seen (u ∷ us) = (refl, none_seen us)

IsValid-bad_numbers : (c : Configuration) → IsValid c → bad_numbers c ≡ false
IsValid-bad_numbers c v =
    ground (
      arith, v.request_timeout, v.upstream_timeout, v.concurrency, v.entries, v.bytes, v.ttl, v.few,
    )

IsValid-validate : (c : Configuration) → IsValid c → validate c ≡ ok tt
unfolding validate
IsValid-validate c v =
    rw (IsValid-bad_numbers c v)
      (validate_upstreams-accepts [] c.upstreams v.good v.distinct (none_seen c.upstreams))

-- Validation accepts a configuration exactly when its limits are in the documented ranges, it has at most
-- 32 upstreams and no two of them with one identifier, and every upstream has an identifier of 1 to
-- 128 bytes in the documented alphabet, an endpoint of 1 to 512 bytes, a domain of at most 253, and a
-- priority from -1000 to 1000.
pub validate_iff_IsValid : (c : Configuration) → (validate c ≡ ok tt) ↔ IsValid c
validate_iff_IsValid c = (validate-IsValid c, IsValid-validate c)
