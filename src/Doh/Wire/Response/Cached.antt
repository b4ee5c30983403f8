-- ===== src/Doh/Wire/Response/Cached.antt =====
-- What a validated response becomes in the cache, and what a later query with another identifier gets.
use sakullla_plugins.Base.{
  ℕ, ◌+◌, ◌*◌, ◌/◌, ◌%◌, ◌≤◌, ◌<◌, false, not, ◌||◌, [], ◌∷◌, ◌≡◌, refl, sym, ap, ◌∙◌, inl, inr,
  arith, map, Bool-cases, All, ltb, ◌==◌, length, length-write16, set, drop-set, Bytes, value16,
  write16, ok, >>=-eq-ok, with_error, uint16,
}
use sakullla_plugins.Doh.Wire.{invalid_dns_message, max_dns_response_bytes}
use sakullla_plugins.Doh.Wire.Name.{to_lower, parse_question_name}
use sakullla_plugins.Doh.Wire.Name.Canonical.{parse_question_name-canonical}
use sakullla_plugins.Doh.Wire.Name.Fold.{Folds, parse_question_name-fold}
use sakullla_plugins.Doh.Wire.Query.{ParsedQuery, clear_id}
use sakullla_plugins.Doh.Wire.Query.Parts.{with_error-ok}
use sakullla_plugins.Doh.Wire.Response.{
  ResponseMetadata, bad_response_flags, check_response_header, check_response_question,
  check_records, validate_dns_response, response_with_id,
}
use sakullla_plugins.Doh.Wire.Response.Safe.{check_response_header_long}
use sakullla_plugins.Doh.Wire.Response.Agree.{
  Agree, byte_at-agree, slice-agree, drop-agree, check_records-agree,
}

Agree-fold : (w v : Bytes) → Agree w v → Folds w v 12
Agree-fold w v a = record {
  same_length = a.same_length;
  same_lower = ap (λ t. map to_lower t) (drop-agree w v a 12 (omega arith));
}

-- What the header of an accepted response says.
abbrev IsHeader : ParsedQuery → Bytes → ℕ → Type 0
IsHeader q w flags =
    (length w ≤ max_dns_response_bytes)
    × (17 ≤ length w)
    × (value16 w 0 ≡ q.id)
    × (flags ≡ value16 w 2)
    × ((bad_response_flags (value16 w 2) || not (value16 w 4 == 1)) ≡ false)

check_response_header-IsHeader :
    (q : ParsedQuery) (w : Bytes) (flags : ℕ)
    → check_response_header q w ≡ ok flags
    → IsHeader q w flags
unfolding check_response_header uint16
check_response_header-IsHeader q w flags h = ground (arith, h)

IsHeader-header :
    (q : ParsedQuery) (w : Bytes) (flags : ℕ)
    → IsHeader q w flags
    → check_response_header q w ≡ ok flags
unfolding check_response_header uint16
IsHeader-header q w flags (short, long, named, is, good) =
    ground (arith, short, long, named, is, good)

header-Agree :
    (q r : ParsedQuery) (w v : Bytes) (flags : ℕ)
    → Agree w v
    → value16 v 0 ≡ r.id
    → check_response_header q w ≡ ok flags
    → check_response_header r v ≡ ok flags
header-Agree q r w v flags a same h =
    let (short, long, _, is, good) = check_response_header-IsHeader q w flags h in
    let two : value16 w 2 ≡ value16 v 2 =
      cc (byte_at-agree w v a 2 (omega arith), byte_at-agree w v a 3 (omega arith)) in
    let four : value16 w 4 ≡ value16 v 4 =
      cc (byte_at-agree w v a 4 (omega arith), byte_at-agree w v a 5 (omega arith)) in
    IsHeader-header r v flags (
      omega (arith, short, a.same_length),
      omega (arith, long, a.same_length),
      same,
      is ∙ two,
      sym (ap (λ n. bad_response_flags n || not (value16 v 4 == 1)) two)
          ∙ sym (ap (λ n. bad_response_flags (value16 w 2) || not (n == 1)) four)
          ∙ good,
    )

question-Agree :
    (q r : ParsedQuery) (w v : Bytes) (e : ℕ) (n : Bytes)
    → Agree w v
    → r.question ≡ q.question
    → 2 ≤ e
    → check_response_question r v e n ≡ check_response_question q w e n
unfolding check_response_question
question-Agree q r w v e n a same h = rw (same, a.same_length, slice-agree w v a e (e + 4) h) refl

clear_id-Agree : (w v : Bytes) → Agree w v → 17 ≤ length w → clear_id v ≡ clear_id w
unfolding clear_id
clear_id-Agree [] v a h = absurd (omega (arith, h))
clear_id-Agree (b ∷ []) v a h = absurd (omega (arith, h))
clear_id-Agree (b ∷ c ∷ w) [] a h = absurd (omega (arith, h, a.same_length))
clear_id-Agree (b ∷ c ∷ w) (d ∷ []) a h = absurd (omega (arith, h, a.same_length))
clear_id-Agree (b ∷ c ∷ w) (d ∷ e ∷ v) a h = rw a.same_length (rw a.same_tail refl)

-- A response that is valid for one query, with its identifier replaced by that of a query with the same
-- question, is valid for that query, with the same metadata and the same bytes for the cache.
validate-Agree :
    (q r : ParsedQuery) (w v : Bytes) (m : ResponseMetadata) (n : Bytes)
    → Agree w v
    → value16 v 0 ≡ r.id
    → r.question ≡ q.question
    → validate_dns_response q w ≡ ok (m, n)
    → validate_dns_response r v ≡ ok (m, n)
unfolding validate_dns_response
validate-Agree q r w v m n a same asked h =
    let (flags, headed, h1) = >>=-eq-ok (check_response_header q w) _ h in
    let long = check_response_header_long q w flags headed in
    let ((e, name), parsed, h2) =
      >>=-eq-ok (with_error invalid_dns_message (parse_question_name w 12)) _ h1 in
    let behind = (parse_question_name-canonical w 12 e name (with_error-ok _ parsed)).0 in
    rw
      (
        header-Agree q r w v flags a same headed,
        sym (parse_question_name-fold w v 12 (Agree-fold w v a)),
        parsed,
        question-Agree q r w v e name a asked (omega (arith, behind)),
        sym (check_records-agree w v a flags (e + 4) (omega (arith, behind))),
        clear_id-Agree w v a long,
      )
      h2

cleared : (w n : Bytes) → clear_id w ≡ ok n → n ≡ set (set w 0 0) 1 0
unfolding clear_id
cleared w n h = elim (Bool-cases (ltb 1 (length w))) [
  | inl long ↦ cc (rw long at h)
  | inr short ↦ cc (rw short at h)
]

validated_parts :
    (q : ParsedQuery) (w : Bytes) (m : ResponseMetadata) (n : Bytes)
    → validate_dns_response q w ≡ ok (m, n)
    → (value16 w 0 ≡ q.id) × (17 ≤ length w) × (n ≡ set (set w 0 0) 1 0)
unfolding validate_dns_response
validated_parts q w m n h =
    let (flags, headed, h1) = >>=-eq-ok (check_response_header q w) _ h in
    let ((e, name), _, h2) =
      >>=-eq-ok (with_error invalid_dns_message (parse_question_name w 12)) _ h1 in
    let (_, _, h3) = >>=-eq-ok (check_response_question q w e name) _ h2 in
    let (_, _, h4) = >>=-eq-ok (check_records w flags (e + 4)) _ h3 in
    let (_, emptied, h5) = >>=-eq-ok (clear_id w) _ h4 in
    let (_, long, named, _, _) = check_response_header-IsHeader q w flags headed in
    (named, long, sym (cc h5) ∙ cleared w _ emptied)

with_id :
    (w : Bytes) (id : ℕ)
    → 17 ≤ length w
    → response_with_id (set (set w 0 0) 1 0) id ≡ write16 w 0 id
unfolding response_with_id
with_id [] id h = absurd (omega (arith, h))
with_id (b ∷ []) id h = absurd (omega (arith, h))
with_id (b ∷ c ∷ w) id h = ground arith

write16-Agree : (w : Bytes) (id : ℕ) → Agree w (write16 w 0 id)
write16-Agree w id = record {
  same_length = sym (length-write16 w 0 id);
  same_tail = sym (
      drop-set (set w 0 (id / 256 % 256)) 2 1 (id % 256) (omega arith)
      ∙ drop-set w 2 0 (id / 256 % 256) (omega arith));
}

value16-write16 :
    (w : Bytes) (id : ℕ) → 17 ≤ length w → id < 65536 → value16 (write16 w 0 id) 0 ≡ id
value16-write16 [] id h small = absurd (omega (arith, h))
value16-write16 (b ∷ []) id h small = absurd (omega (arith, h))
value16-write16 (b ∷ c ∷ w) id h small = omega (arith, small)

write16-same : (w : Bytes) → 17 ≤ length w → All (λ b. b < 256) w → write16 w 0 (value16 w 0) ≡ w
write16-same [] h bytes = absurd (omega (arith, h))
write16-same (b ∷ []) h bytes = absurd (omega (arith, h))
write16-same (b ∷ c ∷ w) h (small_b, (small_c, rest)) =
    let first : (b * 256 + c) / 256 % 256 ≡ b = omega (arith, small_b, small_c) in
    let second : (b * 256 + c) % 256 ≡ c = omega (arith, small_b, small_c) in cc (first, second)

-- A response that is valid for one query is stored without its identifier. For every later query with
-- the same question, the stored bytes with that query's identifier are valid again, with the same
-- metadata.
pub stored_response-valid :
    (q r : ParsedQuery) (w : Bytes) (m : ResponseMetadata) (n : Bytes)
    → validate_dns_response q w ≡ ok (m, n)
    → r.question ≡ q.question
    → r.id < 65536
    → validate_dns_response r (response_with_id n r.id) ≡ ok (m, n)
stored_response-valid q r w m n h asked small =
    let (named, long, is) = validated_parts q w m n h in
    let written : response_with_id n r.id ≡ write16 w 0 r.id =
      ap (λ t. response_with_id t r.id) is ∙ with_id w r.id long in
    ap (validate_dns_response r) written
    ∙ validate-Agree q r w (write16 w 0 r.id) m n (write16-Agree w r.id)
        (value16-write16 w r.id long small) asked h

-- A valid response of bytes is what the client gets: clearing the identifier and writing the query's
-- gives it back.
pub response_with_id-validated :
    (q : ParsedQuery) (w : Bytes) (m : ResponseMetadata) (n : Bytes)
    → All (λ b. b < 256) w
    → validate_dns_response q w ≡ ok (m, n)
    → response_with_id n q.id ≡ w
response_with_id-validated q w m n bytes h =
    let (named, long, is) = validated_parts q w m n h in
    ap (λ t. response_with_id t q.id) is
    ∙ with_id w q.id long
    ∙ ap (write16 w 0) (sym named)
    ∙ write16-same w long bytes
