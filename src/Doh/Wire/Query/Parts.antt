-- ===== src/Doh/Wire/Query/Parts.antt =====
-- The parts of an accepted query, and that parsing never panics.
use sakullla_plugins.Base.{
  ℕ, ◌+◌, ◌-◌, ◌≤◌, Bool, ◌++◌, map, ◌≡◌, ◌≢◌, refl, ap, ◌∙◌, arith, ltb, if◌then◌else◌, length,
  take, drop, set, segment, value16, Bytes, ok, err, panic, ◌>>=◌, ◌>>◌, >>=-safe, >>=-eq-ok,
  with_error, slice_in_range, take_all, drop-set, uint16, length-map, length-set, length-segment,
  length-append, length-take, length-drop,
}
use sakullla_plugins.Doh.Wire.{DohError, Parsed, invalid_dns_message}
use sakullla_plugins.Doh.Wire.Name.{to_lower, parse_question_name}
use sakullla_plugins.Doh.Wire.Name.Canonical.{
  parse_question_name-safe, parse_question_name-canonical,
}
use sakullla_plugins.Doh.Wire.Edns.Safe.{
  with_error-safe, validate_edns_query-safe, edns_has_option-safe,
}
use sakullla_plugins.Doh.Wire.Query.{
  ParsedQuery, hex_encode, clear_id, copy_into, check_header, check_question, query_has_ecs,
  build_query, parse_dns_query,
}

-- What a query becomes: the identifier is cleared and the name is in lower case.
abbrev pub normal_form : Bytes → ℕ → Bytes
normal_form wire question_end =
    take 12 (set (set wire 0 0) 1 0)
    ++ (map to_lower (segment wire 12 question_end) ++ drop question_end wire)

pub with_error-ok :
    {A : Type 0} {a : A} (m : Parsed A) → with_error invalid_dns_message m ≡ ok a → m ≡ ok a
with_error-ok (ok a) h = h
with_error-ok (err e) h = cc
with_error-ok panic h = cc

check_header-safe : (wire : Bytes) → check_header wire ≢ panic
unfolding check_header uint16
check_header-safe wire = ground arith

check_header_long : (wire : Bytes) (n : ℕ) → check_header wire ≡ ok n → 17 ≤ length wire
unfolding check_header uint16
check_header_long wire n e = ground arith

check_question-safe : (wire : Bytes) (n e : ℕ) → check_question wire n e ≢ panic
unfolding check_question uint16
check_question-safe wire n e = ground arith

check_question_fits :
    (wire : Bytes) (n e : ℕ) → check_question wire n e ≡ ok tt → e + 4 ≤ length wire
unfolding check_question uint16
check_question_fits wire n e h = ground arith

query_has_ecs-safe : (wire : Bytes) (n o : ℕ) → query_has_ecs wire n o ≢ panic
unfolding query_has_ecs
query_has_ecs-safe wire n o =
    ground (arith, validate_edns_query-safe wire o, edns_has_option-safe wire o 8)

module _ (wire : Bytes) (question_end : ℕ) (inside : question_end ≤ length wire)
    (behind : 12 ≤ question_end) where
  copy_into-normal :
      copy_into
        (set (set wire 0 0) 1 0)
        12
        question_end
        (map to_lower (segment wire 12 question_end))
      ≡ ok (normal_form wire question_end)
  copy_into-normal =
      unfold copy_into in
      (ap (λ m. m >>= rest) (slice_in_range cleared 12 question_end behind (omega (arith, sizes.0)))
        ∙ ap ok copied)
    where
      cleared : Bytes
      cleared = set (set wire 0 0) 1 0

      source : Bytes
      source = map to_lower (segment wire 12 question_end)

      rest : Bytes → Parsed Bytes
      rest target =
          let n = if ltb (length source) (length target) then length source else length target in
          ok (take 12 cleared ++ (take n source ++ drop (12 + n) cleared))

      sizes :
          (length cleared ≡ length wire)
          × (length source ≡ question_end - 12)
          × (length (segment cleared 12 question_end) ≡ question_end - 12)
      sizes =
          let whole : length cleared ≡ length wire =
            omega (arith, length-set {0} (set wire 0 0) 1 0, length-set {0} wire 0 0) in
          (
            whole,
            length-map to_lower (segment wire 12 question_end)
                ∙ length-segment wire 12 question_end inside,
            length-segment cleared 12 question_end (omega (arith, whole)),
          )

      count : ℕ
      count =
          if ltb (length source) (length (segment cleared 12 question_end))
          then length source
          else length (segment cleared 12 question_end)

      copied :
          take 12 cleared ++ (take count source ++ drop (12 + count) cleared)
          ≡ normal_form wire question_end
      copied =
          let n : count ≡ question_end - 12 = ground (arith, sizes) in
          let to : 12 + (question_end - 12) ≡ question_end = omega arith in
          rw (
            n,
            to,
            take_all source (question_end - 12) (omega (arith, sizes.1)),
            drop-set (set wire 0 0) question_end 1 0 (omega arith),
            drop-set wire question_end 0 0 (omega arith),
          )

-- The parts of an accepted query.
pub record IsQuery (digest : Bytes → Bytes) (wire : Bytes) (q : ParsedQuery) : Type 0 where
  pub question_end : ℕ
  pub name_parsed :
      parse_question_name wire 12 ≡ ok (question_end, map to_lower (segment wire 12 question_end))
  pub inside : question_end + 4 ≤ length wire
  pub behind : 12 ≤ question_end
  pub wire_kept : q.wire ≡ wire
  pub normalized_is : q.normalized ≡ normal_form wire question_end
  pub question_is : q.question ≡ segment (normal_form wire question_end) 12 (question_end + 4)
  pub key_is : q.key ≡ hex_encode (digest (normal_form wire question_end))
  pub id_is : q.id ≡ value16 wire 0

pub length-normal_form :
    (wire : Bytes) (e : ℕ) → e ≤ length wire → 12 ≤ e → length (normal_form wire e) ≡ length wire
length-normal_form wire e inside behind = omega (
  arith,
  length-append (take 12 (set (set wire 0 0) 1 0))
      (map to_lower (segment wire 12 e) ++ drop e wire),
  length-append (map to_lower (segment wire 12 e)) (drop e wire),
  length-take {0} 12 (set (set wire 0 0) 1 0),
  length-set {0} (set wire 0 0) 1 0,
  length-set {0} wire 0 0,
  length-map to_lower (segment wire 12 e),
  length-segment wire 12 e inside,
  length-drop {0} e wire,
)

abbrev pub built : (Bytes → Bytes) → Bytes → ℕ → Bool → ParsedQuery
built digest wire e has_ecs = record {
  wire = wire;
  normalized = normal_form wire e;
  question = segment (normal_form wire e) 12 (e + 4);
  key = hex_encode (digest (normal_form wire e));
  id = value16 wire 0;
  has_ecs = has_ecs;
}

pub build_query_lem :
    (digest : Bytes → Bytes) (wire : Bytes) (e : ℕ) (has_ecs : Bool)
    → e + 4 ≤ length wire
    → 12 ≤ e
    → build_query digest wire e (map to_lower (segment wire 12 e)) has_ecs
      ≡ ok (built digest wire e has_ecs)
unfolding build_query clear_id uint16
build_query_lem digest wire e has_ecs inside behind = ground (
  arith,
  copy_into-normal wire e (omega arith) behind,
  slice_in_range {E = DohError} (normal_form wire e) 12 (e + 4) (omega arith)
      (omega (arith, length-normal_form wire e (omega arith) behind)),
)

-- The end of `parse_dns_query`, behind the name.
behind_name :
    (digest : Bytes → Bytes) (wire : Bytes) (additional e : ℕ) (name : Bytes)
    → parse_question_name wire 12 ≡ ok (e, name)
    → (do
      check_question wire additional e
      has_ecs ← query_has_ecs wire additional (e + 4)
      build_query digest wire e name has_ecs)
      ≢ panic
behind_name digest wire additional e name parsed =
    let (behind, _, canonical, _) = parse_question_name-canonical wire 12 e name parsed in
    >>=-safe (check_question wire additional e) _ (check_question-safe wire additional e) (λ _ fits.
      >>=-safe (query_has_ecs wire additional (e + 4)) _
        (query_has_ecs-safe wire additional (e + 4))
        (λ h _ p. cc (
          rw (← canonical) at
            (build_query_lem digest wire e h (check_question_fits wire additional e fits) behind))))

-- Parsing a query never indexes or slices out of range, whatever bytes the client sends.
pub parse_dns_query-safe :
    (digest : Bytes → Bytes) (wire : Bytes) → parse_dns_query digest wire ≢ panic
unfolding parse_dns_query
parse_dns_query-safe digest wire = >>=-safe (check_header wire) _ (check_header-safe wire) (λ n _.
    >>=-safe (with_error invalid_dns_message (parse_question_name wire 12)) _
      (with_error-safe (parse_question_name wire 12) (parse_question_name-safe wire 12))
      (λ (e, name) parsed. behind_name digest wire n e name (with_error-ok _ parsed)))

built-IsQuery :
    (digest : Bytes → Bytes) (wire : Bytes) (additional e : ℕ) (name : Bytes) (q : ParsedQuery)
    → parse_question_name wire 12 ≡ ok (e, name)
    → (do
      check_question wire additional e
      has_ecs ← query_has_ecs wire additional (e + 4)
      build_query digest wire e name has_ecs)
      ≡ ok q
    → IsQuery digest wire q
built-IsQuery digest wire additional e name q parsed h =
    let (_, checked, h1) = >>=-eq-ok (check_question wire additional e) _ h in
    let (has_ecs, _, h2) = >>=-eq-ok (query_has_ecs wire additional (e + 4)) _ h1 in
    let (behind, _, canonical, _) = parse_question_name-canonical wire 12 e name parsed in
    let fits = check_question_fits wire additional e checked in
    let same : built digest wire e has_ecs ≡ q = cc (
      build_query_lem digest wire e has_ecs fits behind,
      ap (λ n. build_query digest wire e n has_ecs) canonical,
    ) in
    rw (← same) (record {
      question_end = e;
      name_parsed = parsed ∙ ap (λ n. ok (e, n)) canonical;
      inside = fits;
      behind = behind;
      wire_kept = refl;
      normalized_is = refl;
      question_is = refl;
      key_is = refl;
      id_is = refl;
    })

-- What an accepted query holds: the end of its name, found inside the message; the message with the
-- identifier cleared and the name in lower case; of that the question; its hashed key; the identifier.
pub parse_dns_query-IsQuery :
    (digest : Bytes → Bytes) (wire : Bytes) (q : ParsedQuery)
    → parse_dns_query digest wire ≡ ok q
    → IsQuery digest wire q
unfolding parse_dns_query
parse_dns_query-IsQuery digest wire q h =
    let (n, header, h1) = >>=-eq-ok (check_header wire) _ h in
    let ((e, name), named, h2) =
      >>=-eq-ok (with_error invalid_dns_message (parse_question_name wire 12)) _ h1 in
    built-IsQuery digest wire n e name q (with_error-ok _ named) h2
