-- ===== src/Doh/Wire/Examples.antt =====
-- The theorems on plugins/doh/rfc8484.go at concrete inputs.
use sakullla_plugins.Base.{
  ℕ, ◌+◌, ◌*◌, ◌≤◌, true, false, List, [], ◌∷◌, ◌++◌, map, ◌≡◌, ◌≢◌, refl, arith, All, length,
  Bytes, segment, value16, ok, panic, read, slice, uint16, uint32, put_uint16,
}
use sakullla_plugins.Doh.Wire.{max_dns_request_bytes}
use sakullla_plugins.Doh.Wire.Name.{
  to_lower, take_label, parse_label, parse_labels, parse_question_name,
}
use sakullla_plugins.Doh.Wire.Name.Canonical.{parse_question_name-canonical}
use sakullla_plugins.Doh.Wire.Name.Encoding.{encode_name, IsLabel, parse_question_name-encode}
use sakullla_plugins.Doh.Wire.Name.Fold.{parse_question_name-fold}
use sakullla_plugins.Doh.Wire.Edns.{
  validate_edns_query, edns_has_option, to4, to16, truncate_ip, mask_last, ecs_address, encode_ecs,
  encode_ecs_option, encode_opt, append_opt, inject_ecs,
}
use sakullla_plugins.Doh.Wire.Edns.Injected.{inject_ecs-valid}
use sakullla_plugins.Doh.Wire.Query.{
  ParsedQuery, hex_encode, clear_id, copy_into, check_header, check_question, query_has_ecs,
  build_query, parse_dns_query,
}
use sakullla_plugins.Doh.Wire.Query.Parts.{IsQuery, parse_dns_query-safe, parse_dns_query-IsQuery}
use sakullla_plugins.Doh.Wire.Query.Accepts.{query_of, type_and_class, parse_dns_query-query_of}
use sakullla_plugins.Doh.Wire.Query.Key.{same_key-same_question}
use sakullla_plugins.Doh.Wire.Record.{
  follow_pointer, pass_label, skip_label, skip_labels, skip_dns_name, ResourceRecord, record_fields,
  parse_resource_record,
}
use sakullla_plugins.Doh.Wire.Record.Bounds.{IsInside, parse_resource_record-IsInside}
use sakullla_plugins.Doh.Wire.Response.{clamp_dns_response_ttls}
use sakullla_plugins.Doh.Wire.Response.Clamp.{clamp_dns_response_ttls-KeepsLength}

-- A query for the A record of one label, with the identifier and the label given.
abbrev query_for : ℕ → ℕ → Bytes
query_for id letter =
    0 ∷ id ∷ 1 ∷ 0 ∷ 0 ∷ 1 ∷ 0 ∷ 0 ∷ 0 ∷ 0 ∷ 0 ∷ 0 ∷ 1 ∷ letter ∷ 0 ∷ 0 ∷ 1 ∷ 0 ∷ 1 ∷ []

abbrev same : Bytes → Bytes
same w = w

abbrev upper : Bytes
upper = query_for 7 b'A'

abbrev lower : Bytes
lower = query_for 9 b'a'

abbrev parsed : ℕ → Bytes → ParsedQuery
parsed id wire = record {
  wire = wire;
  normalized = query_for 0 b'a';
  question = 1 ∷ b'a' ∷ 0 ∷ 0 ∷ 1 ∷ 0 ∷ 1 ∷ [];
  key = hex_encode (query_for 0 b'a');
  id = id;
  has_ecs = false;
}

upper-parsed : parse_dns_query same upper ≡ ok (parsed 7 upper)
unfolding parse_dns_query check_header check_question query_has_ecs build_query clear_id copy_into
    parse_question_name parse_labels parse_label take_label read slice uint16
upper-parsed = refl

lower-parsed : parse_dns_query same lower ≡ ok (parsed 9 lower)
unfolding parse_dns_query check_header check_question query_has_ecs build_query clear_id copy_into
    parse_question_name parse_labels parse_label take_label read slice uint16
lower-parsed = refl

parse_dns_query-IsQuery_example : IsQuery same upper (parsed 7 upper)
parse_dns_query-IsQuery_example = parse_dns_query-IsQuery same upper (parsed 7 upper) upper-parsed

same_key-same_question_example :
    ((parsed 7 upper).normalized ≡ (parsed 9 lower).normalized)
    × ((parsed 7 upper).question ≡ (parsed 9 lower).question)
same_key-same_question_example =
    same_key-same_question same upper lower (parsed 7 upper) (parsed 9 lower) (λ x y e. e)
      upper-parsed lower-parsed refl

parse_dns_query-safe_example : parse_dns_query same (0 ∷ 7 ∷ []) ≢ panic
parse_dns_query-safe_example = parse_dns_query-safe same (0 ∷ 7 ∷ [])

abbrev two_labels : List Bytes
two_labels = (b'n' ∷ b'S' ∷ []) ∷ (b'c' ∷ []) ∷ []

abbrev before : Bytes
before = 5 ∷ []

abbrev name_a : Bytes
name_a = 1 ∷ b'a' ∷ 0 ∷ []

two_labels-IsLabel : All IsLabel two_labels
two_labels-IsLabel = ((omega arith, omega arith), ((omega arith, omega arith), tt))

parse_question_name-encode_example :
    parse_question_name (before ++ (encode_name two_labels ++ (9 ∷ []))) (length before)
    ≡ ok (length before + length (encode_name two_labels), map to_lower (encode_name two_labels))
parse_question_name-encode_example =
    parse_question_name-encode two_labels before (9 ∷ []) two_labels-IsLabel
      (unfold encode_name in omega arith)

parse_question_name-canonical_example :
    (12 ≤ 15)
    × (15 ≤ length upper)
    × (name_a ≡ map to_lower (segment upper 12 15))
    × (length name_a ≤ 255)
parse_question_name-canonical_example =
    parse_question_name-canonical upper 12 15 name_a
      (unfold parse_question_name parse_labels parse_label take_label read slice in refl)

parse_question_name-fold_example : parse_question_name upper 12 ≡ parse_question_name lower 12
parse_question_name-fold_example =
    parse_question_name-fold upper lower 12 (record { same_length = refl; same_lower = refl })

abbrev address : Bytes
address = 192 ∷ 0 ∷ 2 ∷ 77 ∷ []

abbrev injected : Bytes
injected =
    0 ∷ 7 ∷ 1 ∷ 0 ∷ 0 ∷ 1 ∷ 0 ∷ 0 ∷ 0 ∷ 0 ∷ 0 ∷ 1 ∷ 1 ∷ b'A' ∷ 0 ∷ 0 ∷ 1 ∷ 0 ∷ 1 ∷ 0 ∷ 0 ∷ 41 ∷ 4
    ∷ 0xd0 ∷ 0 ∷ 0 ∷ 0 ∷ 0 ∷ 0 ∷ 11 ∷ 0 ∷ 8 ∷ 0 ∷ 7 ∷ 0 ∷ 1 ∷ 24 ∷ 0 ∷ 192 ∷ 0 ∷ 2 ∷ []

upper-injected : inject_ecs upper address ≡ ok injected
unfolding inject_ecs encode_ecs_option ecs_address encode_ecs encode_opt append_opt truncate_ip
    mask_last to4 to16 uint16 put_uint16
upper-injected = refl

inject_ecs-valid_example :
    (validate_edns_query injected (length upper) ≡ ok tt)
    × (edns_has_option injected (length upper) 8 ≡ ok true)
    × (value16 injected 10 ≡ 1)
    × (length injected ≤ max_dns_request_bytes)
inject_ecs-valid_example = inject_ecs-valid upper address injected refl upper-injected

-- An answer to the query: its name is a pointer to the question, its type is A, its TTL 300.
abbrev answer : Bytes
answer =
    0 ∷ 7 ∷ 0x81 ∷ 0x80 ∷ 0 ∷ 1 ∷ 0 ∷ 1 ∷ 0 ∷ 0 ∷ 0 ∷ 0 ∷ 1 ∷ b'a' ∷ 0 ∷ 0 ∷ 1 ∷ 0 ∷ 1 ∷ 0xc0 ∷ 12
    ∷ 0 ∷ 1 ∷ 0 ∷ 1 ∷ 0 ∷ 0 ∷ 1 ∷ 44 ∷ 0 ∷ 4 ∷ 192 ∷ 0 ∷ 2 ∷ 1 ∷ []

abbrev answer_record : ResourceRecord
answer_record = record {
  rr_type = 1;
  class = 1;
  ttl = 300;
  ttl_offset = 25;
  rdata_start = 31;
  rdata_end = 35;
}

answer_name_skipped : skip_dns_name answer 19 ≡ ok 21
unfolding skip_dns_name skip_labels skip_label follow_pointer pass_label read uint16
answer_name_skipped = refl

answer_record_parsed : parse_resource_record answer 19 ≡ ok answer_record
unfolding parse_resource_record record_fields skip_dns_name skip_labels skip_label follow_pointer
    pass_label read uint16 uint32
answer_record_parsed = refl

parse_resource_record-IsInside_example : IsInside answer 19 answer_record
parse_resource_record-IsInside_example =
    parse_resource_record-IsInside answer 19 answer_record answer_record_parsed

clamp_dns_response_ttls-KeepsLength_example :
    (clamp_dns_response_ttls answer 60 ≢ panic)
    × ((v : Bytes) → clamp_dns_response_ttls answer 60 ≡ ok v → length v ≡ length answer)
clamp_dns_response_ttls-KeepsLength_example = clamp_dns_response_ttls-KeepsLength answer 60

parse_dns_query-query_of_example :
    (q : ParsedQuery) × (parse_dns_query same (query_of 0 7 two_labels 0 1) ≡ ok q)
    × (q.question ≡ map to_lower (encode_name two_labels) ++ type_and_class 0 1)
    × (q.id ≡ 0 * 256 + 7)
    × (q.has_ecs ≡ false)
parse_dns_query-query_of_example =
    parse_dns_query-query_of 0 7 two_labels 0 1 same two_labels-IsLabel
      (unfold encode_name in omega arith) (omega arith)
