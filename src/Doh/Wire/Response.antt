-- ===== src/Doh/Wire/Response.antt =====
-- `validateDNSResponse`, `clampDNSResponseTTLs` and `responseWithID`.
pub mod Safe
pub mod Clamp
pub mod Agree
pub mod Cached
pub mod Front
use sakullla_plugins.Base.{
  ℕ, zero, suc, ◌+◌, ◌-◌, ◌/◌, ◌%◌, Bool, true, false, not, ◌&&◌, ◌||◌, [], ◌++◌, ltb, leb, ◌==◌,
  if◌then◌else◌, length, Bytes, bytes_eq, ok, err, ◌>>=◌, ◌>>◌, reject_if, with_error, slice,
  uint16, put_uint32, write16,
}
use sakullla_plugins.Doh.Wire.{
  Parsed, invalid_dns_message, response_too_large, response_mismatch, upstream_failed,
  max_dns_response_bytes,
}
use sakullla_plugins.Doh.Wire.Name.{parse_question_name}
use sakullla_plugins.Doh.Wire.Query.{ParsedQuery, clear_id}
use sakullla_plugins.Doh.Wire.Record.{ResourceRecord, parse_resource_record, parse_soa_minimum}

pub record ResponseMetadata : Type 0 where
  pub ttl : ℕ
  pub cacheable : Bool
  pub negative : Bool

-- The variables of the loop over the records.
pub record Ttls : Type 0 where
  pub min_answer_ttl : ℕ
  pub min_negative_ttl : ℕ
  pub answer_seen : Bool
  pub negative_soa_seen : Bool

abbrev pub no_ttls : Ttls
no_ttls = record {
  min_answer_ttl = 0;
  min_negative_ttl = 0;
  answer_seen = false;
  negative_soa_seen = false;
}

-- The counts of the header: answers, authorities and additional records.
pub record Counts : Type 0 where
  pub answers : ℕ
  pub authorities : ℕ
  pub additionals : ℕ

unfoldable pub see_answer : ResourceRecord → Ttls → Ttls
see_answer r t =
    if not t.answer_seen || ltb r.ttl t.min_answer_ttl
    then record t { min_answer_ttl = r.ttl; answer_seen = true }
    else t

unfoldable pub see_negative : ℕ → Ttls → Ttls
see_negative ttl t = record t {
  min_negative_ttl =
      if not t.negative_soa_seen || ltb ttl t.min_negative_ttl then ttl else t.min_negative_ttl;
  negative_soa_seen = true;
}

abbrev pub is_authority : Counts → ℕ → Bool
is_authority c index = leb c.answers index && ltb index (c.answers + c.authorities)

unfoldable pub see_record : Bytes → Counts → ℕ → ResourceRecord → Ttls → Parsed Ttls
see_record wire c index r t = do
  reject_if (ltb index (c.answers + c.authorities) && not (r.class == 1)) invalid_dns_message
  let seen = if ltb index c.answers then see_answer r t else t
  if is_authority c index && r.rr_type == 6
      then (do
        minimum ← with_error invalid_dns_message (parse_soa_minimum wire r.rdata_start r.rdata_end)
        ok (see_negative (if ltb minimum r.ttl then minimum else r.ttl) seen))
      else ok seen

-- The loop, on the number of records left; it returns the offset behind the last one.
unfoldable pub scan_records : ℕ → Bytes → Counts → ℕ → ℕ → Ttls → Parsed (ℕ × Ttls)
scan_records zero wire c index offset t = ok (offset, t)
scan_records (suc left) wire c index offset t = do
  r ← with_error invalid_dns_message (parse_resource_record wire offset)
  t' ← see_record wire c index r t
  scan_records left wire c (index + 1) r.rdata_end t'

unfoldable pub read_counts : Bytes → Parsed Counts
read_counts wire = do
  answers ← uint16 wire 6
  authorities ← uint16 wire 8
  additionals ← uint16 wire 10
  ok (record { answers = answers; authorities = authorities; additionals = additionals })

abbrev pub total_records : Counts → ℕ
total_records c = c.answers + c.authorities + c.additionals

-- The switch on the response code.
unfoldable pub classify : ℕ → Counts → Ttls → Parsed ResponseMetadata
classify rcode c t =
    if rcode == 0 && ltb 0 c.answers
    then (if t.answer_seen
        then ok (record {
          ttl = t.min_answer_ttl;
          cacheable = ltb 0 t.min_answer_ttl;
          negative = false;
        })
        else err invalid_dns_message)
    else if (rcode == 0 && c.answers == 0) || rcode == 3
    then (if t.negative_soa_seen
        then ok (record {
          ttl = t.min_negative_ttl;
          cacheable = ltb 0 t.min_negative_ttl;
          negative = true;
        })
        else err invalid_dns_message)
    else err upstream_failed

abbrev pub bad_response_flags : ℕ → Bool
bad_response_flags flags = not (flags / 0x8000 % 2 == 1) || not (flags / 0x800 % 16 == 0)

unfoldable pub check_response_header : ParsedQuery → Bytes → Parsed ℕ
check_response_header q wire = do
  reject_if (ltb max_dns_response_bytes (length wire)) response_too_large
  reject_if (ltb (length wire) 17) response_mismatch
  id ← uint16 wire 0
  reject_if (not (id == q.id)) response_mismatch
  flags ← uint16 wire 2
  questions ← uint16 wire 4
  reject_if (bad_response_flags flags || not (questions == 1)) invalid_dns_message
  ok flags

unfoldable pub check_response_question : ParsedQuery → Bytes → ℕ → Bytes → Parsed (Unit {0})
check_response_question q wire question_end canonical = do
  reject_if (ltb (length wire) (question_end + 4)) invalid_dns_message
  tail ← slice wire question_end (question_end + 4)
  reject_if (not (bytes_eq (canonical ++ tail) q.question)) response_mismatch

-- What follows the question: the records, the switch, and the message with its identifier cleared.
unfoldable pub check_records : Bytes → ℕ → ℕ → Parsed ResponseMetadata
check_records wire flags offset = do
  c ← read_counts wire
  (end, t) ← scan_records (total_records c) wire c 0 offset no_ttls
  reject_if (not (end == length wire)) invalid_dns_message
  classify (flags % 16) c t

unfoldable pub validate_dns_response : ParsedQuery → Bytes → Parsed (ResponseMetadata × Bytes)
validate_dns_response q wire = do
  flags ← check_response_header q wire
  (question_end, canonical) ← with_error invalid_dns_message (parse_question_name wire 12)
  check_response_question q wire question_end canonical
  metadata ← check_records wire flags (question_end + 4)
  normalized ← clear_id wire
  ok (metadata, normalized)

-- `clampDNSResponseTTLs`: one record, the loop, and the whole.
unfoldable pub clamp_ttl : ℕ → ResourceRecord → Bytes → Parsed Bytes
clamp_ttl limit r result =
    if not (r.rr_type == 41) && ltb limit r.ttl
    then put_uint32 result r.ttl_offset limit
    else ok result

unfoldable pub clamp_soa : ℕ → Counts → ℕ → ResourceRecord → Bytes → Parsed Bytes
clamp_soa limit c index r result =
    if is_authority c index && r.rr_type == 6
    then (do
      minimum ← parse_soa_minimum result r.rdata_start r.rdata_end
      if ltb limit minimum then put_uint32 result (r.rdata_end - 4) limit else ok result)
    else ok result

unfoldable pub clamp_records : ℕ → ℕ → Counts → ℕ → ℕ → Bytes → Parsed (ℕ × Bytes)
clamp_records zero limit c index offset result = ok (offset, result)
clamp_records (suc left) limit c index offset result = do
  r ← parse_resource_record result offset
  result' ← clamp_ttl limit r result
  result'' ← clamp_soa limit c index r result'
  clamp_records left limit c (index + 1) r.rdata_end result''

unfoldable pub clamp_dns_response_ttls : Bytes → ℕ → Parsed Bytes
clamp_dns_response_ttls wire limit = do
  reject_if (ltb (length wire) 17) invalid_dns_message
  (question_end, _) ← with_error invalid_dns_message (parse_question_name wire 12)
  reject_if (ltb (length wire) (question_end + 4)) invalid_dns_message
  c ← read_counts wire
  (end, result) ← clamp_records (total_records c) limit c 0 (question_end + 4) wire
  reject_if (not (end == length result)) invalid_dns_message
  ok result

-- `responseWithID`; the empty list is nil.
unfoldable pub response_with_id : Bytes → ℕ → Bytes
response_with_id normalized id = if ltb (length normalized) 2 then [] else write16 normalized 0 id
