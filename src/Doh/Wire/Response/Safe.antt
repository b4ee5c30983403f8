-- ===== src/Doh/Wire/Response/Safe.antt =====
-- Validating a response never panics.
use sakullla_plugins.Base.{
  ℕ, zero, suc, ◌+◌, ◌≤◌, ◌≡◌, ◌≢◌, arith, length, Bytes, ok, panic, >>=-safe, with_error, slice,
  uint16,
}
use sakullla_plugins.Doh.Wire.{invalid_dns_message}
use sakullla_plugins.Doh.Wire.Name.{parse_question_name}
use sakullla_plugins.Doh.Wire.Name.Canonical.{parse_question_name-safe}
use sakullla_plugins.Doh.Wire.Edns.Safe.{with_error-safe}
use sakullla_plugins.Doh.Wire.Query.{ParsedQuery, clear_id}
use sakullla_plugins.Doh.Wire.Record.{ResourceRecord, parse_resource_record}
use sakullla_plugins.Doh.Wire.Record.Bounds.{parse_resource_record-safe, parse_soa_minimum-safe}
use sakullla_plugins.Doh.Wire.Response.{
  Ttls, Counts, total_records, no_ttls, see_record, scan_records, read_counts, classify,
  check_response_header, check_response_question, check_records, validate_dns_response,
}

see_record-safe :
    (wire : Bytes) (c : Counts) (index : ℕ) (r : ResourceRecord) (t : Ttls)
    → see_record wire c index r t ≢ panic
unfolding see_record
see_record-safe wire c index r t =
    ground (arith, parse_soa_minimum-safe wire r.rdata_start r.rdata_end)

scan_records-safe :
    (left : ℕ) (wire : Bytes) (c : Counts) (index offset : ℕ) (t : Ttls)
    → scan_records left wire c index offset t ≢ panic
unfolding scan_records
scan_records-safe zero wire c index offset t = λ p. cc
scan_records-safe (suc left) wire c index offset t =
    >>=-safe (with_error invalid_dns_message (parse_resource_record wire offset)) _
      (with_error-safe (parse_resource_record wire offset) (parse_resource_record-safe wire offset))
      (λ r _.
        >>=-safe (see_record wire c index r t) _ (see_record-safe wire c index r t)
          (λ t' _. scan_records-safe left wire c (index + 1) r.rdata_end t'))

pub read_counts-safe : (wire : Bytes) → 17 ≤ length wire → read_counts wire ≢ panic
unfolding read_counts uint16
read_counts-safe wire h = ground arith

check_records-safe :
    (wire : Bytes) (flags offset : ℕ) → 17 ≤ length wire → check_records wire flags offset ≢ panic
unfolding check_records classify
check_records-safe wire flags offset h =
    >>=-safe (read_counts wire) _ (read_counts-safe wire h) (λ c _.
      >>=-safe (scan_records (total_records c) wire c 0 offset no_ttls) _
        (scan_records-safe (total_records c) wire c 0 offset no_ttls) (λ (e, t) _. ground arith))

check_response_header-safe : (q : ParsedQuery) (wire : Bytes) → check_response_header q wire ≢ panic
unfolding check_response_header uint16
check_response_header-safe q wire = ground arith

pub check_response_header_long :
    (q : ParsedQuery) (wire : Bytes) (f : ℕ)
    → check_response_header q wire ≡ ok f
    → 17 ≤ length wire
unfolding check_response_header uint16
check_response_header_long q wire f e = ground arith

check_response_question-safe :
    (q : ParsedQuery) (wire : Bytes) (e : ℕ) (n : Bytes)
    → check_response_question q wire e n ≢ panic
unfolding check_response_question slice
check_response_question-safe q wire e n = ground arith

clear_id-safe : (wire : Bytes) → 17 ≤ length wire → clear_id wire ≢ panic
unfolding clear_id
clear_id-safe wire h = ground arith

-- Validating an answer never indexes or slices out of range, whatever an upstream sends.
pub validate_dns_response-safe :
    (q : ParsedQuery) (wire : Bytes) → validate_dns_response q wire ≢ panic
unfolding validate_dns_response
validate_dns_response-safe q wire =
    >>=-safe (check_response_header q wire) _ (check_response_header-safe q wire) (λ f headed.
      let long = check_response_header_long q wire f headed in
      >>=-safe (with_error invalid_dns_message (parse_question_name wire 12)) _
        (with_error-safe (parse_question_name wire 12) (parse_question_name-safe wire 12))
        (λ (e, n) _.
          >>=-safe (check_response_question q wire e n) _ (check_response_question-safe q wire e n)
            (λ _ _.
              >>=-safe (check_records wire f (e + 4)) _ (check_records-safe wire f (e + 4) long)
                (λ m _. >>=-safe (clear_id wire) _ (clear_id-safe wire long) (λ w _ p. cc)))))
