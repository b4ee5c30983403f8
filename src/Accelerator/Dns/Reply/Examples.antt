-- ===== src/Accelerator/Dns/Reply/Examples.antt =====
-- The theorems on wire.go at a response with an alias and an address.
use sakullla_plugins.Base.{
  none, [], ◌∷◌, ◌≡◌, ◌≢◌, refl, ◌≤◌, All, Bytes, ok, panic, bytes_eq, read, slice, uint16, uint32,
  trim_left, trim_right, has_suffix, split, join_dots,
}
use sakullla_plugins.Base.Table.{find, remove}
use sakullla_plugins.Accelerator.Dns.{
  normalize_dns_name, query_labels, dns_query, name_end, name_pointer, name_label, name_step,
  name_steps, read_dns_name,
}
use sakullla_plugins.Accelerator.Dns.Reply.{
  Reply, see_cname, see_address, see_soa, read_fields, see_fields, scan_record, scan_records,
  visited_name, follow_chain, lowest_ttl, each_address, reply_at, reply_of, check_class,
  check_question, read_header, parse_dns_response, max_dns_cname_hops,
}
use sakullla_plugins.Accelerator.Dns.Reply.Safe.{parse_dns_response-safe}
use sakullla_plugins.Accelerator.Dns.Reply.Sound.{IsFor, parse_dns_response-IsReply}

-- The query for the A record of `a` with the identifier 7.
query_written :
    dns_query (b'a' ∷ b'.' ∷ []) 1 7
    ≡ ok (0 ∷ 7 ∷ 1 ∷ 0 ∷ 0 ∷ 1 ∷ 0 ∷ 0 ∷ 0 ∷ 0 ∷ 0 ∷ 0 ∷ 1 ∷ b'a' ∷ 0 ∷ 0 ∷ 1 ∷ 0 ∷ 1 ∷ [], 7)
unfolding dns_query query_labels split has_suffix bytes_eq
query_written = refl

-- Its response: `a` is an alias of `b` for 60 seconds, and `b` has an address for 30.
abbrev response : Bytes
response =
    0 ∷ 7 ∷ 0x81 ∷ 0x80 ∷ 0 ∷ 1 ∷ 0 ∷ 2 ∷ 0 ∷ 0 ∷ 0 ∷ 0 ∷ 1 ∷ b'A' ∷ 0 ∷ 0 ∷ 1 ∷ 0 ∷ 1 ∷ 0xc0 ∷ 12
    ∷ 0 ∷ 5 ∷ 0 ∷ 1 ∷ 0 ∷ 0 ∷ 0 ∷ 60 ∷ 0 ∷ 3 ∷ 1 ∷ b'b' ∷ 0 ∷ 0xc0 ∷ 31 ∷ 0 ∷ 1 ∷ 0 ∷ 1 ∷ 0 ∷ 0 ∷ 0
    ∷ 30 ∷ 0 ∷ 4 ∷ 192 ∷ 0 ∷ 2 ∷ 1 ∷ []

abbrev reply : Reply
reply = record {
  found = (192 ∷ 0 ∷ 2 ∷ 1 ∷ []) ∷ [];
  ttl = 30000000000;
  negative = 0;
  canonical = [];
  hops = 1;
  error = none;
}

response_read : parse_dns_response response 7 1 (b'a' ∷ b'.' ∷ []) ≡ ok reply
unfolding parse_dns_response read_header check_question check_class scan_records scan_record
    see_fields read_fields see_cname see_address see_soa follow_chain visited_name reply_of reply_at
    each_address lowest_ttl read_dns_name name_steps name_step name_end name_pointer name_label
    normalize_dns_name trim_left trim_right has_suffix join_dots find remove bytes_eq read slice
    uint16 uint32
response_read = refl

parse_dns_response-safe_example : parse_dns_response response 7 1 (b'a' ∷ []) ≢ panic
parse_dns_response-safe_example = parse_dns_response-safe response 7 1 (b'a' ∷ [])

parse_dns_response-IsReply_example : All (IsFor 1) reply.found × (reply.hops ≤ max_dns_cname_hops)
parse_dns_response-IsReply_example =
    parse_dns_response-IsReply response 7 1 (b'a' ∷ b'.' ∷ []) reply response_read
