-- ===== src/Accelerator/Dns/Lookup/Examples.antt =====
-- A lookup of an alias whose target the first response leaves open.
use sakullla_plugins.Base.{
  ◌+◌, if◌then◌else◌, none, [], ◌∷◌, ◌≡◌, refl, Bytes, ok, bytes_eq, read, slice, uint16, uint32,
  trim_left, trim_right, has_suffix, split, join_dots,
}
use sakullla_plugins.Base.Table.{find, remove}
use sakullla_plugins.Accelerator.Dns.{
  normalize_dns_name, query_labels, dns_query, name_end, name_pointer, name_label, name_step,
  name_steps, read_dns_name,
}
use sakullla_plugins.Accelerator.Dns.Reply.{
  see_cname, see_address, see_soa, read_fields, see_fields, scan_record, scan_records, visited_name,
  follow_chain, lowest_ttl, each_address, reply_at, reply_of, check_class, check_question,
  read_header, parse_dns_response, max_dns_cname_hops,
}
use sakullla_plugins.Accelerator.Dns.Lookup.{
  responded, unanswered, Resolver, use_reply, ask_servers, lookup_type_chain, lookup_type,
}
use sakullla_plugins.Accelerator.Dns.Lookup.Rounds.{lookup_type-ends}

-- `a` is an alias of `b` for 60 seconds.
abbrev alias : Bytes
alias =
    0 ∷ 7 ∷ 0x81 ∷ 0x80 ∷ 0 ∷ 1 ∷ 0 ∷ 1 ∷ 0 ∷ 0 ∷ 0 ∷ 0 ∷ 1 ∷ b'a' ∷ 0 ∷ 0 ∷ 1 ∷ 0 ∷ 1 ∷ 0xc0 ∷ 12
    ∷ 0 ∷ 5 ∷ 0 ∷ 1 ∷ 0 ∷ 0 ∷ 0 ∷ 60 ∷ 0 ∷ 3 ∷ 1 ∷ b'b' ∷ 0 ∷ []

-- `b` has an address for 90 seconds.
abbrev target : Bytes
target =
    0 ∷ 7 ∷ 0x81 ∷ 0x80 ∷ 0 ∷ 1 ∷ 0 ∷ 1 ∷ 0 ∷ 0 ∷ 0 ∷ 0 ∷ 1 ∷ b'b' ∷ 0 ∷ 0 ∷ 1 ∷ 0 ∷ 1 ∷ 0xc0 ∷ 12
    ∷ 0 ∷ 1 ∷ 0 ∷ 1 ∷ 0 ∷ 0 ∷ 0 ∷ 90 ∷ 0 ∷ 4 ∷ 192 ∷ 0 ∷ 2 ∷ 1 ∷ []

-- The first server does not answer, and the second one knows both names.
abbrev resolver : Resolver
resolver = record {
  servers = (b'x' ∷ []) ∷ (b'y' ∷ []) ∷ [];
  draw = λ n. 7;
  exchange = λ n server query.
      if bytes_eq server (b'x' ∷ [])
      then unanswered
      else if bytes_eq query
          (0 ∷ 7 ∷ 1 ∷ 0 ∷ 0 ∷ 1 ∷ 0 ∷ 0 ∷ 0 ∷ 0 ∷ 0 ∷ 0 ∷ 1 ∷ b'a' ∷ 0 ∷ 0 ∷ 1 ∷ 0 ∷ 1 ∷ [])
      then responded alias
      else responded target;
}

found :
    lookup_type resolver (b'A' ∷ []) 1 0
    ≡ ok (
      record {
        addresses = (192 ∷ 0 ∷ 2 ∷ 1 ∷ []) ∷ [];
        ttl = 60000000000;
        negative = 0;
        error = none;
      },
      6,
    )
unfolding lookup_type lookup_type_chain ask_servers use_reply dns_query query_labels split
    parse_dns_response read_header check_question check_class scan_records scan_record see_fields
    read_fields see_cname see_address see_soa follow_chain visited_name reply_of reply_at
    each_address lowest_ttl read_dns_name name_steps name_step name_end name_pointer name_label
    normalize_dns_name trim_left trim_right has_suffix join_dots find remove bytes_eq read slice
    uint16 uint32
found = refl

lookup_type-ends_example :
    lookup_type_chain
      (max_dns_cname_hops + 2 + 5)
      resolver
      1
      []
      (normalize_dns_name (b'A' ∷ []))
      0
      0
    ≡ lookup_type resolver (b'A' ∷ []) 1 0
lookup_type-ends_example = lookup_type-ends resolver (b'A' ∷ []) 1 0 5
