-- ===== src/Doh/Wire/Record.antt =====
-- Resource records: names with compression pointers, the fixed fields, and the minimum TTL of an SOA.
pub mod Bounds
use sakullla_plugins.Base.{
  ℕ, zero, suc, ◌+◌, ◌-◌, ◌%◌, Bool, true, false, not, ◌||◌, Option, none, some, List, [], ◌∷◌, ltb,
  leb, ◌==◌, if◌then◌else◌, length, Bytes, ok, err, ◌>>=◌, ◌>>◌, reject_if, with_error, read,
  uint16, uint32,
}
use sakullla_plugins.Doh.Wire.{Parsed, invalid_dns_message}
use sakullla_plugins.Doh.Wire.Name.{top_bits}

abbrev pub visited_before : ℕ → List ℕ → Bool
visited_before offset [] = false
visited_before offset (o ∷ os) = (o == offset) || visited_before offset os

-- Where the name ends in the message: behind its first pointer, or behind its zero byte.
abbrev pub first_end : Option ℕ → ℕ → ℕ
first_end none end = end
first_end (some end) _ = end

-- One round of `skipDNSName` either ends it or goes on at an offset.
pub data Skip : Type 0 where
  finished : ℕ → Skip
  jump : ℕ → Option ℕ → ℕ → Skip

unfoldable pub follow_pointer : Bytes → ℕ → Option ℕ → ℕ → Parsed Skip
follow_pointer wire offset consumed_end expanded = do
  reject_if (leb (length wire) (offset + 1)) invalid_dns_message
  word ← uint16 wire offset
  reject_if (ltb (word % 0x4000) 12 || leb offset (word % 0x4000)) invalid_dns_message
  ok (jump (word % 0x4000) (some (first_end consumed_end (offset + 2))) expanded)

unfoldable pub pass_label : Bytes → ℕ → ℕ → Option ℕ → ℕ → Parsed Skip
pass_label wire offset len consumed_end expanded = do
  reject_if (not (top_bits len == 0) || (ltb 63 len || ltb (length wire) (offset + 1 + len)))
      invalid_dns_message
  reject_if (ltb 255 (expanded + (len + 1))) invalid_dns_message
  ok (
      if len == 0
      then finished (first_end consumed_end (offset + 1))
      else jump (offset + 1 + len) consumed_end (expanded + (len + 1)))

unfoldable pub skip_label : Bytes → ℕ → Option ℕ → ℕ → List ℕ → Parsed Skip
skip_label wire offset consumed_end expanded visited = do
  reject_if (ltb offset 12 || leb (length wire) offset) invalid_dns_message
  reject_if (visited_before offset visited) invalid_dns_message
  len ← read wire offset
  if top_bits len == 3
      then follow_pointer wire offset consumed_end expanded
      else pass_label wire offset len consumed_end expanded

abbrev pub after_skip : (ℕ → Option ℕ → ℕ → Parsed ℕ) → Skip → Parsed ℕ
after_skip again (finished end) = ok end
after_skip again (jump offset consumed_end expanded) = again offset consumed_end expanded

unfoldable pub skip_labels : ℕ → Bytes → List ℕ → ℕ → Option ℕ → ℕ → Parsed ℕ
skip_labels zero wire visited offset consumed_end expanded = err invalid_dns_message
skip_labels (suc labels) wire visited offset consumed_end expanded =
    skip_label wire offset consumed_end expanded visited
    >>= after_skip (skip_labels labels wire (offset ∷ visited))

unfoldable pub skip_dns_name : Bytes → ℕ → Parsed ℕ
skip_dns_name wire offset = skip_labels 128 wire [] offset none 0

pub record ResourceRecord : Type 0 where
  pub rr_type : ℕ
  pub class : ℕ
  pub ttl : ℕ
  pub ttl_offset : ℕ
  pub rdata_start : ℕ
  pub rdata_end : ℕ

unfoldable pub record_fields : Bytes → ℕ → Parsed ResourceRecord
record_fields wire next = do
  reject_if (ltb (length wire) (next + 10)) invalid_dns_message
  rdata_length ← uint16 wire (next + 8)
  reject_if (ltb (length wire) (next + 10 + rdata_length)) invalid_dns_message
  rr_type ← uint16 wire next
  class ← uint16 wire (next + 2)
  ttl ← uint32 wire (next + 4)
  ok (record {
    rr_type = rr_type;
    class = class;
    ttl = ttl;
    ttl_offset = next + 4;
    rdata_start = next + 10;
    rdata_end = next + 10 + rdata_length;
  })

unfoldable pub parse_resource_record : Bytes → ℕ → Parsed ResourceRecord
parse_resource_record wire offset =
    with_error invalid_dns_message (skip_dns_name wire offset) >>= record_fields wire

unfoldable pub soa_fields : Bytes → ℕ → ℕ → Parsed ℕ
soa_fields wire end next = do
  reject_if (not (next + 20 == end)) invalid_dns_message
  uint32 wire (end - 4)

-- `parseSOAMinimum`; `start < 0` cannot be.
unfoldable pub parse_soa_minimum : Bytes → ℕ → ℕ → Parsed ℕ
parse_soa_minimum wire start end = do
  reject_if (ltb (length wire) end || leb end start) invalid_dns_message
  next ← with_error invalid_dns_message (skip_dns_name wire start)
  reject_if (ltb end next) invalid_dns_message
  next' ← with_error invalid_dns_message (skip_dns_name wire next)
  soa_fields wire end next'
