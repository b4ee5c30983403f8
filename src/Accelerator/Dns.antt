-- ===== src/Accelerator/Dns.antt =====
-- plugins/accelerator-sources/internal/upstream/wire.go: the DNS messages that the proxy's resolver writes
-- and reads. Text is ASCII where its case is changed and its space trimmed.
pub mod Reply
pub mod Lookup
use sakullla_plugins.Base.{
  ℕ, zero, suc, ◌+◌, ◌/◌, ◌%◌, Bool, true, false, not, ◌||◌, Option, none, some, List, [], ◌∷◌,
  ◌++◌, map, ltb, leb, ◌==◌, if◌then◌else◌, length, Bytes, Result, ok, err, ◌>>=◌, ◌>>◌, reject_if,
  read, slice, uint16, write16, is_empty, trim_space, trim_dot, split, join_dots,
}
use sakullla_plugins.Doh.Wire.Name.{to_lower, top_bits}

pub data DnsError : Type 0 where
  dns_wire dns_not_found exchange_failed : DnsError

-- `lowerTTL`
abbrev pub lower_ttl : ℕ → Bool → ℕ → ℕ × Bool
lower_ttl current initialized candidate =
    if not initialized || ltb candidate current then (candidate, true) else (current, true)

unfoldable pub normalize_dns_name : Bytes → Bytes
normalize_dns_name name = trim_dot (map to_lower (trim_space name))

-- `dnsQuery`, with the identifier that it draws.
unfoldable pub query_labels : List Bytes → Bytes → Result DnsError Bytes
query_labels [] message = ok message
query_labels (label ∷ labels) message =
    if (length label == 0) || ltb 63 (length label)
    then err dns_wire
    else query_labels labels (message ++ (length label ∷ label))

abbrev pub query_header : ℕ → Bytes
query_header id =
    write16 (write16 (write16 (0 ∷ 0 ∷ 0 ∷ 0 ∷ 0 ∷ 0 ∷ 0 ∷ 0 ∷ 0 ∷ 0 ∷ 0 ∷ 0 ∷ []) 0 id) 2 0x0100) 4
      1

unfoldable pub dns_query : Bytes → ℕ → ℕ → Result DnsError (Bytes × ℕ)
dns_query host query_type id = do
  message ← query_labels (split b'.' (trim_dot host)) (query_header id)
  ok (message ++ (0 ∷ query_type / 256 % 256 ∷ query_type % 256 ∷ 0 ∷ 1 ∷ []), id)

-- `readDNSName`: a round ends the name, or goes on at an offset with the labels so far and where the name
-- ends in the message, once that is known.
pub data NameStep : Type 0 where
  named : Bytes → ℕ → NameStep
  go_on : ℕ → List Bytes → Option ℕ → NameStep

abbrev pub visited_before : ℕ → List ℕ → Bool
visited_before offset [] = false
visited_before offset (o ∷ os) = (o == offset) || visited_before offset os

abbrev pub next_or : Option ℕ → ℕ → ℕ
next_or none offset = offset
next_or (some next) offset = next

unfoldable pub name_end : ℕ → List Bytes → Option ℕ → Result DnsError NameStep
name_end offset labels next = do
  let name = normalize_dns_name (join_dots labels)
  reject_if (ltb 253 (length name)) dns_wire
  ok (named name (next_or next (offset + 1)))

unfoldable pub name_pointer : Bytes → ℕ → List Bytes → Option ℕ → Result DnsError NameStep
name_pointer message offset labels next = do
  reject_if (ltb (length message) (offset + 2)) dns_wire
  word ← uint16 message offset
  let pointer = word % 0x4000
  reject_if (leb offset pointer || leb (length message) pointer) dns_wire
  ok (go_on pointer labels (some (next_or next (offset + 2))))

unfoldable pub name_label : Bytes → ℕ → ℕ → List Bytes → Option ℕ → Result DnsError NameStep
name_label message offset len labels next = do
  reject_if (not (top_bits len == 0) || (ltb 63 len || ltb (length message) (offset + 1 + len)))
      dns_wire
  label ← slice message (offset + 1) (offset + 1 + len)
  reject_if (is_empty label) dns_wire
  ok (go_on (offset + 1 + len) (labels ++ (map to_lower label ∷ [])) next)

unfoldable pub name_step : Bytes → ℕ → List Bytes → Option ℕ → List ℕ → Result DnsError NameStep
name_step message offset labels next visited = do
  reject_if (leb (length message) offset || visited_before offset visited) dns_wire
  len ← read message offset
  if len == 0
      then name_end offset labels next
      else if top_bits len == 3
      then name_pointer message offset labels next
      else name_label message offset len labels next

abbrev pub after_step :
    (ℕ → List Bytes → Option ℕ → Result DnsError (Bytes × ℕ))
    → NameStep
    → Result DnsError (Bytes × ℕ)
after_step again (named name next) = ok (name, next)
after_step again (go_on offset labels next) = again offset labels next

unfoldable pub name_steps :
    ℕ → Bytes → List ℕ → ℕ → List Bytes → Option ℕ → Result DnsError (Bytes × ℕ)
name_steps zero message visited offset labels next = err dns_wire
name_steps (suc steps) message visited offset labels next =
    name_step message offset labels next visited
    >>= after_step (name_steps steps message (offset ∷ visited))

unfoldable pub read_dns_name : Bytes → ℕ → Result DnsError (Bytes × ℕ)
read_dns_name message offset = name_steps 128 message [] offset [] none
