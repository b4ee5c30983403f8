-- ===== src/Accelerator/Dns/Reply.antt =====
-- `parseDNSResponse`: the records of a response, the chain of aliases from the question, and what the
-- resolver learns.
pub mod Safe
pub mod Sound
mod Examples
use sakullla_plugins.Base.{
  ℕ, zero, suc, ◌+◌, ◌-◌, ◌*◌, ◌/◌, ◌%◌, Bool, true, false, not, ◌&&◌, ◌||◌, Option, none, some,
  List, [], ◌∷◌, ◌++◌, ltb, leb, ◌==◌, if◌then◌else◌, length, Bytes, bytes_eq, Result, ok, err,
  ◌>>=◌, ◌>>◌, reject_if, slice, uint16, uint32, is_empty,
}
use sakullla_plugins.Base.Table.{Table, find, remove}
use sakullla_plugins.Accelerator.Dns.{
  DnsError, dns_wire, dns_not_found, lower_ttl, normalize_dns_name, read_dns_name,
}

pub record CnameRecord : Type 0 where
  pub target : Bytes
  pub ttl : ℕ

pub record AddressRecord : Type 0 where
  pub address : Bytes
  pub ttl : ℕ

-- The variables of the loop over the records; the maps of Go are lists with one entry for a key.
pub record Scan : Type 0 where
  pub cnames : Table CnameRecord
  pub addresses : Table (List AddressRecord)
  pub negative_ttl : ℕ
  pub negative_set : Bool
  pub nodata : Bool

abbrev pub nothing_seen : Scan
nothing_seen = record {
  cnames = [];
  addresses = [];
  negative_ttl = 0;
  negative_set = false;
  nodata = false;
}

pub record Reply : Type 0 where
  pub found : List Bytes
  pub ttl : ℕ
  pub negative : ℕ
  pub canonical : Bytes
  pub hops : ℕ
  pub error : Option DnsError

abbrev pub second : ℕ
second = 1000000000

-- An assignment to a key of a map.
abbrev pub put_at : {A : Type 0} → Bytes → A → Table A → Table A
put_at key value t = (key, value) ∷ remove key t

abbrev pub or_empty : Option (List AddressRecord) → List AddressRecord
or_empty none = []
or_empty (some rs) = rs

abbrev pub addresses_of : Bytes → Table (List AddressRecord) → List AddressRecord
addresses_of owner t = or_empty (find owner t)

-- A second alias of one owner has the same target.
abbrev pub known_cname : Bytes → Bytes → ℕ → Scan → Option CnameRecord → Result DnsError Scan
known_cname owner target ttl s none =
    ok (record s { cnames = put_at owner (record { target = target; ttl = ttl }) s.cnames })
known_cname owner target ttl s (some previous) =
    if bytes_eq previous.target target
    then ok (record s {
      cnames =
          put_at owner (record { target = target; ttl = (lower_ttl previous.ttl true ttl).0 })
            s.cnames;
    })
    else err dns_wire

unfoldable pub see_cname : Bytes → ℕ → ℕ → Bytes → ℕ → Scan → Result DnsError Scan
see_cname message start len owner ttl s = do
  (target, end) ← read_dns_name message start
  reject_if (not (end == start + len) || (is_empty target || bytes_eq target owner)) dns_wire
  known_cname owner target (ttl * second) s (find owner s.cnames)

unfoldable pub see_address : Bytes → ℕ → ℕ → Bytes → ℕ → Scan → Result DnsError Scan
see_address message start len owner ttl s = do
  address ← slice message start (start + len)
  ok (record s {
    addresses =
        put_at owner
          (addresses_of owner s.addresses
            ++ (record { address = address; ttl = ttl * second } ∷ []))
          s.addresses;
  })

unfoldable pub see_soa : Bytes → ℕ → ℕ → ℕ → Scan → Result DnsError Scan
see_soa message start len ttl s = do
  minimum ← uint32 message (start + len - 4)
  let (negative, set) =
      lower_ttl s.negative_ttl s.negative_set ((if ltb minimum ttl then minimum else ttl) * second)
  ok (record s { negative_ttl = negative; negative_set = set; nodata = true })

abbrev pub is_address : ℕ → ℕ → ℕ → Bool
is_address query_type record_type len =
    record_type == query_type
    && (((record_type == 1) && (len == 4)) || ((record_type == 28) && (len == 16)))

abbrev pub when : Bool → (Scan → Result DnsError Scan) → Scan → Result DnsError Scan
when true act s = act s
when false act s = ok s

pub record Fields : Type 0 where
  pub record_type : ℕ
  pub class : ℕ
  pub ttl : ℕ
  pub start : ℕ
  pub len : ℕ

unfoldable pub read_fields : Bytes → ℕ → Result DnsError Fields
read_fields message next = do
  reject_if (ltb (length message) (next + 10)) dns_wire
  record_type ← uint16 message next
  class ← uint16 message (next + 2)
  ttl ← uint32 message (next + 4)
  len ← uint16 message (next + 8)
  reject_if (ltb (length message) (next + 10 + len)) dns_wire
  ok (record { record_type = record_type; class = class; ttl = ttl; start = next + 10; len = len })

abbrev pub sees_cname : Bool → Fields → Bool
sees_cname is_answer f = is_answer && (f.class == 1 && f.record_type == 5)

abbrev pub sees_address : ℕ → Bool → Fields → Bool
sees_address query_type is_answer f =
    is_answer && (f.class == 1 && is_address query_type f.record_type f.len)

abbrev pub sees_soa : Bool → Fields → Bool
sees_soa is_answer f = not is_answer && (f.class == 1 && (f.record_type == 6 && leb 20 f.len))

-- One record, of the answers or of the authorities, and where the next one starts.
unfoldable pub see_fields : Bytes → ℕ → Bool → Bytes → Fields → Scan → Result DnsError Scan
see_fields message query_type is_answer owner f s = do
  s1 ← when (sees_cname is_answer f) (see_cname message f.start f.len owner f.ttl) s
  s2 ← when (sees_address query_type is_answer f) (see_address message f.start f.len owner f.ttl) s1
  when (sees_soa is_answer f) (see_soa message f.start f.len f.ttl) s2

unfoldable pub scan_record : Bytes → ℕ → Bool → ℕ → Scan → Result DnsError (ℕ × Scan)
scan_record message query_type is_answer offset s = do
  (owner, next) ← read_dns_name message offset
  f ← read_fields message next
  s1 ← see_fields message query_type is_answer owner f s
  ok (f.start + f.len, s1)

unfoldable pub scan_records : ℕ → Bytes → ℕ → ℕ → ℕ → ℕ → Scan → Result DnsError Scan
scan_records zero message query_type answers index offset s = ok s
scan_records (suc count) message query_type answers index offset s = do
  (next, s1) ← scan_record message query_type (ltb index answers) offset s
  scan_records count message query_type answers (index + 1) next s1

abbrev pub max_dns_cname_hops : ℕ
max_dns_cname_hops = 16

unfoldable pub visited_name : Bytes → List Bytes → Bool
visited_name name [] = false
visited_name name (v ∷ vs) = bytes_eq v name || visited_name name vs

-- Where the chain of aliases ends, with the lowest TTL on it.
pub record Chain : Type 0 where
  pub name : Bytes
  pub lowest : ℕ
  pub lowest_set : Bool
  pub hops : ℕ

abbrev pub is_none : {A : Type 0} → List A → Bool
is_none [] = true
is_none (x ∷ xs) = false

abbrev pub hop : CnameRecord → Chain → Chain
hop cname chain =
    let (lowest, set) = lower_ttl chain.lowest chain.lowest_set cname.ttl in
    record { name = cname.target; lowest = lowest; lowest_set = set; hops = chain.hops + 1 }

abbrev pub bad_hop : Scan → List Bytes → Chain → CnameRecord → Bool
bad_hop s visited chain cname =
    not (is_none (addresses_of chain.name s.addresses))
    || (leb max_dns_cname_hops chain.hops || visited_name cname.target visited)

abbrev pub follow_link :
    (List Bytes → Chain → Option Chain)
    → Scan
    → List Bytes
    → Chain
    → Option CnameRecord
    → Option Chain
follow_link again s visited chain none = some chain
follow_link again s visited chain (some cname) =
    if bad_hop s visited chain cname then none else again (cname.target ∷ visited) (hop cname chain)

-- Each round makes a hop, and a round at the limit on hops ends the loop.
unfoldable pub follow_chain : ℕ → Scan → List Bytes → Chain → Option Chain
follow_chain zero s visited chain = none
follow_chain (suc rounds) s visited chain =
    follow_link (follow_chain rounds s) s visited chain (find chain.name s.cnames)

abbrev pub effective_negative_ttl : ℕ → Bool → ℕ → Bool → ℕ
effective_negative_ttl negative negative_set cname cname_set =
    if not negative_set
    then 0
    else if not cname_set
    then negative
    else (lower_ttl negative true cname).0

abbrev pub failed_reply : ℕ → Reply
failed_reply negative = record {
  found = [];
  ttl = 0;
  negative = negative;
  canonical = [];
  hops = 0;
  error = some dns_wire;
}

abbrev pub not_found_reply : Scan → Chain → Reply
not_found_reply s chain = record {
  found = [];
  ttl = 0;
  negative = effective_negative_ttl s.negative_ttl s.negative_set chain.lowest chain.lowest_set;
  canonical = [];
  hops = chain.hops;
  error = some dns_not_found;
}

unfoldable pub lowest_ttl : List AddressRecord → ℕ → Bool → ℕ
lowest_ttl [] lowest set = lowest
lowest_ttl (r ∷ rs) lowest set = let (l, b) = lower_ttl lowest set r.ttl in lowest_ttl rs l b

unfoldable pub each_address : List AddressRecord → List Bytes
each_address [] = []
each_address (r ∷ rs) = r.address ∷ each_address rs

-- The end of the chain has addresses, is known to have none, or is another name to ask for.
unfoldable pub reply_at : Scan → Chain → List AddressRecord → Reply
reply_at s chain (r ∷ rs) = record {
  found = each_address (r ∷ rs);
  ttl = lowest_ttl (r ∷ rs) chain.lowest chain.lowest_set;
  negative = s.negative_ttl;
  canonical = [];
  hops = chain.hops;
  error = none;
}
reply_at s chain [] =
    if s.nodata
    then not_found_reply s chain
    else if ltb 0 chain.hops
    then record {
      found = [];
      ttl = chain.lowest;
      negative = s.negative_ttl;
      canonical = chain.name;
      hops = chain.hops;
      error = none;
    }
    else failed_reply s.negative_ttl

unfoldable pub reply_of : ℕ → Scan → Option Chain → Reply
reply_of rcode s none = failed_reply s.negative_ttl
reply_of rcode s (some chain) =
    let records = addresses_of chain.name s.addresses in
    if not (rcode == 0) && not (rcode == 3)
    then failed_reply s.negative_ttl
    else if rcode == 3
    then (if is_none records then not_found_reply s chain else failed_reply 0)
    else reply_at s chain records

unfoldable pub check_class : Bytes → ℕ → ℕ → Result DnsError (Unit {0})
check_class message query_type offset = do
  reject_if (ltb (length message) (offset + 4)) dns_wire
  asked ← uint16 message offset
  class ← uint16 message (offset + 2)
  reject_if (not (asked == query_type) || not (class == 1)) dns_wire

-- The question: its name, and where the records start.
unfoldable pub check_question : Bytes → ℕ → Result DnsError (Bytes × ℕ)
check_question message query_type = do
  (name, offset) ← read_dns_name message 12
  check_class message query_type offset
  ok (name, offset + 4)

-- A round for each alias besides those up to the limit, so that it is not the rounds that bound the hops.
abbrev pub chain_rounds : Scan → ℕ
chain_rounds s = max_dns_cname_hops + 1 + length s.cnames

pub record Header : Type 0 where
  pub flags : ℕ
  pub answers : ℕ
  pub authorities : ℕ

unfoldable pub read_header : Bytes → ℕ → Result DnsError Header
read_header message id = do
  reject_if (ltb (length message) 12) dns_wire
  named ← uint16 message 0
  flags ← uint16 message 2
  reject_if (not (named == id) || (flags / 32768 % 2 == 0)) dns_wire
  questions ← uint16 message 4
  answers ← uint16 message 6
  authorities ← uint16 message 8
  reject_if (not (questions == 1)) dns_wire
  ok (record { flags = flags; answers = answers; authorities = authorities })

abbrev pub first_link : Bytes → Chain
first_link name = record { name = name; lowest = 0; lowest_set = false; hops = 0 }

unfoldable pub parse_dns_response : Bytes → ℕ → ℕ → Bytes → Result DnsError Reply
parse_dns_response message id query_type expected = do
  h ← read_header message id
  (name, offset) ← check_question message query_type
  reject_if (not (bytes_eq name (normalize_dns_name expected))) dns_wire
  s ← scan_records (h.answers + h.authorities) message query_type h.answers 0 offset nothing_seen
  ok (reply_of (h.flags % 16) s (follow_chain (chain_rounds s) s (name ∷ []) (first_link name)))
