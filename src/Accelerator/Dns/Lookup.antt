-- ===== src/Accelerator/Dns/Lookup.antt =====
-- `Lookup` and `lookupTypeChain`: asking the servers, and again for the name at the end of a chain of aliases.
-- The exchange with a server and the random identifiers are parameters; each answer depends on the number
-- of the question, so that a server may change its mind.
pub mod Rounds
mod Examples
use sakullla_plugins.Base.{
  ℕ, zero, suc, ◌+◌, Bool, true, false, not, ◌&&◌, ◌||◌, Option, none, some, List, [], ◌∷◌, ◌++◌,
  ltb, if◌then◌else◌, Bytes, Result, ok, err, panic, ◌>>=◌, is_empty,
}
use sakullla_plugins.Accelerator.Dns.{
  DnsError, dns_wire, dns_not_found, exchange_failed, lower_ttl, normalize_dns_name, dns_query,
}
use sakullla_plugins.Accelerator.Dns.Reply.{
  Reply, is_none, max_dns_cname_hops, visited_name, failed_reply, parse_dns_response,
}

pub data Exchanged : Type 0 where
  responded : Bytes → Exchanged
  unanswered : Exchanged

pub record Resolver : Type 0 where
  pub servers : List Bytes
  pub draw : ℕ → ℕ
  pub exchange : ℕ → Bytes → Bytes → Exchanged

-- The results of `lookupTypeChain`, and the number of the next question.
pub record Found : Type 0 where
  pub addresses : List Bytes
  pub ttl : ℕ
  pub negative : ℕ
  pub error : Option DnsError

abbrev pub Looked : Type 0
Looked = Result DnsError (Found × ℕ)

abbrev pub nothing_found : Option DnsError → Found
nothing_found e = record { addresses = []; ttl = 0; negative = 0; error = e }

-- What follows on the lookup of the name at the end of a chain; `rest` is the rest of the loop.
abbrev pub after_terminal :
    Reply → (Option DnsError → ℕ → Looked) → ℕ → Found → Option DnsError → Looked
after_terminal r rest n terminal (some dns_not_found) = ok (
  record {
    addresses = [];
    ttl = 0;
    negative = (lower_ttl terminal.negative true r.ttl).0;
    error = some dns_not_found;
  },
  n,
)
after_terminal r rest n terminal (some e) = rest (some e) n
after_terminal r rest n terminal none = ok (
  record {
    addresses = terminal.addresses;
    ttl = (lower_ttl r.ttl true terminal.ttl).0;
    negative = r.negative;
    error = none;
  },
  n,
)

abbrev pub return_or_next : Reply → (Option DnsError → ℕ → Looked) → ℕ → Option DnsError → Looked
return_or_next r rest n none =
    ok (record { addresses = r.found; ttl = r.ttl; negative = r.negative; error = none }, n)
return_or_next r rest n (some dns_not_found) = ok (
  record { addresses = r.found; ttl = r.ttl; negative = r.negative; error = some dns_not_found },
  n,
)
return_or_next r rest n (some e) = rest (some e) n

abbrev pub is_error : Option DnsError → Bool
is_error none = false
is_error (some e) = true

abbrev pub goes_on : Reply → Bool
goes_on r = not (is_error r.error) && (is_none r.found && not (is_empty r.canonical))

unfoldable pub use_reply :
    (Bytes → ℕ → ℕ → Looked) → (Option DnsError → ℕ → Looked) → ℕ → ℕ → Reply → Looked
use_reply chain rest depth n r =
    if goes_on r
    then (if ltb max_dns_cname_hops (depth + r.hops)
        then rest (some dns_wire) n
        else chain r.canonical (depth + r.hops) n >>= λ (terminal, m).
            after_terminal r rest m terminal terminal.error)
    else return_or_next r rest n r.error

abbrev pub use_response :
    (Bytes → ℕ → ℕ → Looked)
    → (Option DnsError → ℕ → Looked)
    → ℕ
    → ℕ
    → Result DnsError Reply
    → Looked
use_response chain rest depth n (ok r) = use_reply chain rest depth n r
use_response chain rest depth n (err e) = use_reply chain rest depth n (failed_reply 0)
use_response chain rest depth n panic = panic

abbrev pub use_exchange :
    (Bytes → ℕ → ℕ → Looked)
    → (Option DnsError → ℕ → Looked)
    → (Bytes → Result DnsError Reply)
    → ℕ
    → ℕ
    → Exchanged
    → Looked
use_exchange chain rest parse depth n (responded message) =
    use_response chain rest depth n (parse message)
use_exchange chain rest parse depth n unanswered = rest (some exchange_failed) n

unfoldable pub ask_servers :
    (Bytes → ℕ → ℕ → Looked)
    → (ℕ → Bytes → Bytes → Exchanged)
    → (Bytes → Result DnsError Reply)
    → Bytes
    → ℕ
    → List Bytes
    → Option DnsError
    → ℕ
    → Looked
ask_servers chain exchange parse query depth [] last n = ok (nothing_found last, n)
ask_servers chain exchange parse query depth (server ∷ servers) last n =
    use_exchange chain (ask_servers chain exchange parse query depth servers) parse depth (n + 1)
      (exchange n server query)

abbrev pub with_query :
    (Bytes → ℕ → ℕ → Looked) → Resolver → ℕ → Bytes → ℕ → ℕ → Result DnsError (Bytes × ℕ) → Looked
with_query chain r query_type host depth n (ok (query, id)) =
    ask_servers chain r.exchange (λ m. parse_dns_response m id query_type host) query depth
      r.servers none n
with_query chain r query_type host depth n (err e) = ok (nothing_found (some e), n)
with_query chain r query_type host depth n panic = panic

unfoldable pub lookup_type_chain : ℕ → Resolver → ℕ → List Bytes → Bytes → ℕ → ℕ → Looked
lookup_type_chain zero r query_type path host depth n = ok (nothing_found (some dns_wire), n)
lookup_type_chain (suc rounds) r query_type path host depth n =
    if is_empty host || (ltb max_dns_cname_hops depth || visited_name host path)
    then ok (nothing_found (some dns_wire), n)
    else with_query (lookup_type_chain rounds r query_type (host ∷ path)) r query_type host depth
        (n + 1) (dns_query host query_type (r.draw n))

-- A chain from the start: every round but the last makes a hop or more.
unfoldable pub lookup_type : Resolver → Bytes → ℕ → ℕ → Looked
lookup_type r host query_type n =
    lookup_type_chain (max_dns_cname_hops + 2) r query_type [] (normalize_dns_name host) 0 n

-- `Lookup`: the addresses of both types, with the lowest TTLs.
pub record Combined : Type 0 where
  pub addresses : List Bytes
  pub minimum_ttl : ℕ
  pub minimum_set : Bool
  pub negative_ttl : ℕ
  pub negative_set : Bool
  pub last_error : Option DnsError
  pub transient : Option DnsError

abbrev pub is_not_found : Option DnsError → Bool
is_not_found (some dns_not_found) = true
is_not_found (some e) = false
is_not_found none = false

abbrev pub lower_negative : Found → Combined → Combined
lower_negative f c =
    if is_not_found f.error || ltb 0 f.negative
    then (let (ttl, set) = lower_ttl c.negative_ttl c.negative_set f.negative in
        record c { negative_ttl = ttl; negative_set = set })
    else c

abbrev pub see_result : Found → Option DnsError → Combined → Combined
see_result f none c =
    let (ttl, set) = lower_ttl c.minimum_ttl c.minimum_set f.ttl in
    record c { addresses = c.addresses ++ f.addresses; minimum_ttl = ttl; minimum_set = set }
see_result f (some dns_not_found) c = record c { last_error = some dns_not_found }
see_result f (some e) c = record c { last_error = some e; transient = some e }

abbrev pub see_found : Found → Combined → Combined
see_found f c = see_result f f.error (lower_negative f c)

abbrev pub nothing_combined : Combined
nothing_combined = record {
  addresses = [];
  minimum_ttl = 0;
  minimum_set = false;
  negative_ttl = 0;
  negative_set = false;
  last_error = none;
  transient = none;
}

abbrev pub error_of : Option DnsError → Option DnsError → DnsError
error_of (some e) last = e
error_of none (some e) = e
error_of none none = dns_not_found

abbrev pub found_of : Combined → Found
found_of c =
    if is_none c.addresses
    then record {
      addresses = [];
      ttl = 0;
      negative = c.negative_ttl;
      error = some (error_of c.transient c.last_error);
    }
    else record {
      addresses = c.addresses;
      ttl = c.minimum_ttl;
      negative = c.negative_ttl;
      error = none;
    }

unfoldable pub lookup : Resolver → Bytes → ℕ → Looked
lookup r host n = do
  (ipv4, n1) ← lookup_type r host 1 n
  (ipv6, n2) ← lookup_type r host 28 n1
  ok (found_of (see_found ipv6 (see_found ipv4 nothing_combined)), n2)
