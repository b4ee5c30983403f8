-- ===== src/Doh/Config.antt =====
-- plugins/doh/model.go and upstream_text.go: the configuration, its defaults and validation, and which
-- upstreams answer for a name. Names are ASCII, so that lower case and white space are those of bytes.
pub mod Valid
pub mod Accepts
pub mod Selects
pub mod Answering
mod Examples
use sakullla_plugins.Base.{
  ℕ, zero, suc, ◌+◌, ◌-◌, Bool, true, false, not, ◌&&◌, ◌||◌, List, [], ◌∷◌, ◌++◌, map, ltb, leb,
  ◌==◌, if◌then◌else◌, length, get_or, take, drop, Bytes, bytes_eq, ok, err, is_empty, trim_space,
  trim_dot, has_suffix, ◌>>=◌, ◌>>◌, reject_if,
}
use sakullla_plugins.Doh.Wire.{Parsed, invalid_request, max_dns_response_bytes}
use sakullla_plugins.Doh.Wire.Name.{to_lower}

-- Go's `int`: a number, or the negative of the successor of one.
pub data ℤ : Type 0 where
  pos negsuc : ℕ → ℤ

pub record Upstream : Type 0 where
  pub id : Bytes
  pub endpoint : Bytes
  pub domain : Bytes
  pub priority : ℤ
  pub enabled : Bool

-- The numbers are not negative; `Validate` rejects a negative one.
pub record Configuration : Type 0 where
  pub request_timeout_ms : ℕ
  pub upstream_timeout_ms : ℕ
  pub max_concurrency : ℕ
  pub cache_entries : ℕ
  pub cache_bytes : ℕ
  pub min_ttl_seconds : ℕ
  pub max_ttl_seconds : ℕ
  pub upstreams : List Upstream

abbrev or_default : ℕ → ℕ → ℕ
or_default n default = if n == 0 then default else n

abbrev no_ttl_limits : Configuration → Bool
no_ttl_limits c = c.min_ttl_seconds == 0 && c.max_ttl_seconds == 0

-- "default" and "https://dns.google/dns-query"
abbrev default_upstream : Upstream
default_upstream = record {
  id = b'd' ∷ b'e' ∷ b'f' ∷ b'a' ∷ b'u' ∷ b'l' ∷ b't' ∷ [];
  endpoint =
      b'h' ∷ b't' ∷ b't' ∷ b'p' ∷ b's' ∷ b':' ∷ b'/' ∷ b'/' ∷ b'd' ∷ b'n' ∷ b's' ∷ b'.' ∷ b'g'
      ∷ b'o' ∷ b'o' ∷ b'g' ∷ b'l' ∷ b'e' ∷ b'/' ∷ b'd' ∷ b'n' ∷ b's' ∷ b'-' ∷ b'q' ∷ b'u' ∷ b'e'
      ∷ b'r' ∷ b'y' ∷ [];
  domain = [];
  priority = pos 0;
  enabled = true;
}

abbrev or_default_upstream : List Upstream → List Upstream
or_default_upstream [] = default_upstream ∷ []
or_default_upstream (u ∷ us) = u ∷ us

unfoldable pub apply_configuration_defaults : Configuration → Configuration
apply_configuration_defaults c = record {
  request_timeout_ms = or_default c.request_timeout_ms 2000;
  upstream_timeout_ms = or_default c.upstream_timeout_ms 1000;
  max_concurrency = or_default c.max_concurrency 8;
  cache_entries = or_default c.cache_entries 256;
  cache_bytes = or_default c.cache_bytes 1048576;
  min_ttl_seconds = if no_ttl_limits c then 1 else c.min_ttl_seconds;
  max_ttl_seconds = if no_ttl_limits c then 3600 else c.max_ttl_seconds;
  upstreams = or_default_upstream c.upstreams;
}

-- `opaqueRefPattern`: ^[a-z0-9][a-z0-9._:/-]{0,127}$
abbrev pub ref_start : ℕ → Bool
ref_start b = (leb b'a' b && leb b b'z') || (leb b'0' b && leb b b'9')

abbrev pub ref_rest : ℕ → Bool
ref_rest b =
    ref_start b || ((b == b'.') || ((b == b'_') || ((b == b':') || ((b == b'/') || (b == b'-')))))

unfoldable pub all_bytes : (ℕ → Bool) → Bytes → Bool
all_bytes test [] = true
all_bytes test (b ∷ bs) = test b && all_bytes test bs

unfoldable pub opaque_ref : Bytes → Bool
opaque_ref [] = false
opaque_ref (b ∷ bs) = ref_start b && (all_bytes ref_rest bs && leb (length bs) 127)

abbrev pub out_of_priority : ℤ → Bool
out_of_priority (pos n) = ltb 1000 n
out_of_priority (negsuc n) = ltb 999 n

abbrev bad_upstream : Upstream → Bool
bad_upstream u =
    not (opaque_ref u.id)
    || ((length u.endpoint == 0)
        || (ltb 512 (length u.endpoint)
            || (ltb 253 (length u.domain) || out_of_priority u.priority)))

abbrev pub seen_id : Bytes → List Bytes → Bool
seen_id id [] = false
seen_id id (i ∷ is) = bytes_eq i id || seen_id id is

unfoldable pub validate_upstreams : List Bytes → List Upstream → Parsed (Unit {0})
validate_upstreams seen [] = ok tt
validate_upstreams seen (u ∷ us) =
    if bad_upstream u || seen_id u.id seen
    then err invalid_request
    else validate_upstreams (u.id ∷ seen) us

abbrev bad_numbers : Configuration → Bool
bad_numbers c =
    ltb c.request_timeout_ms 1
    || (ltb 10000 c.request_timeout_ms
        || (ltb c.upstream_timeout_ms 1
            || (ltb c.request_timeout_ms c.upstream_timeout_ms
                || (ltb c.max_concurrency 1
                    || (ltb 256 c.max_concurrency
                        || (ltb c.cache_entries 1
                            || (ltb 4096 c.cache_entries
                                || (ltb c.cache_bytes max_dns_response_bytes
                                    || (ltb 67108864 c.cache_bytes
                                        || (ltb c.max_ttl_seconds c.min_ttl_seconds
                                            || (ltb 86400 c.max_ttl_seconds
                                                || ltb 32 (length c.upstreams))))))))))))

unfoldable pub validate : Configuration → Parsed (Unit {0})
validate c = if bad_numbers c then err invalid_request else validate_upstreams [] c.upstreams

unfoldable pub normalize_domain : Bytes → Bytes
normalize_domain value = map to_lower (trim_dot (trim_space value))

unfoldable pub domain_matches : Bytes → Bytes → Bool
domain_matches qname domain =
    not (is_empty qname || is_empty domain)
    && (bytes_eq qname domain || has_suffix qname (b'.' ∷ domain))

-- The loop of `upstreamsForName`, with the best domain and the upstreams matched so far.
abbrev pub is_match : Bytes → Upstream → Bool
is_match qname u = u.enabled && (not (is_empty u.domain) && domain_matches qname u.domain)

unfoldable pub match_upstream : Upstream → Bytes × List Upstream → Bytes × List Upstream
match_upstream u (best, matched) =
    let longer = ltb (length best) (length u.domain) in
    let best' = if longer then u.domain else best in
    let kept = if longer then [] else matched in
    (best', if bytes_eq u.domain best' then kept ++ (u ∷ []) else kept)

unfoldable pub matched_upstreams :
    Bytes → List Upstream → Bytes × List Upstream → Bytes × List Upstream
matched_upstreams qname [] state = state
matched_upstreams qname (u ∷ us) state =
    matched_upstreams qname us (if is_match qname u then match_upstream u state else state)

abbrev pub is_default : Upstream → Bool
is_default u = u.enabled && is_empty u.domain

unfoldable pub default_upstreams : List Upstream → List Upstream
default_upstreams [] = []
default_upstreams (u ∷ us) =
    let rest = default_upstreams us in if is_default u then u ∷ rest else rest

abbrev pub or_defaults : List Upstream → List Upstream → List Upstream
or_defaults all [] = default_upstreams all
or_defaults all (u ∷ us) = u ∷ us

unfoldable pub upstreams_for_name : Configuration → Bytes → List Upstream
upstreams_for_name c qname =
    or_defaults c.upstreams (matched_upstreams (normalize_domain qname) c.upstreams ([], [])).1

-- `questionName`: the labels of a question, joined with dots. Each round takes a byte or more.
unfoldable pub question_labels : ℕ → Bytes → Bytes → Bytes
question_labels zero name joined = joined
question_labels (suc rounds) [] joined = joined
question_labels (suc rounds) (zero ∷ rest) joined = joined
question_labels (suc rounds) (suc n ∷ rest) joined = elim (ltb (length rest) (suc n)) [
  | true ↦ []
  | false ↦
      question_labels rounds (drop (suc n) rest)
        (if is_empty joined then take (suc n) rest else joined ++ (b'.' ∷ take (suc n) rest))
]

unfoldable pub question_name : Bytes → Bytes
question_name question =
    if ltb (length question) 5
    then []
    else question_labels (length question) (take (length question - 4) question) []
