-- ===== src/Doh/Service/Examples.antt =====
-- The theorems on plugins/doh/service.go, and on the answers that it passes on, at concrete inputs.
use sakullla_plugins.Base.{
  trim_left, trim_right, has_suffix, ℕ, ◌+◌, ◌-◌, ◌*◌, ◌/◌, ◌%◌, leb, ltb, ◌&&◌, bytes_eq, true,
  false, none, [], ◌∷◌, ◌≡◌, ◌≢◌, refl, inr, arith, take, Bytes, ok, err, panic, if◌then◌else◌,
  read, slice, uint16, uint32, put_uint32,
}
use sakullla_plugins.Doh.Wire.{response_mismatch, cache_unavailable}
use sakullla_plugins.Doh.Config.{
  Upstream, Configuration, pos, upstreams_for_name, normalize_domain, domain_matches,
  match_upstream, matched_upstreams, default_upstreams, question_labels, question_name,
}
use sakullla_plugins.Doh.Wire.Name.{take_label, parse_label, parse_labels, parse_question_name}
use sakullla_plugins.Doh.Wire.Query.{ParsedQuery, clear_id}
use sakullla_plugins.Doh.Wire.Record.{
  follow_pointer, pass_label, skip_label, skip_labels, skip_dns_name, record_fields,
  parse_resource_record,
}
use sakullla_plugins.Doh.Wire.Response.{
  ResponseMetadata, see_answer, see_record, scan_records, read_counts, classify,
  check_response_header, check_response_question, check_records, validate_dns_response, clamp_ttl,
  clamp_soa, clamp_records, clamp_dns_response_ttls, response_with_id,
}
use sakullla_plugins.Doh.Wire.Response.Cached.{stored_response-valid, response_with_id-validated}
use sakullla_plugins.Doh.Wire.Response.Front.{clamp-KeepsFront}
use sakullla_plugins.Doh.Host.{
  Host, World, completed, unknown, now, accept_now, check_context, ensure_live, bounded_host_call,
  ask, ◌>>=◌, give,
}
use sakullla_plugins.Doh.Cache.{CacheEntry}
use sakullla_plugins.Doh.Service.{apply_outbound_ecs, serve, serve_hit, store_answer, second}
use sakullla_plugins.Doh.Service.Bodies.{IsAnswer, serve-IsAnswer}
use sakullla_plugins.Doh.Service.Calm.{serve-answers}
use sakullla_plugins.Doh.Service.Ends.{Calm}
use sakullla_plugins.Doh.Service.Hits.{hit_body, store_answer-hits}
use sakullla_plugins.Doh.Service.Outcomes.{serve-safe, IsLater, serve-IsLater}

-- A query for the A record of `a`, under an identifier.
abbrev query_wire : ℕ → Bytes
query_wire id = 0 ∷ id ∷ 1 ∷ 0 ∷ 0 ∷ 1 ∷ 0 ∷ 0 ∷ 0 ∷ 0 ∷ 0 ∷ 0 ∷ 1 ∷ b'a' ∷ 0 ∷ 0 ∷ 1 ∷ 0 ∷ 1 ∷ []

abbrev query : ℕ → ParsedQuery
query id = record {
  wire = query_wire id;
  normalized = query_wire 0;
  question = 1 ∷ b'a' ∷ 0 ∷ 0 ∷ 1 ∷ 0 ∷ 1 ∷ [];
  key = b'k' ∷ [];
  id = id;
  has_ecs = false;
}

-- Its answer, with a TTL.
abbrev answer : ℕ → ℕ → ℕ → Bytes
answer id ttl_high ttl_low =
    0 ∷ id ∷ 0x81 ∷ 0x80 ∷ 0 ∷ 1 ∷ 0 ∷ 1 ∷ 0 ∷ 0 ∷ 0 ∷ 0 ∷ 1 ∷ b'a' ∷ 0 ∷ 0 ∷ 1 ∷ 0 ∷ 1 ∷ 0xc0 ∷ 12
    ∷ 0 ∷ 1 ∷ 0 ∷ 1 ∷ 0 ∷ 0 ∷ ttl_high ∷ ttl_low ∷ 0 ∷ 4 ∷ 192 ∷ 0 ∷ 2 ∷ 1 ∷ []

abbrev metadata : ResponseMetadata
metadata = record { ttl = 300; cacheable = true; negative = false }

answer-validated : validate_dns_response (query 7) (answer 7 1 44) ≡ ok (metadata, answer 0 1 44)
unfolding validate_dns_response check_response_header check_response_question check_records
    read_counts scan_records see_record see_answer classify clear_id parse_question_name
    parse_labels parse_label take_label parse_resource_record record_fields skip_dns_name
    skip_labels skip_label follow_pointer pass_label read slice uint16 uint32 bytes_eq
answer-validated = refl

answer-clamped : clamp_dns_response_ttls (answer 9 1 44) 60 ≡ ok (answer 9 0 60)
unfolding clamp_dns_response_ttls clamp_records clamp_ttl clamp_soa read_counts parse_question_name
    parse_labels parse_label take_label parse_resource_record record_fields skip_dns_name
    skip_labels skip_label follow_pointer pass_label read slice uint16 uint32 put_uint32
answer-clamped = refl

question-parsed : parse_question_name (answer 9 1 44) 12 ≡ ok (15, 1 ∷ b'a' ∷ 0 ∷ [])
unfolding parse_question_name parse_labels parse_label take_label read slice
question-parsed = refl

stored_response-valid_example :
    validate_dns_response (query 9) (response_with_id (answer 0 1 44) 9)
    ≡ ok (metadata, answer 0 1 44)
stored_response-valid_example =
    stored_response-valid (query 7) (query 9) (answer 7 1 44) metadata (answer 0 1 44)
      answer-validated refl (omega arith)

response_with_id-validated_example : response_with_id (answer 0 1 44) 7 ≡ answer 7 1 44
response_with_id-validated_example =
    response_with_id-validated (query 7) (answer 7 1 44) metadata (answer 0 1 44) (ground arith)
      answer-validated

clamp-KeepsFront_example : take (15 + 4) (answer 9 0 60) ≡ take (15 + 4) (answer 9 1 44)
clamp-KeepsFront_example =
    clamp-KeepsFront (answer 9 1 44) (answer 9 0 60) 60 15 (1 ∷ b'a' ∷ 0 ∷ []) answer-clamped
      question-parsed

-- Two upstreams without a domain.
abbrev upstream : ℕ → Upstream
upstream letter = record {
  id = letter ∷ [];
  endpoint = letter ∷ [];
  domain = [];
  priority = pos 0;
  enabled = true;
}

abbrev configuration : Configuration
configuration = record {
  request_timeout_ms = 2000;
  upstream_timeout_ms = 1000;
  max_concurrency = 8;
  cache_entries = 256;
  cache_bytes = 1048576;
  min_ttl_seconds = 1;
  max_ttl_seconds = 3600;
  upstreams = upstream b'x' ∷ upstream b'y' ∷ [];
}

abbrev show : Bytes → Bytes
show address = address

-- Upstream x answers with nothing, and y with the answer.
abbrev answers : Upstream → Bytes → Bytes
answers u outbound = if bytes_eq u.id (b'y' ∷ []) then answer 7 1 44 else []

abbrev host : Host
host = record {
  context_error = λ n. none;
  is_live = λ n. true;
  has_place = λ n. true;
  clock_now = λ n. completed 5000000000;
  cache_get = λ n key time. completed none;
  cache_put = λ n key e. completed tt;
  resolve = λ n u outbound. completed (answers u outbound);
}

abbrev world : World
world = record {
  asked = 0;
  clock_set = true;
  last_now = 4000000000;
  statuses = record { id = b'x' ∷ []; result = unknown; failures = 0 } ∷ [];
}

host-Calm : Calm host 5000000000 answers
host-Calm = record {
  no_error = λ n. refl;
  live = λ n. refl;
  place = λ n. refl;
  clock = λ n. refl;
  missed = λ n key time. refl;
  put = λ n key e. refl;
  resolves = λ n u outbound. refl;
}

configuration-selects :
    upstreams_for_name configuration (question_name (query 7).question)
    ≡ upstream b'x' ∷ upstream b'y' ∷ []
unfolding upstreams_for_name matched_upstreams match_upstream default_upstreams domain_matches
    normalize_domain trim_left trim_right has_suffix question_name question_labels
configuration-selects = refl

nothing-invalid :
    validate_dns_response (query 7) (answers (upstream b'x') (query_wire 7)) ≡ err response_mismatch
unfolding validate_dns_response check_response_header bytes_eq
nothing-invalid = refl

serve-answers_example :
    (serve show host configuration (ok (query 7)) [] world).1
    ≡ ok (record { body = answers (upstream b'y') (query_wire 7); cache_hit = false })
serve-answers_example =
    serve-answers show host 5000000000 answers configuration (query 7) [] (query_wire 7)
      (b'n' ∷ b'o' ∷ b'n' ∷ b'e' ∷ []) (upstream b'x' ∷ []) [] (upstream b'y') metadata
      (answer 0 1 44) world host-Calm refl (omega arith) (unfold apply_outbound_ecs in refl)
      configuration-selects (inr (response_mismatch, nothing-invalid), tt) refl
      (unfold bytes_eq in answer-validated) (unfold bytes_eq in ground arith)

serve-IsAnswer_example :
    IsAnswer (query 7) (record { body = answers (upstream b'y') (query_wire 7); cache_hit = false })
serve-IsAnswer_example =
    serve-IsAnswer show host configuration (query 7) [] world _ (omega arith) serve-answers_example

serve-safe_example : (serve show host configuration (ok (query 7)) [] world).1 ≢ panic
serve-safe_example = serve-safe show host configuration (ok (query 7)) [] world (λ e. cc)

serve-IsLater_example : IsLater world (serve show host configuration (ok (query 7)) [] world).0
serve-IsLater_example = serve-IsLater show host configuration (ok (query 7)) [] world (λ e. cc)

abbrev put_key : Bytes
put_key = b'k' ∷ b':' ∷ b'n' ∷ []

answer-stored : (store_answer host configuration put_key metadata (answer 0 1 44) world).1 ≡ ok tt
unfolding store_answer now accept_now check_context ensure_live bounded_host_call ask ◌>>=◌ give
answer-stored = refl

store_answer-hits_example :
    (i j : ℕ) × (e : CacheEntry) × (host.cache_put i put_key e ≡ completed tt)
    × (host.clock_now j ≡ completed e.stored_at)
    × (e.response ≡ answer 0 1 44)
    × (e.expires_at ≡ e.stored_at + 300 * second)
    × ((serve_hit host configuration (query 9) 245000000000 e world).1 ≡ (
        if leb e.stored_at 245000000000 && ltb 245000000000 e.expires_at
        then hit_body (
            clamp_dns_response_ttls
              (response_with_id (answer 0 1 44) 9)
              ((e.expires_at - 245000000000) / second % 4294967296))
        else err cache_unavailable))
store_answer-hits_example =
    store_answer-hits host host configuration (query 7) (query 9) put_key (answer 7 1 44)
      (answer 0 1 44) metadata 245000000000 world world (λ i t e. ground (arith, e)) (λ i. refl)
      (λ i. refl) answer-validated refl (omega arith) (omega arith) answer-stored refl (omega arith)
