-- ===== src/Doh/Service.antt =====
-- plugins/doh/service.go: serving one parsed query, a hit from the cache or an answer of the first
-- upstream that gives a valid one.
pub mod Closed
pub mod Outcomes
pub mod Bodies
pub mod Ends
pub mod Calm
pub mod Hits
mod Examples
use sakullla_plugins.Base.{
  ℕ, zero, suc, ◌+◌, ◌-◌, ◌*◌, ◌/◌, ◌%◌, Bool, true, false, not, ◌&&◌, ◌||◌, Option, none, some,
  List, [], ◌∷◌, ◌++◌, ltb, leb, ◌==◌, if◌then◌else◌, Bytes, bytes_eq, Result, ok, err, panic,
}
use sakullla_plugins.Doh.Wire.{
  DohError, Parsed, revoked, clock_unavailable, cache_unavailable, no_healthy_upstream,
  concurrency_exhausted,
}
use sakullla_plugins.Doh.Cache.{CacheEntry}
use sakullla_plugins.Doh.Config.{Upstream, Configuration, upstreams_for_name, question_name}
use sakullla_plugins.Doh.Host.{
  HostCall, Host, StatusResult, UpstreamStatus, World, Serve, bind_result, ◌>>=◌, ◌>>◌, give,
  refuse, refuse_if, ask, error_or, check_context, ensure_live, call_or_failed, bounded_host_call,
  safe_runtime_error, completed_or, accept_now, now, bump, set_status, write_status, update_status,
  completed, failed, context_done, unknown, timeout, failing, invalid_response, healthy,
}
use sakullla_plugins.Doh.Wire.Edns.{inject_ecs}
use sakullla_plugins.Doh.Wire.Query.{ParsedQuery}
use sakullla_plugins.Doh.Wire.Response.{
  ResponseMetadata, validate_dns_response, clamp_dns_response_ttls, response_with_id,
}

pub record HttpResponse : Type 0 where
  pub body : Bytes
  pub cache_hit : Bool

abbrev pub second : ℕ
second = 1000000000

abbrev pub word : ℕ
word = 18446744073709551616

abbrev pub min_of : ℕ → ℕ → ℕ
min_of a b = if ltb b a then b else a

-- The lifetime of a cached entry, against the TTL of its response and the limits.
abbrev pub bad_lifetime : ℕ → ℕ → CacheEntry → Bool
bad_lifetime lifetime now e =
    let latest = (e.stored_at + lifetime) % word in
    (lifetime == 0)
    || (ltb latest e.stored_at
        || (ltb now e.stored_at
            || (leb e.expires_at now || (leb e.expires_at e.stored_at || ltb latest e.expires_at))))

abbrev pub or_cache_unavailable : {A : Type 0} → Parsed A → Serve A
or_cache_unavailable (ok a) w = (w, ok a)
or_cache_unavailable (err e) w = (w, err cache_unavailable)
or_cache_unavailable panic w = (w, panic)

abbrev pub not_for_cache : Configuration → ResponseMetadata → Bool
not_for_cache c m = not m.cacheable || ltb m.ttl c.min_ttl_seconds

unfoldable pub serve_hit : Host → Configuration → ParsedQuery → ℕ → CacheEntry → Serve HttpResponse
serve_hit host c query now entry = do
  let candidate = response_with_id entry.response query.id
  (metadata, _) ← or_cache_unavailable (validate_dns_response query candidate)
  refuse_if (not_for_cache c metadata) cache_unavailable
  refuse_if (bad_lifetime (min_of metadata.ttl c.max_ttl_seconds * second) now entry)
      cache_unavailable
  clamped ←
      or_cache_unavailable
        (clamp_dns_response_ttls candidate ((entry.expires_at - now) / second % 4294967296))
  ensure_live host
  give (record { body = clamped; cache_hit = true })

abbrev pub clock_error : {A : Type 0} → World × Parsed A → World × Parsed A
clock_error (w, ok a) = (w, ok a)
clock_error (w, err e) = (w, err clock_unavailable)
clock_error (w, panic) = (w, panic)

abbrev pub with_clock_error : {A : Type 0} → Serve A → Serve A
with_clock_error act w = clock_error (act w)

-- Put a fresh answer in the cache, where its TTL allows that.
unfoldable pub store_answer :
    Host → Configuration → Bytes → ResponseMetadata → Bytes → Serve (Unit {0})
store_answer host c key metadata normalized =
    if metadata.cacheable && (leb c.min_ttl_seconds metadata.ttl && ltb 0 c.max_ttl_seconds)
    then (do
      cache_now ← with_clock_error (now host)
      ensure_live host
      let expires = (cache_now + min_of metadata.ttl c.max_ttl_seconds * second) % word
      refuse_if (ltb expires cache_now) clock_unavailable
      put ← bounded_host_call host (λ n.
          host.cache_put n key
            (record { response = normalized; stored_at = cache_now; expires_at = expires }))
      completed_or cache_unavailable put
      ensure_live host)
    else give tt

-- A response of an upstream, or the status under which the loop goes on to the next.
abbrev pub lift : {A : Type 0} → Parsed A → Serve A
lift r w = (w, r)

unfoldable pub answer_valid :
    Host
    → Configuration
    → ParsedQuery
    → Bytes
    → Upstream
    → ResponseMetadata × Bytes
    → Serve HttpResponse
answer_valid host c query key u (metadata, normalized) = do
  ensure_live host
  update_status host u.id healthy false
  store_answer host c key metadata normalized
  give (record { body = response_with_id normalized query.id; cache_hit = false })

-- The rest of the loop is `next`.
abbrev pub answer_response :
    Host
    → Configuration
    → ParsedQuery
    → Bytes
    → Upstream
    → Serve HttpResponse
    → Parsed (ResponseMetadata × Bytes)
    → Serve HttpResponse
answer_response host c query key u next (ok r) = answer_valid host c query key u r
answer_response host c query key u next (err e) =
    update_status host u.id invalid_response true >> next
answer_response host c query key u next panic = lift panic

abbrev pub answer_resolved :
    Host
    → Configuration
    → ParsedQuery
    → Bytes
    → Upstream
    → Serve HttpResponse
    → HostCall Bytes
    → Serve HttpResponse
answer_resolved host c query key u next (completed wire) =
    answer_response host c query key u next (validate_dns_response query wire)
answer_resolved host c query key u next (failed e) = update_status host u.id failing true >> next
answer_resolved host c query key u next (context_done e) =
    update_status host u.id timeout true >> (check_context host >> next)

unfoldable pub try_upstreams :
    Host → Configuration → ParsedQuery → Bytes → Bytes → List Upstream → Serve HttpResponse
try_upstreams host c query key outbound [] = refuse no_healthy_upstream
try_upstreams host c query key outbound (u ∷ us) =
    let next = try_upstreams host c query key outbound us in
    if not u.enabled
    then next
    else bounded_host_call host (λ n. host.resolve n u outbound)
      >>= answer_resolved host c query key u next

abbrev pub hit_or_resolve :
    Host → Configuration → ParsedQuery → Bytes → Bytes → ℕ → Option CacheEntry → Serve HttpResponse
hit_or_resolve host c query key outbound time (some entry) = serve_hit host c query time entry
hit_or_resolve host c query key outbound time none =
    try_upstreams host c query key outbound (upstreams_for_name c (question_name query.question))

-- `applyOutboundECS`; the empty address is nil, and `show` is `IP.String`.
abbrev pub is_nil : Bytes → Bool
is_nil [] = true
is_nil (b ∷ bs) = false

abbrev pub forwarded_prefix : Bytes
forwarded_prefix = b'f' ∷ b'o' ∷ b'r' ∷ b'w' ∷ b'a' ∷ b'r' ∷ b'd' ∷ b'e' ∷ b'd' ∷ b':' ∷ []

abbrev pub or_plain : Bytes → Bytes → Parsed Bytes → Parsed (Bytes × Bytes)
or_plain wire source (ok injected) = ok (injected, source)
or_plain wire source (err e) = ok (wire, b'n' ∷ b'o' ∷ b'n' ∷ b'e' ∷ [])
or_plain wire source panic = panic

unfoldable pub apply_outbound_ecs : (Bytes → Bytes) → ParsedQuery → Bytes → Parsed (Bytes × Bytes)
apply_outbound_ecs show query forwarded =
    if query.has_ecs
    then ok (query.wire, b'q' ∷ b'u' ∷ b'e' ∷ b'r' ∷ b'y' ∷ [])
    else if is_nil forwarded
    then ok (query.wire, b'n' ∷ b'o' ∷ b'n' ∷ b'e' ∷ [])
    else or_plain query.wire (forwarded_prefix ++ show forwarded) (inject_ecs query.wire forwarded)

-- `serve` behind the semaphore.
unfoldable pub serve_query : Host → Configuration → ParsedQuery → Bytes × Bytes → Serve HttpResponse
serve_query host c query (outbound, source) = do
  let key = query.key ++ (b':' ∷ source)
  check_context host
  ensure_live host
  time ← now host
  ensure_live host
  found ← bounded_host_call host (λ n. host.cache_get n key time) >>= completed_or cache_unavailable
  ensure_live host
  hit_or_resolve host c query key outbound time found

-- `serve`, on what `parseHTTPRequest` and `parseForwardedFor` return; the first live test and the context
-- test behind it are those of `beginRequest`.
unfoldable pub serve :
    (Bytes → Bytes) → Host → Configuration → Parsed ParsedQuery → Bytes → Serve HttpResponse
serve show host c parsed forwarded = do
  check_context host
  live ← ask host.is_live
  refuse_if (not live) revoked
  check_context host
  query ← lift parsed
  outbound ← lift (apply_outbound_ecs show query forwarded)
  place ← ask host.has_place
  refuse_if (not place) concurrency_exhausted
  serve_query host c query outbound
