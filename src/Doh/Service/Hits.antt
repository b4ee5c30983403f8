-- ===== src/Doh/Service/Hits.antt =====
-- A stored answer serves later queries: what `store_answer` puts in the cache, at a hit.
use sakullla_plugins.Base.{
  ℕ, ◌+◌, ◌-◌, ◌*◌, ◌/◌, ◌%◌, ◌<◌, Bool, true, false, ◌&&◌, not, none, some, Option, ◌≡◌, refl, ◌∙◌,
  ap, ◌||◌, arith, Bytes, ok, err, panic, leb, ltb, if◌then◌else◌, if-elim,
}
use sakullla_plugins.Doh.Cache.{CacheEntry}
use sakullla_plugins.Doh.Config.{Configuration}
use sakullla_plugins.Doh.Wire.{Parsed, DohError, cache_unavailable, clock_unavailable}
use sakullla_plugins.Doh.Wire.Query.{ParsedQuery}
use sakullla_plugins.Doh.Wire.Response.{
  ResponseMetadata, validate_dns_response, clamp_dns_response_ttls, response_with_id,
}
use sakullla_plugins.Doh.Wire.Response.Cached.{stored_response-valid}
use sakullla_plugins.Doh.Host.{
  Host, HostCall, completed, failed, context_done, World, Serve, bind_result, ◌>>=◌, give, refuse,
  refuse_if, ask, call_or_failed, bounded_host_call, completed_or, accept_now, now, check_context,
  ensure_live,
}
use sakullla_plugins.Doh.Service.{
  HttpResponse, word, second, min_of, bad_lifetime, not_for_cache, clock_error, with_clock_error,
  store_answer, serve_hit, or_cache_unavailable,
}

-- A sequence of steps that ends well has steps that end well.
bind-ok :
    {A B : Type 0} (act : Serve A) (next : A → Serve B) (w : World) (b : B)
    → ((act >>= next) w).1 ≡ ok b
    → (a : A) × ((act w).1 ≡ ok a) × ((next a (act w).0).1 ≡ ok b)
unfolding ◌>>=◌
bind-ok {A} {B} act next w b = go (act w)
  where
    go :
        (s : World × Parsed A)
        → (bind_result s next).1 ≡ ok b
        → (a : A) × (s.1 ≡ ok a) × ((next a s.0).1 ≡ ok b)
    go (w', ok a) h = (a, refl, h)
    go (w', err e) h = cc h
    go (w', panic) h = cc h

refuse_if-ok :
    (test : Bool) (e : DohError) (w : World) → (refuse_if test e w).1 ≡ ok tt → test ≡ false
unfolding refuse
refuse_if-ok false e w h = refl
refuse_if-ok true e w h = cc h

completed_or-ok :
    {A : Type 0} (e : DohError) (call : HostCall A) (w : World) (a : A)
    → (completed_or e call w).1 ≡ ok a
    → call ≡ completed a
unfolding give refuse
completed_or-ok e (completed x) w a h = cc h
completed_or-ok e (failed f) w a h = cc h
completed_or-ok e (context_done f) w a h = cc h

-- A host call that completes is an answer of the host.
bounded_host_call-completed :
    {A : Type 0} (host : Host) (call : ℕ → HostCall A) (w : World) (a : A)
    → (bounded_host_call host call w).1 ≡ ok (completed a)
    → (i : ℕ) × (call i ≡ completed a)
unfolding bounded_host_call ◌>>=◌ ask give
bounded_host_call-completed {A} host call w a = go (host.context_error w.asked)
  where
    go :
        (error : Option DohError)
        → (call_or_failed call error (record w { asked = w.asked + 1 })).1 ≡ ok (completed a)
        → (i : ℕ) × (call i ≡ completed a)
    go none h = (w.asked + 1, cc h)
    go (some e) h = cc h

accept_now-ok : (n t : ℕ) (w : World) → (accept_now n w).1 ≡ ok t → n ≡ t
unfolding accept_now
accept_now-ok n t w =
    if-elim (λ (s : World × Parsed ℕ). s.1 ≡ ok t → n ≡ t) (w.clock_set && ltb n w.last_now)
      (λ back h. cc h) (λ on h. cc h)

now-ok :
    (host : Host) (w : World) (t : ℕ)
    → (with_clock_error (now host) w).1 ≡ ok t
    → (i : ℕ) × (host.clock_now i ≡ completed t)
unfolding now
now-ok host w t h =
    let (n, called, accepted) = bind-ok _ accept_now w t (passes (now host w) h) in
    let (call, asked, done) = bind-ok _ (completed_or clock_unavailable) w n called in
    let at = completed_or-ok clock_unavailable call _ n done in
    bounded_host_call-completed host host.clock_now w t
      (asked ∙ ap (λ x. ok x) (at ∙ ap (λ x. completed x) (accept_now-ok n t _ accepted)))
  where
    passes : (s : World × Parsed ℕ) → (clock_error s).1 ≡ ok t → s.1 ≡ ok t
    passes (w', ok a) g = g
    passes (w', err e) g = cc g
    passes (w', panic) g = cc g

-- The entry that `store_answer` puts.
abbrev entry_at : Configuration → ResponseMetadata → Bytes → ℕ → CacheEntry
entry_at c m n t = record {
  response = n;
  stored_at = t;
  expires_at = (t + min_of m.ttl c.max_ttl_seconds * second) % word;
}

store_answer-puts :
    (host : Host) (c : Configuration) (key n : Bytes) (m : ResponseMetadata) (w : World)
    → not_for_cache c m ≡ false
    → 0 < c.max_ttl_seconds
    → (store_answer host c key m n w).1 ≡ ok tt
    → (i j t : ℕ) × (host.clock_now j ≡ completed t)
      × (ltb ((t + min_of m.ttl c.max_ttl_seconds * second) % word) t ≡ false)
      × (host.cache_put i key (entry_at c m n t) ≡ completed tt)
unfolding store_answer
store_answer-puts host c key n m w storable lasting h =
    let (t, timed, h1) = bind-ok _ _ w tt (kept _ _ (passes m.cacheable storable) h) in
    let (j, clock) = now-ok host w t timed in
    let (_, live, h2) = bind-ok _ _ _ tt h1 in
    let (_, grows, h3) = bind-ok _ _ _ tt h2 in
    let (call, asked, h4) = bind-ok _ _ _ tt h3 in
    let (_, put, h5) = bind-ok _ _ _ tt h4 in
    let (i, done) =
      bounded_host_call-completed host _ _ tt
        (asked ∙ ap (λ x. ok x) (completed_or-ok cache_unavailable call _ tt put)) in
    (i, j, t, clock, refuse_if-ok _ clock_unavailable _ grows, done)
  where
    passes :
        (b : Bool)
        → (not b || ltb m.ttl c.min_ttl_seconds) ≡ false
        → (b && (leb c.min_ttl_seconds m.ttl && ltb 0 c.max_ttl_seconds)) ≡ true
    passes b e = ground (arith, e, lasting)

    kept :
        (test : Bool) (act : Serve (Unit {0}))
        → test ≡ true
        → ((if test then act else give tt) w).1 ≡ ok tt
        → (act w).1 ≡ ok tt
    kept false act e g = cc e
    kept true act e g = g

-- The lifetime that was stored is what a hit allows, from the time it was stored to its end.
lifetime-decides :
    (lifetime stored expires now : ℕ) (n : Bytes)
    → expires ≡ stored + lifetime
    → expires < word
    → bad_lifetime lifetime now (record { response = n; stored_at = stored; expires_at = expires })
      ≡ not (leb stored now && ltb now expires)
lifetime-decides lifetime stored expires now n same fits = ground (arith, same, fits)

no-overflow :
    (ttl max t : ℕ)
    → max < 4294967296
    → t < word
    → ltb ((t + min_of ttl max * second) % word) t ≡ false
    → (t + min_of ttl max * second) % word ≡ t + min_of ttl max * second
no-overflow ttl max t small timed grows = ground (arith, small, timed, grows)

no-overflow-fits : (ttl max t : ℕ) → (t + min_of ttl max * second) % word < word
no-overflow-fits ttl max t = omega arith

ensure_live-calm :
    (host : Host) (w : World)
    → ((n : ℕ) → host.context_error n ≡ none)
    → ((n : ℕ) → host.is_live n ≡ true)
    → ensure_live host w ≡ (record w { asked = w.asked + 1 + 1 }, ok tt)
unfolding ensure_live check_context ask ◌>>=◌ give
ensure_live-calm host w calm live = rw (calm w.asked, live (w.asked + 1)) refl

-- What a hit answers, by how the clamping of the TTLs ends.
abbrev pub hit_body : Parsed Bytes → Parsed HttpResponse
hit_body (ok v) = ok (record { body = v; cache_hit = true })
hit_body (err e) = err cache_unavailable
hit_body panic = panic

serve_hit-decided :
    (later : Host) (c : Configuration) (r : ParsedQuery) (time : ℕ) (e : CacheEntry) (w : World)
    (m : ResponseMetadata) (n : Bytes) (unexpired : Bool)
    → ((i : ℕ) → later.context_error i ≡ none)
    → ((i : ℕ) → later.is_live i ≡ true)
    → validate_dns_response r (response_with_id e.response r.id) ≡ ok (m, n)
    → not_for_cache c m ≡ false
    → bad_lifetime (min_of m.ttl c.max_ttl_seconds * second) time e ≡ not unexpired
    → (serve_hit later c r time e w).1 ≡ (
        if unexpired
        then hit_body (
            clamp_dns_response_ttls
              (response_with_id e.response r.id)
              ((e.expires_at - time) / second % 4294967296))
        else err cache_unavailable)
unfolding serve_hit ◌>>=◌ give refuse
serve_hit-decided later c r time e w m n false calm live valid storable lifetime =
    rw (valid, storable, lifetime) refl
serve_hit-decided later c r time e w m n true calm live valid storable lifetime =
    rw (valid, storable, lifetime)
      (clamped (
        clamp_dns_response_ttls (response_with_id e.response r.id)
          ((e.expires_at - time) / second % 4294967296)))
  where
    clamped :
        (v : Parsed Bytes)
        → (((or_cache_unavailable v) >>= λ body.
              ensure_live later >>= λ _. give (record { body = body; cache_hit = true }))
            w).1
          ≡ hit_body v
    clamped (ok v) = rw (ensure_live-calm later w calm live) refl
    clamped (err e) = refl
    clamped panic = refl

-- What `store_answer` puts in the cache under a key serves later queries. The answer was valid for a
-- query, is cacheable with at least the least TTL, and the limit on TTLs is a positive 32-bit number;
-- the host's times have 64 bits, and `store_answer` ends without an error. Then a call of the host's put
-- under the key completed, with an entry of the normalized answer, stored at a time of the host's clock
-- and expiring after the answer's TTL, or the limit where that is less. A live service whose context
-- has not ended serves that entry, at a time that is not before it was stored and is before it
-- expires, to every query with the same question and any 16-bit identifier: the body is the stored
-- bytes under that identifier, with the TTLs clamped to the whole seconds that are left, and only where
-- the clamping fails is the answer an error. At every other time it is the error.
pub store_answer-hits :
    (host later : Host) (c : Configuration) (q r : ParsedQuery) (key wire n : Bytes)
    (m : ResponseMetadata) (time : ℕ) (w w' : World)
    → ((i t : ℕ) → host.clock_now i ≡ completed t → t < word)
    → ((i : ℕ) → later.context_error i ≡ none)
    → ((i : ℕ) → later.is_live i ≡ true)
    → validate_dns_response q wire ≡ ok (m, n)
    → not_for_cache c m ≡ false
    → 0 < c.max_ttl_seconds
    → c.max_ttl_seconds < 4294967296
    → (store_answer host c key m n w).1 ≡ ok tt
    → r.question ≡ q.question
    → r.id < 65536
    → (i j : ℕ) × (e : CacheEntry) × (host.cache_put i key e ≡ completed tt)
      × (host.clock_now j ≡ completed e.stored_at)
      × (e.response ≡ n)
      × (e.expires_at ≡ e.stored_at + min_of m.ttl c.max_ttl_seconds * second)
      × ((serve_hit later c r time e w').1 ≡ (
          if leb e.stored_at time && ltb time e.expires_at
          then hit_body (
              clamp_dns_response_ttls
                (response_with_id n r.id)
                ((e.expires_at - time) / second % 4294967296))
          else err cache_unavailable))
store_answer-hits host later c q r key wire n m time w w' timed calm live valid storable lasting
      small stored asked short =
    let (i, j, t, clock, grows, put) = store_answer-puts host c key n m w storable lasting stored in
    let same = no-overflow m.ttl c.max_ttl_seconds t small (timed j t clock) grows in
    (
      i,
      j,
      entry_at c m n t,
      put,
      clock,
      refl,
      same,
      serve_hit-decided later c r time (entry_at c m n t) w' m n _ calm live
          (stored_response-valid q r wire m n valid asked short) storable
          (lifetime-decides (min_of m.ttl c.max_ttl_seconds * second) t _ time n same
            (no-overflow-fits m.ttl c.max_ttl_seconds t)),
    )
