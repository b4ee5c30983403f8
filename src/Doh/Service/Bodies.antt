-- ===== src/Doh/Service/Bodies.antt =====
-- Every response that the service returns answers the query.
use sakullla_plugins.Base.{
  ℕ, ◌+◌, ◌-◌, ◌/◌, ◌%◌, ◌<◌, true, false, not, Option, none, some, List, [], ◌∷◌, ◌≡◌, refl,
  if-elim, length, take, Bytes, ok, err, panic,
}
use sakullla_plugins.Doh.Wire.{Parsed, no_healthy_upstream}
use sakullla_plugins.Doh.Cache.{CacheEntry}
use sakullla_plugins.Doh.Config.{Upstream, Configuration, upstreams_for_name, question_name}
use sakullla_plugins.Doh.Wire.Name.{parse_question_name}
use sakullla_plugins.Doh.Wire.Query.{ParsedQuery}
use sakullla_plugins.Doh.Wire.Response.{
  ResponseMetadata, validate_dns_response, clamp_dns_response_ttls, response_with_id,
}
use sakullla_plugins.Doh.Wire.Response.Cached.{stored_response-valid}
use sakullla_plugins.Doh.Wire.Response.Clamp.{clamp_dns_response_ttls-KeepsLength}
use sakullla_plugins.Doh.Wire.Response.Front.{clamp-KeepsFront}
use sakullla_plugins.Doh.Host.{HostCall, completed, failed, context_done, Host, World, Serve, ◌>>=◌}
use sakullla_plugins.Doh.Host.Ensures.{
  Ensures, >>=-Ensures, >>-Ensures, give-Ensures, refuse-Ensures,
}
use sakullla_plugins.Doh.Service.{
  HttpResponse, second, or_cache_unavailable, serve_hit, answer_valid, answer_response,
  answer_resolved, try_upstreams, hit_or_resolve, serve_query, serve, lift,
}

-- What a response body says of a query: its header and question are those of a message that is valid for
-- the query, it is as long, and a fresh body is that message.
pub record IsAnswer (q : ParsedQuery) (r : HttpResponse) : Type 0 where
  pub valid : Bytes
  pub metadata : ResponseMetadata
  pub normalized : Bytes
  pub validated : validate_dns_response q valid ≡ ok (metadata, normalized)
  pub same_length : length r.body ≡ length valid
  pub same_front :
      (e : ℕ) (name : Bytes)
      → parse_question_name valid 12 ≡ ok (e, name)
      → take (e + 4) r.body ≡ take (e + 4) valid
  pub fresh : r.cache_hit ≡ false → r.body ≡ valid

or_cache_unavailable-Ensures :
    {A : Type 0} (r : Parsed A) → Ensures (λ a. r ≡ ok a) (or_cache_unavailable r)
unfolding Ensures
or_cache_unavailable-Ensures (ok a) w b h = h
or_cache_unavailable-Ensures (err e) w b h = cc
or_cache_unavailable-Ensures panic w b h = cc

lift-panic-Ensures : {A : Type 0} (P : A → Type 0) → Ensures P (lift panic)
unfolding Ensures
lift-panic-Ensures P w b h = cc

lift-Ensures :
    {A B : Type 0} (P : B → Type 0) (a : A) (next : A → Serve B)
    → Ensures P (next a)
    → Ensures P (lift (ok a) >>= next)
unfolding Ensures ◌>>=◌
lift-Ensures P a next rest = rest

clamped-IsAnswer :
    (q : ParsedQuery) (wire v : Bytes) (limit : ℕ) (m : ResponseMetadata) (n : Bytes)
    → validate_dns_response q wire ≡ ok (m, n)
    → clamp_dns_response_ttls wire limit ≡ ok v
    → IsAnswer q (record { body = v; cache_hit = true })
clamped-IsAnswer q wire v limit m n valid clamped = record {
  valid = wire;
  metadata = m;
  normalized = n;
  validated = valid;
  same_length = (clamp_dns_response_ttls-KeepsLength wire limit).1 v clamped;
  same_front = λ e name named. clamp-KeepsFront wire v limit e name clamped named;
  fresh = λ no. cc;
}

serve_hit-IsAnswer :
    (host : Host) (c : Configuration) (q : ParsedQuery) (time : ℕ) (entry : CacheEntry)
    → Ensures (IsAnswer q) (serve_hit host c q time entry)
unfolding serve_hit
serve_hit-IsAnswer host c q time entry =
    let wire = response_with_id entry.response q.id in
    let limit = (entry.expires_at - time) / second % 4294967296 in
    >>=-Ensures (λ r. validate_dns_response q wire ≡ ok r) (IsAnswer q) _ _
      (or_cache_unavailable-Ensures (validate_dns_response q wire))
      (λ (m, n) valid. >>-Ensures (IsAnswer q) _ _ (λ _. >>-Ensures (IsAnswer q) _ _ (λ _.
        >>=-Ensures (λ v. clamp_dns_response_ttls wire limit ≡ ok v) (IsAnswer q) _ _
          (or_cache_unavailable-Ensures (clamp_dns_response_ttls wire limit))
          (λ v clamped. >>-Ensures (IsAnswer q) _ _ (λ _.
            give-Ensures (IsAnswer q) _ (clamped-IsAnswer q wire v limit m n valid clamped))))))

-- The response of an upstream is returned as the stored bytes under the identifier of the query.
answer_valid-IsAnswer :
    (host : Host) (c : Configuration) (q : ParsedQuery) (key : Bytes) (u : Upstream) (wire : Bytes)
    (m : ResponseMetadata) (n : Bytes)
    → q.id < 65536
    → validate_dns_response q wire ≡ ok (m, n)
    → Ensures (IsAnswer q) (answer_valid host c q key u (m, n))
unfolding answer_valid
answer_valid-IsAnswer host c q key u wire m n small valid = >>-Ensures (IsAnswer q) _ _ (λ _.
    >>-Ensures (IsAnswer q) _ _ (λ _. >>-Ensures (IsAnswer q) _ _ (λ _.
      give-Ensures (IsAnswer q) _ (record {
        valid = response_with_id n q.id;
        metadata = m;
        normalized = n;
        validated = stored_response-valid q q wire m n valid refl small;
        same_length = refl;
        same_front = λ e name named. refl;
        fresh = λ _. refl;
      }))))

answer_response-IsAnswer :
    (host : Host) (c : Configuration) (q : ParsedQuery) (key : Bytes) (u : Upstream) (wire : Bytes)
    (next : Serve HttpResponse) (r : Parsed (ResponseMetadata × Bytes))
    → q.id < 65536
    → Ensures (IsAnswer q) next
    → validate_dns_response q wire ≡ r
    → Ensures (IsAnswer q) (answer_response host c q key u next r)
answer_response-IsAnswer host c q key u wire next (ok (m, n)) small rest valid =
    answer_valid-IsAnswer host c q key u wire m n small valid
answer_response-IsAnswer host c q key u wire next (err e) small rest valid =
    >>-Ensures (IsAnswer q) _ _ (λ _. rest)
answer_response-IsAnswer host c q key u wire next panic small rest valid =
    lift-panic-Ensures (IsAnswer q)

answer_resolved-IsAnswer :
    (host : Host) (c : Configuration) (q : ParsedQuery) (key : Bytes) (u : Upstream)
    (next : Serve HttpResponse) (call : HostCall Bytes)
    → q.id < 65536
    → Ensures (IsAnswer q) next
    → Ensures (IsAnswer q) (answer_resolved host c q key u next call)
answer_resolved-IsAnswer host c q key u next (completed wire) small rest =
    answer_response-IsAnswer host c q key u wire next _ small rest refl
answer_resolved-IsAnswer host c q key u next (failed e) small rest =
    >>-Ensures (IsAnswer q) _ _ (λ _. rest)
answer_resolved-IsAnswer host c q key u next (context_done e) small rest =
    >>-Ensures (IsAnswer q) _ _ (λ _. >>-Ensures (IsAnswer q) _ _ (λ _. rest))

try_upstreams-IsAnswer :
    (host : Host) (c : Configuration) (q : ParsedQuery) (key outbound : Bytes) (us : List Upstream)
    → q.id < 65536
    → Ensures (IsAnswer q) (try_upstreams host c q key outbound us)
unfolding try_upstreams
try_upstreams-IsAnswer host c q key outbound [] small =
    refuse-Ensures (IsAnswer q) no_healthy_upstream
try_upstreams-IsAnswer host c q key outbound (u ∷ us) small =
    let rest = try_upstreams-IsAnswer host c q key outbound us small in
    if-elim (Ensures (IsAnswer q)) (not u.enabled) (λ _. rest)
      (λ _.
        >>-Ensures (IsAnswer q) _ _
          (λ call. answer_resolved-IsAnswer host c q key u _ call small rest))

hit_or_resolve-IsAnswer :
    (host : Host) (c : Configuration) (q : ParsedQuery) (key outbound : Bytes) (time : ℕ)
    (found : Option CacheEntry)
    → q.id < 65536
    → Ensures (IsAnswer q) (hit_or_resolve host c q key outbound time found)
hit_or_resolve-IsAnswer host c q key outbound time (some entry) small =
    serve_hit-IsAnswer host c q time entry
hit_or_resolve-IsAnswer host c q key outbound time none small =
    try_upstreams-IsAnswer host c q key outbound (upstreams_for_name c (question_name q.question))
      small

serve_query-IsAnswer :
    (host : Host) (c : Configuration) (q : ParsedQuery) (out : Bytes × Bytes)
    → q.id < 65536
    → Ensures (IsAnswer q) (serve_query host c q out)
unfolding serve_query
serve_query-IsAnswer host c q (outbound, source) small = >>-Ensures (IsAnswer q) _ _ (λ _.
    >>-Ensures (IsAnswer q) _ _ (λ _. >>-Ensures (IsAnswer q) _ _ (λ time.
      >>-Ensures (IsAnswer q) _ _ (λ _. >>-Ensures (IsAnswer q) _ _ (λ found.
        >>-Ensures (IsAnswer q) _ _
          (λ _. hit_or_resolve-IsAnswer host c q _ outbound time found small))))))

-- Every response that the service returns for a query with a 16-bit identifier answers that query, with
-- any cache, resolver and clock behind it and from any state: the header and the question are those of a
-- message that validates against the query, the body is as long as that message, and a body that is not
-- from the cache is that message.
pub serve-IsAnswer :
    (show : Bytes → Bytes) (host : Host) (c : Configuration) (q : ParsedQuery) (forwarded : Bytes)
    (w : World) (r : HttpResponse)
    → q.id < 65536
    → (serve show host c (ok q) forwarded w).1 ≡ ok r
    → IsAnswer q r
unfolding serve Ensures
serve-IsAnswer show host c q forwarded w r small h =
    let all : Ensures (IsAnswer q) (serve show host c (ok q) forwarded) =
      >>-Ensures (IsAnswer q) _ _ (λ _. >>-Ensures (IsAnswer q) _ _ (λ _.
        >>-Ensures (IsAnswer q) _ _ (λ _. >>-Ensures (IsAnswer q) _ _ (λ _.
          lift-Ensures (IsAnswer q) q _ (
            >>-Ensures (IsAnswer q) _ _ (λ out. >>-Ensures (IsAnswer q) _ _ (λ _.
              >>-Ensures (IsAnswer q) _ _ (λ _. serve_query-IsAnswer host c q out small)))))))) in
    all w r h
