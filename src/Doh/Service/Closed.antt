-- ===== src/Doh/Service/Closed.antt =====
-- What holds of each step of a request and is kept by sequencing holds of the whole request.
use sakullla_plugins.Base.{
  ℕ, Bool, true, false, not, ◌&&◌, Option, none, some, List, [], ◌∷◌, leb, ltb, ◌≢◌, refl, if-elim,
  Bytes, ok, err, panic,
}
use sakullla_plugins.Doh.Wire.{DohError, Parsed, no_healthy_upstream}
use sakullla_plugins.Doh.Cache.{CacheEntry}
use sakullla_plugins.Doh.Config.{Upstream, Configuration, upstreams_for_name, question_name}
use sakullla_plugins.Doh.Wire.Edns.Safe.{inject_ecs-safe}
use sakullla_plugins.Doh.Wire.Query.{ParsedQuery}
use sakullla_plugins.Doh.Wire.Response.{ResponseMetadata}
use sakullla_plugins.Doh.Wire.Response.Clamp.{clamp_dns_response_ttls-KeepsLength}
use sakullla_plugins.Doh.Wire.Response.Safe.{validate_dns_response-safe}
use sakullla_plugins.Doh.Host.{
  HostCall, completed, failed, context_done, Host, Serve, ◌>>=◌, give, refuse, refuse_if, ask,
  check_context, ensure_live, bounded_host_call, call_or_failed, completed_or, accept_now, now,
  write_status, update_status, error_or, StatusResult,
}
use sakullla_plugins.Doh.Service.{
  HttpResponse, with_clock_error, or_cache_unavailable, serve_hit, store_answer, answer_valid,
  answer_response, answer_resolved, try_upstreams, hit_or_resolve, or_plain, is_nil,
  apply_outbound_ecs, serve_query, serve, lift,
}

abbrev IsFine : Parsed (Bytes × Bytes) → Type 0
IsFine r = r ≢ panic

-- The properties of actions that the steps of a request have and that sequencing keeps.
pub record Closed (P : (A : Type 0) → Serve A → Type 0) : Type 1 where
  pub asks : (A : Type 0) (question : ℕ → A) → P A (ask question)
  pub gives : (A : Type 0) (a : A) → P A (give a)
  pub refuses : (A : Type 0) (e : DohError) → P A (refuse e)
  pub lifts : (A : Type 0) (r : Parsed A) → r ≢ panic → P A (lift r)
  pub binds :
      (A B : Type 0) (act : Serve A) (next : A → Serve B)
      → P A act
      → ((a : A) → P B (next a))
      → P B (act >>= next)
  pub relabels : (A : Type 0) (act : Serve A) → P A act → P A (with_clock_error act)
  pub ticks : (t : ℕ) → P ℕ (accept_now t)
  pub notes :
      (id : Bytes) (result : StatusResult) (bumped live : Bool)
      → P Unit (write_status id result bumped live)

module _ (P : (A : Type 0) → Serve A → Type 0) (k : Closed P) where
  refuse_if-Closed : (b : Bool) (e : DohError) → P Unit (refuse_if b e)
  refuse_if-Closed true e = k.refuses _ e
  refuse_if-Closed false e = k.gives _ tt

  or_cache_unavailable-Closed :
      {A : Type 0} (r : Parsed A) → r ≢ panic → P A (or_cache_unavailable r)
  or_cache_unavailable-Closed (ok a) fine = k.lifts _ (ok a) (λ h. cc)
  or_cache_unavailable-Closed (err e) fine = k.lifts _ (err _) (λ h. cc)
  or_cache_unavailable-Closed panic fine = absurd (fine refl)

  error_or-Closed :
      {A : Type 0} (next : Serve A) (e : Option DohError) → P _ next → P _ (error_or next e)
  error_or-Closed next none h = h
  error_or-Closed next (some e) h = k.refuses _ e

  check_context-Closed : (host : Host) → P _ (check_context host)
  unfolding check_context
  check_context-Closed host =
      k.binds _ _ _ _ (k.asks _ host.context_error)
        (λ e. error_or-Closed (give tt) e (k.gives _ tt))

  ensure_live-Closed : (host : Host) → P _ (ensure_live host)
  unfolding ensure_live
  ensure_live-Closed host =
      k.binds _ _ _ _ (check_context-Closed host)
        (λ _. k.binds _ _ _ _ (k.asks _ host.is_live) (λ live. refuse_if-Closed (not live) _))

  call_or_failed-Closed :
      {A : Type 0} (call : ℕ → HostCall A) (e : Option DohError) → P _ (call_or_failed call e)
  call_or_failed-Closed call none = k.asks _ call
  call_or_failed-Closed call (some e) = k.gives _ (failed e)

  bounded_host_call-Closed :
      {A : Type 0} (host : Host) (call : ℕ → HostCall A) → P _ (bounded_host_call host call)
  unfolding bounded_host_call
  bounded_host_call-Closed host call =
      k.binds _ _ _ _ (k.asks _ host.context_error) (call_or_failed-Closed call)

  completed_or-Closed : {A : Type 0} (e : DohError) (call : HostCall A) → P _ (completed_or e call)
  completed_or-Closed e (completed a) = k.gives _ a
  completed_or-Closed e (failed x) = k.refuses _ _
  completed_or-Closed e (context_done x) = k.refuses _ _

  now-Closed : (host : Host) → P _ (now host)
  unfolding now
  now-Closed host =
      k.binds _ _ _ _
        (k.binds _ _ _ _ (bounded_host_call-Closed host host.clock_now) (completed_or-Closed _))
        k.ticks

  update_status-Closed :
      (host : Host) (id : Bytes) (result : StatusResult) (failing : Bool)
      → P _ (update_status host id result failing)
  unfolding update_status
  update_status-Closed host id result failing = k.binds _ _ _ _ (k.asks _ host.is_live) (λ live.
      if-elim (P _) live (λ _. k.binds _ _ _ _ (k.asks _ host.is_live) (k.notes id result failing))
        (λ _. k.gives _ tt))

  serve_hit-Closed :
      (host : Host) (c : Configuration) (q : ParsedQuery) (time : ℕ) (entry : CacheEntry)
      → P _ (serve_hit host c q time entry)
  unfolding serve_hit
  serve_hit-Closed host c q time entry =
      k.binds _ _ _ _ (or_cache_unavailable-Closed _ (validate_dns_response-safe q _)) (λ (m, n).
        k.binds _ _ _ _ (refuse_if-Closed _ _) (λ _. k.binds _ _ _ _ (refuse_if-Closed _ _) (λ _.
          k.binds _ _ _ _
            (or_cache_unavailable-Closed _ (clamp_dns_response_ttls-KeepsLength _ _).0)
            (λ v. k.binds _ _ _ _ (ensure_live-Closed host) (λ _. k.gives _ _)))))

  store_answer-Closed :
      (host : Host) (c : Configuration) (key : Bytes) (m : ResponseMetadata) (n : Bytes)
      → P _ (store_answer host c key m n)
  unfolding store_answer
  store_answer-Closed host c key m n =
      if-elim (P _) (m.cacheable && (leb c.min_ttl_seconds m.ttl && ltb 0 c.max_ttl_seconds))
        (λ _. k.binds _ _ _ _ (k.relabels _ _ (now-Closed host)) (λ t.
          k.binds _ _ _ _ (ensure_live-Closed host) (λ _.
            k.binds _ _ _ _ (refuse_if-Closed _ _) (λ _.
              k.binds _ _ _ _ (bounded_host_call-Closed host _) (λ put.
                k.binds _ _ _ _ (completed_or-Closed _ put) (λ _. ensure_live-Closed host))))))
        (λ _. k.gives _ tt)

  answer_valid-Closed :
      (host : Host) (c : Configuration) (q : ParsedQuery) (key : Bytes) (u : Upstream)
      (r : ResponseMetadata × Bytes)
      → P _ (answer_valid host c q key u r)
  unfolding answer_valid
  answer_valid-Closed host c q key u (m, n) = k.binds _ _ _ _ (ensure_live-Closed host) (λ _.
      k.binds _ _ _ _ (update_status-Closed host _ _ _)
        (λ _. k.binds _ _ _ _ (store_answer-Closed host c key m n) (λ _. k.gives _ _)))

  answer_response-Closed :
      (host : Host) (c : Configuration) (q : ParsedQuery) (key : Bytes) (u : Upstream)
      (next : Serve HttpResponse) (r : Parsed (ResponseMetadata × Bytes))
      → r ≢ panic
      → P _ next
      → P _ (answer_response host c q key u next r)
  answer_response-Closed host c q key u next (ok r) fine rest = answer_valid-Closed host c q key u r
  answer_response-Closed host c q key u next (err e) fine rest =
      k.binds _ _ _ _ (update_status-Closed host _ _ _) (λ _. rest)
  answer_response-Closed host c q key u next panic fine rest = absurd (fine refl)

  answer_resolved-Closed :
      (host : Host) (c : Configuration) (q : ParsedQuery) (key : Bytes) (u : Upstream)
      (next : Serve HttpResponse) (call : HostCall Bytes)
      → P _ next
      → P _ (answer_resolved host c q key u next call)
  answer_resolved-Closed host c q key u next (completed wire) rest =
      answer_response-Closed host c q key u next _ (validate_dns_response-safe q wire) rest
  answer_resolved-Closed host c q key u next (failed e) rest =
      k.binds _ _ _ _ (update_status-Closed host _ _ _) (λ _. rest)
  answer_resolved-Closed host c q key u next (context_done e) rest =
      k.binds _ _ _ _ (update_status-Closed host _ _ _)
        (λ _. k.binds _ _ _ _ (check_context-Closed host) (λ _. rest))

  try_upstreams-Closed :
      (host : Host) (c : Configuration) (q : ParsedQuery) (key outbound : Bytes)
      (us : List Upstream)
      → P _ (try_upstreams host c q key outbound us)
  unfolding try_upstreams
  try_upstreams-Closed host c q key outbound [] = k.refuses _ no_healthy_upstream
  try_upstreams-Closed host c q key outbound (u ∷ us) =
      let rest = try_upstreams-Closed host c q key outbound us in
      if-elim (P _) (not u.enabled) (λ _. rest)
        (λ _.
          k.binds _ _ _ _ (bounded_host_call-Closed host _)
            (λ call. answer_resolved-Closed host c q key u _ call rest))

  hit_or_resolve-Closed :
      (host : Host) (c : Configuration) (q : ParsedQuery) (key outbound : Bytes) (time : ℕ)
      (found : Option CacheEntry)
      → P _ (hit_or_resolve host c q key outbound time found)
  hit_or_resolve-Closed host c q key outbound time (some entry) =
      serve_hit-Closed host c q time entry
  hit_or_resolve-Closed host c q key outbound time none =
      try_upstreams-Closed host c q key outbound (upstreams_for_name c (question_name q.question))

  serve_query-Closed :
      (host : Host) (c : Configuration) (q : ParsedQuery) (out : Bytes × Bytes)
      → P _ (serve_query host c q out)
  unfolding serve_query
  serve_query-Closed host c q (outbound, source) = k.binds _ _ _ _ (check_context-Closed host) (λ _.
      k.binds _ _ _ _ (ensure_live-Closed host) (λ _. k.binds _ _ _ _ (now-Closed host) (λ time.
        k.binds _ _ _ _ (ensure_live-Closed host) (λ _.
          k.binds _ _ _ _
            (k.binds _ _ _ _ (bounded_host_call-Closed host _) (completed_or-Closed _))
            (λ found.
              k.binds _ _ _ _ (ensure_live-Closed host)
                (λ _. hit_or_resolve-Closed host c q _ outbound time found))))))

  or_plain-safe :
      (wire source : Bytes) (r : Parsed Bytes) → r ≢ panic → or_plain wire source r ≢ panic
  or_plain-safe wire source (ok injected) fine h = cc
  or_plain-safe wire source (err e) fine h = cc
  or_plain-safe wire source panic fine h = fine refl

  apply_outbound_ecs-safe :
      (show : Bytes → Bytes) (q : ParsedQuery) (forwarded : Bytes)
      → apply_outbound_ecs show q forwarded ≢ panic
  unfolding apply_outbound_ecs
  apply_outbound_ecs-safe show q forwarded =
      if-elim IsFine q.has_ecs (λ _ h. cc)
        (λ _.
          if-elim IsFine (is_nil forwarded) (λ _ h. cc)
            (λ _. or_plain-safe _ _ _ (inject_ecs-safe q.wire forwarded)))

  pub serve-Closed :
      (show : Bytes → Bytes) (host : Host) (c : Configuration) (parsed : Parsed ParsedQuery)
      (forwarded : Bytes)
      → parsed ≢ panic
      → P _ (serve show host c parsed forwarded)
  unfolding serve
  serve-Closed show host c parsed forwarded fine = k.binds _ _ _ _ (check_context-Closed host) (λ _.
      k.binds _ _ _ _ (k.asks _ host.is_live) (λ live. k.binds _ _ _ _ (refuse_if-Closed _ _) (λ _.
        k.binds _ _ _ _ (check_context-Closed host) (λ _.
          k.binds _ _ _ _ (k.lifts _ parsed fine) (λ q.
            k.binds _ _ _ _ (k.lifts _ _ (apply_outbound_ecs-safe show q forwarded)) (λ out.
              k.binds _ _ _ _ (k.asks _ host.has_place) (λ place.
                k.binds _ _ _ _ (refuse_if-Closed _ _) (λ _. serve_query-Closed host c q out))))))))
