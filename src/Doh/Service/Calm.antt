-- ===== src/Doh/Service/Calm.antt =====
-- A request on a calm host returns the answer of the first upstream that gives a valid one.
use sakullla_plugins.Base.{
  ℕ, ◌+◌, ◌*◌, ◌<◌, Bool, true, false, not, ◌&&◌, none, List, [], ◌∷◌, ◌++◌, ◌≡◌, ◌⊎◌, inl, inr,
  refl, sym, ap, subst, ◌∙◌, arith, All, if-elim, ltb, leb, Bytes, ok, err,
}
use sakullla_plugins.Doh.Wire.{DohError, Parsed, revoked, concurrency_exhausted}
use sakullla_plugins.Doh.Config.{Upstream, Configuration, upstreams_for_name, question_name}
use sakullla_plugins.Doh.Wire.Query.{ParsedQuery}
use sakullla_plugins.Doh.Wire.Response.{ResponseMetadata, validate_dns_response, response_with_id}
use sakullla_plugins.Doh.Wire.Response.Cached.{response_with_id-validated}
use sakullla_plugins.Doh.Host.{completed, Host, World, Serve, now}
use sakullla_plugins.Doh.Service.{
  HttpResponse, word, second, store_answer, answer_valid, answer_response, answer_resolved,
  try_upstreams, apply_outbound_ecs, serve_query, serve,
}
use sakullla_plugins.Doh.Service.Ends.{
  Calm, ClockFits, Ends, >>=-Ends, give-Ends, lift-Ends, ask-Ends, passes-Ends, check_context-Ends,
  ensure_live-Ends, bounded_host_call-Ends, now-Ends, update_status-Ends, relabels-Ends,
}

-- An upstream that the loop goes past.
abbrev pub IsSkipped : ParsedQuery → (Upstream → Bytes) → Upstream → Type 0
IsSkipped q answers u =
    (u.enabled ≡ false) ⊎ ((e : DohError) × (validate_dns_response q (answers u) ≡ err e))

on_off : (b : Bool) → b ≡ true → not b ≡ true → ⊥
on_off b on off = ground (arith, on, off)

off_on : (b : Bool) → b ≡ false → not b ≡ false → ⊥
off_on b off on = ground (arith, off, on)

module _ (host : Host) (t : ℕ) (answers : Upstream → Bytes → Bytes)
    (calm : Calm host t answers) where
  store_answer-Ends :
      (c : Configuration) (key : Bytes) (m : ResponseMetadata) (n : Bytes)
      → t + c.max_ttl_seconds * second < word
      → Ends t (store_answer host c key m n) (ok tt)
  unfolding store_answer
  store_answer-Ends c key m n fits =
      if-elim (λ a. Ends t a (ok tt))
        (m.cacheable && (leb c.min_ttl_seconds m.ttl && ltb 0 c.max_ttl_seconds))
        (λ _.
          >>=-Ends t _ _ t _
            ((relabels-Ends host t answers calm) (now host) t (now-Ends host t answers calm))
            (>>=-Ends t _ _ tt _ (ensure_live-Ends host t answers calm) (
              >>=-Ends t _ _ tt _ (passes-Ends t _ _ (ground (arith, fits))) (
                >>=-Ends t _ _ (completed tt) _
                  ((bounded_host_call-Ends host t answers calm) _ (completed tt)
                    (λ i. calm.put i key _))
                  (>>=-Ends t _ _ tt _ (give-Ends t tt) (ensure_live-Ends host t answers calm))))))
        (λ _. give-Ends t tt)

  module _ (c : Configuration) (q : ParsedQuery) (key outbound : Bytes) where
    answer_valid-Ends :
        (u : Upstream) (m : ResponseMetadata) (n : Bytes)
        → t + c.max_ttl_seconds * second < word
        → Ends t
            (answer_valid host c q key u (m, n))
            (ok (record { body = response_with_id n q.id; cache_hit = false }))
    unfolding answer_valid
    answer_valid-Ends u m n fits = >>=-Ends t _ _ tt _ (ensure_live-Ends host t answers calm) (
        >>=-Ends t _ _ tt _ ((update_status-Ends host t answers calm) u.id _ false)
          (>>=-Ends t _ _ tt _ (store_answer-Ends c key m n fits) (give-Ends t _)))

    resolved_valid :
        (u : Upstream) (next : Serve HttpResponse) (m : ResponseMetadata) (n : Bytes)
        (r : Parsed HttpResponse)
        → validate_dns_response q (answers u outbound) ≡ ok (m, n)
        → Ends t (answer_valid host c q key u (m, n)) r
        → Ends t (answer_resolved host c q key u next (completed (answers u outbound))) r
    resolved_valid u next m n r valid h = rw valid h

    resolved_invalid :
        (u : Upstream) (next : Serve HttpResponse) (e : DohError) (r : Parsed HttpResponse)
        → validate_dns_response q (answers u outbound) ≡ err e
        → Ends t (answer_response host c q key u next (err e)) r
        → Ends t (answer_resolved host c q key u next (completed (answers u outbound))) r
    resolved_invalid u next e r bad h = rw bad h

    try_upstreams-Ends :
        (past rest : List Upstream) (u : Upstream) (m : ResponseMetadata) (n : Bytes)
        → All (IsSkipped q (λ v. answers v outbound)) past
        → u.enabled ≡ true
        → validate_dns_response q (answers u outbound) ≡ ok (m, n)
        → t + c.max_ttl_seconds * second < word
        → Ends t
            (try_upstreams host c q key outbound (past ++ (u ∷ rest)))
            (ok (record { body = response_with_id n q.id; cache_hit = false }))
    unfolding try_upstreams
    try_upstreams-Ends [] rest u m n skipped on valid fits =
        if-elim
          (λ (a : Serve HttpResponse).
            Ends t a (ok (record { body = response_with_id n q.id; cache_hit = false })))
          (not u.enabled) (λ off. absurd (on_off u.enabled on off))
          (λ _.
            >>=-Ends t _ _ (completed (answers u outbound)) _
              ((bounded_host_call-Ends host t answers calm) _ _ (λ i. calm.resolves i u outbound))
              (resolved_valid u _ m n _ valid (answer_valid-Ends u m n fits)))
    try_upstreams-Ends (v ∷ past) rest u m n (inl off, skipped) on valid fits =
        if-elim
          (λ (a : Serve HttpResponse).
            Ends t a (ok (record { body = response_with_id n q.id; cache_hit = false })))
          (not v.enabled) (λ _. try_upstreams-Ends past rest u m n skipped on valid fits)
          (λ on_v. absurd (off_on v.enabled off on_v))
    try_upstreams-Ends (v ∷ past) rest u m n (inr (e, bad), skipped) on valid fits =
        let later = try_upstreams-Ends past rest u m n skipped on valid fits in
        if-elim
          (λ (a : Serve HttpResponse).
            Ends t a (ok (record { body = response_with_id n q.id; cache_hit = false })))
          (not v.enabled) (λ _. later)
          (λ _.
            >>=-Ends t _ _ (completed (answers v outbound)) _
              ((bounded_host_call-Ends host t answers calm) _ _ (λ i. calm.resolves i v outbound))
              (resolved_invalid v _ e _ bad
                (>>=-Ends t _ _ tt _ ((update_status-Ends host t answers calm) v.id _ true) later)))

  serve_query-Ends :
      (c : Configuration) (q : ParsedQuery) (outbound source : Bytes) (r : Parsed HttpResponse)
      → ((key : Bytes)
          → Ends t
              (try_upstreams host c q key outbound
                (upstreams_for_name c (question_name q.question)))
              r)
      → Ends t (serve_query host c q (outbound, source)) r
  unfolding serve_query
  serve_query-Ends c q outbound source r rest =
      >>=-Ends t _ _ tt _ (check_context-Ends host t answers calm) (
        >>=-Ends t _ _ tt _ (ensure_live-Ends host t answers calm) (
          >>=-Ends t _ _ t _ (now-Ends host t answers calm) (
            >>=-Ends t _ _ tt _ (ensure_live-Ends host t answers calm) (
              >>=-Ends t _ _ none _
                (>>=-Ends t _ _ (completed none) _
                  ((bounded_host_call-Ends host t answers calm) _ _ (λ i. calm.missed i _ t))
                  (give-Ends t none))
                (>>=-Ends t _ _ tt _ (ensure_live-Ends host t answers calm) (rest _))))))

  serve-Ends :
      (show : Bytes → Bytes) (c : Configuration) (q : ParsedQuery)
      (forwarded outbound source : Bytes) (r : Parsed HttpResponse)
      → apply_outbound_ecs show q forwarded ≡ ok (outbound, source)
      → Ends t (serve_query host c q (outbound, source)) r
      → Ends t (serve show host c (ok q) forwarded) r
  unfolding serve
  serve-Ends show c q forwarded outbound source r out rest =
      >>=-Ends t _ _ tt _ (check_context-Ends host t answers calm) (
        >>=-Ends t _ _ true _ (ask-Ends t host.is_live true calm.live) (
          >>=-Ends t _ _ tt _ (passes-Ends t false revoked refl) (
            >>=-Ends t _ _ tt _ (check_context-Ends host t answers calm) (
              >>=-Ends t _ _ q _ (lift-Ends t (ok q)) (
                >>=-Ends t _ _ (outbound, source) _ (subst (Ends t _) out (lift-Ends t _))
                  (>>=-Ends t _ _ true _ (ask-Ends t host.has_place true calm.place) (
                    >>=-Ends t _ _ tt _ (passes-Ends t false concurrency_exhausted refl) rest)))))))

-- On a calm host a request is answered: when one of the upstreams that the configuration selects for the
-- queried name is enabled and answers the outbound message, which applyOutboundECS makes of the query,
-- with a valid message of bytes, and every one before it is disabled or answers with an invalid one, then
-- the request returns the very bytes of that upstream, as a fresh response. The clock of the host is not
-- behind the service's, and the longest lifetime from its time on fits 64 bits.
pub serve-answers :
    (show : Bytes → Bytes) (host : Host) (t : ℕ) (answers : Upstream → Bytes → Bytes)
    (c : Configuration) (q : ParsedQuery) (forwarded outbound source : Bytes)
    (past rest : List Upstream) (u : Upstream) (m : ResponseMetadata) (n : Bytes) (w : World)
    → Calm host t answers
    → ClockFits t w
    → t + c.max_ttl_seconds * second < word
    → apply_outbound_ecs show q forwarded ≡ ok (outbound, source)
    → upstreams_for_name c (question_name q.question) ≡ past ++ (u ∷ rest)
    → All (IsSkipped q (λ v. answers v outbound)) past
    → u.enabled ≡ true
    → validate_dns_response q (answers u outbound) ≡ ok (m, n)
    → All (λ b. b < 256) (answers u outbound)
    → (serve show host c (ok q) forwarded w).1
      ≡ ok (record { body = answers u outbound; cache_hit = false })
unfolding Ends
serve-answers show host t answers c q forwarded outbound source past rest u m n w calm on_time fits
      out selected skipped on valid bytes =
    let upstream = λ (key : Bytes).
      subst
        (λ us.
          Ends t (try_upstreams host c q key outbound us)
            (ok (record { body = response_with_id n q.id; cache_hit = false })))
        (sym selected)
        (try_upstreams-Ends host t answers calm c q key outbound past rest u m n skipped on valid
          fits) in
    (serve-Ends host t answers calm show c q forwarded outbound source _ out
      (serve_query-Ends host t answers calm c q outbound source _ upstream) w on_time).0
    ∙ ap (λ b. ok (record { body = b; cache_hit = false }))
        (response_with_id-validated q _ m n bytes valid)
