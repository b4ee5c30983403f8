-- ===== src/Accelerator/Dns/Lookup/Rounds.antt =====
-- The rounds of a lookup are enough: more rounds change nothing.
use sakullla_plugins.Base.{
  ℕ, zero, suc, ◌+◌, ◌≤◌, ◌<◌, Bool, true, false, not, ◌&&◌, ◌||◌, Option, none, some, List, [],
  ◌∷◌, ◌≡◌, refl, ap, subst, ◌∙◌, arith, if-elim, ltb, ◌==◌, if◌then◌else◌, Bytes, Result, ok, err,
  panic, ◌>>=◌, >>=-eq-ok, >>=-cong, is_empty, reject_if, bytes_eq, ◌%◌,
}
use sakullla_plugins.Accelerator.Dns.{
  DnsError, dns_wire, dns_not_found, exchange_failed, dns_query, normalize_dns_name,
}
use sakullla_plugins.Accelerator.Dns.Reply.{
  AddressRecord, Scan, Reply, Chain, is_none, max_dns_cname_hops, visited_name, addresses_of,
  each_address, reply_at, reply_of, failed_reply, parse_dns_response, read_header, check_question,
  scan_records, nothing_seen,
}
use sakullla_plugins.Accelerator.Dns.Lookup.{
  Exchanged, responded, unanswered, Resolver, Found, Looked, goes_on, use_reply, use_response,
  use_exchange, ask_servers, with_query, lookup_type_chain, lookup_type, nothing_found,
  after_terminal, return_or_next,
}

ok_same : {A : Type 0} {a b : A} → ◌≡◌ {A = Result DnsError A} (ok a) (ok b) → a ≡ b
ok_same e = cc e

-- A reply that names where a chain goes on has made a hop.
abbrev HasHop : Reply → Type 0
HasHop r = goes_on r ≡ true → 1 ≤ r.hops

reply_at-HasHop :
    (s : Scan) (chain : Chain) (rs : List AddressRecord) → HasHop (reply_at s chain rs)
unfolding reply_at each_address
reply_at-HasHop s chain (r ∷ rs) = λ h. cc h
reply_at-HasHop s chain [] =
    if-elim HasHop s.nodata (λ _ h. cc h)
      (λ _.
        if-elim HasHop (ltb 0 chain.hops) (λ some_hop h. ground (arith, some_hop)) (λ _ h. cc h))

reply_of-HasHop : (rcode : ℕ) (s : Scan) (chain : Option Chain) → HasHop (reply_of rcode s chain)
unfolding reply_of
reply_of-HasHop rcode s none = λ h. cc h
reply_of-HasHop rcode s (some chain) =
    if-elim HasHop (not (rcode == 0) && not (rcode == 3)) (λ _ h. cc h)
      (λ _.
        if-elim HasHop (rcode == 3)
          (λ _.
            if-elim HasHop (is_none (addresses_of chain.name s.addresses)) (λ _ h. cc h)
              (λ _ h. cc h))
          (λ _. reply_at-HasHop s chain _))

parse_dns_response-HasHop :
    (m : Bytes) (id query_type : ℕ) (expected : Bytes) (r : Reply)
    → parse_dns_response m id query_type expected ≡ ok r
    → HasHop r
unfolding parse_dns_response
parse_dns_response-HasHop m id query_type expected r e =
    let (h, _, e1) = >>=-eq-ok (read_header m id) _ e in
    let ((name, offset), _, e2) = >>=-eq-ok (check_question m query_type) _ e1 in
    let (_, _, e3) =
      >>=-eq-ok (reject_if (not (bytes_eq name (normalize_dns_name expected))) dns_wire) _ e2 in
    let (s, _, e4) =
      >>=-eq-ok
        (scan_records (h.answers + h.authorities) m query_type h.answers 0 offset nothing_seen) _
        e3 in
    subst HasHop (ok_same e4) (reply_of-HasHop (h.flags % 16) s _)

-- Two ways to follow a chain agree on every name further along it.
abbrev Follower : Type 0
Follower = Bytes → ℕ → ℕ → Looked

abbrev Agrees : ℕ → Follower → Follower → Type 0
Agrees depth f g = (host : Bytes) (d n : ℕ) → depth < d → f host d n ≡ g host d n

if-agree :
    {A : Type 0} (b : Bool) {x y u v : A}
    → (b ≡ true → x ≡ u)
    → (b ≡ false → y ≡ v)
    → (if b then x else y) ≡ (if b then u else v)
if-agree true h k = h refl
if-agree false h k = k refl

after_terminal-agree :
    (r : Reply) (rest later : Option DnsError → ℕ → Looked) (n : ℕ) (terminal : Found)
    (e : Option DnsError)
    → ((x : Option DnsError) (m : ℕ) → rest x m ≡ later x m)
    → after_terminal r rest n terminal e ≡ after_terminal r later n terminal e
after_terminal-agree r rest later n terminal none h = refl
after_terminal-agree r rest later n terminal (some dns_not_found) h = refl
after_terminal-agree r rest later n terminal (some dns_wire) h = h _ n
after_terminal-agree r rest later n terminal (some exchange_failed) h = h _ n

return_or_next-agree :
    (r : Reply) (rest later : Option DnsError → ℕ → Looked) (n : ℕ) (e : Option DnsError)
    → ((x : Option DnsError) (m : ℕ) → rest x m ≡ later x m)
    → return_or_next r rest n e ≡ return_or_next r later n e
return_or_next-agree r rest later n none h = refl
return_or_next-agree r rest later n (some dns_not_found) h = refl
return_or_next-agree r rest later n (some dns_wire) h = h _ n
return_or_next-agree r rest later n (some exchange_failed) h = h _ n

module _ (f g : Follower) (depth : ℕ) (same : Agrees depth f g) where
  use_reply-agree :
      (rest later : Option DnsError → ℕ → Looked) (n : ℕ) (r : Reply)
      → ((e : Option DnsError) (m : ℕ) → rest e m ≡ later e m)
      → HasHop r
      → use_reply f rest depth n r ≡ use_reply g later depth n r
  unfolding use_reply
  use_reply-agree rest later n r h hop =
      if-agree (goes_on r)
        (λ on.
          if-agree (ltb max_dns_cname_hops (depth + r.hops)) (λ _. h _ n)
            (λ _.
              ap
                (λ (x : Looked).
                  x >>= λ (terminal, m). after_terminal r rest m terminal terminal.error)
                (same r.canonical (depth + r.hops) n (omega (arith, hop on)))
              ∙ >>=-cong (g r.canonical (depth + r.hops) n) _ _ (λ (terminal, m) _.
                after_terminal-agree r rest later m terminal terminal.error h)))
        (λ _. return_or_next-agree r rest later n r.error h)

  use_exchange-agree :
      (rest later : Option DnsError → ℕ → Looked) (parse : Bytes → Result DnsError Reply) (n : ℕ)
      (x : Exchanged)
      → ((e : Option DnsError) (m : ℕ) → rest e m ≡ later e m)
      → ((m : Bytes) (r : Reply) → parse m ≡ ok r → HasHop r)
      → use_exchange f rest parse depth n x ≡ use_exchange g later parse depth n x
  use_exchange-agree rest later parse n unanswered h hops = h _ n
  use_exchange-agree rest later parse n (responded m) h hops = response-agree (parse m) refl
    where
      response-agree :
          (r : Result DnsError Reply)
          → parse m ≡ r
          → use_response f rest depth n r ≡ use_response g later depth n r
      response-agree (ok r) e = use_reply-agree rest later n r h (hops m r e)
      response-agree (err e) is = use_reply-agree rest later n (failed_reply 0) h (λ on. cc on)
      response-agree panic is = refl

  ask_servers-agree :
      (exchange : ℕ → Bytes → Bytes → Exchanged) (parse : Bytes → Result DnsError Reply)
      (query : Bytes) (servers : List Bytes) (last : Option DnsError) (n : ℕ)
      → ((m : Bytes) (r : Reply) → parse m ≡ ok r → HasHop r)
      → ask_servers f exchange parse query depth servers last n
        ≡ ask_servers g exchange parse query depth servers last n
  unfolding ask_servers
  ask_servers-agree exchange parse query [] last n hops = refl
  ask_servers-agree exchange parse query (server ∷ servers) last n hops =
      use_exchange-agree _ _ parse (n + 1) (exchange n server query)
        (λ e m. ask_servers-agree exchange parse query servers e m hops) hops

  with_query-agree :
      (r : Resolver) (query_type : ℕ) (host : Bytes) (n : ℕ) (q : Result DnsError (Bytes × ℕ))
      → with_query f r query_type host depth n q ≡ with_query g r query_type host depth n q
  with_query-agree r query_type host n (ok (query, id)) =
      ask_servers-agree r.exchange _ query r.servers none n
        (λ m reply. parse_dns_response-HasHop m id query_type host reply)
  with_query-agree r query_type host n (err e) = refl
  with_query-agree r query_type host n panic = refl

-- With rounds for every hop that is left and two more, any other such number of rounds gives the same result.
lookup_type_chain-agree :
    (rounds more : ℕ) (r : Resolver) (query_type : ℕ) (path : List Bytes) (host : Bytes)
    (depth n : ℕ)
    → max_dns_cname_hops + 2 ≤ rounds + depth
    → max_dns_cname_hops + 2 ≤ more + depth
    → lookup_type_chain rounds r query_type path host depth n
      ≡ lookup_type_chain more r query_type path host depth n
unfolding lookup_type_chain
lookup_type_chain-agree zero zero r query_type path host depth n h g = refl
lookup_type_chain-agree zero (suc more) r query_type path host depth n h g = ground (arith, h)
lookup_type_chain-agree (suc rounds) zero r query_type path host depth n h g = ground (arith, g)
lookup_type_chain-agree (suc rounds) (suc more) r query_type path host depth n h g =
    ap
      (λ (x : Looked).
        if is_empty host || (ltb max_dns_cname_hops depth || visited_name host path)
        then ok (nothing_found (some dns_wire), n)
        else x)
      (with_query-agree (lookup_type_chain rounds r query_type (host ∷ path))
        (lookup_type_chain more r query_type (host ∷ path)) depth
        (λ next d m deeper.
          lookup_type_chain-agree rounds more r query_type (host ∷ path) next d m
            (omega (arith, h, deeper)) (omega (arith, g, deeper)))
        r query_type host (n + 1) (dns_query host query_type (r.draw n)))

-- The rounds that a lookup has are enough: with any larger number of them it gives the same result, so that
-- it never ends for want of rounds, whatever the servers answer.
pub lookup_type-ends :
    (r : Resolver) (host : Bytes) (query_type n more : ℕ)
    → lookup_type_chain
        (max_dns_cname_hops + 2 + more)
        r
        query_type
        []
        (normalize_dns_name host)
        0
        n
      ≡ lookup_type r host query_type n
unfolding lookup_type
lookup_type-ends r host query_type n more =
    lookup_type_chain-agree (max_dns_cname_hops + 2 + more) (max_dns_cname_hops + 2) r query_type []
      (normalize_dns_name host) 0 n (omega arith) (omega arith)
