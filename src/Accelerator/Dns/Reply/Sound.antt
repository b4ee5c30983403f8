-- ===== src/Accelerator/Dns/Reply/Sound.antt =====
-- What the resolver learns of a response: addresses of the queried type, over a bounded chain.
use sakullla_plugins.Base.{
  ℕ, zero, suc, ◌+◌, ◌-◌, ◌*◌, ◌%◌, ◌≤◌, ◌<◌, Bool, true, false, not, ◌&&◌, ◌||◌, Option, none,
  some, List, [], ◌∷◌, ◌++◌, ◌≡◌, ◌⊎◌, inl, inr, refl, sym, ap, subst, ◌∙◌, arith, All, if-elim,
  if◌then◌else◌, true, false, ltb, leb, ◌==◌, length, bytes_eq, Bytes, Result, ok, >>=-eq-ok,
  reject_if, slice, length-segment, uint32, is_empty,
}
use sakullla_plugins.Base.Table.{Table, find, remove}
use sakullla_plugins.Accelerator.Dns.{DnsError, dns_wire, read_dns_name, normalize_dns_name}
use sakullla_plugins.Accelerator.Dns.Reply.{
  CnameRecord, AddressRecord, Scan, Reply, Chain, Fields, second, or_empty, addresses_of,
  known_cname, see_cname, see_address, see_soa, sees_cname, sees_address, sees_soa, when,
  see_fields, scan_record, scan_records, nothing_seen, is_none, max_dns_cname_hops, follow_chain,
  follow_link, hop, bad_hop, first_link, chain_rounds, each_address, reply_at, reply_of,
  read_fields, read_header, check_question, parse_dns_response,
}

-- Four bytes for a query of type A and sixteen for one of type AAAA.
abbrev pub IsFor : ℕ → Bytes → Type 0
IsFor query_type address =
    ((query_type ≡ 1) × (length address ≡ 4)) ⊎ ((query_type ≡ 28) × (length address ≡ 16))

abbrev AreFor : ℕ → List AddressRecord → Type 0
AreFor query_type rs = All (λ (r : AddressRecord). IsFor query_type r.address) rs

abbrev HoldsFor : ℕ → Table (List AddressRecord) → Type 0
HoldsFor query_type t = All (λ (e : Bytes × List AddressRecord). AreFor query_type e.1) t

ok_same : {A : Type 0} {a b : A} → ◌≡◌ {A = Result DnsError A} (ok a) (ok b) → a ≡ b
ok_same e = cc e

slice-length :
    (m : Bytes) (i j : ℕ) (a : Bytes) → slice {E = DnsError} m i j ≡ ok a → length a ≡ j - i
unfolding slice
slice-length m i j a =
    if-elim (λ (r : Result DnsError Bytes). r ≡ ok a → length a ≡ j - i)
      (leb i j && leb j (length m))
      (λ fits e. sym (ap (λ t. length t) (ok_same e)) ∙ length-segment m i j (ground (arith, fits)))
      (λ _ e. cc)

module _ (query_type : ℕ) where
  find-AreFor :
      (owner : Bytes) (t : Table (List AddressRecord))
      → HoldsFor query_type t
      → AreFor query_type (addresses_of owner t)
  unfolding find
  find-AreFor owner [] h = tt
  find-AreFor owner ((key, rs) ∷ t) (first, rest) =
      if-elim (λ (o : Option (List AddressRecord)). AreFor query_type (or_empty o))
        (bytes_eq key owner) (λ _. first) (λ _. find-AreFor owner t rest)

  remove-HoldsFor :
      (owner : Bytes) (t : Table (List AddressRecord))
      → HoldsFor query_type t
      → HoldsFor query_type (remove owner t)
  unfolding remove
  remove-HoldsFor owner [] h = tt
  remove-HoldsFor owner ((key, rs) ∷ t) (first, rest) =
      if-elim (λ (u : Table (List AddressRecord)). HoldsFor query_type u) (bytes_eq key owner)
        (λ _. remove-HoldsFor owner t rest) (λ _. (first, remove-HoldsFor owner t rest))

  snoc-AreFor :
      (rs : List AddressRecord) (r : AddressRecord)
      → AreFor query_type rs
      → IsFor query_type r.address
      → AreFor query_type (rs ++ (r ∷ []))
  snoc-AreFor [] r h is = (is, tt)
  snoc-AreFor (x ∷ rs) r (first, rest) is = (first, snoc-AreFor rs r rest is)

  see_address-HoldsFor :
      (m : Bytes) (start len : ℕ) (owner : Bytes) (ttl : ℕ) (s t : Scan)
      → HoldsFor query_type s.addresses
      → ((query_type ≡ 1) × (len ≡ 4)) ⊎ ((query_type ≡ 28) × (len ≡ 16))
      → see_address m start len owner ttl s ≡ ok t
      → HoldsFor query_type t.addresses
  unfolding see_address
  see_address-HoldsFor m start len owner ttl s t h is e =
      let (address, sliced, written) = >>=-eq-ok (slice m start (start + len)) _ e in
      let long : length address ≡ len =
        omega (arith, slice-length m start (start + len) address sliced) in
      subst (λ (x : Scan). HoldsFor query_type x.addresses) (ok_same written)
        (
          snoc-AreFor (addresses_of owner s.addresses) _ (find-AreFor owner s.addresses h)
              (of_type address len long is),
          remove-HoldsFor owner s.addresses h,
        )
    where
      of_type :
          (address : Bytes) (len : ℕ)
          → length address ≡ len
          → ((query_type ≡ 1) × (len ≡ 4)) ⊎ ((query_type ≡ 28) × (len ≡ 16))
          → IsFor query_type address
      of_type address len long (inl (a, four)) = inl (a, long ∙ four)
      of_type address len long (inr (aaaa, sixteen)) = inr (aaaa, long ∙ sixteen)

  known_cname-HoldsFor :
      (owner target : Bytes) (ttl : ℕ) (s t : Scan) (c : Option CnameRecord)
      → HoldsFor query_type s.addresses
      → known_cname owner target ttl s c ≡ ok t
      → HoldsFor query_type t.addresses
  known_cname-HoldsFor owner target ttl s t none h e =
      subst (λ (x : Scan). HoldsFor query_type x.addresses) (ok_same e) h
  known_cname-HoldsFor owner target ttl s t (some c) h e =
      if-elim (λ (r : Result DnsError Scan). r ≡ ok t → HoldsFor query_type t.addresses)
        (bytes_eq c.target target)
        (λ _ d. subst (λ (x : Scan). HoldsFor query_type x.addresses) (ok_same d) h) (λ _ d. cc) e

  see_cname-HoldsFor :
      (m : Bytes) (start len : ℕ) (owner : Bytes) (ttl : ℕ) (s t : Scan)
      → HoldsFor query_type s.addresses
      → see_cname m start len owner ttl s ≡ ok t
      → HoldsFor query_type t.addresses
  unfolding see_cname
  see_cname-HoldsFor m start len owner ttl s t h e =
      let ((target, end), _, e1) = >>=-eq-ok (read_dns_name m start) _ e in
      let (_, _, e2) =
        >>=-eq-ok
          (reject_if (not (end == start + len) || (is_empty target || bytes_eq target owner))
            dns_wire)
          _ e1 in
      known_cname-HoldsFor owner target (ttl * second) s t (find owner s.cnames) h e2

  see_soa-HoldsFor :
      (m : Bytes) (start len ttl : ℕ) (s t : Scan)
      → HoldsFor query_type s.addresses
      → see_soa m start len ttl s ≡ ok t
      → HoldsFor query_type t.addresses
  unfolding see_soa
  see_soa-HoldsFor m start len ttl s t h e =
      let (minimum, _, written) = >>=-eq-ok (uint32 m (start + len - 4)) _ e in
      subst (λ (x : Scan). HoldsFor query_type x.addresses) (ok_same written) h

  when-HoldsFor :
      (b : Bool) (act : Scan → Result DnsError Scan) (s t : Scan)
      → HoldsFor query_type s.addresses
      → (b ≡ true → act s ≡ ok t → HoldsFor query_type t.addresses)
      → when b act s ≡ ok t
      → HoldsFor query_type t.addresses
  when-HoldsFor true act s t h acts e = acts refl e
  when-HoldsFor false act s t h acts e =
      subst (λ (x : Scan). HoldsFor query_type x.addresses) (ok_same e) h

  sees_address_len :
      (is_answer : Bool) (f : Fields)
      → sees_address query_type is_answer f ≡ true
      → ((query_type ≡ 1) × (f.len ≡ 4)) ⊎ ((query_type ≡ 28) × (f.len ≡ 16))
  sees_address_len is_answer f h = ground (arith, h)

  see_fields-HoldsFor :
      (m : Bytes) (is_answer : Bool) (owner : Bytes) (f : Fields) (s t : Scan)
      → HoldsFor query_type s.addresses
      → see_fields m query_type is_answer owner f s ≡ ok t
      → HoldsFor query_type t.addresses
  unfolding see_fields
  see_fields-HoldsFor m is_answer owner f s t h e =
      let (s1, e1, e2) =
        >>=-eq-ok (when (sees_cname is_answer f) (see_cname m f.start f.len owner f.ttl) s) _ e in
      let (s2, e3, e4) =
        >>=-eq-ok
          (when (sees_address query_type is_answer f) (see_address m f.start f.len owner f.ttl) s1)
          _ e2 in
      let h1 =
        when-HoldsFor (sees_cname is_answer f) (see_cname m f.start f.len owner f.ttl) s s1 h
          (λ _. see_cname-HoldsFor m f.start f.len owner f.ttl s s1 h) e1 in
      let h2 =
        when-HoldsFor (sees_address query_type is_answer f)
          (see_address m f.start f.len owner f.ttl) s1 s2 h1
          (λ on.
            see_address-HoldsFor m f.start f.len owner f.ttl s1 s2 h1
              (sees_address_len is_answer f on))
          e3 in
      when-HoldsFor (sees_soa is_answer f) (see_soa m f.start f.len f.ttl) s2 t h2
        (λ _. see_soa-HoldsFor m f.start f.len f.ttl s2 t h2) e4

  scan_record-HoldsFor :
      (m : Bytes) (is_answer : Bool) (offset next : ℕ) (s t : Scan)
      → HoldsFor query_type s.addresses
      → scan_record m query_type is_answer offset s ≡ ok (next, t)
      → HoldsFor query_type t.addresses
  unfolding scan_record
  scan_record-HoldsFor m is_answer offset next s t h e =
      let ((owner, start), _, e1) = >>=-eq-ok (read_dns_name m offset) _ e in
      let (f, _, e2) = >>=-eq-ok (read_fields m start) _ e1 in
      let (s1, seen, e3) = >>=-eq-ok (see_fields m query_type is_answer owner f s) _ e2 in
      let same : s1 ≡ t = ap (λ (x : ℕ × Scan). x.1) (ok_same e3) in
      subst (λ (x : Scan). HoldsFor query_type x.addresses) same
        (see_fields-HoldsFor m is_answer owner f s s1 h seen)

  scan_records-HoldsFor :
      (count : ℕ) (m : Bytes) (answers index offset : ℕ) (s t : Scan)
      → HoldsFor query_type s.addresses
      → scan_records count m query_type answers index offset s ≡ ok t
      → HoldsFor query_type t.addresses
  unfolding scan_records
  scan_records-HoldsFor zero m answers index offset s t h e =
      subst (λ (x : Scan). HoldsFor query_type x.addresses) (ok_same e) h
  scan_records-HoldsFor (suc count) m answers index offset s t h e =
      let ((next, s1), first, e1) =
        >>=-eq-ok (scan_record m query_type (ltb index answers) offset s) _ e in
      scan_records-HoldsFor count m answers (index + 1) next s1 t
        (scan_record-HoldsFor m (ltb index answers) offset next s s1 h first) e1

  each_address-IsFor :
      (rs : List AddressRecord) → AreFor query_type rs → All (IsFor query_type) (each_address rs)
  unfolding each_address
  each_address-IsFor [] h = tt
  each_address-IsFor (r ∷ rs) (first, rest) = (first, each_address-IsFor rs rest)

  -- What a reply says.
  abbrev IsReply : Reply → Type 0
  IsReply r = All (IsFor query_type) r.found × (r.hops ≤ max_dns_cname_hops)

  reply_at-IsReply :
      (s : Scan) (chain : Chain) (rs : List AddressRecord)
      → AreFor query_type rs
      → chain.hops ≤ max_dns_cname_hops
      → IsReply (reply_at s chain rs)
  unfolding reply_at
  reply_at-IsReply s chain [] h few =
      if-elim IsReply s.nodata (λ _. (tt, few))
        (λ _. if-elim IsReply (ltb 0 chain.hops) (λ _. (tt, few)) (λ _. (tt, omega arith)))
  reply_at-IsReply s chain (r ∷ rs) h few = (each_address-IsFor (r ∷ rs) h, few)

  -- Every hop was made below the limit.
  reply_of-IsReply :
      (rcode : ℕ) (s : Scan) (chain : Option Chain)
      → HoldsFor query_type s.addresses
      → ((c : Chain) → chain ≡ some c → c.hops ≤ max_dns_cname_hops)
      → IsReply (reply_of rcode s chain)
  unfolding reply_of
  reply_of-IsReply rcode s none h few = (tt, omega arith)
  reply_of-IsReply rcode s (some chain) h few =
      if-elim IsReply (not (rcode == 0) && not (rcode == 3)) (λ _. (tt, omega arith))
        (λ _.
          if-elim IsReply (rcode == 3)
            (λ _.
              if-elim IsReply (is_none (addresses_of chain.name s.addresses))
                (λ _. (tt, few chain refl)) (λ _. (tt, omega arith)))
            (λ _.
              reply_at-IsReply s chain _ (find-AreFor chain.name s.addresses h) (few chain refl)))

short_hop :
    (s : Scan) (visited : List Bytes) (chain : Chain) (cname : CnameRecord)
    → bad_hop s visited chain cname ≡ false
    → chain.hops + 1 ≤ max_dns_cname_hops
short_hop s visited chain cname h = ground (arith, h)

follow_link-short :
    (again : List Bytes → Chain → Option Chain) (s : Scan) (visited : List Bytes) (chain c : Chain)
    (o : Option CnameRecord)
    → ((vs : List Bytes) (d : Chain)
        → d.hops ≤ max_dns_cname_hops
        → again vs d ≡ some c
        → c.hops ≤ max_dns_cname_hops)
    → chain.hops ≤ max_dns_cname_hops
    → follow_link again s visited chain o ≡ some c
    → c.hops ≤ max_dns_cname_hops
follow_link-short again s visited chain c none later few d =
    let same : chain ≡ c = cc d in subst (λ (x : Chain). x.hops ≤ max_dns_cname_hops) same few
follow_link-short again s visited chain c (some cname) later few d =
    if-elim (λ (x : Option Chain). x ≡ some c → c.hops ≤ max_dns_cname_hops)
      (bad_hop s visited chain cname) (λ _ b. cc)
      (λ good.
        later (cname.target ∷ visited) (hop cname chain) (short_hop s visited chain cname good))
      d

follow_chain-short :
    (rounds : ℕ) (s : Scan) (visited : List Bytes) (chain c : Chain)
    → chain.hops ≤ max_dns_cname_hops
    → follow_chain rounds s visited chain ≡ some c
    → c.hops ≤ max_dns_cname_hops
unfolding follow_chain
follow_chain-short zero s visited chain c few e = cc
follow_chain-short (suc rounds) s visited chain c few e =
    follow_link-short (follow_chain rounds s) s visited chain c (find chain.name s.cnames)
      (λ vs d. follow_chain-short rounds s vs d c) few e

follow_link-agree :
    (f g : List Bytes → Chain → Option Chain) (s : Scan) (visited : List Bytes) (chain : Chain)
    (o : Option CnameRecord)
    → ((vs : List Bytes) (d : Chain)
        → d.hops ≡ chain.hops + 1
        → chain.hops + 1 ≤ max_dns_cname_hops
        → f vs d ≡ g vs d)
    → follow_link f s visited chain o ≡ follow_link g s visited chain o
follow_link-agree f g s visited chain none same = refl
follow_link-agree f g s visited chain (some cname) same = go (bad_hop s visited chain cname) refl
  where
    go :
        (b : Bool)
        → bad_hop s visited chain cname ≡ b
        → (if b then none else f (cname.target ∷ visited) (hop cname chain))
          ≡ (if b then none else g (cname.target ∷ visited) (hop cname chain))
    go true bad = refl
    go false good =
        same (cname.target ∷ visited) (hop cname chain) refl (short_hop s visited chain cname good)

-- The rounds of a chain are enough: any numbers of rounds above the hops that are left give one result.
follow_chain-agree :
    (n m : ℕ) (s : Scan) (visited : List Bytes) (chain : Chain)
    → chain.hops ≤ max_dns_cname_hops
    → max_dns_cname_hops < n + chain.hops
    → max_dns_cname_hops < m + chain.hops
    → follow_chain n s visited chain ≡ follow_chain m s visited chain
unfolding follow_chain
follow_chain-agree zero m s visited chain few h g = absurd (omega (arith, few, h))
follow_chain-agree (suc n) zero s visited chain few h g = absurd (omega (arith, few, g))
follow_chain-agree (suc n) (suc m) s visited chain few h g =
    follow_link-agree (follow_chain n s) (follow_chain m s) s visited chain
      (find chain.name s.cnames)
      (λ vs d is short.
        follow_chain-agree n m s vs d (omega (arith, is, short)) (omega (arith, is, h))
          (omega (arith, is, g)))

-- What the resolver learns of a response, when it accepts one: every address has four bytes, for a query of
-- type A, or sixteen, for one of type AAAA, and the chain of aliases has at most sixteen hops.
pub parse_dns_response-IsReply :
    (message : Bytes) (id query_type : ℕ) (expected : Bytes) (r : Reply)
    → parse_dns_response message id query_type expected ≡ ok r
    → All (IsFor query_type) r.found × (r.hops ≤ max_dns_cname_hops)
unfolding parse_dns_response
parse_dns_response-IsReply m id query_type expected r e =
    let (h, _, e1) = >>=-eq-ok (read_header m id) _ e in
    let ((name, offset), _, e2) = >>=-eq-ok (check_question m query_type) _ e1 in
    let (_, _, e3) =
      >>=-eq-ok (reject_if (not (bytes_eq name (normalize_dns_name expected))) dns_wire) _ e2 in
    let (s, scanned, e4) =
      >>=-eq-ok
        (scan_records (h.answers + h.authorities) m query_type h.answers 0 offset nothing_seen) _
        e3 in
    subst (IsReply query_type) (ok_same e4) (
      reply_of-IsReply query_type (h.flags % 16) s _
        (scan_records-HoldsFor query_type (h.answers + h.authorities) m h.answers 0 offset
          nothing_seen s tt scanned)
        (λ c. follow_chain-short (chain_rounds s) s (name ∷ []) (first_link name) c (omega arith)))
