-- ===== src/Doh/Wire/Response/Front.antt =====
-- Clamping the TTLs leaves the header and the question of a response as they are.
use sakullla_plugins.Base.{
  ℕ, zero, suc, ◌+◌, ◌-◌, ◌/◌, ◌%◌, ◌≤◌, not, ◌&&◌, [], ◌∷◌, ◌≡◌, refl, sym, ap, ◌∙◌, inl, inr,
  arith, Bool-cases, ltb, leb, ◌==◌, if◌then◌else◌, length, set, take, Bytes, write16, write32, ok,
  >>=-eq-ok, with_error, reject_if, put_uint32,
}
use sakullla_plugins.Doh.Wire.{DohError, Parsed, invalid_dns_message}
use sakullla_plugins.Doh.Wire.Name.{parse_question_name}
use sakullla_plugins.Doh.Wire.Query.Parts.{with_error-ok}
use sakullla_plugins.Doh.Wire.Record.{ResourceRecord, parse_resource_record, parse_soa_minimum}
use sakullla_plugins.Doh.Wire.Record.Bounds.{IsInside, parse_resource_record-IsInside}
use sakullla_plugins.Doh.Wire.Response.{
  Counts, total_records, read_counts, is_authority, clamp_ttl, clamp_soa, clamp_records,
  clamp_dns_response_ttls,
}

take-set : (n i b : ℕ) (w : Bytes) → n ≤ i → take n (set w i b) ≡ take n w
take-set zero i b w h = refl
take-set (suc n) i b [] h = refl
take-set (suc n) zero b (x ∷ w) h = absurd (omega (arith, h))
take-set (suc n) (suc i) b (x ∷ w) h = ap (λ t. x ∷ t) (take-set n i b w (omega (arith, h)))

take-write16 : (n i b : ℕ) (w : Bytes) → n ≤ i → take n (write16 w i b) ≡ take n w
take-write16 n i b w h =
    take-set n (i + 1) (b % 256) (set w i (b / 256 % 256)) (omega (arith, h))
    ∙ take-set n i (b / 256 % 256) w h

-- A step that succeeds keeps the first bytes.
abbrev KeepsFront : ℕ → Bytes → Parsed Bytes → Type 0
KeepsFront n w m = (v : Bytes) → m ≡ ok v → take n v ≡ take n w

put_uint32-KeepsFront : (n i b : ℕ) (w : Bytes) → n ≤ i → KeepsFront n w (put_uint32 w i b)
unfolding put_uint32
put_uint32-KeepsFront n i b w h v e = elim (Bool-cases (leb (i + 4) (length w))) [
  | inl fits ↦
      let same : write32 w i b ≡ v = cc (rw fits at e) in
      ap (take n) (sym same)
      ∙ take-write16 n (i + 2) b (write16 w i (b / 65536)) (omega (arith, h))
      ∙ take-write16 n i (b / 65536) w h
  | inr over ↦ cc (rw over at e)
]

clamp_ttl-KeepsFront :
    (n limit : ℕ) (r : ResourceRecord) (w : Bytes)
    → n ≤ r.ttl_offset
    → KeepsFront n w (clamp_ttl limit r w)
unfolding clamp_ttl
clamp_ttl-KeepsFront n limit r w h v e =
    elim (Bool-cases (not (r.rr_type == 41) && ltb limit r.ttl)) [
      | inl over ↦ put_uint32-KeepsFront n r.ttl_offset limit w h v (rw over at e)
      | inr under ↦ cc (rw under at e)
    ]

clamp_soa-KeepsFront :
    (n limit : ℕ) (c : Counts) (index : ℕ) (r : ResourceRecord) (w : Bytes)
    → n + 4 ≤ r.rdata_end
    → KeepsFront n w (clamp_soa limit c index r w)
unfolding clamp_soa
clamp_soa-KeepsFront n limit c index r w h v e =
    elim (Bool-cases (is_authority c index && r.rr_type == 6)) [
      | inr other ↦ cc (rw other at e)
      | inl soa ↦
          let (minimum, _, lowered) =
            >>=-eq-ok (parse_soa_minimum w r.rdata_start r.rdata_end) _ (rw soa at e) in
          lower minimum lowered
    ]
  where
    lower :
        (minimum : ℕ)
        → (if ltb limit minimum then put_uint32 {E = DohError} w (r.rdata_end - 4) limit else ok w)
          ≡ ok v
        → take n v ≡ take n w
    lower minimum d = elim (Bool-cases (ltb limit minimum)) [
      | inl over ↦
          put_uint32-KeepsFront n (r.rdata_end - 4) limit w (omega (arith, h)) v (rw over at d)
      | inr under ↦ cc (rw under at d)
    ]

clamp_records-KeepsFront :
    (n left limit : ℕ) (c : Counts) (index offset : ℕ) (w : Bytes) (e : ℕ) (v : Bytes)
    → n ≤ offset
    → clamp_records left limit c index offset w ≡ ok (e, v)
    → take n v ≡ take n w
unfolding clamp_records
clamp_records-KeepsFront n zero limit c index offset w e v h d = cc
clamp_records-KeepsFront n (suc left) limit c index offset w e v h d =
    let (r, found, d1) = >>=-eq-ok (parse_resource_record w offset) _ d in
    let (w1, first, d2) = >>=-eq-ok (clamp_ttl limit r w) _ d1 in
    let (w2, second, d3) = >>=-eq-ok (clamp_soa limit c index r w1) _ d2 in
    let i : IsInside w offset r = parse_resource_record-IsInside w offset r found in
    clamp_records-KeepsFront n left limit c (index + 1) r.rdata_end w2 e v
      (omega (arith, h, i.ttl_behind, i.ttl_before, i.data_in_order)) d3
    ∙ clamp_soa-KeepsFront n limit c index r w1
        (omega (arith, h, i.ttl_behind, i.ttl_before, i.data_in_order)) w2 second
    ∙ clamp_ttl-KeepsFront n limit r w (omega (arith, h, i.ttl_behind)) w1 first

-- A message that comes back from clamping has its header, and the question whose name was read, as they
-- were: the identifier, the flags, the counts, the name, the type and the class.
pub clamp-KeepsFront :
    (w v : Bytes) (limit question_end : ℕ) (name : Bytes)
    → clamp_dns_response_ttls w limit ≡ ok v
    → parse_question_name w 12 ≡ ok (question_end, name)
    → take (question_end + 4) v ≡ take (question_end + 4) w
unfolding clamp_dns_response_ttls
clamp-KeepsFront w v limit question_end name h named =
    let (_, _, h1) = >>=-eq-ok (reject_if (ltb (length w) 17) invalid_dns_message) _ h in
    let ((e, m), parsed, h2) =
      >>=-eq-ok (with_error invalid_dns_message (parse_question_name w 12)) _ h1 in
    let (_, _, h3) = >>=-eq-ok (reject_if (ltb (length w) (e + 4)) invalid_dns_message) _ h2 in
    let (c, _, h4) = >>=-eq-ok (read_counts w) _ h3 in
    let ((end, u), clamped, h5) =
      >>=-eq-ok (clamp_records (total_records c) limit c 0 (e + 4) w) _ h4 in
    let (_, _, h6) = >>=-eq-ok (reject_if (not (end == length u)) invalid_dns_message) _ h5 in
    same_end e m (sym (with_error-ok _ parsed) ∙ named) (
      ap (take (e + 4)) (sym (got u h6))
      ∙ clamp_records-KeepsFront (e + 4) (total_records c) limit c 0 (e + 4) w end u (omega arith)
          clamped)
  where
    got : (u : Bytes) → ◌≡◌ {A = Parsed Bytes} (ok u) (ok v) → u ≡ v
    got u e = cc

    same_end :
        (e : ℕ) (m : Bytes)
        → ◌≡◌ {A = Parsed (ℕ × Bytes)} (ok (e, m)) (ok (question_end, name))
        → take (e + 4) v ≡ take (e + 4) w
        → take (question_end + 4) v ≡ take (question_end + 4) w
    same_end e m same k = let s : e ≡ question_end = cc in rw (← s) k
