-- ===== src/Doh/Wire/Response/Clamp.antt =====
-- Clamping the TTLs of a cached response never panics and keeps its length.
use sakullla_plugins.Base.{
  ℕ, zero, suc, ◌+◌, ◌-◌, ◌≤◌, false, not, ◌&&◌, ◌≡◌, ◌≢◌, ◌∙◌, inl, inr, arith, Bool-cases, ltb,
  ◌==◌, if◌then◌else◌, length, Bytes, ok, panic, ◌>>=◌, ◌>>◌, >>=-safe, >>=-eq-ok, with_error,
  reject_if, put_uint32, length-write32,
}
use sakullla_plugins.Doh.Wire.{Parsed, invalid_dns_message}
use sakullla_plugins.Doh.Wire.Name.{parse_question_name}
use sakullla_plugins.Doh.Wire.Name.Canonical.{parse_question_name-safe}
use sakullla_plugins.Doh.Wire.Edns.Safe.{with_error-safe}
use sakullla_plugins.Doh.Wire.Record.{ResourceRecord, parse_resource_record, parse_soa_minimum}
use sakullla_plugins.Doh.Wire.Record.Bounds.{
  IsInside, parse_resource_record-safe, parse_soa_minimum-safe, parse_resource_record-IsInside,
}
use sakullla_plugins.Doh.Wire.Response.{
  Counts, total_records, read_counts, is_authority, clamp_ttl, clamp_soa, clamp_records,
  clamp_dns_response_ttls,
}
use sakullla_plugins.Doh.Wire.Response.Safe.{read_counts-safe}

-- The result of a step that may only overwrite bytes.
abbrev Keeps : Bytes → Parsed Bytes → Type 0
Keeps w m = (m ≢ panic) × ((v : Bytes) → m ≡ ok v → length v ≡ length w)

ok-Keeps : (w : Bytes) → Keeps w (ok w)
ok-Keeps w = (λ p. cc, λ v e. cc)

put_uint32-Keeps : (w : Bytes) (i v : ℕ) → i + 4 ≤ length w → Keeps w (put_uint32 w i v)
unfolding put_uint32
put_uint32-Keeps w i v h = (ground arith, λ u e. ground (arith, length-write32 w i v))

clamp_ttl-Keeps :
    (limit : ℕ) (r : ResourceRecord) (w : Bytes)
    → r.ttl_offset + 4 ≤ length w
    → Keeps w (clamp_ttl limit r w)
unfolding clamp_ttl
clamp_ttl-Keeps limit r w h = elim (Bool-cases (not (r.rr_type == 41) && ltb limit r.ttl)) [
  | inl over ↦ rw over (put_uint32-Keeps w r.ttl_offset limit h)
  | inr under ↦ rw under (ok-Keeps w)
]

>>=-Keeps :
    {A : Type 0} (w : Bytes) (m : Parsed A) (f : A → Parsed Bytes)
    → m ≢ panic
    → ((a : A) → m ≡ ok a → Keeps w (f a))
    → Keeps w (m >>= f)
>>=-Keeps w m f safe keeps = (
  >>=-safe m f safe (λ a e. (keeps a e).0),
  λ v e. let (a, found, rest) = >>=-eq-ok m f e in (keeps a found).1 v rest,
)

clamp_soa-Keeps :
    (limit : ℕ) (c : Counts) (index : ℕ) (r : ResourceRecord) (w : Bytes)
    → 4 ≤ r.rdata_end
    → r.rdata_end ≤ length w
    → Keeps w (clamp_soa limit c index r w)
unfolding clamp_soa
clamp_soa-Keeps limit c index r w room h =
    elim (Bool-cases (is_authority c index && r.rr_type == 6)) [
      | inl soa ↦ rw soa (
          >>=-Keeps w (parse_soa_minimum w r.rdata_start r.rdata_end) _
            (parse_soa_minimum-safe w r.rdata_start r.rdata_end) (λ minimum _. lower minimum))
      | inr other ↦ rw other (ok-Keeps w)
    ]
  where
    lower :
        (minimum : ℕ)
        → Keeps w (if ltb limit minimum then put_uint32 w (r.rdata_end - 4) limit else ok w)
    lower minimum = elim (Bool-cases (ltb limit minimum)) [
      | inl over ↦ rw over (put_uint32-Keeps w (r.rdata_end - 4) limit (omega arith))
      | inr under ↦ rw under (ok-Keeps w)
    ]

-- The loop on the records.
abbrev KeepsAll : Bytes → Parsed (ℕ × Bytes) → Type 0
KeepsAll w m = (m ≢ panic) × ((e : ℕ) (v : Bytes) → m ≡ ok (e, v) → length v ≡ length w)

clamp_records-KeepsAll :
    (left limit : ℕ) (c : Counts) (index offset : ℕ) (w : Bytes)
    → KeepsAll w (clamp_records left limit c index offset w)
unfolding clamp_records
clamp_records-KeepsAll zero limit c index offset w = (λ p. cc, λ e v h. cc)
clamp_records-KeepsAll (suc left) limit c index offset w = (
  >>=-safe (parse_resource_record w offset) _ (parse_resource_record-safe w offset) (λ r found.
      >>=-safe (clamp_ttl limit r w) _ (ttl r found).0 (λ w1 first.
        >>=-safe (clamp_soa limit c index r w1) _ (soa r found w1 first).0
          (λ w2 _. (clamp_records-KeepsAll left limit c (index + 1) r.rdata_end w2).0))),
  λ e v h.
      let (r, found, h1) = >>=-eq-ok (parse_resource_record w offset) _ h in
      let (w1, first, h2) = >>=-eq-ok (clamp_ttl limit r w) _ h1 in
      let (w2, second, h3) = >>=-eq-ok (clamp_soa limit c index r w1) _ h2 in
      (clamp_records-KeepsAll left limit c (index + 1) r.rdata_end w2).1 e v h3
      ∙ (soa r found w1 first).1 w2 second
      ∙ (ttl r found).1 w1 first,
)
  where
    ttl :
        (r : ResourceRecord) → parse_resource_record w offset ≡ ok r → Keeps w (clamp_ttl limit r w)
    ttl r found =
        let i : IsInside w offset r = parse_resource_record-IsInside w offset r found in
        clamp_ttl-Keeps limit r w (omega (arith, i.ttl_before, i.data_in_order, i.inside))

    soa :
        (r : ResourceRecord)
        → parse_resource_record w offset ≡ ok r
        → (w1 : Bytes) → clamp_ttl limit r w ≡ ok w1
        → Keeps w1 (clamp_soa limit c index r w1)
    soa r found w1 first =
        let i : IsInside w offset r = parse_resource_record-IsInside w offset r found in
        let same : length w1 ≡ length w = (ttl r found).1 w1 first in
        clamp_soa-Keeps limit c index r w1 (omega (arith, i.ttl_before, i.data_in_order))
          (omega (arith, i.inside, same))

ltb_false→le : (a b : ℕ) → ltb a b ≡ false → b ≤ a
ltb_false→le a b h = ground arith

-- Clamping the TTLs of any bytes with any limit never indexes or slices out of range, and a
-- message that comes back is as long as the one that went in.
pub clamp_dns_response_ttls-KeepsLength :
    (w : Bytes) (limit : ℕ)
    → (clamp_dns_response_ttls w limit ≢ panic)
      × ((v : Bytes) → clamp_dns_response_ttls w limit ≡ ok v → length v ≡ length w)
unfolding clamp_dns_response_ttls
clamp_dns_response_ttls-KeepsLength w limit = elim (Bool-cases (ltb (length w) 17)) [
  | inl short ↦ rw short (λ p. cc, λ v e. cc)
  | inr long ↦ rw long (
      >>=-Keeps w (with_error invalid_dns_message (parse_question_name w 12)) _
        (with_error-safe (parse_question_name w 12) (parse_question_name-safe w 12))
        (λ (e, n) _. behind (ltb_false→le (length w) 17 long) e))
]
  where
    finish :
        (e : ℕ) (v : Bytes)
        → length v ≡ length w
        → Keeps w (do reject_if (not (e == length v)) invalid_dns_message; ok v)
    finish e v same = (ground arith, λ u h. ground arith)

    behind :
        17 ≤ length w
        → (e : ℕ)
        → Keeps w (do
          reject_if (ltb (length w) (e + 4)) invalid_dns_message
          c ← read_counts w
          (end, result) ← clamp_records (total_records c) limit c 0 (e + 4) w
          reject_if (not (end == length result)) invalid_dns_message
          ok result)
    behind enough e = elim (Bool-cases (ltb (length w) (e + 4))) [
      | inl short ↦ rw short (λ p. cc, λ v h. cc)
      | inr fits ↦ rw fits (
          >>=-Keeps w (read_counts w) _ (read_counts-safe w enough) (λ c _.
            >>=-Keeps w (clamp_records (total_records c) limit c 0 (e + 4) w) _
              (clamp_records-KeepsAll (total_records c) limit c 0 (e + 4) w).0
              (λ (end, v) h.
                finish end v
                  ((clamp_records-KeepsAll (total_records c) limit c 0 (e + 4) w).1 end v h))))
    ]
