-- ===== src/Doh/Wire/Response/Agree.antt =====
-- Validating a response reads its identifier only in the header: two messages that agree from the
-- third byte on are read alike.
use sakullla_plugins.Base.{
  ℕ, zero, suc, ◌+◌, ◌-◌, ◌%◌, ◌≤◌, not, ◌||◌, Option, none, List, [], ◌∷◌, ◌≡◌, refl, sym, ap, ◌∙◌,
  inl, inr, arith, Bool-cases, ltb, leb, ◌==◌, length, get_or, drop, drop-add, Bytes, byte_at,
  ◌>>=◌, ◌>>◌, >>=-cong, with_error, reject_if, read, slice, uint16, uint32,
}
use sakullla_plugins.Doh.Wire.{DohError, Parsed, invalid_dns_message}
use sakullla_plugins.Doh.Wire.Record.{
  Skip, finished, jump, follow_pointer, pass_label, skip_label, after_skip, skip_labels,
  skip_dns_name, ResourceRecord, record_fields, parse_resource_record, soa_fields,
  parse_soa_minimum,
}
use sakullla_plugins.Doh.Wire.Response.{
  Ttls, Counts, total_records, no_ttls, ResponseMetadata, classify, see_record, scan_records,
  read_counts, check_records,
}
use sakullla_plugins.Doh.Wire.Query.Parts.{with_error-ok}
use sakullla_plugins.Doh.Wire.Record.Bounds.{
  skip_dns_name_bounds, IsInside, parse_resource_record-IsInside,
}

pub record Agree (w v : Bytes) : Type 0 where
  pub same_length : length w ≡ length v
  pub same_tail : drop 2 w ≡ drop 2 v

get_or-drop : (a i : ℕ) (w : Bytes) → get_or (drop a w) i 0 ≡ get_or w (a + i) 0
get_or-drop zero i w = ap (λ k. get_or w k 0) (omega arith)
get_or-drop (suc a) i [] = refl
get_or-drop (suc a) i (x ∷ w) =
    let to : suc a + i ≡ suc (a + i) = omega arith in rw to (get_or-drop a i w)

module _ (w v : Bytes) (a : Agree w v) where
  pub byte_at-agree : (i : ℕ) → 2 ≤ i → byte_at w i ≡ byte_at v i
  byte_at-agree i h =
      let to : i ≡ 2 + (i - 2) = omega arith in
      ap (byte_at w) to
      ∙ sym (get_or-drop 2 (i - 2) w)
      ∙ ap (λ t. get_or t (i - 2) 0) a.same_tail
      ∙ get_or-drop 2 (i - 2) v
      ∙ ap (byte_at v) (sym to)

  pub drop-agree : (i : ℕ) → 2 ≤ i → drop i w ≡ drop i v
  drop-agree i h =
      let to : i ≡ 2 + (i - 2) = omega arith in
      ap (λ n. drop n w) to
      ∙ drop-add 2 (i - 2) w
      ∙ ap (drop (i - 2)) a.same_tail
      ∙ sym (drop-add 2 (i - 2) v)
      ∙ ap (λ n. drop n v) (sym to)

  pub uint16-agree : (i : ℕ) → 2 ≤ i → uint16 {E = DohError} w i ≡ uint16 v i
  unfolding uint16
  uint16-agree i h = rw (a.same_length, byte_at-agree i h, byte_at-agree (i + 1) (omega arith)) refl

  uint32-agree : (i : ℕ) → 2 ≤ i → uint32 {E = DohError} w i ≡ uint32 v i
  unfolding uint32
  uint32-agree i h =
      rw
        (
          a.same_length,
          byte_at-agree i h,
          byte_at-agree (i + 1) (omega arith),
          byte_at-agree (i + 2) (omega arith),
          byte_at-agree (i + 2 + 1) (omega arith),
        )
        refl

  read-agree : (i : ℕ) → 2 ≤ i → read {E = DohError} w i ≡ read v i
  unfolding read
  read-agree i h = rw (a.same_length, byte_at-agree i h) refl

  pub slice-agree : (i j : ℕ) → 2 ≤ i → slice {E = DohError} w i j ≡ slice v i j
  unfolding slice
  slice-agree i j h = rw (a.same_length, drop-agree i h) refl

  skip_label-agree :
      (offset : ℕ) (c : Option ℕ) (x : ℕ) (seen : List ℕ)
      → skip_label w offset c x seen ≡ skip_label v offset c x seen
  unfolding skip_label follow_pointer pass_label
  skip_label-agree offset c x seen = elim (Bool-cases (ltb offset 12)) [
    | inl low ↦ rw low refl
    | inr high ↦
        let behind : 2 ≤ offset = ground arith in
        rw (a.same_length, read-agree offset behind, uint16-agree offset behind) refl
  ]

  skip_labels-agree :
      (rounds : ℕ) (seen : List ℕ) (offset : ℕ) (c : Option ℕ) (x : ℕ)
      → skip_labels rounds w seen offset c x ≡ skip_labels rounds v seen offset c x
  unfolding skip_labels
  skip_labels-agree zero seen offset c x = refl
  skip_labels-agree (suc rounds) seen offset c x = rw (skip_label-agree offset c x seen) (
      >>=-cong (skip_label v offset c x seen) _ _
        (λ s _. next (skip_labels-agree rounds (offset ∷ seen)) s))
    where
      next :
          ((o : ℕ) (c' : Option ℕ) (x' : ℕ)
            → skip_labels rounds w (offset ∷ seen) o c' x'
              ≡ skip_labels rounds v (offset ∷ seen) o c' x')
          → (s : Skip)
          → after_skip (skip_labels rounds w (offset ∷ seen)) s
            ≡ after_skip (skip_labels rounds v (offset ∷ seen)) s
      next again (finished e) = refl
      next again (jump o c' x') = again o c' x'

  skip_dns_name-agree : (offset : ℕ) → skip_dns_name w offset ≡ skip_dns_name v offset
  unfolding skip_dns_name
  skip_dns_name-agree offset = skip_labels-agree 128 [] offset none 0

  record_fields-agree : (next : ℕ) → 2 ≤ next → record_fields w next ≡ record_fields v next
  unfolding record_fields
  record_fields-agree next h =
      rw
        (
          a.same_length,
          uint16-agree next h,
          uint16-agree (next + 2) (omega arith),
          uint16-agree (next + 8) (omega arith),
          uint32-agree (next + 4) (omega arith),
        )
        refl

  pub parse_resource_record-agree :
      (offset : ℕ) → 2 ≤ offset → parse_resource_record w offset ≡ parse_resource_record v offset
  unfolding parse_resource_record
  parse_resource_record-agree offset h = rw (skip_dns_name-agree offset) (
      >>=-cong (with_error invalid_dns_message (skip_dns_name v offset)) _ _ (λ next e.
        let b = skip_dns_name_bounds v offset next (with_error-ok _ e) in
        record_fields-agree next (omega (arith, b.0, h))))

  soa_fields-agree : (end next : ℕ) → soa_fields w end next ≡ soa_fields v end next
  unfolding soa_fields
  soa_fields-agree end next = elim (Bool-cases (next + 20 == end)) [
    | inl fits ↦ rw (fits, uint32-agree (end - 4) (ground arith)) refl
    | inr no_fit ↦ rw no_fit refl
  ]

  parse_soa_minimum-agree :
      (start end : ℕ) → parse_soa_minimum w start end ≡ parse_soa_minimum v start end
  unfolding parse_soa_minimum
  parse_soa_minimum-agree start end =
      rw (a.same_length, skip_dns_name-agree start)
        (>>=-cong (reject_if (ltb (length v) end || leb end start) invalid_dns_message) _ _ (λ _ _.
          >>=-cong (with_error invalid_dns_message (skip_dns_name v start)) _ _ (λ next _.
            >>=-cong (reject_if (ltb end next) invalid_dns_message) _ _ (λ _ _.
              ap (λ m. with_error invalid_dns_message m >>= soa_fields w end)
                (skip_dns_name-agree next)
              ∙ >>=-cong (with_error invalid_dns_message (skip_dns_name v next)) _ _
                  (λ n _. soa_fields-agree end n)))))

  see_record-agree :
      (c : Counts) (index : ℕ) (r : ResourceRecord) (t : Ttls)
      → see_record w c index r t ≡ see_record v c index r t
  unfolding see_record
  see_record-agree c index r t = rw (parse_soa_minimum-agree r.rdata_start r.rdata_end) refl

  scan_records-agree :
      (left : ℕ) (c : Counts) (index offset : ℕ) (t : Ttls)
      → 2 ≤ offset
      → scan_records left w c index offset t ≡ scan_records left v c index offset t
  unfolding scan_records
  scan_records-agree zero c index offset t h = refl
  scan_records-agree (suc left) c index offset t h = rw (parse_resource_record-agree offset h) (
      >>=-cong (with_error invalid_dns_message (parse_resource_record v offset)) _ _ (λ r e.
        let i : IsInside v offset r =
          parse_resource_record-IsInside v offset r (with_error-ok _ e) in
        rw (see_record-agree c index r t) (
          >>=-cong (see_record v c index r t) _ _ (λ t' _.
            scan_records-agree left c (index + 1) r.rdata_end t'
              (omega (arith, h, i.ttl_behind, i.ttl_before, i.data_in_order))))))

  read_counts-agree : read_counts w ≡ read_counts v
  unfolding read_counts
  read_counts-agree =
      rw (uint16-agree 6 (omega arith), uint16-agree 8 (omega arith), uint16-agree 10 (omega arith))
        refl

  pub check_records-agree :
      (flags offset : ℕ) → 2 ≤ offset → check_records w flags offset ≡ check_records v flags offset
  unfolding check_records
  check_records-agree flags offset h =
      rw (read_counts-agree, a.same_length)
        (>>=-cong (read_counts v) _ _ (λ c _.
          ap (λ m. m >>= behind c) (scan_records-agree (total_records c) c 0 offset no_ttls h)))
    where
      behind : Counts → ℕ × Ttls → Parsed ResponseMetadata
      behind c (end, t) = do
        reject_if (not (end == length v)) invalid_dns_message
        classify (flags % 16) c t
