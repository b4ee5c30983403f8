-- ===== src/Doh/Wire/Record/Bounds.antt =====
-- Reading a record never panics, and where it ends.
use sakullla_plugins.Base.{
  ℕ, zero, suc, ◌+◌, ◌≤◌, ◌<◌, Option, none, some, List, [], ◌∷◌, ◌≡◌, ◌≢◌, arith, subst,
  Bool-cases, inl, inr, ltb, leb, ◌||◌, length, Bytes, ok, panic, ◌>>=◌, ◌>>◌, >>=-safe, >>=-eq-ok,
  with_error, reject_if, read, uint16, uint32,
}
use sakullla_plugins.Doh.Wire.{Parsed, invalid_dns_message}
use sakullla_plugins.Doh.Wire.Edns.Safe.{with_error-safe}
use sakullla_plugins.Doh.Wire.Query.Parts.{with_error-ok}
use sakullla_plugins.Doh.Wire.Record.{
  Skip, finished, jump, follow_pointer, pass_label, skip_label, after_skip, skip_labels,
  skip_dns_name, ResourceRecord, record_fields, parse_resource_record, soa_fields,
  parse_soa_minimum,
}

skip_label-safe :
    (wire : Bytes) (offset : ℕ) (c : Option ℕ) (x : ℕ) (v : List ℕ)
    → skip_label wire offset c x v ≢ panic
unfolding skip_label follow_pointer pass_label read uint16
skip_label-safe wire offset c x v = ground arith

after_skip-safe :
    (again : ℕ → Option ℕ → ℕ → Parsed ℕ) (s : Skip)
    → ((o : ℕ) (c : Option ℕ) (x : ℕ) → again o c x ≢ panic)
    → after_skip again s ≢ panic
after_skip-safe again (finished e) h = λ p. cc
after_skip-safe again (jump o c x) h = h o c x

skip_labels-safe :
    (labels : ℕ) (wire : Bytes) (v : List ℕ) (offset : ℕ) (c : Option ℕ) (x : ℕ)
    → skip_labels labels wire v offset c x ≢ panic
unfolding skip_labels
skip_labels-safe zero wire v offset c x = λ p. cc
skip_labels-safe (suc labels) wire v offset c x =
    >>=-safe (skip_label wire offset c x v) _ (skip_label-safe wire offset c x v) (λ s _.
      after_skip-safe (skip_labels labels wire (offset ∷ v)) s
        (skip_labels-safe labels wire (offset ∷ v)))

pub skip_dns_name-safe : (wire : Bytes) (offset : ℕ) → skip_dns_name wire offset ≢ panic
unfolding skip_dns_name
skip_dns_name-safe wire offset = skip_labels-safe 128 wire [] offset none 0

record_fields-safe : (wire : Bytes) (next : ℕ) → record_fields wire next ≢ panic
unfolding record_fields uint16 uint32
record_fields-safe wire next = ground arith

pub parse_resource_record-safe :
    (wire : Bytes) (offset : ℕ) → parse_resource_record wire offset ≢ panic
unfolding parse_resource_record
parse_resource_record-safe wire offset =
    >>=-safe (with_error invalid_dns_message (skip_dns_name wire offset)) _
      (with_error-safe (skip_dns_name wire offset) (skip_dns_name-safe wire offset))
      (λ next _. record_fields-safe wire next)

soa_fields-safe :
    (wire : Bytes) (end next : ℕ) → end ≤ length wire → soa_fields wire end next ≢ panic
unfolding soa_fields uint32
soa_fields-safe wire end next h = ground arith

pub parse_soa_minimum-safe :
    (wire : Bytes) (start end : ℕ) → parse_soa_minimum wire start end ≢ panic
unfolding parse_soa_minimum
parse_soa_minimum-safe wire start end = elim (Bool-cases (ltb (length wire) end || leb end start)) [
  | inl outside ↦ rw outside (λ p. cc)
  | inr inside ↦ rw inside (
      >>=-safe (with_error invalid_dns_message (skip_dns_name wire start)) _
        (with_error-safe (skip_dns_name wire start) (skip_dns_name-safe wire start))
        (λ next _. second next (ground arith)))
]
  where
    second :
        (next : ℕ)
        → end ≤ length wire
        → (do
          reject_if (ltb end next) invalid_dns_message
          next' ← with_error invalid_dns_message (skip_dns_name wire next)
          soa_fields wire end next')
          ≢ panic
    second next fits = elim (Bool-cases (ltb end next)) [
      | inl past ↦ rw past (λ p. cc)
      | inr within ↦ rw within (
          >>=-safe (with_error invalid_dns_message (skip_dns_name wire next)) _
            (with_error-safe (skip_dns_name wire next) (skip_dns_name-safe wire next))
            (λ next' _. soa_fields-safe wire end next' fits))
    ]

-- The end of a name: behind the offset and in the message, unless a pointer fixed it before.
abbrev EndsAt : Bytes → ℕ → Option ℕ → ℕ → Type 0
EndsAt wire offset none e = (offset < e) × (e ≤ length wire)
EndsAt wire offset (some d) e = e ≡ d

abbrev SkipEnds : Bytes → ℕ → Option ℕ → Skip → Type 0
SkipEnds wire offset c (finished e) = EndsAt wire offset c e
SkipEnds wire offset c (jump o c' x') = (e : ℕ) → EndsAt wire o c' e → EndsAt wire offset c e

skip_label-SkipEnds :
    (wire : Bytes) (offset : ℕ) (c : Option ℕ) (x : ℕ) (v : List ℕ) (s : Skip)
    → skip_label wire offset c x v ≡ ok s
    → SkipEnds wire offset c s
unfolding skip_label follow_pointer pass_label read uint16
skip_label-SkipEnds wire offset none x v (finished e) h = ground arith
skip_label-SkipEnds wire offset (some d) x v (finished e) h = ground arith
skip_label-SkipEnds wire offset none x v (jump o none x') h = λ e g. ground arith
skip_label-SkipEnds wire offset none x v (jump o (some d') x') h = λ e g. ground arith
skip_label-SkipEnds wire offset (some d) x v (jump o none x') h = λ e g. ground arith
skip_label-SkipEnds wire offset (some d) x v (jump o (some d') x') h = λ e g. ground arith

skip_labels-EndsAt :
    (labels : ℕ) (wire : Bytes) (v : List ℕ) (offset : ℕ) (c : Option ℕ) (x e : ℕ)
    → skip_labels labels wire v offset c x ≡ ok e
    → EndsAt wire offset c e
unfolding skip_labels
skip_labels-EndsAt zero wire v offset c x e h = cc
skip_labels-EndsAt (suc labels) wire v offset c x e h =
    let (s, first, rest) = >>=-eq-ok (skip_label wire offset c x v) _ h in
    go s (skip_label-SkipEnds wire offset c x v s first) rest
      (λ o c' x'. skip_labels-EndsAt labels wire (offset ∷ v) o c' x' e)
  where
    go :
        (s : Skip)
        → SkipEnds wire offset c s
        → after_skip (skip_labels labels wire (offset ∷ v)) s ≡ ok e
        → ((o : ℕ) (c' : Option ℕ) (x' : ℕ)
            → skip_labels labels wire (offset ∷ v) o c' x' ≡ ok e
            → EndsAt wire o c' e)
        → EndsAt wire offset c e
    go (finished d) t same later = subst (EndsAt wire offset c) (ground arith) t
    go (jump o c' x') t rest later = t e (later o c' x' rest)

-- A name that is skipped ends behind its offset and inside the message, however it is compressed.
pub skip_dns_name_bounds :
    (wire : Bytes) (offset e : ℕ)
    → skip_dns_name wire offset ≡ ok e
    → (offset < e) × (e ≤ length wire)
unfolding skip_dns_name
skip_dns_name_bounds wire offset e h = skip_labels-EndsAt 128 wire [] offset none 0 e h

-- Where the fields of a record lie.
pub record IsInside (wire : Bytes) (offset : ℕ) (r : ResourceRecord) : Type 0 where
  pub ttl_behind : offset < r.ttl_offset
  pub ttl_before : r.ttl_offset + 4 ≤ r.rdata_start
  pub data_in_order : r.rdata_start ≤ r.rdata_end
  pub inside : r.rdata_end ≤ length wire

-- The fields of an accepted record lie behind its offset, in order, and inside the message: the TTL
-- behind the name, four bytes of it before the data, and the data's end in the message.
pub parse_resource_record-IsInside :
    (wire : Bytes) (offset : ℕ) (r : ResourceRecord)
    → parse_resource_record wire offset ≡ ok r
    → IsInside wire offset r
unfolding parse_resource_record
parse_resource_record-IsInside wire offset r h =
    let (next, skipped, rest) =
      >>=-eq-ok (with_error invalid_dns_message (skip_dns_name wire offset)) _ h in
    fields next (skip_dns_name_bounds wire offset next (with_error-ok _ skipped)) rest
  where
    fields :
        (next : ℕ)
        → (offset < next) × (next ≤ length wire)
        → record_fields wire next ≡ ok r
        → IsInside wire offset r
    fields next b e = unfold record_fields uint16 uint32 in ground arith
