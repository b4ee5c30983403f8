-- ===== src/Doh/Wire/Name/Canonical.antt =====
-- What `parseQuestionName` returns.
use sakullla_plugins.Base.{
  ℕ, zero, suc, ◌+◌, ◌≤◌, ◌<◌, [], ◌∷◌, ◌++◌, map, ◌≡◌, ◌≢◌, ◌∙◌, arith, length, segment, byte_at,
  Bytes, ok, panic, >>=-safe, >>=-eq-ok, read, slice, segment_none, segment_one, segment-append,
}
use mathlib.Core.List.{append-nil, append_assoc, map-append}
use sakullla_plugins.Doh.Wire.{Parsed}
use sakullla_plugins.Doh.Wire.Name.{
  to_lower, Round, done, next, take_label, parse_label, after_round, parse_labels,
  parse_question_name,
}

pub take_label-safe :
    (wire : Bytes) (offset len : ℕ) (c : Bytes) → take_label wire offset len c ≢ panic
unfolding take_label slice
take_label-safe wire offset zero c = ground arith
take_label-safe wire offset (suc n) c = ground arith

parse_label-safe : (wire : Bytes) (offset : ℕ) (c : Bytes) → parse_label wire offset c ≢ panic
unfolding parse_label read
parse_label-safe wire offset c = ground (
  arith,
  take_label-safe wire (offset + 1) (byte_at wire offset) (c ++ (byte_at wire offset ∷ [])),
)

after_round-safe :
    (again : ℕ → Bytes → Parsed (ℕ × Bytes)) (r : Round)
    → ((e : ℕ) (n : Bytes) → again e n ≢ panic)
    → after_round again r ≢ panic
after_round-safe again (done e n) h = λ p. cc
after_round-safe again (next e n) h = h e n

parse_labels-safe :
    (rounds : ℕ) (wire : Bytes) (offset : ℕ) (c : Bytes) → parse_labels rounds wire offset c ≢ panic
unfolding parse_labels
parse_labels-safe zero wire offset c = λ e. cc
parse_labels-safe (suc rounds) wire offset c =
    >>=-safe (parse_label wire offset c) _ (parse_label-safe wire offset c)
      (λ r _. after_round-safe (parse_labels rounds wire) r (parse_labels-safe rounds wire))

-- The parser of names never indexes or slices out of range.
pub parse_question_name-safe : (wire : Bytes) (offset : ℕ) → parse_question_name wire offset ≢ panic
unfolding parse_question_name
parse_question_name-safe wire offset = parse_labels-safe 128 wire offset []

-- What a round or the whole loop took: the bytes up to its end, in lower case.
abbrev pub Took : Bytes → ℕ → Bytes → ℕ → Bytes → Type 0
Took wire offset c end c' =
    (offset ≤ end) × (end ≤ length wire) × (c' ≡ c ++ map to_lower (segment wire offset end))

abbrev pub RoundTook : Bytes → ℕ → Bytes → Round → Type 0
RoundTook wire offset c (done end c') = Took wire offset c end c' × (length c' ≤ 255)
RoundTook wire offset c (next end c') = Took wire offset c end c'

Took-none :
    (wire : Bytes) (offset : ℕ) (c : Bytes) → offset ≤ length wire → Took wire offset c offset c
Took-none wire offset c h = (omega arith, h, rw (segment_none wire offset, append-nil))

Took-trans :
    (wire : Bytes) (i j k : ℕ) (c d e : Bytes)
    → Took wire i c j d
    → Took wire j d k e
    → Took wire i c k e
Took-trans wire i j k c d e (h, _, p) (g, l, q) =
    (omega arith, l, q ∙ rw (p, segment-append wire i j k h g, map-append, append_assoc))

take_label-RoundTook :
    (wire : Bytes) (offset len : ℕ) (c : Bytes) (r : Round)
    → offset ≤ length wire
    → take_label wire offset len c ≡ ok r
    → RoundTook wire offset c r
unfolding take_label slice
take_label-RoundTook wire offset zero c (done end c') h e =
    let same : offset ≡ end = ground arith in
    let kept : c ≡ c' = ground arith in
    (rw (← same, ← kept) (Took-none wire offset c h), ground arith)
take_label-RoundTook wire offset zero c (next end c') h e = ground arith
take_label-RoundTook wire offset (suc n) c (done end c') h e = ground arith
take_label-RoundTook wire offset (suc n) c (next end c') h e = ground arith

parse_label_parts :
    (wire : Bytes) (offset : ℕ) (c : Bytes) (r : Round)
    → parse_label wire offset c ≡ ok r
    → (offset < length wire)
      × (byte_at wire offset < 64)
      × (take_label wire (offset + 1) (byte_at wire offset) (c ++ (byte_at wire offset ∷ []))
          ≡ ok r)
unfolding parse_label read
parse_label_parts wire offset c r h = ground arith

pub parse_label-RoundTook :
    (wire : Bytes) (offset : ℕ) (c : Bytes) (r : Round)
    → parse_label wire offset c ≡ ok r
    → RoundTook wire offset c r
parse_label-RoundTook wire offset c r h =
    let (inside, small, rest) = parse_label_parts wire offset c r h in
    let len = byte_at wire offset in
    let lower : to_lower len ≡ len = ground arith in
    let one : Took wire offset c (offset + 1) (c ++ (len ∷ [])) =
      (omega arith, omega arith, rw (segment_one wire offset inside, lower)) in
    go r one (take_label-RoundTook wire (offset + 1) len (c ++ (len ∷ [])) r (omega arith) rest)
  where
    go :
        (s : Round) {d : Bytes}
        → Took wire offset c (offset + 1) d
        → RoundTook wire (offset + 1) d s
        → RoundTook wire offset c s
    go (done e n) {d} p (q, l) = (Took-trans wire offset (offset + 1) e c d n p q, l)
    go (next e n) {d} p q = Took-trans wire offset (offset + 1) e c d n p q

parse_labels-Took :
    (rounds : ℕ) (wire : Bytes) (offset : ℕ) (c : Bytes) (end : ℕ) (name : Bytes)
    → parse_labels rounds wire offset c ≡ ok (end, name)
    → Took wire offset c end name × (length name ≤ 255)
unfolding parse_labels
parse_labels-Took zero wire offset c end name h = cc
parse_labels-Took (suc rounds) wire offset c end name h =
    let (r, first, rest) = >>=-eq-ok (parse_label wire offset c) _ h in
    go r (parse_label-RoundTook wire offset c r first) rest (parse_labels-Took rounds wire)
  where
    go :
        (r : Round)
        → RoundTook wire offset c r
        → after_round (parse_labels rounds wire) r ≡ ok (end, name)
        → ((o : ℕ) (d : Bytes) (e : ℕ) (n : Bytes)
            → parse_labels rounds wire o d ≡ ok (e, n)
            → Took wire o d e n × (length n ≤ 255))
        → Took wire offset c end name × (length name ≤ 255)
    go (done e n) t same later =
        let at : e ≡ end = ground arith in
        let as_name : n ≡ name = ground arith in rw (← at, ← as_name) t
    go (next e n) t rest later =
        let (q, l) = later e n end name rest in (Took-trans wire offset e end c n name t q, l)

-- An accepted name is the bytes from the offset to the returned end, in lower case; it lies inside
-- the message and has at most 255 bytes.
pub parse_question_name-canonical :
    (wire : Bytes) (offset end : ℕ) (name : Bytes)
    → parse_question_name wire offset ≡ ok (end, name)
    → (offset ≤ end)
      × (end ≤ length wire)
      × (name ≡ map to_lower (segment wire offset end))
      × (length name ≤ 255)
unfolding parse_question_name
parse_question_name-canonical wire offset end name h =
    let ((a, b, c), d) = parse_labels-Took 128 wire offset [] end name h in (a, b, c, d)
