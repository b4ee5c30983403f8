-- ===== src/Doh/Wire/Name/Encoding.antt =====
-- The parser of names accepts every name in wire form.
use sakullla_plugins.Base.{
  ℕ, zero, suc, ◌+◌, ◌-◌, ◌*◌, ◌≤◌, ◌<◌, List, [], ◌∷◌, ◌++◌, ◌≡◌, refl, sym, ap, ◌∙◌, arith, All,
  length, drop, segment, byte_at, Bytes, ok, read, slice, length-append, length-map, length-drop,
  take-append, drop-append, drop-add, drop-cons, map,
}
use mathlib.Core.List.{append_assoc}
use native.Mathlib.Numerals.{add-one}
use sakullla_plugins.Doh.Wire.Name.{
  to_lower, done, next, take_label, parse_label, parse_labels, parse_question_name,
}
use sakullla_plugins.Doh.Wire.Name.Canonical.{parse_question_name-canonical}

-- A name on the wire: each label behind its length, and a zero byte.
unfoldable pub encode_name : List Bytes → Bytes
encode_name [] = 0 ∷ []
encode_name (l ∷ ls) = length l ∷ (l ++ encode_name ls)

abbrev pub IsLabel : Bytes → Type 0
IsLabel l = (1 ≤ length l) × (length l ≤ 63)

-- The next bytes of a message.
abbrev Reads : Bytes → ℕ → Bytes → Type 0
Reads wire offset w = (offset ≤ length wire) × (drop offset wire ≡ w)

Reads-cons :
    (wire : Bytes) (offset b : ℕ) (w : Bytes)
    → Reads wire offset (b ∷ w)
    → (offset < length wire) × (byte_at wire offset ≡ b) × Reads wire (offset + 1) w
Reads-cons wire offset b w (h, e) =
    let long : length (b ∷ w) ≡ length wire - offset =
      ap length (sym e) ∙ length-drop offset wire in
    let inside : offset < length wire = omega arith in
    let split = sym (drop-cons offset wire 0 inside) ∙ e in
    (inside, cc split, (omega arith, rw add-one (cc split)))

Reads-append :
    (wire : Bytes) (offset : ℕ) (v w : Bytes)
    → Reads wire offset (v ++ w)
    → (offset + length v ≤ length wire)
      × (segment wire offset (offset + length v) ≡ v)
      × Reads wire (offset + length v) w
Reads-append wire offset v w (h, e) =
    let long : length (v ++ w) ≡ length wire - offset =
      ap length (sym e) ∙ length-drop offset wire in
    let inside : offset + length v ≤ length wire = omega (arith, length-append v w) in
    let count : offset + length v - offset ≡ length v = omega arith in
    (
      inside,
      rw (count, e, take-append v w),
      (inside, rw (drop-add offset (length v) wire, e, drop-append v w)),
    )

-- One round over a label, and the last round.
parse_label-label :
    (wire : Bytes) (offset : ℕ) (c l w : Bytes)
    → IsLabel l
    → Reads wire offset (length l ∷ (l ++ w))
    → length c + length l < 255
    → (d : Bytes) × (parse_label wire offset c ≡ ok (next (offset + 1 + length l) d))
      × (length d ≡ length c + 1 + length l)
      × Reads wire (offset + 1 + length l) w
parse_label-label wire offset c l w (some_bytes, few) r room =
    let (inside, byte, after) = Reads-cons wire offset (length l) (l ++ w) r in
    let (fits, label, rest) = Reads-append wire (offset + 1) l w after in
    let named = c ++ (length l ∷ []) in
    let lower = map to_lower (segment wire (offset + 1) (offset + 1 + length l)) in
    (
      named ++ lower,
      go (length l) byte some_bytes few inside fits room,
      omega (
        arith,
        length-append named lower,
        length-append c (length l ∷ []),
        length-map to_lower (segment wire (offset + 1) (offset + 1 + length l)),
        ap length label,
      ),
      rest,
    )
  where
    go :
        (n : ℕ)
        → byte_at wire offset ≡ n
        → 1 ≤ n
        → n ≤ 63
        → offset < length wire
        → offset + 1 + n ≤ length wire
        → length c + n < 255
        → parse_label wire offset c
          ≡ ok (
              next
                (offset + 1 + n)
                ((c ++ (n ∷ [])) ++ map to_lower (segment wire (offset + 1) (offset + 1 + n))))
    go n byte pos few inside fits room =
        unfold parse_label take_label read slice in ground (arith, length-append c (n ∷ []))

parse_label_last :
    (wire : Bytes) (offset : ℕ) (c w : Bytes)
    → Reads wire offset (0 ∷ w)
    → length c < 255
    → parse_label wire offset c ≡ ok (done (offset + 1) (c ++ (0 ∷ [])))
unfolding parse_label take_label read
parse_label_last wire offset c w r room =
    ground (arith, Reads-cons wire offset 0 w r, length-append c (0 ∷ []))

parse_labels-encode :
    (ls : List Bytes) (rounds : ℕ) (wire : Bytes) (offset end : ℕ) (c w : Bytes)
    → All IsLabel ls
    → length c + length (encode_name ls) ≤ 255
    → length ls < rounds
    → Reads wire offset (encode_name ls ++ w)
    → offset + length (encode_name ls) ≡ end
    → (n : Bytes) × (parse_labels rounds wire offset c ≡ ok (end, n))
unfolding encode_name parse_labels
parse_labels-encode ls zero wire offset end c w a room more r to = absurd (omega arith)
parse_labels-encode [] (suc rounds) wire offset end c w a room more r to =
    (c ++ (0 ∷ []), rw (parse_label_last wire offset c w r (omega arith)) (ground arith))
parse_labels-encode (l ∷ ls) (suc rounds) wire offset end c w (h, a) room more r to =
    let split : Reads wire offset (length l ∷ (l ++ (encode_name ls ++ w))) =
      (r.0, r.1 ∙ ap (◌∷◌ (length l)) (append_assoc l (encode_name ls) w)) in
    let total = length-append l (encode_name ls) in
    let (d, first, size, rest) =
      parse_label-label wire offset c l (encode_name ls ++ w) h split (omega (arith, total)) in
    let (n, later) =
      parse_labels-encode ls rounds wire (offset + 1 + length l) end d w a (omega (arith, total))
        (omega arith) rest (omega (arith, total)) in
    (n, rw first later)

-- Each label takes two bytes at least, so a name of 255 bytes has 127 labels at most.
length-encode_name :
    (ls : List Bytes) → All IsLabel ls → length ls * 2 + 1 ≤ length (encode_name ls)
unfolding encode_name
length-encode_name [] a = omega arith
length-encode_name (l ∷ ls) (h, a) =
    omega (arith, length-append l (encode_name ls), length-encode_name ls a)

-- A name of labels with 1 to 63 bytes, at most 255 bytes on the wire, is accepted wherever it stands
-- in a message: the parser returns its end and its bytes in lower case.
pub parse_question_name-encode :
    (ls : List Bytes) (before after : Bytes)
    → All IsLabel ls
    → length (encode_name ls) ≤ 255
    → parse_question_name (before ++ (encode_name ls ++ after)) (length before)
      ≡ ok (length before + length (encode_name ls), map to_lower (encode_name ls))
parse_question_name-encode ls before after a small =
    let wire = before ++ (encode_name ls ++ after) in
    let end = length before + length (encode_name ls) in
    let reads : Reads wire (length before) (encode_name ls ++ after) = (
      omega (arith, length-append before (encode_name ls ++ after)),
      drop-append before (encode_name ls ++ after),
    ) in
    let (n, parsed) =
      parse_labels-encode ls 128 wire (length before) end [] after a (omega arith)
        (omega (arith, length-encode_name ls a)) reads refl in
    let whole : parse_question_name wire (length before) ≡ ok (end, n) =
      unfold parse_question_name in parsed in
    let (_, _, name, _) = parse_question_name-canonical wire (length before) end n whole in
    let (_, text, _) = Reads-append wire (length before) (encode_name ls) after reads in
    whole ∙ ap (λ t. ok (end, t)) (name ∙ ap (map to_lower) text)
