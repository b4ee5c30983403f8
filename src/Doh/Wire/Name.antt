-- ===== src/Doh/Wire/Name.antt =====
-- `parseQuestionName`: a name without compression, in canonical (lower) case.
pub mod Canonical
pub mod Encoding
pub mod Fold
use sakullla_plugins.Base.{
  ℕ, zero, suc, ◌+◌, ◌/◌, ◌%◌, Bool, true, false, not, ◌&&◌, ◌||◌, [], ◌∷◌, ◌++◌, map, ltb, leb,
  ◌==◌, if◌then◌else◌, length, Bytes, ok, err, ◌>>=◌, ◌>>◌, reject_if, read, slice,
}
use sakullla_plugins.Doh.Wire.{Parsed, invalid_dns_message}

abbrev pub to_lower : ℕ → ℕ
to_lower c = if leb b'A' c && leb c b'Z' then c + 32 else c

-- The two top bits of a byte: `length&0xc0`.
abbrev pub top_bits : ℕ → ℕ
top_bits b = b / 64 % 4

-- One round of the loop ends it, or goes on at an offset with the name so far.
pub data Round : Type 0 where
  done : ℕ → Bytes → Round
  next : ℕ → Bytes → Round

-- The end of a round: the zero byte ends the name, any other length is followed by a label.
unfoldable pub take_label : Bytes → ℕ → ℕ → Bytes → Parsed Round
take_label wire offset zero named =
    if ltb 255 (length named) then err invalid_dns_message else ok (done offset named)
take_label wire offset (suc n) named = do
  reject_if (ltb (length wire) (offset + suc n) || ltb 255 (length named + suc n))
      invalid_dns_message
  label ← slice wire offset (offset + suc n)
  ok (next (offset + suc n) (named ++ map to_lower label))

unfoldable pub parse_label : Bytes → ℕ → Bytes → Parsed Round
parse_label wire offset canonical = do
  reject_if (leb (length wire) offset) invalid_dns_message
  len ← read wire offset
  reject_if (not (top_bits len == 0) || ltb 63 len) invalid_dns_message
  take_label wire (offset + 1) len (canonical ++ (len ∷ []))

abbrev pub after_round : (ℕ → Bytes → Parsed (ℕ × Bytes)) → Round → Parsed (ℕ × Bytes)
after_round again (done end named) = ok (end, named)
after_round again (next end named) = again end named

unfoldable pub parse_labels : ℕ → Bytes → ℕ → Bytes → Parsed (ℕ × Bytes)
parse_labels zero wire offset canonical = err invalid_dns_message
parse_labels (suc rounds) wire offset canonical =
    parse_label wire offset canonical >>= after_round (parse_labels rounds wire)

-- The loop's 128 rounds are `labels <= 127`.
unfoldable pub parse_question_name : Bytes → ℕ → Parsed (ℕ × Bytes)
parse_question_name wire offset = parse_labels 128 wire offset []
