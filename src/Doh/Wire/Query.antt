-- ===== src/Doh/Wire/Query.antt =====
-- `parseDNSQuery`. SHA-256 is a parameter `digest`. Of the fields of `parsedQuery`, `digest` and
-- `qtype`, which no code reads, are left out.
pub mod Parts
pub mod Key
pub mod Accepts
use sakullla_plugins.Base.{
  ℕ, ◌+◌, ◌-◌, ◌/◌, ◌%◌, ◌≤◌, ◌<◌, Bool, true, false, not, ◌&&◌, ◌||◌, [], ◌∷◌, ◌++◌, ltb, ◌==◌,
  if◌then◌else◌, length, take, drop, set, Bytes, ok, panic, ◌>>=◌, ◌>>◌, reject_if, with_error,
  slice, uint16,
}
use sakullla_plugins.Doh.Wire.{Parsed, invalid_dns_message}
use sakullla_plugins.Doh.Wire.Name.{parse_question_name}
use sakullla_plugins.Doh.Wire.Edns.{validate_edns_query, edns_has_option}

pub record ParsedQuery : Type 0 where
  pub wire : Bytes
  pub normalized : Bytes
  pub question : Bytes
  pub key : Bytes
  pub id : ℕ
  pub has_ecs : Bool

-- `hex.EncodeToString`
abbrev pub hex_digit : ℕ → ℕ
hex_digit n = if ltb n 10 then b'0' + n else b'a' + (n - 10)

unfoldable pub hex_encode : Bytes → Bytes
hex_encode [] = []
hex_encode (b ∷ bs) = hex_digit (b / 16) ∷ hex_digit (b % 16) ∷ hex_encode bs

-- `w[0], w[1] = 0, 0`
unfoldable pub clear_id : Bytes → Parsed Bytes
clear_id w = if ltb 1 (length w) then ok (set (set w 0 0) 1 0) else panic

-- `copy(w[i:j], source)`
unfoldable pub copy_into : Bytes → ℕ → ℕ → Bytes → Parsed Bytes
copy_into w i j source = do
  target ← slice w i j
  let n = if ltb (length source) (length target) then length source else length target
  ok (take i w ++ (take n source ++ drop (i + n) w))

-- The header of a query: no response bit, opcode 0, one question, no answers or authorities, and at
-- most one additional record.
abbrev pub bad_query_flags : ℕ → Bool
bad_query_flags flags = not (flags / 0x8000 % 2 == 0) || not (flags / 0x800 % 16 == 0)

unfoldable pub check_header : Bytes → Parsed ℕ
check_header wire = do
  reject_if (ltb (length wire) 17) invalid_dns_message
  flags ← uint16 wire 2
  additional ← uint16 wire 10
  questions ← uint16 wire 4
  answers ← uint16 wire 6
  authorities ← uint16 wire 8
  reject_if
      (bad_query_flags flags
        || (not (questions == 1)
            || (not (answers == 0) || (not (authorities == 0) || ltb 1 additional))))
      invalid_dns_message
  ok additional

-- The type and class behind the name, and nothing or an OPT record behind these.
unfoldable pub check_question : Bytes → ℕ → ℕ → Parsed (Unit {0})
check_question wire additional question_end = do
  reject_if (ltb (length wire) (question_end + 4)) invalid_dns_message
  qtype ← uint16 wire question_end
  qclass ← uint16 wire (question_end + 2)
  reject_if (qtype == 0 || not (qclass == 1)) invalid_dns_message
  reject_if (additional == 0 && not (question_end + 4 == length wire)) invalid_dns_message

unfoldable pub query_has_ecs : Bytes → ℕ → ℕ → Parsed Bool
query_has_ecs wire additional offset =
    if additional == 1
    then (validate_edns_query wire offset >>= λ _. edns_has_option wire offset 8)
    else ok false

unfoldable pub build_query : (Bytes → Bytes) → Bytes → ℕ → Bytes → Bool → Parsed ParsedQuery
build_query digest wire question_end canonical has_ecs = do
  cleared ← clear_id wire
  normalized ← copy_into cleared 12 question_end canonical
  question ← slice normalized 12 (question_end + 4)
  id ← uint16 wire 0
  ok (record {
    wire = wire;
    normalized = normalized;
    question = question;
    key = hex_encode (digest normalized);
    id = id;
    has_ecs = has_ecs;
  })

unfoldable pub parse_dns_query : (Bytes → Bytes) → Bytes → Parsed ParsedQuery
parse_dns_query digest wire = do
  additional ← check_header wire
  (question_end, canonical) ← with_error invalid_dns_message (parse_question_name wire 12)
  check_question wire additional question_end
  has_ecs ← query_has_ecs wire additional (question_end + 4)
  build_query digest wire question_end canonical has_ecs
