-- ===== src/Doh/Wire/Edns/Safe.antt =====
-- No index or slice bound of the OPT code is out of range, and its loops end.
use sakullla_plugins.Base.{
  ℕ, zero, suc, ◌+◌, ◌-◌, ◌≤◌, ◌<◌, ◌≡◌, ◌≢◌, refl, inl, inr, arith, ltb, if◌then◌else◌, Bool-cases,
  length, take, value16, Bytes, ok, err, panic, >>=-safe, with_error, read, uint16, uint32,
  put_uint16, length-append,
}
use sakullla_plugins.Doh.Wire.{Parsed, invalid_dns_message}
use sakullla_plugins.Doh.Wire.Name.{parse_question_name}
use sakullla_plugins.Doh.Wire.Name.Canonical.{parse_question_name-safe}
use sakullla_plugins.Doh.Wire.Edns.{
  check_options, validate_edns_query, find_option, search_options, edns_has_option, to4, to16,
  truncate_ip, ecs_address, encode_ecs, encode_ecs_option, encode_opt, append_opt, extend_opt,
  inject_ecs,
}

pub check_options-safe :
    (rounds : ℕ) (wire : Bytes) (start end : ℕ)
    → end ≤ length wire
    → end - start < rounds
    → check_options rounds wire start end ≢ panic
unfolding check_options uint16
check_options-safe zero wire start end h m = absurd (omega arith)
check_options-safe (suc rounds) wire start end h m =
    ground (arith, check_options-safe rounds wire (start + 4 + value16 wire (start + 2)) end)

-- Validating an OPT record never indexes out of range, and its loop ends.
pub validate_edns_query-safe : (wire : Bytes) (offset : ℕ) → validate_edns_query wire offset ≢ panic
unfolding validate_edns_query read uint16 uint32
validate_edns_query-safe wire offset = ground (
  arith,
  check_options-safe (suc (length wire)) wire (offset + 11)
      (offset + 11 + value16 wire (offset + 9)),
)

pub find_option-safe :
    (rounds : ℕ) (wire : Bytes) (start end code : ℕ)
    → end ≤ length wire
    → end - start < rounds
    → find_option rounds wire start end code ≢ panic
unfolding find_option uint16
find_option-safe zero wire start end code h m = absurd (omega arith)
find_option-safe (suc rounds) wire start end code h m =
    ground (arith, find_option-safe rounds wire (start + (4 + value16 wire (start + 2))) end code)

-- The search for an option never indexes out of range on any message, and its loop ends.
pub edns_has_option-safe :
    (wire : Bytes) (offset code : ℕ) → edns_has_option wire offset code ≢ panic
unfolding edns_has_option search_options read uint16
edns_has_option-safe wire offset code = ground (
  arith,
  find_option-safe (suc (length wire)) wire (offset + 11) (offset + 11 + value16 wire (offset + 9))
      code,
)

pub truncate_ip_whole :
    (ip : Bytes)
    → (truncate_ip ip 24 ≡ ok (take (if ltb (length ip) 3 then length ip else 3) ip))
      × (truncate_ip ip 56 ≡ ok (take (if ltb (length ip) 7 then length ip else 7) ip))
unfolding truncate_ip
truncate_ip_whole ip = (refl, refl)

encode_ecs_option-safe : (ip : Bytes) → encode_ecs_option ip ≢ panic
unfolding encode_ecs_option ecs_address encode_ecs
encode_ecs_option-safe ip = ground (arith, truncate_ip_whole (to4 ip), truncate_ip_whole (to16 ip))

append_opt-safe : (wire option : Bytes) → 12 ≤ length wire → append_opt wire option ≢ panic
unfolding append_opt put_uint16
append_opt-safe wire option h = ground (arith, length-append wire (encode_opt option))

pub with_error-safe :
    {A : Type 0} (m : Parsed A) → m ≢ panic → with_error invalid_dns_message m ≢ panic
with_error-safe (ok a) h = λ p. cc
with_error-safe (err e) h = λ p. cc
with_error-safe panic h = h

extend_opt-safe : (wire option : Bytes) → extend_opt wire option ≢ panic
unfolding extend_opt
extend_opt-safe wire option =
    >>=-safe (with_error invalid_dns_message (parse_question_name wire 12)) _
      (with_error-safe (parse_question_name wire 12) (parse_question_name-safe wire 12))
      (λ (e, n) _. unfold read uint16 put_uint16 in ground (arith, length-append wire option))

-- Injecting a client subnet never indexes out of range, for any message and address.
pub inject_ecs-safe : (wire ip : Bytes) → inject_ecs wire ip ≢ panic
unfolding inject_ecs uint16
inject_ecs-safe wire ip = elim (Bool-cases (ltb (length wire) 12)) [
  | inl short ↦ rw short (λ p. cc)
  | inr long ↦ rw long (
      >>=-safe (encode_ecs_option ip) _ (encode_ecs_option-safe ip)
        (λ o _. ground (arith, append_opt-safe wire o, extend_opt-safe wire o)))
]
