-- ===== src/Doh/Wire/Edns.antt =====
-- The OPT record of a query: its validation, the search for an option, and the injection of a client
-- subnet (ECS) option.
pub mod Safe
pub mod Injected
pub mod Succeeds
use sakullla_plugins.Base.{
  ℕ, zero, suc, ◌+◌, ◌-◌, ◌*◌, ◌/◌, ◌%◌, ◌^◌, Bool, true, false, not, ◌&&◌, ◌||◌, [], ◌∷◌, ◌++◌,
  ltb, leb, ◌==◌, if◌then◌else◌, length, take, drop, set, byte_at, Bytes, bytes_eq, Result, ok, err,
  panic, ◌>>=◌, ◌>>◌, reject_if, with_error, read, uint16, uint32, put_uint16,
}
use sakullla_plugins.Doh.Wire.{
  DohError, Parsed, invalid_dns_message, invalid_request, request_too_large, max_dns_request_bytes,
}
use sakullla_plugins.Doh.Wire.Name.{parse_question_name}

-- The loop of `validateEDNSQuery` over the options. Each round takes four bytes at least.
unfoldable pub check_options : ℕ → Bytes → ℕ → ℕ → Parsed (Unit {0})
check_options zero wire start end = panic
check_options (suc rounds) wire start end = elim (ltb start end) [
  | false ↦ ok tt
  | true ↦ do
    reject_if (ltb end (start + 4)) invalid_dns_message
    len ← uint16 wire (start + 2)
    reject_if (ltb end (start + 4 + len)) invalid_dns_message
    check_options rounds wire (start + 4 + len) end
]

-- `flags&0xffff7fff != 0`
abbrev pub unknown_flags : ℕ → Bool
unknown_flags flags = not (flags % 0x8000 == 0) || not (flags / 0x10000 == 0)

unfoldable pub validate_edns_query : Bytes → ℕ → Parsed (Unit {0})
validate_edns_query wire offset = do
  reject_if (ltb (length wire) (offset + 11)) invalid_dns_message
  root ← read wire offset
  reject_if (not (root == 0)) invalid_dns_message
  kind ← uint16 wire (offset + 1)
  reject_if (not (kind == 41)) invalid_dns_message
  flags ← uint32 wire (offset + 5)
  reject_if (unknown_flags flags) invalid_dns_message
  rdata_length ← uint16 wire (offset + 9)
  reject_if (not (offset + 11 + rdata_length == length wire)) invalid_dns_message
  check_options (suc (length wire)) wire (offset + 11) (offset + 11 + rdata_length)

unfoldable pub find_option : ℕ → Bytes → ℕ → ℕ → ℕ → Parsed Bool
find_option zero wire start end code = panic
find_option (suc rounds) wire start end code = elim (ltb start end) [
  | false ↦ ok false
  | true ↦ elim (ltb end (start + 4)) [
    | true ↦ ok false
    | false ↦ do
      option ← uint16 wire start
      len ← uint16 wire (start + 2)
      elim (option == code) [
        | true ↦ ok true
        | false ↦ find_option rounds wire (start + (4 + len)) end code
      ]
  ]
]

unfoldable pub search_options : Bytes → ℕ → ℕ → ℕ → Parsed Bool
search_options wire offset code rdata_length =
    if ltb (length wire) (offset + 11 + rdata_length)
    then ok false
    else find_option (suc (length wire)) wire (offset + 11) (offset + 11 + rdata_length) code

unfoldable pub edns_has_option : Bytes → ℕ → ℕ → Parsed Bool
edns_has_option wire offset code = elim (ltb (length wire) (offset + 11)) [
  | true ↦ ok false
  | false ↦ do
    root ← read wire offset
    elim (root == 0) [
      | false ↦ ok false
      | true ↦ uint16 wire (offset + 9) >>= search_options wire offset code
    ]
]

-- `net.IP.To4` and `To16`: the empty list is nil.
abbrev pub mapped_prefix : Bytes
mapped_prefix = 0 ∷ 0 ∷ 0 ∷ 0 ∷ 0 ∷ 0 ∷ 0 ∷ 0 ∷ 0 ∷ 0 ∷ 255 ∷ 255 ∷ []

unfoldable pub to4 : Bytes → Bytes
to4 ip =
    if length ip == 4
    then ip
    else if length ip == 16 && bytes_eq (take 12 ip) mapped_prefix
    then drop 12 ip
    else []

unfoldable pub to16 : Bytes → Bytes
to16 ip = if length ip == 4 then mapped_prefix ++ ip else if length ip == 16 then ip else []

abbrev pub is_nil : Bytes → Bool
is_nil [] = true
is_nil (_ ∷ _) = false

-- `truncateIP`; the mask `byte(0xff << (8 - rem))` clears the low `8 - rem` bits.
unfoldable pub mask_last : Bytes → ℕ → ℕ → Parsed Bytes
mask_last out zero rem = panic
mask_last out (suc last) rem = ok (set out last (byte_at out last / 2 ^ (8 - rem) * 2 ^ (8 - rem)))

unfoldable pub truncate_ip : Bytes → ℕ → Parsed Bytes
truncate_ip ip zero = ok []
truncate_ip ip (suc n) =
    let bits = suc n in
    let wanted = (bits + 7) / 8 in
    let nbytes = if ltb (length ip) wanted then length ip else wanted in
    if bits % 8 == 0 then ok (take nbytes ip) else mask_last (take nbytes ip) nbytes (bits % 8)

pub record EcsAddress : Type 0 where
  pub family : ℕ
  pub prefix : ℕ
  pub address : Bytes

unfoldable pub ecs_address : Bytes → Parsed EcsAddress
ecs_address ip =
    if is_nil ip
    then ok (record { family = 0; prefix = 0; address = [] })
    else if not (is_nil (to4 ip))
    then (do a ← truncate_ip (to4 ip) 24; ok (record { family = 1; prefix = 24; address = a }))
    else if not (is_nil (to16 ip))
    then (do a ← truncate_ip (to16 ip) 56; ok (record { family = 2; prefix = 56; address = a }))
    else ok (record { family = 0; prefix = 0; address = [] })

abbrev pub high : ℕ → ℕ
high n = n / 256 % 256

abbrev pub low : ℕ → ℕ
low n = n % 256

-- The option code 8, the option's length, the family, the source prefix, the scope, the address.
unfoldable pub encode_ecs : EcsAddress → Parsed Bytes
encode_ecs a =
    if a.family == 0
    then err invalid_request
    else ok (
        0
        ∷ 8
        ∷ high (4 + length a.address)
        ∷ low (4 + length a.address)
        ∷ high a.family
        ∷ low a.family
        ∷ a.prefix
        ∷ 0
        ∷ a.address)

unfoldable pub encode_ecs_option : Bytes → Parsed Bytes
encode_ecs_option ip = ecs_address ip >>= encode_ecs

unfoldable pub encode_opt : Bytes → Bytes
encode_opt option =
    0 ∷ 0 ∷ 41 ∷ 0x04 ∷ 0xd0 ∷ 0 ∷ 0 ∷ 0 ∷ 0 ∷ high (length option) ∷ low (length option) ∷ option

-- `injectECS` where the query has no OPT record, and where it has one.
unfoldable pub append_opt : Bytes → Bytes → Parsed Bytes
append_opt wire option = do
  let result = wire ++ encode_opt option
  reject_if (ltb max_dns_request_bytes (length result)) request_too_large
  put_uint16 result 10 1

unfoldable pub extend_opt : Bytes → Bytes → Parsed Bytes
extend_opt wire option = do
  (question_end, _) ← with_error invalid_dns_message (parse_question_name wire 12)
  reject_if (ltb (length wire) (question_end + 4 + 11)) invalid_dns_message
  root ← read wire (question_end + 4)
  reject_if (not (root == 0)) invalid_dns_message
  rdlength ← uint16 wire (question_end + 4 + 9)
  reject_if (not (question_end + 4 + 9 + 2 + rdlength == length wire)) invalid_dns_message
  let result = wire ++ option
  reject_if (ltb max_dns_request_bytes (length result)) request_too_large
  put_uint16 result (question_end + 4 + 9) ((rdlength + length option) % 65536)

unfoldable pub inject_ecs : Bytes → Bytes → Parsed Bytes
inject_ecs wire ip = do
  reject_if (ltb (length wire) 12) invalid_dns_message
  option ← encode_ecs_option ip
  additional ← uint16 wire 10
  if additional == 0 then append_opt wire option else extend_opt wire option
