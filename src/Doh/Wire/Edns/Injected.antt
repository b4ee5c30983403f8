-- ===== src/Doh/Wire/Edns/Injected.antt =====
-- A query with no OPT record gets a valid one with a client subnet.
use sakullla_plugins.Base.{
  ℕ, zero, suc, ◌+◌, ◌*◌, ◌/◌, ◌%◌, ◌≤◌, ◌<◌, true, ◌∷◌, ◌++◌, ◌≡◌, ap, inl, inr, ◌∙◌, arith, ltb,
  ◌==◌, if◌then◌else◌, Bool-cases, length, set, value16, byte_at, write16, Bytes, ok, ◌>>=◌,
  >>=-eq-ok, read, uint16, uint32, put_uint16, length-append, length-take, length-write16,
  length-set, get_or-append, get_or-set, get_or-set_self,
}
use native.Mathlib.Nat.{add_assoc, add-zero}
use sakullla_plugins.Doh.Wire.{max_dns_request_bytes}
use sakullla_plugins.Doh.Wire.Edns.{
  check_options, validate_edns_query, find_option, search_options, edns_has_option, to4, to16,
  EcsAddress, ecs_address, encode_ecs, encode_ecs_option, encode_opt, high, low, append_opt,
  extend_opt, inject_ecs,
}
use sakullla_plugins.Doh.Wire.Edns.Safe.{truncate_ip_whole}

abbrev ecs_bytes : EcsAddress → Bytes
ecs_bytes a =
    0
    ∷ 8
    ∷ high (4 + length a.address)
    ∷ low (4 + length a.address)
    ∷ high a.family
    ∷ low a.family
    ∷ a.prefix
    ∷ 0
    ∷ a.address

ecs_address-length : (ip : Bytes) (a : EcsAddress) → ecs_address ip ≡ ok a → length a.address ≤ 16
unfolding ecs_address
ecs_address-length ip a e = ground (
  arith,
  truncate_ip_whole (to4 ip),
  truncate_ip_whole (to16 ip),
  length-take {0} 3 (to4 ip),
  length-take {0} 7 (to16 ip),
  length-take {0} (length (to4 ip)) (to4 ip),
  length-take {0} (length (to16 ip)) (to16 ip),
)

abbrev appended : Bytes → EcsAddress → Bytes
appended wire a = write16 (wire ++ encode_opt (ecs_bytes a)) 10 1

module _ (wire : Bytes) (a : EcsAddress) (long : 12 ≤ length wire)
    (short : length a.address ≤ 16) where
  byte_at-with_opt :
      (k : ℕ) → byte_at (appended wire a) (length wire + k) ≡ byte_at (encode_opt (ecs_bytes a)) k
  byte_at-with_opt k =
      get_or-set (set (wire ++ encode_opt (ecs_bytes a)) 10 0) 11 (length wire + k) 1 0
        (omega arith)
      ∙ get_or-set (wire ++ encode_opt (ecs_bytes a)) 10 (length wire + k) 0 0 (omega arith)
      ∙ get_or-append wire (encode_opt (ecs_bytes a)) k 0

  value16-with_opt :
      (k : ℕ)
      → value16 (appended wire a) (length wire + k)
        ≡ byte_at (encode_opt (ecs_bytes a)) k * 256 + byte_at (encode_opt (ecs_bytes a)) (k + 1)
  value16-with_opt k =
      rw (add_assoc (length wire) k 1, byte_at-with_opt k, byte_at-with_opt (k + 1))

  length-with_opt : length (appended wire a) ≡ length wire + 19 + length a.address
  length-with_opt =
      unfold encode_opt in
      omega (
        arith,
        length-write16 (wire ++ encode_opt (ecs_bytes a)) 10 1,
        length-append wire (encode_opt (ecs_bytes a)),
      )

  -- The fixed bytes of the record and of its option.
  fixed_bytes :
      (byte_at (appended wire a) (length wire) ≡ 0)
      × (value16 (appended wire a) (length wire + 1) ≡ 41)
      × (value16 (appended wire a) (length wire + 5) ≡ 0)
      × (value16 (appended wire a) (length wire + 5 + 2) ≡ 0)
      × (value16 (appended wire a) (length wire + 9) ≡ 8 + length a.address)
      × (value16 (appended wire a) (length wire + 11) ≡ 8)
      × (value16 (appended wire a) (length wire + 11 + 2) ≡ 4 + length a.address)
  unfolding encode_opt
  fixed_bytes = (
    rw (← add-zero (length wire)) (byte_at-with_opt 0),
    value16-with_opt 1,
    value16-with_opt 5,
    rw (add_assoc (length wire) 5 2) (value16-with_opt 7),
    omega (arith, value16-with_opt 9),
    value16-with_opt 11,
    rw (add_assoc (length wire) 11 2) (omega (arith, value16-with_opt 13)),
  )

  check_options-with_opt :
      check_options
        (suc (length (appended wire a)))
        (appended wire a)
        (length wire + 11)
        (length wire + 11 + (8 + length a.address))
      ≡ ok tt
  check_options-with_opt = go (length (appended wire a)) length-with_opt
    where
      go :
          (n : ℕ)
          → n ≡ length wire + 19 + length a.address
          → check_options
              (suc n)
              (appended wire a)
              (length wire + 11)
              (length wire + 11 + (8 + length a.address))
            ≡ ok tt
      go zero e = absurd (omega arith)
      go (suc n) e = unfold check_options uint16 in ground (arith, fixed_bytes, length-with_opt)

  with_opt_valid : validate_edns_query (appended wire a) (length wire) ≡ ok tt
  unfolding validate_edns_query read uint16 uint32
  with_opt_valid = ground (arith, fixed_bytes, length-with_opt, check_options-with_opt)

  with_opt-has_ecs : edns_has_option (appended wire a) (length wire) 8 ≡ ok true
  unfolding edns_has_option search_options find_option read uint16
  with_opt-has_ecs = ground (arith, fixed_bytes, length-with_opt)

append_opt_parts :
    (wire : Bytes) (a : EcsAddress) (result : Bytes)
    → (encode_ecs a >>= append_opt wire) ≡ ok result
    → 12 ≤ length wire
    → (result ≡ appended wire a)
      × (length (wire ++ encode_opt (ecs_bytes a)) ≤ max_dns_request_bytes)
unfolding encode_ecs append_opt put_uint16
append_opt_parts wire a result e long =
    ground (arith, length-append wire (encode_opt (ecs_bytes a)))

first_record :
    (wire option result : Bytes)
    → value16 wire 10 ≡ 0
    → 12 ≤ length wire
    → (uint16 wire 10 >>= λ additional.
        if additional == 0 then append_opt wire option else extend_opt wire option)
      ≡ ok result
    → append_opt wire option ≡ ok result
unfolding uint16
first_record wire option result none_yet long e = ground arith

inject_ecs_parts :
    (wire ip result : Bytes)
    → value16 wire 10 ≡ 0
    → inject_ecs wire ip ≡ ok result
    → (12 ≤ length wire)
      × ((a : EcsAddress) × (ecs_address ip ≡ ok a)
          × ((encode_ecs a >>= append_opt wire) ≡ ok result))
unfolding inject_ecs encode_ecs_option
inject_ecs_parts wire ip result none_yet e = elim (Bool-cases (ltb (length wire) 12)) [
  | inl short ↦ cc (rw short at e)
  | inr enough ↦
      let long : 12 ≤ length wire = ground arith in
      let (option, encoded, added) = >>=-eq-ok (encode_ecs_option ip) _ (rw enough at e) in
      let (a, from, to) = >>=-eq-ok (ecs_address ip) _ encoded in
      (
        long,
        (
          a,
          from,
          ap (λ m. m >>= append_opt wire) to ∙ first_record wire option result none_yet long added,
        ),
      )
]

value16-write16 : (w : Bytes) (v : ℕ) → 12 ≤ length w → v < 65536 → value16 (write16 w 10 v) 10 ≡ v
value16-write16 w v long small = omega (
  arith,
  get_or-set {0} (set w 10 (v / 256 % 256)) 11 10 (v % 256) 0 (omega arith),
  get_or-set_self {0} w 10 (v / 256 % 256) 0 (omega arith),
  get_or-set_self {0} (set w 10 (v / 256 % 256)) 11 (v % 256) 0
      (omega (arith, length-set {0} w 10 (v / 256 % 256))),
)

-- Where a query has no additional record, a successful injection appends an OPT record that the
-- validation of queries accepts and in which the client subnet option is found, sets the additional
-- count to one, and stays within the bound on requests.
pub inject_ecs-valid :
    (wire ip result : Bytes)
    → value16 wire 10 ≡ 0
    → inject_ecs wire ip ≡ ok result
    → (validate_edns_query result (length wire) ≡ ok tt)
      × (edns_has_option result (length wire) 8 ≡ ok true)
      × (value16 result 10 ≡ 1)
      × (length result ≤ max_dns_request_bytes)
inject_ecs-valid wire ip result none_yet e =
    let (long, (a, from, to)) = inject_ecs_parts wire ip result none_yet e in
    let (is_with_opt, bound) = append_opt_parts wire a result to long in
    let short = ecs_address-length ip a from in
    let longer = wire ++ encode_opt (ecs_bytes a) in
    rw is_with_opt (
      with_opt_valid wire a long short,
      with_opt-has_ecs wire a long short,
      value16-write16 longer 1 (omega (arith, length-append wire (encode_opt (ecs_bytes a))))
          (omega arith),
      omega (arith, length-write16 longer 10 1),
    )
