-- ===== src/Accelerator/Dns/Reply/Safe.antt =====
-- Reading a response never panics.
use sakullla_plugins.Base.{
  ℕ, zero, suc, ◌+◌, ◌*◌, is_empty, ◌≤◌, Bool, true, false, not, ◌||◌, Option, none, some, List, [],
  ◌∷◌, ◌≡◌, ◌≢◌, refl, arith, if-elim, ltb, ◌==◌, length, bytes_eq, Bytes, Result, ok, panic, ◌>>◌,
  >>=-safe, reject_if, read, slice, uint16, uint32,
}
use sakullla_plugins.Base.Table.{find}
use sakullla_plugins.Accelerator.Dns.{
  DnsError, dns_wire, NameStep, named, go_on, name_end, name_pointer, name_label, name_step,
  after_step, name_steps, read_dns_name, normalize_dns_name,
}
use sakullla_plugins.Accelerator.Dns.Reply.{
  CnameRecord, Scan, Fields, read_fields, see_fields, sees_cname, sees_address, sees_soa,
  nothing_seen, read_header, check_class, second, known_cname, see_cname, see_address, see_soa,
  when, scan_record, scan_records, check_question, parse_dns_response,
}

name_step-safe :
    (m : Bytes) (offset : ℕ) (labels : List Bytes) (next : Option ℕ) (visited : List ℕ)
    → name_step m offset labels next visited ≢ panic
unfolding name_step name_end name_pointer name_label read slice uint16
name_step-safe m offset labels next visited = ground arith

after_step-safe :
    (again : ℕ → List Bytes → Option ℕ → Result DnsError (Bytes × ℕ)) (s : NameStep)
    → ((o : ℕ) (labels : List Bytes) (next : Option ℕ) → again o labels next ≢ panic)
    → after_step again s ≢ panic
after_step-safe again (named name next) h = λ p. cc
after_step-safe again (go_on o labels next) h = h o labels next

name_steps-safe :
    (steps : ℕ) (m : Bytes) (visited : List ℕ) (offset : ℕ) (labels : List Bytes) (next : Option ℕ)
    → name_steps steps m visited offset labels next ≢ panic
unfolding name_steps
name_steps-safe zero m visited offset labels next = λ p. cc
name_steps-safe (suc steps) m visited offset labels next =
    >>=-safe (name_step m offset labels next visited) _
      (name_step-safe m offset labels next visited)
      (λ s _.
        after_step-safe (name_steps steps m (offset ∷ visited)) s
          (name_steps-safe steps m (offset ∷ visited)))

read_dns_name-safe : (m : Bytes) (offset : ℕ) → read_dns_name m offset ≢ panic
unfolding read_dns_name
read_dns_name-safe m offset = name_steps-safe 128 m [] offset [] none

known_cname-safe :
    (owner target : Bytes) (ttl : ℕ) (s : Scan) (c : Option CnameRecord)
    → known_cname owner target ttl s c ≢ panic
known_cname-safe owner target ttl s none = λ p. cc
known_cname-safe owner target ttl s (some c) =
    if-elim (λ (r : Result DnsError Scan). r ≢ panic) (bytes_eq c.target target) (λ _ p. cc)
      (λ _ p. cc)

guarded-safe :
    {A : Type 0} (b : Bool) (rest : Result DnsError A)
    → (b ≡ false → rest ≢ panic)
    → (reject_if b dns_wire >> rest) ≢ panic
guarded-safe true rest h = λ p. cc
guarded-safe false rest h = h refl

see_cname-safe :
    (m : Bytes) (start len : ℕ) (owner : Bytes) (ttl : ℕ) (s : Scan)
    → see_cname m start len owner ttl s ≢ panic
unfolding see_cname
see_cname-safe m start len owner ttl s =
    >>=-safe (read_dns_name m start) _ (read_dns_name-safe m start) (λ (target, end) _.
      guarded-safe (not (end == start + len) || (is_empty target || bytes_eq target owner)) _
        (λ _. known_cname-safe owner target (ttl * second) s (find owner s.cnames)))

see_address-safe :
    (m : Bytes) (start len : ℕ) (owner : Bytes) (ttl : ℕ) (s : Scan)
    → start + len ≤ length m
    → see_address m start len owner ttl s ≢ panic
unfolding see_address slice
see_address-safe m start len owner ttl s h = ground (arith, h)

see_soa-safe :
    (m : Bytes) (start len ttl : ℕ) (s : Scan)
    → start + len ≤ length m
    → 20 ≤ len
    → see_soa m start len ttl s ≢ panic
unfolding see_soa uint32
see_soa-safe m start len ttl s h long = ground (arith, h, long)

when-safe :
    (b : Bool) (act : Scan → Result DnsError Scan) (s : Scan)
    → (b ≡ true → act s ≢ panic)
    → when b act s ≢ panic
when-safe true act s h = h refl
when-safe false act s h = λ p. cc

read_fields-safe : (m : Bytes) (next : ℕ) → read_fields m next ≢ panic
unfolding read_fields uint16 uint32
read_fields-safe m next = ground arith

read_fields_inside :
    (m : Bytes) (next : ℕ) (f : Fields) → read_fields m next ≡ ok f → f.start + f.len ≤ length m
unfolding read_fields uint16 uint32
read_fields_inside m next f h = ground (arith, h)

sees_soa_long : (is_answer : Bool) (f : Fields) → sees_soa is_answer f ≡ true → 20 ≤ f.len
sees_soa_long is_answer f h = ground (arith, h)

see_fields-safe :
    (m : Bytes) (query_type : ℕ) (is_answer : Bool) (owner : Bytes) (f : Fields) (s : Scan)
    → f.start + f.len ≤ length m
    → see_fields m query_type is_answer owner f s ≢ panic
unfolding see_fields
see_fields-safe m query_type is_answer owner f s inside =
    >>=-safe (when (sees_cname is_answer f) (see_cname m f.start f.len owner f.ttl) s) _
      (when-safe (sees_cname is_answer f) (see_cname m f.start f.len owner f.ttl) s
        (λ _. see_cname-safe m f.start f.len owner f.ttl s))
      (λ s1 _.
        >>=-safe
          (when (sees_address query_type is_answer f) (see_address m f.start f.len owner f.ttl) s1)
          _
          (when-safe (sees_address query_type is_answer f) (see_address m f.start f.len owner f.ttl)
            s1 (λ _. see_address-safe m f.start f.len owner f.ttl s1 inside))
          (λ s2 _.
            when-safe (sees_soa is_answer f) (see_soa m f.start f.len f.ttl) s2 (λ soa.
              see_soa-safe m f.start f.len f.ttl s2 inside (sees_soa_long is_answer f soa))))

scan_record-safe :
    (m : Bytes) (query_type : ℕ) (is_answer : Bool) (offset : ℕ) (s : Scan)
    → scan_record m query_type is_answer offset s ≢ panic
unfolding scan_record
scan_record-safe m query_type is_answer offset s =
    >>=-safe (read_dns_name m offset) _ (read_dns_name-safe m offset) (λ (owner, next) _.
      >>=-safe (read_fields m next) _ (read_fields-safe m next) (λ f is.
        >>=-safe (see_fields m query_type is_answer owner f s) _
          (see_fields-safe m query_type is_answer owner f s (read_fields_inside m next f is))
          (λ s1 _ p. cc)))

scan_records-safe :
    (count : ℕ) (m : Bytes) (query_type answers index offset : ℕ) (s : Scan)
    → scan_records count m query_type answers index offset s ≢ panic
unfolding scan_records
scan_records-safe zero m query_type answers index offset s = λ p. cc
scan_records-safe (suc count) m query_type answers index offset s =
    >>=-safe (scan_record m query_type (ltb index answers) offset s) _
      (scan_record-safe m query_type (ltb index answers) offset s)
      (λ (next, s1) _. scan_records-safe count m query_type answers (index + 1) next s1)

check_class-safe : (m : Bytes) (query_type offset : ℕ) → check_class m query_type offset ≢ panic
unfolding check_class uint16
check_class-safe m query_type offset = ground arith

check_question-safe : (m : Bytes) (query_type : ℕ) → check_question m query_type ≢ panic
unfolding check_question
check_question-safe m query_type =
    >>=-safe (read_dns_name m 12) _ (read_dns_name-safe m 12) (λ (name, offset) _.
      >>=-safe (check_class m query_type offset) _ (check_class-safe m query_type offset)
        (λ _ _ p. cc))

read_header-safe : (m : Bytes) (id : ℕ) → read_header m id ≢ panic
unfolding read_header uint16
read_header-safe m id = ground arith

-- Reading any bytes as the response to any query never indexes or slices out of range.
pub parse_dns_response-safe :
    (message : Bytes) (id query_type : ℕ) (expected : Bytes)
    → parse_dns_response message id query_type expected ≢ panic
unfolding parse_dns_response
parse_dns_response-safe m id query_type expected =
    >>=-safe (read_header m id) _ (read_header-safe m id) (λ h _.
      >>=-safe (check_question m query_type) _ (check_question-safe m query_type)
        (λ (name, offset) _.
          guarded-safe (not (bytes_eq name (normalize_dns_name expected))) _ (λ _.
            >>=-safe
              (scan_records (h.answers + h.authorities) m query_type h.answers 0 offset
                nothing_seen)
              _
              (scan_records-safe (h.answers + h.authorities) m query_type h.answers 0 offset
                nothing_seen)
              (λ s _ p. cc))))
