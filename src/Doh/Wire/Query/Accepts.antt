-- ===== src/Doh/Wire/Query/Accepts.antt =====
-- Which queries `parseDNSQuery` accepts.
use sakullla_plugins.Base.{
  ℕ, ◌+◌, ◌-◌, ◌*◌, ◌≤◌, false, List, [], ◌∷◌, ◌++◌, map, ◌≡◌, ◌≢◌, refl, sym, ap, ◌∙◌, arith, All,
  length, length-append, length-map, get_or-append, take, drop, take_all, drop-add, drop-append,
  Bytes, byte_at, value16, segment, ok, uint16,
}
use sakullla_plugins.Doh.Wire.Name.{to_lower, parse_question_name}
use sakullla_plugins.Doh.Wire.Name.Canonical.{parse_question_name-canonical}
use sakullla_plugins.Doh.Wire.Name.Encoding.{encode_name, IsLabel, parse_question_name-encode}
use sakullla_plugins.Doh.Wire.Query.{
  ParsedQuery, check_header, check_question, query_has_ecs, build_query, parse_dns_query,
}
use sakullla_plugins.Doh.Wire.Query.Parts.{built, build_query_lem}

-- The header of a query with one question and its recursion bit set, and a whole query.
abbrev pub header : ℕ → ℕ → Bytes
header i j = i ∷ j ∷ 1 ∷ 0 ∷ 0 ∷ 1 ∷ 0 ∷ 0 ∷ 0 ∷ 0 ∷ 0 ∷ 0 ∷ []

abbrev pub type_and_class : ℕ → ℕ → Bytes
type_and_class t u = t ∷ u ∷ 0 ∷ 1 ∷ []

abbrev pub query_of : ℕ → ℕ → List Bytes → ℕ → ℕ → Bytes
query_of i j ls t u = header i j ++ (encode_name ls ++ type_and_class t u)

length-encode_name_some : (ls : List Bytes) → 1 ≤ length (encode_name ls)
unfolding encode_name
length-encode_name_some [] = omega arith
length-encode_name_some (l ∷ ls) = omega arith

question_accepted :
    (w : Bytes) (e : ℕ)
    → length w ≡ e + 4
    → value16 w e ≢ 0
    → value16 w (e + 2) ≡ 1
    → check_question w 0 e ≡ ok tt
unfolding check_question uint16
question_accepted w e size some_type class = ground arith

parse_accepted :
    (digest : Bytes → Bytes) (w : Bytes) (e : ℕ) (n : Bytes) (q : ParsedQuery)
    → check_header w ≡ ok 0
    → parse_question_name w 12 ≡ ok (e, n)
    → check_question w 0 e ≡ ok tt
    → build_query digest w e n false ≡ ok q
    → parse_dns_query digest w ≡ ok q
unfolding parse_dns_query query_has_ecs
parse_accepted digest w e n q headed named asked made = rw (headed, named, asked) made

module _ (i j : ℕ) (ls : List Bytes) (t u : ℕ) where
  abbrev wire : Bytes
  wire = query_of i j ls t u

  abbrev end : ℕ
  end = 12 + length (encode_name ls)

  length-query_of : length (query_of i j ls t u) ≡ 12 + length (encode_name ls) + 4
  length-query_of = omega (
    arith,
    length-append (header i j) (encode_name ls ++ type_and_class t u),
    length-append (encode_name ls) (type_and_class t u),
  )

  header_checked : check_header (query_of i j ls t u) ≡ ok 0
  unfolding check_header uint16
  header_checked = ground (arith, length-query_of, length-encode_name_some ls)

  byte_behind : (k : ℕ) → byte_at (query_of i j ls t u) (end + k) ≡ byte_at (type_and_class t u) k
  byte_behind k =
      let to : end + k ≡ length (header i j) + (length (encode_name ls) + k) = omega arith in
      ap (byte_at (query_of i j ls t u)) to
      ∙ get_or-append (header i j) (encode_name ls ++ type_and_class t u)
          (length (encode_name ls) + k) 0
      ∙ get_or-append (encode_name ls) (type_and_class t u) k 0

  pair_behind :
      (k : ℕ)
      → value16 (query_of i j ls t u) (end + k)
        ≡ byte_at (type_and_class t u) k * 256 + byte_at (type_and_class t u) (k + 1)
  pair_behind k =
      let to : end + k + 1 ≡ end + (k + 1) = omega arith in
      ap (λ b. b * 256 + byte_at (query_of i j ls t u) (end + k + 1)) (byte_behind k)
      ∙ ap (λ b. byte_at (type_and_class t u) k * 256 + b)
          (ap (byte_at (query_of i j ls t u)) to ∙ byte_behind (k + 1))

  question_checked : t * 256 + u ≢ 0 → check_question (query_of i j ls t u) 0 end ≡ ok tt
  question_checked some_type =
      let at_end : value16 (query_of i j ls t u) end ≡ t * 256 + u =
        ap (value16 (query_of i j ls t u)) (sym end_zero) ∙ pair_behind 0 in
      question_accepted (query_of i j ls t u) end length-query_of (λ e. some_type (sym at_end ∙ e))
        (pair_behind 2)
    where
      end_zero : end + 0 ≡ end
      end_zero = omega arith

  name_accepted :
      All IsLabel ls
      → length (encode_name ls) ≤ 255
      → parse_question_name (query_of i j ls t u) 12 ≡ ok (end, map to_lower (encode_name ls))
  name_accepted labels short =
      parse_question_name-encode ls (header i j) (type_and_class t u) labels short

  behind_question : drop end (query_of i j ls t u) ≡ type_and_class t u
  behind_question =
      drop-add 12 (length (encode_name ls)) (query_of i j ls t u)
      ∙ drop-append (encode_name ls) (type_and_class t u)

  question_kept :
      map to_lower (segment (query_of i j ls t u) 12 end) ≡ map to_lower (encode_name ls)
      → (built (λ w. w) (query_of i j ls t u) end false).question
        ≡ map to_lower (encode_name ls) ++ type_and_class t u
  question_kept canonical =
      ap (λ m. take (end + 4 - 12) (m ++ drop end (query_of i j ls t u))) canonical
      ∙ ap (λ d. take (end + 4 - 12) (map to_lower (encode_name ls) ++ d)) behind_question
      ∙ take_all (map to_lower (encode_name ls) ++ type_and_class t u) (end + 4 - 12) (
          omega (
            arith,
            length-append (map to_lower (encode_name ls)) (type_and_class t u),
            length-map to_lower (encode_name ls),
          ))

  -- A query for the name of some labels, with a type other than zero and the class IN, is accepted. Its
  -- question is the name in lower case with the type and class, and its identifier the first two bytes.
  pub parse_dns_query-query_of :
      (digest : Bytes → Bytes)
      → All IsLabel ls
      → length (encode_name ls) ≤ 255
      → t * 256 + u ≢ 0
      → (q : ParsedQuery) × (parse_dns_query digest (query_of i j ls t u) ≡ ok q)
        × (q.question ≡ map to_lower (encode_name ls) ++ type_and_class t u)
        × (q.id ≡ i * 256 + j)
        × (q.has_ecs ≡ false)
  unfolding parse_dns_query query_has_ecs
  parse_dns_query-query_of digest labels short some_type =
      let named = name_accepted labels short in
      let (behind, inside, canonical, _) =
        parse_question_name-canonical (query_of i j ls t u) 12 end (map to_lower (encode_name ls))
          named in
      let made =
        build_query_lem digest (query_of i j ls t u) end false (omega (arith, length-query_of))
          behind in
      (
        built digest (query_of i j ls t u) end false,
        parse_accepted digest (query_of i j ls t u) end (map to_lower (encode_name ls)) _
            header_checked named (question_checked some_type)
            (ap (λ n. build_query digest (query_of i j ls t u) end n false) canonical ∙ made),
        question_kept (sym canonical),
        refl,
        refl,
      )
