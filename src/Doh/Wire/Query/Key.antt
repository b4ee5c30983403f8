-- ===== src/Doh/Wire/Query/Key.antt =====
-- What the cache key of a query determines.
use sakullla_plugins.Base.{
  ℕ, ◌+◌, ◌-◌, ◌/◌, ◌%◌, ◌≤◌, [], ◌∷◌, ◌++◌, map, ◌≡◌, refl, sym, ap, ◌∙◌, arith, length, take,
  drop, set, segment, Bytes, ok, length-take, length-set, drop-append, drop-add, take-append-drop,
}
use mathlib.Core.List.{map-append}
use sakullla_plugins.Doh.Wire.Name.{to_lower}
use sakullla_plugins.Doh.Wire.Name.Fold.{Folds, parse_question_name-fold}
use sakullla_plugins.Doh.Wire.Query.{ParsedQuery, hex_digit, hex_encode, parse_dns_query}
use sakullla_plugins.Doh.Wire.Query.Parts.{normal_form, length-normal_form, parse_dns_query-IsQuery}

hex_digit-injective : (a b : ℕ) → hex_digit a ≡ hex_digit b → a ≡ b
hex_digit-injective a b h = ground arith

hex_encode-injective : (a b : Bytes) → hex_encode a ≡ hex_encode b → a ≡ b
unfolding hex_encode
hex_encode-injective [] [] h = refl
hex_encode-injective [] (y ∷ b) h = cc
hex_encode-injective (x ∷ a) [] h = cc
hex_encode-injective (x ∷ a) (y ∷ b) h = ground (
  arith,
  hex_digit-injective (x / 16) (y / 16),
  hex_digit-injective (x % 16) (y % 16),
  hex_encode-injective a b,
)

to_lower_twice : (xs : Bytes) → map to_lower (map to_lower xs) ≡ map to_lower xs
to_lower_twice [] = refl
to_lower_twice (x ∷ xs) =
    let once : to_lower (to_lower x) ≡ to_lower x = ground arith in rw (once, to_lower_twice xs)

-- Behind the header a message and its normal form differ in case only.
drop-normal_form :
    (w : Bytes) (e : ℕ)
    → 12 ≤ e
    → e ≤ length w
    → map to_lower (drop 12 (normal_form w e)) ≡ map to_lower (drop 12 w)
drop-normal_form w e behind inside =
    let header : length (take 12 (set (set w 0 0) 1 0)) ≡ 12 = omega (
      arith,
      length-take {0} 12 (set (set w 0 0) 1 0),
      length-set {0} (set w 0 0) 1 0,
      length-set {0} w 0 0,
    ) in
    let to : drop e w ≡ drop (e - 12) (drop 12 w) =
      ap (λ n. drop n w) (omega arith) ∙ drop-add 12 (e - 12) w in
    ap (λ n. map to_lower (drop n (normal_form w e))) (sym header)
    ∙ ap (map to_lower) (drop-append (take 12 (set (set w 0 0) 1 0)) _)
    ∙ map-append to_lower (map to_lower (segment w 12 e)) (drop e w)
    ∙ ap (λ t. t ++ map to_lower (drop e w)) (to_lower_twice (segment w 12 e))
    ∙ sym (map-append to_lower (segment w 12 e) (drop e w))
    ∙ ap (λ t. map to_lower (segment w 12 e ++ t)) to
    ∙ ap (map to_lower) (take-append-drop (e - 12) (drop 12 w))

-- Queries with one normal form differ in the identifier and in the case of letters only.
normal_form-Folds :
    (w v : Bytes) (e d : ℕ)
    → 12 ≤ e
    → e ≤ length w
    → 12 ≤ d
    → d ≤ length v
    → normal_form w e ≡ normal_form v d
    → Folds w v 12
normal_form-Folds w v e d he hw hd hv same = record {
  same_length = sym (length-normal_form w e hw he) ∙ ap length same ∙ length-normal_form v d hv hd;
  same_lower =
      sym (drop-normal_form w e he hw)
      ∙ ap (λ n. map to_lower (drop 12 n)) same
      ∙ drop-normal_form v d hd hv;
}

-- If the hash has no collisions, two accepted queries with one cache key have one normalized message
-- and one question: name (in lower case), type and class.
pub same_key-same_question :
    (digest : Bytes → Bytes) (w v : Bytes) (q r : ParsedQuery)
    → ((x y : Bytes) → digest x ≡ digest y → x ≡ y)
    → parse_dns_query digest w ≡ ok q
    → parse_dns_query digest v ≡ ok r
    → q.key ≡ r.key
    → (q.normalized ≡ r.normalized) × (q.question ≡ r.question)
same_key-same_question digest w v q r injective hq hr same =
    let a = parse_dns_query-IsQuery digest w q hq in
    let b = parse_dns_query-IsQuery digest v r hr in
    let hashed = hex_encode-injective _ _ (sym a.key_is ∙ same ∙ b.key_is) in
    let forms = injective _ _ hashed in
    let folds =
      normal_form-Folds w v a.question_end b.question_end a.behind (omega (arith, a.inside))
        b.behind (omega (arith, b.inside)) forms in
    let parses = sym a.name_parsed ∙ parse_question_name-fold w v 12 folds ∙ b.name_parsed in
    let ends : a.question_end ≡ b.question_end = cc parses in
    (
      a.normalized_is ∙ forms ∙ sym b.normalized_is,
      a.question_is
          ∙ ap (λ n. segment n 12 (a.question_end + 4)) forms
          ∙ ap (λ n. segment (normal_form v b.question_end) 12 (n + 4)) ends
          ∙ sym b.question_is,
    )
