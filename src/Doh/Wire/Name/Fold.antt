-- ===== src/Doh/Wire/Name/Fold.antt =====
-- The parser of names does not see the case of letters.
use sakullla_plugins.Base.{
  ℕ, zero, suc, ◌+◌, ◌-◌, ◌≤◌, ◌<◌, [], ◌∷◌, ◌++◌, map, ◌≡◌, ◌⊎◌, refl, sym, ap, ◌∙◌, arith, length,
  take, drop, segment, byte_at, Bytes, ◌>>=◌, >>=-cong, read, slice, drop-add, drop-cons, map-take,
  map-drop,
}
use sakullla_plugins.Doh.Wire.Name.{
  to_lower, Round, done, next, take_label, parse_label, after_round, parse_labels,
  parse_question_name,
}
use sakullla_plugins.Doh.Wire.Name.Canonical.{RoundTook, parse_label-RoundTook}

-- From an offset on two messages differ in the case of letters only.
pub record Folds (w v : Bytes) (offset : ℕ) : Type 0 where
  pub same_length : length w ≡ length v
  pub same_lower : map to_lower (drop offset w) ≡ map to_lower (drop offset v)

Folds-later : (w v : Bytes) (i j : ℕ) → i ≤ j → Folds w v i → Folds w v j
Folds-later w v i j h f =
    let to : j ≡ i + (j - i) = omega arith in
    record {
      same_length = f.same_length;
      same_lower =
          rw
            (
              to,
              drop-add i (j - i) w,
              drop-add i (j - i) v,
              map-drop to_lower (j - i) (drop i w),
              map-drop to_lower (j - i) (drop i v),
              f.same_lower,
            )
            refl;
    }

Folds-segment :
    (w v : Bytes) (i j : ℕ)
    → Folds w v i
    → map to_lower (segment w i j) ≡ map to_lower (segment v i j)
Folds-segment w v i j f =
    map-take to_lower (j - i) (drop i w)
    ∙ ap (take (j - i)) f.same_lower
    ∙ sym (map-take to_lower (j - i) (drop i v))

Folds-byte :
    (w v : Bytes) (i : ℕ)
    → i < length w
    → Folds w v i
    → to_lower (byte_at w i) ≡ to_lower (byte_at v i)
Folds-byte w v i h f =
    cc (f.same_lower, drop-cons i w 0 h, drop-cons i v 0 (omega (arith, f.same_length)))

take_label-fold :
    (w v : Bytes) (offset len : ℕ) (c : Bytes)
    → Folds w v offset
    → take_label w offset len c ≡ take_label v offset len c
unfolding take_label slice
take_label-fold w v offset zero c f = refl
take_label-fold w v offset (suc n) c f =
    ground (arith, f.same_length, Folds-segment w v offset (offset + suc n) f)

-- A length byte has no case.
length_byte : (b d : ℕ) → to_lower b ≡ to_lower d → (b ≡ d) ⊎ ((63 < b) × (63 < d))
length_byte b d h = ground arith

parse_label-fold :
    (w v : Bytes) (offset : ℕ) (c : Bytes)
    → Folds w v offset
    → parse_label w offset c ≡ parse_label v offset c
unfolding parse_label read
parse_label-fold w v offset c f = ground (
  arith,
  f.same_length,
  Folds-byte w v offset,
  length_byte (byte_at w offset) (byte_at v offset),
  take_label-fold w v (offset + 1) (byte_at w offset) (c ++ (byte_at w offset ∷ []))
      (Folds-later w v offset (offset + 1) (omega arith) f),
)

after_round-fold :
    (w v : Bytes) (rounds offset : ℕ) (c : Bytes) (r : Round)
    → Folds w v offset
    → RoundTook w offset c r
    → ((e : ℕ) (d : Bytes) → Folds w v e → parse_labels rounds w e d ≡ parse_labels rounds v e d)
    → after_round (parse_labels rounds w) r ≡ after_round (parse_labels rounds v) r
after_round-fold w v rounds offset c (done e d) f t again = refl
after_round-fold w v rounds offset c (next e d) f t again =
    again e d (Folds-later w v offset e t.0 f)

parse_labels-fold :
    (rounds : ℕ) (w v : Bytes) (offset : ℕ) (c : Bytes)
    → Folds w v offset
    → parse_labels rounds w offset c ≡ parse_labels rounds v offset c
unfolding parse_labels
parse_labels-fold zero w v offset c f = refl
parse_labels-fold (suc rounds) w v offset c f =
    >>=-cong (parse_label w offset c) _ _ (λ r e.
      after_round-fold w v rounds offset c r f (parse_label-RoundTook w offset c r e)
        (λ o d g. parse_labels-fold rounds w v o d g))
    ∙ ap (λ m. m >>= after_round (parse_labels rounds v)) (parse_label-fold w v offset c f)

-- Two messages of one length that from the offset on differ in the case of letters only give the same
-- result, the same end and the same name or the same error.
pub parse_question_name-fold :
    (w v : Bytes) (offset : ℕ)
    → Folds w v offset
    → parse_question_name w offset ≡ parse_question_name v offset
unfolding parse_question_name
parse_question_name-fold w v offset f = parse_labels-fold 128 w v offset [] f
