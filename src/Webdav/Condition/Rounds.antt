-- ===== src/Webdav/Condition/Rounds.antt =====
-- The rounds of a header value are enough: each takes a byte or more.
use sakullla_plugins.Base.{
  ℕ, zero, suc, ◌≤◌, ◌<◌, Bool, true, false, ◌||◌, Option, none, some, [], ◌∷◌, ◌≡◌, refl, arith,
  if-elim, if◌then◌else◌, ◌==◌, length, length-drop, drop, Bytes, has_prefix,
}
use sakullla_plugins.Webdav.Condition.{
  IfMatchClass, quote, is_tag_character, before_tag, tag_body, close_tag, open_tag, weak_mark,
  trim_blanks, cut_entity_tag, see_tag, see_star, resume, see_element, classify_value,
}

trim_blanks-shorter : (r : Bytes) → length (trim_blanks r) ≤ length r
unfolding trim_blanks
trim_blanks-shorter [] = omega arith
trim_blanks-shorter (c ∷ cs) =
    if-elim (λ (r : Bytes). length r ≤ suc (length cs)) ((c == 32) || (c == 9))
      (λ _. omega (arith, trim_blanks-shorter cs)) (λ _. omega arith)

-- What is behind a tag is shorter than where it starts.
abbrev IsShorter : Bytes → Option (Bytes × Bytes) → Type 0
IsShorter cs none = Unit
IsShorter cs (some (inner, rest)) = length rest < length cs

before_tag-IsShorter :
    (c : ℕ) (cs : Bytes) (o : Option (Bytes × Bytes))
    → IsShorter cs o
    → IsShorter (c ∷ cs) (before_tag c o)
before_tag-IsShorter c cs none h = tt
before_tag-IsShorter c cs (some (inner, rest)) h = omega (arith, h)

tag_body-IsShorter : (cs : Bytes) → IsShorter cs (tag_body cs)
unfolding tag_body
tag_body-IsShorter [] = tt
tag_body-IsShorter (c ∷ cs) =
    if-elim (IsShorter (c ∷ cs)) (c == quote) (λ _. omega arith)
      (λ _.
        if-elim (IsShorter (c ∷ cs)) (is_tag_character c)
          (λ _. before_tag-IsShorter c cs (tag_body cs) (tag_body-IsShorter cs)) (λ _. tt))

close_tag-shorter :
    (mark cs : Bytes) (o : Option (Bytes × Bytes))
    → IsShorter cs o
    → length (close_tag mark o).1 ≤ length cs
close_tag-shorter mark cs none h = omega arith
close_tag-shorter mark cs (some (inner, rest)) h = omega (arith, h)

open_tag-shorter : (mark v : Bytes) (n : ℕ) → length v ≤ suc n → length (open_tag mark v).1 ≤ n
open_tag-shorter mark [] n h = omega arith
open_tag-shorter mark (c ∷ cs) n h =
    if-elim (λ (r : Bytes × Bytes). length r.1 ≤ n) (c == quote)
      (λ _. omega (arith, h, close_tag-shorter mark cs (tag_body cs) (tag_body-IsShorter cs)))
      (λ _. omega arith)

cut_entity_tag-shorter : (c : ℕ) (rest : Bytes) → length (cut_entity_tag (c ∷ rest)).1 ≤ length rest
unfolding cut_entity_tag
cut_entity_tag-shorter c rest =
    if-elim (λ (r : Bytes × Bytes). length r.1 ≤ length rest) (has_prefix (c ∷ rest) weak_mark)
      (λ _.
        open_tag-shorter weak_mark (drop 2 (c ∷ rest)) (length rest)
          (omega (arith, length-drop {0} 2 (c ∷ rest))))
      (λ _. open_tag-shorter [] (c ∷ rest) (length rest) (omega arith))

abbrev Again : Type 0
Again = Bytes → IfMatchClass → Option IfMatchClass

abbrev AgreeBelow : ℕ → Again → Again → Type 0
AgreeBelow n f g =
    (rest : Bytes) (class : IfMatchClass) → length rest < n → f rest class ≡ g rest class

resume-agree :
    (f g : Again) (n : ℕ) (rest : Bytes) (o : Option IfMatchClass)
    → AgreeBelow n f g
    → length rest < n
    → resume f rest o ≡ resume g rest o
resume-agree f g n rest none same h = refl
resume-agree f g n rest (some class) same h = same rest class h

if-agree :
    {A : Type 0} (b : Bool) {x y u v : A}
    → x ≡ u
    → y ≡ v
    → (if b then x else y) ≡ (if b then u else v)
if-agree true h k = h
if-agree false h k = k

see_element-agree :
    (f g : Again) (current rest : Bytes) (class : IfMatchClass)
    → AgreeBelow (length rest) f g
    → see_element f current rest class ≡ see_element g current rest class
see_element-agree f g current [] class same = refl
see_element-agree f g current (c ∷ rest) class same =
    if-agree (c == b',') (same rest class (omega arith)) (
      if-agree (c == b'*')
        (resume-agree f g (suc (length rest)) rest (see_star class) same (omega arith))
        (resume-agree f g (suc (length rest)) (cut_entity_tag (c ∷ rest)).1
          (see_tag current (cut_entity_tag (c ∷ rest)).0 class) same
          (omega (arith, cut_entity_tag-shorter c rest))))

-- Any two numbers of rounds above the length of a value classify it alike.
classify_value-agree :
    (n m : ℕ) (current rest : Bytes) (class : IfMatchClass)
    → length rest < n
    → length rest < m
    → classify_value n current rest class ≡ classify_value m current rest class
unfolding classify_value
classify_value-agree zero m current rest class h g = absurd (omega (arith, h))
classify_value-agree (suc n) zero current rest class h g = absurd (omega (arith, g))
classify_value-agree (suc n) (suc m) current rest class h g =
    see_element-agree (classify_value n current) (classify_value m current) current
      (trim_blanks rest) class
      (λ r next shorter.
        classify_value-agree n m current r next
          (omega (arith, h, shorter, trim_blanks-shorter rest))
          (omega (arith, g, shorter, trim_blanks-shorter rest)))
