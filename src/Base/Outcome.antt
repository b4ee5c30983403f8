-- ===== src/Base/Outcome.antt =====
-- The result of a Go call: a value, an error value, or a run-time panic.
use mathlib.Core.Path.{◌≡◌, refl}
use mathlib.Core.Logic.{◌≢◌}
use mathlib.Core.Bool.{Bool, true, false}

pub data Result (E : Type 0) (A : Type 0) : Type 0 where
  panic : Result E A
  err : E → Result E A
  ok : A → Result E A

infixl 5 ◌>>=◌ ◌>>◌
abbrev pub ◌>>=◌ : {E A B : Type 0} → Result E A → (A → Result E B) → Result E B
panic >>= next = panic
err failure >>= next = err failure
ok value >>= next = next value

abbrev pub ◌>>◌ : {E B : Type 0} → Result E (Unit {0}) → Result E B → Result E B
first >> then_this = first >>= λ _. then_this

-- `if test { return error }`
abbrev pub reject_if : {E : Type 0} → Bool → E → Result E (Unit {0})
reject_if false failure = ok tt
reject_if true failure = err failure

-- Any error of the call becomes `e`, as `if err != nil { return e }` does.
abbrev pub with_error : {E A : Type 0} → E → Result E A → Result E A
with_error e (ok a) = ok a
with_error e (err _) = err e
with_error e panic = panic

-- A chain panics only where a part of it does.
pub >>=-safe :
    {E A B : Type 0} (m : Result E A) (f : A → Result E B)
    → m ≢ panic
    → ((a : A) → m ≡ ok a → f a ≢ panic)
    → (m >>= f) ≢ panic
>>=-safe (ok a) f h k = k a refl
>>=-safe (err e) f h k = λ p. cc
>>=-safe panic f h k = λ p. h refl

-- The parts of a chain that succeeds.
pub >>=-eq-ok :
    {E A B : Type 0} (first : Result E A) (next : A → Result E B) {result : B}
    → (first >>= next) ≡ ok result
    → (value : A) × (first ≡ ok value) × (next value ≡ ok result)
>>=-eq-ok panic next succeeds = cc
>>=-eq-ok (err failure) next succeeds = cc
>>=-eq-ok (ok value) next succeeds = (value, refl, succeeds)

pub >>=-cong :
    {E A B : Type 0} (m : Result E A) (f g : A → Result E B)
    → ((a : A) → m ≡ ok a → f a ≡ g a)
    → (m >>= f) ≡ (m >>= g)
>>=-cong (ok a) f g h = h a refl
>>=-cong (err e) f g h = refl
>>=-cong panic f g h = refl
