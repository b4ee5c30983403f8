-- ===== src/Base/Text.antt =====
-- Go strings and byte slices as lists of byte values, with Go's `==` and `<` on strings.
use Prim.Native.Nat.{ℕ}
use mathlib.Core.Path.{◌≡◌, refl}
use mathlib.Core.Logic.{◌↔◌}
use mathlib.Core.Bool.{Bool, true, false, ◌&&◌, ◌||◌}
use mathlib.Core.List.{List, [], ◌∷◌}
use native.Mathlib.Omega.{arith}
use Prim.Native.Char.{code}
use Prim.Native.String.{String}
use sakullla_plugins.Base.Tests.{ltb, ◌==◌}

abbrev pub Bytes : Type 0
Bytes = List ℕ

-- The bytes of an ASCII literal.
abbrev pub codes : String → Bytes
codes String.[] = []
codes (String.◌∷◌ c s) = code c ∷ codes s

unfoldable pub bytes_eq : Bytes → Bytes → Bool
bytes_eq [] [] = true
bytes_eq (x ∷ a) (y ∷ b) = x == y && bytes_eq a b
bytes_eq _ _ = false

pub bytes_eq_iff : (a b : Bytes) → (bytes_eq a b ≡ true) ↔ (a ≡ b)
unfolding bytes_eq
bytes_eq_iff (x ∷ a) (y ∷ b) = ground (arith, bytes_eq_iff a b)
bytes_eq_iff _ _ = ground arith

pub bytes_eq_refl : (a : Bytes) → bytes_eq a a ≡ true
bytes_eq_refl a = (bytes_eq_iff a a).1 refl

-- The order of Go strings, byte by byte.
unfoldable pub bytes_lt : Bytes → Bytes → Bool
bytes_lt a [] = false
bytes_lt [] (y ∷ b) = true
bytes_lt (x ∷ a) (y ∷ b) = ltb x y || (x == y && bytes_lt a b)

pub bytes_lt_irrefl : (a : Bytes) → bytes_lt a a ≡ false
unfolding bytes_lt
bytes_lt_irrefl [] = refl
bytes_lt_irrefl (x ∷ a) = ground (arith, bytes_lt_irrefl a)

pub bytes_lt_trans :
    (a b c : Bytes) → bytes_lt a b ≡ true → bytes_lt b c ≡ true → bytes_lt a c ≡ true
unfolding bytes_lt
bytes_lt_trans [] [] c p q = ground arith
bytes_lt_trans [] (y ∷ b) [] p q = ground arith
bytes_lt_trans [] (y ∷ b) (z ∷ c) p q = refl
bytes_lt_trans (x ∷ a) [] c p q = ground arith
bytes_lt_trans (x ∷ a) (y ∷ b) [] p q = ground arith
bytes_lt_trans (x ∷ a) (y ∷ b) (z ∷ c) p q = ground (arith, bytes_lt_trans a b c)

pub bytes_lt_total : (a b : Bytes) → bytes_lt a b ≡ false → bytes_lt b a ≡ false → a ≡ b
unfolding bytes_lt
bytes_lt_total [] [] p q = refl
bytes_lt_total [] (y ∷ b) p q = ground arith
bytes_lt_total (x ∷ a) [] p q = ground arith
bytes_lt_total (x ∷ a) (y ∷ b) p q = ground (arith, bytes_lt_total a b)

-- The order is total, so "not before" composes.
pub bytes_lt_weak :
    (a b c : Bytes) → bytes_lt a b ≡ false → bytes_lt b c ≡ false → bytes_lt a c ≡ false
unfolding bytes_lt
bytes_lt_weak a b [] p q = ground arith
bytes_lt_weak a [] (z ∷ c) p q = ground arith
bytes_lt_weak [] (y ∷ b) (z ∷ c) p q = ground arith
bytes_lt_weak (x ∷ a) (y ∷ b) (z ∷ c) p q = ground (arith, bytes_lt_weak a b c)

pub bytes_lt_asymm : (a b : Bytes) → bytes_lt a b ≡ true → bytes_lt b a ≡ false
unfolding bytes_lt
bytes_lt_asymm a [] p = ground arith
bytes_lt_asymm [] (y ∷ b) p = refl
bytes_lt_asymm (x ∷ a) (y ∷ b) p = ground (arith, bytes_lt_asymm a b)
