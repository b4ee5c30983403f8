-- ===== src/Base/Table.antt =====
-- Maps with byte keys as association lists, shared by the models that have no table of their own.
use Prim.Native.Nat.{ℕ, ◌+◌, ◌≤◌, ◌<◌}
use mathlib.Core.Path.{◌≡◌, refl}
use mathlib.Core.Logic.{inl, inr}
use mathlib.Core.Option.{Option, none, some}
use mathlib.Core.List.{List, [], ◌∷◌}
use native.Mathlib.Omega.{arith}
use sakullla_plugins.Base.Tests.{if◌then◌else◌, Bool-cases}
use sakullla_plugins.Base.Lists.{length}
use sakullla_plugins.Base.Text.{Bytes, bytes_eq, bytes_eq_iff}

abbrev pub Table : Type 0 → Type 0
Table A = List (Bytes × A)

unfoldable pub find : {A : Type 0} → Bytes → Table A → Option A
find k [] = none
find k ((j, a) ∷ t) = if bytes_eq j k then some a else find k t

unfoldable pub remove : {A : Type 0} → Bytes → Table A → Table A
remove k [] = []
remove k ((j, a) ∷ t) = let rest = remove k t in if bytes_eq j k then rest else (j, a) ∷ rest

-- Every key occurs once.
abbrev pub AreDistinct : {A : Type 0} → Table A → Type 0
AreDistinct [] = Unit
AreDistinct ((k, a) ∷ t) = (find k t ≡ none) × AreDistinct t

-- The sum of a measure of the values.
abbrev pub sum_of : {A : Type 0} → (A → ℕ) → Table A → ℕ
sum_of size [] = 0
sum_of size ((k, a) ∷ t) = size a + sum_of size t

pub find-remove :
    {A : Type 0} (j k : Bytes) (t : Table A)
    → find j (remove k t) ≡ (if bytes_eq k j then none else find j t)
unfolding find remove
find-remove j k [] = ground arith
find-remove j k ((i, a) ∷ t) =
    ground (arith, find-remove j k t, bytes_eq_iff i k, bytes_eq_iff i j, bytes_eq_iff k j)

pub remove_missing : {A : Type 0} (k : Bytes) (t : Table A) → find k t ≡ none → remove k t ≡ t
unfolding find remove
remove_missing k [] h = refl
remove_missing k ((i, a) ∷ t) h = ground (arith, remove_missing k t)

pub sum_of-remove :
    {A : Type 0} (size : A → ℕ) (k : Bytes) (a : A) (t : Table A)
    → AreDistinct t
    → find k t ≡ some a
    → sum_of size (remove k t) + size a ≡ sum_of size t
unfolding find remove
sum_of-remove size k a [] d h = cc
sum_of-remove size k a ((i, b) ∷ t) (fresh, d) h = elim (Bool-cases (bytes_eq i k)) [
  | inl e ↦ ground (arith, bytes_eq_iff i k, remove_missing k t)
  | inr e ↦ ground (arith, sum_of-remove size k a t d)
]

pub AreDistinct-remove :
    {A : Type 0} (k : Bytes) (t : Table A) → AreDistinct t → AreDistinct (remove k t)
unfolding remove
AreDistinct-remove k [] d = tt
AreDistinct-remove k ((i, a) ∷ t) (fresh, d) =
    ground (arith, AreDistinct-remove k t d, find-remove i k t)

pub length-remove : {A : Type 0} (k : Bytes) (t : Table A) → length (remove k t) ≤ length t
unfolding remove
length-remove k [] = ground arith
length-remove k ((i, a) ∷ t) = ground (arith, length-remove k t)

pub length-remove_found :
    {A : Type 0} (k : Bytes) (a : A) (t : Table A)
    → find k t ≡ some a
    → length (remove k t) < length t
unfolding find remove
length-remove_found k a [] h = cc
length-remove_found k a ((i, b) ∷ t) h =
    ground (arith, length-remove k t, length-remove_found k a t)
