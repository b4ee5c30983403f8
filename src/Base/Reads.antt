-- ===== src/Base/Reads.antt =====
-- Indexing, slicing and big-endian access of byte slices. An index or a slice bound past the length
-- is a panic. (Go lets a slice bound go up to the capacity; the models never count on that.)
use Prim.Native.Nat.{ℕ, ◌+◌, ◌-◌, ◌*◌, ◌/◌, ◌%◌, ◌≤◌, ◌<◌}
use mathlib.Core.Path.{◌≡◌, sym, ap, ◌∙◌}
use mathlib.Core.List.{[], ◌∷◌, ◌++◌}
use native.Mathlib.Nat.{sub_self}
use mathlib.Core.Bool.{◌&&◌}
use native.Mathlib.Omega.{arith}
use sakullla_plugins.Base.Tests.{ltb, leb, if◌then◌else◌}
use sakullla_plugins.Base.Lists.{
  length, get_or, set, take, drop, length-set, length-take, length-drop, take-add, drop-add,
  drop-cons,
}
use sakullla_plugins.Base.Text.{Bytes}
use sakullla_plugins.Base.Outcome.{Result, ok, panic}

abbrev pub byte_at : Bytes → ℕ → ℕ
byte_at w i = get_or w i 0

abbrev pub segment : Bytes → ℕ → ℕ → Bytes
segment w i j = take (j - i) (drop i w)

-- `w[i]`
unfoldable pub read : {E : Type 0} → Bytes → ℕ → Result E ℕ
read w i = if ltb i (length w) then ok (byte_at w i) else panic

-- `w[i:j]`
unfoldable pub slice : {E : Type 0} → Bytes → ℕ → ℕ → Result E Bytes
slice w i j = if leb i j && leb j (length w) then ok (segment w i j) else panic

abbrev pub value16 : Bytes → ℕ → ℕ
value16 w i = byte_at w i * 256 + byte_at w (i + 1)

abbrev pub value32 : Bytes → ℕ → ℕ
value32 w i = value16 w i * 65536 + value16 w (i + 2)

-- `binary.BigEndian.Uint16(w[i:i+2])` and `Uint32(w[i:i+4])`
unfoldable pub uint16 : {E : Type 0} → Bytes → ℕ → Result E ℕ
uint16 w i = if leb (i + 2) (length w) then ok (value16 w i) else panic

unfoldable pub uint32 : {E : Type 0} → Bytes → ℕ → Result E ℕ
uint32 w i = if leb (i + 4) (length w) then ok (value32 w i) else panic

abbrev pub write16 : Bytes → ℕ → ℕ → Bytes
write16 w i v = set (set w i (v / 256 % 256)) (i + 1) (v % 256)

abbrev pub write32 : Bytes → ℕ → ℕ → Bytes
write32 w i v = write16 (write16 w i (v / 65536)) (i + 2) v

-- `binary.BigEndian.PutUint16(w[i:i+2], v)` and `PutUint32(w[i:i+4], v)`
unfoldable pub put_uint16 : {E : Type 0} → Bytes → ℕ → ℕ → Result E Bytes
put_uint16 w i v = if leb (i + 2) (length w) then ok (write16 w i v) else panic

unfoldable pub put_uint32 : {E : Type 0} → Bytes → ℕ → ℕ → Result E Bytes
put_uint32 w i v = if leb (i + 4) (length w) then ok (write32 w i v) else panic

pub length-write16 : (w : Bytes) (i v : ℕ) → length (write16 w i v) ≡ length w
length-write16 w i v = omega (
  arith,
  length-set {0} (set w i (v / 256 % 256)) (i + 1) (v % 256),
  length-set {0} w i (v / 256 % 256),
)

pub length-write32 : (w : Bytes) (i v : ℕ) → length (write32 w i v) ≡ length w
length-write32 w i v =
    omega
      (arith, length-write16 (write16 w i (v / 65536)) (i + 2) v, length-write16 w i (v / 65536))

pub length-segment : (w : Bytes) (i j : ℕ) → j ≤ length w → length (segment w i j) ≡ j - i
length-segment w i j h = omega (arith, length-take {0} (j - i) (drop i w), length-drop {0} i w)

pub segment_none : (w : Bytes) (i : ℕ) → segment w i i ≡ []
segment_none w i = rw sub_self

pub segment-append :
    (w : Bytes) (i j k : ℕ) → i ≤ j → j ≤ k → segment w i k ≡ segment w i j ++ segment w j k
segment-append w i j k h g =
    let whole : k - i ≡ (j - i) + (k - j) = omega arith in
    let far : j ≡ i + (j - i) = omega arith in
    ap (λ n. take n (drop i w)) whole
    ∙ take-add (j - i) (k - j) (drop i w)
    ∙ ap (λ t. segment w i j ++ take (k - j) t)
        (sym (drop-add i (j - i) w) ∙ ap (λ n. drop n w) (sym far))

pub segment_one : (w : Bytes) (i : ℕ) → i < length w → segment w i (i + 1) ≡ byte_at w i ∷ []
segment_one w i h = let one : i + 1 - i ≡ 1 = omega arith in rw (one, drop-cons i w 0 h)

pub slice_in_range :
    {E : Type 0} (w : Bytes) (i j : ℕ)
    → i ≤ j
    → j ≤ length w
    → slice {E = E} w i j ≡ ok (segment w i j)
unfolding slice
slice_in_range w i j h g = ground arith
