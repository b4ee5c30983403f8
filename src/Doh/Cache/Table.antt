-- ===== src/Doh/Cache/Table.antt =====
-- Laws of the association list that stands for the map of cache.go.
use sakullla_plugins.Base.{
  ℕ, ◌+◌, ◌≤◌, ◌<◌, none, some, [], ◌∷◌, if◌then◌else◌, ◌≡◌, ◌≢◌, refl, subst, arith, Bool-cases,
  inl, inr, length, All, Bytes, bytes_eq, bytes_eq_iff,
}
use sakullla_plugins.Doh.Cache.{MemoryCacheRecord, Entries, lookup, delete, size_or_zero}

-- Every key occurs once.
abbrev pub Distinct : Entries → Type 0
Distinct [] = Unit
Distinct ((k, r) ∷ es) = (lookup k es ≡ none) × Distinct es

-- The sum of the sizes.
abbrev pub total : Entries → ℕ
total [] = 0
total ((k, r) ∷ es) = r.size + total es

pub lookup-delete :
    (j k : Bytes) (es : Entries)
    → lookup j (delete k es) ≡ (if bytes_eq k j then none else lookup j es)
unfolding lookup delete
lookup-delete j k [] = ground arith
lookup-delete j k ((i, r) ∷ es) =
    ground (arith, lookup-delete j k es, bytes_eq_iff i k, bytes_eq_iff i j, bytes_eq_iff k j)

pub delete_missing : (k : Bytes) (es : Entries) → lookup k es ≡ none → delete k es ≡ es
unfolding lookup delete
delete_missing k [] h = refl
delete_missing k ((i, r) ∷ es) h = ground (arith, delete_missing k es)

pub total-delete :
    (k : Bytes) (es : Entries)
    → Distinct es
    → total (delete k es) + size_or_zero (lookup k es) ≡ total es
unfolding lookup delete
total-delete k [] d = refl
total-delete k ((i, r) ∷ es) (fresh, d) = elim (Bool-cases (bytes_eq i k)) [
  | inl e ↦ ground (arith, bytes_eq_iff i k, delete_missing k es)
  | inr e ↦ ground (arith, total-delete k es d)
]

pub Distinct-delete : (k : Bytes) (es : Entries) → Distinct es → Distinct (delete k es)
unfolding delete
Distinct-delete k [] d = tt
Distinct-delete k ((i, r) ∷ es) (fresh, d) =
    ground (arith, Distinct-delete k es d, lookup-delete i k es)

pub length-delete : (k : Bytes) (es : Entries) → length (delete k es) ≤ length es
unfolding delete
length-delete k [] = ground arith
length-delete k ((i, r) ∷ es) = ground (arith, length-delete k es)

pub length-delete_found :
    (k : Bytes) (es : Entries) → lookup k es ≢ none → length (delete k es) < length es
unfolding lookup delete
length-delete_found k [] h = absurd (h refl)
length-delete_found k ((i, r) ∷ es) h = ground (arith, length-delete k es, length-delete_found k es)

-- A property of all records, read at one key.
pub All-lookup :
    (P : Bytes × MemoryCacheRecord → Type 0) (k : Bytes) (r : MemoryCacheRecord) (es : Entries)
    → All P es
    → lookup k es ≡ some r
    → P (k, r)
unfolding lookup
All-lookup P k r [] a h = cc
All-lookup P k r ((i, s) ∷ es) (p, a) h = elim (Bool-cases (bytes_eq i k)) [
  | inl e ↦
      let same : ◌≡◌ {A = Bytes × MemoryCacheRecord} (i, s) (k, r) =
        ground (arith, bytes_eq_iff i k) in
      subst P same p
  | inr e ↦ All-lookup P k r es a (rw e at h)
]

pub All-delete :
    (P : Bytes × MemoryCacheRecord → Type 0) (k : Bytes) (es : Entries)
    → All P es
    → All P (delete k es)
unfolding delete
All-delete P k [] a = tt
All-delete P k ((i, r) ∷ es) (p, a) = elim (Bool-cases (bytes_eq i k)) [
  | inl e ↦ rw e (All-delete P k es a)
  | inr e ↦ rw e (p, All-delete P k es a)
]
