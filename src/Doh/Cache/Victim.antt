-- ===== src/Doh/Cache/Victim.antt =====
-- The scan for the oldest record in `Put`, which decides what is evicted.
use sakullla_plugins.Base.{
  ℕ, Bool, true, false, ◌&&◌, ◌||◌, some, [], ◌∷◌, ◌≡◌, ◌≢◌, refl, sym, ap, ◌∙◌, ◌⊎◌, inl, inr,
  arith, Bool-cases, ltb, ◌==◌, All, Bytes, bytes_eq, bytes_eq_iff, bytes_eq_refl, bytes_lt,
  bytes_lt_weak, bytes_lt_total, bytes_lt_irrefl, bytes_lt_asymm,
}
use sakullla_plugins.Doh.Cache.{
  MemoryCacheRecord, Entries, lookup, older_of, oldest_from, oldest_of,
}
use sakullla_plugins.Doh.Cache.Table.{Distinct}

-- Age: by order number, and by key where the numbers are equal.
unfoldable pub older : Bytes × ℕ → Bytes × ℕ → Bool
older (k, m) (j, n) = ltb m n || (m == n && bytes_lt k j)

abbrev pub HasKey : Bytes × MemoryCacheRecord → Type 0
HasKey p = p.0 ≢ []

abbrev age : Bytes × MemoryCacheRecord → Bytes × ℕ
age (k, r) = (k, r.order)

older_weak : (p q r : Bytes × ℕ) → older p q ≡ false → older q r ≡ false → older p r ≡ false
unfolding older
older_weak (k, a) (j, b) (i, c) p q = ground (arith, bytes_lt_weak k j i)

older_total : (p q : Bytes × ℕ) → p.0 ≢ q.0 → older q p ≡ false → older p q ≡ true
unfolding older
older_total (k, a) (j, b) ne h = ground (arith, bytes_lt_total k j)

-- One round gives a record's key, and neither the record nor what was held is older.
older_of-least :
    (p : Bytes × MemoryCacheRecord) (acc : Bytes × ℕ)
    → HasKey p
    → ((older_of p acc).0 ≢ [])
      × (older (age p) (older_of p acc) ≡ false)
      × (acc.0 ≢ [] → older acc (older_of p acc) ≡ false)
unfolding older_of older
older_of-least (j, r) (k, o) h =
    ground (arith, bytes_lt_irrefl k, bytes_lt_irrefl j, bytes_eq_iff k [], bytes_lt_asymm j k)

oldest_from-keeps :
    (es : Entries) (acc : Bytes × ℕ)
    → All HasKey es
    → acc.0 ≢ []
    → ((oldest_from es acc).0 ≢ []) × (older acc (oldest_from es acc) ≡ false)
unfolding oldest_from
oldest_from-keeps [] (k, o) a ne = (ne, unfold older in ground (arith, bytes_lt_irrefl k))
oldest_from-keeps (p ∷ es) acc (h, a) ne =
    let (keyed, _, held) = older_of-least p acc h in
    let (later, least) = oldest_from-keeps es (older_of p acc) a keyed in
    (later, older_weak acc (older_of p acc) _ (held ne) least)

-- No record is older than the result of the scan.
oldest_from-least :
    (es : Entries) (acc : Bytes × ℕ) (j : Bytes) (r : MemoryCacheRecord)
    → All HasKey es
    → lookup j es ≡ some r
    → older (j, r.order) (oldest_from es acc) ≡ false
unfolding oldest_from lookup
oldest_from-least [] acc j r a e = cc
oldest_from-least ((i, s) ∷ es) acc j r (h, a) e = elim (Bool-cases (bytes_eq i j)) [
  | inl same ↦
      let (keyed, least, _) = older_of-least (i, s) acc h in
      let at : older (j, r.order) (older_of (i, s) acc) ≡ false =
        ground (arith, bytes_eq_iff i j) in
      older_weak (j, r.order) (older_of (i, s) acc) _ at
        (oldest_from-keeps es (older_of (i, s) acc) a keyed).1
  | inr other ↦ oldest_from-least es (older_of (i, s) acc) j r a (rw other at e)
]

older_of-cases :
    (p : Bytes × MemoryCacheRecord) (acc : Bytes × ℕ)
    → (older_of p acc ≡ acc) ⊎ (older_of p acc ≡ age p)
unfolding older_of
older_of-cases (j, r) (k, o) = ground arith

-- The result of the scan is what it started with, or a record of the map.
oldest_from-found :
    (es : Entries) (acc : Bytes × ℕ)
    → Distinct es
    → (oldest_from es acc ≡ acc)
      ⊎ ((r : MemoryCacheRecord) × (lookup (oldest_from es acc).0 es ≡ some r)
          × ((oldest_from es acc).1 ≡ r.order))
unfolding oldest_from lookup
oldest_from-found [] acc d = inl refl
oldest_from-found ((i, s) ∷ es) acc (fresh, d) =
    elim (oldest_from-found es (older_of (i, s) acc) d) [
      | inl e ↦ elim (older_of-cases (i, s) acc) [
        | inl held ↦ inl (e ∙ held)
        | inr taken ↦ inr (s, rw (e ∙ taken, bytes_eq_refl i), ap (λ p. p.1) (e ∙ taken))
      ]
      | inr (r, f, g) ↦ elim (Bool-cases (bytes_eq i (oldest_from es (older_of (i, s) acc)).0)) [
        | inl same ↦ absurd (cc ((bytes_eq_iff i _).0 same))
        | inr other ↦ inr (r, rw other f, g)
      ]
    ]

-- In a map with records the scan finds one of them, and every other record is younger. So the
-- result does not depend on the order in which the map is walked.
pub oldest_of_lem :
    (es : Entries)
    → Distinct es
    → All HasKey es
    → es ≢ []
    → ((oldest_of es).0 ≢ [])
      × ((r : MemoryCacheRecord) × (lookup (oldest_of es).0 es ≡ some r)
          × ((oldest_of es).1 ≡ r.order))
      × ((j : Bytes) (r : MemoryCacheRecord)
          → lookup j es ≡ some r
          → j ≢ (oldest_of es).0
          → older (oldest_of es) (j, r.order) ≡ true)
oldest_of_lem [] d a ne = absurd (ne refl)
oldest_of_lem (p ∷ es) d (h, a) ne = (
  keyed,
  found,
  λ j r e other.
      older_total _ (j, r.order) (λ x. other (sym x))
        (oldest_from-least (p ∷ es) ([], 0) j r (h, a) e),
)
  where
    keyed : (oldest_of (p ∷ es)).0 ≢ []
    keyed =
        unfold oldest_from in
        (oldest_from-keeps es (older_of p ([], 0)) a (older_of-least p ([], 0) h).0).0

    found :
        (r : MemoryCacheRecord) × (lookup (oldest_of (p ∷ es)).0 (p ∷ es) ≡ some r)
        × ((oldest_of (p ∷ es)).1 ≡ r.order)
    found = elim (oldest_from-found (p ∷ es) ([], 0) d) [
      | inl e ↦ absurd (keyed (ap (λ q. q.0) e))
      | inr f ↦ f
    ]
