-- ===== src/Accelerator/Cache/Valid.antt =====
-- The invariant of the entries, and that each operation on them keeps it.
use sakullla_plugins.Base.{
  ℕ, ◌≤◌, true, none, some, [], ◌∷◌, ◌≡◌, refl, sym, subst, ◌∙◌, inl, inr, arith, Bool-cases,
  Option-cases, ltb, length, Bytes, bytes_eq_iff,
}
use sakullla_plugins.Base.Table.{
  Table, find, remove, AreDistinct, sum_of, find-remove, sum_of-remove, AreDistinct-remove,
  length-remove, length-remove_found,
}
use sakullla_plugins.Accelerator.Cache.{
  CacheEntry, Cache, remove_locked, move_to_front, inspect_entry, inspect_locked, delete,
}

module _ {V : Type 0} where
  abbrev pub total : Table (CacheEntry V) → ℕ
  total es = sum_of (λ e. e.size) es

  -- Keys occur once, the byte count is the sum of the sizes, and a closed cache is empty.
  pub record IsCounted (c : Cache V) : Type 0 where
    pub distinct : AreDistinct c.entries
    pub counted : c.bytes ≡ total c.entries
    pub closed_empty : c.closed ≡ true → c.entries ≡ []

  -- And the limits hold.
  pub record IsValid (c : Cache V) : Type 0 where
    pub is_counted : IsCounted c
    pub in_entries : length c.entries ≤ c.max_entries
    pub in_bytes : c.bytes ≤ c.max_bytes

  remove_nil : (k : Bytes) (es : Table (CacheEntry V)) → es ≡ [] → remove k es ≡ []
  unfolding remove
  remove_nil k [] h = refl
  remove_nil k (p ∷ es) h = cc

  find_nil :
      (k : Bytes) (e : CacheEntry V) (es : Table (CacheEntry V)) {P : Type 0}
      → find k es ≡ some e
      → es ≡ []
      → P
  unfolding find
  find_nil k e [] h empty = cc
  find_nil k e (p ∷ es) h empty = cc

  pub remove_locked-IsCounted :
      (key : Bytes) (e : CacheEntry V) (c : Cache V)
      → IsCounted c
      → find key c.entries ≡ some e
      → IsCounted (remove_locked key e c)
  unfolding remove_locked
  remove_locked-IsCounted key e c v h = record {
    distinct = AreDistinct-remove key c.entries v.distinct;
    counted = omega (arith, sum_of-remove (λ x. x.size) key e c.entries v.distinct h, v.counted);
    closed_empty = λ shut. remove_nil key c.entries (v.closed_empty shut);
  }

  pub remove_locked-IsValid :
      (key : Bytes) (e : CacheEntry V) (c : Cache V)
      → IsValid c
      → find key c.entries ≡ some e
      → IsValid (remove_locked key e c)
  remove_locked-IsValid key e c v h = record {
    is_counted = remove_locked-IsCounted key e c v.is_counted h;
    in_entries = unfold remove_locked in omega (arith, length-remove key c.entries, v.in_entries);
    in_bytes = unfold remove_locked in omega (arith, v.in_bytes);
  }

  pub move_to_front-IsValid :
      (key : Bytes) (e : CacheEntry V) (c : Cache V)
      → IsValid c
      → find key c.entries ≡ some e
      → IsValid (move_to_front key e c)
  unfolding move_to_front
  move_to_front-IsValid key e c v h = record {
    is_counted = record {
      distinct = (
        ground (arith, find-remove key key c.entries, bytes_eq_iff key key),
        AreDistinct-remove key c.entries v.is_counted.distinct,
      );
      counted = omega (
        arith,
        sum_of-remove (λ x. x.size) key e c.entries v.is_counted.distinct h,
        v.is_counted.counted,
      );
      closed_empty = λ shut. find_nil key e c.entries h (v.is_counted.closed_empty shut);
    };
    in_entries = omega (arith, length-remove_found key e c.entries h, v.in_entries);
    in_bytes = v.in_bytes;
  }

  pub delete-IsCounted : (key : Bytes) (c : Cache V) → IsCounted c → IsCounted (delete key c)
  unfolding delete
  delete-IsCounted key c v = elim (Option-cases (find key c.entries)) [
    | inl gone ↦ rw gone v
    | inr (e, found) ↦ rw found (remove_locked-IsCounted key e c v found)
  ]

  pub delete-IsValid : (key : Bytes) (c : Cache V) → IsValid c → IsValid (delete key c)
  unfolding delete
  delete-IsValid key c v = elim (Option-cases (find key c.entries)) [
    | inl gone ↦ rw gone v
    | inr (e, found) ↦ rw found (remove_locked-IsValid key e c v found)
  ]

  pub find-delete : (key : Bytes) (c : Cache V) → find key (delete key c).entries ≡ none
  unfolding delete remove_locked
  find-delete key c = elim (Option-cases (find key c.entries)) [
    | inl gone ↦ rw gone gone
    | inr (e, found) ↦
        rw found (ground (arith, find-remove key key c.entries, bytes_eq_iff key key))
  ]

  -- The clients' operations.
  pub inspect_locked-IsValid :
      (key : Bytes) (now : ℕ) (c : Cache V) → IsValid c → IsValid (inspect_locked key now c).0
  unfolding inspect_entry
  inspect_locked-IsValid key now c v = elim (Option-cases (find key c.entries)) [
    | inl gone ↦ rw gone v
    | inr (e, found) ↦
        let front = move_to_front-IsValid key e c v found in
        let less = remove_locked-IsValid key e c v found in
        rw found (elim (Bool-cases (ltb now e.expires_at)) [
          | inl fresh ↦ rw fresh front
          | inr late ↦ rw late (elim (Bool-cases (ltb now e.swr_until)) [
            | inl swr ↦ rw swr front
            | inr later ↦ rw later (elim (Bool-cases (ltb now e.sie_until)) [
              | inl sie ↦ rw sie front
              | inr gone ↦ rw gone less
            ])
          ])
        ])
  ]

  -- The invariant reads the entries, their bytes, the limits and whether the cache is closed.
  pub IsValid-same :
      (c d : Cache V)
      → d.entries ≡ c.entries
      → d.bytes ≡ c.bytes
      → d.closed ≡ c.closed
      → d.max_entries ≡ c.max_entries
      → d.max_bytes ≡ c.max_bytes
      → IsValid c
      → IsValid d
  IsValid-same c d es bytes shut n m v = record {
    is_counted = record {
      distinct = subst AreDistinct (sym es) v.is_counted.distinct;
      counted = rw (bytes, es) v.is_counted.counted;
      closed_empty = λ h. es ∙ v.is_counted.closed_empty (sym shut ∙ h);
    };
    in_entries = rw (es, n) v.in_entries;
    in_bytes = rw (bytes, m) v.in_bytes;
  }
