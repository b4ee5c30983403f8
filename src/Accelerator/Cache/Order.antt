-- ===== src/Accelerator/Cache/Order.antt =====
-- What `setLocked` evicts: the least recently used entries, as few as the limits allow.
use sakullla_plugins.Base.{
  ℕ, zero, suc, ◌+◌, ◌-◌, ◌≤◌, ◌<◌, true, false, none, some, [], ◌∷◌, ◌≡◌, refl, sym, ap, subst,
  ◌∙◌, ◌⊎◌, inl, inr, arith, Bool-cases, Option-cases, ltb, length, take, take_all, length-take,
  Bytes, bytes_eq, bytes_eq_iff,
}
use sakullla_plugins.Base.Table.{Table, remove, AreDistinct}
use sakullla_plugins.Accelerator.Cache.{
  CacheEntry, Cache, remove_locked, back, over, remove_back, trim,
}
use sakullla_plugins.Accelerator.Cache.Valid.{total, IsCounted, remove_locked-IsCounted}
use sakullla_plugins.Accelerator.Cache.Trimmed.{back-find, back_nil}

module _ {V : Type 0} where
  -- The last key's removal cuts the list by one.
  remove-back :
      (k : Bytes) (e : CacheEntry V) (m : ℕ) (es : Table (CacheEntry V))
      → AreDistinct es
      → back es ≡ some (k, e)
      → length es ≡ suc m
      → remove k es ≡ take m es
  unfolding remove back
  remove-back k e m [] d h n = cc
  remove-back k e zero ((i, a) ∷ []) d h n = ground (arith, bytes_eq_iff i k)
  remove-back k e (suc m) ((i, a) ∷ []) d h n = absurd (omega (arith, n))
  remove-back k e zero ((i, a) ∷ q ∷ es) d h n = absurd (omega (arith, n))
  remove-back k e (suc m) ((i, a) ∷ q ∷ es) (fresh, d) h n =
      let later = back-find k e (q ∷ es) d h in
      let other : bytes_eq i k ≡ false = ground (arith, bytes_eq_iff i k, later, fresh) in
      rw other (ap (λ t. (i, a) ∷ t) (remove-back k e m (q ∷ es) d h (omega (arith, n))))

  take-take : (n m : ℕ) (es : Table (CacheEntry V)) → n ≤ m → take n (take m es) ≡ take n es
  take-take zero m es h = refl
  take-take (suc n) zero es h = absurd (omega (arith, h))
  take-take (suc n) (suc m) [] h = refl
  take-take (suc n) (suc m) (p ∷ es) h = ap (λ t. p ∷ t) (take-take n m es (omega (arith, h)))

  -- The first entries of a list, as many as the limits allow.
  pub record Keeps (max_entries max_bytes : ℕ) (es kept : Table (CacheEntry V)) : Type 0 where
    pub count : ℕ
    pub count_in : count ≤ length es
    pub prefix : kept ≡ take count es
    pub most :
        (length es ≤ count)
        ⊎ ((max_entries < count + 1) ⊎ (max_bytes < total (take (count + 1) es)))

  back-length :
      (k : Bytes) (e : CacheEntry V) (es : Table (CacheEntry V))
      → back es ≡ some (k, e)
      → length es ≡ suc (length es - 1)
  unfolding back
  back-length k e [] h = cc
  back-length k e (p ∷ es) h = omega arith

  -- One entry less, in a cache that holds too much.
  Keeps-shorter :
      (c : Cache V)
      → IsCounted c
      → over c ≡ true
      → (n : ℕ) → length c.entries ≡ suc n
      → (kept : Table (CacheEntry V)) → Keeps c.max_entries c.max_bytes (take n c.entries) kept
      → Keeps c.max_entries c.max_bytes c.entries kept
  Keeps-shorter c v too_much n size kept k =
      let shorter : length (take n c.entries) ≡ n = omega (arith, length-take n c.entries, size) in
      let inside : k.count ≤ n = omega (arith, k.count_in, shorter) in
      record {
        count = k.count;
        count_in = omega (arith, inside, size);
        prefix = k.prefix ∙ take-take k.count n c.entries inside;
        most = elim k.most [
          | inl whole ↦ at_end (omega (arith, whole, shorter))
          | inr (inl many) ↦ inr (inl many)
          | inr (inr large) ↦ elim (Bool-cases (ltb k.count n)) [
            | inl less ↦
                let same : take (k.count + 1) (take n c.entries) ≡ take (k.count + 1) c.entries =
                  take-take (k.count + 1) n c.entries (ground arith) in
                inr (inr (subst (λ es. c.max_bytes < total es) same large))
            | inr no_less ↦ at_end (ground arith)
          ]
        ];
      }
    where
      at_end :
          n ≤ k.count
          → (length c.entries ≤ k.count)
            ⊎ ((c.max_entries < k.count + 1) ⊎ (c.max_bytes < total (take (k.count + 1) c.entries)))
      at_end h =
          let all : total (take (k.count + 1) c.entries) ≡ c.bytes =
            ap total (take_all c.entries (k.count + 1) (omega (arith, size, h))) ∙ sym v.counted in
          elim (Bool-cases (ltb c.max_entries (length c.entries))) [
            | inl many ↦ inr (inl (ground (arith, size, h)))
            | inr few ↦ inr (inr (ground (arith, all, too_much, few)))
          ]

  pub trim-Keeps :
      (rounds : ℕ) (c : Cache V)
      → IsCounted c
      → length c.entries ≤ rounds
      → Keeps c.max_entries c.max_bytes c.entries (trim rounds c).entries
  unfolding trim
  trim-Keeps zero c v h = record {
    count = length c.entries;
    count_in = omega arith;
    prefix = sym (take_all c.entries (length c.entries) (omega arith));
    most = inl (omega arith);
  }
  trim-Keeps (suc rounds) c v h = elim (Bool-cases (over c)) [
    | inr room ↦ rw room (record {
      count = length c.entries;
      count_in = omega arith;
      prefix = sym (take_all c.entries (length c.entries) (omega arith));
      most = inl (omega arith);
    })
    | inl too_much ↦
        rw too_much (shorter (trim-Keeps rounds) too_much (Option-cases (back c.entries)))
  ]
    where
      shorter :
          ((d : Cache V)
            → IsCounted d
            → length d.entries ≤ rounds
            → Keeps d.max_entries d.max_bytes d.entries (trim rounds d).entries)
          → over c ≡ true
          → (back c.entries ≡ none) ⊎ ((p : Bytes × CacheEntry V) × (back c.entries ≡ some p))
          → Keeps c.max_entries c.max_bytes c.entries
              (trim rounds (remove_back c (back c.entries))).entries
      shorter again too_much (inl none_left) =
          let empty : length c.entries ≡ 0 = ap length (back_nil c.entries none_left) in
          rw none_left (again c v (omega arith))
      shorter again too_much (inr ((k, e), last)) =
          let found = back-find k e c.entries v.distinct last in
          let n = length c.entries - 1 in
          let cut = remove-back k e n c.entries v.distinct last (back-length k e c.entries last) in
          let rest : Keeps c.max_entries c.max_bytes (take n c.entries)
              (trim rounds (remove_locked k e c)).entries =
            subst
              (λ es. Keeps c.max_entries c.max_bytes es (trim rounds (remove_locked k e c)).entries)
              cut
              (unfold remove_locked in
                again (remove_locked k e c) (remove_locked-IsCounted k e c v found)
                  (omega (arith, ap length cut, length-take n c.entries, h))) in
          rw last (Keeps-shorter c v too_much n (back-length k e c.entries last) _ rest)
