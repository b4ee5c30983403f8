-- ===== src/Accelerator/Cache/Stored.antt =====
-- What `setLocked` leaves in the cache, and that a later `Get` finds the new entry.
use sakullla_plugins.Base.{
  ℕ, zero, suc, ◌+◌, ◌≤◌, ◌<◌, false, Option, none, some, ◌∷◌, ◌≡◌, refl, sym, ap, subst, ◌∙◌, ◌⊎◌,
  inl, inr, arith, if-elim, Option-cases, ltb, if◌then◌else◌, length, take, Bytes, bytes_eq_iff,
}
use sakullla_plugins.Base.Table.{Table, find, remove, remove_missing}
use sakullla_plugins.Accelerator.Cache.{
  Loaded, CacheEntry, Cache, remove_locked, get, get_entry, delete, back, over, remove_back, trim,
  entry_of, push_front, set_locked,
}
use sakullla_plugins.Accelerator.Cache.Valid.{
  total, IsCounted, IsValid, delete-IsCounted, find-delete,
}
use sakullla_plugins.Accelerator.Cache.Trimmed.{push_front-IsCounted, delete-closed}
use sakullla_plugins.Accelerator.Cache.Order.{Keeps, trim-Keeps}

module _ {V : Type 0} where
  -- Removing a key does not change the limits, nor whether the cache is closed.
  pub record SameLimits (c d : Cache V) : Type 0 where
    pub max_entries : d.max_entries ≡ c.max_entries
    pub max_bytes : d.max_bytes ≡ c.max_bytes
    pub closed : d.closed ≡ c.closed

  remove_back-SameLimits :
      (c : Cache V) (last : Option (Bytes × CacheEntry V)) → SameLimits c (remove_back c last)
  unfolding remove_locked
  remove_back-SameLimits c none = record { max_entries = refl; max_bytes = refl; closed = refl }
  remove_back-SameLimits c (some (k, e)) = record {
    max_entries = refl;
    max_bytes = refl;
    closed = refl;
  }

  delete-SameLimits : (key : Bytes) (c : Cache V) → SameLimits c (delete key c)
  unfolding delete remove_locked
  delete-SameLimits key c = elim (Option-cases (find key c.entries)) [
    | inl gone ↦ rw gone (record { max_entries = refl; max_bytes = refl; closed = refl })
    | inr (e, found) ↦ rw found (record { max_entries = refl; max_bytes = refl; closed = refl })
  ]

  delete-entries : (key : Bytes) (c : Cache V) → (delete key c).entries ≡ remove key c.entries
  unfolding delete remove_locked
  delete-entries key c = elim (Option-cases (find key c.entries)) [
    | inl gone ↦ rw gone (sym (remove_missing key c.entries gone))
    | inr (e, found) ↦ rw found refl
  ]

  trim-closed : (rounds : ℕ) (c : Cache V) → (trim rounds c).closed ≡ c.closed
  unfolding trim
  trim-closed zero c = refl
  trim-closed (suc rounds) c =
      if-elim (λ (d : Cache V). d.closed ≡ c.closed) (over c)
        (λ _.
          trim-closed rounds (remove_back c (back c.entries))
          ∙ (remove_back-SameLimits c (back c.entries)).closed)
        (λ _. refl)

  set_locked-closed :
      (key : Bytes) (l : Loaded V) (now : ℕ) (c : Cache V)
      → (set_locked key l now c).closed ≡ c.closed
  unfolding set_locked push_front
  set_locked-closed key l now c = trim-closed _ _ ∙ delete-closed key c

  Keeps-same :
      {n n' m m' : ℕ} {es es' kept : Table (CacheEntry V)}
      → n ≡ n'
      → m ≡ m'
      → es ≡ es'
      → Keeps n m es kept
      → Keeps n' m' es' kept
  Keeps-same {n' = n'} {m = m} {m' = m'} {es = es} {kept = kept} e f g k =
      subst (λ x. Keeps n' m' x kept) g
        (subst (λ x. Keeps n' x es kept) f (subst (λ x. Keeps x m es kept) e k))

  pub set_locked-Keeps :
      (key : Bytes) (l : Loaded V) (now : ℕ) (c : Cache V)
      → IsValid c
      → c.closed ≡ false
      → Keeps c.max_entries c.max_bytes
          ((key, entry_of l now) ∷ remove key c.entries)
          (set_locked key l now c).entries
  set_locked-Keeps key l now c v live =
      let s = delete-SameLimits key c in
      let pushed = push_front key l now (delete key c) in
      let counted : IsCounted pushed =
        push_front-IsCounted key l now (delete key c) (delete-IsCounted key c v.is_counted)
          (delete-closed key c ∙ live) (find-delete key c) in
      let kept : Keeps (delete key c).max_entries (delete key c).max_bytes
          ((key, entry_of l now) ∷ (delete key c).entries) (set_locked key l now c).entries =
        unfold set_locked push_front in
        trim-Keeps (length pushed.entries) pushed counted (omega arith) in
      Keeps-same s.max_entries s.max_bytes
        (ap (λ es. (key, entry_of l now) ∷ es) (delete-entries key c)) kept

  -- A loaded value that fits is stored.
  find-set_locked :
      (key : Bytes) (l : Loaded V) (now : ℕ) (c : Cache V)
      → IsValid c
      → c.closed ≡ false
      → 1 ≤ c.max_entries
      → l.size ≤ c.max_bytes
      → find key (set_locked key l now c).entries ≡ some (entry_of l now)
  find-set_locked key l now c v live room fits =
      let k : Keeps c.max_entries c.max_bytes ((key, entry_of l now) ∷ remove key c.entries)
          (set_locked key l now c).entries =
        set_locked-Keeps key l now c v live in
      rw k.prefix (first k.count k.most)
    where
      first :
          (n : ℕ)
          → (length ((key, entry_of l now) ∷ remove key c.entries) ≤ n)
            ⊎ ((c.max_entries < n + 1)
                ⊎ (c.max_bytes
                    < total (take (n + 1) ((key, entry_of l now) ∷ remove key c.entries))))
          → find key (take n ((key, entry_of l now) ∷ remove key c.entries)) ≡ some (entry_of l now)
      first zero (inl h) = absurd (omega (arith, h))
      first zero (inr (inl h)) = absurd (omega (arith, h, room))
      first zero (inr (inr h)) = absurd (omega (arith, h, fits))
      first (suc n) h = unfold find in ground (arith, bytes_eq_iff key key)

  -- What was stored is what a later read finds, until it expires.
  pub get-set_locked :
      (key : Bytes) (l : Loaded V) (now then_now later : ℕ) (c : Cache V)
      → IsValid c
      → c.closed ≡ false
      → 1 ≤ c.max_entries
      → l.size ≤ c.max_bytes
      → (get key then_now later (set_locked key l now c)).1
        ≡ (if ltb then_now (now + l.ttl) then some l.value else none)
  get-set_locked key l now then_now later c v live room fits =
      let found = find-set_locked key l now c v live room fits in
      let open_still = set_locked-closed key l now c ∙ live in
      unfold get get_entry in ground (arith, found, open_still)
