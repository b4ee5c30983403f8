-- ===== src/Doh/Cache/Valid.antt =====
-- The invariant of the cache, and that its loop and its helpers keep it.
use sakullla_plugins.Base.{
  ℕ, zero, suc, ◌+◌, ◌≤◌, ◌<◌, true, false, none, [], ◌∷◌, ◌≡◌, ◌≢◌, refl, ap, ◌⊎◌, inl, inr, arith,
  Bool-cases, All, length, Bytes, bytes_eq, bytes_eq_iff,
}
use sakullla_plugins.Doh.Cache.{
  CacheEntry, MemoryCacheRecord, Entries, MemoryCache, lookup, delete, oldest_from, oldest_of,
  evict, full, make_room, forget, entry_size, store,
}
use sakullla_plugins.Doh.Cache.Table.{
  Distinct, total, total-delete, Distinct-delete, length-delete, length-delete_found, All-delete,
  delete_missing,
}
use sakullla_plugins.Doh.Cache.Victim.{HasKey, oldest_of_lem}

abbrev pub HasSize : Bytes × MemoryCacheRecord → Type 0
HasSize p = p.1.size ≡ entry_size p.0 p.1.entry

pub record IsValid (c : MemoryCache) : Type 0 where
  pub distinct : Distinct c.entries
  pub keyed : All HasKey c.entries
  pub sized : All HasSize c.entries
  pub counted : c.bytes ≡ total c.entries
  pub in_entries : length c.entries ≤ c.max_entries
  pub in_bytes : c.bytes ≤ c.max_bytes

pub evict-IsValid : (k : Bytes) (c : MemoryCache) → IsValid c → IsValid (evict k c)
unfolding evict
evict-IsValid k c v = record {
  distinct = Distinct-delete k c.entries v.distinct;
  keyed = All-delete HasKey k c.entries v.keyed;
  sized = All-delete HasSize k c.entries v.sized;
  counted = omega (arith, total-delete k c.entries v.distinct, v.counted);
  in_entries = omega (arith, length-delete k c.entries, v.in_entries);
  in_bytes = omega (arith, v.in_bytes);
}

pub forget-IsValid : (k : Bytes) (c : MemoryCache) → IsValid c → IsValid (forget k c)
unfolding forget
forget-IsValid k c v =
    let w = evict-IsValid k c v in
    record {
      distinct = w.distinct;
      keyed = w.keyed;
      sized = w.sized;
      counted = w.counted;
      in_entries = w.in_entries;
      in_bytes = w.in_bytes;
    }

-- What every eviction of an oldest key keeps, the loop keeps.
pub make_room-keeps :
    (P : MemoryCache → Type 0)
    → ((c : MemoryCache) → P c → (oldest_of c.entries).0 ≢ [] → P (evict (oldest_of c.entries).0 c))
    → (rounds size : ℕ) (c : MemoryCache) → P c
    → P (make_room rounds size c).0
unfolding make_room
make_room-keeps P step zero size c h = h
make_room-keeps P step (suc rounds) size c h = elim (Bool-cases (full size c)) [
  | inl more ↦ elim (Bool-cases (bytes_eq (oldest_of c.entries).0 [])) [
    | inl none_left ↦ rw (more, none_left) h
    | inr found ↦
        rw (more, found)
          (make_room-keeps P step rounds size (evict (oldest_of c.entries).0 c)
            (step c h (λ e. cc ((bytes_eq_iff _ _).1 e))))
  ]
  | inr done ↦ rw done h
]

-- The loop ends by its own test, or with no entry left where no eviction can help.
pub record HasRoom (size : ℕ) (c : MemoryCache) : Type 0 where
  pub entry_left : length c.entries < c.max_entries
  pub bytes_left : c.bytes + size ≤ c.max_bytes

abbrev pub CannotFit : ℕ → MemoryCache → Type 0
CannotFit size c = (c.max_entries ≡ 0) ⊎ (c.max_bytes < size)

oldest_missing : (c : MemoryCache) → IsValid c → (oldest_of c.entries).0 ≡ [] → c.entries ≡ []
oldest_missing c v e = go c.entries refl
  where
    go : (es : Entries) → c.entries ≡ es → c.entries ≡ []
    go [] same = same
    go (p ∷ es) same = absurd ((oldest_of_lem c.entries v.distinct v.keyed (λ x. cc)).0 e)

evict-length :
    (c : MemoryCache)
    → IsValid c
    → (oldest_of c.entries).0 ≢ []
    → length (evict (oldest_of c.entries).0 c).entries < length c.entries
unfolding evict
evict-length c v keyed = go c.entries refl
  where
    go :
        (es : Entries)
        → c.entries ≡ es
        → length (delete (oldest_of c.entries).0 c.entries) < length c.entries
    go [] same = absurd (keyed (rw same (unfold oldest_from in refl)))
    go (p ∷ es) same =
        let (r, found, _) = (oldest_of_lem c.entries v.distinct v.keyed (λ x. cc)).1 in
        length-delete_found (oldest_of c.entries).0 c.entries (λ x. cc)

evict_limits :
    (k : Bytes) (c : MemoryCache)
    → ((evict k c).max_entries ≡ c.max_entries) × ((evict k c).max_bytes ≡ c.max_bytes)
unfolding evict
evict_limits k c = (refl, refl)

-- With a round for each entry and one more, the loop makes room unless the new record can never fit;
-- then it has evicted everything.
pub make_room_outcome :
    (rounds size : ℕ) (c : MemoryCache)
    → IsValid c
    → length c.entries < rounds
    → let (c', fits) = make_room rounds size c in
      ((fits ≡ true) × HasRoom size c') ⊎ ((fits ≡ false) × (c'.entries ≡ []) × CannotFit size c)
unfolding make_room
make_room_outcome zero size c v h = elim h [ ]
make_room_outcome (suc rounds) size c v h = elim (Bool-cases (full size c)) [
  | inl more ↦ elim (Bool-cases (bytes_eq (oldest_of c.entries).0 [])) [
    | inl none_left ↦
        let empty = oldest_missing c v ((bytes_eq_iff _ _).0 none_left) in
        rw (more, none_left)
          (inr (refl, empty, ground (arith, ap length empty, ap total empty, v.counted)))
    | inr found ↦
        let k = (oldest_of c.entries).0 in
        let keyed : k ≢ [] = λ e. cc ((bytes_eq_iff _ _).1 e) in
        rw (more, found)
          (elim (make_room_outcome rounds size (evict k c) (evict-IsValid k c v)
            (omega (arith, evict-length c v keyed))) [
              | inl room ↦ inl room
              | inr (no_fit, empty, cannot) ↦
                  inr (no_fit, empty, ground (arith, evict_limits k c, cannot))
            ])
  ]
  | inr done ↦ rw done (inl (refl, ground arith))
]

pub store-IsValid :
    (key : Bytes) (entry : CacheEntry) (c : MemoryCache)
    → IsValid c
    → key ≢ []
    → lookup key c.entries ≡ none
    → HasRoom (entry_size key entry) c
    → IsValid (store key entry c)
unfolding store
store-IsValid key entry c v keyed fresh room = record {
  distinct = ground (arith, delete_missing key c.entries fresh, v.distinct);
  keyed = rw (delete_missing key c.entries fresh) (keyed, v.keyed);
  sized = rw (delete_missing key c.entries fresh) (refl, v.sized);
  counted = rw (delete_missing key c.entries fresh) (omega (arith, v.counted));
  in_entries = rw (delete_missing key c.entries fresh) (omega (arith, room.entry_left));
  in_bytes = omega (arith, room.bytes_left);
}
