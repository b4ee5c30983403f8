-- ===== src/Doh/Cache/Put.antt =====
-- What `Put`, `Get` and `Reset` do on every branch.
use sakullla_plugins.Base.{
  ℕ, suc, ◌≤◌, ◌<◌, Bool, true, false, ◌||◌, Option, none, some, [], ◌≡◌, ◌≢◌, refl, ◌⊎◌, inl, inr,
  arith, Bool-cases, ltb, length, Bytes, bytes_eq, bytes_eq_iff, bytes_eq_refl, Result, ok, err,
}
use sakullla_plugins.Doh.Cache.{
  CacheError, cache_unavailable, CacheEntry, MemoryCacheRecord, MemoryCache, lookup, oldest_of,
  evict, make_room, forget, entry_size, store, put, room_for, put_in_room,
}
use sakullla_plugins.Doh.Cache.Table.{lookup-delete}
use sakullla_plugins.Doh.Cache.Valid.{
  IsValid, evict-IsValid, forget-IsValid, make_room-keeps, HasRoom, CannotFit, make_room_outcome,
  store-IsValid,
}

forget_lem :
    (k : Bytes) (c : MemoryCache)
    → (lookup k (forget k c).entries ≡ none)
      × (((forget k c).max_entries ≡ c.max_entries) × ((forget k c).max_bytes ≡ c.max_bytes))
unfolding forget
forget_lem k c = (rw (lookup-delete k k c.entries, bytes_eq_refl k), (refl, refl))

make_room-missing :
    (k : Bytes) (rounds size : ℕ) (c : MemoryCache)
    → lookup k c.entries ≡ none
    → lookup k (make_room rounds size c).0.entries ≡ none
make_room-missing k rounds size c h =
    make_room-keeps (λ d. lookup k d.entries ≡ none)
      (λ d e _.
        unfold evict in ground (arith, lookup-delete k (oldest_of d.entries).0 d.entries, e))
      rounds size c h

-- When an entry fits a cache at all.
abbrev pub Fits : Bytes → CacheEntry → MemoryCache → Type 0
Fits key entry c = (key ≢ []) × (1 ≤ c.max_entries) × (entry_size key entry ≤ c.max_bytes)

-- What happens to the cache behind the guards of `put`, in terms of the state in which the loop ends.
module _ (key : Bytes) (entry : CacheEntry) (c : MemoryCache) (v : IsValid c)
    (keyed : key ≢ []) where
  put_outcome :
      let (c', fits) = room_for key entry (forget key c) in
      ((fits ≡ true) × HasRoom (entry_size key entry) c')
      ⊎ ((fits ≡ false) × (c'.entries ≡ []) × CannotFit (entry_size key entry) c)
  put_outcome =
      elim (make_room_outcome (suc (length (forget key c).entries)) (entry_size key entry)
        (forget key c) (forget-IsValid key c v) (omega arith)) [
          | inl room ↦ inl room
          | inr (f, e, cannot) ↦ inr (f, e, ground (arith, forget_lem key c, cannot))
        ]

  room-IsValid : IsValid (room_for key entry (forget key c)).0
  room-IsValid =
      make_room-keeps IsValid (λ d w _. evict-IsValid _ d w) _ _ _ (forget-IsValid key c v)

  room_missing : lookup key (room_for key entry (forget key c)).0.entries ≡ none
  room_missing =
      make_room-missing key (suc (length (forget key c).entries)) (entry_size key entry)
        (forget key c) (forget_lem key c).0

  room_limits :
      ((room_for key entry (forget key c)).0.max_entries ≡ c.max_entries)
      × ((room_for key entry (forget key c)).0.max_bytes ≡ c.max_bytes)
  room_limits =
      make_room-keeps (λ d. (d.max_entries ≡ c.max_entries) × (d.max_bytes ≡ c.max_bytes))
        (λ d h _. unfold evict in h) (suc (length (forget key c).entries)) (entry_size key entry)
        (forget key c) (forget_lem key c).1

  put_in_room-IsValid : IsValid (put_in_room key entry (room_for key entry (forget key c))).0
  put_in_room-IsValid = go (room_for key entry (forget key c)) refl
    where
      go :
          (r : MemoryCache × Bool)
          → room_for key entry (forget key c) ≡ r
          → IsValid (put_in_room key entry r).0
      go (d, true) e = elim put_outcome [
        | inl room ↦
            store-IsValid key entry d (rw e at room-IsValid) keyed (rw e at room_missing)
              (rw e at (room.1))
        | inr no_room ↦ absurd (cc)
      ]
      go (d, false) e = rw e at room-IsValid

  -- The two ways in which `put_in_room` ends.
  PutOutcome : MemoryCache × Result CacheError (Unit {0}) → Type 0
  PutOutcome (d, r) =
      (Fits key entry c
        × (r ≡ ok tt)
        × ((s : MemoryCacheRecord) × (lookup key d.entries ≡ some s) × (s.entry ≡ entry)))
      ⊎ ((¬ Fits key entry c) × (r ≡ err cache_unavailable) × (d.entries ≡ []))

  put_in_room-PutOutcome : PutOutcome (put_in_room key entry (room_for key entry (forget key c)))
  unfolding PutOutcome
  put_in_room-PutOutcome = go (room_for key entry (forget key c)) refl
    where
      go :
          (r : MemoryCache × Bool)
          → room_for key entry (forget key c) ≡ r
          → PutOutcome (put_in_room key entry r)
      go (d, true) e = elim put_outcome [
        | inl room ↦
            let h = rw e at (room.1) in
            let l = rw e at room_limits in
            inl (
              (keyed, ground (arith, h, l), ground (arith, h, l)),
              refl,
              (
                record { entry = entry; size = entry_size key entry; order = d.order },
                unfold store lookup in rw (bytes_eq_refl key),
                refl,
              ),
            )
        | inr no_room ↦ absurd (cc)
      ]
      go (d, false) e = elim put_outcome [
        | inl room ↦ absurd (cc)
        | inr (_, empty, cannot) ↦ inr (λ f. ground (arith, f.1, f.2, cannot), refl, rw e at empty)
      ]

guard-keyed : (key : Bytes) (b : Bool) → (bytes_eq key [] || b) ≡ false → key ≢ []
guard-keyed key b h e = ground (arith, bytes_eq_iff key [])

pub put-IsValid :
    (ctx : Option CacheError) (key : Bytes) (entry : CacheEntry) (c : MemoryCache)
    → IsValid c
    → IsValid (put ctx key entry c).0
unfolding put
put-IsValid (some e) key entry c v = v
put-IsValid none key entry c v =
    elim (Bool-cases (bytes_eq key [] || ltb c.max_bytes (length entry.response))) [
      | inl refused ↦ rw refused v
      | inr passed ↦ rw passed (put_in_room-IsValid key entry c v (guard-keyed key _ passed))
    ]

-- On a valid cache, and with a live context, `Put` succeeds exactly when the key is not empty, the
-- cache may hold an entry, and key and response together are within the byte limit. After a success
-- the key's record holds the entry; otherwise the error is ErrCacheUnavailable.
pub put_iff_Fits :
    (key : Bytes) (entry : CacheEntry) (c : MemoryCache)
    → IsValid c
    → (Fits key entry c
        × ((put none key entry c).1 ≡ ok tt)
        × ((r : MemoryCacheRecord) × (lookup key (put none key entry c).0.entries ≡ some r)
            × (r.entry ≡ entry)))
      ⊎ ((¬ Fits key entry c) × ((put none key entry c).1 ≡ err cache_unavailable))
unfolding put PutOutcome
put_iff_Fits key entry c v =
    elim (Bool-cases (bytes_eq key [] || ltb c.max_bytes (length entry.response))) [
      | inl refused ↦ rw refused (inr (λ f. ground (arith, f, bytes_eq_iff key []), refl))
      | inr passed ↦
          rw passed (elim (put_in_room-PutOutcome key entry c v (guard-keyed key _ passed)) [
            | inl fits ↦ inl fits
            | inr (no_fit, e, _) ↦ inr (no_fit, e)
          ])
    ]

-- A key and response that together exceed the byte limit, while the response alone does not, pass
-- the guard of `Put`: it fails, and every entry of the cache is gone.
pub put_oversized_flushes :
    (key : Bytes) (entry : CacheEntry) (c : MemoryCache)
    → IsValid c
    → key ≢ []
    → length entry.response ≤ c.max_bytes
    → c.max_bytes < entry_size key entry
    → ((put none key entry c).1 ≡ err cache_unavailable) × ((put none key entry c).0.entries ≡ [])
unfolding put PutOutcome
put_oversized_flushes key entry c v keyed small large =
    let guard : (bytes_eq key [] || ltb c.max_bytes (length entry.response)) ≡ false =
      ground (arith, bytes_eq_iff key []) in
    rw guard (elim (put_in_room-PutOutcome key entry c v keyed) [
      | inl (f, _, _) ↦ absurd (ground (arith, f.2))
      | inr (_, e, empty) ↦ (e, empty)
    ])
