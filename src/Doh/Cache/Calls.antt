-- ===== src/Doh/Cache/Calls.antt =====
-- Every method keeps the invariant, and what `Get` finds.
use sakullla_plugins.Base.{
  ℕ, ◌<◌, Option, none, some, [], ◌∷◌, List, if◌then◌else◌, ◌≡◌, ◌&&◌, refl, ◌⊎◌, Result, inl, inr,
  arith, Bool-cases, Option-cases, leb, Bytes, bytes_eq, bytes_eq_iff, ok,
}
use sakullla_plugins.Doh.Cache.{
  CacheError, CacheEntry, MemoryCacheRecord, MemoryCache, lookup, evict, put, get, get_found, reset,
  new_memory_cache,
}
use sakullla_plugins.Doh.Cache.Table.{lookup-delete}
use sakullla_plugins.Doh.Cache.Valid.{IsValid, evict-IsValid}
use sakullla_plugins.Doh.Cache.Put.{put-IsValid, put_iff_Fits, Fits}

get-IsValid :
    (ctx : Option CacheError) (key : Bytes) (now : ℕ) (c : MemoryCache)
    → IsValid c
    → IsValid (get ctx key now c).0
unfolding get
get-IsValid (some e) key now c v = v
get-IsValid none key now c v = go (lookup key c.entries)
  where
    go : (o : Option MemoryCacheRecord) → IsValid (get_found key now c o).0
    go none = v
    go (some r) = elim (Bool-cases (leb r.entry.expires_at now)) [
      | inl expired ↦ rw expired (evict-IsValid key c v)
      | inr live ↦ rw live v
    ]

reset-IsValid : (ctx : Option CacheError) (c : MemoryCache) → IsValid c → IsValid (reset ctx c).0
unfolding reset
reset-IsValid (some e) c v = v
reset-IsValid none c v = record {
  distinct = tt;
  keyed = tt;
  sized = tt;
  counted = refl;
  in_entries = omega arith;
  in_bytes = omega arith;
}

-- A call of the cache by one of its methods.
pub data Call : Type 0 where
  call_get : Option CacheError → Bytes → ℕ → Call
  call_put : Option CacheError → Bytes → CacheEntry → Call
  call_reset : Option CacheError → Call

unfoldable pub run_calls : List Call → MemoryCache → MemoryCache
run_calls [] c = c
run_calls (call_get ctx key now ∷ cs) c = run_calls cs (get ctx key now c).0
run_calls (call_put ctx key entry ∷ cs) c = run_calls cs (put ctx key entry c).0
run_calls (call_reset ctx ∷ cs) c = run_calls cs (reset ctx c).0

run_calls-keeps : (cs : List Call) (c : MemoryCache) → IsValid c → IsValid (run_calls cs c)
unfolding run_calls
run_calls-keeps [] c v = v
run_calls-keeps (call_get ctx key now ∷ cs) c v =
    run_calls-keeps cs (get ctx key now c).0 (get-IsValid ctx key now c v)
run_calls-keeps (call_put ctx key entry ∷ cs) c v =
    run_calls-keeps cs (put ctx key entry c).0 (put-IsValid ctx key entry c v)
run_calls-keeps (call_reset ctx ∷ cs) c v =
    run_calls-keeps cs (reset ctx c).0 (reset-IsValid ctx c v)

-- After any calls on a new cache its keys are distinct and not empty, every record's size is the
-- length of its key and response, the byte count is the sum of the sizes, and the numbers of entries
-- and bytes are within the limits.
pub run_calls-IsValid :
    (max_entries max_bytes : ℕ) (cs : List Call)
    → IsValid (run_calls cs (new_memory_cache max_entries max_bytes))
run_calls-IsValid max_entries max_bytes cs = run_calls-keeps cs _ new-IsValid
  where
    new-IsValid : IsValid (new_memory_cache max_entries max_bytes)
    new-IsValid =
        unfold new_memory_cache in
        record {
          distinct = tt;
          keyed = tt;
          sized = tt;
          counted = refl;
          in_entries = omega arith;
          in_bytes = omega arith;
        }

ok_same :
    {a b : CacheEntry}
    → ◌≡◌ {A = Result CacheError (Option CacheEntry)} (ok (some a)) (ok (some b))
    → a ≡ b
ok_same h = cc h

-- A `Get` with a live context hits exactly when the key has a record that has not expired, and returns its
-- entry; otherwise it misses. An expired record of the key is removed; every other record stays, and no
-- key gets a record.
pub get_hit_iff :
    (key : Bytes) (now : ℕ) (c : MemoryCache)
    → let (c', found) = get none key now c in
      ((e : CacheEntry)
        → found ≡ ok (some e)
        → (r : MemoryCacheRecord) × (lookup key c.entries ≡ some r)
          × (r.entry ≡ e)
          × (now < e.expires_at))
      × ((r : MemoryCacheRecord)
          → lookup key c.entries ≡ some r
          → now < r.entry.expires_at
          → found ≡ ok (some r.entry))
      × ((found ≡ ok none) ⊎ ((e : CacheEntry) × (found ≡ ok (some e))))
      × ((j : Bytes) (r : MemoryCacheRecord)
          → lookup j c.entries ≡ some r
          → lookup j c'.entries
            ≡ (if bytes_eq key j && leb r.entry.expires_at now then none else some r))
      × ((j : Bytes) → lookup j c.entries ≡ none → lookup j c'.entries ≡ none)
unfolding get evict
get_hit_iff key now c = elim (Option-cases (lookup key c.entries)) [
  | inl missing ↦
      rw missing
        (λ e h. cc, λ r f _. cc, inl refl, λ j r h. ground (arith, bytes_eq_iff key j), λ j h. h)
  | inr (s, found) ↦ rw found (elim (Bool-cases (leb s.entry.expires_at now)) [
    | inl expired ↦ rw expired (
      λ e h. cc,
      λ r f l. ground arith,
      inl refl,
      λ j r h. ground (arith, lookup-delete j key c.entries, bytes_eq_iff key j),
      λ j h. ground (arith, lookup-delete j key c.entries),
    )
    | inr live ↦ rw live (
      λ e h. (s, refl, ok_same h, ground (arith, live, ok_same h)),
      λ r f l. ground arith,
      inr (s.entry, refl),
      λ j r h. ground (arith, bytes_eq_iff key j),
      λ j h. h,
    )
  ])
]

-- What was put is what is found, until it expires.
pub get-put :
    (key : Bytes) (entry : CacheEntry) (now : ℕ) (c : MemoryCache)
    → IsValid c
    → Fits key entry c
    → (get none key now (put none key entry c).0).1
      ≡ ok (if leb entry.expires_at now then none else some entry)
unfolding get
get-put key entry now c v fits = elim (put_iff_Fits key entry c v) [
  | inl (_, _, (r, found, same)) ↦ rw found (ground (arith, same))
  | inr (no_fit, _) ↦ absurd (no_fit fits)
]
