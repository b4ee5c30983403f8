-- ===== src/Doh/Cache/Examples.antt =====
-- The theorems on plugins/doh/cache.go at concrete inputs.
use sakullla_plugins.Base.{
  ℕ, ◌≤◌, ◌<◌, none, some, List, [], ◌∷◌, ◌≡◌, ◌⊎◌, refl, arith, leb, ◌&&◌, if◌then◌else◌, length,
  Bytes, bytes_eq, ok, err,
}
use sakullla_plugins.Doh.Cache.{
  cache_unavailable, CacheEntry, MemoryCacheRecord, MemoryCache, lookup, delete, evict, oldest_from,
  older_of, make_room, forget, store, put, get, entry_size, new_memory_cache,
}
use sakullla_plugins.Doh.Cache.Valid.{IsValid}
use sakullla_plugins.Doh.Cache.Put.{Fits, put_iff_Fits, put_oversized_flushes}
use sakullla_plugins.Doh.Cache.Ages.{stored_at_call, put-evicts_first_stored}
use sakullla_plugins.Doh.Cache.Calls.{
  Call, call_put, run_calls, run_calls-IsValid, get-put, get_hit_iff,
}

abbrev entry_until : ℕ → CacheEntry
entry_until t = record { response = 9 ∷ 9 ∷ 9 ∷ []; stored_at = 0; expires_at = t }

-- Two entries put, in a cache for two entries and 100 bytes.
abbrev two_puts : List Call
two_puts = call_put none (1 ∷ []) (entry_until 10) ∷ call_put none (2 ∷ []) (entry_until 20) ∷ []

abbrev two_entries : MemoryCache
two_entries = run_calls two_puts (new_memory_cache 2 100)

two_entries-IsValid : IsValid two_entries
two_entries-IsValid = run_calls-IsValid 2 100 two_puts

two_entries_full : (length two_entries.entries ≡ 2) × (two_entries.bytes ≡ 8)
unfolding run_calls put make_room evict forget store lookup delete oldest_from older_of
    new_memory_cache bytes_eq
two_entries_full = (refl, refl)

run_calls-IsValid_example : IsValid (run_calls two_puts (new_memory_cache 2 100))
run_calls-IsValid_example = run_calls-IsValid 2 100 two_puts

third_Fits : Fits (3 ∷ []) (entry_until 30) two_entries
unfolding run_calls put make_room evict forget store lookup delete oldest_from older_of
    new_memory_cache bytes_eq
third_Fits = (λ e. cc, omega arith, omega arith)

put_iff_Fits_example :
    (Fits (3 ∷ []) (entry_until 30) two_entries
      × ((put none (3 ∷ []) (entry_until 30) two_entries).1 ≡ ok tt)
      × ((r : MemoryCacheRecord) × (lookup
              (3 ∷ [])
              (put none (3 ∷ []) (entry_until 30) two_entries).0.entries
            ≡ some r)
          × (r.entry ≡ entry_until 30)))
    ⊎ ((¬ Fits (3 ∷ []) (entry_until 30) two_entries)
        × ((put none (3 ∷ []) (entry_until 30) two_entries).1 ≡ err cache_unavailable))
put_iff_Fits_example = put_iff_Fits (3 ∷ []) (entry_until 30) two_entries two_entries-IsValid

abbrev record_at : ℕ → ℕ → MemoryCacheRecord
record_at t order = record { entry = entry_until t; size = 4; order = order }

first_evicted :
    (lookup (1 ∷ []) two_entries.entries ≡ some (record_at 10 1))
    × (lookup (1 ∷ []) (put none (3 ∷ []) (entry_until 30) two_entries).0.entries ≡ none)
    × (lookup (2 ∷ []) (put none (3 ∷ []) (entry_until 30) two_entries).0.entries
        ≡ some (record_at 20 2))
unfolding run_calls put make_room evict forget store lookup delete oldest_from older_of
    new_memory_cache bytes_eq
first_evicted = (refl, refl, refl)

put-evicts_first_stored_example :
    (lookup (1 ∷ []) (put none (3 ∷ []) (entry_until 30) two_entries).0.entries ≡ none)
    × (lookup (2 ∷ []) two_entries.entries ≡ some (record_at 20 2))
    × (stored_at_call 0 (λ _. 0) two_puts (new_memory_cache 2 100) (1 ∷ [])
        < stored_at_call 0 (λ _. 0) two_puts (new_memory_cache 2 100) (2 ∷ []))
put-evicts_first_stored_example =
    put-evicts_first_stored 2 100 two_puts (3 ∷ []) (1 ∷ []) (2 ∷ []) (entry_until 30)
      (record_at 10 1) (record_at 20 2) (omega arith) (λ e. cc e) (λ e. cc e) first_evicted.0
      (λ e. cc (e, first_evicted.1)) first_evicted.2

get-put_example :
    (get none (3 ∷ []) 29 (put none (3 ∷ []) (entry_until 30) two_entries).0).1
    ≡ ok (if leb 30 29 then none else some (entry_until 30))
get-put_example = get-put (3 ∷ []) (entry_until 30) 29 two_entries two_entries-IsValid third_Fits

get_hit_iff_example :
    let (c', found) = get none (1 ∷ []) 10 two_entries in
    ((e : CacheEntry)
      → found ≡ ok (some e)
      → (r : MemoryCacheRecord) × (lookup (1 ∷ []) two_entries.entries ≡ some r)
        × (r.entry ≡ e)
        × (10 < e.expires_at))
    × ((r : MemoryCacheRecord)
        → lookup (1 ∷ []) two_entries.entries ≡ some r
        → 10 < r.entry.expires_at
        → found ≡ ok (some r.entry))
    × ((found ≡ ok none) ⊎ ((e : CacheEntry) × (found ≡ ok (some e))))
    × ((j : Bytes) (r : MemoryCacheRecord)
        → lookup j two_entries.entries ≡ some r
        → lookup j c'.entries
          ≡ (if bytes_eq (1 ∷ []) j && leb r.entry.expires_at 10 then none else some r))
    × ((j : Bytes) → lookup j two_entries.entries ≡ none → lookup j c'.entries ≡ none)
get_hit_iff_example = get_hit_iff (1 ∷ []) 10 two_entries

-- A response of five bytes under a key of two, in a cache of six bytes that holds one entry.
abbrev five_bytes : CacheEntry
five_bytes = record { response = 1 ∷ 2 ∷ 3 ∷ 4 ∷ 5 ∷ []; stored_at = 0; expires_at = 10 }

abbrev one_entry : MemoryCache
one_entry = run_calls (call_put none (7 ∷ []) (entry_until 10) ∷ []) (new_memory_cache 2 6)

one_entry-IsValid : IsValid one_entry
one_entry-IsValid = run_calls-IsValid 2 6 (call_put none (7 ∷ []) (entry_until 10) ∷ [])

five_bytes_in : length five_bytes.response ≤ one_entry.max_bytes
unfolding run_calls put make_room evict forget store lookup delete oldest_from older_of
    new_memory_cache bytes_eq
five_bytes_in = omega arith

five_bytes_over : one_entry.max_bytes < entry_size (1 ∷ 2 ∷ []) five_bytes
unfolding run_calls put make_room evict forget store lookup delete oldest_from older_of
    new_memory_cache bytes_eq
five_bytes_over = omega arith

put_oversized_flushes_example :
    ((put none (1 ∷ 2 ∷ []) five_bytes one_entry).1 ≡ err cache_unavailable)
    × ((put none (1 ∷ 2 ∷ []) five_bytes one_entry).0.entries ≡ [])
put_oversized_flushes_example =
    put_oversized_flushes (1 ∷ 2 ∷ []) five_bytes one_entry one_entry-IsValid (λ e. cc)
      five_bytes_in five_bytes_over
