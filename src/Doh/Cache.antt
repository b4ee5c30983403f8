-- ===== src/Doh/Cache.antt =====
-- plugins/doh/cache.go: the process-owned TTL cache. The Go map is an association list whose order
-- stands for the unspecified iteration order; `ctx` is what `ctx.Err()` returns. The limits are
-- numbers, as `Configuration.Validate` admits no negative ones. The lock makes each call one step.
pub mod Table
pub mod Victim
pub mod Valid
pub mod Put
pub mod Eviction
pub mod Ages
pub mod Calls
mod Examples
use sakullla_plugins.Base.{
  ℕ, zero, suc, ◌+◌, ◌-◌, ◌%◌, ◌^◌, Bool, true, false, ◌&&◌, ◌||◌, Option, none, some, List, [],
  ◌∷◌, ltb, leb, ◌==◌, if◌then◌else◌, length, Bytes, bytes_eq, bytes_lt, Result, ok, err,
}

pub data CacheError : Type 0 where
  context_done cache_unavailable : CacheError

pub record CacheEntry : Type 0 where
  pub response : Bytes
  pub stored_at : ℕ
  pub expires_at : ℕ

pub record MemoryCacheRecord : Type 0 where
  pub entry : CacheEntry
  pub size : ℕ
  pub order : ℕ

abbrev pub Entries : Type 0
Entries = List (Bytes × MemoryCacheRecord)

pub record MemoryCache : Type 0 where
  pub entries : Entries
  pub max_entries : ℕ
  pub max_bytes : ℕ
  pub bytes : ℕ
  pub order : ℕ

-- The map's read, its `delete`, and the `size` of a read that gives the zero record on a missing key.
unfoldable pub lookup : Bytes → Entries → Option MemoryCacheRecord
lookup k [] = none
lookup k ((j, r) ∷ es) = if bytes_eq j k then some r else lookup k es

unfoldable pub delete : Bytes → Entries → Entries
delete k [] = []
delete k ((j, r) ∷ es) = let rest = delete k es in if bytes_eq j k then rest else (j, r) ∷ rest

abbrev pub size_or_zero : Option MemoryCacheRecord → ℕ
size_or_zero none = 0
size_or_zero (some r) = r.size

unfoldable pub new_memory_cache : ℕ → ℕ → MemoryCache
new_memory_cache max_entries max_bytes = record {
  entries = [];
  max_entries = max_entries;
  max_bytes = max_bytes;
  bytes = 0;
  order = 0;
}

-- Delete a key and take its record's size off the byte count.
unfoldable pub evict : Bytes → MemoryCache → MemoryCache
evict key c = record c {
  entries = delete key c.entries;
  bytes = c.bytes - size_or_zero (lookup key c.entries);
}

-- `Get`: the entry of a hit, `none` for a miss.
abbrev pub get_found :
    Bytes
    → ℕ
    → MemoryCache
    → Option MemoryCacheRecord
    → MemoryCache × Result CacheError (Option CacheEntry)
get_found key now c none = (c, ok none)
get_found key now c (some r) =
    if leb r.entry.expires_at now then (evict key c, ok none) else (c, ok (some r.entry))

unfoldable pub get :
    Option CacheError
    → Bytes
    → ℕ
    → MemoryCache
    → MemoryCache × Result CacheError (Option CacheEntry)
get (some e) key now c = (c, err e)
get none key now c = get_found key now c (lookup key c.entries)

-- The scan in `Put` for the oldest key and its order number; the empty key stands for none so far.
unfoldable pub older_of : Bytes × MemoryCacheRecord → Bytes × ℕ → Bytes × ℕ
older_of (k, r) (oldest_key, oldest) =
    if bytes_eq oldest_key []
      || (ltb r.order oldest || (r.order == oldest && bytes_lt k oldest_key))
    then (k, r.order)
    else (oldest_key, oldest)

unfoldable pub oldest_from : Entries → Bytes × ℕ → Bytes × ℕ
unfolding older_of
oldest_from [] acc = acc
oldest_from (p ∷ es) acc = oldest_from es (older_of p acc)

abbrev pub oldest_of : Entries → Bytes × ℕ
oldest_of es = oldest_from es ([], 0)

abbrev pub full : ℕ → MemoryCache → Bool
full size c = leb c.max_entries (length c.entries) || ltb c.max_bytes (c.bytes + size)

-- The `for` loop of `Put`; `false` is its return of ErrCacheUnavailable. Each round deletes an entry,
-- so one round more than there are entries is never used up.
unfoldable pub make_room : ℕ → ℕ → MemoryCache → MemoryCache × Bool
make_room zero size c = (c, false)
make_room (suc rounds) size c =
    let key = (oldest_of c.entries).0 in
    let rest = make_room rounds size (evict key c) in
    if full size c then (if bytes_eq key [] then (c, false) else rest) else (c, true)

-- `Put` behind its guards: forget the previous record of the key, take the next order number.
unfoldable pub forget : Bytes → MemoryCache → MemoryCache
unfolding evict
forget key c = record (evict key c) { order = (c.order + 1) % 2 ^ 64 }

abbrev pub entry_size : Bytes → CacheEntry → ℕ
entry_size key entry = length key + length entry.response

unfoldable pub store : Bytes → CacheEntry → MemoryCache → MemoryCache
store key entry c = record c {
  entries =
      (key, record { entry = entry; size = entry_size key entry; order = c.order })
      ∷ delete key c.entries;
  bytes = c.bytes + entry_size key entry;
}

abbrev pub put_in_room :
    Bytes → CacheEntry → MemoryCache × Bool → MemoryCache × Result CacheError (Unit {0})
put_in_room key entry (c, true) = (store key entry c, ok tt)
put_in_room key entry (c, false) = (c, err cache_unavailable)

abbrev pub room_for : Bytes → CacheEntry → MemoryCache → MemoryCache × Bool
room_for key entry c = make_room (suc (length c.entries)) (entry_size key entry) c

unfoldable pub put :
    Option CacheError
    → Bytes
    → CacheEntry
    → MemoryCache
    → MemoryCache × Result CacheError (Unit {0})
put (some e) key entry c = (c, err e)
put none key entry c =
    if bytes_eq key [] || ltb c.max_bytes (length entry.response)
    then (c, err cache_unavailable)
    else put_in_room key entry (room_for key entry (forget key c))

unfoldable pub reset : Option CacheError → MemoryCache → MemoryCache × Result CacheError (Unit {0})
reset (some e) c = (c, err e)
reset none c = (record c { entries = []; bytes = 0 }, ok tt)

unfoldable pub stats : MemoryCache → ℕ × ℕ
stats c = (length c.entries, c.bytes)
