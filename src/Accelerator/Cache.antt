-- ===== src/Accelerator/Cache.antt =====
-- plugins/accelerator-sources/internal/upstream/cache.go: a bounded LRU cache with one load per key.
-- `entries` is the map and the list in one: the entries, the most recently used first. A call is a
-- number into `results`, which holds the calls whose channel is closed. `running` are the goroutines
-- that load. What holds the lock is one step; the clock's readings are arguments. The counters stand
-- for the calls of `onHit`, `onMiss` and `onEvict`. Sizes are lengths and times are not negative.
pub mod Valid
pub mod Trimmed
pub mod Order
pub mod Stored
mod Examples
use sakullla_plugins.Base.{
  ℕ, zero, suc, ◌+◌, ◌-◌, Bool, true, false, not, ◌&&◌, ◌||◌, Option, none, some, List, [], ◌∷◌,
  ltb, leb, ◌==◌, if◌then◌else◌, length, Bytes,
}
use sakullla_plugins.Base.Table.{Table, find, remove}

-- The errors of a load: ErrClosed, those with ErrPermanentCache in their chain, and the others.
pub data LoadError : Type 0 where
  closed_owner permanent transient : LoadError

pub record Loaded (V : Type 0) : Type 0 where
  pub value : V
  pub size : ℕ
  pub ttl : ℕ
  pub stale_while_revalidate : ℕ
  pub stale_if_error : ℕ

pub record CacheEntry (V : Type 0) : Type 0 where
  pub value : V
  pub size : ℕ
  pub expires_at : ℕ
  pub swr_until : ℕ
  pub sie_until : ℕ

-- What a call's `loaded` and `err` hold when its channel is closed.
pub data Outcome (V : Type 0) : Type 0 where
  succeeded : Loaded V → Outcome V
  failed : LoadError → Outcome V

pub record Cache (V : Type 0) : Type 0 where
  pub max_entries : ℕ
  pub max_bytes : ℕ
  pub bytes : ℕ
  pub entries : Table (CacheEntry V)
  pub flights : Table ℕ
  pub closed : Bool
  pub hits : ℕ
  pub misses : ℕ
  pub evictions : ℕ
  pub group_closed : Bool
  pub owns_group : Bool
  pub running : List (Bytes × ℕ)
  pub results : List (ℕ × Outcome V)
  pub next_call : ℕ

abbrev one_at_least : ℕ → ℕ
one_at_least n = if n == 0 then 1 else n

unfoldable pub new_cache : {V : Type 0} → ℕ → ℕ → Cache V
new_cache max_entries max_bytes = record {
  max_entries = one_at_least max_entries;
  max_bytes = one_at_least max_bytes;
  bytes = 0;
  entries = [];
  flights = [];
  closed = false;
  hits = 0;
  misses = 0;
  evictions = 0;
  group_closed = false;
  owns_group = true;
  running = [];
  results = [];
  next_call = 0;
}

-- What `inspectLocked` finds: the state, with the entry of those that have one.
pub data Inspected (V : Type 0) : Type 0 where
  missing : Inspected V
  fresh swr sie : CacheEntry V → Inspected V

-- The operations, for a type of values.
module _ {V : Type 0} where
  -- `removeLocked` of the element that holds the key, `lru.MoveToFront`, and the metrics.
  unfoldable pub remove_locked : Bytes → CacheEntry V → Cache V → Cache V
  remove_locked key e c = record c {
    entries = remove key c.entries;
    bytes = c.bytes - e.size;
    evictions = c.evictions + 1;
  }

  unfoldable pub move_to_front : Bytes → CacheEntry V → Cache V → Cache V
  move_to_front key e c = record c { entries = (key, e) ∷ remove key c.entries }

  abbrev pub hit : Cache V → Cache V
  hit c = record c { hits = c.hits + 1 }

  abbrev pub miss : Cache V → Cache V
  miss c = record c { misses = c.misses + 1 }

  -- `getLocked`, which reads the clock twice.
  unfoldable pub get_entry : Bytes → ℕ → ℕ → Cache V → Option (CacheEntry V) → Cache V × Option V
  get_entry key now later c none = (miss c, none)
  get_entry key now later c (some e) =
      if ltb now e.expires_at
      then (hit (move_to_front key e c), some e.value)
      else (miss (if ltb later e.sie_until then c else remove_locked key e c), none)

  unfoldable pub get : Bytes → ℕ → ℕ → Cache V → Cache V × Option V
  get key now later c =
      if c.closed then (c, none) else get_entry key now later c (find key c.entries)

  unfoldable pub inspect_entry : Bytes → ℕ → Cache V → Option (CacheEntry V) → Cache V × Inspected V
  inspect_entry key now c none = (c, missing)
  inspect_entry key now c (some e) =
      if ltb now e.expires_at
      then (move_to_front key e c, fresh e)
      else if ltb now e.swr_until
      then (move_to_front key e c, swr e)
      else if ltb now e.sie_until
      then (move_to_front key e c, sie e)
      else (remove_locked key e c, missing)

  abbrev pub inspect_locked : Bytes → ℕ → Cache V → Cache V × Inspected V
  inspect_locked key now c = inspect_entry key now c (find key c.entries)

  abbrev pub inspected_value : Inspected V → Option V
  inspected_value missing = none
  inspected_value (fresh e) = some e.value
  inspected_value (swr e) = some e.value
  inspected_value (sie e) = some e.value

  unfoldable pub peek : Bytes → ℕ → Cache V → Cache V × Option V
  peek key now c =
      if c.closed
      then (c, none)
      else ((inspect_locked key now c).0, inspected_value (inspect_locked key now c).1)

  abbrev pub remove_found : Bytes → Cache V → Option (CacheEntry V) → Cache V
  remove_found key c none = c
  remove_found key c (some e) = remove_locked key e c

  unfoldable pub delete : Bytes → Cache V → Cache V
  delete key c = remove_found key c (find key c.entries)

  abbrev pub delete_matching : Bytes → (V → Bool) → Cache V → Option (CacheEntry V) → Cache V × Bool
  delete_matching key match c none = (c, false)
  delete_matching key match c (some e) =
      if match e.value then (remove_locked key e c, true) else (c, false)

  unfoldable pub compare_and_delete : Bytes → (V → Bool) → Cache V → Cache V × Bool
  compare_and_delete key match c = delete_matching key match c (find key c.entries)

  -- `lru.Back()`
  unfoldable pub back : Table (CacheEntry V) → Option (Bytes × CacheEntry V)
  back [] = none
  back (p ∷ []) = some p
  back (p ∷ q ∷ es) = back (q ∷ es)

  abbrev pub over : Cache V → Bool
  over c = ltb c.max_entries (length c.entries) || ltb c.max_bytes c.bytes

  abbrev pub remove_back : Cache V → Option (Bytes × CacheEntry V) → Cache V
  remove_back c none = c
  remove_back c (some (key, e)) = remove_locked key e c

  -- The loop of `setLocked`. Each round removes an entry, and with none left the loop has ended.
  unfoldable pub trim : ℕ → Cache V → Cache V
  trim zero c = c
  trim (suc rounds) c =
      let rest = trim rounds (remove_back c (back c.entries)) in if over c then rest else c

  abbrev pub entry_of : Loaded V → ℕ → CacheEntry V
  entry_of l now = record {
    value = l.value;
    size = l.size;
    expires_at = now + l.ttl;
    swr_until = now + l.ttl + l.stale_while_revalidate;
    sie_until = now + l.ttl + l.stale_while_revalidate + l.stale_if_error;
  }

  unfoldable pub push_front : Bytes → Loaded V → ℕ → Cache V → Cache V
  push_front key l now c = record c {
    entries = (key, entry_of l now) ∷ c.entries;
    bytes = c.bytes + l.size;
  }

  unfoldable pub set_locked : Bytes → Loaded V → ℕ → Cache V → Cache V
  set_locked key l now c =
      let pushed = push_front key l now (delete key c) in trim (length pushed.entries) pushed
