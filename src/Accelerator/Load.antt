-- ===== src/Accelerator/Load.antt =====
-- upstream/cache.go: `GetOrLoad`, the loads it starts, and `Close`. One load runs for a key at a time;
-- who asks meanwhile waits for its call, or takes a stale value.
pub mod Flights
pub mod Runs
pub mod Answers
mod Examples
use sakullla_plugins.Base.{
  ℕ, zero, suc, ◌+◌, Bool, true, false, not, ◌&&◌, Option, none, some, List, [], ◌∷◌, ltb, leb,
  ◌==◌, if◌then◌else◌, Bytes,
}
use sakullla_plugins.Base.Table.{Table, find, remove}
use sakullla_plugins.Accelerator.Cache.{
  LoadError, closed_owner, permanent, transient, Loaded, CacheEntry, Outcome, succeeded, failed,
  Cache, get, peek, Inspected, missing, fresh, swr, sie, inspect_locked, hit, miss, delete,
  compare_and_delete, set_locked,
}

-- What `GetOrLoad` does next: return ErrClosed or a value, or wait for a call with a stale value that
-- it may use.
pub data Answer (V : Type 0) : Type 0 where
  rejected : Answer V
  served : V → Answer V
  waits : ℕ → Option V → Answer V

-- The select of `waitCacheCall` takes the context's end or the call's.
pub data Signal (V : Type 0) : Type 0 where
  context_done : Signal V
  call_done : Outcome V → Signal V

-- The value, or the error; `none` is the context's error.
pub data Waited (V : Type 0) : Type 0 where
  value : V → Waited V
  error : Option LoadError → Waited V

-- The goroutine of a call ends.
unfoldable pub ended : ℕ → List (Bytes × ℕ) → List (Bytes × ℕ)
ended call [] = []
ended call ((k, i) ∷ rest) =
    let others = ended call rest in if i == call then others else (k, i) ∷ others

module _ {V : Type 0} where
  -- `startLoad`, after the call was put in `flights`.
  unfoldable pub start_load : Bytes → ℕ → Cache V → Cache V
  start_load key call c =
      if c.group_closed
      then record c {
        flights = remove key c.flights;
        results = (call, failed closed_owner) ∷ c.results;
      }
      else record c { running = (key, call) ∷ c.running }

  unfoldable pub new_flight : Bytes → Cache V → Cache V
  new_flight key c = start_load key c.next_call (record c {
    flights = (key, c.next_call) ∷ remove key c.flights;
    next_call = c.next_call + 1;
  })

  abbrev pub revalidate : Bytes → Cache V → Option ℕ → Cache V
  revalidate key c none = new_flight key c
  revalidate key c (some call) = c

  abbrev pub join : Bytes → Option V → Cache V → Option ℕ → Cache V × Answer V
  join key stale c none = (new_flight key c, waits c.next_call stale)
  join key stale c (some call) = (c, waits call stale)

  unfoldable pub answer_inspected : Bytes → Cache V × Inspected V → Cache V × Answer V
  answer_inspected key (c, fresh e) = (hit c, served e.value)
  answer_inspected key (c, swr e) = (revalidate key (hit c) (find key c.flights), served e.value)
  answer_inspected key (c, sie e) = join key (some e.value) (miss c) (find key c.flights)
  answer_inspected key (c, missing) = join key none (miss c) (find key c.flights)

  unfoldable pub get_or_load : Bytes → ℕ → Cache V → Cache V × Answer V
  get_or_load key now c =
      if c.closed then (c, rejected) else answer_inspected key (inspect_locked key now c)

  unfoldable pub wait_cache_call : Option V → Signal V → Waited V
  wait_cache_call stale context_done = error none
  wait_cache_call stale (call_done (succeeded l)) = value l.value
  wait_cache_call stale (call_done (failed permanent)) = error (some permanent)
  wait_cache_call none (call_done (failed e)) = error (some e)
  wait_cache_call (some v) (call_done (failed e)) = value v

  -- `runLoad` behind `load`: what it does to the entries, and then to the call.
  unfoldable pub store_outcome : Bytes → Outcome V → ℕ → Cache V → Cache V
  store_outcome key (failed permanent) now c = delete key c
  store_outcome key (failed e) now c = c
  store_outcome key (succeeded l) now c =
      if not c.closed && (ltb 0 l.ttl && leb l.size c.max_bytes) then set_locked key l now c else c

  unfoldable pub finish_call : Bytes → ℕ → Outcome V → Cache V → Cache V
  finish_call key call outcome c = record c {
    flights = remove key c.flights;
    results = (call, outcome) ∷ c.results;
    running = ended call c.running;
  }

  abbrev pub run_load : Bytes → ℕ → Outcome V → ℕ → Cache V → Cache V
  run_load key call outcome now c = finish_call key call outcome (store_outcome key outcome now c)

  -- `Close`; loads that run go on, with their context cancelled.
  unfoldable pub close : Cache V → Cache V
  close c = record c {
    closed = true;
    entries = [];
    bytes = 0;
    group_closed = if c.owns_group then true else c.group_closed;
  }

  -- `withRefreshGroup`, with a group that is closed or not.
  unfoldable pub with_refresh_group : Bool → Cache V → Cache V
  with_refresh_group closed c = record c { group_closed = closed; owns_group = false }

-- What happens to a cache: the calls of clients, the end of a load that runs, and the end of a refresh
-- group that is shared.
pub data Event (V : Type 0) : Type 0 where
  on_get : Bytes → ℕ → ℕ → Event V
  on_peek on_get_or_load : Bytes → ℕ → Event V
  on_delete : Bytes → Event V
  on_compare_and_delete : Bytes → (V → Bool) → Event V
  on_loaded : ℕ → Outcome V → ℕ → Event V
  on_close on_group_closed : Event V
  on_refresh_group : Bool → Event V

unfoldable pub nth_running : List (Bytes × ℕ) → ℕ → Option (Bytes × ℕ)
nth_running [] n = none
nth_running (p ∷ ps) zero = some p
nth_running (p ∷ ps) (suc n) = nth_running ps n

module _ {V : Type 0} where
  -- Of the loads that run, the one with a position ends.
  abbrev pub load_ends : Outcome V → ℕ → Cache V → Option (Bytes × ℕ) → Cache V
  load_ends outcome now c none = c
  load_ends outcome now c (some (key, call)) = run_load key call outcome now c

  unfoldable pub step : Event V → Cache V → Cache V
  step (on_get key now later) c = (get key now later c).0
  step (on_peek key now) c = (peek key now c).0
  step (on_get_or_load key now) c = (get_or_load key now c).0
  step (on_delete key) c = delete key c
  step (on_compare_and_delete key match) c = (compare_and_delete key match c).0
  step (on_loaded n outcome now) c = load_ends outcome now c (nth_running c.running n)
  step on_close c = close c
  step on_group_closed c = record c { group_closed = true }
  step (on_refresh_group closed) c = with_refresh_group closed c

  unfoldable pub run : List (Event V) → Cache V → Cache V
  run [] c = c
  run (e ∷ es) c = run es (step e c)
