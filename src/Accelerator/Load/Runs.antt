-- ===== src/Accelerator/Load/Runs.antt =====
-- Whatever happens to a cache, its entries stay counted and within the limits.
use sakullla_plugins.Base.{
  ℕ, Bool, not, ◌&&◌, Option, none, some, List, [], ◌∷◌, ◌≡◌, refl, inl, inr, arith, if-elim,
  Bool-cases, Option-cases, ltb, leb, if◌then◌else◌, Bytes,
}
use sakullla_plugins.Base.Table.{find}
use sakullla_plugins.Accelerator.Cache.{
  closed_owner, permanent, transient, CacheEntry, Outcome, succeeded, failed, Cache, new_cache, get,
  get_entry, peek, Inspected, missing, fresh, swr, sie, inspect_locked, hit, miss,
  compare_and_delete, remove_locked, move_to_front,
}
use sakullla_plugins.Accelerator.Cache.Valid.{
  IsValid, IsValid-same, remove_locked-IsValid, move_to_front-IsValid, delete-IsValid,
  inspect_locked-IsValid,
}
use sakullla_plugins.Accelerator.Cache.Trimmed.{set_locked-IsValid}
use sakullla_plugins.Accelerator.Load.{
  start_load, new_flight, revalidate, join, answer_inspected, get_or_load, store_outcome,
  finish_call, close, with_refresh_group, Event, on_get, on_peek, on_get_or_load, on_delete,
  on_compare_and_delete, on_loaded, on_close, on_group_closed, on_refresh_group, load_ends,
  nth_running, step, run,
}

module _ {V : Type 0} where
  -- The first part of a result is valid.
  abbrev LeavesValid : {A : Type 0} → Cache V × A → Type 0
  LeavesValid r = IsValid r.0

  get_entry-IsValid :
      (key : Bytes) (now later : ℕ) (c : Cache V) (e : Option (CacheEntry V))
      → IsValid c
      → find key c.entries ≡ e
      → IsValid (get_entry key now later c e).0
  unfolding get_entry
  get_entry-IsValid key now later c none v h = IsValid-same c (miss c) refl refl refl refl refl v
  get_entry-IsValid key now later c (some e) v h =
      if-elim LeavesValid (ltb now e.expires_at)
        (λ _.
          IsValid-same (move_to_front key e c) _ refl refl refl refl refl
            (move_to_front-IsValid key e c v h))
        (λ _. IsValid-same kept (miss kept) refl refl refl refl refl (
          if-elim IsValid (ltb later e.sie_until) (λ _. v)
            (λ _. remove_locked-IsValid key e c v h)))
    where
      kept : Cache V
      kept = if ltb later e.sie_until then c else remove_locked key e c

  get-IsValid :
      (key : Bytes) (now later : ℕ) (c : Cache V) → IsValid c → IsValid (get key now later c).0
  unfolding get
  get-IsValid key now later c v =
      if-elim LeavesValid c.closed (λ _. v) (λ _. get_entry-IsValid key now later c _ v refl)

  peek-IsValid : (key : Bytes) (now : ℕ) (c : Cache V) → IsValid c → IsValid (peek key now c).0
  unfolding peek
  peek-IsValid key now c v =
      if-elim LeavesValid c.closed (λ _. v) (λ _. inspect_locked-IsValid key now c v)

  compare_and_delete-IsValid :
      (key : Bytes) (match : V → Bool) (c : Cache V)
      → IsValid c
      → IsValid (compare_and_delete key match c).0
  unfolding compare_and_delete
  compare_and_delete-IsValid key match c v = elim (Option-cases (find key c.entries)) [
    | inl gone ↦ rw gone v
    | inr (e, found) ↦
        rw found (
          if-elim LeavesValid (match e.value) (λ _. remove_locked-IsValid key e c v found) (λ _. v))
  ]

  new_flight-IsValid : (key : Bytes) (c : Cache V) → IsValid c → IsValid (new_flight key c)
  unfolding new_flight start_load
  new_flight-IsValid key c v = elim (Bool-cases c.group_closed) [
    | inl shut ↦ rw shut (IsValid-same c _ refl refl refl refl refl v)
    | inr live ↦ rw live (IsValid-same c _ refl refl refl refl refl v)
  ]

  join-IsValid :
      (key : Bytes) (stale : Option V) (c : Cache V) (flight : Option ℕ)
      → IsValid c
      → IsValid (join key stale c flight).0
  join-IsValid key stale c none v = new_flight-IsValid key c v
  join-IsValid key stale c (some call) v = v

  revalidate-IsValid :
      (key : Bytes) (c : Cache V) (flight : Option ℕ)
      → IsValid c
      → IsValid (revalidate key c flight)
  revalidate-IsValid key c none v = new_flight-IsValid key c v
  revalidate-IsValid key c (some call) v = v

  answer_inspected-IsValid :
      (key : Bytes) (c : Cache V) (i : Inspected V)
      → IsValid c
      → IsValid (answer_inspected key (c, i)).0
  unfolding answer_inspected
  answer_inspected-IsValid key c (fresh e) v = IsValid-same c (hit c) refl refl refl refl refl v
  answer_inspected-IsValid key c (swr e) v =
      revalidate-IsValid key (hit c) _ (IsValid-same c (hit c) refl refl refl refl refl v)
  answer_inspected-IsValid key c (sie e) v =
      join-IsValid key _ (miss c) _ (IsValid-same c (miss c) refl refl refl refl refl v)
  answer_inspected-IsValid key c missing v =
      join-IsValid key _ (miss c) _ (IsValid-same c (miss c) refl refl refl refl refl v)

  get_or_load-IsValid :
      (key : Bytes) (now : ℕ) (c : Cache V) → IsValid c → IsValid (get_or_load key now c).0
  unfolding get_or_load
  get_or_load-IsValid key now c v =
      if-elim LeavesValid c.closed (λ _. v)
        (λ _.
          answer_inspected-IsValid key (inspect_locked key now c).0 (inspect_locked key now c).1
            (inspect_locked-IsValid key now c v))

  store_outcome-IsValid :
      (key : Bytes) (outcome : Outcome V) (now : ℕ) (c : Cache V)
      → IsValid c
      → IsValid (store_outcome key outcome now c)
  unfolding store_outcome
  store_outcome-IsValid key (failed permanent) now c v = delete-IsValid key c v
  store_outcome-IsValid key (failed closed_owner) now c v = v
  store_outcome-IsValid key (failed transient) now c v = v
  store_outcome-IsValid key (succeeded l) now c v =
      if-elim IsValid (not c.closed && (ltb 0 l.ttl && leb l.size c.max_bytes))
        (λ kept. set_locked-IsValid key l now c v (ground arith)) (λ _. v)

  load_ends-IsValid :
      (outcome : Outcome V) (now : ℕ) (c : Cache V) (load : Option (Bytes × ℕ))
      → IsValid c
      → IsValid (load_ends outcome now c load)
  unfolding finish_call
  load_ends-IsValid outcome now c none v = v
  load_ends-IsValid outcome now c (some (key, call)) v =
      IsValid-same (store_outcome key outcome now c) _ refl refl refl refl refl
        (store_outcome-IsValid key outcome now c v)

  close-IsValid : (c : Cache V) → IsValid c → IsValid (close c)
  unfolding close
  close-IsValid c v = record {
    is_counted = record { distinct = tt; counted = refl; closed_empty = λ h. refl };
    in_entries = omega arith;
    in_bytes = omega arith;
  }

  step-IsValid : (e : Event V) (c : Cache V) → IsValid c → IsValid (step e c)
  unfolding step with_refresh_group
  step-IsValid (on_get key now later) c v = get-IsValid key now later c v
  step-IsValid (on_peek key now) c v = peek-IsValid key now c v
  step-IsValid (on_get_or_load key now) c v = get_or_load-IsValid key now c v
  step-IsValid (on_delete key) c v = delete-IsValid key c v
  step-IsValid (on_compare_and_delete key match) c v = compare_and_delete-IsValid key match c v
  step-IsValid (on_loaded n outcome now) c v =
      load_ends-IsValid outcome now c (nth_running c.running n) v
  step-IsValid on_close c v = close-IsValid c v
  step-IsValid on_group_closed c v = IsValid-same c _ refl refl refl refl refl v
  step-IsValid (on_refresh_group closed) c v = IsValid-same c _ refl refl refl refl refl v

  run-keeps : (es : List (Event V)) (c : Cache V) → IsValid c → IsValid (run es c)
  unfolding run
  run-keeps [] c v = v
  run-keeps (e ∷ es) c v = run-keeps es (step e c) (step-IsValid e c v)

  new_cache-IsValid :
      (max_entries max_bytes : ℕ) → IsValid {V = V} (new_cache max_entries max_bytes)
  unfolding new_cache
  new_cache-IsValid max_entries max_bytes = record {
    is_counted = record { distinct = tt; counted = refl; closed_empty = λ h. refl };
    in_entries = omega arith;
    in_bytes = omega arith;
  }

  -- Whatever happens to a new cache, in any order and with any ends of loads, its keys are distinct,
  -- its byte count is the sum of the sizes of its entries, it is within the limits on entries and
  -- bytes, and it is empty once it is closed.
  pub run-IsValid :
      (max_entries max_bytes : ℕ) (es : List (Event V))
      → IsValid (run es (new_cache max_entries max_bytes))
  run-IsValid max_entries max_bytes es =
      run-keeps es (new_cache max_entries max_bytes) (new_cache-IsValid max_entries max_bytes)
