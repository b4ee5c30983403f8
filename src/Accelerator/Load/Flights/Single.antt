-- ===== src/Accelerator/Load/Flights/Single.antt =====
-- Whatever happens to a cache, one load runs for a key, and every call waits for one or has its result.
use sakullla_plugins.Base.{
  ℕ, ◌+◌, ◌≤◌, ◌<◌, true, false, Option, none, some, List, [], ◌∷◌, ◌≡◌, refl, sym, ap, subst, ◌∙◌,
  arith, if-elim, Bytes, bytes_eq_iff,
}
use sakullla_plugins.Base.Table.{
  Table, find, remove, AreDistinct, find-remove, AreDistinct-remove, remove_missing,
}
use sakullla_plugins.Accelerator.Cache.{
  Outcome, Cache, new_cache, Inspected, missing, fresh, swr, sie, inspect_locked, hit, miss,
}
use sakullla_plugins.Accelerator.Load.{
  ended, nth_running, start_load, new_flight, revalidate, join, answer_inspected, get_or_load,
  store_outcome, finish_call, close, with_refresh_group, Event, on_get, on_peek, on_get_or_load,
  on_delete, on_compare_and_delete, on_loaded, on_close, on_group_closed, on_refresh_group,
  load_ends, step, run,
}
use sakullla_plugins.Accelerator.Load.Flights.{
  IsSingle, IsBelow, is_running, ended-remove, is_running-ended, is_running-IsBelow, IsBelow-remove,
  IsBelow-weak, nth_running-is_running,
}
use sakullla_plugins.Accelerator.Load.Flights.Kept.{
  SameCalls, IsSingle-same, delete-SameCalls, store_outcome-SameCalls, inspect_locked-SameCalls,
  peek-SameCalls, get-SameCalls, compare_and_delete-SameCalls,
}

remove_pushed :
    (key : Bytes) (n : ℕ) (t : Table ℕ)
    → find key t ≡ none
    → remove key ((key, n) ∷ remove key t) ≡ t
unfolding remove
remove_pushed key n t h =
    ground (
      arith,
      bytes_eq_iff key key,
      remove_missing key t h,
      ap (remove key) (remove_missing key t h),
    )

module _ {V : Type 0} where
  abbrev StaysSingle : {A : Type 0} → Cache V × A → Type 0
  StaysSingle r = IsSingle r.0

  -- A new call is the newest flight, and its load runs or it has failed at once.
  new_flight-IsSingle :
      (key : Bytes) (c : Cache V)
      → IsSingle c
      → find key c.flights ≡ none
      → IsSingle (new_flight key c)
  unfolding new_flight start_load
  new_flight-IsSingle key c v new =
      if-elim IsSingle c.group_closed
        (λ _. record {
          same = v.same ∙ sym removed;
          distinct = subst AreDistinct (sym removed) v.distinct;
          below =
              subst (IsBelow (c.next_call + 1)) (sym removed)
                (IsBelow-weak c.next_call (c.next_call + 1) c.flights (omega arith) v.below);
          settled = λ i less. ground (arith, less, v.settled i, quiet i);
          unissued = λ i more. ground (arith, more, v.unissued i);
        })
        (λ _. record {
          same = ap (λ t. (key, c.next_call) ∷ t) (v.same ∙ sym (remove_missing key c.flights new));
          distinct = (
            ground (arith, find-remove key key c.flights, new),
            AreDistinct-remove key c.flights v.distinct,
          );
          below = (omega arith, IsBelow-remove c.next_call key c.flights v.below);
          settled = λ i less. ground (arith, less, v.settled i, quiet i, v.unissued i);
          unissued = λ i more. v.unissued i (omega (arith, more));
        })
    where
      removed : remove key ((key, c.next_call) ∷ remove key c.flights) ≡ c.flights
      removed = remove_pushed key c.next_call c.flights new

      quiet : (i : ℕ) → c.next_call ≤ i → is_running i c.running ≡ false
      quiet i h = rw v.same (is_running-IsBelow c.next_call i c.flights v.below h)

  -- A load that runs ends: its call gets its result.
  finish_call-IsSingle :
      (m : ℕ) (key : Bytes) (call : ℕ) (outcome : Outcome V) (c : Cache V)
      → IsSingle c
      → nth_running c.running m ≡ some (key, call)
      → IsSingle (finish_call key call outcome c)
  unfolding finish_call
  finish_call-IsSingle m key call outcome c v h = record {
    same =
        ap (ended call) v.same
        ∙ ended-remove c.next_call m c.flights key call v.distinct v.below in_flights;
    distinct = AreDistinct-remove key c.flights v.distinct;
    below = IsBelow-remove c.next_call key c.flights v.below;
    settled = λ i less. ground (arith, less, v.settled i less, is_running-ended i call c.running);
    unissued = λ i more. ground (arith, more, v.unissued i more, known.0);
  }
    where
      in_flights : nth_running c.flights m ≡ some (key, call)
      in_flights = subst (λ t. nth_running t m ≡ some (key, call)) v.same h

      known : (call < c.next_call) × (is_running call c.flights ≡ true)
      known = nth_running-is_running c.next_call m c.flights key call v.below in_flights

  join-IsSingle :
      (key : Bytes) (stale : Option V) (c : Cache V) (flight : Option ℕ)
      → IsSingle c
      → find key c.flights ≡ flight
      → IsSingle (join key stale c flight).0
  join-IsSingle key stale c none v h = new_flight-IsSingle key c v h
  join-IsSingle key stale c (some call) v h = v

  revalidate-IsSingle :
      (key : Bytes) (c : Cache V) (flight : Option ℕ)
      → IsSingle c
      → find key c.flights ≡ flight
      → IsSingle (revalidate key c flight)
  revalidate-IsSingle key c none v h = new_flight-IsSingle key c v h
  revalidate-IsSingle key c (some call) v h = v

  recount-IsSingle :
      (c : Cache V) → IsSingle c → {h m : ℕ} → IsSingle (record c { hits = h; misses = m })
  recount-IsSingle c v =
      IsSingle-same c _
        (record { running = refl; flights = refl; results = refl; next_call = refl }) v

  answer_inspected-IsSingle :
      (key : Bytes) (c : Cache V) (i : Inspected V)
      → IsSingle c
      → IsSingle (answer_inspected key (c, i)).0
  unfolding answer_inspected
  answer_inspected-IsSingle key c (fresh e) v = recount-IsSingle c v
  answer_inspected-IsSingle key c (swr e) v =
      revalidate-IsSingle key (hit c) _ (recount-IsSingle c v) refl
  answer_inspected-IsSingle key c (sie e) v =
      join-IsSingle key _ (miss c) _ (recount-IsSingle c v) refl
  answer_inspected-IsSingle key c missing v =
      join-IsSingle key _ (miss c) _ (recount-IsSingle c v) refl

  get_or_load-IsSingle :
      (key : Bytes) (now : ℕ) (c : Cache V) → IsSingle c → IsSingle (get_or_load key now c).0
  unfolding get_or_load
  get_or_load-IsSingle key now c v =
      if-elim StaysSingle c.closed (λ _. v)
        (λ _.
          answer_inspected-IsSingle key (inspect_locked key now c).0 (inspect_locked key now c).1
            (IsSingle-same c _ (inspect_locked-SameCalls key now c) v))

  load_ends-IsSingle :
      (n : ℕ) (outcome : Outcome V) (now : ℕ) (c : Cache V) (load : Option (Bytes × ℕ))
      → IsSingle c
      → nth_running c.running n ≡ load
      → IsSingle (load_ends outcome now c load)
  load_ends-IsSingle n outcome now c none v h = v
  load_ends-IsSingle n outcome now c (some (key, call)) v h =
      let stored = store_outcome key outcome now c in
      let kept : SameCalls c stored = store_outcome-SameCalls key outcome now c in
      finish_call-IsSingle n key call outcome stored (IsSingle-same c stored kept v)
        (ap (λ t. nth_running t n) kept.running ∙ h)

  step-IsSingle : (e : Event V) (c : Cache V) → IsSingle c → IsSingle (step e c)
  unfolding step with_refresh_group close
  step-IsSingle (on_get key now later) c v = IsSingle-same c _ (get-SameCalls key now later c) v
  step-IsSingle (on_peek key now) c v = IsSingle-same c _ (peek-SameCalls key now c) v
  step-IsSingle (on_get_or_load key now) c v = get_or_load-IsSingle key now c v
  step-IsSingle (on_delete key) c v = IsSingle-same c _ (delete-SameCalls key c) v
  step-IsSingle (on_compare_and_delete key match) c v =
      IsSingle-same c _ (compare_and_delete-SameCalls key match c) v
  step-IsSingle (on_loaded n outcome now) c v =
      load_ends-IsSingle n outcome now c (nth_running c.running n) v refl
  step-IsSingle on_close c v =
      IsSingle-same c _
        (record { running = refl; flights = refl; results = refl; next_call = refl }) v
  step-IsSingle on_group_closed c v =
      IsSingle-same c _
        (record { running = refl; flights = refl; results = refl; next_call = refl }) v
  step-IsSingle (on_refresh_group closed) c v =
      IsSingle-same c _
        (record { running = refl; flights = refl; results = refl; next_call = refl }) v

  run_keeps-IsSingle : (es : List (Event V)) (c : Cache V) → IsSingle c → IsSingle (run es c)
  unfolding run
  run_keeps-IsSingle [] c v = v
  run_keeps-IsSingle (e ∷ es) c v = run_keeps-IsSingle es (step e c) (step-IsSingle e c v)

  -- Whatever happens to a new cache, the loads that run are the flights, with one load for a key at
  -- most, and every call that was made has either a load that runs or a result, never both: no one
  -- waits for a call that nothing ends, and no call's channel is closed twice.
  pub run-IsSingle :
      (max_entries max_bytes : ℕ) (es : List (Event V))
      → IsSingle (run es (new_cache max_entries max_bytes))
  run-IsSingle max_entries max_bytes es = run_keeps-IsSingle es (new_cache max_entries max_bytes) (
      unfold new_cache in
      record {
        same = refl;
        distinct = tt;
        below = tt;
        settled = λ i less. absurd (omega (arith, less));
        unissued = λ i more. refl;
      })
