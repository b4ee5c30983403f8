-- ===== src/Accelerator/Load/Answers.antt =====
-- What `GetOrLoad` answers, in terms of the entry and the times.
use sakullla_plugins.Base.{
  ◌∷◌, true, false, if-elim, sym, ap, ◌∙◌, ℕ, ◌≤◌, ◌<◌, Option, none, some, ◌≡◌, ◌⊎◌, refl, inl,
  inr, arith, Bool-cases, ltb, Bytes, bytes_eq_refl,
}
use sakullla_plugins.Base.Table.{find, find-remove, remove}
use sakullla_plugins.Accelerator.Cache.{
  failed, closed_owner, CacheEntry, Cache, Inspected, missing, fresh, swr, sie, inspect_entry,
  inspect_locked, hit, miss, move_to_front, remove_locked,
}
use sakullla_plugins.Accelerator.Load.{
  Answer, rejected, served, waits, start_load, new_flight, revalidate, join, answer_inspected,
  get_or_load,
}

module _ {V : Type 0} where
  -- From the cache `c` to `c'`, the call of a key: the one that loads already, or else a new one, which
  -- now runs as the flight of the key, or which a closed refresh group has failed at once.
  abbrev pub IsCalled : Bytes → ℕ → Cache V → Cache V → Type 0
  IsCalled key call c c' =
      ((find key c.flights ≡ some call)
        × (c'.flights ≡ c.flights)
        × (c'.running ≡ c.running)
        × (c'.results ≡ c.results))
      ⊎ ((find key c.flights ≡ none)
          × (call ≡ c.next_call)
          × (((c.group_closed ≡ false)
                × (find key c'.flights ≡ some call)
                × (c'.running ≡ (key, call) ∷ c.running)
                × (c'.results ≡ c.results))
              ⊎ ((c.group_closed ≡ true)
                  × (find key c'.flights ≡ none)
                  × (c'.running ≡ c.running)
                  × (c'.results ≡ (call, failed closed_owner) ∷ c.results))))

  -- A stale value may be used only inside the stale-if-error window.
  abbrev pub MayUse : ℕ → Option (CacheEntry V) → Option V → Type 0
  MayUse now found none = (e : CacheEntry V) → found ≡ some e → e.sie_until ≤ now
  MayUse now found (some v) =
      (e : CacheEntry V) × (found ≡ some e)
      × (e.value ≡ v)
      × (e.expires_at ≤ now)
      × (e.swr_until ≤ now)
      × (now < e.sie_until)

  -- What an answer says of the entry that was found and of the caches before and after.
  abbrev pub Answers : Bytes → ℕ → Option (CacheEntry V) → Cache V → Cache V → Answer V → Type 0
  Answers key now found c c' rejected = c.closed ≡ true
  Answers key now found c c' (served v) =
      (e : CacheEntry V) × (found ≡ some e)
      × (e.value ≡ v)
      × ((now < e.expires_at)
          ⊎ ((e.expires_at ≤ now) × (now < e.swr_until) × ((call : ℕ) × IsCalled key call c c')))
  Answers key now found c c' (waits call stale) = IsCalled key call c c' × MayUse now found stale

  -- Two caches with the same calls.
  record SameCalls (c d : Cache V) : Type 0 where
    flights : d.flights ≡ c.flights
    running : d.running ≡ c.running
    results : d.results ≡ c.results
    next_call : d.next_call ≡ c.next_call
    group_closed : d.group_closed ≡ c.group_closed

  inspect_entry-SameCalls :
      (key : Bytes) (now : ℕ) (c : Cache V) (found : Option (CacheEntry V))
      → SameCalls c (inspect_entry key now c found).0
  unfolding inspect_entry move_to_front remove_locked
  inspect_entry-SameCalls key now c none = all_same
    where
      all_same : SameCalls c c
      all_same = record {
        flights = refl;
        running = refl;
        results = refl;
        next_call = refl;
        group_closed = refl;
      }
  inspect_entry-SameCalls key now c (some e) =
      if-elim (λ (r : Cache V × Inspected V). SameCalls c r.0) (ltb now e.expires_at) (λ _. moved)
        (λ _.
          if-elim (λ (r : Cache V × Inspected V). SameCalls c r.0) (ltb now e.swr_until)
            (λ _. moved)
            (λ _.
              if-elim (λ (r : Cache V × Inspected V). SameCalls c r.0) (ltb now e.sie_until)
                (λ _. moved) (λ _. removed)))
    where
      moved : SameCalls c (move_to_front key e c)
      moved = record {
        flights = refl;
        running = refl;
        results = refl;
        next_call = refl;
        group_closed = refl;
      }

      removed : SameCalls c (remove_locked key e c)
      removed = record {
        flights = refl;
        running = refl;
        results = refl;
        next_call = refl;
        group_closed = refl;
      }

  SameCalls-IsCalled :
      (key : Bytes) (call : ℕ) (c d e : Cache V)
      → SameCalls c d
      → IsCalled key call d e
      → IsCalled key call c e
  SameCalls-IsCalled key call c d e s (inl (flies, flights, running, results)) = inl (
    ap (find key) (sym s.flights) ∙ flies,
    flights ∙ s.flights,
    running ∙ s.running,
    results ∙ s.results,
  )
  SameCalls-IsCalled key call c d e s
        (inr (idle, is, inl (running_group, flies, running, results))) =
      inr (
        ap (find key) (sym s.flights) ∙ idle,
        is ∙ s.next_call,
        inl (
          sym s.group_closed ∙ running_group,
          flies,
          running ∙ ap (λ r. (key, call) ∷ r) s.running,
          results ∙ s.results,
        ),
      )
  SameCalls-IsCalled key call c d e s (inr (idle, is, inr (shut, gone, running, results))) = inr (
    ap (find key) (sym s.flights) ∙ idle,
    is ∙ s.next_call,
    inr (
      sym s.group_closed ∙ shut,
      gone,
      running ∙ s.running,
      results ∙ ap (λ r. (call, failed closed_owner) ∷ r) s.results,
    ),
  )

  new_flight-IsCalled :
      (key : Bytes) (c : Cache V)
      → find key c.flights ≡ none
      → IsCalled key c.next_call c (new_flight key c)
  unfolding new_flight start_load
  new_flight-IsCalled key c idle =
      if-elim (λ (r : Cache V). IsCalled key c.next_call c r) c.group_closed
        (λ shut. inr (idle, refl, inr (shut, gone, refl, refl)))
        (λ running_group. inr (idle, refl, inl (running_group, flies, refl, refl)))
    where
      flies : find key ((key, c.next_call) ∷ remove key c.flights) ≡ some c.next_call
      flies = unfold find in simp (bytes_eq_refl key) refl

      gone : find key (remove key ((key, c.next_call) ∷ remove key c.flights)) ≡ none
      gone =
          find-remove key key ((key, c.next_call) ∷ remove key c.flights)
          ∙ simp (bytes_eq_refl key) refl

  -- `inspectLocked` names the window that the time is in.
  abbrev IsInspected : ℕ → Option (CacheEntry V) → Inspected V → Type 0
  IsInspected now found missing = (e : CacheEntry V) → found ≡ some e → e.sie_until ≤ now
  IsInspected now found (fresh e) = (found ≡ some e) × (now < e.expires_at)
  IsInspected now found (swr e) = (found ≡ some e) × (e.expires_at ≤ now) × (now < e.swr_until)
  IsInspected now found (sie e) =
      (found ≡ some e) × (e.expires_at ≤ now) × (e.swr_until ≤ now) × (now < e.sie_until)

  inspect_entry-IsInspected :
      (key : Bytes) (now : ℕ) (c : Cache V) (found : Option (CacheEntry V))
      → IsInspected now found (inspect_entry key now c found).1
  unfolding inspect_entry
  inspect_entry-IsInspected key now c none = λ e h. cc
  inspect_entry-IsInspected key now c (some e) = elim (Bool-cases (ltb now e.expires_at)) [
    | inl early ↦ rw early (refl, ground arith)
    | inr late ↦ rw late (elim (Bool-cases (ltb now e.swr_until)) [
      | inl in_swr ↦ rw in_swr (refl, ground arith, ground arith)
      | inr past_swr ↦ rw past_swr (elim (Bool-cases (ltb now e.sie_until)) [
        | inl in_sie ↦ rw in_sie (refl, ground arith, ground arith, ground arith)
        | inr past_sie ↦ rw past_sie (λ d h. ground arith)
      ])
    ])
  ]

  join-Answers :
      (key : Bytes) (now : ℕ) (found : Option (CacheEntry V)) (stale : Option V) (c : Cache V)
      (flight : Option ℕ)
      → find key c.flights ≡ flight
      → MayUse now found stale
      → Answers key now found c (join key stale c flight).0 (join key stale c flight).1
  join-Answers key now found stale c none idle may = (new_flight-IsCalled key c idle, may)
  join-Answers key now found stale c (some call) flies may = (inl (flies, refl, refl, refl), may)

  revalidate-IsCalled :
      (key : Bytes) (c : Cache V) (flight : Option ℕ)
      → find key c.flights ≡ flight
      → (call : ℕ) × IsCalled key call c (revalidate key c flight)
  revalidate-IsCalled key c none idle = (c.next_call, new_flight-IsCalled key c idle)
  revalidate-IsCalled key c (some call) flies = (call, inl (flies, refl, refl, refl))

  Answers-before :
      (key : Bytes) (now : ℕ) (found : Option (CacheEntry V)) (c d e : Cache V) (answer : Answer V)
      → SameCalls c d
      → d.closed ≡ c.closed
      → Answers key now found d e answer
      → Answers key now found c e answer
  Answers-before key now found c d e rejected s same h = sym same ∙ h
  Answers-before key now found c d e (served v) s same (entry, is, value, inl early) =
      (entry, is, value, inl early)
  Answers-before key now found c d e (served v) s same
        (entry, is, value, inr (late, early, (call, called))) =
      (entry, is, value, inr (late, early, (call, SameCalls-IsCalled key call c d e s called)))
  Answers-before key now found c d e (waits call stale) s same (called, may) =
      (SameCalls-IsCalled key call c d e s called, may)

  answer_inspected-Answers :
      (key : Bytes) (now : ℕ) (found : Option (CacheEntry V)) (c : Cache V) (i : Inspected V)
      → IsInspected now found i
      → Answers key now found c (answer_inspected key (c, i)).0 (answer_inspected key (c, i)).1
  unfolding answer_inspected
  answer_inspected-Answers key now found c (fresh e) (same, early) = (e, same, refl, inl early)
  answer_inspected-Answers key now found c (swr e) (same, late, early) =
      (e, same, refl, inr (late, early, revalidate-IsCalled key (hit c) _ refl))
  answer_inspected-Answers key now found c (sie e) (same, late, later, early) =
      join-Answers key now found (some e.value) (miss c) _ refl (e, same, refl, late, later, early)
  answer_inspected-Answers key now found c missing past =
      join-Answers key now found none (miss c) _ refl past

  inspect_entry_closed :
      (key : Bytes) (now : ℕ) (c : Cache V) (found : Option (CacheEntry V))
      → (inspect_entry key now c found).0.closed ≡ c.closed
  unfolding inspect_entry move_to_front remove_locked
  inspect_entry_closed key now c none = refl
  inspect_entry_closed key now c (some e) =
      if-elim (λ (r : Cache V × Inspected V). r.0.closed ≡ c.closed) (ltb now e.expires_at)
        (λ _. refl)
        (λ _.
          if-elim (λ (r : Cache V × Inspected V). r.0.closed ≡ c.closed) (ltb now e.swr_until)
            (λ _. refl)
            (λ _.
              if-elim (λ (r : Cache V × Inspected V). r.0.closed ≡ c.closed) (ltb now e.sie_until)
                (λ _. refl) (λ _. refl)))

  -- `GetOrLoad` returns ErrClosed exactly of a closed cache, which it leaves as it is. Of another it
  -- returns a value at once only of an entry that is fresh, or inside its stale-while-revalidate window; then, and wherever it waits, the key has
  -- the one call that loaded it already, or where none did, a new call, which runs as the key's flight
  -- or, with a closed refresh group, has failed at once. It waits with a stale value to fall back on
  -- exactly when there is an entry inside its stale-if-error window.
  pub get_or_load-Answers :
      (key : Bytes) (now : ℕ) (c : Cache V)
      → let (c', answer) = get_or_load key now c in
        ((c.closed ≡ true) × (answer ≡ rejected) × (c' ≡ c))
        ⊎ ((c.closed ≡ false) × Answers key now (find key c.entries) c c' answer)
  unfolding get_or_load
  get_or_load-Answers key now c = elim (Bool-cases c.closed) [
    | inl shut ↦ simp shut (inl (refl, refl, refl))
    | inr live ↦ simp live (
        inr (
          refl,
          Answers-before key now (find key c.entries) c (inspect_locked key now c).0
              (answer_inspected key (inspect_locked key now c)).0
              (answer_inspected key (inspect_locked key now c)).1
              (inspect_entry-SameCalls key now c (find key c.entries))
              (inspect_entry_closed key now c (find key c.entries))
              (answer_inspected-Answers key now (find key c.entries) (inspect_locked key now c).0
                (inspect_locked key now c).1
                (inspect_entry-IsInspected key now c (find key c.entries))),
        ))
  ]
