-- ===== src/Accelerator/Load/Flights/Kept.antt =====
-- The operations on entries leave the calls as they are.
use sakullla_plugins.Base.{
  ℕ, zero, suc, Bool, not, ◌&&◌, Option, none, some, ◌≡◌, refl, ◌∙◌, if-elim, ltb, leb,
  if◌then◌else◌, length, Bytes,
}
use sakullla_plugins.Base.Table.{find}
use sakullla_plugins.Accelerator.Cache.{
  closed_owner, permanent, transient, Loaded, CacheEntry, Outcome, succeeded, failed, Cache, get,
  get_entry, peek, inspect_entry, inspect_locked, remove_found, delete, delete_matching,
  compare_and_delete, set_locked, remove_locked, move_to_front, back, over, remove_back, trim,
  push_front,
}
use sakullla_plugins.Accelerator.Load.{store_outcome}
use sakullla_plugins.Accelerator.Load.Flights.{IsSingle}

pub record SameCalls {V : Type 0} (c d : Cache V) : Type 0 where
  pub running : d.running ≡ c.running
  pub flights : d.flights ≡ c.flights
  pub results : d.results ≡ c.results
  pub next_call : d.next_call ≡ c.next_call

module _ {V : Type 0} where
  pub IsSingle-same : (c d : Cache V) → SameCalls c d → IsSingle c → IsSingle d
  IsSingle-same c d s v = record {
    same = rw (s.running, s.flights) v.same;
    distinct = rw s.flights v.distinct;
    below = rw (s.flights, s.next_call) v.below;
    settled = rw (s.running, s.results, s.next_call) v.settled;
    unissued = rw (s.results, s.next_call) v.unissued;
  }

  SameCalls-trans : (c d e : Cache V) → SameCalls c d → SameCalls d e → SameCalls c e
  SameCalls-trans c d e s t = record {
    running = t.running ∙ s.running;
    flights = t.flights ∙ s.flights;
    results = t.results ∙ s.results;
    next_call = t.next_call ∙ s.next_call;
  }

  abbrev StaysSame : {A : Type 0} → Cache V → Cache V × A → Type 0
  StaysSame c r = SameCalls c r.0

  pub SameCalls-refl : (c : Cache V) → SameCalls c c
  SameCalls-refl c = record { running = refl; flights = refl; results = refl; next_call = refl }

  remove_locked-SameCalls :
      (key : Bytes) (e : CacheEntry V) (c : Cache V) → SameCalls c (remove_locked key e c)
  unfolding remove_locked
  remove_locked-SameCalls key e c = record {
    running = refl;
    flights = refl;
    results = refl;
    next_call = refl;
  }

  move_to_front-SameCalls :
      (key : Bytes) (e : CacheEntry V) (c : Cache V) → SameCalls c (move_to_front key e c)
  unfolding move_to_front
  move_to_front-SameCalls key e c = record {
    running = refl;
    flights = refl;
    results = refl;
    next_call = refl;
  }

  pub delete-SameCalls : (key : Bytes) (c : Cache V) → SameCalls c (delete key c)
  unfolding delete
  delete-SameCalls key c = go (find key c.entries)
    where
      go : (e : Option (CacheEntry V)) → SameCalls c (remove_found key c e)
      go none = SameCalls-refl c
      go (some e) = remove_locked-SameCalls key e c

  remove_back-SameCalls :
      (c : Cache V) (last : Option (Bytes × CacheEntry V)) → SameCalls c (remove_back c last)
  remove_back-SameCalls c none = SameCalls-refl c
  remove_back-SameCalls c (some (key, e)) = remove_locked-SameCalls key e c

  trim-SameCalls : (rounds : ℕ) (c : Cache V) → SameCalls c (trim rounds c)
  unfolding trim
  trim-SameCalls zero c = SameCalls-refl c
  trim-SameCalls (suc rounds) c =
      if-elim (SameCalls c) (over c)
        (λ _.
          SameCalls-trans c (remove_back c (back c.entries)) _
            (remove_back-SameCalls c (back c.entries))
            (trim-SameCalls rounds (remove_back c (back c.entries))))
        (λ _. SameCalls-refl c)

  set_locked-SameCalls :
      (key : Bytes) (l : Loaded V) (now : ℕ) (c : Cache V) → SameCalls c (set_locked key l now c)
  unfolding set_locked
  set_locked-SameCalls key l now c =
      let pushed = push_front key l now (delete key c) in
      SameCalls-trans c pushed _
        (SameCalls-trans c (delete key c) pushed (delete-SameCalls key c) (
          unfold push_front in
          record { running = refl; flights = refl; results = refl; next_call = refl }))
        (trim-SameCalls (length pushed.entries) pushed)

  pub store_outcome-SameCalls :
      (key : Bytes) (outcome : Outcome V) (now : ℕ) (c : Cache V)
      → SameCalls c (store_outcome key outcome now c)
  unfolding store_outcome
  store_outcome-SameCalls key (failed permanent) now c = delete-SameCalls key c
  store_outcome-SameCalls key (failed closed_owner) now c = SameCalls-refl c
  store_outcome-SameCalls key (failed transient) now c = SameCalls-refl c
  store_outcome-SameCalls key (succeeded l) now c =
      if-elim (SameCalls c) (not c.closed && (ltb 0 l.ttl && leb l.size c.max_bytes))
        (λ _. set_locked-SameCalls key l now c) (λ _. SameCalls-refl c)

  pub inspect_locked-SameCalls :
      (key : Bytes) (now : ℕ) (c : Cache V) → SameCalls c (inspect_locked key now c).0
  unfolding inspect_entry
  inspect_locked-SameCalls key now c = go (find key c.entries)
    where
      go : (e : Option (CacheEntry V)) → SameCalls c (inspect_entry key now c e).0
      go none = SameCalls-refl c
      go (some e) =
          let front : SameCalls c (move_to_front key e c) = move_to_front-SameCalls key e c in
          if-elim (StaysSame c) (ltb now e.expires_at) (λ _. front)
            (λ _.
              if-elim (StaysSame c) (ltb now e.swr_until) (λ _. front)
                (λ _.
                  if-elim (StaysSame c) (ltb now e.sie_until) (λ _. front)
                    (λ _. remove_locked-SameCalls key e c)))

  pub peek-SameCalls : (key : Bytes) (now : ℕ) (c : Cache V) → SameCalls c (peek key now c).0
  unfolding peek
  peek-SameCalls key now c =
      if-elim (StaysSame c) c.closed (λ _. SameCalls-refl c)
        (λ _. inspect_locked-SameCalls key now c)

  get_entry-SameCalls :
      (key : Bytes) (now later : ℕ) (c : Cache V) (e : Option (CacheEntry V))
      → SameCalls c (get_entry key now later c e).0
  unfolding get_entry
  get_entry-SameCalls key now later c none = record {
    running = refl;
    flights = refl;
    results = refl;
    next_call = refl;
  }
  get_entry-SameCalls key now later c (some e) =
      if-elim (StaysSame c) (ltb now e.expires_at)
        (λ _. counted (move_to_front key e c) (move_to_front-SameCalls key e c))
        (λ _. counted (if ltb later e.sie_until then c else remove_locked key e c) (
          if-elim (SameCalls c) (ltb later e.sie_until) (λ _. SameCalls-refl c)
            (λ _. remove_locked-SameCalls key e c)))
    where
      counted :
          (d : Cache V)
          → SameCalls c d
          → {h m : ℕ} → SameCalls c (record d { hits = h; misses = m })
      counted d s = record {
        running = s.running;
        flights = s.flights;
        results = s.results;
        next_call = s.next_call;
      }

  pub get-SameCalls :
      (key : Bytes) (now later : ℕ) (c : Cache V) → SameCalls c (get key now later c).0
  unfolding get
  get-SameCalls key now later c =
      if-elim (StaysSame c) c.closed (λ _. SameCalls-refl c)
        (λ _. get_entry-SameCalls key now later c (find key c.entries))

  pub compare_and_delete-SameCalls :
      (key : Bytes) (match : V → Bool) (c : Cache V)
      → SameCalls c (compare_and_delete key match c).0
  unfolding compare_and_delete
  compare_and_delete-SameCalls key match c = go (find key c.entries)
    where
      go : (e : Option (CacheEntry V)) → SameCalls c (delete_matching key match c e).0
      go none = SameCalls-refl c
      go (some e) =
          if-elim (StaysSame c) (match e.value) (λ _. remove_locked-SameCalls key e c)
            (λ _. SameCalls-refl c)
