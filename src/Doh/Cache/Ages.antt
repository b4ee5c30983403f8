-- ===== src/Doh/Cache/Ages.antt =====
-- The order numbers of the cache against the calls that stored its records: `Put` evicts what was
-- stored first.
use sakullla_plugins.Base.{
  ℕ, suc, ◌+◌, ◌≤◌, ◌<◌, ◌%◌, ◌^◌, Bool, true, false, ◌||◌, Option, none, some, List, [], ◌∷◌,
  if◌then◌else◌, ◌≡◌, ◌≢◌, refl, sym, ap, ◌∙◌, if-elim, ◌⊎◌, inl, inr, arith, Bool-cases, ltb, leb,
  length, subst, Bytes, bytes_eq, bytes_eq_iff, Result, ok, err, panic,
}
use sakullla_plugins.Doh.Cache.{
  CacheError, CacheEntry, MemoryCacheRecord, MemoryCache, lookup, oldest_of, evict, forget,
  entry_size, store, put, room_for, put_in_room, get, get_found, reset, new_memory_cache,
}
use sakullla_plugins.Doh.Cache.Table.{lookup-delete}
use sakullla_plugins.Doh.Cache.Victim.{older}
use sakullla_plugins.Doh.Cache.Valid.{make_room-keeps}
use sakullla_plugins.Doh.Cache.Eviction.{evict-subset, put-EvictsOldest}
use sakullla_plugins.Doh.Cache.Calls.{
  Call, call_get, call_put, call_reset, run_calls, run_calls-IsValid,
}

-- The number of the last call that stored a record of a key, of calls that are numbered from `n + 1`;
-- `age` holds the numbers of the calls before.
abbrev pub aged : Bytes → ℕ → Result CacheError (Unit {0}) → (Bytes → ℕ) → Bytes → ℕ
aged key n (ok tt) age j = if bytes_eq key j then n else age j
aged key n (err e) age j = age j
aged key n panic age j = age j

unfoldable pub stored_at_call : ℕ → (Bytes → ℕ) → List Call → MemoryCache → Bytes → ℕ
stored_at_call n age [] c = age
stored_at_call n age (call_get ctx key now ∷ cs) c =
    stored_at_call (n + 1) age cs (get ctx key now c).0
stored_at_call n age (call_put ctx key entry ∷ cs) c =
    stored_at_call (n + 1) (aged key (n + 1) (put ctx key entry c).1 age) cs (put ctx key entry c).0
stored_at_call n age (call_reset ctx ∷ cs) c = stored_at_call (n + 1) age cs (reset ctx c).0

-- Order numbers and calls order the records in the same way.
record Aged (n : ℕ) (age : Bytes → ℕ) (c : MemoryCache) : Type 0 where
  in_calls : c.order ≤ n
  past :
      (j : Bytes) (r : MemoryCacheRecord)
      → lookup j c.entries ≡ some r
      → (r.order ≤ c.order) × (age j ≤ n)
  agrees :
      (j i : Bytes) (r s : MemoryCacheRecord)
      → lookup j c.entries ≡ some r
      → lookup i c.entries ≡ some s
      → j ≢ i
      → ((r.order < s.order) × (age j < age i)) ⊎ ((s.order < r.order) × (age i < age j))

abbrev Subset : MemoryCache → MemoryCache → Type 0
Subset c d =
    (j : Bytes) (r : MemoryCacheRecord) → lookup j d.entries ≡ some r → lookup j c.entries ≡ some r

Aged-subset :
    (n : ℕ) (age : Bytes → ℕ) (c d : MemoryCache)
    → Aged n age c
    → Subset c d
    → c.order ≤ d.order
    → d.order ≤ n + 1
    → Aged (n + 1) age d
Aged-subset n age c d a sub grows small = record {
  in_calls = small;
  past = λ j r h. ground (arith, a.past j r (sub j r h), grows);
  agrees = λ j i r s h k ne. a.agrees j i r s (sub j r h) (sub i s k) ne;
}

unstored :
    (key : Bytes) (entry : CacheEntry) (d : MemoryCache) (i : Bytes)
    → i ≢ key
    → lookup i (store key entry d).entries ≡ lookup i d.entries
unfolding store lookup
unstored key entry d i other = ground (arith, lookup-delete i key d.entries, bytes_eq_iff key i)

stored_order :
    (key j : Bytes) (entry : CacheEntry) (d : MemoryCache) (r : MemoryCacheRecord)
    → bytes_eq key j ≡ true
    → lookup j (store key entry d).entries ≡ some r
    → r.order ≡ d.order
unfolding store lookup
stored_order key j entry d r same = rw same (λ h. cc h)

order-store :
    (key : Bytes) (entry : CacheEntry) (d : MemoryCache) → (store key entry d).order ≡ d.order
unfolding store
order-store key entry d = refl

Aged-store :
    (n : ℕ) (age : Bytes → ℕ) (key : Bytes) (entry : CacheEntry) (c d : MemoryCache)
    → Aged n age c
    → Subset c d
    → d.order ≡ c.order + 1
    → Aged (n + 1) (aged key (n + 1) (ok tt) age) (store key entry d)
Aged-store n age key entry c d a sub next = record {
  in_calls = rw (order-store key entry d) (ground (arith, a.in_calls, next));
  past = past';
  agrees = agrees';
}
  where
    new :
        (j : Bytes) (r : MemoryCacheRecord)
        → lookup j (store key entry d).entries ≡ some r
        → ((bytes_eq key j ≡ true) × (r.order ≡ c.order + 1))
          ⊎ ((bytes_eq key j ≡ false) × (lookup j c.entries ≡ some r))
    new j r h = elim (Bool-cases (bytes_eq key j)) [
      | inl same ↦ inl (same, stored_order key j entry d r same h ∙ next)
      | inr other ↦ inr (
        other,
        sub j r (sym (unstored key entry d j (λ e. ground (arith, bytes_eq_iff key j))) ∙ h),
      )
    ]

    past' :
        (j : Bytes) (r : MemoryCacheRecord)
        → lookup j (store key entry d).entries ≡ some r
        → (r.order ≤ (store key entry d).order) × (aged key (n + 1) (ok tt) age j ≤ n + 1)
    past' j r h = rw (order-store key entry d) (elim (new j r h) [
      | inl (same, order) ↦ ground (arith, same, order, next)
      | inr (other, old) ↦ ground (arith, other, a.past j r old, next)
    ])

    agrees' :
        (j i : Bytes) (r s : MemoryCacheRecord)
        → lookup j (store key entry d).entries ≡ some r
        → lookup i (store key entry d).entries ≡ some s
        → j ≢ i
        → ((r.order < s.order) × (aged key (n + 1) (ok tt) age j < aged key (n + 1) (ok tt) age i))
          ⊎ ((s.order < r.order)
              × (aged key (n + 1) (ok tt) age i < aged key (n + 1) (ok tt) age j))
    agrees' j i r s h k ne = elim (new j r h) [
      | inl (same, order) ↦ elim (new i s k) [
        | inl (same', order') ↦ absurd (ground (arith, bytes_eq_iff key i, bytes_eq_iff key j))
        | inr (other', old') ↦ inr (ground (arith, same, order, other', a.past i s old'))
      ]
      | inr (other, old) ↦ elim (new i s k) [
        | inl (same', order') ↦ inl (ground (arith, same', order', other, a.past j r old))
        | inr (other', old') ↦ rw (other, other') (a.agrees j i r s old old' ne)
      ]
    ]

-- Between the cache and the one with room, records go and the order number is the next.
room-Subset :
    (key : Bytes) (entry : CacheEntry) (c : MemoryCache)
    → Subset c (room_for key entry (forget key c)).0
      × ((room_for key entry (forget key c)).0.order ≡ (c.order + 1) % 2 ^ 64)
room-Subset key entry c =
    make_room-keeps (λ d. Subset c d × (d.order ≡ (c.order + 1) % 2 ^ 64))
      (λ d h _. evicted d (oldest_of d.entries).0 h) (suc (length (forget key c).entries))
      (entry_size key entry) (forget key c) (forgotten, unfold forget in refl)
  where
    evicted :
        (d : MemoryCache) (k : Bytes)
        → Subset c d × (d.order ≡ (c.order + 1) % 2 ^ 64)
        → Subset c (evict k d) × ((evict k d).order ≡ (c.order + 1) % 2 ^ 64)
    evicted d k h = (λ j r e. h.0 j r (evict-subset j k r d e).0, unfold evict in h.1)

    forgotten : Subset c (forget key c)
    forgotten j r e = (evict-subset j key r c (unfold forget evict in e)).0

put-Aged :
    (n : ℕ) (age : Bytes → ℕ) (ctx : Option CacheError) (key : Bytes) (entry : CacheEntry)
    (c : MemoryCache)
    → n + 1 < 2 ^ 64
    → Aged n age c
    → Aged (n + 1) (aged key (n + 1) (put ctx key entry c).1 age) (put ctx key entry c).0
unfolding put
put-Aged n age (some e) key entry c small a =
    Aged-subset n age c c a (λ j r h. h) (omega arith) (omega (arith, a.in_calls))
put-Aged n age none key entry c small a =
    if-elim
      (λ (p : MemoryCache × Result CacheError (Unit {0})).
        Aged (n + 1) (aged key (n + 1) p.1 age) p.0)
      (bytes_eq key [] || ltb c.max_bytes (length entry.response))
      (λ refused. Aged-subset n age c c a (λ j r h. h) (omega arith) (omega (arith, a.in_calls)))
      (λ passed.
        let (sub, next) = room-Subset key entry c in
        go (room_for key entry (forget key c)) sub (next ∙ unwrapped c.order a.in_calls))
  where
    unwrapped : (k : ℕ) → k ≤ n → (k + 1) % 2 ^ 64 ≡ k + 1
    unwrapped k e = ground (arith, e, small)

    go :
        (m : MemoryCache × Bool)
        → Subset c m.0
        → m.0.order ≡ c.order + 1
        → Aged
            (n + 1)
            (aged key (n + 1) (put_in_room key entry m).1 age)
            (put_in_room key entry m).0
    go (d, true) sub next = Aged-store n age key entry c d a sub next
    go (d, false) sub next =
        Aged-subset n age c d a sub (omega (arith, next)) (omega (arith, next, a.in_calls))

get-Aged :
    (n : ℕ) (age : Bytes → ℕ) (ctx : Option CacheError) (key : Bytes) (now : ℕ) (c : MemoryCache)
    → Aged n age c
    → Aged (n + 1) age (get ctx key now c).0
unfolding get evict
get-Aged n age (some e) key now c a =
    Aged-subset n age c c a (λ j r h. h) (omega arith) (omega (arith, a.in_calls))
get-Aged n age none key now c a = go (lookup key c.entries)
  where
    same : Aged (n + 1) age c
    same = Aged-subset n age c c a (λ j r h. h) (omega arith) (omega (arith, a.in_calls))

    go : (o : Option MemoryCacheRecord) → Aged (n + 1) age (get_found key now c o).0
    go none = same
    go (some r) = elim (Bool-cases (leb r.entry.expires_at now)) [
      | inl expired ↦ rw expired (
          Aged-subset n age c (evict key c) a (λ j s e. (evict-subset j key s c e).0) (omega arith)
            (omega (arith, a.in_calls)))
      | inr live ↦ rw live same
    ]

reset-Aged :
    (n : ℕ) (age : Bytes → ℕ) (ctx : Option CacheError) (c : MemoryCache)
    → Aged n age c
    → Aged (n + 1) age (reset ctx c).0
unfolding reset lookup
reset-Aged n age (some e) c a =
    Aged-subset n age c c a (λ j r h. h) (omega arith) (omega (arith, a.in_calls))
reset-Aged n age none c a =
    Aged-subset n age c _ a (λ j r h. cc h) (omega arith) (omega (arith, a.in_calls))

renumber : {age : Bytes → ℕ} {c : MemoryCache} (m n : ℕ) → m ≡ n → Aged m age c → Aged n age c
renumber {age} {c} m n e a = subst (λ k. Aged k age c) e a

run_calls-Aged :
    (cs : List Call) (n : ℕ) (age : Bytes → ℕ) (c : MemoryCache)
    → n + length cs < 2 ^ 64
    → Aged n age c
    → Aged (n + length cs) (stored_at_call n age cs c) (run_calls cs c)
unfolding run_calls stored_at_call
run_calls-Aged [] n age c small a = renumber n _ (omega arith) a
run_calls-Aged (call_get ctx key now ∷ cs) n age c small a =
    renumber (n + 1 + length cs) _ (omega arith)
      (run_calls-Aged cs (n + 1) age _ (omega (arith, small)) (get-Aged n age ctx key now c a))
run_calls-Aged (call_put ctx key entry ∷ cs) n age c small a =
    renumber (n + 1 + length cs) _ (omega arith) (
      run_calls-Aged cs (n + 1) _ _ (omega (arith, small))
        (put-Aged n age ctx key entry c (omega (arith, small)) a))
run_calls-Aged (call_reset ctx ∷ cs) n age c small a =
    renumber (n + 1 + length cs) _ (omega arith)
      (run_calls-Aged cs (n + 1) age _ (omega (arith, small)) (reset-Aged n age ctx c a))

new-Aged : (max_entries max_bytes : ℕ) → Aged 0 (λ _. 0) (new_memory_cache max_entries max_bytes)
unfolding new_memory_cache lookup
new-Aged max_entries max_bytes = record {
  in_calls = omega arith;
  past = λ j r h. cc h;
  agrees = λ j i r s h k ne. cc h;
}

older-decides :
    (m n a b : ℕ) (j i : Bytes)
    → older (j, m) (i, n) ≡ true
    → ((m < n) × (a < b)) ⊎ ((n < m) × (b < a))
    → a < b
unfolding older
older-decides m n a b j i o (inl (x, y)) = y
older-decides m n a b j i o (inr (x, y)) = ground (arith, o, x)

-- After any calls on a new cache, fewer than 2 ^ 64 of them, a `Put` with a live context evicts what
-- was stored first: where a record of another key is not there as before and a record of another key
-- is there, the first key has no record, the second record is there unchanged, and the last
-- call that stored the first key came before the last call that stored the second.
pub put-evicts_first_stored :
    (max_entries max_bytes : ℕ) (cs : List Call) (key j i : Bytes) (entry : CacheEntry)
    (r s : MemoryCacheRecord)
    → let c = run_calls cs (new_memory_cache max_entries max_bytes) in
      let d = (put none key entry c).0 in
      let age = stored_at_call 0 (λ _. 0) cs (new_memory_cache max_entries max_bytes) in
      length cs < 2 ^ 64
      → j ≢ key
      → i ≢ key
      → lookup j c.entries ≡ some r
      → lookup j d.entries ≢ some r
      → lookup i d.entries ≡ some s
      → (lookup j d.entries ≡ none) × (lookup i c.entries ≡ some s) × (age j < age i)
put-evicts_first_stored max_entries max_bytes cs key j i entry r s small nj ni stored gone kept =
    let new = new_memory_cache max_entries max_bytes in
    let evicts =
      put-EvictsOldest key entry (run_calls cs new) (run_calls-IsValid max_entries max_bytes cs) in
    let aged_run =
      run_calls-Aged cs 0 (λ _. 0) new (omega (arith, small)) (new-Aged max_entries max_bytes) in
    let left = evicts.subset i s ni kept in
    let (missing, before) = evicts.oldest_gone j i r s nj ni stored gone kept in
    (
      missing,
      left,
      older-decides r.order s.order _ _ j i before (
          aged_run.agrees j i r s stored left
            (λ e. cc (ap (λ k. lookup k (put none key entry (run_calls cs new)).0.entries) e))),
    )
