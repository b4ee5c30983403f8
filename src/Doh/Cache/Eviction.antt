-- ===== src/Doh/Cache/Eviction.antt =====
-- What a `Put` removes: the records with the smallest order numbers, before all others.
use sakullla_plugins.Base.{
  ℕ, suc, Bool, true, false, ◌||◌, none, some, [], if◌then◌else◌, ◌≡◌, ◌≢◌, refl, sym, ◌∙◌, ◌⊎◌,
  inl, inr, arith, Bool-cases, ltb, length, Bytes, bytes_eq, bytes_eq_iff,
}
use sakullla_plugins.Doh.Cache.{
  CacheEntry, MemoryCacheRecord, MemoryCache, lookup, oldest_from, oldest_of, evict, make_room,
  forget, entry_size, store, put, room_for, put_in_room,
}
use sakullla_plugins.Doh.Cache.Table.{lookup-delete}
use sakullla_plugins.Doh.Cache.Victim.{older, oldest_of_lem}
use sakullla_plugins.Doh.Cache.Valid.{IsValid, evict-IsValid, forget-IsValid, make_room-keeps}

-- Cache `d` is `c` less some records, each older than all that are left.
pub record Trims (c d : MemoryCache) : Type 0 where
  pub subset :
      (j : Bytes) (r : MemoryCacheRecord)
      → lookup j d.entries ≡ some r
      → lookup j c.entries ≡ some r
  pub oldest_gone :
      (j : Bytes) (r : MemoryCacheRecord)
      → lookup j c.entries ≡ some r
      → (lookup j d.entries ≡ some r)
        ⊎ ((lookup j d.entries ≡ none)
            × ((i : Bytes) (s : MemoryCacheRecord)
                → lookup i d.entries ≡ some s
                → older (j, r.order) (i, s.order) ≡ true))

lookup-evict :
    (j k : Bytes) (c : MemoryCache)
    → lookup j (evict k c).entries ≡ (if bytes_eq k j then none else lookup j c.entries)
unfolding evict
lookup-evict j k c = lookup-delete j k c.entries

pub evict-subset :
    (j k : Bytes) (r : MemoryCacheRecord) (c : MemoryCache)
    → lookup j (evict k c).entries ≡ some r
    → (lookup j c.entries ≡ some r) × (j ≢ k)
evict-subset j k r c h = elim (Bool-cases (bytes_eq k j)) [
  | inl same ↦ absurd (cc (lookup-evict j k c))
  | inr other ↦ (ground (arith, lookup-evict j k c), λ e. ground (arith, bytes_eq_iff k j))
]

Trims-evict :
    (c d : MemoryCache)
    → IsValid d
    → (oldest_of d.entries).0 ≢ []
    → Trims c d
    → Trims c (evict (oldest_of d.entries).0 d)
Trims-evict c d v keyed t = record {
  subset = λ j r h. t.subset j r (evict-subset j victim r d h).0;
  oldest_gone = gone;
}
  where
    victim : Bytes
    victim = (oldest_of d.entries).0

    oldest :
        ((r : MemoryCacheRecord) × (lookup victim d.entries ≡ some r)
          × ((oldest_of d.entries).1 ≡ r.order))
        × ((j : Bytes) (r : MemoryCacheRecord)
            → lookup j d.entries ≡ some r
            → j ≢ victim
            → older (oldest_of d.entries) (j, r.order) ≡ true)
    oldest =
        let (_, found, least) =
          oldest_of_lem d.entries v.distinct v.keyed
            (λ e. keyed (rw e (unfold oldest_from in refl))) in
        (found, least)

    gone :
        (j : Bytes) (r : MemoryCacheRecord)
        → lookup j c.entries ≡ some r
        → (lookup j (evict victim d).entries ≡ some r)
          ⊎ ((lookup j (evict victim d).entries ≡ none)
              × ((i : Bytes) (s : MemoryCacheRecord)
                  → lookup i (evict victim d).entries ≡ some s
                  → older (j, r.order) (i, s.order) ≡ true))
    gone j r h = elim (t.oldest_gone j r h) [
      | inl here ↦ elim (Bool-cases (bytes_eq victim j)) [
        | inl same ↦
            let (r', found, at) = oldest.0 in
            let age : oldest_of d.entries ≡ (j, r.order) = ground (arith, bytes_eq_iff victim j) in
            inr (
              ground (arith, lookup-evict j victim d),
              λ i s g.
                  let (kept, ne) = evict-subset i victim s d g in rw age at (oldest.1 i s kept ne),
            )
        | inr other ↦ inl (ground (arith, lookup-evict j victim d))
      ]
      | inr (missing, young) ↦ inr (
        ground (arith, lookup-evict j victim d),
        λ i s g. young i s (evict-subset i victim s d g).0,
      )
    ]

make_room-Trims :
    (rounds size : ℕ) (c : MemoryCache) → IsValid c → Trims c (make_room rounds size c).0
make_room-Trims rounds size c v =
    (make_room-keeps (λ d. IsValid d × Trims c d)
      (λ d h keyed. (evict-IsValid (oldest_of d.entries).0 d h.0, Trims-evict c d h.0 keyed h.1))
      rounds size c (v, record { subset = λ j r h. h; oldest_gone = λ j r h. inl h })).1

-- Of the keys other than `key`, the cache `d` has records of `c` and no others; each record that it
-- lacks is older, by order number and then by key, than each of those that it has.
pub record EvictsOldest (key : Bytes) (c d : MemoryCache) : Type 0 where
  pub subset :
      (j : Bytes) (r : MemoryCacheRecord)
      → j ≢ key
      → lookup j d.entries ≡ some r
      → lookup j c.entries ≡ some r
  pub oldest_gone :
      (j i : Bytes) (r s : MemoryCacheRecord)
      → j ≢ key
      → i ≢ key
      → lookup j c.entries ≡ some r
      → lookup j d.entries ≢ some r
      → lookup i d.entries ≡ some s
      → (lookup j d.entries ≡ none) × (older (j, r.order) (i, s.order) ≡ true)

-- Between the trimmed cache and the two ends only the key itself may differ.
module _ (key : Bytes) (c c' d d' : MemoryCache) where
  EvictsOldest-of_Trims :
      ((i : Bytes) → i ≢ key → lookup i c'.entries ≡ lookup i c.entries)
      → Trims c' d
      → ((i : Bytes) → i ≢ key → lookup i d'.entries ≡ lookup i d.entries)
      → EvictsOldest key c d'
  EvictsOldest-of_Trims before t after = record {
    subset = λ j r ne h. ground (arith, before j ne, after j ne, t.subset j r);
    oldest_gone = λ j i r s ne ni h lost kept. elim (t.oldest_gone j r (before j ne ∙ h)) [
      | inl here ↦ absurd (lost (after j ne ∙ here))
      | inr (missing, young) ↦ (after j ne ∙ missing, young i s (sym (after i ni) ∙ kept))
    ];
  }

-- A `Put` evicts by order number: it adds no key but its own, it leaves the record of each other key as
-- it is or removes it, and what it removes has a smaller number than every record of another key that
-- stays, or the same number and a smaller key.
pub put-EvictsOldest :
    (key : Bytes) (entry : CacheEntry) (c : MemoryCache)
    → IsValid c
    → EvictsOldest key c (put none key entry c).0
unfolding put
put-EvictsOldest key entry c v =
    elim (Bool-cases (bytes_eq key [] || ltb c.max_bytes (length entry.response))) [
      | inl refused ↦ rw refused unchanged
      | inr passed ↦ rw passed (go (room_for key entry (forget key c)) trims)
    ]
  where
    unchanged : EvictsOldest key c c
    unchanged = record {
      subset = λ j r ne h. h;
      oldest_gone = λ j i r s ne ni h lost kept. absurd (lost h);
    }

    trims : Trims (forget key c) (room_for key entry (forget key c)).0
    trims =
        make_room-Trims (suc (length (forget key c).entries)) (entry_size key entry) (forget key c)
          (forget-IsValid key c v)

    unforgotten : (i : Bytes) → i ≢ key → lookup i (forget key c).entries ≡ lookup i c.entries
    unforgotten i other =
        unfold forget in ground (arith, lookup-delete i key c.entries, bytes_eq_iff key i)

    unstored :
        (d : MemoryCache) (i : Bytes)
        → i ≢ key
        → lookup i (store key entry d).entries ≡ lookup i d.entries
    unstored d i other =
        unfold store lookup in ground (arith, lookup-delete i key d.entries, bytes_eq_iff key i)

    go :
        (m : MemoryCache × Bool)
        → Trims (forget key c) m.0
        → EvictsOldest key c (put_in_room key entry m).0
    go (d, true) t =
        EvictsOldest-of_Trims key c (forget key c) d (store key entry d) unforgotten t (unstored d)
    go (d, false) t = EvictsOldest-of_Trims key c (forget key c) d d unforgotten t (λ i _. refl)
