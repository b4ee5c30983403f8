-- ===== src/Accelerator/Cache/Examples.antt =====
-- The theorems on the entries of the cache at concrete inputs.
use sakullla_plugins.Base.{
  ℕ, ◌+◌, ◌≤◌, false, none, some, [], ◌∷◌, ◌≡◌, refl, arith, ltb, if◌then◌else◌,
}
use sakullla_plugins.Base.Table.{find, remove}
use sakullla_plugins.Accelerator.Cache.{
  Loaded, Cache, new_cache, get, delete, remove_locked, back, trim, push_front, set_locked,
}
use sakullla_plugins.Accelerator.Cache.Valid.{IsValid}
use sakullla_plugins.Accelerator.Cache.Trimmed.{set_locked-IsValid}
use sakullla_plugins.Accelerator.Cache.Stored.{get-set_locked}

abbrev loaded : ℕ → Loaded ℕ
loaded v = record { value = v; size = 40; ttl = 10; stale_while_revalidate = 5; stale_if_error = 5 }

-- A cache for two entries that holds one.
abbrev one_entry : Cache ℕ
one_entry = set_locked (1 ∷ []) (loaded 7) 0 (new_cache 2 100)

one_entry-IsValid : IsValid one_entry
unfolding new_cache
one_entry-IsValid =
    set_locked-IsValid (1 ∷ []) (loaded 7) 0 (new_cache 2 100)
      (record {
        is_counted = record { distinct = tt; counted = refl; closed_empty = λ h. refl };
        in_entries = omega arith;
        in_bytes = omega arith;
      })
      refl

one_entry_open : one_entry.closed ≡ false
unfolding set_locked trim back push_front delete remove_locked find remove new_cache
one_entry_open = refl

one_entry_limits : (1 ≤ one_entry.max_entries) × (40 ≤ one_entry.max_bytes)
unfolding set_locked trim back push_front delete remove_locked find remove new_cache
one_entry_limits = (omega arith, omega arith)

get-set_locked_example :
    (get (2 ∷ []) 12 12 (set_locked (2 ∷ []) (loaded 8) 3 one_entry)).1
    ≡ (if ltb 12 (3 + 10) then some 8 else none)
get-set_locked_example =
    get-set_locked (2 ∷ []) (loaded 8) 3 12 12 one_entry one_entry-IsValid one_entry_open
      one_entry_limits.0 one_entry_limits.1
