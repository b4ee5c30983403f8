-- ===== src/Accelerator/Load/Examples.antt =====
-- The theorems on loads at concrete inputs.
use sakullla_plugins.Base.{ℕ, true, false, [], ◌∷◌, List, ◌≡◌, ◌⊎◌}
use sakullla_plugins.Base.Table.{find}
use sakullla_plugins.Accelerator.Cache.{Loaded, succeeded, failed, transient, new_cache}
use sakullla_plugins.Accelerator.Cache.Valid.{IsValid}
use sakullla_plugins.Accelerator.Load.{
  rejected, Event, on_get_or_load, on_loaded, on_close, get_or_load, run,
}
use sakullla_plugins.Accelerator.Load.Runs.{run-IsValid}
use sakullla_plugins.Accelerator.Load.Flights.{IsSingle}
use sakullla_plugins.Accelerator.Load.Flights.Single.{run-IsSingle}
use sakullla_plugins.Accelerator.Load.Answers.{Answers, get_or_load-Answers}

abbrev loaded : Loaded ℕ
loaded = record { value = 7; size = 40; ttl = 10; stale_while_revalidate = 5; stale_if_error = 5 }

-- Two clients ask for a key, one for another; the loads end, one with an error; the cache is closed.
abbrev events : List (Event ℕ)
events =
    on_get_or_load (1 ∷ []) 0
    ∷ on_get_or_load (1 ∷ []) 1
    ∷ on_get_or_load (2 ∷ []) 2
    ∷ on_loaded 1 (succeeded loaded) 3
    ∷ on_loaded 0 (failed transient) 4
    ∷ on_close
    ∷ []

run-IsValid_example : IsValid (run events (new_cache 2 100))
run-IsValid_example = run-IsValid 2 100 events

run-IsSingle_example : IsSingle (run events (new_cache 2 100))
run-IsSingle_example = run-IsSingle 2 100 events

-- The key is loaded at 3, so that its entry is fresh until 13 and may be used until 18 while it is loaded again.
abbrev stored : List (Event ℕ)
stored = on_get_or_load (1 ∷ []) 0 ∷ on_loaded 0 (succeeded loaded) 3 ∷ []

get_or_load-Answers_example :
    let c = run stored (new_cache 2 100) in
    let (c', answer) = get_or_load (1 ∷ []) 14 c in
    ((c.closed ≡ true) × (answer ≡ rejected) × (c' ≡ c))
    ⊎ ((c.closed ≡ false) × Answers (1 ∷ []) 14 (find (1 ∷ []) c.entries) c c' answer)
get_or_load-Answers_example = get_or_load-Answers (1 ∷ []) 14 (run stored (new_cache 2 100))
