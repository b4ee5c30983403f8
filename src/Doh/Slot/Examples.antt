-- ===== src/Doh/Slot/Examples.antt =====
-- The theorem on request slots at a concrete run.
use sakullla_plugins.Base.{List, [], ◌∷◌, arith}
use sakullla_plugins.Doh.Slot.{Step, begins, ends, returns, run_steps, new_request_slot}
use sakullla_plugins.Doh.Slot.Once.{IsSlot, run_steps-IsSlot}

-- The request returns while one of two calls is pending; both calls end twice.
abbrev steps : List Step
steps = begins ∷ begins ∷ ends 1 ∷ returns ∷ ends 1 ∷ ends 0 ∷ ends 0 ∷ []

run_steps-IsSlot_example : IsSlot (run_steps steps new_request_slot)
run_steps-IsSlot_example = run_steps-IsSlot steps (omega arith)
