-- ===== src/Doh/Slot.antt =====
-- plugins/doh/service.go: `requestSlot`, which releases a request's place when the request has returned
-- and none of its upstream calls is pending. Each closure that `beginCall` returns is a number into
-- `calls`, whose value says whether it ran (its `once`). What holds the lock is one step; `releases`
-- counts the calls of `release`.
pub mod Once
mod Examples
use sakullla_plugins.Base.{
  ℕ, zero, suc, ◌+◌, ◌-◌, ◌%◌, ◌^◌, ◌≤◌, ◌<◌, Bool, true, false, not, ◌&&◌, Option, none, some,
  List, [], ◌∷◌, ◌++◌, ◌≡◌, ◌≢◌, refl, sym, ap, subst, ◌∙◌, arith, inl, inr, Bool-cases, if-elim,
  ltb, ◌==◌, if◌then◌else◌, length, length-append, length-set, get_elem?, set,
}

pub record RequestSlot : Type 0 where
  pub pending : ℕ
  pub returned_to_caller : Bool
  pub released : Bool
  pub releases : ℕ
  pub calls : List Bool

abbrev pub word : ℕ
word = 18446744073709551616

unfoldable pub new_request_slot : RequestSlot
new_request_slot = record {
  pending = 0;
  returned_to_caller = false;
  released = false;
  releases = 0;
  calls = [];
}

-- The end of both methods: set `released` and call `release` where the condition holds.
unfoldable pub release_if : Bool → RequestSlot → RequestSlot
release_if should s = if should then record s { released = true; releases = s.releases + 1 } else s

unfoldable pub begin_call : RequestSlot → RequestSlot
begin_call s = record s { pending = (s.pending + 1) % word; calls = s.calls ++ (false ∷ []) }

abbrev pub should_release : RequestSlot → Bool
should_release s = s.returned_to_caller && (s.pending == 0 && not s.released)

abbrev pub call_ended : ℕ → RequestSlot → RequestSlot
call_ended n s = record s { pending = (s.pending + (word - 1)) % word; calls = set s.calls n true }

abbrev pub run_once : ℕ → RequestSlot → Option Bool → RequestSlot
run_once n s (some false) = release_if (should_release (call_ended n s)) (call_ended n s)
run_once n s _ = s

-- The closure of a call; its second run does nothing.
unfoldable pub end_call : ℕ → RequestSlot → RequestSlot
end_call n s = run_once n s (get_elem? s.calls n)

unfoldable pub returned : RequestSlot → RequestSlot
returned s =
    let back = record s { returned_to_caller = true } in
    release_if (s.pending == 0 && not s.released) back

pub data Step : Type 0 where
  begins : Step
  ends : ℕ → Step
  returns : Step

unfoldable pub step : Step → RequestSlot → RequestSlot
step begins s = begin_call s
step (ends n) s = end_call n s
step returns s = returned s

unfoldable pub run_steps : List Step → RequestSlot → RequestSlot
run_steps [] s = s
run_steps (e ∷ es) s = run_steps es (step e s)
