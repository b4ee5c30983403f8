-- ===== src/Doh/Slot/Once.antt =====
-- A request slot releases once, when it should.
use sakullla_plugins.Base.{
  ℕ, zero, suc, ◌+◌, ◌-◌, ◌%◌, ◌≤◌, ◌<◌, Bool, true, false, not, ◌&&◌, Option, none, some, List, [],
  ◌∷◌, ◌++◌, ◌≡◌, refl, arith, inl, inr, Bool-cases, ◌==◌, if◌then◌else◌, length, length-append,
  length-set, get_elem?, set,
}
use sakullla_plugins.Doh.Slot.{
  RequestSlot, word, new_request_slot, release_if, begin_call, should_release, call_ended, run_once,
  end_call, returned, Step, begins, ends, returns, step, run_steps,
}

-- The calls that have begun and not ended.
abbrev pub unfinished : List Bool → ℕ
unfinished [] = 0
unfinished (true ∷ cs) = unfinished cs
unfinished (false ∷ cs) = 1 + unfinished cs

pub record IsSlot (s : RequestSlot) : Type 0 where
  pub counted : s.pending ≡ unfinished s.calls
  pub once : s.releases ≡ (if s.released then 1 else 0)
  pub not_early : s.released ≡ true → s.returned_to_caller ≡ true
  pub not_late : s.returned_to_caller ≡ true → s.pending ≡ 0 → s.released ≡ true

unfinished-append : (cs : List Bool) → unfinished (cs ++ (false ∷ [])) ≡ unfinished cs + 1
unfinished-append [] = refl
unfinished-append (true ∷ cs) = unfinished-append cs
unfinished-append (false ∷ cs) = omega (arith, unfinished-append cs)

unfinished-set :
    (cs : List Bool) (n : ℕ)
    → get_elem? cs n ≡ some false
    → unfinished (set cs n true) + 1 ≡ unfinished cs
unfinished-set [] n h = cc
unfinished-set (true ∷ cs) zero h = cc
unfinished-set (false ∷ cs) zero h = omega arith
unfinished-set (true ∷ cs) (suc n) h = unfinished-set cs n h
unfinished-set (false ∷ cs) (suc n) h = omega (arith, unfinished-set cs n h)

unfinished-le-length : (cs : List Bool) → unfinished cs ≤ length cs
unfinished-le-length [] = omega arith
unfinished-le-length (true ∷ cs) = omega (arith, unfinished-le-length cs)
unfinished-le-length (false ∷ cs) = omega (arith, unfinished-le-length cs)

begin_call-IsSlot : (s : RequestSlot) → length s.calls + 1 < word → IsSlot s → IsSlot (begin_call s)
unfolding begin_call
begin_call-IsSlot s few v =
    let more : (s.pending + 1) % word ≡ s.pending + 1 =
      omega (arith, v.counted, unfinished-le-length s.calls, few) in
    record {
      counted = omega (arith, more, v.counted, unfinished-append s.calls);
      once = v.once;
      not_early = v.not_early;
      not_late = λ back none_pending. absurd (omega (arith, more, none_pending));
    }

-- A state that is an `IsSlot` but for a release that is due.
release_if-IsSlot :
    (s : RequestSlot)
    → s.pending ≡ unfinished s.calls
    → s.releases ≡ (if s.released then 1 else 0)
    → (s.released ≡ true → s.returned_to_caller ≡ true)
    → IsSlot (release_if (should_release s) s)
unfolding release_if
release_if-IsSlot s counted once not_early = elim (Bool-cases (should_release s)) [
  | inl due ↦ simp due (record {
    counted = counted;
    once = ground (arith, due, once);
    not_early = λ h. ground (arith, due);
    not_late = λ h g. refl;
  })
  | inr not_due ↦ simp not_due (record {
    counted = counted;
    once = once;
    not_early = not_early;
    not_late = λ h g. ground (arith, not_due, h, g);
  })
]

end_call-IsSlot :
    (n : ℕ) (s : RequestSlot) → length s.calls + 1 < word → IsSlot s → IsSlot (end_call n s)
unfolding end_call
end_call-IsSlot n s few v = ended (get_elem? s.calls n) refl
  where
    ended : (c : Option Bool) → get_elem? s.calls n ≡ c → IsSlot (run_once n s c)
    ended none h = v
    ended (some true) h = v
    ended (some false) h =
        let less : (s.pending + (word - 1)) % word + 1 ≡ s.pending =
          omega (arith, v.counted, unfinished-set s.calls n h, unfinished-le-length s.calls, few) in
        release_if-IsSlot (call_ended n s)
          (omega (arith, less, v.counted, unfinished-set s.calls n h)) v.once v.not_early

returned-IsSlot : (s : RequestSlot) → IsSlot s → IsSlot (returned s)
unfolding returned
returned-IsSlot s v =
    release_if-IsSlot (record s { returned_to_caller = true }) v.counted v.once (λ h. refl)

step-IsSlot :
    (e : Step) (s : RequestSlot) → length s.calls + 1 < word → IsSlot s → IsSlot (step e s)
unfolding step
step-IsSlot begins s few v = begin_call-IsSlot s few v
step-IsSlot (ends n) s few v = end_call-IsSlot n s few v
step-IsSlot returns s few v = returned-IsSlot s v

length-release_if : (b : Bool) (s : RequestSlot) → length (release_if b s).calls ≡ length s.calls
unfolding release_if
length-release_if true s = refl
length-release_if false s = refl

length-step : (e : Step) (s : RequestSlot) → length (step e s).calls ≤ length s.calls + 1
unfolding step begin_call end_call returned
length-step begins s = omega (arith, length-append s.calls (false ∷ []))
length-step (ends n) s = ended (get_elem? s.calls n)
  where
    ended : (c : Option Bool) → length (run_once n s c).calls ≤ length s.calls + 1
    ended none = omega arith
    ended (some true) = omega arith
    ended (some false) = omega (
      arith,
      length-release_if (should_release (call_ended n s)) (call_ended n s),
      length-set s.calls n true,
    )
length-step returns s = omega (
  arith,
  length-release_if (s.pending == 0 && not s.released) (record s { returned_to_caller = true }),
)

run_steps-keeps :
    (es : List Step) (s : RequestSlot)
    → length s.calls + length es < word
    → IsSlot s
    → IsSlot (run_steps es s)
unfolding run_steps
run_steps-keeps [] s few v = v
run_steps-keeps (e ∷ es) s few v =
    run_steps-keeps es (step e s) (omega (arith, few, length-step e s))
      (step-IsSlot e s (omega (arith, few)) v)

-- In fewer than 2^64 steps, with calls that begin and end in any order and the request's return at any
-- point, `pending` is the number of calls that have not ended, `release` is called once at most, only
-- after the return, and once the request has returned and no call is pending it has been called.
pub run_steps-IsSlot : (es : List Step) → length es < word → IsSlot (run_steps es new_request_slot)
unfolding new_request_slot
run_steps-IsSlot es few =
    run_steps-keeps es new_request_slot (omega (arith, few))
      (record { counted = refl; once = refl; not_early = λ h. cc; not_late = λ h. cc })
