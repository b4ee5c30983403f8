-- ===== src/Accelerator/Load/Flights.antt =====
-- One load for a key at a time, and no call is lost: the loads that run are the flights, and a call
-- is closed once, when its load ends.
pub mod Kept
pub mod Single
use sakullla_plugins.Base.{
  ℕ, zero, suc, ◌+◌, ◌≤◌, ◌<◌, Bool, true, false, not, ◌||◌, Option, none, some, List, [], ◌∷◌, ◌≡◌,
  ◌≢◌, refl, sym, ap, subst, ◌∙◌, inl, inr, arith, if-elim, Bool-cases, Option-cases, ◌==◌,
  if◌then◌else◌, Bytes, bytes_eq, bytes_eq_iff,
}
use sakullla_plugins.Base.Table.{
  Table, find, remove, AreDistinct, find-remove, AreDistinct-remove, remove_missing,
}
use sakullla_plugins.Accelerator.Cache.{Outcome, failed, closed_owner, Cache}
use sakullla_plugins.Accelerator.Load.{ended, nth_running, start_load, new_flight, finish_call}

-- Later flights stand before earlier ones.
abbrev pub IsBelow : ℕ → Table ℕ → Type 0
IsBelow n [] = Unit
IsBelow n ((k, i) ∷ t) = (i < n) × IsBelow i t

abbrev pub is_running : ℕ → List (Bytes × ℕ) → Bool
is_running i [] = false
is_running i ((k, j) ∷ t) = (j == i) || is_running i t

abbrev pub has_result : {V : Type 0} → ℕ → List (ℕ × Outcome V) → Bool
has_result i [] = false
has_result i ((j, o) ∷ rs) = (j == i) || has_result i rs

-- The flights are the loads that run, with distinct keys. Of the calls made so far, each has either
-- a load that runs or a result.
pub record IsSingle {V : Type 0} (c : Cache V) : Type 0 where
  pub same : c.running ≡ c.flights
  pub distinct : AreDistinct c.flights
  pub below : IsBelow c.next_call c.flights
  pub settled : (i : ℕ) → i < c.next_call → has_result i c.results ≡ not (is_running i c.running)
  pub unissued : (i : ℕ) → c.next_call ≤ i → has_result i c.results ≡ false

pub IsBelow-weak : (n m : ℕ) (t : Table ℕ) → n ≤ m → IsBelow n t → IsBelow m t
IsBelow-weak n m [] h b = tt
IsBelow-weak n m ((k, i) ∷ t) h (less, b) = (omega arith, b)

pub IsBelow-remove : (n : ℕ) (key : Bytes) (t : Table ℕ) → IsBelow n t → IsBelow n (remove key t)
unfolding remove
IsBelow-remove n key [] b = tt
IsBelow-remove n key ((k, i) ∷ t) (less, b) =
    let rest = IsBelow-remove i key t b in
    if-elim (IsBelow n) (bytes_eq k key) (λ _. IsBelow-weak i n (remove key t) (omega arith) rest)
      (λ _. (less, rest))

pub is_running-IsBelow : (n i : ℕ) (t : Table ℕ) → IsBelow n t → n ≤ i → is_running i t ≡ false
is_running-IsBelow n i [] b h = refl
is_running-IsBelow n i ((k, j) ∷ t) (less, b) h = ground (arith, is_running-IsBelow j i t b)

pub ended_missing : (n call : ℕ) (t : Table ℕ) → IsBelow n t → n ≤ call → ended call t ≡ t
unfolding ended
ended_missing n call [] b h = refl
ended_missing n call ((k, i) ∷ t) (less, b) h = ground (arith, ended_missing i call t b)

pub is_running-ended :
    (i call : ℕ) (t : Table ℕ)
    → is_running i (ended call t) ≡ (if call == i then false else is_running i t)
unfolding ended
is_running-ended i call [] = ground arith
is_running-ended i call ((k, j) ∷ t) = ground (arith, is_running-ended i call t)

nth_running-find :
    (m : ℕ) (t : Table ℕ) (key : Bytes) (call : ℕ)
    → nth_running t m ≡ some (key, call)
    → find key t ≢ none
unfolding nth_running find
nth_running-find m [] key call h = cc
nth_running-find zero ((k, i) ∷ t) key call h = ground (arith, bytes_eq_iff k key)
nth_running-find (suc m) ((k, i) ∷ t) key call h = ground (arith, nth_running-find m t key call)

pub nth_running-is_running :
    (n m : ℕ) (t : Table ℕ) (key : Bytes) (call : ℕ)
    → IsBelow n t
    → nth_running t m ≡ some (key, call)
    → (call < n) × (is_running call t ≡ true)
unfolding nth_running
nth_running-is_running n m [] key call b h = cc
nth_running-is_running n zero ((k, i) ∷ t) key call (less, b) h = ground arith
nth_running-is_running n (suc m) ((k, i) ∷ t) key call (less, b) h =
    ground (arith, nth_running-is_running i m t key call b h)

-- The end of a load removes its flight and its goroutine.
pub ended-remove :
    (n m : ℕ) (t : Table ℕ) (key : Bytes) (call : ℕ)
    → AreDistinct t
    → IsBelow n t
    → nth_running t m ≡ some (key, call)
    → ended call t ≡ remove key t
unfolding ended remove nth_running
ended-remove n m [] key call d b h = refl
ended-remove n zero ((k, i) ∷ t) key call (new, d) (less, b) h =
    ground (arith, bytes_eq_iff k key, ended_missing i i t b, remove_missing k t new)
ended-remove n (suc m) ((k, i) ∷ t) key call (new, d) (less, b) h = ground (
  arith,
  bytes_eq_iff k key,
  nth_running-find m t key call h,
  nth_running-is_running i m t key call b h,
  ended-remove i m t key call d b h,
  new,
)
