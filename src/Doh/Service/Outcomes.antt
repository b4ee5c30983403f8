-- ===== src/Doh/Service/Outcomes.antt =====
-- What holds of every request, whatever the host does: it does not panic, and what it changes of the
-- service.
use sakullla_plugins.Base.{
  ℕ, ◌+◌, ◌≤◌, Bool, true, false, ◌&&◌, ◌≡◌, ◌≢◌, refl, sym, ap, subst, arith, if-elim, ltb, Bytes,
  ok, err, panic,
}
use sakullla_plugins.Doh.Wire.{Parsed}
use sakullla_plugins.Doh.Config.{Configuration}
use sakullla_plugins.Doh.Wire.Query.{ParsedQuery}
use sakullla_plugins.Doh.Host.{
  Host, World, StatusResult, Serve, ◌>>=◌, bind_result, give, refuse, ask, accept_now, set_status,
}
use sakullla_plugins.Doh.Service.{clock_error, serve}
use sakullla_plugins.Doh.Service.Closed.{Closed, serve-Closed}

abbrev Safe : (A : Type 0) → Serve A → Type 0
Safe A act = (w : World) → (act w).1 ≢ panic

>>=-Safe :
    (A B : Type 0) (act : Serve A) (next : A → Serve B)
    → Safe A act
    → ((a : A) → Safe B (next a))
    → Safe B (act >>= next)
unfolding ◌>>=◌
>>=-Safe A B act next first rest w h = go (act w) refl h
  where
    go : (r : World × Parsed A) → act w ≡ r → (bind_result r next).1 ≢ panic
    go (v, panic) e d = first w (ap (λ r. r.1) e)
    go (v, err x) e d = cc
    go (v, ok a) e d = rest a v d

clock_error_safe : {A : Type 0} (r : World × Parsed A) → r.1 ≢ panic → (clock_error r).1 ≢ panic
clock_error_safe (w, ok a) fine h = cc
clock_error_safe (w, err e) fine h = cc
clock_error_safe (w, panic) fine h = fine refl

Safe-Closed : Closed Safe
unfolding ask give refuse accept_now
Safe-Closed = record {
  asks = λ A question w h. cc;
  gives = λ A a w h. cc;
  refuses = λ A e w h. cc;
  lifts = λ A r fine w h. fine h;
  binds = >>=-Safe;
  relabels = λ A act fine w. clock_error_safe (act w) (fine w);
  ticks = λ t w.
      if-elim (λ (r : World × Parsed ℕ). r.1 ≢ panic) (w.clock_set && ltb t w.last_now) (λ _ h. cc)
        (λ _ h. cc);
  notes = λ id result bumped live w.
      if-elim (λ (r : World × Parsed Unit). r.1 ≢ panic) live (λ _ h. cc) (λ _ h. cc);
}

-- Serving a request never panics, whatever the host and the upstreams answer, when the parsing of the
-- request did not.
pub serve-safe :
    (show : Bytes → Bytes) (host : Host) (c : Configuration) (parsed : Parsed ParsedQuery)
    (forwarded : Bytes) (w : World)
    → parsed ≢ panic
    → (serve show host c parsed forwarded w).1 ≢ panic
serve-safe show host c parsed forwarded w fine =
    serve-Closed Safe Safe-Closed show host c parsed forwarded fine w

-- A relation between the worlds before and after.
abbrev Moves : (World → World → Type 0) → (A : Type 0) → Serve A → Type 0
Moves R A act = (w : World) → R w (act w).0

-- A relation that the three changes of the world have and that is transitive and reflexive.
record Frame (R : World → World → Type 0) : Type 0 where
  stays : (w : World) → R w w
  follows : (u v w : World) → R u v → R v w → R u w
  counts : (w : World) → R w (record w { asked = w.asked + 1 })
  ticks :
      (w : World) (t : ℕ)
      → (w.clock_set && ltb t w.last_now) ≡ false
      → R w (record w { clock_set = true; last_now = t })
  notes :
      (w : World) (id : Bytes) (result : StatusResult) (bumped : Bool)
      → R w (record w { statuses = set_status id result bumped w.statuses })

clock_error_same : {A : Type 0} (r : World × Parsed A) → (clock_error r).0 ≡ r.0
clock_error_same (w, ok a) = refl
clock_error_same (w, err e) = refl
clock_error_same (w, panic) = refl

module _ (R : World → World → Type 0) (f : Frame R) where
  >>=-Moves :
      (A B : Type 0) (act : Serve A) (next : A → Serve B)
      → Moves R A act
      → ((a : A) → Moves R B (next a))
      → Moves R B (act >>= next)
  unfolding ◌>>=◌
  >>=-Moves A B act next first rest w = go (act w) (first w)
    where
      go : (r : World × Parsed A) → R w r.0 → R w (bind_result r next).0
      go (v, panic) h = h
      go (v, err x) h = h
      go (v, ok a) h = f.follows w v _ h (rest a v)

  Moves-Closed : Closed (Moves R)
  unfolding ask give refuse accept_now
  Moves-Closed = record {
    asks = λ A question w. f.counts w;
    gives = λ A a w. f.stays w;
    refuses = λ A e w. f.stays w;
    lifts = λ A r fine w. f.stays w;
    binds = >>=-Moves;
    relabels = λ A act h w. subst (R w) (sym (clock_error_same (act w))) (h w);
    ticks = λ t w.
        if-elim (λ (r : World × Parsed ℕ). R w r.0) (w.clock_set && ltb t w.last_now)
          (λ _. f.stays w) (f.ticks w t);
    notes = λ id result bumped live w.
        if-elim (λ (r : World × Parsed Unit). R w r.0) live (λ _. f.notes w id result bumped)
          (λ _. f.stays w);
  }

-- The time that the service has seen does not go back, and it is never forgotten.
abbrev pub IsLater : World → World → Type 0
IsLater u v = u.clock_set ≡ true → (v.clock_set ≡ true) × (u.last_now ≤ v.last_now)

IsLater-Frame : Frame IsLater
IsLater-Frame = record {
  stays = λ w set. (set, omega arith);
  follows = λ u v w first later set.
      let (set_v, before) = first set in
      let (set_w, behind) = later set_v in (set_w, omega (arith, before, behind));
  counts = λ w set. (set, omega arith);
  ticks = λ w t fine set. (refl, ground (arith, fine, set));
  notes = λ w id result bumped set. (set, omega arith);
}

-- No request moves the clock of the service back, also where the host's clock goes back or the request
-- fails.
pub serve-IsLater :
    (show : Bytes → Bytes) (host : Host) (c : Configuration) (parsed : Parsed ParsedQuery)
    (forwarded : Bytes) (w : World)
    → parsed ≢ panic
    → IsLater w (serve show host c parsed forwarded w).0
serve-IsLater show host c parsed forwarded w fine =
    serve-Closed (Moves IsLater) (Moves-Closed IsLater IsLater-Frame) show host c parsed forwarded
      fine w
