-- ===== src/Doh/Service/Ends.antt =====
-- How the steps of a request end on a calm host: a live service with a place, a context that does not end,
-- a clock that stands still, a cache without the entry, and upstreams whose answers do not change.
use sakullla_plugins.Base.{
  ℕ, Bool, true, false, ◌&&◌, none, ◌≡◌, refl, sym, ap, subst, arith, ltb, Bytes, ok, err, panic,
}
use sakullla_plugins.Doh.Wire.{DohError, Parsed, revoked}
use sakullla_plugins.Doh.Cache.{CacheEntry}
use sakullla_plugins.Doh.Config.{Upstream}
use sakullla_plugins.Doh.Host.{
  HostCall, completed, Host, World, Serve, ◌>>=◌, bind_result, give, refuse_if, ask, check_context,
  ensure_live, bounded_host_call, accept_now, now, write_status, update_status, StatusResult,
}
use sakullla_plugins.Doh.Service.{clock_error, with_clock_error, lift}

-- What the host answers on every question.
pub record Calm (host : Host) (t : ℕ) (answers : Upstream → Bytes → Bytes) : Type 0 where
  pub no_error : (n : ℕ) → host.context_error n ≡ none
  pub live : (n : ℕ) → host.is_live n ≡ true
  pub place : (n : ℕ) → host.has_place n ≡ true
  pub clock : (n : ℕ) → host.clock_now n ≡ completed t
  pub missed : (n : ℕ) (key : Bytes) (time : ℕ) → host.cache_get n key time ≡ completed none
  pub put : (n : ℕ) (key : Bytes) (e : CacheEntry) → host.cache_put n key e ≡ completed tt
  pub resolves :
      (n : ℕ) (u : Upstream) (query : Bytes) → host.resolve n u query ≡ completed (answers u query)

-- The clock of the host is not behind the last time that the service saw.
abbrev pub ClockFits : ℕ → World → Type 0
ClockFits t w = (w.clock_set && ltb t w.last_now) ≡ false

-- An action ends in a result where the clock fits, and keeps that.
unfoldable pub Ends : {A : Type 0} → ℕ → Serve A → Parsed A → Type 0
Ends t act r = (w : World) → ClockFits t w → ((act w).1 ≡ r) × ClockFits t (act w).0

pub >>=-Ends :
    {A B : Type 0} (t : ℕ) (act : Serve A) (next : A → Serve B) (a : A) (r : Parsed B)
    → Ends t act (ok a)
    → Ends t (next a) r
    → Ends t (act >>= next) r
unfolding Ends ◌>>=◌
>>=-Ends t act next a r first rest w fits = go (act w) (first w fits)
  where
    go :
        (s : World × Parsed _)
        → (s.1 ≡ ok a) × ClockFits t s.0
        → ((bind_result s next).1 ≡ r) × ClockFits t (bind_result s next).0
    go (v, panic) (e, fine) = cc
    go (v, err x) (e, fine) = cc
    go (v, ok b) (e, fine) =
        let same : b ≡ a = cc e in
        subst (λ d. ((next d v).1 ≡ r) × ClockFits t (next d v).0) (sym same) (rest v fine)

pub give-Ends : {A : Type 0} (t : ℕ) (a : A) → Ends t (give a) (ok a)
unfolding Ends give
give-Ends t a w fits = (refl, fits)

pub lift-Ends : {A : Type 0} (t : ℕ) (r : Parsed A) → Ends t (lift r) r
unfolding Ends
lift-Ends t r w fits = (refl, fits)

pub ask-Ends :
    {A : Type 0} (t : ℕ) (question : ℕ → A) (a : A)
    → ((n : ℕ) → question n ≡ a)
    → Ends t (ask question) (ok a)
unfolding Ends ask
ask-Ends t question a all w fits = (ap (λ b. ok b) (all w.asked), fits)

pub passes-Ends : (t : ℕ) (b : Bool) (e : DohError) → b ≡ false → Ends t (refuse_if b e) (ok tt)
passes-Ends t false e h = give-Ends t tt
passes-Ends t true e h = cc h

module _ (host : Host) (t : ℕ) (answers : Upstream → Bytes → Bytes)
    (calm : Calm host t answers) where
  pub check_context-Ends : Ends t (check_context host) (ok tt)
  unfolding check_context
  check_context-Ends =
      >>=-Ends t _ _ none _ (ask-Ends t host.context_error none calm.no_error) (give-Ends t tt)

  pub ensure_live-Ends : Ends t (ensure_live host) (ok tt)
  unfolding ensure_live
  ensure_live-Ends = >>=-Ends t _ _ tt _ check_context-Ends (
      >>=-Ends t _ _ true _ (ask-Ends t host.is_live true calm.live)
        (passes-Ends t false revoked refl))

  pub bounded_host_call-Ends :
      {A : Type 0} (call : ℕ → HostCall A) (r : HostCall A)
      → ((n : ℕ) → call n ≡ r)
      → Ends t (bounded_host_call host call) (ok r)
  unfolding bounded_host_call
  bounded_host_call-Ends call r all =
      >>=-Ends t _ _ none _ (ask-Ends t host.context_error none calm.no_error)
        (ask-Ends t call r all)

  accept_now-Ends : Ends t (accept_now t) (ok t)
  unfolding Ends accept_now
  accept_now-Ends w fits = rw fits (refl, ground arith)

  pub now-Ends : Ends t (now host) (ok t)
  unfolding now
  now-Ends =
      >>=-Ends t _ _ t _
        (>>=-Ends t _ _ (completed t) _
          (bounded_host_call-Ends host.clock_now (completed t) calm.clock) (give-Ends t t))
        accept_now-Ends

  write_status-Ends :
      (id : Bytes) (result : StatusResult) (bumped live : Bool)
      → Ends t (write_status id result bumped live) (ok tt)
  unfolding Ends
  write_status-Ends id result bumped true w fits = (refl, fits)
  write_status-Ends id result bumped false w fits = (refl, fits)

  pub update_status-Ends :
      (id : Bytes) (result : StatusResult) (bumped : Bool)
      → Ends t (update_status host id result bumped) (ok tt)
  unfolding update_status
  update_status-Ends id result bumped =
      >>=-Ends t _ _ true _ (ask-Ends t host.is_live true calm.live) (
        >>=-Ends t _ _ true _ (ask-Ends t host.is_live true calm.live)
          (write_status-Ends id result bumped true))

  pub relabels-Ends :
      {A : Type 0} (act : Serve A) (a : A)
      → Ends t act (ok a)
      → Ends t (with_clock_error act) (ok a)
  unfolding Ends
  relabels-Ends act a h w fits = go (act w) (h w fits)
    where
      go :
          (s : World × Parsed _)
          → (s.1 ≡ ok a) × ClockFits t s.0
          → ((clock_error s).1 ≡ ok a) × ClockFits t (clock_error s).0
      go (v, ok b) d = d
      go (v, err e) (d, fine) = cc
      go (v, panic) d = d
