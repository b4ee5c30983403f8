-- ===== src/Doh/Host.antt =====
-- plugins/doh/service.go: what a request of the service meets outside. A `Host` holds its context,
-- whether the service is live, and the answers of the clock, the cache and the resolver, each at the
-- number of the question that asks. A theorem on every host is one on every interleaving with other
-- requests and on every cache behind the interface.
pub mod Ensures
use sakullla_plugins.Base.{
  ℕ, zero, suc, ◌+◌, ◌-◌, ◌*◌, ◌/◌, ◌%◌, Bool, true, false, not, ◌&&◌, ◌||◌, Option, none, some,
  List, [], ◌∷◌, ◌++◌, ltb, leb, ◌==◌, if◌then◌else◌, Bytes, bytes_eq, Result, ok, err, panic,
}
use sakullla_plugins.Doh.Wire.{
  DohError, Parsed, canceled, deadline_exceeded, revoked, clock_unavailable,
}
use sakullla_plugins.Doh.Cache.{CacheEntry}
use sakullla_plugins.Doh.Config.{Upstream}

-- How `boundedHostCall` ends, behind its first look at the context: the call returns, or the context
-- ends before.
pub data HostCall (A : Type 0) : Type 0 where
  completed : A → HostCall A
  failed : DohError → HostCall A
  context_done : DohError → HostCall A

pub record Host : Type 0 where
  pub context_error : ℕ → Option DohError
  pub is_live : ℕ → Bool
  pub has_place : ℕ → Bool
  pub clock_now : ℕ → HostCall ℕ
  pub cache_get : ℕ → Bytes → ℕ → HostCall (Option CacheEntry)
  pub cache_put : ℕ → Bytes → CacheEntry → HostCall (Unit {0})
  pub resolve : ℕ → Upstream → Bytes → HostCall Bytes

-- The results of a resolution in `UpstreamStatus`.
pub data StatusResult : Type 0 where
  unknown timeout failing invalid_response healthy : StatusResult

pub record UpstreamStatus : Type 0 where
  pub id : Bytes
  pub result : StatusResult
  pub failures : ℕ

-- What a request reads and writes of the service, and the number of the next question.
pub record World : Type 0 where
  pub asked : ℕ
  pub clock_set : Bool
  pub last_now : ℕ
  pub statuses : List UpstreamStatus

abbrev pub Serve : Type 0 → Type 0
Serve A = World → World × Parsed A

infixl 5 ◌>>=◌ ◌>>◌
abbrev pub bind_result : {A B : Type 0} → World × Parsed A → (A → Serve B) → World × Parsed B
bind_result (w, panic) next = (w, panic)
bind_result (w, err e) next = (w, err e)
bind_result (w, ok a) next = next a w

unfoldable pub ◌>>=◌ : {A B : Type 0} → Serve A → (A → Serve B) → Serve B
(act >>= next) w = bind_result (act w) next

abbrev pub ◌>>◌ : {B : Type 0} → Serve (Unit {0}) → Serve B → Serve B
act >> next = act >>= λ _. next

unfoldable pub give : {A : Type 0} → A → Serve A
give a w = (w, ok a)

unfoldable pub refuse : {A : Type 0} → DohError → Serve A
refuse e w = (w, err e)

abbrev pub refuse_if : Bool → DohError → Serve (Unit {0})
refuse_if false e = give tt
refuse_if true e = refuse e

-- A question to the host.
unfoldable pub ask : {A : Type 0} → (ℕ → A) → Serve A
ask question w = (record w { asked = w.asked + 1 }, ok (question w.asked))

abbrev pub error_or : {A : Type 0} → Serve A → Option DohError → Serve A
error_or next none = next
error_or next (some e) = refuse e

-- `if err := ctx.Err(); err != nil { return err }`
unfoldable pub check_context : Host → Serve (Unit {0})
check_context host = ask host.context_error >>= error_or (give tt)

unfoldable pub ensure_live : Host → Serve (Unit {0})
ensure_live host = do check_context host; live ← ask host.is_live; refuse_if (not live) revoked

-- `boundedHostCall`
abbrev pub call_or_failed : {A : Type 0} → (ℕ → HostCall A) → Option DohError → Serve (HostCall A)
call_or_failed call none = ask call
call_or_failed call (some e) = give (failed e)

unfoldable pub bounded_host_call : {A : Type 0} → Host → (ℕ → HostCall A) → Serve (HostCall A)
bounded_host_call host call = ask host.context_error >>= call_or_failed call

abbrev pub safe_runtime_error : DohError → DohError → DohError
safe_runtime_error canceled fallback = canceled
safe_runtime_error deadline_exceeded fallback = deadline_exceeded
safe_runtime_error revoked fallback = revoked
safe_runtime_error e fallback = fallback

-- The value of a host call, or its error behind `safeRuntimeError`.
abbrev pub completed_or : {A : Type 0} → DohError → HostCall A → Serve A
completed_or fallback (completed a) = give a
completed_or fallback (failed e) = refuse (safe_runtime_error e fallback)
completed_or fallback (context_done e) = refuse (safe_runtime_error e fallback)

-- `Service.now`: the clock must not go back.
unfoldable pub accept_now : ℕ → Serve ℕ
accept_now now w =
    if w.clock_set && ltb now w.last_now
    then (w, err clock_unavailable)
    else (record w { clock_set = true; last_now = now }, ok now)

unfoldable pub now : Host → Serve ℕ
now host = bounded_host_call host host.clock_now >>= completed_or clock_unavailable >>= accept_now

-- `updateStatus`
abbrev pub bump : Bool → ℕ → ℕ
bump true n = (n + 1) % 18446744073709551616
bump false n = n

unfoldable pub set_status : Bytes → StatusResult → Bool → List UpstreamStatus → List UpstreamStatus
set_status id result failed_now [] = []
set_status id result failed_now (s ∷ ss) =
    let rest = set_status id result failed_now ss in
    if bytes_eq s.id id
    then record s { result = result; failures = bump failed_now s.failures } ∷ ss
    else s ∷ rest

abbrev pub write_status : Bytes → StatusResult → Bool → Bool → Serve (Unit {0})
write_status id result failed_now live w =
    if live
    then (record w { statuses = set_status id result failed_now w.statuses }, ok tt)
    else (w, ok tt)

unfoldable pub update_status : Host → Bytes → StatusResult → Bool → Serve (Unit {0})
update_status host id result failed_now = do
  live ← ask host.is_live
  if live then ask host.is_live >>= write_status id result failed_now else give tt
