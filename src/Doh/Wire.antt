-- ===== src/Doh/Wire.antt =====
-- plugins/doh/rfc8484.go: DNS messages on the wire. A Go slice expression or index out of range is the
-- result `panic`, so that a theorem can exclude it. Loops run on rounds: those that the source
-- counts (128 labels) end in the source's error, and the others in `panic`, which is excluded too.
-- Bit masks are written as quotients and remainders of powers of two.
pub mod Name
pub mod Edns
pub mod Query
pub mod Record
pub mod Response
mod Examples
use sakullla_plugins.Base.{ℕ, Bytes, Result}

-- The errors of model.go, and those of a context that ended.
pub data DohError : Type 0 where
  invalid_request unsupported_media_type request_too_large response_too_large : DohError
  invalid_dns_message response_mismatch concurrency_exhausted no_healthy_upstream : DohError
  upstream_failed clock_unavailable cache_unavailable revoked : DohError
  canceled deadline_exceeded : DohError

abbrev pub Parsed : Type 0 → Type 0
Parsed A = Result DohError A

abbrev pub max_dns_request_bytes : ℕ
max_dns_request_bytes = 4096

abbrev pub max_dns_response_bytes : ℕ
max_dns_response_bytes = 65535
