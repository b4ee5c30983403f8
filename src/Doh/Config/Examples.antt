-- ===== src/Doh/Config/Examples.antt =====
-- The theorems on plugins/doh/model.go at concrete configurations.
use sakullla_plugins.Base.{
  trim_left, trim_right, has_suffix, ℕ, true, [], ◌∷◌, ◌≡◌, ◌↔◌, refl, Bytes, ok, bytes_eq,
}
use sakullla_plugins.Doh.Config.{
  pos, Upstream, Configuration, apply_configuration_defaults, all_bytes, opaque_ref,
  validate_upstreams, validate, normalize_domain, upstreams_for_name, match_upstream,
  matched_upstreams, default_upstreams, domain_matches,
}
use sakullla_plugins.Doh.Config.Valid.{IsValid}
use sakullla_plugins.Doh.Config.Accepts.{validate_iff_IsValid}
use sakullla_plugins.Doh.Config.Answering.{IsSelection, upstreams_for_name-IsSelection}

abbrev upstream : ℕ → Bytes → Upstream
upstream letter domain = record {
  id = letter ∷ [];
  endpoint = letter ∷ [];
  domain = domain;
  priority = pos 0;
  enabled = true;
}

abbrev org : Bytes
org = b'o' ∷ b'r' ∷ b'g' ∷ []

abbrev a_org : Bytes
a_org = b'a' ∷ b'.' ∷ org

abbrev configuration : Configuration
configuration = record {
  request_timeout_ms = 2000;
  upstream_timeout_ms = 1000;
  max_concurrency = 8;
  cache_entries = 256;
  cache_bytes = 1048576;
  min_ttl_seconds = 1;
  max_ttl_seconds = 3600;
  upstreams = upstream b'x' [] ∷ upstream b'y' org ∷ upstream b'z' a_org ∷ [];
}

-- The name `B.a.org.` goes to the upstream of `a.org`, `c.org` to that of `org`, and `net` to the one without a
-- domain.
longest_wins :
    upstreams_for_name configuration (b'B' ∷ b'.' ∷ b'a' ∷ b'.' ∷ b'o' ∷ b'r' ∷ b'g' ∷ b'.' ∷ [])
    ≡ upstream b'z' a_org ∷ []
unfolding upstreams_for_name normalize_domain trim_left trim_right has_suffix matched_upstreams
    match_upstream default_upstreams domain_matches bytes_eq
longest_wins = refl

shorter_wins : upstreams_for_name configuration (b'c' ∷ b'.' ∷ org) ≡ upstream b'y' org ∷ []
unfolding upstreams_for_name normalize_domain trim_left trim_right has_suffix matched_upstreams
    match_upstream default_upstreams domain_matches bytes_eq
shorter_wins = refl

default_serves : upstreams_for_name configuration (b'n' ∷ b'e' ∷ b't' ∷ []) ≡ upstream b'x' [] ∷ []
unfolding upstreams_for_name normalize_domain trim_left trim_right has_suffix matched_upstreams
    match_upstream default_upstreams domain_matches bytes_eq
default_serves = refl

upstreams_for_name-IsSelection_example :
    IsSelection
      (normalize_domain a_org)
      configuration.upstreams
      (upstreams_for_name configuration a_org)
upstreams_for_name-IsSelection_example = upstreams_for_name-IsSelection configuration a_org

-- The empty configuration with its defaults.
abbrev empty : Configuration
empty = record {
  request_timeout_ms = 0;
  upstream_timeout_ms = 0;
  max_concurrency = 0;
  cache_entries = 0;
  cache_bytes = 0;
  min_ttl_seconds = 0;
  max_ttl_seconds = 0;
  upstreams = [];
}

defaults-valid : validate (apply_configuration_defaults empty) ≡ ok tt
unfolding validate validate_upstreams opaque_ref all_bytes apply_configuration_defaults bytes_eq
defaults-valid = refl

configuration-valid : validate configuration ≡ ok tt
unfolding validate validate_upstreams opaque_ref all_bytes bytes_eq
configuration-valid = refl

validate_iff_IsValid_example : (validate configuration ≡ ok tt) ↔ IsValid configuration
validate_iff_IsValid_example = validate_iff_IsValid configuration

configuration-IsValid : IsValid configuration
configuration-IsValid = (validate_iff_IsValid configuration).0 configuration-valid
