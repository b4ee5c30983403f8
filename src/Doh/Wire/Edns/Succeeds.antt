-- ===== src/Doh/Wire/Edns/Succeeds.antt =====
-- When the injection of a client subnet succeeds, and what it gives.
use sakullla_plugins.Base.{ℕ, [], ◌∷◌, Bytes}

-- The OPT record of RFC 6891 for a payload of 1232 bytes, with the client subnet option of RFC 7871: the
-- address with its first 24 bits.
abbrev pub subnet_opt : ℕ → ℕ → ℕ → Bytes
subnet_opt a b c =
    0 ∷ 0 ∷ 41 ∷ 4 ∷ 208 ∷ 0 ∷ 0 ∷ 0 ∷ 0 ∷ 0 ∷ 11 ∷ 0 ∷ 8 ∷ 0 ∷ 7 ∷ 0 ∷ 1 ∷ 24 ∷ 0 ∷ a ∷ b ∷ c ∷ []
