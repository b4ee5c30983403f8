-- ===== src/Base/Strings.antt =====
-- The functions of Go's package strings that the plugins call, on ASCII text.
use Prim.Native.Nat.{ℕ, ◌-◌}
use mathlib.Core.Bool.{Bool, true, false, ◌&&◌, ◌||◌}
use mathlib.Core.List.{List, [], ◌∷◌, ◌++◌}
use sakullla_plugins.Base.Tests.{leb, ◌==◌, if◌then◌else◌}
use sakullla_plugins.Base.Lists.{length, take, drop}
use sakullla_plugins.Base.Text.{Bytes, bytes_eq}

abbrev pub is_empty : Bytes → Bool
is_empty [] = true
is_empty (b ∷ bs) = false

-- `strings.TrimSpace`
abbrev pub is_space : ℕ → Bool
is_space b = (b == 32) || (leb 9 b && leb b 13)

unfoldable pub trim_left : Bytes → Bytes
trim_left [] = []
trim_left (b ∷ bs) = let rest = trim_left bs in if is_space b then rest else b ∷ bs

-- What is left when trailing white space goes.
unfoldable pub trim_right : Bytes → Bytes
trim_right [] = []
trim_right (b ∷ bs) = keep b (trim_right bs)
  where
    keep : ℕ → Bytes → Bytes
    keep b [] = if is_space b then [] else b ∷ []
    keep b (c ∷ cs) = b ∷ c ∷ cs

abbrev pub trim_space : Bytes → Bytes
trim_space s = trim_right (trim_left s)

-- `strings.HasSuffix` and `strings.HasPrefix`
unfoldable pub has_suffix : Bytes → Bytes → Bool
has_suffix s suffix =
    leb (length suffix) (length s) && bytes_eq (drop (length s - length suffix) s) suffix

-- `strings.TrimSuffix(s, ".")`
abbrev pub trim_dot : Bytes → Bytes
trim_dot s = if has_suffix s (b'.' ∷ []) then take (length s - 1) s else s

unfoldable pub has_prefix : Bytes → Bytes → Bool
has_prefix s prefix = leb (length prefix) (length s) && bytes_eq (take (length prefix) s) prefix

-- `strings.Split(s, string(separator))`, which has a part more than separators.
unfoldable pub split : ℕ → Bytes → List Bytes
split separator [] = [] ∷ []
split separator (b ∷ bs) = add b (split separator bs)
  where
    add : ℕ → List Bytes → List Bytes
    add b [] = (b ∷ []) ∷ []
    add b (part ∷ parts) = if b == separator then [] ∷ (part ∷ parts) else (b ∷ part) ∷ parts

-- `strings.Join(parts, ".")`
unfoldable pub join_dots : List Bytes → Bytes
join_dots [] = []
join_dots (part ∷ parts) = follow part parts (join_dots parts)
  where
    follow : Bytes → List Bytes → Bytes → Bytes
    follow part [] rest = part
    follow part (next ∷ later) rest = part ++ (b'.' ∷ rest)
