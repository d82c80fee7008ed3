-- ===== src/Prelude/Strings.antt =====
-- Python's `str` methods that several parts use.
use loommux.Prelude.Tests.{Text, leb, ◌==◌, if◌then◌else◌}
use loommux.Prelude.{◌||◌, ◌&&◌, Option, Bool, ◌∷◌, ℕ, [], false, true, some, none}

abbrev pub between_codes : ℕ → ℕ → ℕ → Bool
between_codes lo hi c = leb lo c && leb c hi

-- The characters that `str.strip` takes off.
abbrev pub is_blank : ℕ → Bool
is_blank c =
    between_codes 0x09 0x0d c
    || between_codes 0x1c 0x20 c
    || c == 0x85
    || c == 0xa0
    || c == 0x1680
    || between_codes 0x2000 0x200a c
    || between_codes 0x2028 0x2029 c
    || c == 0x202f
    || c == 0x205f
    || c == 0x3000

unfoldable pub lstrip : Text → Text
lstrip [] = []
lstrip (c ∷ t) = let rest = lstrip t in if is_blank c then rest else c ∷ t

unfoldable pub rstrip : Text → Text
rstrip [] = []
rstrip (c ∷ t) = elim (rstrip t) [ [] ↦ if is_blank c then [] else c ∷ [] | d ∷ u ↦ c ∷ d ∷ u ]

-- t.strip()
unfoldable pub strip : Text → Text
unfolding lstrip rstrip
strip t = lstrip (rstrip t)

-- t.startswith(s)
unfoldable pub starts_with : Text → Text → Bool
starts_with [] t = true
starts_with (c ∷ s) [] = false
starts_with (c ∷ s) (d ∷ t) = c == d && starts_with s t

-- t[len(s):] where t starts with s; `none` where it does not.
unfoldable pub after_prefix : Text → Text → Option Text
after_prefix [] t = some t
after_prefix (c ∷ s) [] = none
after_prefix (c ∷ s) (d ∷ t) = let rest = after_prefix s t in if c == d then rest else none
