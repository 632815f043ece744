-- ===== src/Prelude/Text.antt =====
-- Rust's `str`: a list of Unicode scalar values, and the standard library's operations on it.
pub mod Utf8
pub mod Split
pub mod Ends
use Prim.Native.Nat.{ℕ, zero, suc, ◌+◌, ◌-◌, ◌≤◌, ◌<◌}
use Prim.Native.Char.{code}
use Prim.Native.String.{String}
use mathlib.Core.Path.{◌≡◌, refl}
use mathlib.Core.Bool.{Bool, true, false, ◌&&◌, ◌||◌}
use mathlib.Core.Option.{Option, none, some}
use mathlib.Core.List.{List, [], ◌∷◌, ◌++◌, reverse}
use native.Mathlib.Omega.{arith}
use check_po.Prelude.Tests.{leb, ◌==◌, if◌then◌else◌}

-- A text literal.
abbrev pub codes : String → List ℕ
codes String.[] = []
codes (String.◌∷◌ c s) = code c ∷ codes s

abbrev pub between : ℕ → ℕ → ℕ → Bool
between lo hi c = leb lo c && leb c hi

-- `char::is_whitespace`: the Unicode property White_Space.
unfoldable pub is_whitespace : ℕ → Bool
is_whitespace c =
    between 0x09 0x0d c
    || c == 0x20
    || c == 0x85
    || c == 0xa0
    || c == 0x1680
    || between 0x2000 0x200a c
    || c == 0x2028
    || c == 0x2029
    || c == 0x202f
    || c == 0x205f
    || c == 0x3000

unfoldable pub trim_start : List ℕ → List ℕ
unfolding is_whitespace
trim_start [] = []
trim_start (c ∷ s) = if is_whitespace c then trim_start s else c ∷ s

-- `str::trim`
unfoldable pub trim : List ℕ → List ℕ
unfolding trim_start
trim s = reverse (trim_start (reverse (trim_start s)))

-- `str::strip_prefix`
unfoldable pub strip_prefix : List ℕ → List ℕ → Option (List ℕ)
strip_prefix [] s = some s
strip_prefix (p ∷ ps) [] = none
strip_prefix (p ∷ ps) (c ∷ s) = if p == c then strip_prefix ps s else none

-- `str::split` by a character: a text with n of them has n + 1 parts.
unfoldable pub cons_head : ℕ → List (List ℕ) → List (List ℕ)
cons_head c [] = (c ∷ []) ∷ []
cons_head c (part ∷ parts) = (c ∷ part) ∷ parts

unfoldable pub split : ℕ → List ℕ → List (List ℕ)
unfolding cons_head
split sep [] = [] ∷ []
split sep (c ∷ s) = let parts = split sep s in if c == sep then [] ∷ parts else cons_head c parts

-- `[&str]::join` by a character.
unfoldable pub join : ℕ → List (List ℕ) → List ℕ
join sep [] = []
join sep (part ∷ []) = part
join sep (part ∷ next ∷ parts) = part ++ (sep ∷ join sep (next ∷ parts))

-- `str::ends_with` a character.
unfoldable pub ends_with : ℕ → List ℕ → Bool
ends_with c [] = false
ends_with c (x ∷ []) = x == c
ends_with c (x ∷ y ∷ s) = ends_with c (y ∷ s)

-- `str::to_ascii_uppercase`
unfoldable pub to_ascii_uppercase : List ℕ → List ℕ
to_ascii_uppercase [] = []
to_ascii_uppercase (c ∷ s) = (if between 97 122 c then c - 32 else c) ∷ to_ascii_uppercase s

-- `str::strip_suffix`
abbrev pub reversed : Option (List ℕ) → Option (List ℕ)
reversed none = none
reversed (some s) = some (reverse s)

unfoldable pub strip_suffix : List ℕ → List ℕ → Option (List ℕ)
unfolding strip_prefix
strip_suffix suffix s = reversed (strip_prefix (reverse suffix) (reverse s))

-- `str::split_once` by a character.
abbrev pub add_first : ℕ → Option (List ℕ × List ℕ) → Option (List ℕ × List ℕ)
add_first c none = none
add_first c (some p) = some (c ∷ p.0, p.1)

unfoldable pub split_once : ℕ → List ℕ → Option (List ℕ × List ℕ)
split_once sep [] = none
split_once sep (c ∷ s) =
    let rest = split_once sep s in if c == sep then some ([], s) else add_first c rest
