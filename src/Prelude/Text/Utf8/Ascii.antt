-- ===== src/Prelude/Text/Utf8/Ascii.antt =====
-- A text of ASCII characters is its own bytes.
use Prim.Native.Nat.{ℕ, ◌<◌}
use mathlib.Core.Path.{◌≡◌, refl, ap}
use mathlib.Core.Logic.{inl, inr}
use mathlib.Core.List.{List, [], ◌∷◌}
use native.Mathlib.Omega.{arith}
use check_po.Prelude.Tests.{lt→ltb, lt-cases}
use check_po.Prelude.Lists.{All, All-of_append}
use check_po.Prelude.Text.Utf8.{encode_char, as_bytes}

abbrev pub IsAscii : List ℕ → Type 0
IsAscii = All (λ c. c < 128)

pub as_bytes-IsAscii : (s : List ℕ) → IsAscii s → as_bytes s ≡ s
unfolding as_bytes encode_char
as_bytes-IsAscii [] h = refl
as_bytes-IsAscii (c ∷ s) h = rw (lt→ltb c 0x80 h.0) (ap (λ xs. c ∷ xs) (as_bytes-IsAscii s h.1))

first_byte : (c : ℕ) → IsAscii (encode_char c) → c < 128
unfolding encode_char
first_byte c h = elim (lt-cases c 128) [ inl e ↦ e | inr e ↦ ground arith ]

pub IsAscii-bytes-IsAscii : (s : List ℕ) → IsAscii (as_bytes s) → IsAscii s
unfolding as_bytes
IsAscii-bytes-IsAscii [] h = tt
IsAscii-bytes-IsAscii (c ∷ s) h =
    let (first, rest) = All-of_append _ (encode_char c) (as_bytes s) h in
    (first_byte c first, IsAscii-bytes-IsAscii s rest)
