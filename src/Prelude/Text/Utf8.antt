-- ===== src/Prelude/Text/Utf8.antt =====
-- UTF-8: `str::as_bytes` and `String::from_utf8`, and that the second reads back the first.
pub mod Inverse
pub mod Ascii
use Prim.Native.Nat.{ℕ, zero, suc, ◌+◌, ◌-◌, ◌*◌, ◌/◌, ◌%◌, ◌≤◌, ◌<◌}
use mathlib.Core.Path.{◌≡◌, refl, sym, ◌∙◌}
use mathlib.Core.Logic.{◌⊎◌, inl, inr}
use mathlib.Core.Bool.{◌&&◌}
use mathlib.Core.Option
use mathlib.Core.Option.{Option, none, some}
use mathlib.Core.List.{List, [], ◌∷◌, ◌++◌, append_assoc}
use native.Mathlib.Omega.{arith}
use mathlib.Core.Path.{subst}
use check_po.Prelude.Tests.{Bool-cases, Option-cases, ltb, leb, if◌then◌else◌}
use check_po.Prelude.Lists.{All, All-append}
use check_po.Prelude.Bytes.{IsByte}

-- A `char`: a code point that is no surrogate.
abbrev pub IsScalar : ℕ → Type 0
IsScalar c = (c < 0x110000) × ((c < 0xd800) ⊎ (0xe000 ≤ c))

abbrev pub IsText : List ℕ → Type 0
IsText = All IsScalar

abbrev tail_byte : ℕ → ℕ
tail_byte c = 0x80 + c % 64

-- `char::encode_utf8`
unfoldable pub encode_char : ℕ → List ℕ
encode_char c =
    if ltb c 0x80
    then c ∷ []
    else if ltb c 0x800
    then (0xc0 + c / 64) ∷ tail_byte c ∷ []
    else if ltb c 0x10000
    then (0xe0 + c / 4096) ∷ tail_byte (c / 64) ∷ tail_byte c ∷ []
    else (0xf0 + c / 262144) ∷ tail_byte (c / 4096) ∷ tail_byte (c / 64) ∷ tail_byte c ∷ []

unfoldable pub as_bytes : List ℕ → List ℕ
as_bytes [] = []
as_bytes (c ∷ s) = encode_char c ++ as_bytes s

-- Inside a character: how many bytes are missing, the range of the next one, and the bits so far.
data Pending : Type 0 where
  idle : Pending
  more : ℕ → ℕ → ℕ → ℕ → Pending

data Step : Type 0 where
  emit : ℕ → Step
  wait : Pending → Step
  bad : Step

-- The table of well-formed sequences, row by row.
lead : ℕ → Step
lead b =
    if ltb b 0x80
    then emit b
    else if ltb b 0xc2
    then bad
    else if ltb b 0xe0
    then wait (more 1 0x80 0xbf (b - 0xc0))
    else if ltb b 0xe1
    then wait (more 2 0xa0 0xbf 0)
    else if ltb b 0xed
    then wait (more 2 0x80 0xbf (b - 0xe0))
    else if ltb b 0xee
    then wait (more 2 0x80 0x9f 13)
    else if ltb b 0xf0
    then wait (more 2 0x80 0xbf (b - 0xe0))
    else if ltb b 0xf1
    then wait (more 3 0x90 0xbf 0)
    else if ltb b 0xf4
    then wait (more 3 0x80 0xbf (b - 0xf0))
    else if ltb b 0xf5
    then wait (more 3 0x80 0x8f 4)
    else bad

utf8_step : Pending → ℕ → Step
unfolding lead
utf8_step idle b = lead b
utf8_step (more zero lo hi acc) b = bad
utf8_step (more (suc zero) lo hi acc) b =
    if leb lo b && leb b hi then emit (acc * 64 + (b - 0x80)) else bad
utf8_step (more (suc (suc n)) lo hi acc) b =
    if leb lo b && leb b hi then wait (more (suc n) 0x80 0xbf (acc * 64 + (b - 0x80))) else bad

at_end : Pending → Option (List ℕ)
at_end idle = some []
at_end (more n lo hi acc) = none

from_utf8_go : Pending → List ℕ → Option (List ℕ)
unfolding at_end
from_utf8_go p [] = at_end p
from_utf8_go p (b ∷ bs) = elim (utf8_step p b) [
  | emit c ↦ Option.map (λ s. c ∷ s) (from_utf8_go idle bs)
  | wait q ↦ from_utf8_go q bs
  | bad ↦ none
]

-- The reading of the rest after one byte.
abbrev resume : List ℕ → Step → Option (List ℕ)
resume bs (emit c) = Option.map (λ s. c ∷ s) (from_utf8_go idle bs)
resume bs (wait q) = from_utf8_go q bs
resume bs bad = none

-- `String::from_utf8`
pub from_utf8 : List ℕ → Option (List ℕ)
unfolding from_utf8_go utf8_step
from_utf8 = from_utf8_go idle

module _ (c : ℕ) (rest : List ℕ) where
  abbrev Decoded : List ℕ → Type 0
  Decoded bytes =
      from_utf8_go idle (bytes ++ rest) ≡ Option.map (λ s. c ∷ s) (from_utf8_go idle rest)

  one_byte : c < 0x80 → Decoded (c ∷ [])
  unfolding from_utf8_go utf8_step
  one_byte h = ground arith

  two_bytes : 0x80 ≤ c → c < 0x800 → Decoded ((0xc0 + c / 64) ∷ tail_byte c ∷ [])
  unfolding from_utf8_go utf8_step
  two_bytes h k = ground arith

  three_bytes :
      0x800 ≤ c
      → c < 0x10000
      → (c < 0xd800) ⊎ (0xe000 ≤ c)
      → Decoded ((0xe0 + c / 4096) ∷ tail_byte (c / 64) ∷ tail_byte c ∷ [])
  unfolding from_utf8_go utf8_step
  three_bytes h k s = ground arith

  four_bytes :
      0x10000 ≤ c
      → c < 0x110000
      → Decoded ((0xf0 + c / 262144) ∷ tail_byte (c / 4096) ∷ tail_byte (c / 64) ∷ tail_byte c ∷ [])
  unfolding from_utf8_go utf8_step
  four_bytes h k = ground arith

  from_utf8_go-encode_char : IsScalar c → Decoded (encode_char c)
  unfolding encode_char
  from_utf8_go-encode_char h = ground (arith, one_byte, two_bytes, three_bytes, four_bytes)

from_utf8_go-as_bytes : (s : List ℕ) → IsText s → from_utf8_go idle (as_bytes s) ≡ some s
unfolding as_bytes
from_utf8_go-as_bytes [] h = unfold from_utf8_go in refl
from_utf8_go-as_bytes (c ∷ s) h =
    rw (from_utf8_go-encode_char c (as_bytes s) h.0) (rw (from_utf8_go-as_bytes s h.1))

-- The bytes of a text decode to that text.
pub from_utf8-as_bytes : (s : List ℕ) → IsText s → from_utf8 (as_bytes s) ≡ some s
unfolding from_utf8
from_utf8-as_bytes = from_utf8_go-as_bytes

encode_char-IsByte : (c : ℕ) → IsScalar c → All IsByte (encode_char c)
unfolding encode_char
encode_char-IsByte c h = ground arith

pub as_bytes-IsByte : (s : List ℕ) → IsText s → All IsByte (as_bytes s)
unfolding as_bytes
as_bytes-IsByte [] h = tt
as_bytes-IsByte (c ∷ s) h =
    All-append IsByte (encode_char c) (as_bytes s) (encode_char-IsByte c h.0)
      (as_bytes-IsByte s h.1)
