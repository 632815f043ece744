-- ===== src/Prelude/Bytes.antt =====
-- Machine integers as native numbers, and their big-endian byte strings (`to_be_bytes`,
-- `from_be_bytes`).
use Prim.Native.Nat.{ℕ, zero, suc, ◌+◌, ◌*◌, ◌/◌, ◌%◌, ◌^◌, ◌<◌}
use mathlib.Core.Path.{◌≡◌, refl, ap, ◌∙◌}
use mathlib.Core.List.{List, [], ◌∷◌, reverse, reverse-reverse}
use native.Mathlib.Omega.{arith}
use native.Mathlib.Nat.{pow-suc}
use check_po.Prelude.Lists.{length, All, All-reverse, length-reverse}

abbrev pub IsByte : ℕ → Type 0
IsByte b = b < 256

abbrev pub IsU16 : ℕ → Type 0
IsU16 v = v < 2 ^ 16

abbrev pub IsU32 : ℕ → Type 0
IsU32 v = v < 2 ^ 32

abbrev pub IsU64 : ℕ → Type 0
IsU64 v = v < 2 ^ 64

-- The digits of `v` in base 256, the lowest first; `n` of them.
unfoldable pub le_bytes : ℕ → ℕ → List ℕ
le_bytes zero v = []
le_bytes (suc n) v = v % 256 ∷ le_bytes n (v / 256)

unfoldable pub from_le : List ℕ → ℕ
from_le [] = 0
from_le (b ∷ bs) = b + 256 * from_le bs

-- `v.to_be_bytes()` of an unsigned integer of `n` bytes.
unfoldable pub to_be_bytes : ℕ → ℕ → List ℕ
unfolding le_bytes
to_be_bytes n v = reverse (le_bytes n v)

unfoldable pub from_be_bytes : List ℕ → ℕ
unfolding from_le
from_be_bytes bs = from_le (reverse bs)

length-le_bytes : (n v : ℕ) → length (le_bytes n v) ≡ n
unfolding le_bytes
length-le_bytes zero v = refl
length-le_bytes (suc n) v = ap suc (length-le_bytes n (v / 256))

le_bytes-IsByte : (n v : ℕ) → All IsByte (le_bytes n v)
unfolding le_bytes
le_bytes-IsByte zero v = tt
le_bytes-IsByte (suc n) v = (omega arith, le_bytes-IsByte n (v / 256))

shift_lt : (n v : ℕ) → v < 256 ^ suc n → v / 256 < 256 ^ n
shift_lt n v h = let h' : v < 256 ^ n * 256 = rw pow-suc at h in omega arith

from_le-le_bytes : (n v : ℕ) → v < 256 ^ n → from_le (le_bytes n v) ≡ v
unfolding le_bytes from_le
from_le-le_bytes zero v h = omega arith
from_le-le_bytes (suc n) v h = omega (arith, from_le-le_bytes n (v / 256) (shift_lt n v h))

le_bytes-from_le : (bs : List ℕ) → All IsByte bs → le_bytes (length bs) (from_le bs) ≡ bs
unfolding le_bytes from_le
le_bytes-from_le [] h = refl
le_bytes-from_le (b ∷ bs) h =
    let low : (b + 256 * from_le bs) % 256 ≡ b = omega arith in
    let high : (b + 256 * from_le bs) / 256 ≡ from_le bs = omega arith in
    rw (low, high, le_bytes-from_le bs h.1)

from_le-lt : (bs : List ℕ) → All IsByte bs → from_le bs < 256 ^ length bs
unfolding from_le
from_le-lt [] h = omega arith
from_le-lt (b ∷ bs) h = rw pow-suc (omega (arith, from_le-lt bs h.1))

module _ (n v : ℕ) where
  pub length-to_be_bytes : length (to_be_bytes n v) ≡ n
  unfolding to_be_bytes
  length-to_be_bytes = length-reverse (le_bytes n v) ∙ length-le_bytes n v

  pub to_be_bytes-IsByte : All IsByte (to_be_bytes n v)
  unfolding to_be_bytes
  to_be_bytes-IsByte = All-reverse _ (le_bytes n v) (le_bytes-IsByte n v)

  -- Reading back what was written gives an integer that fits its width.
  pub from_be_bytes-to_be_bytes : v < 256 ^ n → from_be_bytes (to_be_bytes n v) ≡ v
  unfolding to_be_bytes from_be_bytes
  from_be_bytes-to_be_bytes h = rw reverse-reverse (from_le-le_bytes n v h)

module _ (bs : List ℕ) (bytes : All IsByte bs) where
  pub to_be_bytes-from_be_bytes : to_be_bytes (length bs) (from_be_bytes bs) ≡ bs
  unfolding to_be_bytes from_be_bytes
  to_be_bytes-from_be_bytes =
      let turned = le_bytes-from_le (reverse bs) (All-reverse _ bs bytes) in
      ap reverse (rw (length-reverse bs) at turned) ∙ reverse-reverse bs

  pub from_be_bytes-lt : from_be_bytes bs < 256 ^ length bs
  unfolding from_be_bytes
  from_be_bytes-lt = rw (← length-reverse bs) (from_le-lt (reverse bs) (All-reverse _ bs bytes))

pub to_be_bytes_zero : to_be_bytes 2 0 ≡ 0 ∷ 0 ∷ []
unfolding to_be_bytes
to_be_bytes_zero = refl

pub from_be_bytes_zero : from_be_bytes (0 ∷ 0 ∷ []) ≡ 0
unfolding from_be_bytes
from_be_bytes_zero = refl

-- Both directions at two bytes: `u16::from_be_bytes([a, b])` is zero only at zero bytes.
pub from_be_bytes_two : (a b : ℕ) → from_be_bytes (a ∷ b ∷ []) ≡ a * 256 + b
unfolding from_be_bytes
from_be_bytes_two a b = omega arith
