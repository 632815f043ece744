-- ===== src/Prelude/Int.antt =====
-- Signed 64-bit integers, and their two's complement as an unsigned word.
use Prim.Native.Nat.{ℕ, ◌-◌, ◌^◌, ◌<◌}
use mathlib.Core.Path.{◌≡◌}
use mathlib.Core.Logic.{inl, inr}
use native.Mathlib.Omega.{arith}
use check_po.Prelude.Tests.{Bool-cases, ltb, if◌then◌else◌}

-- `negsuc n` is -(n + 1).
pub data ℤ : Type 0 where
  pos : ℕ → ℤ
  negsuc : ℕ → ℤ

abbrev pub IsI64 : ℤ → Type 0
IsI64 (pos n) = n < 2 ^ 63
IsI64 (negsuc n) = n < 2 ^ 63

-- The word with the bits of an i64.
unfoldable pub i64_word : ℤ → ℕ
i64_word (pos n) = n
i64_word (negsuc n) = 2 ^ 64 - 1 - n

unfoldable pub word_i64 : ℕ → ℤ
word_i64 w = if ltb w (2 ^ 63) then pos w else negsuc (2 ^ 64 - 1 - w)

pub i64_word-lt : (v : ℤ) → IsI64 v → i64_word v < 2 ^ 64
unfolding i64_word
i64_word-lt (pos n) h = omega arith
i64_word-lt (negsuc n) h = omega arith

pub word_i64-i64_word : (v : ℤ) → IsI64 v → word_i64 (i64_word v) ≡ v
unfolding i64_word word_i64
word_i64-i64_word (pos n) h = ground arith
word_i64-i64_word (negsuc n) h = ground arith

pub word_i64-IsI64 : (w : ℕ) → w < 2 ^ 64 → IsI64 (word_i64 w)
unfolding word_i64
word_i64-IsI64 w h = elim (Bool-cases (ltb w (2 ^ 63))) [
  | inl t ↦ rw t (ground arith)
  | inr f ↦ rw f (ground arith)
]

pub i64_word-word_i64 : (w : ℕ) → w < 2 ^ 64 → i64_word (word_i64 w) ≡ w
unfolding i64_word word_i64
i64_word-word_i64 w h = ground arith
