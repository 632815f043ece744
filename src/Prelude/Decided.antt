-- ===== src/Prelude/Decided.antt =====
-- Predicates on concrete lists, decided by a run.
use Prim.Native.Nat.{ℕ}
use mathlib.Core.Path.{◌≡◌}
use mathlib.Core.Bool.{true}
use mathlib.Core.List.{List, [], ◌∷◌}
use mathlib.Core.Logic.{inl, inr}
use native.Mathlib.Omega.{arith}
use check_po.Prelude.Tests.{ltb, ltb→lt, Bool-cases}
use check_po.Prelude.Lists.{All, all_true}
use check_po.Prelude.Bytes.{IsByte}
use check_po.Prelude.Text.Utf8.{IsText}

pub bytes_decided : (bs : List ℕ) → all_true (λ b. ltb b 256) bs ≡ true → All IsByte bs
bytes_decided [] h = tt
bytes_decided (b ∷ bs) h = elim (Bool-cases (ltb b 256)) [
  | inl e ↦ (ltb→lt b 256 e, bytes_decided bs (rw e at h))
  | inr e ↦ absurd (cc (rw e at h))
]

-- A text below the surrogates.
pub IsText-decided : (s : List ℕ) → all_true (λ c. ltb c 0xd800) s ≡ true → IsText s
IsText-decided [] h = tt
IsText-decided (c ∷ s) h = elim (Bool-cases (ltb c 0xd800)) [
  | inl e ↦ (
    (let l = ltb→lt c 0xd800 e in omega (arith, l), inl (ltb→lt c 0xd800 e)),
    IsText-decided s (rw e at h),
  )
  | inr e ↦ absurd (cc (rw e at h))
]
