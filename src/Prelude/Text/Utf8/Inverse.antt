-- ===== src/Prelude/Text/Utf8/Inverse.antt =====
-- `from_utf8` takes only the bytes that `as_bytes` gives.
use Prim.Native.Nat.{ℕ, zero, suc, ◌+◌, ◌-◌, ◌*◌, ◌≤◌, ◌<◌}
use mathlib.Core.Path.{◌≡◌, refl, sym, ◌∙◌}
use mathlib.Core.Logic.{inl, inr}
use mathlib.Core.Bool.{◌&&◌}
use mathlib.Core.Option.{some}
use mathlib.Core.List.{List, [], ◌∷◌, ◌++◌, append_assoc}
use native.Mathlib.Omega.{arith}
use mathlib.Core.Path.{subst}
use check_po.Prelude.Tests.{Bool-cases, Option-cases, ltb, leb}
use check_po.Prelude.Text.Utf8.{
  IsScalar, IsText, encode_char, as_bytes, Pending, idle, more, Step, emit, wait, bad, lead,
  utf8_step, from_utf8_go, resume, from_utf8,
}

-- `front` has been read: any bytes that complete it are the encoding of the character they give.
abbrev Completes : ℕ → ℕ → ℕ → ℕ → List ℕ → Type 0
Completes zero lo hi acc front = Unit
Completes (suc zero) lo hi acc front =
    (b : ℕ)
    → lo ≤ b
    → b ≤ hi
    → (encode_char (acc * 64 + (b - 0x80)) ≡ front ++ b ∷ []) × IsScalar (acc * 64 + (b - 0x80))
Completes (suc (suc n)) lo hi acc front =
    (b : ℕ)
    → lo ≤ b
    → b ≤ hi
    → Completes (suc n) 0x80 0xbf (acc * 64 + (b - 0x80)) (front ++ b ∷ [])

abbrev Expects : Pending → List ℕ → Type 0
Expects idle front = front ≡ []
Expects (more n lo hi acc) front = Completes n lo hi acc front

abbrev LeadExpects : ℕ → Step → Type 0
LeadExpects b (emit c) = (encode_char c ≡ b ∷ []) × IsScalar c
LeadExpects b (wait p) = Expects p (b ∷ [])
LeadExpects b bad = Unit

module _ (b lo hi : ℕ) where
  Completes-two : 0xc2 ≤ b → b < 0xe0 → Completes 1 0x80 0xbf (b - 0xc0) (b ∷ [])
  unfolding encode_char
  Completes-two h k d l u = ground arith

  -- The range of the second byte keeps out overlong forms and surrogates.
  Completes-three :
      0xe0 ≤ b
      → b < 0xf0
      → 0x80 ≤ lo
      → hi ≤ 0xbf
      → (b ≡ 0xe0 → 0xa0 ≤ lo)
      → (b ≡ 0xed → hi ≤ 0x9f)
      → Completes 2 lo hi (b - 0xe0) (b ∷ [])
  unfolding encode_char
  Completes-three h k low high long surrogate d l u e l' u' = ground arith

  Completes-four :
      0xf0 ≤ b
      → b < 0xf5
      → 0x80 ≤ lo
      → hi ≤ 0xbf
      → (b ≡ 0xf0 → 0x90 ≤ lo)
      → (b ≡ 0xf4 → hi ≤ 0x8f)
      → Completes 3 lo hi (b - 0xf0) (b ∷ [])
  unfolding encode_char
  Completes-four h k low high long large d l u e l' u' f l'' u'' = ground arith

first_three : (b : ℕ) → 0xe0 ≤ b → b < 0xe0 + 1 → Completes 2 0xa0 0xbf 0 (b ∷ [])
first_three b h k =
    let e : b - 0xe0 ≡ 0 = omega arith in
    subst (λ a. Completes 2 0xa0 0xbf a (b ∷ [])) e
      (Completes-three b 0xa0 0xbf (omega arith) (omega arith) (omega arith) (omega arith)
        (λ p. omega arith) (λ p. omega arith))

last_three : (b : ℕ) → 0xed ≤ b → b < 0xed + 1 → Completes 2 0x80 0x9f 13 (b ∷ [])
last_three b h k =
    let e : b - 0xe0 ≡ 13 = omega arith in
    subst (λ a. Completes 2 0x80 0x9f a (b ∷ [])) e
      (Completes-three b 0x80 0x9f (omega arith) (omega arith) (omega arith) (omega arith)
        (λ p. omega arith) (λ p. omega arith))

first_four : (b : ℕ) → 0xf0 ≤ b → b < 0xf0 + 1 → Completes 3 0x90 0xbf 0 (b ∷ [])
first_four b h k =
    let e : b - 0xf0 ≡ 0 = omega arith in
    subst (λ a. Completes 3 0x90 0xbf a (b ∷ [])) e
      (Completes-four b 0x90 0xbf (omega arith) (omega arith) (omega arith) (omega arith)
        (λ p. omega arith) (λ p. omega arith))

last_four : (b : ℕ) → 0xf4 ≤ b → b < 0xf4 + 1 → Completes 3 0x80 0x8f 4 (b ∷ [])
last_four b h k =
    let e : b - 0xf0 ≡ 4 = omega arith in
    subst (λ a. Completes 3 0x80 0x8f a (b ∷ [])) e
      (Completes-four b 0x80 0x8f (omega arith) (omega arith) (omega arith) (omega arith)
        (λ p. omega arith) (λ p. omega arith))

lead-LeadExpects : (b : ℕ) → LeadExpects b (lead b)
unfolding lead encode_char
lead-LeadExpects b = elim (Bool-cases (ltb b 0x80)) [
  | inl t0 ↦ rw t0 ((ground arith, ground arith))
  | inr f0 ↦ rw f0 (elim (Bool-cases (ltb b 0xc2)) [
    | inl t1 ↦ rw t1 (tt)
    | inr f1 ↦ rw f1 (elim (Bool-cases (ltb b 0xe0)) [
      | inl t2 ↦ rw t2 (Completes-two b 0x80 0xbf (ground arith) (ground arith))
      | inr f2 ↦ rw f2 (elim (Bool-cases (ltb b 0xe1)) [
        | inl t3 ↦ rw t3 (first_three b (ground arith) (ground arith))
        | inr f3 ↦ rw f3 (elim (Bool-cases (ltb b 0xed)) [
          | inl t4 ↦ rw t4 (
              Completes-three b 0x80 0xbf (ground arith) (ground arith) (ground arith)
                (ground arith) (λ e. ground arith) (λ e. ground arith))
          | inr f4 ↦ rw f4 (elim (Bool-cases (ltb b 0xee)) [
            | inl t5 ↦ rw t5 (last_three b (ground arith) (ground arith))
            | inr f5 ↦ rw f5 (elim (Bool-cases (ltb b 0xf0)) [
              | inl t6 ↦ rw t6 (
                  Completes-three b 0x80 0xbf (ground arith) (ground arith) (ground arith)
                    (ground arith) (λ e. ground arith) (λ e. ground arith))
              | inr f6 ↦ rw f6 (elim (Bool-cases (ltb b 0xf1)) [
                | inl t7 ↦ rw t7 (first_four b (ground arith) (ground arith))
                | inr f7 ↦ rw f7 (elim (Bool-cases (ltb b 0xf4)) [
                  | inl t8 ↦ rw t8 (
                      Completes-four b 0x80 0xbf (ground arith) (ground arith) (ground arith)
                        (ground arith) (λ e. ground arith) (λ e. ground arith))
                  | inr f8 ↦ rw f8 (elim (Bool-cases (ltb b 0xf5)) [
                    | inl t9 ↦ rw t9 (last_four b (ground arith) (ground arith))
                    | inr f9 ↦ rw f9 (tt)
                  ])
                ])
              ])
            ])
          ])
        ])
      ])
    ])
  ])
]

abbrev StepExpects : List ℕ → ℕ → Step → Type 0
StepExpects front b (emit c) = (encode_char c ≡ front ++ b ∷ []) × IsScalar c
StepExpects front b (wait q) = Expects q (front ++ b ∷ [])
StepExpects front b bad = Unit

LeadExpects→StepExpects : (b : ℕ) (st : Step) → LeadExpects b st → StepExpects [] b st
LeadExpects→StepExpects b (emit c) x = x
LeadExpects→StepExpects b (wait q) x = x
LeadExpects→StepExpects b bad x = tt

utf8_step-StepExpects :
    (p : Pending) (front : List ℕ) (b : ℕ) → Expects p front → StepExpects front b (utf8_step p b)
unfolding utf8_step
utf8_step-StepExpects idle front b x =
    subst (λ f. StepExpects f b (lead b)) (sym x)
      (LeadExpects→StepExpects b (lead b) (lead-LeadExpects b))
utf8_step-StepExpects (more zero lo hi acc) front b x = tt
utf8_step-StepExpects (more (suc zero) lo hi acc) front b x =
    elim (Bool-cases (leb lo b && leb b hi)) [
      | inl t ↦ rw t (x b (ground arith) (ground arith))
      | inr f ↦ rw f tt
    ]
utf8_step-StepExpects (more (suc (suc n)) lo hi acc) front b x =
    elim (Bool-cases (leb lo b && leb b hi)) [
      | inl t ↦ rw t (x b (ground arith) (ground arith))
      | inr f ↦ rw f tt
    ]

abbrev Inverse : List ℕ → Type 0
Inverse bs =
    (p : Pending) (front s : List ℕ)
    → Expects p front
    → from_utf8_go p bs ≡ some s
    → (as_bytes s ≡ front ++ bs) × IsText s

Inverse-step :
    (st : Step) (front : List ℕ) (b : ℕ) (bs s : List ℕ)
    → StepExpects front b st
    → Inverse bs
    → resume bs st ≡ some s
    → (as_bytes s ≡ front ++ b ∷ bs) × IsText s
unfolding as_bytes
Inverse-step (emit c) front b bs s x ih h = elim (Option-cases (from_utf8_go idle bs)) [
  | inl e ↦ cc (rw e at h)
  | inr (t, e) ↦
      let whole : some (c ∷ t) ≡ some s = rw e at h in
      let (bytes, text) = ih idle [] t refl e in
      subst (λ r. (as_bytes r ≡ front ++ b ∷ bs) × IsText r) (let e' : c ∷ t ≡ s = cc whole in e')
        (rw (x.0, bytes) (append_assoc front (b ∷ []) bs), (x.1, text))
]
Inverse-step (wait q) front b bs s x ih h =
    let (bytes, text) = ih q (front ++ b ∷ []) s x h in
    (bytes ∙ append_assoc front (b ∷ []) bs, text)
Inverse-step bad front b bs s x ih h = cc

from_utf8_go-Inverse : (bs : List ℕ) → Inverse bs
unfolding from_utf8_go as_bytes
from_utf8_go-Inverse [] idle front s x h =
    subst (λ r. (as_bytes r ≡ front ++ []) × IsText r) (let e : [] ≡ s = cc in e) (rw x, tt)
from_utf8_go-Inverse [] (more n lo hi acc) front s x h = cc
from_utf8_go-Inverse (b ∷ bs) p front s x h =
    Inverse-step (utf8_step p b) front b bs s (utf8_step-StepExpects p front b x)
      (from_utf8_go-Inverse bs) h

-- Bytes that decode are the bytes of the text that comes out.
pub as_bytes-from_utf8 : (bs s : List ℕ) → from_utf8 bs ≡ some s → (as_bytes s ≡ bs) × IsText s
unfolding from_utf8
as_bytes-from_utf8 bs s h = from_utf8_go-Inverse bs idle [] s refl h
