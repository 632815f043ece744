-- ===== src/Prelude/Text/Split.antt =====
-- Splitting a text and joining its parts are inverse to one another.
use Prim.Native.Nat.{ℕ}
use mathlib.Core.Path.{◌≡◌, refl, ap, ◌∙◌}
use mathlib.Core.Logic.{◌≢◌, inl, inr}
use mathlib.Core.Bool.{Bool, true, false}
use mathlib.Core.List.{List, [], ◌∷◌, ◌++◌}
use native.Mathlib.Omega.{arith}
use check_po.Prelude.Tests.{◌==◌, ==_refl, Bool-cases}
use check_po.Prelude.Lists.{All, All-append, any_true}
use check_po.Prelude.Text.{cons_head, split, join, ends_with}

neq_test : (a b : ℕ) → a ≢ b → (a == b) ≡ false
neq_test a b h = ground arith

test_neq : (a b : ℕ) → (a == b) ≡ false → a ≢ b
test_neq a b h = ground arith

test_eq : (a b : ℕ) → (a == b) ≡ true → a ≡ b
test_eq a b h = ground arith

cons_head-join :
    (sep c : ℕ) (parts : List (List ℕ)) → join sep (cons_head c parts) ≡ c ∷ join sep parts
unfolding cons_head join
cons_head-join sep c [] = refl
cons_head-join sep c (p ∷ []) = refl
cons_head-join sep c (p ∷ q ∷ parts) = refl

pub data IsCons : List (List ℕ) → Type 0 where
  is_cons : {p : List ℕ} {ps : List (List ℕ)} → IsCons (p ∷ ps)

cons_head-IsCons : (c : ℕ) (parts : List (List ℕ)) → IsCons (cons_head c parts)
unfolding cons_head
cons_head-IsCons c [] = is_cons
cons_head-IsCons c (p ∷ ps) = is_cons

pub split-IsCons : (sep : ℕ) (s : List ℕ) → IsCons (split sep s)
unfolding split
split-IsCons sep [] = is_cons
split-IsCons sep (c ∷ s) = elim (Bool-cases (c == sep)) [
  | inl e ↦ rw e is_cons
  | inr e ↦ rw e (cons_head-IsCons c (split sep s))
]

join-nil_cons :
    (sep : ℕ) (parts : List (List ℕ)) → IsCons parts → join sep ([] ∷ parts) ≡ sep ∷ join sep parts
unfolding join
join-nil_cons sep [] h = elim h [ ]
join-nil_cons sep (p ∷ ps) h = refl

pub join-split : (sep : ℕ) (s : List ℕ) → join sep (split sep s) ≡ s
unfolding split
join-split sep [] = unfold join in refl
join-split sep (c ∷ s) = elim (Bool-cases (c == sep)) [
  | inl e ↦
      rw
        (e, join-nil_cons sep (split sep s) (split-IsCons sep s), join-split sep s, test_eq c sep e)
  | inr e ↦ rw (e, cons_head-join sep c (split sep s), join-split sep s)
]

-- A part has no separator in it.
abbrev pub Apart : ℕ → List ℕ → Type 0
Apart sep = All (λ c. c ≢ sep)

split-part : (sep : ℕ) (p : List ℕ) → Apart sep p → split sep p ≡ p ∷ []
unfolding split cons_head
split-part sep [] h = refl
split-part sep (c ∷ p) h = rw (neq_test c sep h.0, split-part sep p h.1)

split-append : (sep : ℕ) (p s : List ℕ) → Apart sep p → split sep (p ++ (sep ∷ s)) ≡ p ∷ split sep s
unfolding split cons_head
split-append sep [] s h = rw (==_refl sep)
split-append sep (c ∷ p) s h = rw (neq_test c sep h.0, split-append sep p s h.1)

pub split-join :
    (sep : ℕ) (parts : List (List ℕ))
    → IsCons parts
    → All (Apart sep) parts
    → split sep (join sep parts) ≡ parts
unfolding join
split-join sep [] h a = elim h [ ]
split-join sep (p ∷ []) h a = split-part sep p a.0
split-join sep (p ∷ q ∷ parts) h a =
    split-append sep p (join sep (q ∷ parts)) a.0
    ∙ ap (λ ps. p ∷ ps) (split-join sep (q ∷ parts) is_cons a.1)

module _ {ℓ} (P : ℕ → Type ℓ) (sep : ℕ) where
  cons_head-All :
      (c : ℕ) (parts : List (List ℕ))
      → P c × (c ≢ sep)
      → All (All (λ x. P x × (x ≢ sep))) parts
      → All (All (λ x. P x × (x ≢ sep))) (cons_head c parts)
  unfolding cons_head
  cons_head-All c [] h a = ((h, tt), tt)
  cons_head-All c (p ∷ ps) h a = ((h, a.0), a.1)

  pub split-All : (s : List ℕ) → All P s → All (All (λ x. P x × (x ≢ sep))) (split sep s)
  unfolding split
  split-All [] h = (tt, tt)
  split-All (c ∷ s) h = elim (Bool-cases (c == sep)) [
    | inl e ↦ rw e (tt, split-All s h.1)
    | inr e ↦ rw e (cons_head-All c (split sep s) (h.0, test_neq c sep e) (split-All s h.1))
  ]

  pub join-All : (parts : List (List ℕ)) → P sep → All (All P) parts → All P (join sep parts)
  unfolding join
  join-All [] h a = tt
  join-All (p ∷ []) h a = a.0
  join-All (p ∷ q ∷ parts) h a =
      All-append P p (sep ∷ join sep (q ∷ parts)) a.0 (h, join-All (q ∷ parts) h a.1)

-- A test that no element passes.
pub any_true_false→All :
    (p : ℕ → Bool) (s : List ℕ) → any_true p s ≡ false → All (λ c. p c ≡ false) s
any_true_false→All p [] h = tt
any_true_false→All p (c ∷ s) h = elim (Bool-cases (p c)) [
  | inl e ↦ absurd (cc (rw e at h))
  | inr e ↦ (e, any_true_false→All p s (rw e at h))
]

pub All→any_true_false :
    (p : ℕ → Bool) (s : List ℕ) → All (λ c. p c ≡ false) s → any_true p s ≡ false
All→any_true_false p [] h = refl
All→any_true_false p (c ∷ s) h = rw (h.0, All→any_true_false p s h.1)

-- The last character.
ends_with-append : (c : ℕ) (p : List ℕ) → ends_with c (p ++ (c ∷ [])) ≡ true
unfolding ends_with
ends_with-append c [] = ==_refl c
ends_with-append c (x ∷ []) = ==_refl c
ends_with-append c (x ∷ y ∷ p) = ends_with-append c (y ∷ p)

pub ends_with_false→ :
    (c : ℕ) (s : List ℕ) → ends_with c s ≡ false → (p : List ℕ) → s ≢ p ++ (c ∷ [])
ends_with_false→ c s h p e = absurd (cc (rw e at h, ends_with-append c p))

pub →ends_with_false :
    (c : ℕ) (s : List ℕ) → ((p : List ℕ) → s ≢ p ++ (c ∷ [])) → ends_with c s ≡ false
unfolding ends_with
→ends_with_false c [] h = refl
→ends_with_false c (x ∷ []) h = neq_test x c (λ e. h [] (ap (λ z. z ∷ []) e))
→ends_with_false c (x ∷ y ∷ s) h = →ends_with_false c (y ∷ s) (λ p e. h (x ∷ p) (ap (λ z. x ∷ z) e))
