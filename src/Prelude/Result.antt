-- ===== src/Prelude/Result.antt =====
-- Rust's `Result`: an error of a component's own type, or a value.
use mathlib.Core.Path.{◌≡◌, refl}
use mathlib.Core.Bool.{Bool, true, false}
use mathlib.Core.Option.{Option, none, some}

pub data Result {ℓ κ} (E : Type ℓ) (A : Type κ) : Type (ℓ ⊔ κ) where
  ok : A → Result E A
  err : E → Result E A

infixl 5 ◌>>=◌ ◌>>◌
-- The `?` operator: an error ends the function.
abbrev pub ◌>>=◌ {ℓ κ μ} :
    {E : Type ℓ} {A : Type κ} {B : Type μ} → Result E A → (A → Result E B) → Result E B
ok a >>= f = f a
err e >>= f = err e

abbrev pub ◌>>◌ {ℓ κ} : {E : Type ℓ} {B : Type κ} → Result E (Unit {0}) → Result E B → Result E B
m >> k = m >>= λ _. k

module _ {ℓ} {E : Type ℓ} where
  -- `if b { return Err(e); }`
  abbrev pub reject_if : Bool → E → Result E (Unit {0})
  reject_if true e = err e
  reject_if false e = ok tt

  abbrev pub ok_or {κ} : {A : Type κ} → Option A → E → Result E A
  ok_or none e = err e
  ok_or (some a) e = ok a

  pub >>=-eq_ok {κ μ} :
      {A : Type κ} {B : Type μ} (m : Result E A) (f : A → Result E B) {b : B}
      → (m >>= f) ≡ ok b
      → (a : A) × (m ≡ ok a) × (f a ≡ ok b)
  >>=-eq_ok (ok a) f h = (a, refl, h)
  >>=-eq_ok (err e) f h = cc

  pub reject_if-eq_ok : (b : Bool) (e : E) {u : Unit {0}} → reject_if b e ≡ ok u → b ≡ false
  reject_if-eq_ok true e h = cc
  reject_if-eq_ok false e h = refl

pub bind_assoc {ℓ κ μ ν} :
    {E : Type ℓ} {A : Type κ} {B : Type μ} {C : Type ν} (m : Result E A) (f : A → Result E B)
    (g : B → Result E C)
    → (m >>= f >>= g) ≡ (m >>= λ a. f a >>= g)
bind_assoc (ok a) f g = refl
bind_assoc (err e) f g = refl
