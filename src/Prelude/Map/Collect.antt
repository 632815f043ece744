-- ===== src/Prelude/Map/Collect.antt =====
-- What a collected map holds.
use Prim.Native.Nat.{ℕ}
use mathlib.Core.Path.{◌≡◌, refl, ap, sym, ◌∙◌}
use mathlib.Core.Logic.{inl, inr}
use mathlib.Core.Bool.{false}
use mathlib.Core.Option.{Option, none, some}
use mathlib.Core.List.{List, [], ◌∷◌}
use check_po.Prelude.Tests.{list_eq, list_eq→eq, Bool-cases}
use check_po.Prelude.Map.{
  Map, mem, get, insert, collect, keys, is_some, mem-keys, get-insert_same, get-insert_other,
}

abbrev pub IsDistinct : List (List ℕ) → Type 0
IsDistinct [] = Unit
IsDistinct (k ∷ ks) = (mem k ks ≡ false) × IsDistinct ks

abbrev pub or_else {ℓ} : {A : Type ℓ} → Option A → Option A → Option A
or_else none d = d
or_else (some a) d = some a

is_some-false : {A : Type 0} (o : Option A) → is_some o ≡ false → o ≡ none
is_some-false none h = refl
is_some-false (some a) h = absurd (cc h)

module _ {V : Type 0} where
  pub get-absent : (p : List ℕ) (m : Map V) → mem p (keys m) ≡ false → get p m ≡ none
  get-absent p m h = is_some-false (get p m) (sym (mem-keys p m) ∙ h)

  -- Of entries with different keys, all are in the map.
  pub get-collect :
      (p : List ℕ) (m es : Map V)
      → IsDistinct (keys es)
      → get p (collect m es) ≡ or_else (get p es) (get p m)
  unfolding collect get keys
  get-collect p m [] h = refl
  get-collect p m ((k, v) ∷ es) h = elim (Bool-cases (list_eq k p)) [
    | inl e ↦
        let same = list_eq→eq k p e in
        get-collect p (insert k v m) es h.1
        ∙ rw (e, get-absent p es (sym (ap (λ q. mem q (keys es)) same) ∙ h.0), ← same)
            (get-insert_same k v m)
    | inr e ↦ get-collect p (insert k v m) es h.1 ∙ rw (e, get-insert_other p k v m e)
  ]
