-- ===== src/Prelude/Map.antt =====
-- `BTreeMap` and `BTreeSet` with texts as keys: association lists that `insert` keeps in the order
-- of the keys. The order of UTF-8 bytes is the order of code points.
pub mod Collect
pub mod Order
use Prim.Native.Nat.{ℕ, compare, Ordering}
use mathlib.Core.Path.{◌≡◌, refl, ap, sym, ◌∙◌}
use mathlib.Core.Logic.{◌≢◌, inl, inr}
use mathlib.Core.Bool.{Bool, true, false, not, ◌&&◌, ◌||◌}
use mathlib.Core.Option.{Option, none, some}
use mathlib.Core.List.{List, [], ◌∷◌, ◌++◌}
use check_po.Prelude.Lists.{All}
use native.Mathlib.Omega.{arith}
use check_po.Prelude.Tests.{◌==◌, list_eq, list_eq→eq, list_eq_refl, Bool-cases, if◌then◌else◌}

pub data Comparison : Type 0 where
  less equal greater : Comparison

abbrev compare_nat : ℕ → ℕ → Comparison
compare_nat a b = elim (compare a b) [
  | Ordering.lt ↦ less
  | Ordering.eq ↦ equal
  | Ordering.gt ↦ greater
]

abbrev and_if_equal : Comparison → Comparison → Comparison
and_if_equal less rest = less
and_if_equal equal rest = rest
and_if_equal greater rest = greater

-- `Ord` of texts.
unfoldable pub compare_text : List ℕ → List ℕ → Comparison
compare_text [] [] = equal
compare_text [] (y ∷ ys) = less
compare_text (x ∷ xs) [] = greater
compare_text (x ∷ xs) (y ∷ ys) = and_if_equal (compare_nat x y) (compare_text xs ys)

pub compare_text-equal : (xs ys : List ℕ) → compare_text xs ys ≡ equal → xs ≡ ys
unfolding compare_text
compare_text-equal [] [] h = refl
compare_text-equal [] (y ∷ ys) h = absurd (cc h)
compare_text-equal (x ∷ xs) [] h = absurd (cc h)
compare_text-equal (x ∷ xs) (y ∷ ys) h = ground (arith, compare_text-equal xs ys)

pub compare_text_refl : (xs : List ℕ) → compare_text xs xs ≡ equal
unfolding compare_text
compare_text_refl [] = refl
compare_text_refl (x ∷ xs) = ground (arith, compare_text_refl xs)

-- Membership of a text.
unfoldable pub mem : List ℕ → List (List ℕ) → Bool
mem k [] = false
mem k (x ∷ xs) = list_eq x k || mem k xs

pub list_eq-false : (xs ys : List ℕ) → xs ≢ ys → list_eq xs ys ≡ false
list_eq-false xs ys h = elim (Bool-cases (list_eq xs ys)) [
  | inl e ↦ absurd (h (list_eq→eq xs ys e))
  | inr e ↦ e
]

-- `BTreeSet::insert`, and `collect` into a set.
insert_by : Comparison → List ℕ → List ℕ → List (List ℕ) → List (List ℕ) → List (List ℕ)
insert_by less k x xs rest = k ∷ x ∷ xs
insert_by equal k x xs rest = k ∷ xs
insert_by greater k x xs rest = x ∷ rest

unfoldable pub insert_key : List ℕ → List (List ℕ) → List (List ℕ)
unfolding insert_by compare_text
insert_key k [] = k ∷ []
insert_key k (x ∷ xs) = insert_by (compare_text k x) k x xs (insert_key k xs)

unfoldable pub collect_keys : List (List ℕ) → List (List ℕ) → List (List ℕ)
unfolding insert_key
collect_keys set [] = set
collect_keys set (k ∷ ks) = collect_keys (insert_key k set) ks

or_swap : (a b c : Bool) → (a || (b || c)) ≡ (b || (a || c))
or_swap a b c = ground arith

or_assoc : (a b c : Bool) → (a || (b || c)) ≡ ((b || a) || c)
or_assoc a b c = ground arith

or_same : (a b : Bool) → (a || b) ≡ (a || (a || b))
or_same a b = ground arith

pub mem-insert_key :
    (p k : List ℕ) (set : List (List ℕ)) → mem p (insert_key k set) ≡ (list_eq k p || mem p set)
unfolding insert_key insert_by mem
mem-insert_key p k [] = refl
mem-insert_key p k (x ∷ xs) = by (mem-insert_key p k xs) (compare_text k x) refl
  where
    by :
        mem p (insert_key k xs) ≡ (list_eq k p || mem p xs)
        → (c : Comparison) → compare_text k x ≡ c
        → mem p (insert_by c k x xs (insert_key k xs)) ≡ (list_eq k p || (list_eq x p || mem p xs))
    by ih less e = refl
    by ih equal e = rw (compare_text-equal k x e) (or_same (list_eq x p) (mem p xs))
    by ih greater e = rw ih (or_swap (list_eq x p) (list_eq k p) (mem p xs))

pub mem-collect_keys :
    (p : List ℕ) (set ks : List (List ℕ)) → mem p (collect_keys set ks) ≡ (mem p ks || mem p set)
unfolding collect_keys mem
mem-collect_keys p set [] = refl
mem-collect_keys p set (k ∷ ks) =
    mem-collect_keys p (insert_key k set) ks
    ∙ rw (mem-insert_key p k set) (or_assoc (mem p ks) (list_eq k p) (mem p set))

abbrev pub is_some {ℓ} : {A : Type ℓ} → Option A → Bool
is_some none = false
is_some (some a) = true

abbrev pub Map : Type 0 → Type 0
Map V = List (List ℕ × V)

module _ {V : Type 0} where
  -- `get`
  unfoldable pub get : List ℕ → Map V → Option V
  get k [] = none
  get k ((x, v) ∷ m) = let rest = get k m in if list_eq x k then some v else rest

  put_by : Comparison → List ℕ → V → (List ℕ × V) → Map V → Map V → Map V
  put_by less k v e m rest = (k, v) ∷ e ∷ m
  put_by equal k v e m rest = (k, v) ∷ m
  put_by greater k v e m rest = e ∷ rest

  -- `insert`
  unfoldable pub insert : List ℕ → V → Map V → Map V
  unfolding put_by compare_text
  insert k v [] = (k, v) ∷ []
  insert k v (e ∷ m) = put_by (compare_text k e.0) k v e m (insert k v m)

  pub All-insert :
      (P : List ℕ × V → Type 0) (k : List ℕ) (v : V) (m : Map V)
      → P (k, v)
      → All P m
      → All P (insert k v m)
  unfolding insert
  All-insert P k v [] p h = (p, tt)
  All-insert P k v (e ∷ m) p h =
      elim (compare_text k e.0) as (λ c. All P (put_by c k v e m (insert k v m))) [
        | less ↦ (p, h)
        | equal ↦ (p, h.1)
        | greater ↦ (h.0, All-insert P k v m p h.1)
      ]

  -- `collect::<BTreeMap<_, _>>()`: of two values for a key, the last.
  unfoldable pub collect : Map V → Map V → Map V
  unfolding insert
  collect m [] = m
  collect m ((k, v) ∷ es) = collect (insert k v m) es

  -- `keys`
  unfoldable pub keys : Map V → List (List ℕ)
  keys [] = []
  keys ((k, v) ∷ m) = k ∷ keys m

  pub get-insert_same : (k : List ℕ) (v : V) (m : Map V) → get k (insert k v m) ≡ some v
  unfolding get insert put_by
  get-insert_same k v [] = rw (list_eq_refl k)
  get-insert_same k v ((x, w) ∷ m) = by (get-insert_same k v m) (compare_text k x) refl
    where
      by :
          get k (insert k v m) ≡ some v
          → (c : Comparison) → compare_text k x ≡ c
          → get k (put_by c k v (x, w) m (insert k v m)) ≡ some v
      by ih less e = rw (list_eq_refl k)
      by ih equal e = rw (list_eq_refl k)
      by ih greater e = elim (Bool-cases (list_eq x k)) [
        | inl same ↦ absurd (cc (e, compare_text_refl k, list_eq→eq x k same))
        | inr other ↦ rw (other, ih)
      ]

  pub get-insert_other :
      (p k : List ℕ) (v : V) (m : Map V) → list_eq k p ≡ false → get p (insert k v m) ≡ get p m
  unfolding get insert put_by
  get-insert_other p k v [] h = rw h
  get-insert_other p k v ((x, w) ∷ m) h = by (get-insert_other p k v m h) (compare_text k x) refl
    where
      by :
          get p (insert k v m) ≡ get p m
          → (c : Comparison) → compare_text k x ≡ c
          → get p (put_by c k v (x, w) m (insert k v m)) ≡ get p ((x, w) ∷ m)
      by ih less e = rw h
      by ih equal e = rw (← compare_text-equal k x e, h)
      by ih greater e = rw ih

  pub mem-keys : (p : List ℕ) (m : Map V) → mem p (keys m) ≡ is_some (get p m)
  unfolding mem keys get
  mem-keys p [] = refl
  mem-keys p ((k, v) ∷ m) = elim (Bool-cases (list_eq k p)) [
    | inl e ↦ rw e
    | inr e ↦ rw (e, mem-keys p m)
  ]
