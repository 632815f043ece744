-- ===== src/Plan/Totals/Sums.antt =====
-- Sums and counts of sorted operations.
use check_po.Prelude.{
  ℕ, ◌+◌, ◌≡◌, refl, sym, subst, ◌∙◌, inl, inr, true, List, [], ◌∷◌, arith, Bool-cases,
  if◌then◌else◌,
}
use check_po.Prelude.Map.{Comparison, less, equal, greater, compare_text}
use check_po.Plan.{
  FileOperation, FileOperationType, restore, replace, delete, set_metadata, type_eq,
  insert_operation, sort_operations, place, count_type,
}
use check_po.Plan.Totals.{Counts, no_more, hit, miss, sum_of}

-- A sum over the operations, whatever their order.
sum_of-insert_operation :
    (size : FileOperationType → FileOperation → ℕ) (o : FileOperation) (os : List FileOperation)
    → sum_of size (insert_operation o os) ≡ size o.operation_type o + sum_of size os
unfolding insert_operation sum_of
sum_of-insert_operation size o [] = refl
sum_of-insert_operation size o (x ∷ os) =
    by (sum_of-insert_operation size o os) (compare_text o.path x.path)
  where
    by :
        sum_of size (insert_operation o os) ≡ size o.operation_type o + sum_of size os
        → (k : Comparison)
        → sum_of size (place k o (x ∷ os) (x ∷ insert_operation o os))
          ≡ size o.operation_type o + sum_of size (x ∷ os)
    by ih less = refl
    by ih equal = refl
    by ih greater = omega (arith, ih)

pub sum_of-sort_operations :
    (size : FileOperationType → FileOperation → ℕ) (os : List FileOperation)
    → sum_of size (sort_operations os) ≡ sum_of size os
unfolding sort_operations sum_of
sum_of-sort_operations size [] = refl
sum_of-sort_operations size (o ∷ os) =
    omega
      (arith, sum_of-insert_operation size o (sort_operations os), sum_of-sort_operations size os)

-- The count of a type is such a sum.
abbrev one_if : FileOperationType → FileOperationType → FileOperation → ℕ
one_if t type o = if type_eq type t then 1 else 0

count_type-sum_of :
    (t : FileOperationType) (os : List FileOperation) → count_type t os ≡ sum_of (one_if t) os
unfolding count_type sum_of
count_type-sum_of t [] = refl
count_type-sum_of t (o ∷ os) = ground (arith, count_type-sum_of t os)

count_type-sort_operations :
    (t : FileOperationType) (os : List FileOperation)
    → count_type t (sort_operations os) ≡ count_type t os
count_type-sort_operations t os =
    count_type-sum_of t (sort_operations os)
    ∙ sum_of-sort_operations (one_if t) os
    ∙ sym (count_type-sum_of t os)

type_eq→eq : (a b : FileOperationType) → type_eq a b ≡ true → a ≡ b
type_eq→eq a b h = ground arith

type_eq_refl : (a : FileOperationType) → type_eq a a ≡ true
type_eq_refl restore = refl
type_eq_refl replace = refl
type_eq_refl delete = refl
type_eq_refl set_metadata = refl

count_type-Counts :
    (t : FileOperationType) (os : List FileOperation) → Counts t os (count_type t os)
unfolding count_type
count_type-Counts t [] = no_more
count_type-Counts t (o ∷ os) = elim (Bool-cases (type_eq o.operation_type t)) [
  | inl e ↦ rw e (hit (type_eq→eq o.operation_type t e) (count_type-Counts t os))
  | inr e ↦ rw e (miss (λ same. absurd (cc (e, same, type_eq_refl t))) (count_type-Counts t os))
]

pub sorted_count-Counts :
    (t : FileOperationType) (os : List FileOperation)
    → Counts t os (count_type t (sort_operations os))
sorted_count-Counts t os =
    subst (Counts t os) (sym (count_type-sort_operations t os)) (count_type-Counts t os)
