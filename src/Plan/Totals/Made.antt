-- ===== src/Plan/Totals/Made.antt =====
-- The plan that `OperationPlan::new` makes has the counts and the sums of its operations.
use native.Mathlib.Nat.{zero-add}
use check_po.Prelude.{
  ℕ, ◌+◌, ◌^◌, ◌<◌, ◌≡◌, refl, ◌∙◌, ◌↔◌, false, not, ◌||◌, Option, none, some, List, [], ◌∷◌, arith,
  if◌then◌else◌,
}
use check_po.Prelude.Map.{Comparison, less, equal, greater, compare_text}
use check_po.Plan.{
  FileOperation, FileOperationType, restore, replace, delete, set_metadata, type_eq,
  insert_operation, sort_operations, place, saturating_add_u64, add_size, staged_total,
  backup_total, is_empty, new_operation_plan,
}
use check_po.Plan.Totals.{or_zero, staged_size, backup_size, sum_of, capped, IsPlanOf}
use check_po.Plan.Totals.Ordered.{sort_operations-Perm, sort_operations-IsByPath}
use check_po.Plan.Totals.Sums.{sum_of-sort_operations, sorted_count-Counts}

-- Sums that stop at the largest u64 after every step, and once at the end.
capped-add_size :
    (total more : ℕ) (size : Option ℕ)
    → total < 2 ^ 64
    → (capped (add_size total size + more) ≡ capped (total + (or_zero size + more)))
      × (add_size total size < 2 ^ 64)
capped-add_size total more none h = (rw zero-add, h)
capped-add_size total more (some size) h = (ground arith, ground arith)

staged_total-capped :
    (os : List FileOperation) (total : ℕ)
    → total < 2 ^ 64
    → staged_total total os ≡ capped (total + sum_of staged_size os)
unfolding staged_total sum_of
staged_total-capped [] total h = ground arith
staged_total-capped (o ∷ os) total h = by o.operation_type (staged_total-capped os)
  where
    by :
        (t : FileOperationType)
        → ((total : ℕ)
            → total < 2 ^ 64
            → staged_total total os ≡ capped (total + sum_of staged_size os))
        → (if type_eq t restore || type_eq t replace
            then staged_total (add_size total o.after_size_bytes) os
            else staged_total total os)
          ≡ capped (total + (staged_size t o + sum_of staged_size os))
    by restore ih =
        let (same, fits) = capped-add_size total (sum_of staged_size os) o.after_size_bytes h in
        ih (add_size total o.after_size_bytes) fits ∙ same
    by replace ih =
        let (same, fits) = capped-add_size total (sum_of staged_size os) o.after_size_bytes h in
        ih (add_size total o.after_size_bytes) fits ∙ same
    by delete ih = rw zero-add (ih total h)
    by set_metadata ih = rw zero-add (ih total h)

backup_total-capped :
    (os : List FileOperation) (total : ℕ)
    → total < 2 ^ 64
    → backup_total total os ≡ capped (total + sum_of backup_size os)
unfolding backup_total sum_of
backup_total-capped [] total h = ground arith
backup_total-capped (o ∷ os) total h = by o.operation_type (backup_total-capped os)
  where
    by :
        (t : FileOperationType)
        → ((total : ℕ)
            → total < 2 ^ 64
            → backup_total total os ≡ capped (total + sum_of backup_size os))
        → (if type_eq t delete || type_eq t replace
            then backup_total (add_size total o.before_size_bytes) os
            else backup_total total os)
          ≡ capped (total + (backup_size t o + sum_of backup_size os))
    by restore ih = rw zero-add (ih total h)
    by replace ih =
        let (same, fits) = capped-add_size total (sum_of backup_size os) o.before_size_bytes h in
        ih (add_size total o.before_size_bytes) fits ∙ same
    by delete ih =
        let (same, fits) = capped-add_size total (sum_of backup_size os) o.before_size_bytes h in
        ih (add_size total o.before_size_bytes) fits ∙ same
    by set_metadata ih = rw zero-add (ih total h)

capped-add : (a b : ℕ) → saturating_add_u64 (capped a) (capped b) ≡ capped (a + b)
capped-add a b = ground arith

insert_operation-filled :
    (o : FileOperation) (os : List FileOperation)
    → (x : FileOperation) × ((xs : List FileOperation) × (insert_operation o os ≡ x ∷ xs))
unfolding insert_operation
insert_operation-filled o [] = (o, ([], refl))
insert_operation-filled o (y ∷ os) = by (compare_text o.path y.path)
  where
    by :
        (k : Comparison)
        → (x : FileOperation) × ((xs : List FileOperation) × (place k o
                (y ∷ os)
                (y ∷ insert_operation o os)
              ≡ x ∷ xs))
    by less = (o, (y ∷ os, refl))
    by equal = (o, (y ∷ os, refl))
    by greater = (y, (insert_operation o os, refl))

sorted_changes :
    (os : List FileOperation) → (not (is_empty (sort_operations os)) ≡ false) ↔ (os ≡ [])
unfolding sort_operations
sorted_changes [] = (λ h. refl, λ h. refl)
sorted_changes (o ∷ os) =
    let (x, rest) = insert_operation-filled o (sort_operations os) in
    (λ h. absurd (cc (rw rest.1 at h)), λ h. absurd (cc h))

-- The plan that is made of operations holds them all, by their paths, none of which is greater than
-- the next; it counts how many of them there are of each type; its staged bytes are the sum of the
-- sizes after the restores and replacements, its backup bytes that of the sizes before the deletions
-- and replacements, an unknown size counting nothing, and the temporary bytes the sum of both, each
-- the largest u64 if the sum is greater; and it has changes unless there are no operations.
pub new_operation_plan-IsPlanOf : (os : List FileOperation) → IsPlanOf os (new_operation_plan os)
unfolding new_operation_plan
new_operation_plan-IsPlanOf os =
    let staged : staged_total 0 (sort_operations os) ≡ capped (sum_of staged_size os) =
      rw (zero-add, sum_of-sort_operations staged_size os) at
        (staged_total-capped (sort_operations os) 0 (omega arith)) in
    let backup : backup_total 0 (sort_operations os) ≡ capped (sum_of backup_size os) =
      rw (zero-add, sum_of-sort_operations backup_size os) at
        (backup_total-capped (sort_operations os) 0 (omega arith)) in
    record {
      same = sort_operations-Perm os;
      by_path = sort_operations-IsByPath os;
      restores = sorted_count-Counts restore os;
      replaces = sorted_count-Counts replace os;
      deletes = sorted_count-Counts delete os;
      metadata = sorted_count-Counts set_metadata os;
      staged = staged;
      backup = backup;
      estimated = rw (staged, backup) (capped-add (sum_of staged_size os) (sum_of backup_size os));
      changes = sorted_changes os;
    }
