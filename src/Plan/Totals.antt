-- ===== src/Plan/Totals.antt =====
-- What `OperationPlan::new` counts and adds up, described on the operations that it was given.
pub mod Ordered
pub mod Sums
pub mod Made
use mathlib.Core.List.{Perm}
use check_po.Prelude.{
  ℕ, ◌+◌, ◌-◌, ◌^◌, ◌≡◌, ◌≢◌, ◌↔◌, false, Option, none, some, List, [], ◌∷◌, ltb, if◌then◌else◌,
}
use check_po.Prelude.Map.{greater, compare_text}
use check_po.Plan.{
  FileOperation, FileOperationType, restore, replace, delete, set_metadata, OperationPlan,
}

-- So many operations of a type are in a list.
pub data Counts (t : FileOperationType) : List FileOperation → ℕ → Type 0 where
  no_more : Counts t [] 0
  hit :
      {o : FileOperation} {os : List FileOperation} {n : ℕ}
      → o.operation_type ≡ t
      → Counts t os n
      → Counts t (o ∷ os) (1 + n)
  miss :
      {o : FileOperation} {os : List FileOperation} {n : ℕ}
      → o.operation_type ≢ t
      → Counts t os n
      → Counts t (o ∷ os) n

abbrev pub or_zero : Option ℕ → ℕ
or_zero none = 0
or_zero (some n) = n

-- What an operation of a type writes for the file that it leaves, and keeps of the one it finds.
abbrev pub staged_size : FileOperationType → FileOperation → ℕ
staged_size restore o = or_zero o.after_size_bytes
staged_size replace o = or_zero o.after_size_bytes
staged_size delete o = 0
staged_size set_metadata o = 0

abbrev pub backup_size : FileOperationType → FileOperation → ℕ
backup_size restore o = 0
backup_size replace o = or_zero o.before_size_bytes
backup_size delete o = or_zero o.before_size_bytes
backup_size set_metadata o = 0

unfoldable pub sum_of : (FileOperationType → FileOperation → ℕ) → List FileOperation → ℕ
sum_of size [] = 0
sum_of size (o ∷ os) = size o.operation_type o + sum_of size os

-- A sum that stops at the largest u64.
abbrev pub capped : ℕ → ℕ
capped n = if ltb n (2 ^ 64) then n else 2 ^ 64 - 1

-- No path is greater than the one that follows it.
abbrev pub IsByPath : List FileOperation → Type 0
IsByPath [] = Unit
IsByPath (o ∷ []) = Unit
IsByPath (o ∷ x ∷ os) = (compare_text o.path x.path ≢ greater) × IsByPath (x ∷ os)

-- The plan is one of these operations.
pub record IsPlanOf (os : List FileOperation) (plan : OperationPlan) : Type 0 where
  pub same : Perm plan.operations os
  pub by_path : IsByPath plan.operations
  pub restores : Counts restore os plan.restore_count
  pub replaces : Counts replace os plan.replace_count
  pub deletes : Counts delete os plan.delete_count
  pub metadata : Counts set_metadata os plan.metadata_count
  pub staged : plan.staged_bytes ≡ capped (sum_of staged_size os)
  pub backup : plan.backup_bytes ≡ capped (sum_of backup_size os)
  pub estimated :
      plan.estimated_temporary_bytes ≡ capped (sum_of staged_size os + sum_of backup_size os)
  pub changes : (plan.has_changes ≡ false) ↔ (os ≡ [])
