-- ===== src/Plan.antt =====
-- CheckPo.Core/src/transaction/plan.rs and models/transaction.rs: the plan of a restore or of a
-- discard, of a run that is not cancelled.
pub mod Effect
pub mod Restore
pub mod Sorted
pub mod Totals
pub mod Discard
pub mod Idle
pub mod Scope
mod Tests
use check_po.Prelude.{
  ℕ, ◌+◌, ◌-◌, ◌^◌, Bool, true, false, not, ◌&&◌, ◌||◌, Option, none, some, List, [], ◌∷◌, ◌++◌,
  length, ltb, list_eq, if◌then◌else◌,
}
use check_po.Prelude.Result.{Result, ok, err, ◌>>=◌}
use check_po.Prelude.Map.{
  Map, Comparison, less, equal, greater, compare_text, get, collect, is_some,
}

-- `CurrentFileState`
pub record CurrentFileState : Type 0 where
  pub hash : List ℕ
  pub size_bytes : ℕ
  pub modified_at_utc : List ℕ

-- A file of a snapshot: its path, `content_hash()`, `content_size_bytes()` and time.
pub record SnapshotFile : Type 0 where
  pub path : List ℕ
  pub content_hash : List ℕ
  pub content_size_bytes : ℕ
  pub modified_at_utc : List ℕ

pub data FileOperationType : Type 0 where
  restore replace delete set_metadata : FileOperationType

pub record FileOperation : Type 0 where
  pub operation_type : FileOperationType
  pub path : List ℕ
  pub before_hash : Option (List ℕ)
  pub before_size_bytes : Option ℕ
  pub before_modified_at_utc : Option (List ℕ)
  pub after_hash : Option (List ℕ)
  pub after_size_bytes : Option ℕ
  pub after_modified_at_utc : Option (List ℕ)

abbrev pub restore_operation : SnapshotFile → FileOperation
restore_operation file = record {
  operation_type = restore;
  path = file.path;
  before_hash = none;
  before_size_bytes = none;
  before_modified_at_utc = none;
  after_hash = some file.content_hash;
  after_size_bytes = some file.content_size_bytes;
  after_modified_at_utc = some file.modified_at_utc;
}

-- An operation on a file that is there and stays.
abbrev pub change_operation : FileOperationType → SnapshotFile → CurrentFileState → FileOperation
change_operation type file current = record {
  operation_type = type;
  path = file.path;
  before_hash = some current.hash;
  before_size_bytes = some current.size_bytes;
  before_modified_at_utc = some current.modified_at_utc;
  after_hash = some file.content_hash;
  after_size_bytes = some file.content_size_bytes;
  after_modified_at_utc = some file.modified_at_utc;
}

abbrev pub delete_operation : List ℕ → CurrentFileState → FileOperation
delete_operation path current = record {
  operation_type = delete;
  path = path;
  before_hash = some current.hash;
  before_size_bytes = some current.size_bytes;
  before_modified_at_utc = some current.modified_at_utc;
  after_hash = none;
  after_size_bytes = none;
  after_modified_at_utc = none;
}

-- The `match` on the current state of a file of the snapshot, the same in both kinds of plan.
unfoldable pub match_file : SnapshotFile → Option CurrentFileState → List FileOperation
match_file file none = restore_operation file ∷ []
match_file file (some current) =
    if not (list_eq current.hash file.content_hash)
    then change_operation replace file current ∷ []
    else if not (list_eq current.modified_at_utc file.modified_at_utc)
    then change_operation set_metadata file current ∷ []
    else []

-- The loop over the snapshot's files.
unfoldable pub restore_files : Map CurrentFileState → List SnapshotFile → List FileOperation
unfolding match_file
restore_files working_map [] = []
restore_files working_map (file ∷ files) =
    match_file file (get file.path working_map) ++ restore_files working_map files

-- The loop over the files of the project.
unfoldable pub delete_others : Map SnapshotFile → Map CurrentFileState → List FileOperation
delete_others snapshot_map [] = []
delete_others snapshot_map ((path, current) ∷ rest) =
    let others = delete_others snapshot_map rest in
    if not (is_some (get path snapshot_map)) then delete_operation path current ∷ others else others

abbrev pub by_path : List SnapshotFile → Map SnapshotFile
by_path [] = []
by_path (file ∷ files) = (file.path, file) ∷ by_path files

-- The operations of a restore, before they are sorted.
unfoldable pub restore_operations : List SnapshotFile → Map CurrentFileState → List FileOperation
unfolding restore_files delete_others collect
restore_operations files working =
    let snapshot_map = collect [] (by_path files) in
    let working_map = collect [] working in
    restore_files working_map files ++ delete_others snapshot_map working_map

abbrev pub discard_path :
    List ℕ → Option SnapshotFile → Option CurrentFileState → List FileOperation
discard_path path (some file) current = match_file file current
discard_path path none (some current) = delete_operation path current ∷ []
discard_path path none none = []

-- The loop over the selected paths. `read` is `current_file_state_for_discard`.
unfoldable pub discard_operations :
    {E : Type 0}
    → (List ℕ → Bool → Result E (Option CurrentFileState))
    → Map SnapshotFile
    → List (List ℕ)
    → Result E (List FileOperation)
unfolding match_file
discard_operations read snapshot_map [] = ok []
discard_operations read snapshot_map (path ∷ paths) = do
  current ← read path (is_some (get path snapshot_map))
  rest ← discard_operations read snapshot_map paths
  ok (discard_path path (get path snapshot_map) current ++ rest)

-- `operations.sort_by(|a, b| a.path.cmp(&b.path))`, which keeps equal paths in their order.
abbrev place :
    Comparison → FileOperation → List FileOperation → List FileOperation → List FileOperation
place greater operation here there = there
place less operation here there = operation ∷ here
place equal operation here there = operation ∷ here

unfoldable pub insert_operation : FileOperation → List FileOperation → List FileOperation
insert_operation operation [] = operation ∷ []
insert_operation operation (o ∷ os) =
    place (compare_text operation.path o.path) operation (o ∷ os)
      (o ∷ insert_operation operation os)

unfoldable pub sort_operations : List FileOperation → List FileOperation
unfolding insert_operation
sort_operations [] = []
sort_operations (o ∷ os) = insert_operation o (sort_operations os)

abbrev pub type_eq : FileOperationType → FileOperationType → Bool
type_eq restore restore = true
type_eq replace replace = true
type_eq delete delete = true
type_eq set_metadata set_metadata = true
type_eq _ _ = false

-- `filter(..).count()`
unfoldable pub count_type : FileOperationType → List FileOperation → ℕ
count_type type [] = 0
count_type type (o ∷ os) =
    let rest = count_type type os in if type_eq o.operation_type type then 1 + rest else rest

abbrev pub saturating_add_u64 : ℕ → ℕ → ℕ
saturating_add_u64 a b = if ltb (a + b) (2 ^ 64) then a + b else 2 ^ 64 - 1

abbrev pub add_size : ℕ → Option ℕ → ℕ
add_size total none = total
add_size total (some size) = saturating_add_u64 total size

unfoldable pub staged_total : ℕ → List FileOperation → ℕ
staged_total total [] = total
staged_total total (o ∷ os) =
    if type_eq o.operation_type restore || type_eq o.operation_type replace
    then staged_total (add_size total o.after_size_bytes) os
    else staged_total total os

unfoldable pub backup_total : ℕ → List FileOperation → ℕ
backup_total total [] = total
backup_total total (o ∷ os) =
    if type_eq o.operation_type delete || type_eq o.operation_type replace
    then backup_total (add_size total o.before_size_bytes) os
    else backup_total total os

-- What `OperationPlan::new` computes from the operations.
pub record OperationPlan : Type 0 where
  pub operations : List FileOperation
  pub restore_count : ℕ
  pub replace_count : ℕ
  pub delete_count : ℕ
  pub metadata_count : ℕ
  pub staged_bytes : ℕ
  pub backup_bytes : ℕ
  pub estimated_temporary_bytes : ℕ
  pub has_changes : Bool

abbrev is_empty : List FileOperation → Bool
is_empty [] = true
is_empty (o ∷ os) = false

unfoldable pub new_operation_plan : List FileOperation → OperationPlan
unfolding sort_operations count_type staged_total backup_total
new_operation_plan unsorted =
    let operations = sort_operations unsorted in
    let staged = staged_total 0 operations in
    let backup = backup_total 0 operations in
    record {
      operations = operations;
      restore_count = count_type restore operations;
      replace_count = count_type replace operations;
      delete_count = count_type delete operations;
      metadata_count = count_type set_metadata operations;
      staged_bytes = staged;
      backup_bytes = backup;
      estimated_temporary_bytes = saturating_add_u64 staged backup;
      has_changes = not (is_empty operations);
    }
