-- ===== src/Plan/Sorted.antt =====
-- The plan that `OperationPlan::new` makes of operations.
use check_po.Prelude.{
  ℕ, ◌≡◌, refl, sym, ap, ◌∙◌, inl, inr, Option, List, [], ◌∷◌, list_eq, list_eq→eq, Bool-cases,
  if◌then◌else◌,
}
use check_po.Prelude.Map.{
  Map, Comparison, less, equal, greater, compare_text, compare_text_refl, get, collect, keys,
}
use check_po.Prelude.Map.Collect.{IsDistinct}
use check_po.Plan.{
  CurrentFileState, SnapshotFile, FileOperation, by_path, insert_operation, sort_operations, place,
  new_operation_plan, restore_operations,
}
use check_po.Plan.Effect.{state_after, performed, content, file_content}
use check_po.Plan.Restore.{restore_operations-content}

-- Operations on different paths commute.
step : FileOperation → List ℕ → Option CurrentFileState → Option CurrentFileState
step o p c = if list_eq o.path p then performed o.operation_type o c else c

commute :
    (o x : FileOperation) (p : List ℕ) (c : Option CurrentFileState)
    → compare_text o.path x.path ≡ greater
    → step o p (step x p c) ≡ step x p (step o p c)
unfolding step
commute o x p c h = elim (Bool-cases (list_eq o.path p)) [
  | inr e ↦ rw e
  | inl e ↦ elim (Bool-cases (list_eq x.path p)) [
    | inr e' ↦ rw (e, e')
    | inl e' ↦
        let same : o.path ≡ x.path = list_eq→eq _ _ e ∙ sym (list_eq→eq _ _ e') in
        absurd (cc (h, same, compare_text_refl x.path))
  ]
]

insert_operation-state :
    (o : FileOperation) (os : List FileOperation) (p : List ℕ) (c : Option CurrentFileState)
    → state_after (insert_operation o os) p c ≡ state_after os p (step o p c)
unfolding insert_operation state_after step
insert_operation-state o [] p c = refl
insert_operation-state o (x ∷ os) p c =
    by (insert_operation-state o os p (step x p c)) (compare_text o.path x.path) refl
  where
    by :
        state_after (insert_operation o os) p (step x p c)
          ≡ state_after os p (step o p (step x p c))
        → (k : Comparison) → compare_text o.path x.path ≡ k
        → state_after (place k o (x ∷ os) (x ∷ insert_operation o os)) p c
          ≡ state_after (x ∷ os) p (step o p c)
    by ih less e = refl
    by ih equal e = refl
    by ih greater e = ih ∙ ap (state_after os p) (commute o x p c e)

sort_operations-state :
    (os : List FileOperation) (p : List ℕ) (c : Option CurrentFileState)
    → state_after (sort_operations os) p c ≡ state_after os p c
unfolding sort_operations
sort_operations-state [] p c = refl
sort_operations-state (o ∷ os) p c =
    insert_operation-state o (sort_operations os) p c
    ∙ sort_operations-state os p (step o p c)
    ∙ unfold state_after in unfold step in refl

-- The sorted plan does what its operations do in any case.
pub new_operation_plan-state :
    (os : List FileOperation) (p : List ℕ) (c : Option CurrentFileState)
    → state_after (new_operation_plan os).operations p c ≡ state_after os p c
unfolding new_operation_plan
new_operation_plan-state os p c = sort_operations-state os p c

-- If the snapshot's files have different paths, then the operations of the restore plan, performed
-- in the plan's order on the files that were scanned, leave at every path a file with the hash and
-- the time that the snapshot has there, and no file where the snapshot has none.
pub restore_plan-content :
    (files : List SnapshotFile) (working : Map CurrentFileState) (p : List ℕ)
    → IsDistinct (keys (by_path files))
    → content (
        state_after
          (new_operation_plan (restore_operations files working)).operations
          p
          (get p (collect [] working)))
      ≡ file_content (get p (by_path files))
restore_plan-content files working p d =
    ap content
      (new_operation_plan-state (restore_operations files working) p (get p (collect [] working)))
    ∙ restore_operations-content files working p d
