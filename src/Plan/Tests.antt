-- ===== src/Plan/Tests.antt =====
-- A small project.
use check_po.Prelude.{
  Bool, Bool-cases, List, Option, [], ap, if◌then◌else◌, inl, inr, list_eq, list_eq→eq, none, refl,
  some, sym, ℕ, ◌++◌, ◌∙◌, ◌∷◌, ◌≡◌,
}
use check_po.Prelude.Result.{Result, ok}
use check_po.Prelude.Text.{
  codes, split, cons_head, ends_with, to_ascii_uppercase, strip_prefix, strip_suffix,
}
use check_po.Path.{
  parse, check_segments, check_segment, is_windows_reserved_name, is_reserved_device_digit,
  is_windows_forbidden_character,
}
use check_po.Plan.Scope.{unity_asset_companion_path}
use check_po.Plan.Scope.Companion.{unity_asset_companion_path-back}
use check_po.Prelude.Map.{Map, get, collect, keys, insert, compare_text, mem}
use check_po.Prelude.Map.Collect.{IsDistinct}
use check_po.Plan.{
  CurrentFileState, SnapshotFile, FileOperation, by_path, match_file, restore_operations,
  discard_operations, delete_operation, new_operation_plan,
}
use check_po.Plan.Effect.{state_after, content, file_content}
use check_po.Plan.Sorted.{restore_plan-content}
use check_po.Plan.Totals.{IsPlanOf}
use check_po.Plan.Totals.Made.{new_operation_plan-IsPlanOf}
use check_po.Plan.Discard.{IsKeyed, discard_operations-content}
use check_po.Plan.Idle.{restore_operations-idle}

abbrev file_a : SnapshotFile
file_a = record {
  path = codes "Assets/a";
  content_hash = codes "11";
  content_size_bytes = 5;
  modified_at_utc = codes "t1";
}

abbrev file_b : SnapshotFile
file_b = record {
  path = codes "Assets/b";
  content_hash = codes "22";
  content_size_bytes = 6;
  modified_at_utc = codes "t1";
}

abbrev files : List SnapshotFile
files = file_a ∷ file_b ∷ []

abbrev changed_b : CurrentFileState
changed_b = record { hash = codes "33"; size_bytes = 9; modified_at_utc = codes "t2" }

-- One file is missing, one is changed and one is new.
abbrev working : Map CurrentFileState
working = (codes "Assets/b", changed_b) ∷ (codes "Assets/c", changed_b) ∷ []

files-IsDistinct : IsDistinct (keys (by_path files))
unfolding keys mem list_eq
files-IsDistinct = (refl, (refl, tt))

restore_plan-content_example :
    content (
      state_after
        (new_operation_plan (restore_operations files working)).operations
        (codes "Assets/b")
        (get (codes "Assets/b") (collect [] working)))
    ≡ file_content (get (codes "Assets/b") (by_path files))
restore_plan-content_example =
    restore_plan-content files working (codes "Assets/b") files-IsDistinct

new_operation_plan-IsPlanOf_example :
    IsPlanOf
      (restore_operations files working)
      (new_operation_plan (restore_operations files working))
new_operation_plan-IsPlanOf_example = new_operation_plan-IsPlanOf (restore_operations files working)

-- The reads of a project with these files.
abbrev reading : List ℕ → Bool → Result ℕ (Option CurrentFileState)
reading p b = ok (get p working)

abbrev snapshot_map : Map SnapshotFile
snapshot_map = by_path files

snapshot_map-IsKeyed : IsKeyed snapshot_map
unfolding get
snapshot_map-IsKeyed p file h = elim (Bool-cases (list_eq (codes "Assets/a") p)) [
  | inl e ↦
      let same : file_a ≡ file = cc (rw e at h) in
      sym (ap (λ (f : SnapshotFile). f.path) same) ∙ list_eq→eq (codes "Assets/a") p e
  | inr e ↦ elim (Bool-cases (list_eq (codes "Assets/b") p)) [
    | inl e' ↦
        let same : file_b ≡ file = cc (rw (e, e') at h) in
        sym (ap (λ (f : SnapshotFile). f.path) same) ∙ list_eq→eq (codes "Assets/b") p e'
    | inr e' ↦ absurd (cc (rw (e, e') at h))
  ]
]

abbrev selection : List (List ℕ)
selection = codes "Assets/b" ∷ codes "Assets/c" ∷ []

abbrev discarded : List FileOperation
discarded =
    match_file file_b (some changed_b) ++ (delete_operation (codes "Assets/c") changed_b ∷ [])

selection-discarded : discard_operations reading snapshot_map selection ≡ ok discarded
unfolding discard_operations get list_eq
selection-discarded = refl

discard_operations-content_example :
    content (state_after discarded (codes "Assets/b") (get (codes "Assets/b") working)) ≡ (
      if mem (codes "Assets/b") selection
      then file_content (get (codes "Assets/b") snapshot_map)
      else content (get (codes "Assets/b") working))
discard_operations-content_example =
    discard_operations-content reading (λ p. get p working) snapshot_map selection discarded
      (codes "Assets/b") (λ q b. refl) snapshot_map-IsKeyed selection-discarded

-- The files after the restore, one of them with another size.
abbrev restored : Map CurrentFileState
restored =
    (codes "Assets/a", record { hash = codes "11"; size_bytes = 5; modified_at_utc = codes "t1" })
    ∷ (codes "Assets/b", record { hash = codes "22"; size_bytes = 6; modified_at_utc = codes "t1" })
    ∷ []

restored-same :
    (p : List ℕ) → content (get p (collect [] restored)) ≡ file_content (get p (by_path files))
unfolding get collect insert compare_text
restored-same p = elim (Bool-cases (list_eq (codes "Assets/a") p)) [
  | inl e ↦ rw e
  | inr e ↦ elim (Bool-cases (list_eq (codes "Assets/b") p)) [
    | inl e' ↦ rw (e, e')
    | inr e' ↦ rw (e, e')
  ]
]

restore_operations-idle_example : restore_operations files restored ≡ []
restore_operations-idle_example =
    restore_operations-idle files restored files-IsDistinct restored-same

abbrev tracked : List ℕ
tracked = codes "Assets/a"

tracked-parses : parse tracked ≡ ok tracked
unfolding parse split cons_head check_segments check_segment ends_with list_eq
    is_windows_reserved_name is_reserved_device_digit is_windows_forbidden_character
    to_ascii_uppercase strip_prefix
tracked-parses = refl

tracked-plain : strip_suffix (codes ".meta") tracked ≡ none
unfolding strip_suffix strip_prefix
tracked-plain = refl

tracked-companion : unity_asset_companion_path tracked ≡ some (codes "Assets/a.meta")
unfolding unity_asset_companion_path strip_suffix parse split cons_head check_segments check_segment
    ends_with list_eq is_windows_reserved_name is_reserved_device_digit
    is_windows_forbidden_character to_ascii_uppercase strip_prefix
tracked-companion = refl

unity_asset_companion_path-back_example :
    (codes "Assets/a.meta" ≡ tracked ++ codes ".meta")
    × (unity_asset_companion_path (codes "Assets/a.meta") ≡ some tracked)
unity_asset_companion_path-back_example =
    unity_asset_companion_path-back tracked (codes "Assets/a.meta") tracked-parses tracked-plain
      tracked-companion
