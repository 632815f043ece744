-- ===== src/Inventory/Access.antt =====
-- What the other parts of the program ask of the inventory: the name of its head, its count, adding
-- and removing a snapshot, and the comparison with the snapshots that are stored. Their loading of a
-- snapshot, looking for one and listing are parameters.
pub mod Physical
use check_po.Prelude.{ℕ, Bool, true, false, not, ◌&&◌, ◌||◌, List, [], ◌∷◌, list_eq}
use check_po.Prelude.Result.{ok, err, reject_if}
use check_po.Prelude.Map.{collect_keys}
use check_po.Codec.{Digest32}
use check_po.Path.Id.{encode_lower_hex}
use check_po.Inventory.{corruption, InventoryOperation, add, remove}
use check_po.Inventory.Store.{Files, M, then_run, ◌>>=◌, ◌>>◌, lift, inventory_head}
use check_po.Inventory.Change.{transition_inventory}
use check_po.Inventory.Listing.{load_inventory_ids}

-- `BTreeSet::eq`
abbrev pub sets_eq : List Digest32 → List Digest32 → Bool
sets_eq [] [] = true
sets_eq (a ∷ left) (b ∷ right) = list_eq a b && sets_eq left right
sets_eq [] (b ∷ right) = false
sets_eq (a ∷ left) [] = false

module _ (hash : List ℕ → Digest32) where
  unfoldable pub inventory_head_id : List ℕ → M (List ℕ)
  inventory_head_id project_id = do
    head ← inventory_head hash project_id
    lift (ok (encode_lower_hex head.id))

  unfoldable pub inventory_snapshot_count : List ℕ → M ℕ
  inventory_snapshot_count project_id = do
    head ← inventory_head hash project_id
    lift (ok head.state.count)

  -- `load_root_project` is the project of `load_snapshot_root_header`.
  unfoldable pub add_snapshot_to_inventory_if_head :
      (Digest32 → M (List ℕ)) → (Files → Files) → List ℕ → Digest32 → List ℕ → List ℕ → M (List ℕ)
  add_snapshot_to_inventory_if_head load_root_project others project_id snapshot_id expected_head_id
        operation_id =
      do
        root_project ← load_root_project snapshot_id
        lift (
            reject_if (not (list_eq root_project project_id))
              (corruption "snapshot {snapshot_id} belongs to project {}, expected {project_id}"))
        transition_inventory hash others project_id add snapshot_id expected_head_id operation_id

  -- `has_root` is whether `symlink_metadata` finds the snapshot's root.
  unfoldable pub remove_snapshot_from_inventory_if_head :
      (Digest32 → M Bool) → (Files → Files) → List ℕ → Digest32 → List ℕ → List ℕ → M (List ℕ)
  remove_snapshot_from_inventory_if_head has_root others project_id snapshot_id expected_head_id
        operation_id =
      do
        exists ← has_root snapshot_id
        lift (
            reject_if exists (
              corruption
                "cannot remove {snapshot_id} from inventory while its physical root exists"))
        transition_inventory hash others project_id remove snapshot_id expected_head_id operation_id

  -- `list_ids` is `list_snapshot_ids`.
  unfoldable pub validate_physical_snapshot_inventory :
      M (List Digest32) → List ℕ → M (List Digest32)
  validate_physical_snapshot_inventory list_ids project_id = do
    head ← inventory_head hash project_id
    inventory_ids ← load_inventory_ids hash project_id head.state
    physical_ids ← list_ids
    lift (
        reject_if (not (sets_eq inventory_ids (collect_keys [] physical_ids))) (
          corruption
            "snapshot inventory does not match physical roots (missing: [{}], unexpected: [{}])"))
    again ← inventory_head hash project_id
    lift (
        reject_if (not (list_eq again.id head.id))
          (corruption "snapshot inventory changed while physical roots were inspected"))
    lift (ok physical_ids)
