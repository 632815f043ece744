-- ===== src/Inventory/Listing.antt =====
-- Starting an inventory and listing it: `initialize_snapshot_inventory_anchored` and
-- `load_inventory_ids`.
use check_po.Prelude.{
  ℕ, zero, suc, ◌+◌, Bool, not, ◌||◌, Option, none, some, List, [], ◌∷◌, length, ◌==◌,
  if◌then◌else◌,
}
use check_po.Prelude.Result.{ok, err, reject_if, ok_or}
use check_po.Prelude.Map.{get, mem, insert_key}
use check_po.Codec.{Digest32, checked_add_u64}
use check_po.Inventory.{corruption, InventoryResult, initialize, InventoryState, LeafRef, zeros}
use check_po.Inventory.Store.{
  M, ◌>>=◌, ◌>>◌, lift, store_state, load_set_root, store_set_root, inventory_head, write_head,
  inventory_head_path,
}
use check_po.Inventory.Change.{counted_leaf}

-- `vec![None; n]`
abbrev pub empty_slots : ℕ → List (Option LeafRef)
empty_slots zero = []
empty_slots (suc n) = none ∷ empty_slots n

abbrev pub first_state : List ℕ → Digest32 → InventoryState
first_state project_id set_root = record {
  project_id = project_id;
  generation = 0;
  count = 0;
  operation = initialize;
  parent = none;
  snapshot_id = none;
  operation_id = zeros 32;
  set_root = set_root;
}

-- The loop over the identifiers of one leaf.
unfoldable pub insert_ids : List Digest32 → List Digest32 → InventoryResult (List Digest32)
insert_ids [] ids = ok ids
insert_ids (id ∷ leaf_ids) ids =
    if mem id ids
    then err (corruption "snapshot inventory set contains duplicate root {id}")
    else insert_ids leaf_ids (insert_key id ids)

module _ (hash : List ℕ → Digest32) where
  -- What `open_file` of the head finds, and whether "snapshots/v2" has entries.
  abbrev pub initialize_from : List ℕ → Bool → Option (List ℕ) → M (Unit {0})
  initialize_from project_id has_snapshots (some head) = do
    _ ← inventory_head hash project_id
    lift (ok tt)
  initialize_from project_id has_snapshots none = do
    lift (
        reject_if has_snapshots
          (corruption "snapshot inventory is missing for a non-empty repository"))
    set_root ←
        store_set_root hash
          (record { project_id = project_id; count = 0; leaves = empty_slots 256 })
    id ← store_state hash (first_state project_id set_root)
    write_head id

  unfoldable pub initialize_snapshot_inventory : List ℕ → Bool → M (Unit {0})
  initialize_snapshot_inventory project_id has_snapshots files =
      initialize_from project_id has_snapshots (get inventory_head_path files) files

  -- The loop over the slots, with the identifiers and the total so far.
  unfoldable pub collect_slots :
      List ℕ → ℕ → List (Option LeafRef) → List Digest32 → ℕ → M (List Digest32 × ℕ)
  collect_slots project_id slot [] ids total = lift (ok (ids, total))
  collect_slots project_id slot (none ∷ leaves) ids total =
      collect_slots project_id (slot + 1) leaves ids total
  collect_slots project_id slot (some reference ∷ leaves) ids total = do
    leaf ← counted_leaf hash reference project_id slot
    total' ← lift (
        ok_or (checked_add_u64 total reference.count)
          (corruption "snapshot inventory set count overflow"))
    ids' ← lift (insert_ids leaf.ids ids)
    collect_slots project_id (slot + 1) leaves ids' total'

  unfoldable pub load_inventory_ids : List ℕ → InventoryState → M (List Digest32)
  load_inventory_ids project_id state = do
    root ← load_set_root hash state.set_root project_id
    lift (
        reject_if (not (root.count == state.count))
          (corruption "snapshot inventory state count does not match its set root"))
    collected ← collect_slots project_id 0 root.leaves [] 0
    lift (
        reject_if (not (collected.1 == root.count) || not (length collected.0 == root.count))
          (corruption "snapshot inventory set root count mismatch"))
    lift (ok collected.0)
