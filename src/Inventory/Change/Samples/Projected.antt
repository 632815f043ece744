-- ===== src/Inventory/Change/Samples/Projected.antt =====
-- The removal of the only snapshot is projected.
use check_po.Prelude.{◌≡◌, refl, true, none, some, List, [], ◌∷◌, arith, list_eq, list_eq_refl}
use check_po.Prelude.Result.{ok}
use check_po.Prelude.Decided.{bytes_decided}
use check_po.Prelude.Map.{get, compare_text, mem, insert_key, collect_keys}
use check_po.Codec.{Digest32}
use check_po.Codec.Samples.{sixteen, sample_digest, sample_digest-IsArray}
use check_po.Inventory.{add, InventoryState, encode_state}
use check_po.Inventory.State.{IsStateValue}
use check_po.Inventory.Root.{
  IsSlot, IsSetRootValue, decode_set_root-encode_set_root, length-decoded,
}
use check_po.Inventory.Leaf.{
  IsSetLeafValue, decode_set_leaf-encode_set_leaf, length-encode_set_leaf,
}
use check_po.Inventory.Store.{
  Files, M, InventoryHead, inventory_head_path, inventory_state_path, inventory_set_root_path,
  inventory_set_leaf_path, state_id, set_root_id, set_leaf_id, content_id, inventory_head,
  load_set_root, load_set_leaf,
}
use check_po.Inventory.Store.Heads.{head_bytes, inventory_head-found}
use check_po.Inventory.Store.Loaded.{RootAt-load_set_root, LeafAt-load_set_leaf}
use check_po.Inventory.Change.{binary_search, counted_leaf, set_root_contains}
use check_po.Inventory.Change.Parts.{set-All}
use check_po.Inventory.Listing.{empty_slots, insert_ids, collect_slots, load_inventory_ids}
use check_po.Inventory.Access.{validate_physical_snapshot_inventory}
use check_po.Inventory.Access.Physical.{validate_physical_snapshot_inventory-Same}
use check_po.Inventory.Change.Next.{written-StateAt, state_id-IsArray}
use check_po.Inventory.Change.Samples.{
  part_hash, part_hash-IsArray, part_hash_not_zero, snapshot, snapshot-IsArray, one_leaf,
  leaf_stored, leaf_encodes, one_leaf_id, one_slot, one_slot_encodes, one_slot_id, root_stored,
  empty_slots-IsSlot,
}
use check_po.Inventory.Removal.{round, survivor, project_snapshot_removal}
use check_po.Inventory.Removal.Lineage.{survivor-round}
use check_po.Inventory.Removal.Latest.{Contained, IsLatest, project_snapshot_removal-IsLatest}

abbrev only : InventoryState
only = record {
  project_id = sixteen;
  generation = 1;
  count = 1;
  operation = add;
  parent = some sample_digest;
  snapshot_id = some snapshot;
  operation_id = sample_digest;
  set_root = one_slot_id;
}

only_id : Digest32
only_id = state_id part_hash (encode_state only)

abbrev only_head : InventoryHead
only_head = record { id = only_id; state = only }

files_of_one : Files
files_of_one =
    (inventory_head_path, head_bytes only_id)
    ∷ (inventory_state_path only_id, encode_state only)
    ∷ (inventory_set_root_path one_slot_id, root_stored one_slot)
    ∷ (inventory_set_leaf_path one_leaf_id, leaf_stored)
    ∷ []

only-IsStateValue : IsStateValue only
unfolding one_slot_id set_root_id content_id
only-IsStateValue = record {
  project_id = (refl, bytes_decided sixteen refl);
  generation = omega arith;
  count = omega arith;
  parent = sample_digest-IsArray;
  snapshot_id = snapshot-IsArray;
  operation_id = sample_digest-IsArray;
  set_root = part_hash-IsArray _;
}

state_there : get (inventory_state_path only_id) files_of_one ≡ some (encode_state only)
unfolding files_of_one get inventory_state_path list_eq
state_there = rw (list_eq_refl (inventory_state_path only_id)) refl

root_there : get (inventory_set_root_path one_slot_id) files_of_one ≡ some (root_stored one_slot)
unfolding files_of_one get inventory_state_path inventory_set_root_path list_eq
root_there = rw (list_eq_refl (inventory_set_root_path one_slot_id)) refl

leaf_there : get (inventory_set_leaf_path one_leaf_id) files_of_one ≡ some leaf_stored
unfolding files_of_one get inventory_state_path inventory_set_root_path inventory_set_leaf_path
    list_eq
leaf_there = rw (list_eq_refl (inventory_set_leaf_path one_leaf_id)) refl

head_there : get inventory_head_path files_of_one ≡ some (head_bytes only_id)
unfolding files_of_one get list_eq
head_there = refl

reads_only : inventory_head part_hash sixteen files_of_one ≡ (ok only_head, files_of_one)
unfolding only_id
reads_only =
    inventory_head-found part_hash files_of_one sixteen only_head
      (state_id-IsArray part_hash part_hash-IsArray part_hash_not_zero _) head_there
      (written-StateAt part_hash part_hash-IsArray part_hash_not_zero files_of_one sixteen only
        only-IsStateValue refl refl state_there)

one_slot-IsSetRootValue : IsSetRootValue one_slot
unfolding one_leaf_id set_leaf_id content_id
one_slot-IsSetRootValue = record {
  project_id = (refl, bytes_decided sixteen refl);
  count = omega arith;
  leaves =
      set-All IsSlot (empty_slots 256) 255 (some (record { id = one_leaf_id; count = 1 }))
        (part_hash-IsArray _, part_hash_not_zero _, omega arith, omega arith)
        (empty_slots-IsSlot 256);
}

one_leaf-IsSetLeafValue : IsSetLeafValue one_leaf
one_leaf-IsSetLeafValue = record {
  project_id = (refl, bytes_decided sixteen refl);
  prefix = omega arith;
  ids = (snapshot-IsArray, tt);
}

loads_one_slot :
    load_set_root part_hash one_slot_id sixteen files_of_one ≡ (ok one_slot, files_of_one)
unfolding one_slot_id
loads_one_slot =
    let decodes =
      decode_set_root-encode_set_root one_slot (root_stored one_slot) one_slot-IsSetRootValue
        one_slot_encodes in
    RootAt-load_set_root part_hash files_of_one one_slot_id sixteen one_slot (record {
      bytes = root_stored one_slot;
      stored = root_there;
      sized = length-decoded one_slot (root_stored one_slot) decodes;
      named = refl;
      decodes = decodes;
      owned = refl;
    })

loads_one_leaf :
    load_set_leaf part_hash one_leaf_id sixteen 255 files_of_one ≡ (ok one_leaf, files_of_one)
unfolding one_leaf_id
loads_one_leaf =
    LeafAt-load_set_leaf part_hash files_of_one one_leaf_id sixteen 255 one_leaf (record {
      bytes = leaf_stored;
      stored = leaf_there;
      sized =
          omega (
            arith,
            length-encode_set_leaf one_leaf leaf_stored one_leaf-IsSetLeafValue leaf_encodes,
          );
      named = refl;
      decodes =
          decode_set_leaf-encode_set_leaf one_leaf leaf_stored one_leaf-IsSetLeafValue leaf_encodes;
      owned = refl;
      placed = refl;
    })

holds_snapshot :
    set_root_contains part_hash sixteen one_slot snapshot files_of_one ≡ (ok true, files_of_one)
unfolding set_root_contains counted_leaf binary_search compare_text
holds_snapshot = rw loads_one_leaf refl

projects :
    project_snapshot_removal part_hash sixteen snapshot (some snapshot) none files_of_one
    ≡ (ok (0, none), files_of_one)
unfolding project_snapshot_removal
projects = rw (reads_only, loads_one_slot, holds_snapshot, list_eq_refl snapshot) refl

project_snapshot_removal-IsLatest_example :
    (head : InventoryHead) × (inventory_head part_hash sixteen files_of_one
      ≡ (ok head, files_of_one))
    × (head.state.count ≡ 1)
    × Contained part_hash sixteen files_of_one head snapshot
    × IsLatest part_hash sixteen files_of_one head snapshot (some snapshot) 0 none
project_snapshot_removal-IsLatest_example =
    project_snapshot_removal-IsLatest part_hash sixteen snapshot (some snapshot) none files_of_one
      files_of_one 0 none projects

survivor-round_example :
    survivor part_hash sixteen (snapshot ∷ []) [] only_head files_of_one
    ≡ round part_hash sixteen
        (snapshot ∷ [])
        []
        (survivor part_hash sixteen (snapshot ∷ []) (only_id ∷ []))
        only_head
        files_of_one
survivor-round_example = survivor-round part_hash sixteen (snapshot ∷ []) [] only_head files_of_one

lists_snapshot :
    load_inventory_ids part_hash sixteen only files_of_one ≡ (ok (snapshot ∷ []), files_of_one)
unfolding load_inventory_ids collect_slots insert_ids counted_leaf mem insert_key
lists_snapshot = rw (loads_one_slot, loads_one_leaf) refl

one_stored : M (List Digest32)
one_stored fs = (ok (snapshot ∷ []), fs)

compares :
    validate_physical_snapshot_inventory part_hash one_stored sixteen files_of_one
    ≡ (ok (snapshot ∷ []), files_of_one)
unfolding validate_physical_snapshot_inventory one_stored collect_keys list_eq files_of_one
compares = rw (reads_only, lists_snapshot, reads_only, list_eq_refl only_id) refl

validate_physical_snapshot_inventory-Same_example :
    (head : InventoryHead) × (again : InventoryHead) × (inventory_ids : List Digest32)
    × (listed : Files) × (inventory_head part_hash sixteen files_of_one ≡ (ok head, files_of_one))
    × (load_inventory_ids part_hash sixteen head.state files_of_one
        ≡ (ok inventory_ids, files_of_one))
    × (one_stored files_of_one ≡ (ok (snapshot ∷ []), listed))
    × (mem snapshot (snapshot ∷ []) ≡ mem snapshot inventory_ids)
    × (inventory_head part_hash sixteen listed ≡ (ok again, listed))
    × (again.id ≡ head.id)
validate_physical_snapshot_inventory-Same_example =
    validate_physical_snapshot_inventory-Same part_hash one_stored sixteen files_of_one files_of_one
      (snapshot ∷ []) snapshot compares
