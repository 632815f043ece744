-- ===== src/Inventory/Change/Samples/Tests.antt =====
-- A snapshot is added to an empty inventory.
use check_po.Prelude.{
  ℕ, ◌≡◌, refl, sym, ap, ◌∙◌, false, inl, inr, none, some, List, arith, list_eq, list_eq→eq,
  Bool-cases,
}
use check_po.Prelude.Result.{ok}
use check_po.Prelude.Bytes.{to_be_bytes, le_bytes}
use check_po.Prelude.Map.{get, insert, get-insert_other}
use check_po.Prelude.Slices.{joined}
use check_po.Codec.Samples.{sixteen}
use check_po.Path.Id.{encode_lower_hex}
use check_po.Inventory.{add, SetRoot, decode_set_root}
use check_po.Inventory.Root.{decode_set_root-encode_set_root}
use check_po.Inventory.Store.{
  Files, inventory_set_root_path, inventory_set_leaf_path, set_root_id, content_id, load_set_root,
}
use check_po.Inventory.Change.{changed_count, set_root_contains, mutate_set}
use check_po.Inventory.Change.Slots.{Keeps}
use check_po.Inventory.Change.Parts.{after}
use check_po.Inventory.Change.Refines.{mutate_set-after}
use check_po.Inventory.Listing.{first_state}
use check_po.Inventory.Change.Samples.{
  adds, files_stored, files-HoldsBytes, part_hash, part_hash-IsArray, part_hash_not_zero,
  no_slots-IsSetRootValue, no_slots_encodes, no_slots_id, files, no_slots_loads, snapshot-IsArray,
  one_leaf_id, one_slot_id, files_between, files_after, no_slots, root_stored, snapshot,
  leaf_stored, one_slot,
}

insert-Keeps :
    (path bytes : List ℕ) (fs : Files) → get path fs ≡ none → Keeps fs (insert path bytes fs)
insert-Keeps path bytes fs free k v h = elim (Bool-cases (list_eq path k)) [
  | inl e ↦
      let none_here : none ≡ some v = sym free ∙ (ap (λ p. get p fs) (list_eq→eq path k e) ∙ h) in
      cc none_here
  | inr e ↦ get-insert_other k path bytes fs e ∙ h
]

leaf_free : get (inventory_set_leaf_path one_leaf_id) files ≡ none
unfolding files get inventory_set_leaf_path inventory_set_root_path list_eq
leaf_free = refl

roots_differ :
    list_eq (inventory_set_root_path no_slots_id) (inventory_set_root_path one_slot_id) ≡ false
unfolding inventory_set_root_path list_eq no_slots_id one_slot_id part_hash set_root_id content_id
    encode_lower_hex joined to_be_bytes le_bytes
roots_differ = refl

paths_differ :
    list_eq (inventory_set_leaf_path one_leaf_id) (inventory_set_root_path one_slot_id) ≡ false
unfolding inventory_set_leaf_path inventory_set_root_path list_eq
paths_differ = refl

root_free : get (inventory_set_root_path one_slot_id) files_between ≡ none
unfolding files_between files get
root_free =
    get-insert_other (inventory_set_root_path one_slot_id) (inventory_set_leaf_path one_leaf_id)
      leaf_stored files paths_differ
    ∙ rw roots_differ refl

keeps : Keeps files files_after
unfolding files_after files_between
keeps k v h =
    insert-Keeps (inventory_set_root_path one_slot_id) (root_stored one_slot) files_between
      root_free k v
      (insert-Keeps (inventory_set_leaf_path one_leaf_id) leaf_stored files leaf_free k v h)

not_there : set_root_contains part_hash sixteen no_slots snapshot files ≡ (ok false, files)
unfolding set_root_contains
not_there = refl

added :
    mutate_set part_hash sixteen (first_state sixteen no_slots_id) add snapshot files
    ≡ (ok (one_slot_id, 1), files_after)
unfolding files_after files_between
added = adds files files_stored

mutate_set-after_example :
    (changed_count add 0 ≡ ok 1)
    × ((root : SetRoot) × (load_set_root part_hash one_slot_id sixteen files_after
          ≡ (ok root, files_after))
        × (root.count ≡ 1)
        × (set_root_contains part_hash sixteen root snapshot files_after
            ≡ (ok (after add snapshot snapshot false), files_after)))
mutate_set-after_example =
    mutate_set-after part_hash part_hash-IsArray part_hash_not_zero files files_after sixteen
      (first_state sixteen no_slots_id) add snapshot one_slot_id 1 no_slots snapshot false
      files-HoldsBytes snapshot-IsArray keeps (omega arith) (no_slots_loads files files_stored)
      not_there added

decode_set_root-encode_set_root_example : decode_set_root (root_stored no_slots) ≡ ok no_slots
decode_set_root-encode_set_root_example =
    decode_set_root-encode_set_root no_slots (root_stored no_slots) no_slots-IsSetRootValue
      no_slots_encodes
