-- ===== src/Inventory/Collect/Safe.antt =====
-- Removing all candidates leaves the inventory as it is.
use check_po.Prelude.{
  ℕ, ◌≡◌, refl, sym, ap, ◌∙◌, true, false, not, Option, none, some, List, [], String, ◌==◌, get_or,
}
use check_po.Prelude.Result.{ok, reject_if}
use check_po.Prelude.Map.{mem, insert_key}
use check_po.Prelude.Text.Utf8.{as_bytes}
use check_po.Codec.{Digest32}
use check_po.Inventory.{InventoryResult, corruption, LeafRef, SetRoot}
use check_po.Inventory.Store.{
  Files, InventoryHead, inventory_state_path, inventory_set_root_path, inventory_set_leaf_path,
  load_set_root, inventory_head,
}
use check_po.Inventory.Store.Loaded.{run-eq_ok, lift-eq_ok, last-eq_ok}
use check_po.Inventory.Collect.{
  Entry, Candidates, sort_candidates, walk_stores, lineage_from, reach_slots,
  inventory_gc_candidates,
}
use check_po.Inventory.Collect.Spared.{
  kept, there, is_candidate, is_candidate-sort_candidates, walk_stores-spares,
}
use check_po.Inventory.Collect.Needed.{
  Ancestor, lineage_from-Ancestor, reach_slots-keeps, reach_slots-leaf,
}

-- The leaf of a slot, when it has one, is no candidate.
abbrev pub IsSlotSpared : Option LeafRef → Candidates → Type 0
IsSlotSpared none candidates = Unit {0}
IsSlotSpared (some r) candidates =
    is_candidate (as_bytes (inventory_set_leaf_path r.id)) candidates ≡ false

module _ (walk : String → List (InventoryResult Entry)) (reachable : List (List ℕ))
    (found candidates : Candidates) (walked : walk_stores walk reachable ≡ ok found)
    (sorted : sort_candidates found ≡ candidates) where
  spared : (p : List ℕ) → mem p reachable ≡ true → is_candidate p candidates ≡ false
  spared p needed =
      sym (ap (is_candidate p) sorted)
      ∙ is_candidate-sort_candidates p found
      ∙ walk_stores-spares p reachable needed walk found walked

  slot_spared :
      (slot : Option LeafRef)
      → ((r : LeafRef)
          → slot ≡ some r
          → mem (as_bytes (inventory_set_leaf_path r.id)) reachable ≡ true)
      → IsSlotSpared slot candidates
  slot_spared none h = tt
  slot_spared (some r) h = spared (as_bytes (inventory_set_leaf_path r.id)) (h r refl)

-- If the head and its set root are read and the candidates are found, then no candidate is the file
-- of a state that the head reaches through parents, of the set root or of the leaf of a slot.
pub inventory_gc_candidates-IsSlotSpared :
    (hash : List ℕ → Digest32) (project_id : List ℕ) (walk : String → List (InventoryResult Entry))
    (files files' : Files) (head ancestor : InventoryHead) (root : SetRoot) (slot : ℕ)
    (candidates : Candidates)
    → inventory_head hash project_id files ≡ (ok head, files)
    → load_set_root hash head.state.set_root project_id files ≡ (ok root, files)
    → Ancestor hash project_id files ancestor head
    → inventory_gc_candidates hash project_id walk files ≡ (ok candidates, files')
    → (is_candidate (as_bytes (inventory_state_path ancestor.id)) candidates ≡ false)
      × (is_candidate (as_bytes (inventory_set_root_path head.state.set_root)) candidates ≡ false)
      × IsSlotSpared (get_or root.leaves slot none) candidates
unfolding inventory_gc_candidates
inventory_gc_candidates-IsSlotSpared hash project_id walk files files' head ancestor root slot
      candidates read loaded up h =
    let e = corruption "snapshot inventory state count does not match its set root" in
    let h0 = rw (read, loaded) at h in
    let (u1, g1, h1) = lift-eq_ok (reject_if (not (root.count == head.state.count)) e) files _ h0 in
    let (states, files1, g2, h2) =
      run-eq_ok (lineage_from hash project_id head.state.generation [] [] head files) _ h1 in
    let top = as_bytes (inventory_set_root_path head.state.set_root) in
    let (reachable, files2, g3, h3) =
      run-eq_ok (reach_slots hash project_id 0 root.leaves (insert_key top states) files1) _ h2 in
    let (found, g4, h4) = lift-eq_ok (walk_stores walk reachable) files2 _ h3 in
    let sorted = (last-eq_ok (sort_candidates found) candidates files2 files' h4).0 in
    let keeps = λ (p : List ℕ).
      reach_slots-keeps hash project_id files 0 root.leaves (insert_key top states) reachable files1
        files2 p g3 in
    let state = as_bytes (inventory_state_path ancestor.id) in
    (
      spared walk reachable found candidates g4 sorted state (
          keeps state (
            kept state top states (
              lineage_from-Ancestor hash project_id files head.state.generation [] [] states head
                ancestor files1 g2 up))),
      spared walk reachable found candidates g4 sorted top (keeps top (there top states)),
      slot_spared walk reachable found candidates g4 sorted (get_or root.leaves slot none) (λ r e.
          reach_slots-leaf hash project_id files 0 root.leaves (insert_key top states) reachable
            files1 files2 slot r g3 e),
    )
