-- ===== src/Inventory/Change/Preserves.antt =====
-- Predicates on the files that a step keeps, whatever its result.
use check_po.Prelude.{ℕ, ◌≡◌, refl, ◌∙◌, false, Option, none, some, List, [], ◌∷◌, list_eq}
use check_po.Prelude.Result.{ok, err}
use check_po.Prelude.Map.{get, get-insert_other}
use check_po.Codec.{Digest32}
use check_po.Inventory.{
  InventoryResult, InventoryOperation, InventoryState, LeafRef, SetRoot, SetLeaf, encode_state,
}
use check_po.Inventory.Store.{
  Files, M, then_run, ◌>>=◌, lift, read_path, write_path, inventory_head_path, inventory_state_path,
  inventory_set_root_path, inventory_set_leaf_path, state_id, load_state, store_state,
  load_set_root, store_set_root, load_set_leaf, store_set_leaf, inventory_head,
}
use check_po.Inventory.Change.{counted_leaf, slot_leaf, store_slot, mutate_set}

-- `m` keeps `P`, also when it fails.
pub record Preserves {A : Type 0} (P : Files → Type 0) (m : M A) : Type 0 where
  pub at : (files : Files) → P files → P (m files).1

module _ {A : Type 0} {P : Files → Type 0} where
  pub Preserves-lift : (r : InventoryResult A) → Preserves P (lift r)
  Preserves-lift r = record { at = λ files p. p }

module _ {P : Files → Type 0} where
  pub Preserves-read_path : (path : List ℕ) (bound : ℕ) → Preserves P (read_path path bound)
  Preserves-read_path path bound = record { at = λ files p. p }

module _ {A B : Type 0} {P : Files → Type 0} where
  then_run-keeps :
      (r : InventoryResult A × Files) (f : A → M B)
      → ((a : A) → Preserves P (f a))
      → P r.1
      → P (then_run r f).1
  then_run-keeps (ok a, files) f h p = (h a).at files p
  then_run-keeps (err e, files) f h p = p

  pub Preserves-bind :
      (m : M A) (f : A → M B)
      → Preserves P m
      → ((a : A) → Preserves P (f a))
      → Preserves P (m >>= f)
  Preserves-bind m f h k = record { at = λ files p. then_run-keeps (m files) f k (h.at files p) }

pub ruleset preserves_rules = (Preserves-lift, Preserves-read_path, Preserves-bind)

pub state_path-ne-head :
    (id : Digest32) → list_eq (inventory_state_path id) inventory_head_path ≡ false
unfolding inventory_state_path list_eq
state_path-ne-head id = refl

root_path-ne-head :
    (id : Digest32) → list_eq (inventory_set_root_path id) inventory_head_path ≡ false
unfolding inventory_set_root_path list_eq
root_path-ne-head id = refl

leaf_path-ne-head :
    (id : Digest32) → list_eq (inventory_set_leaf_path id) inventory_head_path ≡ false
unfolding inventory_set_leaf_path list_eq
leaf_path-ne-head id = refl

pub root_path-ne-state :
    (id state : Digest32)
    → list_eq (inventory_set_root_path id) (inventory_state_path state) ≡ false
unfolding inventory_set_root_path inventory_state_path list_eq
root_path-ne-state id state = refl

pub leaf_path-ne-state :
    (id state : Digest32)
    → list_eq (inventory_set_leaf_path id) (inventory_state_path state) ≡ false
unfolding inventory_set_leaf_path inventory_state_path list_eq
leaf_path-ne-state id state = refl

pub head-ne-state_path :
    (state : Digest32) → list_eq inventory_head_path (inventory_state_path state) ≡ false
unfolding inventory_state_path list_eq
head-ne-state_path state = refl

module _ (hash : List ℕ → Digest32) where
  module _ {P : Files → Type 0} where
    pub load_state-Preserves :
        (id : Digest32) (project_id : List ℕ) → Preserves P (load_state hash id project_id)
    unfolding load_state
    load_state-Preserves id project_id = search preserves_rules depth 30

    pub load_set_root-Preserves :
        (id : Digest32) (project_id : List ℕ) → Preserves P (load_set_root hash id project_id)
    unfolding load_set_root
    load_set_root-Preserves id project_id = search preserves_rules depth 30

    pub load_set_leaf-Preserves :
        (id : Digest32) (project_id : List ℕ) (prefix : ℕ)
        → Preserves P (load_set_leaf hash id project_id prefix)
    unfolding load_set_leaf
    load_set_leaf-Preserves id project_id prefix = search preserves_rules depth 30

    pub inventory_head-Preserves :
        (project_id : List ℕ) → Preserves P (inventory_head hash project_id)
    unfolding inventory_head
    inventory_head-Preserves project_id = search (preserves_rules, load_state-Preserves) depth 30

    pub counted_leaf-Preserves :
        (r : LeafRef) (project_id : List ℕ) (prefix : ℕ)
        → Preserves P (counted_leaf hash r project_id prefix)
    unfolding counted_leaf
    counted_leaf-Preserves r project_id prefix =
        search (preserves_rules, load_set_leaf-Preserves) depth 30

    slot_leaf-Preserves :
        (slot : Option LeafRef) (project_id : List ℕ) (prefix : ℕ)
        → Preserves P (slot_leaf hash slot project_id prefix)
    slot_leaf-Preserves none project_id prefix = Preserves-lift _
    slot_leaf-Preserves (some r) project_id prefix = counted_leaf-Preserves r project_id prefix

  -- The file at a path is what it is.
  abbrev pub FileIs : List ℕ → Option (List ℕ) → Files → Type 0
  FileIs path value files = get path files ≡ value

  abbrev pub HeadIs : Option (List ℕ) → Files → Type 0
  HeadIs = FileIs inventory_head_path

  -- Writes to other paths.
  module _ (at : List ℕ) {value : Option (List ℕ)} where
    Preserves-write :
        (path bytes : List ℕ)
        → list_eq path at ≡ false
        → Preserves (FileIs at value) (write_path path bytes)
    Preserves-write path bytes e = record {
      at = λ files p. get-insert_other at path bytes files e ∙ p;
    }

    pub store_state-keeps :
        (state : InventoryState)
        → list_eq (inventory_state_path (state_id hash (encode_state state))) at ≡ false
        → Preserves (FileIs at value) (store_state hash state)
    unfolding store_state
    store_state-keeps state e = search (preserves_rules, Preserves-write) depth 30

    module _ (roots : (id : Digest32) → list_eq (inventory_set_root_path id) at ≡ false)
        (leaves : (id : Digest32) → list_eq (inventory_set_leaf_path id) at ≡ false) where
      store_set_root-keeps :
          (root : SetRoot) → Preserves (FileIs at value) (store_set_root hash root)
      unfolding store_set_root
      store_set_root-keeps root = search (preserves_rules, Preserves-write) depth 30

      store_set_leaf-keeps : (l : SetLeaf) → Preserves (FileIs at value) (store_set_leaf hash l)
      unfolding store_set_leaf
      store_set_leaf-keeps l = search (preserves_rules, Preserves-write) depth 30

      store_slot-keeps :
          (l : SetLeaf) (ids : List Digest32) → Preserves (FileIs at value) (store_slot hash l ids)
      store_slot-keeps l [] = Preserves-lift _
      store_slot-keeps l (first ∷ ids) = search (preserves_rules, store_set_leaf-keeps) depth 30

      pub mutate_set-keeps :
          (project_id : List ℕ) (state : InventoryState) (op : InventoryOperation) (id : Digest32)
          → Preserves (FileIs at value) (mutate_set hash project_id state op id)
      unfolding mutate_set
      mutate_set-keeps project_id state op id =
          search
            (
              preserves_rules, load_set_root-Preserves, slot_leaf-Preserves, store_slot-keeps,
              store_set_root-keeps,
            )
            depth 40

  module _ {head : Option (List ℕ)} where
    pub store_state-Preserves :
        (state : InventoryState) → Preserves (HeadIs head) (store_state hash state)
    store_state-Preserves state = store_state-keeps inventory_head_path state (state_path-ne-head _)

    pub mutate_set-Preserves :
        (project_id : List ℕ) (state : InventoryState) (op : InventoryOperation) (id : Digest32)
        → Preserves (HeadIs head) (mutate_set hash project_id state op id)
    mutate_set-Preserves = mutate_set-keeps inventory_head_path root_path-ne-head leaf_path-ne-head
