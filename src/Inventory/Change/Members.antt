-- ===== src/Inventory/Change/Members.antt =====
-- Storing the leaf and the root of a change.
use check_po.Prelude.{
  ℕ, ◌≤◌, ◌^◌, ◌≡◌, refl, subst, ◌∙◌, false, not, Option, none, some, List, [], ◌∷◌, arith, length,
  ltb,
}
use check_po.Prelude.Result.{ok, reject_if}
use check_po.Prelude.Map.{get, insert, get-insert_same, get-insert_other}
use check_po.Codec.{Digest32, IsArray}
use check_po.Inventory.{
  LeafRef, SetRoot, SetLeaf, is_zero, corruption, encode_set_leaf, encode_set_root,
}
use check_po.Inventory.Root.{
  IsSlot, IsSetRootValue, decode_set_root-encode_set_root, length-decoded,
}
use check_po.Inventory.Leaf.{
  IsSetLeafValue, decode_set_leaf-encode_set_leaf, length-encode_set_leaf,
}
use check_po.Inventory.Store.{
  Files, inventory_set_root_path, inventory_set_leaf_path, set_root_id, set_leaf_id, content_id,
  store_set_root, store_set_leaf,
}
use check_po.Inventory.Store.Loaded.{run-eq_ok, lift-eq_ok, last-eq_ok, RootAt, LeafAt}
use check_po.Inventory.Change.{store_slot}
use check_po.Inventory.Change.Slots.{Ids}
use check_po.Inventory.Change.Parts.{root_path-ne-leaf_path}

-- blake3's result has 32 bytes; that it is not all zeros is a property of the texts that are hashed.
module _ (hash : List ℕ → Digest32) (arrays : (bs : List ℕ) → IsArray 32 (hash bs))
    (not_zero : (bs : List ℕ) → is_zero (hash bs) ≡ false) where
  -- The leaves stand as before.
  abbrev pub SameLeaves : Files → Files → Type 0
  SameLeaves files files' =
      (id : Digest32)
      → get (inventory_set_leaf_path id) files' ≡ get (inventory_set_leaf_path id) files

  store_set_leaf-eq_ok :
      (files files' : Files) (leaf : SetLeaf) (id : Digest32)
      → store_set_leaf hash leaf files ≡ (ok id, files')
      → (bytes : List ℕ) × (encode_set_leaf leaf ≡ ok bytes)
        × (set_leaf_id hash bytes ≡ id)
        × (get (inventory_set_leaf_path id) files' ≡ some bytes)
  unfolding store_set_leaf
  store_set_leaf-eq_ok files files' leaf id h =
      let (bytes, g, h1) = lift-eq_ok (encode_set_leaf leaf) files _ h in
      let (same, written) =
        last-eq_ok (set_leaf_id hash bytes) id
          (insert (inventory_set_leaf_path (set_leaf_id hash bytes)) bytes files) files' h1 in
      (
        bytes,
        g,
        same,
        subst (λ i. get (inventory_set_leaf_path i) files' ≡ some bytes) same
            (subst (λ f. get (inventory_set_leaf_path (set_leaf_id hash bytes)) f ≡ some bytes)
              written
              (get-insert_same (inventory_set_leaf_path (set_leaf_id hash bytes)) bytes files)),
      )

  set_leaf_id-good : (bytes : List ℕ) → IsArray 32 (set_leaf_id hash bytes)
  unfolding set_leaf_id content_id
  set_leaf_id-good bytes = arrays _

  set_leaf_id-filled : (bytes : List ℕ) → is_zero (set_leaf_id hash bytes) ≡ false
  unfolding set_leaf_id content_id
  set_leaf_id-filled bytes = not_zero _

  pub store_slot-Ids :
      (files files1 files2 : Files) (leaf : SetLeaf) (ids : List Digest32) (slot : Option LeafRef)
      → IsSetLeafValue (record leaf { ids = ids })
      → length ids ≤ 8388606
      → store_slot hash leaf ids files ≡ (ok slot, files1)
      → SameLeaves files1 files2
      → IsSlot slot × Ids hash files2 slot leaf.project_id leaf.prefix ids
  store_slot-Ids files files1 files2 leaf [] slot v small h s =
      let same : none ≡ slot = (last-eq_ok none slot files files1 h).0 in
      subst (λ o. IsSlot o × Ids hash files2 o leaf.project_id leaf.prefix []) same (tt, refl)
  store_slot-Ids files files1 files2 leaf (first ∷ ids) slot v small h s =
      let all = first ∷ ids in
      let changed : SetLeaf = record leaf { ids = all } in
      let e = corruption "snapshot inventory leaf {prefix:02x} exceeds u32 entries" in
      let (u, g1, h1) = lift-eq_ok (reject_if (not (ltb (length all) (2 ^ 32))) e) files _ h in
      let (id, filesA, g2, h2) = run-eq_ok (store_set_leaf hash changed files) _ h1 in
      let (bytes, encodes, named, stored) = store_set_leaf-eq_ok files filesA changed id g2 in
      let reference : LeafRef = record { id = id; count = length all } in
      let (same, unchanged) = last-eq_ok (some reference) slot filesA files1 h2 in
      let there : get (inventory_set_leaf_path id) files2 ≡ some bytes =
        s id ∙ subst (λ f. get (inventory_set_leaf_path id) f ≡ some bytes) unchanged stored in
      let size = length-encode_set_leaf changed bytes v encodes in
      let at : LeafAt hash files2 id leaf.project_id leaf.prefix changed = record {
        bytes = bytes;
        stored = there;
        sized = omega (arith, size, small);
        named = named;
        decodes = decode_set_leaf-encode_set_leaf changed bytes v encodes;
        owned = refl;
        placed = refl;
      } in
      let good : IsArray 32 id = subst (IsArray 32) named (set_leaf_id-good bytes) in
      let filled : is_zero id ≡ false =
        subst (λ i. is_zero i ≡ false) named (set_leaf_id-filled bytes) in
      subst (λ o. IsSlot o × Ids hash files2 o leaf.project_id leaf.prefix all) same
        (
          (good, filled, omega arith, omega (arith, small)),
          (changed, record { at = at; counted = refl }, refl),
        )

  pub store_set_root-RootAt :
      (files files' : Files) (root : SetRoot) (id : Digest32)
      → IsSetRootValue root
      → store_set_root hash root files ≡ (ok id, files')
      → RootAt hash files' id root.project_id root × SameLeaves files files'
  unfolding store_set_root
  store_set_root-RootAt files files' root id v h =
      let (bytes, encodes, h1) = lift-eq_ok (encode_set_root root) files _ h in
      let path = inventory_set_root_path (set_root_id hash bytes) in
      let (same, written) =
        last-eq_ok (set_root_id hash bytes) id (insert path bytes files) files' h1 in
      let decodes = decode_set_root-encode_set_root root bytes v encodes in
      let at : RootAt hash (insert path bytes files) (set_root_id hash bytes) root.project_id root =
        record {
          bytes = bytes;
          stored = get-insert_same path bytes files;
          sized = length-decoded root bytes decodes;
          named = refl;
          decodes = decodes;
          owned = refl;
        } in
      let leaves : SameLeaves files (insert path bytes files) = λ leaf.
        get-insert_other (inventory_set_leaf_path leaf) path bytes files
          (root_path-ne-leaf_path (set_root_id hash bytes) leaf) in
      subst (λ f. RootAt hash f id root.project_id root × SameLeaves files f) written
        (subst (λ i. RootAt hash (insert path bytes files) i root.project_id root) same at, leaves)
