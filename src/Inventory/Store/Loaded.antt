-- ===== src/Inventory/Store/Loaded.antt =====
-- A load answers with what stands in the files, exactly when it passes the checks.
use check_po.Prelude.{
  ℕ, ◌≤◌, ◌≡◌, refl, sym, ap, subst, not, ◌||◌, Option, none, some, List, arith, length, ltb,
  ltb-eq_false, ◌==◌, ==_iff, list_eq, list_eq→eq, list_eq_refl, if◌then◌else◌,
}
use check_po.Prelude.Result
use check_po.Prelude.Result.{ok, err, reject_if, reject_if-eq_ok, ok_or, >>=-eq_ok}
use check_po.Prelude.Map.{get}
use check_po.Codec.{Digest32}
use check_po.Inventory.{
  InventoryResult, corruption, not_found, state_bytes, root_bytes, SetRoot, SetLeaf, decode_state,
  decode_set_root, decode_set_leaf,
}
use check_po.Inventory.Fields.{not-false, guard_header}
use check_po.Inventory.Store.{
  Files, M, then_run, read_bytes_bounded, max_leaf_bytes, inventory_state_path,
  inventory_set_root_path, inventory_set_leaf_path, state_id, set_root_id, set_leaf_id, load_state,
  load_set_root, load_set_leaf, InventoryHead,
}

pub run-eq_ok :
    {A B : Type 0} (r : InventoryResult A × Files) (f : A → M B) {b : B} {files' : Files}
    → then_run r f ≡ (ok b, files')
    → (a : A) × (files1 : Files) × (r ≡ (ok a, files1)) × (f a files1 ≡ (ok b, files'))
run-eq_ok (ok a, files) f h = (a, files, refl, h)
run-eq_ok (err e, files) f h = cc h

-- The same after a step that leaves the files alone.
pub lift-eq_ok :
    {A B : Type 0} (r : InventoryResult A) (files : Files) (f : A → M B) {b : B} {files' : Files}
    → then_run (r, files) f ≡ (ok b, files')
    → (a : A) × (r ≡ ok a) × (f a files ≡ (ok b, files'))
lift-eq_ok (ok a) files f h = (a, refl, h)
lift-eq_ok (err e) files f h = cc h

pub last-eq_ok :
    {A : Type 0} (a b : A) (files files' : Files)
    → ◌≡◌ {A = InventoryResult A × Files} (ok a, files) (ok b, files')
    → (a ≡ b) × (files ≡ files')
last-eq_ok a b files files' h = (cc h, cc h)

pub read_bytes_bounded-eq_ok :
    (files : Files) (path : List ℕ) (bound : ℕ) (bytes : List ℕ)
    → read_bytes_bounded files path bound ≡ ok bytes
    → (get path files ≡ some bytes) × (length bytes ≤ bound)
unfolding read_bytes_bounded
read_bytes_bounded-eq_ok files path bound bytes h = by (get path files) h
  where
    by :
        (o : Option (List ℕ))
        → Result.◌>>=◌ (ok_or o (not_found path)) (λ bytes.
          if ltb bound (length bytes)
          then err (corruption "anchored file exceeds maximum size of {max_bytes} bytes: {path}")
          else ok bytes)
          ≡ ok bytes
        → (o ≡ some bytes) × (length bytes ≤ bound)
    by none h = cc h
    by (some w) h = ground arith

pub read_bytes_bounded-found :
    (files : Files) (path : List ℕ) (bound : ℕ) (bytes : List ℕ)
    → get path files ≡ some bytes
    → length bytes ≤ bound
    → read_bytes_bounded files path bound ≡ ok bytes
unfolding read_bytes_bounded
read_bytes_bounded-found files path bound bytes h le =
    rw (h, ltb-eq_false bound (length bytes) le) refl

module _ (hash : List ℕ → Digest32) where
  -- A set root that stands in the files under its identifier.
  pub record RootAt (files : Files) (id : Digest32) (project_id : List ℕ) (root : SetRoot)
      : Type 0 where
    pub bytes : List ℕ
    pub stored : get (inventory_set_root_path id) files ≡ some bytes
    pub sized : length bytes ≡ 9508
    pub named : set_root_id hash bytes ≡ id
    pub decodes : decode_set_root bytes ≡ ok root
    pub owned : root.project_id ≡ project_id

  pub load_set_root-RootAt :
      (files files' : Files) (id : Digest32) (project_id : List ℕ) (root : SetRoot)
      → load_set_root hash id project_id files ≡ (ok root, files')
      → RootAt files id project_id root × (files ≡ files')
  unfolding load_set_root
  load_set_root-RootAt files files' id project_id root h =
      let path = inventory_set_root_path id in
      let e1 = corruption "snapshot inventory set root has invalid length: {path}" in
      let e2 =
        corruption "snapshot inventory set root digest mismatch: expected {id}, got {actual}" in
      let e3 = corruption "snapshot inventory set root belongs to project {}, expected {}" in
      let (bytes, g1, h1) = lift-eq_ok (read_bytes_bounded files path root_bytes) files _ h in
      let (u2, g2, h2) = lift-eq_ok (reject_if (not (length bytes == root_bytes)) e1) files _ h1 in
      let (u3, g3, h3) =
        lift-eq_ok (reject_if (not (list_eq (set_root_id hash bytes) id)) e2) files _ h2 in
      let (found, g4, h4) = lift-eq_ok (decode_set_root bytes) files _ h3 in
      let (u5, g5, h5) =
        lift-eq_ok (reject_if (not (list_eq found.project_id project_id)) e3) files _ h4 in
      let (same, unchanged) = last-eq_ok found root files files' h5 in
      (
        subst (RootAt files id project_id) same (record {
          bytes = bytes;
          stored = (read_bytes_bounded-eq_ok files path root_bytes bytes g1).0;
          sized = (==_iff (length bytes) 9508).0 (not-false _ (reject_if-eq_ok _ e1 g2));
          named = list_eq→eq _ id (not-false _ (reject_if-eq_ok _ e2 g3));
          decodes = g4;
          owned = list_eq→eq _ project_id (not-false _ (reject_if-eq_ok _ e3 g5));
        }),
        unchanged,
      )

  pub RootAt-load_set_root :
      (files : Files) (id : Digest32) (project_id : List ℕ) (root : SetRoot)
      → RootAt files id project_id root
      → load_set_root hash id project_id files ≡ (ok root, files)
  unfolding load_set_root
  RootAt-load_set_root files id project_id root r =
      rw
        (
          read_bytes_bounded-found files (inventory_set_root_path id) root_bytes r.bytes r.stored
              (omega (arith, r.sized)),
          r.sized,
          r.named,
          list_eq_refl id,
          r.decodes,
          r.owned,
          list_eq_refl project_id,
        )
        refl

  -- A set leaf that stands in the files under its identifier.
  pub record LeafAt (files : Files) (id : Digest32) (project_id : List ℕ) (prefix : ℕ)
      (leaf : SetLeaf) : Type 0 where
    pub bytes : List ℕ
    pub stored : get (inventory_set_leaf_path id) files ≡ some bytes
    pub sized : length bytes ≤ 268435456
    pub named : set_leaf_id hash bytes ≡ id
    pub decodes : decode_set_leaf bytes ≡ ok leaf
    pub owned : leaf.project_id ≡ project_id
    pub placed : leaf.prefix ≡ prefix

  pub load_set_leaf-LeafAt :
      (files files' : Files) (id : Digest32) (project_id : List ℕ) (prefix : ℕ) (leaf : SetLeaf)
      → load_set_leaf hash id project_id prefix files ≡ (ok leaf, files')
      → LeafAt files id project_id prefix leaf × (files ≡ files')
  unfolding load_set_leaf
  load_set_leaf-LeafAt files files' id project_id prefix leaf h =
      let path = inventory_set_leaf_path id in
      let e2 =
        corruption "snapshot inventory set leaf digest mismatch: expected {id}, got {actual}" in
      let e3 = corruption "snapshot inventory set leaf {id} has the wrong project or prefix" in
      let (bytes, g1, h1) = lift-eq_ok (read_bytes_bounded files path max_leaf_bytes) files _ h in
      let (u3, g3, h3) =
        lift-eq_ok (reject_if (not (list_eq (set_leaf_id hash bytes) id)) e2) files _ h1 in
      let (found, g4, h4) = lift-eq_ok (decode_set_leaf bytes) files _ h3 in
      let wrong = not (list_eq found.project_id project_id) || not (found.prefix == prefix) in
      let (u5, g5, h5) = lift-eq_ok (reject_if wrong e3) files _ h4 in
      let tests =
        guard_header (list_eq found.project_id project_id) (found.prefix == prefix)
          (reject_if-eq_ok wrong e3 g5) in
      let (same, unchanged) = last-eq_ok found leaf files files' h5 in
      let (stored, sized) = read_bytes_bounded-eq_ok files path max_leaf_bytes bytes g1 in
      (
        subst (LeafAt files id project_id prefix) same (record {
          bytes = bytes;
          stored = stored;
          sized = sized;
          named = list_eq→eq _ id (not-false _ (reject_if-eq_ok _ e2 g3));
          decodes = g4;
          owned = list_eq→eq found.project_id project_id tests.0;
          placed = (==_iff found.prefix prefix).0 tests.1;
        }),
        unchanged,
      )

  pub LeafAt-load_set_leaf :
      (files : Files) (id : Digest32) (project_id : List ℕ) (prefix : ℕ) (leaf : SetLeaf)
      → LeafAt files id project_id prefix leaf
      → load_set_leaf hash id project_id prefix files ≡ (ok leaf, files)
  unfolding load_set_leaf
  LeafAt-load_set_leaf files id project_id prefix leaf l =
      rw
        (
          read_bytes_bounded-found files (inventory_set_leaf_path id) max_leaf_bytes l.bytes
              l.stored l.sized,
          l.named,
          list_eq_refl id,
          l.decodes,
          l.owned,
          l.placed,
          list_eq_refl project_id,
          (==_iff prefix prefix).1 refl,
        )
        refl

  -- A state that stands in the files under its identifier.
  pub record StateAt (files : Files) (project_id : List ℕ) (head : InventoryHead) : Type 0 where
    pub bytes : List ℕ
    pub stored : get (inventory_state_path head.id) files ≡ some bytes
    pub sized : length bytes ≡ 174
    pub named : state_id hash bytes ≡ head.id
    pub decodes : decode_state bytes ≡ ok head.state
    pub owned : head.state.project_id ≡ project_id

  pub load_state-StateAt :
      (files files' : Files) (id : Digest32) (project_id : List ℕ) (head : InventoryHead)
      → load_state hash id project_id files ≡ (ok head, files')
      → StateAt files project_id head × (files ≡ files') × (head.id ≡ id)
  unfolding load_state
  load_state-StateAt files files' id project_id head h =
      let path = inventory_state_path id in
      let e1 = corruption "snapshot inventory state has invalid length: {path}" in
      let e2 = corruption "snapshot inventory state digest mismatch: expected {id}, got {actual}" in
      let e3 = corruption "snapshot inventory belongs to project {}, expected {}" in
      let (bytes, g1, h1) = lift-eq_ok (read_bytes_bounded files path state_bytes) files _ h in
      let (u2, g2, h2) = lift-eq_ok (reject_if (not (length bytes == state_bytes)) e1) files _ h1 in
      let (u3, g3, h3) =
        lift-eq_ok (reject_if (not (list_eq (state_id hash bytes) id)) e2) files _ h2 in
      let (found, g4, h4) = lift-eq_ok (decode_state bytes) files _ h3 in
      let (u5, g5, h5) =
        lift-eq_ok (reject_if (not (list_eq found.project_id project_id)) e3) files _ h4 in
      let made : InventoryHead = record { id = id; state = found } in
      let (same, unchanged) = last-eq_ok made head files files' h5 in
      (
        subst (StateAt files project_id) same (record {
          bytes = bytes;
          stored = (read_bytes_bounded-eq_ok files path state_bytes bytes g1).0;
          sized = (==_iff (length bytes) 174).0 (not-false _ (reject_if-eq_ok _ e1 g2));
          named = list_eq→eq _ id (not-false _ (reject_if-eq_ok _ e2 g3));
          decodes = g4;
          owned = list_eq→eq _ project_id (not-false _ (reject_if-eq_ok _ e3 g5));
        }),
        unchanged,
        ap (λ (x : InventoryHead). x.id) (sym same),
      )

  pub StateAt-load_state :
      (files : Files) (project_id : List ℕ) (head : InventoryHead)
      → StateAt files project_id head
      → load_state hash head.id project_id files ≡ (ok head, files)
  unfolding load_state
  StateAt-load_state files project_id head r =
      rw
        (
          read_bytes_bounded-found files (inventory_state_path head.id) state_bytes r.bytes r.stored
              (omega (arith, r.sized)),
          r.sized,
          r.named,
          list_eq_refl head.id,
          r.decodes,
          r.owned,
          list_eq_refl project_id,
        )
        refl
