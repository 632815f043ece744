-- ===== src/Inventory/Change/Refines.antt =====
-- A change of the inventory is the change of a set of snapshots.
use check_po.Prelude.{
  ℕ, ◌≤◌, ◌<◌, ◌≡◌, ◌≢◌, refl, sym, ap, subst, ◌∙◌, Bool, true, false, not, Option, none, some,
  List, arith, length, get_or, ◌==◌, ==_iff, Bool-cases, inl, inr,
}
use check_po.Prelude.Result.{ok, reject_if, reject_if-eq_ok}
use check_po.Prelude.Bytes.{IsByte, IsU64}
use check_po.Codec.{Digest32, IsArray}
use check_po.Inventory.{
  InventoryOperation, InventoryState, LeafRef, SetRoot, SetLeaf, is_zero, byte_at, corruption,
}
use check_po.Inventory.Fields.{not-false}
use check_po.Inventory.Root.{IsSlot, IsSetRootValue}
use check_po.Inventory.Root.Values.{decode_set_root-value}
use check_po.Inventory.Leaf.{IsSetLeafValue}
use check_po.Inventory.Store.{Files, load_set_root, store_set_root}
use check_po.Inventory.Store.Loaded.{
  run-eq_ok, lift-eq_ok, last-eq_ok, RootAt, load_set_root-RootAt, RootAt-load_set_root,
}
use check_po.Inventory.Change.{
  binary_search, is_found, set, changed_ids, changed_count, contains_in, set_root_contains,
  slot_leaf, store_slot, mutate_root, mutate_set,
}
use check_po.Inventory.Change.Slots.{
  Keeps, HoldsBytes, get-IsByte, Ids, Ids-Keeps, contains_in-Ids, Ids-contains_in, Start,
  slot_leaf-Start,
}
use check_po.Inventory.Change.Parts.{
  after, after-other, Changed, changed_ids-Changed, changed_count-IsU64, set-All, get_or-set_same,
  get_or-set_other, byte_at-lt,
}
use check_po.Inventory.Change.Members.{store_slot-Ids, store_set_root-RootAt}

abbrev pub slot_size : Option LeafRef → ℕ
slot_size none = 0
slot_size (some r) = r.count

module _ (hash : List ℕ → Digest32) (arrays : (bs : List ℕ) → IsArray 32 (hash bs))
    (not_zero : (bs : List ℕ) → is_zero (hash bs) ≡ false) where
  -- What a change that succeeded did, from a root to a root.
  record Mutated (files files' : Files) (project_id : List ℕ) (op : InventoryOperation)
      (id : Digest32) (root root' : SetRoot) (root_id : Digest32) : Type 0 where
    leaf : SetLeaf
    ids : List Digest32
    slot : Option LeafRef
    at : RootAt hash files' root_id project_id root'
    leaves : root'.leaves ≡ set root.leaves (byte_at id 0) slot
    before :
        Ids hash files (get_or root.leaves (byte_at id 0) none) project_id (byte_at id 0) leaf.ids
    now : Ids hash files' slot project_id (byte_at id 0) ids
    changed : Changed op id leaf.ids ids

  leaf_size :
      (files : Files) (slot : Option LeafRef) (project_id : List ℕ) (prefix : ℕ)
      (ids : List Digest32)
      → Ids hash files slot project_id prefix ids
      → length ids ≡ slot_size slot
  leaf_size files none project_id prefix ids h = ap length h
  leaf_size files (some r) project_id prefix ids (leaf, c, e) = sym (ap length e) ∙ c.counted

  new_root-value :
      (root : SetRoot) (prefix count : ℕ) (slot : Option LeafRef)
      → IsSetRootValue root
      → IsU64 count
      → IsSlot slot
      → IsSetRootValue (record root { count = count; leaves = set root.leaves prefix slot })
  new_root-value root prefix count slot v c s = record {
    project_id = v.project_id;
    count = c;
    leaves = set-All IsSlot root.leaves prefix slot s v.leaves;
  }

  stored_change :
      (files files3 files4 : Files) (project_id : List ℕ) (op : InventoryOperation)
      (id root_id : Digest32) (count : ℕ) (root : SetRoot) (leaf : SetLeaf) (ids : List Digest32)
      (slot : Option LeafRef)
      → IsArray 32 id
      → IsSetRootValue root
      → root.project_id ≡ project_id
      → IsU64 count
      → slot_size (get_or root.leaves (byte_at id 0) none) < 8388606
      → Start hash files (get_or root.leaves (byte_at id 0) none) project_id (byte_at id 0) leaf
      → Changed op id leaf.ids ids
      → store_slot hash leaf ids files ≡ (ok slot, files3)
      → store_set_root hash
          (record root { count = count; leaves = set root.leaves (byte_at id 0) slot })
          files3
        ≡ (ok root_id, files4)
      → Mutated files files4 project_id op id root
          (record root { count = count; leaves = set root.leaves (byte_at id 0) slot })
          root_id
  stored_change files files3 files4 project_id op id root_id count root leaf ids slot a v owned u64
        small start changed s1 s2 =
      let prefix = byte_at id 0 in
      let size =
        leaf_size files (get_or root.leaves prefix none) project_id prefix leaf.ids start.ids in
      let few : length ids ≤ 8388606 = omega (arith, size, small, changed.small) in
      let value : IsSetLeafValue (record leaf { ids = ids }) = record {
        project_id = subst (IsArray 16) (owned ∙ sym start.owned) v.project_id;
        prefix = subst IsByte (sym start.placed) (byte_at-lt id a.1);
        ids = changed.arrays;
      } in
      let slot_good =
        (store_slot-Ids hash arrays not_zero files files3 files3 leaf ids slot value few s1
          (λ i. refl)).0 in
      let (at, same_leaves) =
        store_set_root-RootAt hash arrays not_zero files3 files4
          (record root { count = count; leaves = set root.leaves prefix slot }) root_id
          (new_root-value root prefix count slot v u64 slot_good) s2 in
      let now =
        (store_slot-Ids hash arrays not_zero files files3 files4 leaf ids slot value few s1
          same_leaves).1 in
      record {
        leaf = leaf;
        ids = ids;
        slot = slot;
        at =
            subst
              (λ p.
                RootAt hash files4 root_id p
                  (record root { count = count; leaves = set root.leaves prefix slot }))
              owned at;
        leaves = refl;
        before = start.ids;
        now =
            subst (λ p. Ids hash files4 slot p prefix ids) start.owned
              (subst (λ q. Ids hash files4 slot leaf.project_id q ids) start.placed now);
        changed = changed;
      }

  mutate_root-Mutated :
      (files files' : Files) (project_id : List ℕ) (state : InventoryState)
      (op : InventoryOperation) (id root_id : Digest32) (count : ℕ) (root : SetRoot)
      → HoldsBytes files
      → IsArray 32 id
      → IsSetRootValue root
      → root.project_id ≡ project_id
      → slot_size (get_or root.leaves (byte_at id 0) none) < 8388606
      → mutate_root hash root project_id state op id files ≡ (ok (root_id, count), files')
      → (changed_count op root.count ≡ ok count)
        × ((root' : SetRoot) × (root'.count ≡ count)
            × Mutated files files' project_id op id root root' root_id)
  unfolding mutate_root
  mutate_root-Mutated files files' project_id state op id root_id count root b a v owned small h =
      let prefix = byte_at id 0 in
      let old = get_or root.leaves prefix none in
      let e = corruption "snapshot inventory state count does not match its set root" in
      let (u, g1, h1) = lift-eq_ok (reject_if (not (root.count == state.count)) e) files _ h in
      let counts : root.count ≡ state.count =
        (==_iff root.count state.count).0 (not-false _ (reject_if-eq_ok _ e g1)) in
      let (leaf, files2, g2, h2) = run-eq_ok (slot_leaf hash old project_id prefix files) _ h1 in
      let (start, still) = slot_leaf-Start hash files files2 old project_id prefix leaf b g2 in
      let (ids, g3, h3) =
        lift-eq_ok (changed_ids op (binary_search id leaf.ids) id leaf.ids) files2 _ h2 in
      let (count', g4, h4) = lift-eq_ok (changed_count op state.count) files2 _ h3 in
      let (slot, files3, g5, h5) = run-eq_ok (store_slot hash leaf ids files2) _ h4 in
      let root' : SetRoot = record root { count = count'; leaves = set root.leaves prefix slot } in
      let (root_id', files4, g6, h6) = run-eq_ok (store_set_root hash root' files3) _ h5 in
      let (same, last) = last-eq_ok (root_id', count') (root_id, count) files4 files' h6 in
      let changed =
        changed_ids-Changed op (binary_search id leaf.ids) id leaf.ids ids refl a start.arrays
          start.order g3 in
      let fits : IsU64 count' =
        changed_count-IsU64 op state.count count' (subst IsU64 counts v.count) g4 in
      let ended : store_set_root hash root' files3 ≡ (ok root_id, files') =
        g6
        ∙ ap (λ (f : Files). (ok root_id', f)) last
        ∙ ap (λ (i : Digest32). (ok i, files')) (ap (λ (p : Digest32 × ℕ). p.0) same) in
      let done =
        stored_change files files3 files' project_id op id root_id count' root leaf ids slot a v
          owned fits small start changed
          (subst (λ f. store_slot hash leaf ids f ≡ (ok slot, files3)) (sym still) g5) ended in
      let total : count' ≡ count = ap (λ (p : Digest32 × ℕ). p.1) same in
      (
        subst (λ n. changed_count op n ≡ ok count) (sym counts) (g4 ∙ ap ok total),
        (root', total, done),
      )

  contains_after :
      (files files' : Files) (project_id : List ℕ) (op : InventoryOperation) (id root_id : Digest32)
      (root root' : SetRoot) (x : Digest32) (old : Bool)
      → IsArray 32 id
      → length root.leaves ≡ 256
      → Keeps files files'
      → Mutated files files' project_id op id root root' root_id
      → set_root_contains hash project_id root x files ≡ (ok old, files)
      → set_root_contains hash project_id root' x files' ≡ (ok (after op id x old), files')
  unfolding set_root_contains
  contains_after files files' project_id op id root_id root root' x old a full keeps m was =
      elim (Bool-cases (byte_at id 0 == byte_at x 0)) [
        | inl e ↦
            here (subst (λ q. Ids hash files' m.slot project_id q m.ids) ((==_iff _ _).0 e) m.now)
              (subst (λ q. Ids hash files (get_or root.leaves q none) project_id q m.leaf.ids)
                ((==_iff _ _).0 e) m.before)
              (subst (λ q. get_or (set root.leaves (byte_at id 0) m.slot) q none ≡ m.slot)
                ((==_iff _ _).0 e)
                (get_or-set_same root.leaves (byte_at id 0) m.slot (omega (arith, full, bound))))
        | inr e ↦ there (λ same. true_ne_false (sym ((==_iff _ _).1 same) ∙ e))
      ]
    where
      bound : byte_at id 0 < 256
      bound = byte_at-lt id a.1

      true_ne_false : true ≡ false → ⊥
      true_ne_false h = cc h

      here :
          Ids hash files' m.slot project_id (byte_at x 0) m.ids
          → Ids hash files
              (get_or root.leaves (byte_at x 0) none)
              project_id
              (byte_at x 0)
              m.leaf.ids
          → get_or (set root.leaves (byte_at id 0) m.slot) (byte_at x 0) none ≡ m.slot
          → contains_in hash (get_or root'.leaves (byte_at x 0) none) project_id x files'
            ≡ (ok (after op id x old), files')
      here now before slot =
          let at_slot : get_or root'.leaves (byte_at x 0) none ≡ m.slot =
            ap (λ l. get_or l (byte_at x 0) none) m.leaves ∙ slot in
          let was_found =
            (last-eq_ok old (is_found (binary_search x m.leaf.ids)) files files (
              sym was
              ∙ contains_in-Ids hash files (get_or root.leaves (byte_at x 0) none) project_id x
                  m.leaf.ids before)).0 in
          ap (λ o. contains_in hash o project_id x files') at_slot
          ∙ contains_in-Ids hash files' m.slot project_id x m.ids now
          ∙ ap (λ (t : Bool). (ok t, files'))
              (m.changed.found_after x ∙ ap (after op id x) (sym was_found))

      there :
          byte_at id 0 ≢ byte_at x 0
          → contains_in hash (get_or root'.leaves (byte_at x 0) none) project_id x files'
            ≡ (ok (after op id x old), files')
      there n =
          let other = get_or root.leaves (byte_at x 0) none in
          let at_slot : get_or root'.leaves (byte_at x 0) none ≡ other =
            ap (λ l. get_or l (byte_at x 0) none) m.leaves
            ∙ get_or-set_other root.leaves (byte_at id 0) (byte_at x 0) m.slot n in
          let (ids, held, e) = Ids-contains_in hash files files other project_id x old was in
          let still = Ids-Keeps hash files files' other project_id (byte_at x 0) ids keeps held in
          ap (λ o. contains_in hash o project_id x files') at_slot
          ∙ contains_in-Ids hash files' other project_id x ids still
          ∙ ap (λ (t : Bool). (ok t, files')) (sym e ∙ sym (after-other op id x old n))

  -- Changing the inventory changes a set. If `mutate_set` succeeds on files that hold bytes and
  -- replaces none of them, then the new root loads, its count is the old count plus one after an
  -- addition and minus one after a removal, and a snapshot is in the new root exactly when it is the
  -- one added or was in the old root, or was in the old root and is not the one removed. The leaf
  -- that changes must have fewer than 8388606 entries, and no hash may be all zeros.
  pub mutate_set-after :
      (files files' : Files) (project_id : List ℕ) (state : InventoryState)
      (op : InventoryOperation) (id root_id : Digest32) (count : ℕ) (root : SetRoot) (x : Digest32)
      (old : Bool)
      → HoldsBytes files
      → IsArray 32 id
      → Keeps files files'
      → slot_size (get_or root.leaves (byte_at id 0) none) < 8388606
      → load_set_root hash state.set_root project_id files ≡ (ok root, files)
      → set_root_contains hash project_id root x files ≡ (ok old, files)
      → mutate_set hash project_id state op id files ≡ (ok (root_id, count), files')
      → (changed_count op root.count ≡ ok count)
        × ((root' : SetRoot) × (load_set_root hash root_id project_id files' ≡ (ok root', files'))
            × (root'.count ≡ count)
            × (set_root_contains hash project_id root' x files' ≡ (ok (after op id x old), files')))
  unfolding mutate_set
  mutate_set-after files files' project_id state op id root_id count root x old b a keeps small
        loaded was h =
      let (found, files1, g1, h1) =
        run-eq_ok (load_set_root hash state.set_root project_id files) _ h in
      let (same, unchanged) = last-eq_ok found root files1 files (sym g1 ∙ loaded) in
      let at = (load_set_root-RootAt hash files files state.set_root project_id root loaded).0 in
      let (full, value) =
        decode_set_root-value at.bytes root (get-IsByte files _ at.bytes b at.stored) at.decodes in
      let h2 : mutate_root hash root project_id state op id files ≡ (ok (root_id, count), files') =
        subst (λ f. mutate_root hash root project_id state op id f ≡ (ok (root_id, count), files'))
          unchanged
          (subst
            (λ r. mutate_root hash r project_id state op id files1 ≡ (ok (root_id, count), files'))
            same h1) in
      let (counts, (root', total, m)) =
        mutate_root-Mutated files files' project_id state op id root_id count root b a value
          at.owned small h2 in
      (
        counts,
        (
          root',
          RootAt-load_set_root hash files' root_id project_id root' m.at,
          total,
          contains_after files files' project_id op id root_id root root' x old a full keeps m was,
        ),
      )
