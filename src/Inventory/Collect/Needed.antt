-- ===== src/Inventory/Collect/Needed.antt =====
-- What is reachable: the older states of the head, its set root and the leaves of the set root.
use check_po.Prelude.{
  ℕ, zero, suc, ◌+◌, ◌≡◌, refl, sym, ap, subst, ◌∙◌, true, not, Option, none, some, List, [], ◌∷◌,
  get_or,
}
use check_po.Prelude.Result.{ok, err, reject_if}
use check_po.Prelude.Map.{mem, insert_key}
use check_po.Prelude.Text.Utf8.{as_bytes}
use check_po.Codec.{Digest32, checked_add_u64}
use check_po.Inventory.{InventoryError, corruption, LeafRef}
use check_po.Inventory.Store.{
  Files, M, lift, InventoryHead, inventory_state_path, inventory_set_leaf_path, load_state,
}
use check_po.Inventory.Store.Loaded.{run-eq_ok, lift-eq_ok, last-eq_ok}
use check_po.Inventory.Change.{counted_leaf, unreachable}
use check_po.Inventory.Change.Preserves.{load_state-Preserves}
use check_po.Inventory.Removal.{is_generation}
use check_po.Inventory.Removal.Reads.{reads-eq_ok}
use check_po.Inventory.Collect.{continue_lineage, lineage_round, lineage_from, reach_slots}
use check_po.Inventory.Collect.Spared.{kept, there}

module _ (hash : List ℕ → Digest32) (project_id : List ℕ) (files : Files) where
  -- A state that the cursor reaches through parents.
  pub data Ancestor (a : InventoryHead) : InventoryHead → Type 0 where
    itself : Ancestor a a
    older :
        (cursor parent : InventoryHead) (id : Digest32)
        → cursor.state.parent ≡ some id
        → load_state hash id project_id files ≡ (ok parent, files)
        → Ancestor a parent
        → Ancestor a cursor

  abbrev state_file : InventoryHead → List ℕ
  state_file head = as_bytes (inventory_state_path head.id)

  -- How a round of the loop ends.
  round-by :
      (next : List (List ℕ) → InventoryHead → M (List (List ℕ))) (visited : List Digest32)
      (reachable r : List (List ℕ)) (cursor : InventoryHead) (files' : Files) (Q : Type 0)
      → (cursor.state.parent ≡ none → insert_key (state_file cursor) reachable ≡ r → Q)
      → ((id : Digest32) (parent : InventoryHead)
          → cursor.state.parent ≡ some id
          → load_state hash id project_id files ≡ (ok parent, files)
          → next (insert_key (state_file cursor) reachable) parent files ≡ (ok r, files')
          → Q)
      → lineage_round hash project_id next visited reachable cursor files ≡ (ok r, files')
      → Q
  round-by next visited reachable r cursor files' Q stop go h =
      let e = corruption "snapshot inventory state chain contains a cycle" in
      let (u, g1, h1) = lift-eq_ok (reject_if (mem cursor.id visited) e) files _ h in
      by cursor.state.parent stop go h1
    where
      wrong : InventoryError
      wrong = corruption "snapshot inventory state generations are not contiguous"

      by :
          (o : Option Digest32)
          → (o ≡ none → insert_key (state_file cursor) reachable ≡ r → Q)
          → ((id : Digest32) (parent : InventoryHead)
              → o ≡ some id
              → load_state hash id project_id files ≡ (ok parent, files)
              → next (insert_key (state_file cursor) reachable) parent files ≡ (ok r, files')
              → Q)
          → continue_lineage hash project_id next
              (insert_key (state_file cursor) reachable)
              cursor.state.generation
              o
              files
            ≡ (ok r, files')
          → Q
      by none stop go h = stop refl (last-eq_ok _ r files files' h).0
      by (some id) stop go h =
          let (parent, g1, h1) =
            reads-eq_ok (load_state hash id project_id) files _
              (load_state-Preserves hash id project_id) h in
          let (u, g2, h2) =
            lift-eq_ok
              (reject_if
                (not (
                  is_generation (checked_add_u64 parent.state.generation 1)
                    cursor.state.generation))
                wrong)
              files _ h1 in
          go id parent refl g1 h2

  same_parent :
      (id id' : Digest32) (parent parent' : InventoryHead)
      → some id ≡ some id'
      → load_state hash id project_id files ≡ (ok parent, files)
      → load_state hash id' project_id files ≡ (ok parent', files)
      → parent ≡ parent'
  same_parent id id' parent parent' e l l' =
      let ids : id ≡ id' = cc e in
      (last-eq_ok parent parent' files files
        (sym l ∙ (ap (λ i. load_state hash i project_id files) ids ∙ l'))).0

  lineage_from-keeps :
      (g : ℕ) (visited : List Digest32) (reachable r : List (List ℕ)) (cursor : InventoryHead)
      (files' : Files) (p : List ℕ)
      → lineage_from hash project_id g visited reachable cursor files ≡ (ok r, files')
      → mem p reachable ≡ true
      → mem p r ≡ true
  unfolding lineage_from
  lineage_from-keeps zero visited reachable r cursor files' p h m =
      round-by (λ rs ps. lift (err unreachable)) visited reachable r cursor files' (mem p r ≡ true)
        (λ e same. subst (λ s. mem p s ≡ true) same (kept p (state_file cursor) reachable m))
        (λ id parent e l k. cc k) h
  lineage_from-keeps (suc g) visited reachable r cursor files' p h m =
      round-by (lineage_from hash project_id g (cursor.id ∷ visited)) visited reachable r cursor
        files' (mem p r ≡ true)
        (λ e same. subst (λ s. mem p s ≡ true) same (kept p (state_file cursor) reachable m))
        (λ id parent e l k.
          lineage_from-keeps g (cursor.id ∷ visited) (insert_key (state_file cursor) reachable) r
            parent files' p k (kept p (state_file cursor) reachable m))
        h

  lineage_from_self :
      (g : ℕ) (visited : List Digest32) (reachable r : List (List ℕ)) (cursor : InventoryHead)
      (files' : Files)
      → lineage_from hash project_id g visited reachable cursor files ≡ (ok r, files')
      → mem (state_file cursor) r ≡ true
  unfolding lineage_from
  lineage_from_self zero visited reachable r cursor files' h =
      round-by (λ rs ps. lift (err unreachable)) visited reachable r cursor files'
        (mem (state_file cursor) r ≡ true)
        (λ e same.
          subst (λ s. mem (state_file cursor) s ≡ true) same (there (state_file cursor) reachable))
        (λ id parent e l k. cc k) h
  lineage_from_self (suc g) visited reachable r cursor files' h =
      round-by (lineage_from hash project_id g (cursor.id ∷ visited)) visited reachable r cursor
        files' (mem (state_file cursor) r ≡ true)
        (λ e same.
          subst (λ s. mem (state_file cursor) s ≡ true) same (there (state_file cursor) reachable))
        (λ id parent e l k.
          lineage_from-keeps g (cursor.id ∷ visited) (insert_key (state_file cursor) reachable) r
            parent files' (state_file cursor) k (there (state_file cursor) reachable))
        h

  pub lineage_from-Ancestor :
      (g : ℕ) (visited : List Digest32) (reachable r : List (List ℕ)) (cursor a : InventoryHead)
      (files' : Files)
      → lineage_from hash project_id g visited reachable cursor files ≡ (ok r, files')
      → Ancestor a cursor
      → mem (state_file a) r ≡ true
  unfolding lineage_from
  lineage_from-Ancestor g visited reachable r cursor a files' h itself =
      lineage_from_self g visited reachable r cursor files' h
  lineage_from-Ancestor zero visited reachable r cursor a files' h (older _ parent id e l up) =
      round-by (λ rs ps. lift (err unreachable)) visited reachable r cursor files'
        (mem (state_file a) r ≡ true) (λ e' same. cc (e, e')) (λ id' parent' e' l' k. cc k) h
  lineage_from-Ancestor (suc g) visited reachable r cursor a files' h (older _ parent id e l up) =
      round-by (lineage_from hash project_id g (cursor.id ∷ visited)) visited reachable r cursor
        files' (mem (state_file a) r ≡ true) (λ e' same. cc (e, e'))
        (λ id' parent' e' l' k.
          let parents = same_parent id id' parent parent' (sym e ∙ e') l l' in
          lineage_from-Ancestor g (cursor.id ∷ visited) (insert_key (state_file cursor) reachable) r
            parent' a files' k (subst (Ancestor a) parents up))
        h

  pub reach_slots-keeps :
      (prefix : ℕ) (leaves : List (Option LeafRef)) (reachable r : List (List ℕ))
      (fs files' : Files) (p : List ℕ)
      → reach_slots hash project_id prefix leaves reachable fs ≡ (ok r, files')
      → mem p reachable ≡ true
      → mem p r ≡ true
  unfolding reach_slots
  reach_slots-keeps prefix [] reachable r fs files' p h m =
      subst (λ s. mem p s ≡ true) (last-eq_ok reachable r fs files' h).0 m
  reach_slots-keeps prefix (none ∷ leaves) reachable r fs files' p h m =
      reach_slots-keeps (prefix + 1) leaves reachable r fs files' p h m
  reach_slots-keeps prefix (some ref ∷ leaves) reachable r fs files' p h m =
      let (leaf, files1, g, h1) =
        run-eq_ok (counted_leaf hash ref project_id prefix fs)
          (λ l.
            reach_slots hash project_id (prefix + 1) leaves
              (insert_key (as_bytes (inventory_set_leaf_path ref.id)) reachable))
          h in
      reach_slots-keeps (prefix + 1) leaves
        (insert_key (as_bytes (inventory_set_leaf_path ref.id)) reachable) r files1 files' p h1
        (kept p (as_bytes (inventory_set_leaf_path ref.id)) reachable m)

  pub reach_slots-leaf :
      (prefix : ℕ) (leaves : List (Option LeafRef)) (reachable r : List (List ℕ))
      (fs files' : Files) (i : ℕ) (ref : LeafRef)
      → reach_slots hash project_id prefix leaves reachable fs ≡ (ok r, files')
      → get_or leaves i none ≡ some ref
      → mem (as_bytes (inventory_set_leaf_path ref.id)) r ≡ true
  unfolding reach_slots
  reach_slots-leaf prefix [] reachable r fs files' i ref h e = cc e
  reach_slots-leaf prefix (none ∷ leaves) reachable r fs files' zero ref h e = cc e
  reach_slots-leaf prefix (none ∷ leaves) reachable r fs files' (suc i) ref h e =
      reach_slots-leaf (prefix + 1) leaves reachable r fs files' i ref h e
  reach_slots-leaf prefix (some ref' ∷ leaves) reachable r fs files' zero ref h e =
      let path = as_bytes (inventory_set_leaf_path ref'.id) in
      let (leaf, files1, g, h1) =
        run-eq_ok (counted_leaf hash ref' project_id prefix fs)
          (λ l.
            reach_slots hash project_id (prefix + 1) leaves
              (insert_key (as_bytes (inventory_set_leaf_path ref'.id)) reachable))
          h in
      let same : ref' ≡ ref = cc e in
      subst (λ (x : LeafRef). mem (as_bytes (inventory_set_leaf_path x.id)) r ≡ true) same
        (reach_slots-keeps (prefix + 1) leaves (insert_key path reachable) r files1 files' path h1
          (there path reachable))
  reach_slots-leaf prefix (some ref' ∷ leaves) reachable r fs files' (suc i) ref h e =
      let (leaf, files1, g, h1) =
        run-eq_ok (counted_leaf hash ref' project_id prefix fs)
          (λ l.
            reach_slots hash project_id (prefix + 1) leaves
              (insert_key (as_bytes (inventory_set_leaf_path ref'.id)) reachable))
          h in
      reach_slots-leaf (prefix + 1) leaves
        (insert_key (as_bytes (inventory_set_leaf_path ref'.id)) reachable) r files1 files' i ref h1
        e
