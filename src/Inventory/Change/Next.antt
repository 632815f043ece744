-- ===== src/Inventory/Change/Next.antt =====
-- The state that a change makes, and the files that hold it.
use check_po.Prelude.{
  ℕ, ◌+◌, ◌≡◌, refl, sym, ap, subst, ◌∙◌, true, false, not, none, some, List, ◌++◌, arith, length,
  take, drop, length-take, drop-drop, ltb, lt→ltb, ◌==◌, list_eq, list_eq→eq, list_eq_refl,
  Bool-cases, inl, inr, get_or,
}
use check_po.Prelude.Result.{ok, reject_if}
use check_po.Prelude.Map.{get, insert}
use check_po.Prelude.Slices.{take-append_at, drop-append_at}
use check_po.Prelude.Text.{codes}
use check_po.Codec.{Digest32, IsArray}
use check_po.Path.Id.{encode_lower_hex, decode_lower_hex}
use check_po.Path.Id.RoundTrip.{decode_lower_hex-encode_lower_hex, length-encode_lower_hex}
use check_po.Inventory.{
  InventoryOperation, initialize, add, remove, InventoryState, SetRoot, is_zero, byte_at,
  encode_state, valid_shape, corruption, encode_set_root,
}
use check_po.Inventory.State.{IsStateValue, decode_state-encode_state, length-encode_state}
use check_po.Inventory.Store.{
  Files, inventory_state_path, inventory_set_root_path, set_root_id, state_id, content_id,
  store_set_root, load_set_root, InventoryHead,
}
use check_po.Inventory.Store.Loaded.{run-eq_ok, lift-eq_ok, last-eq_ok, StateAt}
use check_po.Inventory.Change.{
  binary_search, set, changed_ids, changed_count, slot_leaf, store_slot, mutate_set,
  inventory_operation_id, next_state,
}

-- The text of an identifier in the path of its state.
path_text :
    (id : Digest32)
    → IsArray 32 id
    → take 64 (drop 30 (inventory_state_path id)) ≡ encode_lower_hex id
unfolding inventory_state_path
path_text id a =
    let hex = encode_lower_hex id in
    let long : length hex ≡ 64 = omega (arith, length-encode_lower_hex id, a.0) in
    let tail = codes "/" ++ (hex ++ codes ".state") in
    let shard : drop 3 (take 2 hex ++ tail) ≡ hex ++ codes ".state" =
      sym (drop-drop 1 2 3 (take 2 hex ++ tail) refl)
      ∙ ap (drop 1) (drop-append_at 2 (take 2 hex) tail (omega (arith, length-take 2 hex, long))) in
    rw shard (take-append_at 64 hex (codes ".state") long)

encode_lower_hex-injective :
    (a b : Digest32) → IsArray 32 a → IsArray 32 b → encode_lower_hex a ≡ encode_lower_hex b → a ≡ b
encode_lower_hex-injective a b va vb e =
    let same : some a ≡ some b =
      sym (decode_lower_hex-encode_lower_hex 32 a va)
      ∙ ap (decode_lower_hex 32) e
      ∙ decode_lower_hex-encode_lower_hex 32 b vb in
    cc same

pub state_paths_differ :
    (a b : Digest32)
    → IsArray 32 a
    → IsArray 32 b
    → list_eq b a ≡ false
    → list_eq (inventory_state_path a) (inventory_state_path b) ≡ false
state_paths_differ a b va vb n =
    elim (Bool-cases (list_eq (inventory_state_path a) (inventory_state_path b))) [
      | inl e ↦
          let same = encode_lower_hex-injective a b va vb (
            sym (path_text a va)
            ∙ ap (λ p. take 64 (drop 30 p)) (list_eq→eq (inventory_state_path a) _ e)
            ∙ path_text b vb) in
          let no : true ≡ false = sym (list_eq_refl b) ∙ (ap (list_eq b) (sym same) ∙ n) in cc no
      | inr e ↦ e
    ]

added_count : (count count' : ℕ) → changed_count add count ≡ ok count' → ltb 0 count' ≡ true
added_count count count' h = ground arith

module _ (hash : List ℕ → Digest32) (arrays : (bs : List ℕ) → IsArray 32 (hash bs))
    (not_zero : (bs : List ℕ) → is_zero (hash bs) ≡ false) where
  set_root_id-IsArray : (bytes : List ℕ) → IsArray 32 (set_root_id hash bytes)
  unfolding set_root_id content_id
  set_root_id-IsArray bytes = arrays _

  store_set_root-IsArray :
      (files files' : Files) (root : SetRoot) (id : Digest32)
      → store_set_root hash root files ≡ (ok id, files')
      → IsArray 32 id
  unfolding store_set_root
  store_set_root-IsArray files files' root id h =
      let (bytes, encodes, h1) = lift-eq_ok (encode_set_root root) files _ h in
      let (same, written) =
        last-eq_ok (set_root_id hash bytes) id
          (insert (inventory_set_root_path (set_root_id hash bytes)) bytes files) files' h1 in
      subst (IsArray 32) same (set_root_id-IsArray bytes)

  pub mutate_set-result :
      (files files' : Files) (project_id : List ℕ) (state : InventoryState)
      (op : InventoryOperation) (id : Digest32) (changed : Digest32 × ℕ)
      → mutate_set hash project_id state op id files ≡ (ok changed, files')
      → IsArray 32 changed.0 × (changed_count op state.count ≡ ok changed.1)
  unfolding mutate_set
  mutate_set-result files files' project_id state op id changed h =
      let prefix = byte_at id 0 in
      let e = corruption "snapshot inventory state count does not match its set root" in
      let (root, files0, g0, h0) =
        run-eq_ok (load_set_root hash state.set_root project_id files) _ h in
      let (u, g1, h1) = lift-eq_ok (reject_if (not (root.count == state.count)) e) files0 _ h0 in
      let (leaf, files2, g2, h2) =
        run-eq_ok (slot_leaf hash (get_or root.leaves prefix none) project_id prefix files0) _ h1 in
      let (ids, g3, h3) =
        lift-eq_ok (changed_ids op (binary_search id leaf.ids) id leaf.ids) files2 _ h2 in
      let (count, g4, h4) = lift-eq_ok (changed_count op state.count) files2 _ h3 in
      let (slot, files3, g5, h5) = run-eq_ok (store_slot hash leaf ids files2) _ h4 in
      let root' : SetRoot = record root { count = count; leaves = set root.leaves prefix slot } in
      let (root_id, files4, g6, h6) = run-eq_ok (store_set_root hash root' files3) _ h5 in
      let (same, last) = last-eq_ok (root_id, count) changed files4 files' h6 in
      subst (λ (c : Digest32 × ℕ). IsArray 32 c.0 × (changed_count op state.count ≡ ok c.1)) same
        (store_set_root-IsArray files3 files4 root' root_id g6, g4)

  pub state_id-IsArray : (bytes : List ℕ) → IsArray 32 (state_id hash bytes)
  unfolding state_id content_id
  state_id-IsArray bytes = arrays _

  state_id-filled : (bytes : List ℕ) → is_zero (state_id hash bytes) ≡ false
  unfolding state_id content_id
  state_id-filled bytes = not_zero _

  pub operation_id-IsArray : (text : List ℕ) → IsArray 32 (inventory_operation_id hash text)
  unfolding inventory_operation_id
  operation_id-IsArray text = arrays _

  operation_id-filled : (text : List ℕ) → is_zero (inventory_operation_id hash text) ≡ false
  unfolding inventory_operation_id
  operation_id-filled text = not_zero _

  -- The state that a change makes has a valid shape.
  pub valid_shape-next_state :
      (project_id : List ℕ) (op : InventoryOperation) (snapshot_id : Digest32)
      (operation_id : List ℕ) (expected : InventoryHead) (changed : Digest32 × ℕ)
      → changed_count op expected.state.count ≡ ok changed.1
      → valid_shape
          (next_state hash project_id op snapshot_id operation_id expected changed
            (expected.state.generation + 1))
          op
        ≡ true
  valid_shape-next_state project_id add snapshot_id operation_id expected changed h =
      rw
        (
          lt→ltb 0 (expected.state.generation + 1) (omega arith),
          added_count expected.state.count changed.1 h,
          operation_id-filled operation_id,
        )
        refl
  valid_shape-next_state project_id remove snapshot_id operation_id expected changed h =
      rw (lt→ltb 0 (expected.state.generation + 1) (omega arith), operation_id-filled operation_id)
        refl
  valid_shape-next_state project_id initialize snapshot_id operation_id expected changed h = cc h

  -- The state of a change, for the head that follows it.
  abbrev pub next_head :
      List ℕ → InventoryOperation → Digest32 → List ℕ → InventoryHead → Digest32 × ℕ → InventoryHead
  next_head project_id op snapshot_id operation_id expected changed =
      let state =
        next_state hash project_id op snapshot_id operation_id expected changed
          (expected.state.generation + 1) in
      record { id = state_id hash (encode_state state); state = state }

  -- A state that was written under its identifier can be loaded.
  pub written-StateAt :
      (files : Files) (project_id : List ℕ) (state : InventoryState)
      → IsStateValue state
      → valid_shape state state.operation ≡ true
      → state.project_id ≡ project_id
      → get (inventory_state_path (state_id hash (encode_state state))) files
        ≡ some (encode_state state)
      → StateAt hash files project_id
          (record { id = state_id hash (encode_state state); state = state })
  written-StateAt files project_id state v shape owned stored = record {
    bytes = encode_state state;
    stored = stored;
    sized = length-encode_state state v;
    named = refl;
    decodes = decode_state-encode_state state v shape;
    owned = owned;
  }

  pub StateAt-same :
      (files files' : Files) (project_id : List ℕ) (head : InventoryHead)
      (s : StateAt hash files project_id head)
      → get (inventory_state_path head.id) files' ≡ some s.bytes
      → StateAt hash files' project_id head
  StateAt-same files files' project_id head s stored = record {
    bytes = s.bytes;
    stored = stored;
    sized = s.sized;
    named = s.named;
    decodes = s.decodes;
    owned = s.owned;
  }

  pub expected-IsArray :
      (files : Files) (project_id : List ℕ) (head : InventoryHead)
      → StateAt hash files project_id head
      → IsArray 32 head.id
  expected-IsArray files project_id head s = subst (IsArray 32) s.named (state_id-IsArray s.bytes)
