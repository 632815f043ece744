-- ===== src/Inventory/Change/Commits.antt =====
-- A change from the state that the head names is made, and the head then names the new state.
use check_po.Prelude.{
  ℕ, ◌+◌, ◌<◌, ◌^◌, ◌≡◌, refl, subst, ◌∙◌, false, some, List, lt→ltb, list_eq, list_eq_refl,
}
use check_po.Prelude.Result.{ok}
use check_po.Prelude.Map.{get, insert, get-insert_same, get-insert_other}
use check_po.Codec.{Digest32, IsArray}
use check_po.Path.{is_nil}
use check_po.Path.Id.{encode_lower_hex}
use check_po.Inventory.{InventoryResult, InventoryOperation, is_zero, encode_state}
use check_po.Inventory.State.{IsStateValue}
use check_po.Inventory.State.Canonical.{encode_state-decode_state}
use check_po.Inventory.Store.{
  Files, inventory_head_path, inventory_state_path, store_state, write_head, inventory_head,
  InventoryHead,
}
use check_po.Inventory.Store.Loaded.{StateAt, StateAt-load_state}
use check_po.Inventory.Store.Heads.{
  parse_id-encode_lower_hex, head_bytes, inventory_head-found, inventory_head-StateAt,
}
use check_po.Inventory.Change.{mutate_set, change_from, transition_inventory}
use check_po.Inventory.Change.Slots.{HoldsBytes, get-IsByte}
use check_po.Inventory.Change.Parts.{changed_count-IsU64}
use check_po.Inventory.Change.Preserves.{
  mutate_set-keeps, mutate_set-Preserves, root_path-ne-state, leaf_path-ne-state,
  head-ne-state_path, state_path-ne-head,
}
use check_po.Inventory.Change.Next.{
  state_paths_differ, mutate_set-result, state_id-IsArray, operation_id-IsArray,
  valid_shape-next_state, next_head, written-StateAt, StateAt-same, expected-IsArray,
}

module _ (hash : List ℕ → Digest32) (arrays : (bs : List ℕ) → IsArray 32 (hash bs))
    (not_zero : (bs : List ℕ) → is_zero (hash bs) ≡ false) where
  -- The writes of a change, one after the other: the set, the state and the head.
  module _ (project_id : List ℕ) (op : InventoryOperation) (snapshot_id : Digest32)
      (operation_id : List ℕ) (files files1 : Files) (expected : InventoryHead)
      (changed : Digest32 × ℕ) where
    abbrev new_head : InventoryHead
    new_head =
        next_head hash arrays not_zero project_id op snapshot_id operation_id expected changed

    abbrev with_state : Files
    with_state = insert (inventory_state_path new_head.id) (encode_state new_head.state) files1

    abbrev with_head : Files
    with_head = insert inventory_head_path (head_bytes new_head.id) with_state

    new_state-IsStateValue :
        IsArray 16 project_id
        → IsArray 32 snapshot_id
        → HoldsBytes files
        → StateAt hash files project_id expected
        → expected.state.generation + 1 < 2 ^ 64
        → mutate_set hash project_id expected.state op snapshot_id files ≡ (ok changed, files1)
        → IsStateValue new_head.state
    new_state-IsStateValue ap16 as32 holds s fits h =
        let (rooted, counted) =
          mutate_set-result hash arrays not_zero files files1 project_id expected.state op
            snapshot_id changed h in
        let (v, shape, again) =
          encode_state-decode_state s.bytes (get-IsByte files _ s.bytes holds s.stored)
            expected.state s.decodes in
        record {
          project_id = ap16;
          generation = fits;
          count = changed_count-IsU64 op expected.state.count changed.1 v.count counted;
          parent = expected-IsArray hash arrays not_zero files project_id expected s;
          snapshot_id = as32;
          operation_id = operation_id-IsArray hash arrays not_zero operation_id;
          set_root = rooted;
        }

    new_head-read :
        IsArray 16 project_id
        → IsArray 32 snapshot_id
        → HoldsBytes files
        → StateAt hash files project_id expected
        → expected.state.generation + 1 < 2 ^ 64
        → mutate_set hash project_id expected.state op snapshot_id files ≡ (ok changed, files1)
        → inventory_head hash project_id with_head ≡ (ok new_head, with_head)
    new_head-read ap16 as32 holds s fits h =
        let v = new_state-IsStateValue ap16 as32 holds s fits h in
        let counted =
          (mutate_set-result hash arrays not_zero files files1 project_id expected.state op
            snapshot_id changed h).1 in
        inventory_head-found hash with_head project_id new_head
          (state_id-IsArray hash arrays not_zero _)
          (get-insert_same inventory_head_path (head_bytes new_head.id) with_state)
          (written-StateAt hash arrays not_zero with_head project_id new_head.state v
            (valid_shape-next_state hash arrays not_zero project_id op snapshot_id operation_id
              expected changed counted)
            refl
            (get-insert_other (inventory_state_path new_head.id) inventory_head_path
                (head_bytes new_head.id) with_state (head-ne-state_path new_head.id)
              ∙ get-insert_same (inventory_state_path new_head.id) (encode_state new_head.state)
                  files1))

    -- The head still names the expected state after the set and the state were written.
    expected-read :
        StateAt hash files project_id expected
        → get inventory_head_path files ≡ some (head_bytes expected.id)
        → list_eq expected.id new_head.id ≡ false
        → mutate_set hash project_id expected.state op snapshot_id files ≡ (ok changed, files1)
        → (inventory_head hash project_id files1 ≡ (ok expected, files1))
          × (inventory_head hash project_id with_state ≡ (ok expected, with_state))
    expected-read s named differ h =
        let array = expected-IsArray hash arrays not_zero files project_id expected s in
        let path = inventory_state_path expected.id in
        let head1 : get inventory_head_path files1 ≡ some (head_bytes expected.id) =
          subst
            (λ (r : InventoryResult (Digest32 × ℕ) × Files).
              get inventory_head_path r.1 ≡ some (head_bytes expected.id))
            h
            ((mutate_set-Preserves hash project_id expected.state op snapshot_id).at files named) in
        let state1 : get path files1 ≡ some s.bytes =
          subst (λ (r : InventoryResult (Digest32 × ℕ) × Files). get path r.1 ≡ some s.bytes) h
            ((mutate_set-keeps hash path (λ id. root_path-ne-state id expected.id)
                (λ id. leaf_path-ne-state id expected.id) project_id expected.state op
                snapshot_id).at
              files s.stored) in
        let apart =
          state_paths_differ new_head.id expected.id (state_id-IsArray hash arrays not_zero _) array
            differ in
        (
          inventory_head-found hash files1 project_id expected array head1
              (StateAt-same hash arrays not_zero files files1 project_id expected s state1),
          inventory_head-found hash with_state project_id expected array
              (get-insert_other inventory_head_path (inventory_state_path new_head.id)
                  (encode_state new_head.state) files1 (state_path-ne-head new_head.id)
                ∙ head1)
              (StateAt-same hash arrays not_zero files with_state project_id expected s (
                get-insert_other path (inventory_state_path new_head.id)
                  (encode_state new_head.state) files1 apart
                ∙ state1)),
        )

  -- If the hash has 32 bytes that are not all zeros, the files hold bytes, the identifiers have their
  -- lengths, the operation is named, the head names the expected state, the change of the set can be
  -- made, the generation does not overflow and the digest of the new state is another than that of
  -- the expected one, then the change of the inventory succeeds when no other process interferes: it
  -- returns the name of the new state, and the head that is read afterwards is the new state.
  pub transition_inventory-commits :
      (project_id : List ℕ) (op : InventoryOperation) (snapshot_id : Digest32)
      (operation_id : List ℕ) (files files1 : Files) (expected : InventoryHead)
      (changed : Digest32 × ℕ)
      → IsArray 16 project_id
      → IsArray 32 snapshot_id
      → HoldsBytes files
      → is_nil operation_id ≡ false
      → get inventory_head_path files ≡ some (head_bytes expected.id)
      → inventory_head hash project_id files ≡ (ok expected, files)
      → mutate_set hash project_id expected.state op snapshot_id files ≡ (ok changed, files1)
      → expected.state.generation + 1 < 2 ^ 64
      → list_eq expected.id
          (next_head hash arrays not_zero project_id op snapshot_id operation_id expected
            changed).id
        ≡ false
      → (files' : Files) × (transition_inventory hash
            (λ f. f)
            project_id
            op
            snapshot_id
            (encode_lower_hex expected.id)
            operation_id
            files
          ≡ (
            ok (
                encode_lower_hex
                  (next_head hash arrays not_zero project_id op snapshot_id operation_id expected
                    changed).id),
            files',
          ))
        × (inventory_head hash project_id files' ≡ (
          ok (
              next_head hash arrays not_zero project_id op snapshot_id operation_id expected
                changed),
          files',
        ))
  unfolding transition_inventory change_from store_state write_head
  transition_inventory-commits project_id op snapshot_id operation_id files files1 expected changed
        ap16 as32 holds filled named loaded made fits differ =
      let s = inventory_head-StateAt hash files files project_id expected loaded in
      let array = expected-IsArray hash arrays not_zero files project_id expected s in
      let new = new_head project_id op snapshot_id operation_id files files1 expected changed in
      let final = with_head project_id op snapshot_id operation_id files files1 expected changed in
      let (read1, read2) =
        expected-read project_id op snapshot_id operation_id files files1 expected changed s named
          differ made in
      let read3 =
        new_head-read project_id op snapshot_id operation_id files files1 expected changed ap16 as32
          holds s fits made in
      (
        final,
        rw
            (
              filled,
              parse_id-encode_lower_hex expected.id "snapshot inventory expected head id is invalid"
                  array,
              StateAt-load_state hash files project_id expected s,
              made,
              lt→ltb (expected.state.generation + 1) (2 ^ 64) fits,
              read1,
              differ,
              list_eq_refl expected.id,
              read2,
              list_eq_refl expected.id,
              read3,
              list_eq_refl new.id,
            )
            refl,
        read3,
      )
