-- ===== src/Inventory/Change.antt =====
-- The inventory as a set of snapshots: `set_root_contains`, `mutate_set` and `transition_inventory`.
pub mod Ordered
pub mod Slots
pub mod Parts
pub mod Members
pub mod Refines
pub mod Preserves
pub mod Leads
pub mod Outcome
pub mod Swap
pub mod Next
pub mod Commits
mod Samples
use check_po.Prelude.{
  ℕ, zero, suc, ◌+◌, ◌-◌, ◌^◌, Bool, true, false, not, ◌&&◌, ◌||◌, Option, none, some, List, [],
  ◌∷◌, ◌++◌, length, get_or, ltb, ◌==◌, list_eq, if◌then◌else◌,
}
use check_po.Prelude.Result.{ok, err, reject_if, ok_or}
use check_po.Prelude.Map.{Comparison, less, equal, greater, compare_text, get, mem, insert_key}
use check_po.Prelude.Text.{codes}
use check_po.Prelude.Text.Utf8.{as_bytes}
use check_po.Codec.{Digest32, checked_add_u64}
use check_po.Path.{is_nil}
use check_po.Path.Id.{encode_lower_hex}
use check_po.Inventory.{
  InventoryError, corruption, working_tree_changed, InventoryResult, InventoryOperation, initialize,
  add, remove, InventoryState, LeafRef, SetRoot, SetLeaf, encode_state, byte_at, operation_byte,
  zeros,
}
use check_po.Inventory.Store.{
  Files, M, then_run, ◌>>=◌, ◌>>◌, lift, InventoryHead, state_id, content_id, load_state,
  store_state, load_set_root, store_set_root, load_set_leaf, store_set_leaf, inventory_head,
  write_head, parse_id, inventory_head_path,
}

-- The result of `binary_search`: the place of the value, or the place where it belongs.
pub data Search : Type 0 where
  found absent : ℕ → Search

abbrev pub later : Search → Search
later (found i) = found (suc i)
later (absent i) = absent (suc i)

-- On values in order the search has one answer, which this finds from the front.
unfoldable pub binary_search : Digest32 → List Digest32 → Search
binary_search k [] = absent 0
binary_search k (x ∷ xs) = elim (compare_text x k) [
  | less ↦ later (binary_search k xs)
  | equal ↦ found 0
  | greater ↦ absent 0
]

abbrev pub is_found : Search → Bool
is_found (found i) = true
is_found (absent i) = false

-- `Vec::insert` and `Vec::remove` at a place that is there.
abbrev pub insert_at : ℕ → Digest32 → List Digest32 → List Digest32
insert_at zero k xs = k ∷ xs
insert_at (suc i) k [] = k ∷ []
insert_at (suc i) k (x ∷ xs) = x ∷ insert_at i k xs

abbrev pub remove_at : ℕ → List Digest32 → List Digest32
remove_at i [] = []
remove_at zero (x ∷ xs) = xs
remove_at (suc i) (x ∷ xs) = x ∷ remove_at i xs

abbrev pub set {ℓ} : {A : Type ℓ} → List A → ℕ → A → List A
set [] i v = []
set (x ∷ xs) zero v = v ∷ xs
set (x ∷ xs) (suc i) v = x ∷ set xs i v

-- `unreachable!()`
abbrev pub unreachable : InventoryError
unreachable = corruption "internal error: entered unreachable code"

abbrev pub changed_ids :
    InventoryOperation → Search → Digest32 → List Digest32 → InventoryResult (List Digest32)
changed_ids add (found _) id ids =
    err (corruption "snapshot inventory adds duplicate root {snapshot_id}")
changed_ids add (absent index) id ids = ok (insert_at index id ids)
changed_ids remove (found index) id ids = ok (remove_at index ids)
changed_ids remove (absent _) id ids =
    err (corruption "snapshot inventory removes unknown root {snapshot_id}")
changed_ids initialize _ id ids = err unreachable

abbrev pub changed_count : InventoryOperation → ℕ → InventoryResult ℕ
changed_count add count =
    ok_or (checked_add_u64 count 1) (corruption "snapshot inventory count overflow")
changed_count remove count =
    if count == 0 then err (corruption "snapshot inventory count overflow") else ok (count - 1)
changed_count initialize count = err unreachable

abbrev pub option_eq : Option Digest32 → Option Digest32 → Bool
option_eq none none = true
option_eq (some a) (some b) = list_eq a b
option_eq none (some b) = false
option_eq (some a) none = false

-- `InventoryState::eq`
abbrev pub state_eq : InventoryState → InventoryState → Bool
state_eq a b =
    list_eq a.project_id b.project_id
    && a.generation == b.generation
    && a.count == b.count
    && operation_byte a.operation == operation_byte b.operation
    && option_eq a.parent b.parent
    && option_eq a.snapshot_id b.snapshot_id
    && list_eq a.operation_id b.operation_id
    && list_eq a.set_root b.set_root

module _ (hash : List ℕ → Digest32) where
  -- A leaf that its root counts right.
  unfoldable pub counted_leaf : LeafRef → List ℕ → ℕ → M SetLeaf
  counted_leaf reference project_id prefix = do
    leaf ← load_set_leaf hash reference.id project_id prefix
    lift (
        reject_if (not (length leaf.ids == reference.count))
          (corruption "snapshot inventory leaf {prefix:02x} count mismatch"))
    lift (ok leaf)

  abbrev pub contains_in : Option LeafRef → List ℕ → Digest32 → M Bool
  contains_in none project_id snapshot_id = lift (ok false)
  contains_in (some reference) project_id snapshot_id = do
    leaf ← counted_leaf reference project_id (byte_at snapshot_id 0)
    lift (ok (is_found (binary_search snapshot_id leaf.ids)))

  unfoldable pub set_root_contains : List ℕ → SetRoot → Digest32 → M Bool
  set_root_contains project_id root snapshot_id =
      contains_in (get_or root.leaves (byte_at snapshot_id 0) none) project_id snapshot_id

  abbrev pub slot_leaf : Option LeafRef → List ℕ → ℕ → M SetLeaf
  slot_leaf (some reference) project_id prefix = counted_leaf reference project_id prefix
  slot_leaf none project_id prefix =
      lift (ok (record { project_id = project_id; prefix = prefix; ids = [] }))

  abbrev pub store_slot : SetLeaf → List Digest32 → M (Option LeafRef)
  store_slot leaf [] = lift (ok none)
  store_slot leaf (first ∷ ids) = do
    let changed : SetLeaf = record leaf { ids = first ∷ ids }
    lift (
        reject_if (not (ltb (length (first ∷ ids)) (2 ^ 32)))
          (corruption "snapshot inventory leaf {prefix:02x} exceeds u32 entries"))
    id ← store_set_leaf hash changed
    lift (ok (some (record { id = id; count = length (first ∷ ids) })))

  -- `mutate_set` on the root that it loaded.
  unfoldable pub mutate_root :
      SetRoot → List ℕ → InventoryState → InventoryOperation → Digest32 → M (Digest32 × ℕ)
  mutate_root root project_id state operation snapshot_id = do
    let prefix = byte_at snapshot_id 0
    lift (
        reject_if (not (root.count == state.count))
          (corruption "snapshot inventory state count does not match its set root"))
    leaf ← slot_leaf (get_or root.leaves prefix none) project_id prefix
    ids ← lift (changed_ids operation (binary_search snapshot_id leaf.ids) snapshot_id leaf.ids)
    count ← lift (changed_count operation state.count)
    slot ← store_slot leaf ids
    root_id ←
        store_set_root hash (record root { count = count; leaves = set root.leaves prefix slot })
    lift (ok (root_id, count))

  unfoldable pub mutate_set :
      List ℕ → InventoryState → InventoryOperation → Digest32 → M (Digest32 × ℕ)
  unfolding mutate_root
  mutate_set project_id state operation snapshot_id = do
    root ← load_set_root hash state.set_root project_id
    mutate_root root project_id state operation snapshot_id

  unfoldable pub inventory_operation_id : List ℕ → List ℕ
  inventory_operation_id operation_id =
      hash (codes "checkpo.snapshot-inventory-operation.v2" ++ 0 ∷ as_bytes operation_id)

  -- The commit point, from the head as it was read last.
  abbrev pub swap : List ℕ → Digest32 → Digest32 → InventoryHead → M (List ℕ)
  swap project_id stored expected_id again = do
    lift (reject_if (not (list_eq again.id expected_id)) working_tree_changed)
    write_head stored
    last ← inventory_head hash project_id
    lift (
        reject_if (not (list_eq last.id stored))
          (corruption "snapshot inventory head commit did not persist"))
    lift (ok (encode_lower_hex stored))

  -- From the head that was read: the same change was made before, or it is made now. `others` is
  -- what other processes do to the files between the two reads of the head.
  abbrev pub commit :
      (Files → Files) → List ℕ → InventoryState → Digest32 → InventoryHead → Bool → M (List ℕ)
  commit others project_id state expected_id current true = do
    lift (
        reject_if (not (state_eq current.state state))
          (corruption "snapshot inventory replay state does not match its operation"))
    lift (ok (encode_lower_hex (state_id hash (encode_state state))))
  commit others project_id state expected_id current false = do
    lift (reject_if (not (list_eq current.id expected_id)) working_tree_changed)
    stored ← store_state hash state
    (λ files. (ok tt, others files))
    again ← inventory_head hash project_id
    swap project_id stored expected_id again

  -- The state that a change makes from the expected one.
  abbrev pub next_state :
      List ℕ
      → InventoryOperation
      → Digest32
      → List ℕ
      → InventoryHead
      → Digest32 × ℕ
      → ℕ
      → InventoryState
  next_state project_id operation snapshot_id operation_id expected changed generation = record {
    project_id = project_id;
    generation = generation;
    count = changed.1;
    operation = operation;
    parent = some expected.id;
    snapshot_id = some snapshot_id;
    operation_id = inventory_operation_id operation_id;
    set_root = changed.0;
  }

  -- `transition_inventory` from the expected head that it loaded.
  unfoldable pub change_from :
      (Files → Files) → List ℕ → InventoryOperation → Digest32 → List ℕ → InventoryHead → M (List ℕ)
  unfolding inventory_operation_id
  change_from others project_id operation snapshot_id operation_id expected = do
    changed ← mutate_set project_id expected.state operation snapshot_id
    generation ← lift (
        ok_or (checked_add_u64 expected.state.generation 1)
          (corruption "snapshot inventory generation overflow"))
    let state = next_state project_id operation snapshot_id operation_id expected changed generation
    current ← inventory_head hash project_id
    commit others project_id state expected.id current
        (list_eq current.id (state_id hash (encode_state state)))

  unfoldable pub transition_inventory :
      (Files → Files) → List ℕ → InventoryOperation → Digest32 → List ℕ → List ℕ → M (List ℕ)
  unfolding change_from
  transition_inventory others project_id operation snapshot_id expected_head_id operation_id = do
    lift (reject_if (is_nil operation_id) (corruption "snapshot inventory operation id is empty"))
    expected_id ← lift (parse_id expected_head_id "snapshot inventory expected head id is invalid")
    expected ← load_state hash expected_id project_id
    change_from others project_id operation snapshot_id operation_id expected
