-- ===== src/Inventory/Change/Outcome.antt =====
-- How a change of the inventory can end.
use check_po.Prelude.{ℕ, ◌≡◌, ◌≢◌, Option, some, List}
use check_po.Prelude.Result.{ok, err}
use check_po.Prelude.Map.{get, insert}
use check_po.Codec.{Digest32}
use check_po.Path.Id.{encode_lower_hex}
use check_po.Inventory.{
  InventoryError, InventoryResult, InventoryOperation, InventoryState, encode_state,
}
use check_po.Inventory.Store.{
  Files, inventory_head_path, inventory_state_path, inventory_head, InventoryHead, state_id,
}
use check_po.Inventory.Store.Heads.{head_bytes}
use check_po.Inventory.Change.{inventory_operation_id}

module _ (hash : List ℕ → Digest32) (others : Files → Files) (project_id : List ℕ)
    (op : InventoryOperation) (snapshot_id : Digest32) (operation_id : List ℕ)
    (expected_id : Digest32) (head : Option (List ℕ)) where
  -- The state records the change that was asked for, with the expected state as its parent.
  pub record IsNext (state : InventoryState) : Type 0 where
    pub project : state.project_id ≡ project_id
    pub operation : state.operation ≡ op
    pub parent : state.parent ≡ some expected_id
    pub snapshot : state.snapshot_id ≡ some snapshot_id
    pub named : state.operation_id ≡ inventory_operation_id hash operation_id

  abbrev pub name_of : InventoryState → Digest32
  name_of state = state_id hash (encode_state state)

  -- The next state stands in the files under its name, and nothing was written to the head yet.
  pub record Made (before : Files) (state : InventoryState) : Type 0 where
    pub next : IsNext state
    pub stored : get (inventory_state_path (name_of state)) before ≡ some (encode_state state)
    pub unwritten : get inventory_head_path before ≡ head

  -- If the run succeeded, it returned the new name, and a head with that name was read at the end.
  abbrev pub Confirmed : Digest32 → InventoryResult (List ℕ) × Files → Type 0
  Confirmed new run =
      (text : List ℕ)
      → run.0 ≡ ok text
      → (text ≡ encode_lower_hex new)
        × ((last : InventoryHead) × (inventory_head hash project_id run.1 ≡ (ok last, run.1))
            × (last.id ≡ new))

  -- How a run can end: in an error, with the head as it was; in the name of the next state, which the
  -- head names already; in an error, with the files as the other processes left them, where the head
  -- does not name the expected state; or with the head replaced by the name of the next state, on the
  -- files of the others, where the head named the expected state.
  pub data Outcome (run : InventoryResult (List ℕ) × Files) : Type 0 where
    unchanged :
        (e : InventoryError) → run.0 ≡ err e → get inventory_head_path run.1 ≡ head → Outcome run
    replayed :
        (state : InventoryState) (current : InventoryHead)
        → IsNext state
        → inventory_head hash project_id run.1 ≡ (ok current, run.1)
        → current.id ≡ name_of state
        → run.0 ≡ ok (encode_lower_hex (name_of state))
        → get inventory_head_path run.1 ≡ head
        → Outcome run
    lost :
        (before : Files) (state : InventoryState) (e : InventoryError)
        → Made before state
        → ((again : InventoryHead)
            → inventory_head hash project_id (others before) ≡ (ok again, others before)
            → again.id ≢ expected_id)
        → run ≡ (err e, others before)
        → Outcome run
    swapped :
        (before : Files) (state : InventoryState) (again : InventoryHead)
        → Made before state
        → inventory_head hash project_id (others before) ≡ (ok again, others before)
        → again.id ≡ expected_id
        → run.1 ≡ insert inventory_head_path (head_bytes (name_of state)) (others before)
        → Confirmed (name_of state) run
        → Outcome run
