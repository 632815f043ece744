-- ===== src/Inventory/Removal.antt =====
-- `project_snapshot_removal`: the latest checkpoint when one of the inventory is removed.
pub mod Lineage
pub mod Survivor
pub mod Reads
pub mod Latest
use check_po.Prelude.{
  ℕ, zero, suc, ◌+◌, ◌-◌, ◌^◌, Bool, true, false, not, ◌&&◌, ◌||◌, Option, none, some, List, [],
  ◌∷◌, length, get_or, ltb, ◌==◌, list_eq, if◌then◌else◌,
}
use check_po.Prelude.Result.{ok, err, reject_if, ok_or}
use check_po.Prelude.Map.{mem}
use check_po.Codec.{Digest32, checked_add_u64}
use check_po.Inventory.{
  corruption, InventoryResult, InventoryOperation, initialize, add, remove, InventoryState, SetRoot,
}
use check_po.Inventory.Store.{
  Files, M, then_run, ◌>>=◌, ◌>>◌, lift, InventoryHead, load_state, load_set_root, inventory_head,
}
use check_po.Inventory.Change.{option_eq, set_root_contains, unreachable}
use check_po.Inventory.Listing.{load_inventory_ids}

-- `BTreeSet::remove`
abbrev pub without : Digest32 → List Digest32 → List Digest32
without id [] = []
without id (x ∷ ids) = if list_eq x id then without id ids else x ∷ without id ids

-- `Some(sum) == Some(generation)`
abbrev pub is_generation : Option ℕ → ℕ → Bool
is_generation none generation = false
is_generation (some sum) generation = sum == generation

-- The snapshot that a state added, when it is one of those that remain.
abbrev pub if_remains : Digest32 → List Digest32 → Option Digest32
if_remains candidate remaining = if mem candidate remaining then some candidate else none

abbrev pub surviving_candidate :
    InventoryOperation → Option Digest32 → List Digest32 → InventoryResult (Option Digest32)
surviving_candidate add (some candidate) remaining = ok (if_remains candidate remaining)
surviving_candidate add none remaining =
    err (corruption "snapshot inventory Add has no snapshot id")
surviving_candidate remove snapshot_id remaining = ok none
surviving_candidate initialize snapshot_id remaining = ok none

module _ (hash : List ℕ → Digest32) (project_id : List ℕ) where
  -- The end of one round of the loop, which goes on with `next`.
  abbrev pub to_parent : (InventoryHead → M Digest32) → ℕ → Option Digest32 → M Digest32
  to_parent next generation none =
      lift (err (corruption "snapshot inventory cannot identify the newest surviving checkpoint"))
  to_parent next generation (some parent_id) = do
    parent ← load_state hash parent_id project_id
    lift (
        reject_if (not (is_generation (checked_add_u64 parent.state.generation 1) generation))
          (corruption "snapshot inventory state generations are not contiguous"))
    next parent

  abbrev pub found_or_parent :
      (InventoryHead → M Digest32) → InventoryHead → Option Digest32 → M Digest32
  found_or_parent next cursor (some candidate) = lift (ok candidate)
  found_or_parent next cursor none = to_parent next cursor.state.generation cursor.state.parent

  -- One round of the loop.
  unfoldable pub round :
      List Digest32 → List Digest32 → (InventoryHead → M Digest32) → InventoryHead → M Digest32
  round remaining visited next cursor = do
    lift (
        reject_if (mem cursor.id visited)
          (corruption "snapshot inventory state chain contains a cycle"))
    candidate ← lift (surviving_candidate cursor.state.operation cursor.state.snapshot_id remaining)
    found_or_parent next cursor candidate

  -- The loop, by the generation of the cursor: a parent is one generation older, and generation 0
  -- has none that is.
  unfoldable pub survivor_from : ℕ → List Digest32 → List Digest32 → InventoryHead → M Digest32
  unfolding round
  survivor_from zero remaining visited cursor =
      round remaining visited (λ parent. lift (err unreachable)) cursor
  survivor_from (suc generation) remaining visited cursor =
      round remaining visited (survivor_from generation remaining (cursor.id ∷ visited)) cursor

  unfoldable pub survivor : List Digest32 → List Digest32 → InventoryHead → M Digest32
  unfolding survivor_from
  survivor remaining visited cursor = survivor_from cursor.state.generation remaining visited cursor

  -- The walk through the older states.
  unfoldable pub newest_surviving : Digest32 → InventoryHead → ℕ → M (ℕ × Option Digest32)
  unfolding survivor
  newest_surviving removed head remaining_count = do
    ids ← load_inventory_ids hash project_id head.state
    latest ← survivor (without removed ids) [] head
    lift (ok (remaining_count, some latest))

  abbrev pub keep_latest : SetRoot → ℕ → Option Digest32 → M (ℕ × Option Digest32)
  keep_latest root remaining_count none = lift (ok (remaining_count, none))
  keep_latest root remaining_count (some latest) = do
    held ← set_root_contains hash project_id root latest
    lift (
        reject_if (not held)
          (corruption "refs/latest points outside the snapshot inventory: {latest}"))
    lift (ok (remaining_count, some latest))

  -- `parent != removed && set_root_contains(..)?`
  abbrev pub is_usable : SetRoot → Digest32 → Bool → M Bool
  is_usable root parent true = lift (ok false)
  is_usable root parent false = set_root_contains hash project_id root parent

  abbrev pub parent_or_newest :
      Digest32 → InventoryHead → ℕ → Digest32 → Bool → M (ℕ × Option Digest32)
  parent_or_newest removed head remaining_count parent true =
      lift (ok (remaining_count, some parent))
  parent_or_newest removed head remaining_count parent false =
      newest_surviving removed head remaining_count

  abbrev pub from_parent :
      Digest32 → InventoryHead → SetRoot → ℕ → Option Digest32 → M (ℕ × Option Digest32)
  from_parent removed head root remaining_count none = newest_surviving removed head remaining_count
  from_parent removed head root remaining_count (some parent) = do
    usable ← is_usable root parent (list_eq parent removed)
    parent_or_newest removed head remaining_count parent usable

  -- Whether the latest checkpoint is the one that is removed.
  abbrev pub replace_latest :
      Digest32
      → InventoryHead
      → SetRoot
      → ℕ
      → Option Digest32
      → Option Digest32
      → Bool
      → M (ℕ × Option Digest32)
  replace_latest removed head root remaining_count current_latest preferred_parent false =
      keep_latest root remaining_count current_latest
  replace_latest removed head root zero current_latest preferred_parent true = lift (ok (0, none))
  replace_latest removed head root (suc n) current_latest preferred_parent true =
      from_parent removed head root (suc n) preferred_parent

  unfoldable pub project_snapshot_removal :
      Digest32 → Option Digest32 → Option Digest32 → M (ℕ × Option Digest32)
  unfolding newest_surviving
  project_snapshot_removal removed current_latest preferred_parent = do
    head ← inventory_head hash project_id
    lift (
        reject_if (head.state.count == 0)
          (corruption "cannot remove a snapshot from an empty inventory"))
    root ← load_set_root hash head.state.set_root project_id
    lift (
        reject_if (not (root.count == head.state.count))
          (corruption "snapshot inventory state count does not match its set root"))
    held ← set_root_contains hash project_id root removed
    lift (reject_if (not held) (corruption "snapshot inventory does not contain root {removed}"))
    remaining_count ← lift (
        if head.state.count == 0
        then err (corruption "snapshot inventory count underflow")
        else ok (head.state.count - 1))
    replace_latest removed head root remaining_count current_latest preferred_parent
        (option_eq current_latest (some removed))
