-- ===== src/Inventory/Collect.antt =====
-- `inventory_gc_candidates`, of a run that is not cancelled: the files of the inventory that nothing
-- needs. A path is its bytes below the repository; what the walk of a directory finds is a parameter.
pub mod Spared
pub mod Needed
pub mod Safe
use check_po.Prelude.{
  ℕ, zero, suc, ◌+◌, ◌^◌, Bool, true, false, not, ◌&&◌, ◌||◌, Option, none, some, List, [], ◌∷◌,
  ◌++◌, String, length, take, all_true, ◌==◌, list_eq, if◌then◌else◌,
}
use check_po.Prelude.Result
use check_po.Prelude.Result.{ok, err, reject_if, ok_or}
use check_po.Prelude.Map.{Comparison, less, equal, greater, compare_text, mem, insert_key, is_some}
use check_po.Prelude.Text.{codes, strip_suffix}
use check_po.Prelude.Text.Utf8.{as_bytes, from_utf8}
use check_po.Codec.{Digest32, checked_add_u64}
use check_po.Path.Id.{is_lower_hex}
use check_po.Inventory.{corruption, InventoryResult, LeafRef}
use check_po.Inventory.Store.{
  Files, M, then_run, ◌>>=◌, ◌>>◌, lift, InventoryHead, inventory_state_path,
  inventory_set_root_path, inventory_set_leaf_path, load_state, load_set_root, inventory_head,
  parse_id,
}
use check_po.Inventory.Change.{counted_leaf, unreachable, option_eq}
use check_po.Inventory.Removal.{is_generation}

pub data EntryKind : Type 0 where
  link directory file other : EntryKind

-- An entry of a store, with its components below the store.
pub record Entry : Type 0 where
  pub kind : EntryKind
  pub below : List (List ℕ)
  pub len : ℕ

unfoldable pub is_lower_hex_shard : List ℕ → Bool
is_lower_hex_shard name = is_some (from_utf8 name) && length name == 2 && all_true is_lower_hex name

invalid_path : InventoryResult (Unit {0})
invalid_path = err (corruption "snapshot inventory content path is invalid: {}")

abbrev content_name : List ℕ → List ℕ → String → InventoryResult (Unit {0})
content_name shard file_name suffix =
    Result.◌>>=◌
      (ok_or (from_utf8 file_name) (corruption "snapshot inventory filename is not UTF-8: {}"))
      λ text.
        Result.◌>>=◌
          (ok_or (strip_suffix (codes suffix) text)
            (corruption "snapshot inventory filename has the wrong suffix: {}"))
          λ id.
            Result.◌>>=◌ (parse_id id "snapshot inventory filename has an invalid id: {}") λ digest.
              reject_if (not (option_eq (from_utf8 shard) (some (take 2 id))))
                (corruption "snapshot inventory shard does not match its id: {}")

unfoldable pub validate_inventory_content_path : List (List ℕ) → String → InventoryResult (Unit {0})
unfolding is_lower_hex_shard invalid_path
validate_inventory_content_path (shard ∷ file_name ∷ []) suffix =
    if is_lower_hex_shard shard then content_name shard file_name suffix else invalid_path
validate_inventory_content_path [] suffix = invalid_path
validate_inventory_content_path (shard ∷ []) suffix = invalid_path
validate_inventory_content_path (shard ∷ file_name ∷ more ∷ rest) suffix = invalid_path

-- `PathBuf::join` of a store and the components below it.
abbrev pub below_path : List ℕ → List (List ℕ) → List ℕ
below_path store [] = store
below_path store (name ∷ names) = below_path (store ++ 47 ∷ name) names

abbrev pub Candidates : Type 0
Candidates = List (List ℕ × ℕ)

abbrev pub directory_checked : List (List ℕ) → Candidates → InventoryResult Candidates
directory_checked (name ∷ []) candidates =
    if is_lower_hex_shard name
    then ok candidates
    else err (corruption "snapshot inventory contains an unexpected directory: {}")
directory_checked [] candidates =
    err (corruption "snapshot inventory contains an unexpected directory: {}")
directory_checked (name ∷ more ∷ rest) candidates =
    err (corruption "snapshot inventory contains an unexpected directory: {}")

abbrev pub with_candidate : List (List ℕ) → List ℕ → ℕ → Candidates → InventoryResult Candidates
with_candidate reachable relative len candidates =
    ok (if mem relative reachable then candidates else candidates ++ (relative, len) ∷ [])

-- One entry of a walk.
abbrev pub visit :
    List (List ℕ)
    → String
    → String
    → EntryKind
    → List (List ℕ)
    → ℕ
    → Candidates
    → InventoryResult Candidates
visit reachable store suffix link below len candidates =
    err (corruption "snapshot inventory contains a symbolic link or reparse point: {}")
visit reachable store suffix directory below len candidates = directory_checked below candidates
visit reachable store suffix other below len candidates =
    err (corruption "snapshot inventory contains a non-regular entry: {}")
visit reachable store suffix file below len candidates =
    Result.◌>>=◌ (validate_inventory_content_path below suffix)
      λ u. with_candidate reachable (below_path (codes store) below) len candidates

-- The loop over one walk; an item of a walk can be an error.
unfoldable pub visit_all :
    List (List ℕ)
    → String
    → String
    → List (InventoryResult Entry)
    → Candidates
    → InventoryResult Candidates
visit_all reachable store suffix [] candidates = ok candidates
visit_all reachable store suffix (item ∷ items) candidates = Result.◌>>=◌ item λ entry.
    Result.◌>>=◌ (visit reachable store suffix entry.kind entry.below entry.len candidates)
      (visit_all reachable store suffix items)

-- `sort_by` of the paths, which is stable.
abbrev pub placed : Comparison → (List ℕ × ℕ) → (List ℕ × ℕ) → Candidates → Candidates → Candidates
placed less c x xs rest = c ∷ x ∷ xs
placed equal c x xs rest = c ∷ x ∷ xs
placed greater c x xs rest = x ∷ rest

unfoldable pub insert_candidate : (List ℕ × ℕ) → Candidates → Candidates
insert_candidate c [] = c ∷ []
insert_candidate c (x ∷ xs) = placed (compare_text c.0 x.0) c x xs (insert_candidate c xs)

unfoldable pub sort_candidates : Candidates → Candidates
unfolding insert_candidate
sort_candidates [] = []
sort_candidates (c ∷ cs) = insert_candidate c (sort_candidates cs)

abbrev pub states_store : String
states_store = "inventory/snapshots/states"

abbrev pub roots_store : String
roots_store = "inventory/snapshots/sets/roots"

abbrev pub leaves_store : String
leaves_store = "inventory/snapshots/sets/leaves"

-- The loop over the three stores.
abbrev pub walk_stores :
    (String → List (InventoryResult Entry)) → List (List ℕ) → InventoryResult Candidates
walk_stores walk reachable =
    Result.◌>>=◌ (visit_all reachable states_store ".state" (walk states_store) []) λ c1.
      Result.◌>>=◌ (visit_all reachable roots_store ".root" (walk roots_store) c1)
        (visit_all reachable leaves_store ".leaf" (walk leaves_store))

module _ (hash : List ℕ → Digest32) (project_id : List ℕ) where
  abbrev pub continue_lineage :
      (List (List ℕ) → InventoryHead → M (List (List ℕ)))
      → List (List ℕ)
      → ℕ
      → Option Digest32
      → M (List (List ℕ))
  continue_lineage next reachable generation none = lift (ok reachable)
  continue_lineage next reachable generation (some parent_id) = do
    parent ← load_state hash parent_id project_id
    lift (
        reject_if (not (is_generation (checked_add_u64 parent.state.generation 1) generation))
          (corruption "snapshot inventory state generations are not contiguous"))
    next reachable parent

  -- One round of the loop over the older states.
  abbrev pub lineage_round :
      (List (List ℕ) → InventoryHead → M (List (List ℕ)))
      → List Digest32
      → List (List ℕ)
      → InventoryHead
      → M (List (List ℕ))
  lineage_round next visited reachable cursor = do
    lift (
        reject_if (mem cursor.id visited)
          (corruption "snapshot inventory state chain contains a cycle"))
    continue_lineage next (insert_key (as_bytes (inventory_state_path cursor.id)) reachable)
        cursor.state.generation cursor.state.parent

  -- The loop, by the generation of the cursor as in `survivor_from`.
  unfoldable pub lineage_from :
      ℕ → List Digest32 → List (List ℕ) → InventoryHead → M (List (List ℕ))
  lineage_from zero visited reachable cursor =
      lineage_round (λ r p. lift (err unreachable)) visited reachable cursor
  lineage_from (suc generation) visited reachable cursor =
      lineage_round (lineage_from generation (cursor.id ∷ visited)) visited reachable cursor

  -- The loop over the slots.
  unfoldable pub reach_slots : ℕ → List (Option LeafRef) → List (List ℕ) → M (List (List ℕ))
  reach_slots prefix [] reachable = lift (ok reachable)
  reach_slots prefix (none ∷ leaves) reachable = reach_slots (prefix + 1) leaves reachable
  reach_slots prefix (some reference ∷ leaves) reachable = do
    _ ← counted_leaf hash reference project_id prefix
    reach_slots (prefix + 1) leaves
        (insert_key (as_bytes (inventory_set_leaf_path reference.id)) reachable)

  unfoldable pub inventory_gc_candidates : (String → List (InventoryResult Entry)) → M Candidates
  unfolding lineage_from reach_slots sort_candidates
  inventory_gc_candidates walk = do
    head ← inventory_head hash project_id
    root ← load_set_root hash head.state.set_root project_id
    lift (
        reject_if (not (root.count == head.state.count))
          (corruption "snapshot inventory state count does not match its set root"))
    states ← lineage_from head.state.generation [] [] head
    reachable ←
        reach_slots 0 root.leaves
          (insert_key (as_bytes (inventory_set_root_path head.state.set_root)) states)
    candidates ← lift (walk_stores walk reachable)
    lift (ok (sort_candidates candidates))
