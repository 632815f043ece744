-- ===== src/Inventory/Change/Samples/Heads.antt =====
-- A snapshot is added to the inventory that the head names.
use check_po.Prelude.{ℕ, ◌≡◌, refl, ◌∙◌, false, some, List, arith, All, list_eq}
use check_po.Prelude.Result.{ok}
use check_po.Prelude.Bytes.{IsByte, to_be_bytes, le_bytes}
use check_po.Prelude.Decided.{bytes_decided}
use check_po.Prelude.Map.{get, insert, get-insert_other, get-insert_same}
use check_po.Prelude.Slices.{joined}
use check_po.Prelude.Text.{codes}
use check_po.Codec.{Digest32, IsArray}
use check_po.Codec.Samples.{sixteen}
use check_po.Path.Id.{encode_lower_hex}
use check_po.Inventory.{add, InventoryState, zeros, encode_slots}
use check_po.Inventory.Store.{Files, inventory_set_root_path, set_root_id, content_id}
use check_po.Inventory.Change.Slots.{HoldsBytes}
use check_po.Inventory.Listing.{first_state}
use check_po.Inventory.Change.Samples.{
  no_slots_loads, no_slots, adds, files_stored, files-HoldsBytes, added_to, part_hash,
  part_hash-IsArray, part_hash_not_zero, no_slots_id, files, snapshot-IsArray, one_slot_id,
  no_slots, root_stored, snapshot,
}
use check_po.Prelude.Text.Utf8.{as_bytes, encode_char, from_utf8, from_utf8-as_bytes}
use check_po.Prelude.Decided.{IsText-decided}
use check_po.Prelude.Text.{strip_suffix}
use check_po.Path.Id.{is_lower_hex, parse_object_id, decode_lower_hex}
use check_po.Prelude.Map.{All-insert}
use check_po.Inventory.{encode_state}
use check_po.Inventory.State.{IsStateValue}
use check_po.Inventory.Store.{
  InventoryHead, inventory_head_path, inventory_state_path, state_id, inventory_head,
}
use check_po.Inventory.Store.Heads.{head_bytes, inventory_head-found, parse_id-encode_lower_hex}
use check_po.Inventory.Change.{transition_inventory}
use check_po.Inventory.Change.Preserves.{head-ne-state_path}
use check_po.Inventory.Change.Next.{next_head, written-StateAt, state_id-IsArray}
use check_po.Inventory.Change.Outcome.{Outcome}
use check_po.Inventory.Change.Swap.{transition_inventory-Outcome}
use check_po.Inventory.Change.Commits.{transition_inventory-commits}
use check_po.Prelude.Map.{mem, insert_key}
use check_po.Prelude.{true, none, some, String, [], ◌∷◌, ◌++◌, if◌then◌else◌}
use check_po.Inventory.{InventoryResult}
use check_po.Inventory.Collect.{
  Entry, directory, file, is_lower_hex_shard, validate_inventory_content_path, visit_all,
  insert_candidate, sort_candidates, lineage_from, reach_slots, inventory_gc_candidates,
}
use check_po.Inventory.Store.{parse_id}
use check_po.Inventory.Collect.Spared.{is_candidate}
use check_po.Inventory.Collect.Needed.{itself}
use check_po.Inventory.Collect.Safe.{IsSlotSpared, inventory_gc_candidates-IsSlotSpared}

abbrev first : InventoryState
first = first_state sixteen no_slots_id

first_id : Digest32
first_id = state_id part_hash (encode_state first)

with_first : Files
with_first = insert (inventory_state_path first_id) (encode_state first) files

started : Files
started = insert inventory_head_path (head_bytes first_id) with_first

abbrev first_head : InventoryHead
first_head = record { id = first_id; state = first }

started_head : get inventory_head_path started ≡ some (head_bytes first_id)
unfolding started
started_head = get-insert_same inventory_head_path (head_bytes first_id) with_first

started_state : get (inventory_state_path first_id) started ≡ some (encode_state first)
unfolding started with_first
started_state =
    get-insert_other (inventory_state_path first_id) inventory_head_path (head_bytes first_id)
      with_first (head-ne-state_path first_id)
    ∙ get-insert_same (inventory_state_path first_id) (encode_state first) files

head-ne-root : (id : Digest32) → list_eq inventory_head_path (inventory_set_root_path id) ≡ false
unfolding inventory_set_root_path list_eq
head-ne-root id = refl

state_path-ne-root :
    (id root : Digest32) → list_eq (inventory_state_path id) (inventory_set_root_path root) ≡ false
unfolding inventory_state_path inventory_set_root_path list_eq
state_path-ne-root id root = refl

started_root : get (inventory_set_root_path no_slots_id) started ≡ some (root_stored no_slots)
unfolding started with_first
started_root =
    get-insert_other (inventory_set_root_path no_slots_id) inventory_head_path (head_bytes first_id)
      with_first (head-ne-root no_slots_id)
    ∙ get-insert_other (inventory_set_root_path no_slots_id) (inventory_state_path first_id)
        (encode_state first) files (state_path-ne-root first_id no_slots_id)
    ∙ files_stored

first-IsStateValue : IsStateValue first
unfolding no_slots_id set_root_id content_id
first-IsStateValue = record {
  project_id = (refl, bytes_decided sixteen refl);
  generation = omega arith;
  count = omega arith;
  parent = (refl, bytes_decided (zeros 32) refl);
  snapshot_id = (refl, bytes_decided (zeros 32) refl);
  operation_id = (refl, bytes_decided (zeros 32) refl);
  set_root = part_hash-IsArray _;
}

started_loads : inventory_head part_hash sixteen started ≡ (ok first_head, started)
unfolding first_id
started_loads =
    inventory_head-found part_hash started sixteen first_head
      (state_id-IsArray part_hash part_hash-IsArray part_hash_not_zero _) started_head
      (written-StateAt part_hash part_hash-IsArray part_hash_not_zero started sixteen first
        first-IsStateValue refl refl started_state)

first_bytes : All IsByte (encode_state first)
unfolding encode_state no_slots_id set_root_id content_id part_hash joined encode_slots to_be_bytes
    le_bytes
first_bytes = bytes_decided (encode_state first) refl

first_head_bytes : All IsByte (head_bytes first_id)
unfolding first_id state_id content_id part_hash encode_state joined to_be_bytes le_bytes
    encode_lower_hex as_bytes encode_char
first_head_bytes = bytes_decided (head_bytes first_id) refl

started-HoldsBytes : HoldsBytes started
unfolding started with_first
started-HoldsBytes =
    All-insert (λ e. All IsByte e.1) inventory_head_path (head_bytes first_id) with_first
      first_head_bytes
      (All-insert (λ e. All IsByte e.1) (inventory_state_path first_id) (encode_state first) files
        first_bytes files-HoldsBytes)

abbrev operation : List ℕ
operation = codes "snapshot-1"

abbrev second_head : InventoryHead
second_head =
    next_head part_hash part_hash-IsArray part_hash_not_zero sixteen add snapshot operation
      first_head (one_slot_id, 1)

differ : list_eq first_id second_head.id ≡ false
unfolding first_id state_id content_id part_hash encode_state joined list_eq to_be_bytes
differ = refl

first_id-IsArray : IsArray 32 first_id
unfolding first_id
first_id-IsArray = state_id-IsArray part_hash part_hash-IsArray part_hash_not_zero _

transition_inventory-commits_example :
    (files' : Files) × (transition_inventory part_hash
        (λ f. f)
        sixteen
        add
        snapshot
        (encode_lower_hex first_id)
        operation
        started
      ≡ (ok (encode_lower_hex second_head.id), files'))
    × (inventory_head part_hash sixteen files' ≡ (ok second_head, files'))
transition_inventory-commits_example =
    transition_inventory-commits part_hash part_hash-IsArray part_hash_not_zero sixteen add snapshot
      operation started (added_to started) first_head (one_slot_id, 1)
      (refl, bytes_decided sixteen refl) snapshot-IsArray started-HoldsBytes refl started_head
      started_loads (adds started started_root) (omega arith) differ

transition_inventory-Outcome_example :
    Outcome part_hash
      (λ f. f)
      sixteen
      add
      snapshot
      operation
      first_id
      (get inventory_head_path started)
      (transition_inventory part_hash
        (λ f. f)
        sixteen
        add
        snapshot
        (encode_lower_hex first_id)
        operation
        started)
transition_inventory-Outcome_example =
    transition_inventory-Outcome part_hash (λ f. f) sixteen add snapshot (encode_lower_hex first_id)
      operation first_id started
      (parse_id-encode_lower_hex first_id "snapshot inventory expected head id is invalid"
        first_id-IsArray)

abbrev stray_id : List ℕ
stray_id = codes "abababababababababababababababababababababababababababababababab"

-- A state that nothing needs, in its directory.
abbrev stray_walk : List (InventoryResult Entry)
stray_walk =
    ok (record { kind = directory; below = codes "ab" ∷ []; len = 0 })
    ∷ ok (record { kind = file; below = codes "ab" ∷ (stray_id ++ codes ".state") ∷ []; len = 174 })
    ∷ []

walk : String → List (InventoryResult Entry)
walk store = if list_eq (codes store) (codes "inventory/snapshots/states") then stray_walk else []

abbrev stray : List ℕ
stray = codes "inventory/snapshots/states/ab/" ++ (stray_id ++ codes ".state")

ab_text : from_utf8 (codes "ab") ≡ some (codes "ab")
unfolding as_bytes encode_char
ab_text = from_utf8-as_bytes (codes "ab") (IsText-decided (codes "ab") refl)

stray_text : from_utf8 (stray_id ++ codes ".state") ≡ some (stray_id ++ codes ".state")
unfolding as_bytes encode_char
stray_text =
    from_utf8-as_bytes (stray_id ++ codes ".state")
      (IsText-decided (stray_id ++ codes ".state") refl)

stray_name :
    validate_inventory_content_path (codes "ab" ∷ (stray_id ++ codes ".state") ∷ []) ".state"
    ≡ ok tt
unfolding validate_inventory_content_path is_lower_hex_shard is_lower_hex strip_suffix parse_id
    parse_object_id as_bytes encode_char decode_lower_hex list_eq
stray_name = rw (ab_text, stray_text) refl

stray_directory : is_lower_hex_shard (codes "ab") ≡ true
unfolding is_lower_hex_shard is_lower_hex
stray_directory = rw ab_text refl

not_needed :
    mem stray (
      insert_key
        (as_bytes (inventory_set_root_path no_slots_id))
        (as_bytes (inventory_state_path first_id) ∷ []))
    ≡ false
unfolding mem insert_key first_id as_bytes inventory_set_root_path encode_char inventory_state_path
    list_eq encode_lower_hex state_id content_id part_hash
not_needed = refl

collects :
    inventory_gc_candidates part_hash sixteen walk started ≡ (ok ((stray, 174) ∷ []), started)
unfolding inventory_gc_candidates lineage_from reach_slots visit_all sort_candidates
    insert_candidate walk mem insert_key list_eq started
collects =
    rw (started_loads, no_slots_loads started started_root, stray_directory, stray_name, not_needed)
      refl

inventory_gc_candidates-IsSlotSpared_example :
    (is_candidate (as_bytes (inventory_state_path first_id)) ((stray, 174) ∷ []) ≡ false)
    × (is_candidate (as_bytes (inventory_set_root_path no_slots_id)) ((stray, 174) ∷ []) ≡ false)
    × IsSlotSpared none ((stray, 174) ∷ [])
inventory_gc_candidates-IsSlotSpared_example =
    inventory_gc_candidates-IsSlotSpared part_hash sixteen walk started started first_head
      first_head no_slots 0 ((stray, 174) ∷ []) started_loads (no_slots_loads started started_root)
      itself collects
