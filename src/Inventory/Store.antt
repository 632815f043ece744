-- ===== src/Inventory/Store.antt =====
-- The files of the inventory: loading and storing states, set roots and set leaves, and the head.
-- Files are those below the repository, by their path; reads and writes that the system refuses are
-- not modelled.
pub mod Loaded
pub mod Heads
use check_po.Prelude.{
  ℕ, zero, suc, ◌+◌, ◌-◌, ◌*◌, ◌^◌, Bool, true, false, not, ◌&&◌, ◌||◌, Option, none, some, List,
  [], ◌∷◌, ◌++◌, String, length, take, get_or, any_true, ltb, ◌==◌, list_eq, if◌then◌else◌,
}
use check_po.Prelude.Result
use check_po.Prelude.Result.{Result, ok, err, reject_if, ok_or}
use check_po.Prelude.Map.{Map, get, insert}
use check_po.Prelude.Text.{codes, strip_suffix}
use check_po.Prelude.Text.Utf8.{as_bytes, from_utf8}
use check_po.Codec.{Digest32, checked_add_u64}
use check_po.Path.Id.{IdError, parse_object_id, encode_lower_hex, decode_lower_hex}
use check_po.Inventory.{
  InventoryError, corruption, not_found, InventoryResult, state_bytes, root_bytes, InventoryState,
  SetRoot, SetLeaf, encode_state, decode_state, encode_set_root, decode_set_root, encode_set_leaf,
  decode_set_leaf,
}

abbrev pub Files : Type 0
Files = Map (List ℕ)

-- A step reads and writes the files; what it wrote stays when it fails.
abbrev pub M : Type 0 → Type 0
M A = Files → InventoryResult A × Files

abbrev pub then_run :
    {A B : Type 0} → InventoryResult A × Files → (A → M B) → InventoryResult B × Files
then_run (ok a, files) f = f a files
then_run (err e, files) f = (err e, files)

infixl 5 ◌>>=◌ ◌>>◌
abbrev pub ◌>>=◌ : {A B : Type 0} → M A → (A → M B) → M B
◌>>=◌ m f files = then_run (m files) f

abbrev pub ◌>>◌ : {B : Type 0} → M (Unit {0}) → M B → M B
m >> k = m >>= λ _. k

-- A step that leaves the files alone.
abbrev pub lift : {A : Type 0} → InventoryResult A → M A
lift r files = (r, files)

abbrev shard_path : String → Digest32 → String → List ℕ
shard_path directory id suffix =
    codes directory
    ++ (take 2 (encode_lower_hex id) ++ (codes "/" ++ (encode_lower_hex id ++ codes suffix)))

abbrev pub inventory_head_path : List ℕ
inventory_head_path = codes "inventory/snapshots/head"

unfoldable pub inventory_state_path : Digest32 → List ℕ
inventory_state_path id = shard_path "inventory/snapshots/states/" id ".state"

unfoldable pub inventory_set_root_path : Digest32 → List ℕ
inventory_set_root_path id = shard_path "inventory/snapshots/sets/roots/" id ".root"

unfoldable pub inventory_set_leaf_path : Digest32 → List ℕ
inventory_set_leaf_path id = shard_path "inventory/snapshots/sets/leaves/" id ".leaf"

abbrev pub max_leaf_bytes : ℕ
max_leaf_bytes = 256 * 1024 * 1024

abbrev pub head_bytes_max : ℕ
head_bytes_max = 65

-- `read_bytes_bounded_path`
unfoldable pub read_bytes_bounded : Files → List ℕ → ℕ → InventoryResult (List ℕ)
read_bytes_bounded files path max_bytes =
    Result.◌>>=◌ (ok_or (get path files) (not_found path)) λ bytes.
      if ltb max_bytes (length bytes)
      then err (corruption "anchored file exceeds maximum size of {max_bytes} bytes: {path}")
      else ok bytes

abbrev pub read_path : List ℕ → ℕ → M (List ℕ)
read_path path max_bytes files = (read_bytes_bounded files path max_bytes, files)

-- `store_content_addressed_bytes_profiled` and `write_bytes_atomic`: other bytes at the path are
-- replaced.
abbrev pub write_path : List ℕ → List ℕ → M (Unit {0})
write_path path bytes files = (ok tt, insert path bytes files)

-- `ObjectId::parse(text).map_err(..)`
abbrev parsed_id :
    {E : Type 0} → InventoryError → List ℕ → Result E (List ℕ) → InventoryResult Digest32
parsed_id e text (ok _) = ok_or (decode_lower_hex 32 text) e
parsed_id e text (err _) = err e

unfoldable pub parse_id : List ℕ → String → InventoryResult Digest32
parse_id text message = parsed_id (corruption message) text (parse_object_id text)

pub record InventoryHead : Type 0 where
  pub id : Digest32
  pub state : InventoryState

-- The hash function is blake3's, of all that the hasher was given.
module _ (hash : List ℕ → Digest32) where
  unfoldable pub content_id : List ℕ → List ℕ → Digest32
  content_id domain bytes = hash (domain ++ bytes)

  unfoldable pub state_id : List ℕ → Digest32
  state_id = content_id (codes "checkpo.snapshot-inventory-state.v2" ++ 0 ∷ [])

  unfoldable pub set_root_id : List ℕ → Digest32
  set_root_id = content_id (codes "checkpo.snapshot-inventory-set-root.v2" ++ 0 ∷ [])

  unfoldable pub set_leaf_id : List ℕ → Digest32
  set_leaf_id = content_id (codes "checkpo.snapshot-inventory-set-leaf.v2" ++ 0 ∷ [])

  unfoldable pub load_state : Digest32 → List ℕ → M InventoryHead
  load_state id project_id = do
    bytes ← read_path (inventory_state_path id) state_bytes
    lift (
        reject_if (not (length bytes == state_bytes))
          (corruption "snapshot inventory state has invalid length: {path}"))
    lift (
        reject_if (not (list_eq (state_id bytes) id))
          (corruption "snapshot inventory state digest mismatch: expected {id}, got {actual}"))
    state ← lift (decode_state bytes)
    lift (
        reject_if (not (list_eq state.project_id project_id))
          (corruption "snapshot inventory belongs to project {}, expected {}"))
    lift (ok (record { id = id; state = state }))

  unfoldable pub store_state : InventoryState → M Digest32
  store_state state = do
    let bytes = encode_state state
    write_path (inventory_state_path (state_id bytes)) bytes
    lift (ok (state_id bytes))

  unfoldable pub load_set_root : Digest32 → List ℕ → M SetRoot
  load_set_root id project_id = do
    bytes ← read_path (inventory_set_root_path id) root_bytes
    lift (
        reject_if (not (length bytes == root_bytes))
          (corruption "snapshot inventory set root has invalid length: {path}"))
    lift (
        reject_if (not (list_eq (set_root_id bytes) id))
          (corruption "snapshot inventory set root digest mismatch: expected {id}, got {actual}"))
    root ← lift (decode_set_root bytes)
    lift (
        reject_if (not (list_eq root.project_id project_id))
          (corruption "snapshot inventory set root belongs to project {}, expected {}"))
    lift (ok root)

  unfoldable pub store_set_root : SetRoot → M Digest32
  store_set_root root = do
    bytes ← lift (encode_set_root root)
    write_path (inventory_set_root_path (set_root_id bytes)) bytes
    lift (ok (set_root_id bytes))

  unfoldable pub load_set_leaf : Digest32 → List ℕ → ℕ → M SetLeaf
  load_set_leaf id project_id expected_prefix = do
    bytes ← read_path (inventory_set_leaf_path id) max_leaf_bytes
    lift (
        reject_if (not (list_eq (set_leaf_id bytes) id))
          (corruption "snapshot inventory set leaf digest mismatch: expected {id}, got {actual}"))
    leaf ← lift (decode_set_leaf bytes)
    lift (
        reject_if (not (list_eq leaf.project_id project_id) || not (leaf.prefix == expected_prefix))
          (corruption "snapshot inventory set leaf {id} has the wrong project or prefix"))
    lift (ok leaf)

  unfoldable pub store_set_leaf : SetLeaf → M Digest32
  store_set_leaf leaf = do
    bytes ← lift (encode_set_leaf leaf)
    write_path (inventory_set_leaf_path (set_leaf_id bytes)) bytes
    lift (ok (set_leaf_id bytes))

  unfoldable pub inventory_head : List ℕ → M InventoryHead
  unfolding load_state
  inventory_head project_id = do
    bytes ← read_path inventory_head_path head_bytes_max
    text ←
        lift (ok_or (from_utf8 bytes) (corruption "snapshot inventory head is not UTF-8: {path}"))
    id_text ← lift (
        ok_or (strip_suffix (codes "\n") text)
          (corruption "snapshot inventory head is not canonical: {path}"))
    lift (
        reject_if (any_true (λ c. c == 13 || c == 10) id_text)
          (corruption "snapshot inventory head contains trailing data: {path}"))
    id ← lift (parse_id id_text "snapshot inventory head id is invalid: {path}")
    load_state id project_id

unfoldable pub write_head : Digest32 → M (Unit {0})
write_head id = write_path inventory_head_path (as_bytes (encode_lower_hex id ++ codes "\n"))
