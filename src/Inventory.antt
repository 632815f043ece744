-- ===== src/Inventory.antt =====
-- CheckPo.Core/src/storage/snapshot_inventory.rs: the records of the inventory and their stored form.
-- An identifier is its digest. The values that a message of an error prints are left out.
pub mod State
pub mod Fields
pub mod Root
pub mod Leaf
pub mod Store
pub mod Change
pub mod Listing
pub mod Removal
pub mod Access
pub mod Collect
mod Tests
use check_po.Prelude.{
  ℕ, zero, suc, ◌+◌, ◌*◌, ◌^◌, Bool, true, false, not, ◌&&◌, ◌||◌, Option, none, some, List, [],
  ◌∷◌, ◌++◌, String, length, take, drop, get_or, all_true, any_true, ltb, ◌==◌, list_eq,
  if◌then◌else◌,
}
use check_po.Prelude.Result.{Result, ok, err, ◌>>=◌, ◌>>◌, reject_if, ok_or}
use check_po.Prelude.Bytes.{to_be_bytes, from_be_bytes}
use check_po.Prelude.Map.{Comparison, less, equal, greater, compare_text, is_some}
use check_po.Prelude.Slices.{slice, joined}
use check_po.Prelude.Text.{codes}
use check_po.Codec.{Digest32}

pub data InventoryError : Type 0 where
  corruption : String → InventoryError
  -- The artifact and the version that was found.
  unsupported_format : String → ℕ → InventoryError
  working_tree_changed : InventoryError
  -- The error of a read of a file that is not there.
  not_found : List ℕ → InventoryError

abbrev pub InventoryResult {ℓ} : Type ℓ → Type ℓ
InventoryResult = Result InventoryError

abbrev pub state_magic : List ℕ
state_magic = codes "CHKPINV2"

abbrev pub root_magic : List ℕ
root_magic = codes "CHKPINR2"

abbrev pub leaf_magic : List ℕ
leaf_magic = codes "CHKPINL2"

abbrev pub schema_version : ℕ
schema_version = 2

abbrev pub state_bytes : ℕ
state_bytes = 174

abbrev pub root_header_bytes : ℕ
root_header_bytes = 36

abbrev pub root_slot_bytes : ℕ
root_slot_bytes = 37

abbrev pub root_bytes : ℕ
root_bytes = root_header_bytes + 256 * root_slot_bytes

abbrev pub leaf_header_bytes : ℕ
leaf_header_bytes = 33

pub data InventoryOperation : Type 0 where
  initialize add remove : InventoryOperation

-- A u64 generation and count; `operation_id` is the hash of the caller's text.
pub record InventoryState : Type 0 where
  pub project_id : List ℕ
  pub generation : ℕ
  pub count : ℕ
  pub operation : InventoryOperation
  pub parent : Option Digest32
  pub snapshot_id : Option Digest32
  pub operation_id : List ℕ
  pub set_root : Digest32

pub record LeafRef : Type 0 where
  pub id : Digest32
  pub count : ℕ

pub record SetRoot : Type 0 where
  pub project_id : List ℕ
  pub count : ℕ
  pub leaves : List (Option LeafRef)

pub record SetLeaf : Type 0 where
  pub project_id : List ℕ
  pub prefix : ℕ
  pub ids : List Digest32

-- `[0; n]`
abbrev pub zeros : ℕ → List ℕ
zeros zero = []
zeros (suc n) = 0 ∷ zeros n

-- `unwrap_or([0; 32])`
abbrev pub digest_or_zeros : Option Digest32 → List ℕ
digest_or_zeros none = zeros 32
digest_or_zeros (some id) = id

-- `bytes[i]`
abbrev pub byte_at : List ℕ → ℕ → ℕ
byte_at bytes i = get_or bytes i 0

-- `u8::from(bool)`
abbrev pub flag : Bool → ℕ
flag true = 1
flag false = 0

abbrev pub operation_byte : InventoryOperation → ℕ
operation_byte initialize = 0
operation_byte add = 1
operation_byte remove = 2

unfoldable pub encode_state : InventoryState → List ℕ
unfolding joined
encode_state state = joined (
    state_magic
    ∷ to_be_bytes 4 schema_version
    ∷ state.project_id
    ∷ to_be_bytes 8 state.generation
    ∷ to_be_bytes 8 state.count
    ∷ (operation_byte state.operation ∷ [])
    ∷ (flag (is_some state.parent) ∷ [])
    ∷ digest_or_zeros state.parent
    ∷ digest_or_zeros state.snapshot_id
    ∷ state.operation_id
    ∷ state.set_root
    ∷ [])

abbrev pub is_zero : List ℕ → Bool
is_zero = all_true (λ b. b == 0)

abbrev pub decode_operation : ℕ → InventoryResult InventoryOperation
decode_operation value =
    if value == 0
    then ok initialize
    else if value == 1
    then ok add
    else if value == 2
    then ok remove
    else err (corruption "unknown snapshot inventory operation {value}")

abbrev pub decode_parent : ℕ → List ℕ → InventoryResult (Option Digest32)
decode_parent present digest =
    if present == 0 && is_zero digest
    then ok none
    else if present == 1
    then ok (some digest)
    else err (corruption "invalid snapshot inventory parent encoding")

abbrev pub decode_snapshot : InventoryOperation → List ℕ → InventoryResult (Option Digest32)
decode_snapshot initialize digest =
    if is_zero digest
    then ok none
    else err (corruption "snapshot inventory initialization has a snapshot id")
decode_snapshot add digest = ok (some digest)
decode_snapshot remove digest = ok (some digest)

abbrev pub valid_shape : InventoryState → InventoryOperation → Bool
valid_shape state initialize =
    state.generation == 0
    && state.count == 0
    && not (is_some state.parent)
    && not (is_some state.snapshot_id)
    && is_zero state.operation_id
valid_shape state add =
    ltb 0 state.generation
    && ltb 0 state.count
    && is_some state.parent
    && is_some state.snapshot_id
    && not (is_zero state.operation_id)
valid_shape state remove =
    ltb 0 state.generation
    && is_some state.parent
    && is_some state.snapshot_id
    && not (is_zero state.operation_id)

abbrev pub require_schema : String → ℕ → InventoryResult (Unit {0})
require_schema artifact schema =
    reject_if (not (schema == schema_version)) (unsupported_format artifact schema)

unfoldable pub decode_state : List ℕ → InventoryResult InventoryState
decode_state bytes = do
  reject_if (not (length bytes == state_bytes) || not (list_eq (slice 0 8 bytes) state_magic))
      (corruption "invalid snapshot inventory state header")
  require_schema "snapshot inventory state schema" (from_be_bytes (slice 8 4 bytes))
  operation ← decode_operation (byte_at bytes 44)
  parent ← decode_parent (byte_at bytes 45) (slice 46 32 bytes)
  snapshot_id ← decode_snapshot operation (slice 78 32 bytes)
  let state : InventoryState = record {
    project_id = slice 12 16 bytes;
    generation = from_be_bytes (slice 28 8 bytes);
    count = from_be_bytes (slice 36 8 bytes);
    operation = operation;
    parent = parent;
    snapshot_id = snapshot_id;
    operation_id = slice 110 32 bytes;
    set_root = slice 142 32 bytes;
  }
  reject_if (not (valid_shape state operation))
      (corruption "snapshot inventory state has an invalid shape")
  ok state

abbrev pub slot_id : Option LeafRef → List ℕ
slot_id none = zeros 32
slot_id (some reference) = reference.id

abbrev pub slot_count : Option LeafRef → ℕ
slot_count none = 0
slot_count (some reference) = reference.count

abbrev pub slot_parts : Option LeafRef → List (List ℕ)
slot_parts reference =
    (flag (is_some reference) ∷ []) ∷ slot_id reference ∷ to_be_bytes 4 (slot_count reference) ∷ []

unfoldable pub encode_slots : List (Option LeafRef) → List ℕ
unfolding joined
encode_slots [] = []
encode_slots (reference ∷ leaves) = joined (slot_parts reference) ++ encode_slots leaves

unfoldable pub encode_set_root : SetRoot → InventoryResult (List ℕ)
unfolding joined
encode_set_root root = do
  reject_if (not (length root.leaves == 256))
      (corruption "snapshot inventory set root must have 256 slots")
  ok (
      joined (
        root_magic
        ∷ to_be_bytes 4 schema_version
        ∷ root.project_id
        ∷ to_be_bytes 8 root.count
        ∷ encode_slots root.leaves
        ∷ []))

abbrev pub decode_slot : ℕ → List ℕ → ℕ → InventoryResult (Option LeafRef)
decode_slot present digest leaf_count =
    if present == 0 && is_zero digest && leaf_count == 0
    then ok none
    else if present == 1 && not (is_zero digest) && ltb 0 leaf_count
    then ok (some (record { id = digest; count = leaf_count }))
    else err (corruption "snapshot inventory set root has an invalid slot")

-- The loop over the slots, from an offset.
unfoldable pub decode_slots : ℕ → ℕ → List ℕ → InventoryResult (List (Option LeafRef))
decode_slots zero offset bytes = ok []
decode_slots (suc n) offset bytes = do
  reference ←
      decode_slot (byte_at bytes offset) (slice (offset + 1) 32 bytes)
        (from_be_bytes (slice (offset + 33) 4 bytes))
  leaves ← decode_slots n (offset + root_slot_bytes) bytes
  ok (reference ∷ leaves)

unfoldable pub decode_set_root : List ℕ → InventoryResult SetRoot
decode_set_root bytes = do
  reject_if (not (length bytes == root_bytes) || not (list_eq (slice 0 8 bytes) root_magic))
      (corruption "invalid snapshot inventory set root header")
  require_schema "snapshot inventory set root schema" (from_be_bytes (slice 8 4 bytes))
  leaves ← decode_slots 256 root_header_bytes bytes
  ok (record {
    project_id = slice 12 16 bytes;
    count = from_be_bytes (slice 28 8 bytes);
    leaves = leaves;
  })

abbrev pub is_less : Comparison → Bool
is_less less = true
is_less _ = false

-- `windows(2).all(|pair| pair[0] < pair[1])`
unfoldable pub ascending : List Digest32 → Bool
ascending [] = true
ascending (last ∷ []) = true
ascending (first ∷ second ∷ ids) = is_less (compare_text first second) && ascending (second ∷ ids)

unfoldable pub concat : List Digest32 → List ℕ
concat [] = []
concat (id ∷ ids) = id ++ concat ids

unfoldable pub encode_set_leaf : SetLeaf → InventoryResult (List ℕ)
unfolding joined
encode_set_leaf leaf = do
  reject_if (length leaf.ids == 0) (corruption "snapshot inventory set leaf cannot be empty")
  reject_if
      (not (ascending leaf.ids) || any_true (λ id. not (byte_at id 0 == leaf.prefix)) leaf.ids)
      (corruption "snapshot inventory set leaf is not canonical")
  reject_if (not (ltb (length leaf.ids) (2 ^ 32)))
      (corruption "snapshot inventory set leaf exceeds u32 entries")
  ok (
      joined (
        leaf_magic
        ∷ to_be_bytes 4 schema_version
        ∷ leaf.project_id
        ∷ (leaf.prefix ∷ [])
        ∷ to_be_bytes 4 (length leaf.ids)
        ∷ concat leaf.ids
        ∷ []))

-- `is_some_and(|previous| previous >= &id)`
abbrev pub not_above : Option Digest32 → Digest32 → Bool
not_above none id = false
not_above (some previous) id = not (is_less (compare_text previous id))

-- The loop over `chunks_exact(32)`: the length that was checked makes them `count` many.
unfoldable pub decode_ids : ℕ → ℕ → Option Digest32 → List ℕ → InventoryResult (List Digest32)
decode_ids zero prefix last bytes = ok []
decode_ids (suc count) prefix last bytes = do
  let id = take 32 bytes
  reject_if (not (byte_at id 0 == prefix) || not_above last id)
      (corruption "snapshot inventory set leaf is not canonical")
  ids ← decode_ids count prefix (some id) (drop 32 bytes)
  ok (id ∷ ids)

-- A u32 count times 32 and the header do not overflow 64 bits.
unfoldable pub decode_set_leaf : List ℕ → InventoryResult SetLeaf
decode_set_leaf bytes = do
  reject_if (ltb (length bytes) leaf_header_bytes || not (list_eq (slice 0 8 bytes) leaf_magic))
      (corruption "invalid snapshot inventory set leaf header")
  require_schema "snapshot inventory set leaf schema" (from_be_bytes (slice 8 4 bytes))
  let prefix = byte_at bytes 28
  let count = from_be_bytes (slice 29 4 bytes)
  reject_if (count == 0 || not (length bytes == leaf_header_bytes + count * 32))
      (corruption "snapshot inventory set leaf has an invalid length")
  ids ← decode_ids count prefix none (drop leaf_header_bytes bytes)
  ok (record { project_id = slice 12 16 bytes; prefix = prefix; ids = ids })
