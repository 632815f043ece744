-- ===== src/Inventory/State.antt =====
-- A state of the inventory is read back as it was written, and has one stored form.
pub mod Canonical
use check_po.Prelude.{
  ℕ, zero, suc, ◌+◌, ◌<◌, ◌^◌, ◌≡◌, refl, sym, ap, subst, ◌∙◌, Bool, true, false, not, ◌&&◌, ◌||◌,
  Option, none, some, List, [], ◌∷◌, ◌++◌, arith, length, All, ltb, ◌==◌, list_eq, list_eq_refl,
  ==_refl, if◌then◌else◌,
}
use check_po.Prelude.Result.{ok, err, >>=-eq_ok}
use check_po.Prelude.Bytes.{
  IsByte, IsU64, to_be_bytes, from_be_bytes, length-to_be_bytes, from_be_bytes-to_be_bytes,
}
use check_po.Prelude.Map.{is_some}
use check_po.Prelude.Slices.{slice, joined, HasLengths, length-joined, Sliced-whole, get_or-slice}
use check_po.Codec.{Digest32, IsArray}
use check_po.Inventory.{
  InventoryOperation, initialize, add, remove, InventoryState, zeros, digest_or_zeros, flag,
  operation_byte, encode_state, is_zero, decode_operation, decode_parent, decode_snapshot,
  valid_shape, decode_state, state_magic, schema_version,
}

-- What the types of the fields promise.
pub record IsStateValue (state : InventoryState) : Type 0 where
  pub project_id : IsArray 16 state.project_id
  pub generation : IsU64 state.generation
  pub count : IsU64 state.count
  pub parent : IsArray 32 (digest_or_zeros state.parent)
  pub snapshot_id : IsArray 32 (digest_or_zeros state.snapshot_id)
  pub operation_id : IsArray 32 state.operation_id
  pub set_root : IsArray 32 state.set_root

abbrev pub state_parts : InventoryState → List (List ℕ)
state_parts state =
    state_magic
    ∷ to_be_bytes 4 schema_version
    ∷ state.project_id
    ∷ to_be_bytes 8 state.generation
    ∷ to_be_bytes 8 state.count
    ∷ (operation_byte state.operation ∷ [])
    ∷ (flag (is_some state.parent) ∷ [])
    ∷ digest_or_zeros state.parent
    ∷ digest_or_zeros state.snapshot_id
    ∷ state.operation_id
    ∷ state.set_root
    ∷ []

abbrev pub state_lengths : List ℕ
state_lengths = 8 ∷ 4 ∷ 16 ∷ 8 ∷ 8 ∷ 1 ∷ 1 ∷ 32 ∷ 32 ∷ 32 ∷ 32 ∷ []

parts-HasLengths : (s : InventoryState) → IsStateValue s → HasLengths (state_parts s) state_lengths
parts-HasLengths s v = (
  refl,
  (
    length-to_be_bytes 4 schema_version,
    (
      v.project_id.0,
      (
        length-to_be_bytes 8 s.generation,
        (
          length-to_be_bytes 8 s.count,
          (refl, (refl, (v.parent.0, (v.snapshot_id.0, (v.operation_id.0, (v.set_root.0, tt)))))),
        ),
      ),
    ),
  ),
)

decode-operation_byte : (op : InventoryOperation) → decode_operation (operation_byte op) ≡ ok op
decode-operation_byte initialize = refl
decode-operation_byte add = refl
decode-operation_byte remove = refl

decode-parent :
    (parent : Option Digest32)
    → decode_parent (flag (is_some parent)) (digest_or_zeros parent) ≡ ok parent
decode-parent none = refl
decode-parent (some id) = refl

decode-snapshot :
    (s : InventoryState)
    → valid_shape s s.operation ≡ true
    → decode_snapshot s.operation (digest_or_zeros s.snapshot_id) ≡ ok s.snapshot_id
decode-snapshot s h = by s.operation s.snapshot_id (shape s s.operation h)
  where
    shape :
        (s : InventoryState) (op : InventoryOperation)
        → valid_shape s op ≡ true
        → is_some s.snapshot_id ≡ not (operation_byte op == 0)
    shape s initialize h = ground arith
    shape s add h = ground arith
    shape s remove h = ground arith

    by :
        (op : InventoryOperation) (id : Option Digest32)
        → is_some id ≡ not (operation_byte op == 0)
        → decode_snapshot op (digest_or_zeros id) ≡ ok id
    by initialize none h = refl
    by initialize (some id) h = cc h
    by add none h = cc h
    by add (some id) h = refl
    by remove none h = cc h
    by remove (some id) h = refl

-- Writing a state of a valid shape and reading it gives the state.
pub decode_state-encode_state :
    (state : InventoryState)
    → IsStateValue state
    → valid_shape state state.operation ≡ true
    → decode_state (encode_state state) ≡ ok state
unfolding decode_state encode_state
decode_state-encode_state state v shape =
    let lengths = parts-HasLengths state v in
    let len = length-joined (state_parts state) state_lengths lengths in
    let (magic, (schema, (project, (generation, (count, (operation, (present, rest))))))) =
      Sliced-whole (state_parts state) state_lengths lengths in
    let (parent, (snapshot, (operation_id, (set_root, u)))) = rest in
    let op =
      get_or-slice 44 (operation_byte state.operation) (joined (state_parts state)) operation in
    let has = get_or-slice 45 (flag (is_some state.parent)) (joined (state_parts state)) present in
    rw
      (
        len, magic, schema, project, generation, count, op, has, parent, snapshot, operation_id,
        set_root,
      )
      (rw
        (
          list_eq_refl state_magic,
          from_be_bytes-to_be_bytes 4 schema_version (omega arith),
          decode-operation_byte state.operation,
          decode-parent state.parent,
          decode-snapshot state shape,
          from_be_bytes-to_be_bytes 8 state.generation v.generation,
          from_be_bytes-to_be_bytes 8 state.count v.count,
        )
        (rw shape refl))

pub length-encode_state :
    (state : InventoryState) → IsStateValue state → length (encode_state state) ≡ 174
unfolding encode_state
length-encode_state state v =
    length-joined (state_parts state) state_lengths (parts-HasLengths state v)
