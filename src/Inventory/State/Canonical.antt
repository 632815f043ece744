-- ===== src/Inventory/State/Canonical.antt =====
-- The bytes that decode to a state are the ones that the state encodes to.
use check_po.Prelude.{
  ℕ, ◌+◌, ◌≤◌, ◌≡◌, refl, sym, ap, subst, ◌∙◌, true, not, ◌||◌, Option, List, arith, length, All,
  ◌==◌, ==_iff, list_eq, list_eq→eq, Bool-cases, inl, inr,
}
use check_po.Prelude.Result.{ok, >>=-eq_ok, reject_if, reject_if-eq_ok}
use check_po.Prelude.Bytes.{IsByte, to_be_bytes, from_be_bytes}
use check_po.Prelude.Map.{is_some}
use check_po.Prelude.Slices.{slice, joined, cut, joined-cut, slice-one, length-slice}
use check_po.Codec.{Digest32, IsArray}
use check_po.Inventory.{
  InventoryOperation, initialize, add, remove, InventoryState, zeros, digest_or_zeros, flag,
  operation_byte, encode_state, is_zero, decode_operation, decode_parent, decode_snapshot,
  valid_shape, decode_state, state_magic, state_bytes, schema_version, byte_at, require_schema,
  corruption,
}
use check_po.Inventory.State.{IsStateValue, state_parts, state_lengths}
use check_po.Inventory.Fields.{
  is_zero-eq, slice-IsArray, number_at, number_bound, guard_header, require_schema-eq_ok, not-false,
}

decode_operation-byte :
    (value : ℕ) (op : InventoryOperation)
    → decode_operation value ≡ ok op
    → operation_byte op ≡ value
decode_operation-byte value op h = ground arith

decode_parent-bytes :
    (present : ℕ) (digest : List ℕ) (parent : Option Digest32)
    → length digest ≡ 32
    → decode_parent present digest ≡ ok parent
    → (flag (is_some parent) ≡ present) × (digest_or_zeros parent ≡ digest)
decode_parent-bytes present digest parent len h = elim (Bool-cases (is_zero digest)) [
  | inl e ↦
      let z : zeros 32 ≡ digest = subst (λ n. zeros n ≡ digest) len (is_zero-eq digest e) in
      ground (arith, z)
  | inr e ↦ ground arith
]

decode_snapshot-bytes :
    (op : InventoryOperation) (digest : List ℕ) (id : Option Digest32)
    → length digest ≡ 32
    → decode_snapshot op digest ≡ ok id
    → digest_or_zeros id ≡ digest
decode_snapshot-bytes initialize digest id len h = elim (Bool-cases (is_zero digest)) [
  | inl e ↦
      let z : zeros 32 ≡ digest = subst (λ n. zeros n ≡ digest) len (is_zero-eq digest e) in
      ground (arith, z)
  | inr e ↦ absurd (cc (rw e at h))
]
decode_snapshot-bytes add digest id len h = ground arith
decode_snapshot-bytes remove digest id len h = ground arith

-- What the fields of a decoded state are, field by field.
record Reads (bytes : List ℕ) (state : InventoryState) : Type 0 where
  len : length bytes ≡ 174
  magic : slice 0 8 bytes ≡ state_magic
  schema : from_be_bytes (slice 8 4 bytes) ≡ schema_version
  project : state.project_id ≡ slice 12 16 bytes
  generation : state.generation ≡ from_be_bytes (slice 28 8 bytes)
  count : state.count ≡ from_be_bytes (slice 36 8 bytes)
  operation : operation_byte state.operation ≡ byte_at bytes 44
  present : flag (is_some state.parent) ≡ byte_at bytes 45
  parent : digest_or_zeros state.parent ≡ slice 46 32 bytes
  snapshot : digest_or_zeros state.snapshot_id ≡ slice 78 32 bytes
  operation_id : state.operation_id ≡ slice 110 32 bytes
  set_root : state.set_root ≡ slice 142 32 bytes
  shape : valid_shape state state.operation ≡ true

decode_state-Reads :
    (bytes : List ℕ) (state : InventoryState) → decode_state bytes ≡ ok state → Reads bytes state
unfolding decode_state
decode_state-Reads bytes state h =
    let (u1, g1, h1) =
      >>=-eq_ok
        (reject_if
          (not (length bytes == state_bytes) || not (list_eq (slice 0 8 bytes) state_magic))
          (corruption "invalid snapshot inventory state header"))
        _ h in
    let header =
      guard_header (length bytes == state_bytes) (list_eq (slice 0 8 bytes) state_magic)
        (reject_if-eq_ok _ (corruption "invalid snapshot inventory state header") g1) in
    let len : length bytes ≡ 174 = (==_iff (length bytes) 174).0 header.0 in
    let (u2, g2, h2) =
      >>=-eq_ok (require_schema "snapshot inventory state schema" (from_be_bytes (slice 8 4 bytes)))
        _ h1 in
    let (op, g3, h3) = >>=-eq_ok (decode_operation (byte_at bytes 44)) _ h2 in
    let (parent, g4, h4) = >>=-eq_ok (decode_parent (byte_at bytes 45) (slice 46 32 bytes)) _ h3 in
    let (snapshot, g5, h5) = >>=-eq_ok (decode_snapshot op (slice 78 32 bytes)) _ h4 in
    let built : InventoryState = record {
      project_id = slice 12 16 bytes;
      generation = from_be_bytes (slice 28 8 bytes);
      count = from_be_bytes (slice 36 8 bytes);
      operation = op;
      parent = parent;
      snapshot_id = snapshot;
      operation_id = slice 110 32 bytes;
      set_root = slice 142 32 bytes;
    } in
    let (u6, g6, h6) =
      >>=-eq_ok
        (reject_if (not (valid_shape built op))
          (corruption "snapshot inventory state has an invalid shape"))
        _ h5 in
    let same : built ≡ state = cc h6 in
    let e4 =
      decode_parent-bytes (byte_at bytes 45) (slice 46 32 bytes) parent
        (length-slice 46 32 bytes (omega (arith, len))) g4 in
    subst (Reads bytes) same (record {
      len = len;
      magic = list_eq→eq (slice 0 8 bytes) state_magic header.1;
      schema =
          require_schema-eq_ok "snapshot inventory state schema" (from_be_bytes (slice 8 4 bytes))
            g2;
      project = refl;
      generation = refl;
      count = refl;
      operation = decode_operation-byte (byte_at bytes 44) op g3;
      present = e4.0;
      parent = e4.1;
      snapshot =
          decode_snapshot-bytes op (slice 78 32 bytes) snapshot
            (length-slice 78 32 bytes (omega (arith, len))) g5;
      operation_id = refl;
      set_root = refl;
      shape =
          not-false (valid_shape built op)
            (reject_if-eq_ok _ (corruption "snapshot inventory state has an invalid shape") g6);
    })

module _ (bytes : List ℕ) (b : All IsByte bytes) (state : InventoryState) where
  array_at :
      (start n : ℕ) (value : List ℕ)
      → length bytes ≡ 174
      → start + n ≤ 174
      → value ≡ slice start n bytes
      → IsArray n value
  array_at start n value len fits e =
      subst (IsArray n) (sym e) (slice-IsArray bytes b start n (omega (arith, len, fits)))

  Reads-value : Reads bytes state → IsStateValue state
  Reads-value r = record {
    project_id = array_at 12 16 _ r.len (omega arith) r.project;
    generation = rw r.generation (number_bound bytes b 28 8 (omega (arith, r.len)));
    count = rw r.count (number_bound bytes b 36 8 (omega (arith, r.len)));
    parent = array_at 46 32 _ r.len (omega arith) r.parent;
    snapshot_id = array_at 78 32 _ r.len (omega arith) r.snapshot;
    operation_id = array_at 110 32 _ r.len (omega arith) r.operation_id;
    set_root = array_at 142 32 _ r.len (omega arith) r.set_root;
  }

  number_is :
      (start n value : ℕ)
      → length bytes ≡ 174
      → start + n ≤ 174
      → value ≡ from_be_bytes (slice start n bytes)
      → to_be_bytes n value ≡ slice start n bytes
  number_is start n value len fits e =
      ap (to_be_bytes n) e ∙ number_at bytes b start n (omega (arith, len, fits))

  Reads-parts : Reads bytes state → state_parts state ≡ cut 0 state_lengths bytes
  unfolding cut
  Reads-parts r =
      let version = number_is 8 4 schema_version r.len (omega arith) (sym r.schema) in
      let generation = number_is 28 8 state.generation r.len (omega arith) r.generation in
      let count = number_is 36 8 state.count r.len (omega arith) r.count in
      let op = slice-one 44 bytes (omega (arith, r.len)) in
      let has = slice-one 45 bytes (omega (arith, r.len)) in
      cc (
        r.magic, version, r.project, generation, count, op, r.operation, has, r.present, r.parent,
        r.snapshot, r.operation_id, r.set_root,
      )

  -- If bytes decode to a state, then the state has the types and the shape that it must have, and
  -- it encodes to the same bytes.
  pub encode_state-decode_state :
      decode_state bytes ≡ ok state
      → IsStateValue state
        × (valid_shape state state.operation ≡ true)
        × (encode_state state ≡ bytes)
  unfolding encode_state
  encode_state-decode_state h =
      let r = decode_state-Reads bytes state h in
      (
        Reads-value r,
        r.shape,
        ap joined (Reads-parts r) ∙ joined-cut 0 state_lengths bytes (sym r.len),
      )
