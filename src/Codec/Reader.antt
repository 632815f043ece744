-- ===== src/Codec/Reader.antt =====
-- `struct Reader` of merkle_codec.rs, and the bodies of the `decode_*` functions that use it.
pub mod Reads
pub mod Inverse
pub mod Canonical
pub mod Whole
pub mod Payload
pub mod Values
use check_po.Prelude.{
  ℕ, suc, zero, Option, none, some, List, [], ◌∷◌, String, length, take, drop, get_or, ltb, ◌==◌,
  if◌then◌else◌,
}
use check_po.Prelude.Result.{Result, ok, err}
use check_po.Prelude.Result as R
use check_po.Prelude.Bytes.{from_be_bytes}
use check_po.Prelude.Int.{ℤ, word_i64}
use check_po.Prelude.Text.Utf8.{from_utf8}
use check_po.Codec.Checks.{require_schema, require_policy, validate_count}
use check_po.Codec.{
  CodecResult, invalid, limit, truncated_payload, not_utf8, trailing_bytes, unknown_parent_kind,
  unknown_manifest_kind, Digest32, ChunkKind, node, leaf, ManifestRef, Timestamp, ManifestSummary,
  SnapshotRoot, LeafEntry, ManifestLeaf, ManifestChild, ManifestNode, tracked_scope_policy,
  path_key_policy, content_policy, new_timestamp, max_exact_path_bytes, max_checkpoint_name_bytes,
  max_tool_version_bytes, max_prefix_bytes, max_leaf_entries, max_node_children,
}

pub record Reader : Type 0 where
  pub remaining : List ℕ

-- A method that takes `&mut self`, returns a value, and may fail.
abbrev pub Read : Type 0 → Type 0
Read A = Reader → CodecResult (A × Reader)

infixl 5 ◌>>=◌ ◌>>◌
pub ◌>>=◌ : {A B : Type 0} → Read A → (A → Read B) → Read B
◌>>=◌ m f r = R.◌>>=◌ (m r) (λ p. f p.0 p.1)

abbrev pub ◌>>◌ : {A : Type 0} → Read (Unit {0}) → Read A → Read A
m >> n = m >>= λ _. n

pub pure : {A : Type 0} → A → Read A
pure a r = ok (a, r)

pub lift : {A : Type 0} → CodecResult A → Read A
lift m r = R.◌>>=◌ m (λ a. ok (a, r))

pub take_bytes : ℕ → Read (List ℕ)
take_bytes count r =
    if ltb (length r.remaining) count
    then err (invalid (truncated_payload count (length r.remaining)))
    else ok (take count r.remaining, record { remaining = drop count r.remaining })

-- `array::<N>()`: the length was checked by `take`.
abbrev pub array : ℕ → Read (List ℕ)
array = take_bytes

pub u8 : Read ℕ
u8 = do bs ← take_bytes 1; pure (get_or bs 0 0)

pub u16 : Read ℕ
u16 = do bs ← array 2; pure (from_be_bytes bs)

pub u32 : Read ℕ
u32 = do bs ← array 4; pure (from_be_bytes bs)

pub u64 : Read ℕ
u64 = do bs ← array 8; pure (from_be_bytes bs)

pub i64 : Read ℤ
i64 = do bs ← array 8; pure (word_i64 (from_be_bytes bs))

pub digest : Read Digest32
digest = array 32

pub bytes : String → ℕ → Read (List ℕ)
bytes field bound = do
  len ← u32
  lift (if ltb bound len then err (limit field len bound) else ok tt)
  take_bytes len

pub string : String → ℕ → Read (List ℕ)
string field bound = do
  bs ← bytes field bound
  lift (R.ok_or (from_utf8 bs) (invalid (not_utf8 field)))

pub count : String → ℕ → Read ℕ
count field bound = do n ← u32; lift (validate_count field n bound); pure n

pub summary : Read ManifestSummary
summary = do
  entries ← u64
  size ← u64
  paths ← u64
  pure (record { entry_count = entries; logical_size_bytes = size; total_exact_path_bytes = paths })

pub finish : Read (Unit {0})
finish r =
    if length r.remaining == 0
    then ok (tt, r)
    else err (invalid (trailing_bytes (length r.remaining)))

pub read_manifest_kind : ℕ → CodecResult ChunkKind
read_manifest_kind value =
    if value == 2
    then ok node
    else if value == 3
    then ok leaf
    else err (invalid (unknown_manifest_kind value))

-- A reference whose kind byte has been read.
pub manifest_ref : ℕ → Read ManifestRef
manifest_ref value = do
  kind ← lift (read_manifest_kind value)
  id ← digest
  pure (record { kind = kind; id = id })

pub read_optional_manifest_ref : Read (Option ManifestRef)
read_optional_manifest_ref = do
  value ← u8
  if value == 0 then pure none else do reference ← manifest_ref value; pure (some reference)

-- The `match reader.u8()?` of `decode_root`.
pub read_parent : Read (Option Digest32)
read_parent = do
  value ← u8
  if value == 0
      then pure none
      else if value == 1
      then (do id ← digest; pure (some id))
      else lift (err (invalid (unknown_parent_kind value)))

-- `Timestamp::new(reader.i64()?, reader.u32()?)?`
pub timestamp : Read Timestamp
timestamp = do seconds ← i64; nanoseconds ← u32; lift (new_timestamp seconds nanoseconds)

pub read_schema : Read (Unit {0})
read_schema = do found ← u16; lift (require_schema found)

pub read_policy : String → ℕ → Read (Unit {0})
read_policy label expected = do found ← u16; lift (require_policy label found expected)

-- The payload of a root, up to `reader.finish()`.
pub read_root : Read SnapshotRoot
read_root = do
  read_schema
  project_id ← array 16
  parent ← read_parent
  created ← timestamp
  checkpoint_name ← string "checkpoint name" max_checkpoint_name_bytes
  tool_version ← string "tool version" max_tool_version_bytes
  read_policy "tracked scope" tracked_scope_policy
  read_policy "path key" path_key_policy
  read_policy "content" content_policy
  manifest ← read_optional_manifest_ref
  s ← summary
  finish
  pure (record {
    project_id = project_id;
    parent = parent;
    created = created;
    checkpoint_name = checkpoint_name;
    tool_version = tool_version;
    manifest = manifest;
    summary = s;
  })

-- `for _ in 0..n { items.push(..) }`
pub read_list : {A : Type 0} → ℕ → Read A → Read (List A)
read_list zero item = pure []
read_list (suc n) item = do a ← item; rest ← read_list n item; pure (a ∷ rest)

pub read_entry : Read LeafEntry
read_entry = do
  path ← string "exact path" max_exact_path_bytes
  size ← u64
  modified ← timestamp
  id ← digest
  pure (record { exact_path = path; size_bytes = size; modified = modified; object_id = id })

-- The payload of a leaf, up to `reader.finish()`, with the summary that it states.
pub read_leaf : Read (ManifestLeaf × ManifestSummary)
read_leaf = do
  read_schema
  prefix ← bytes "portable prefix" max_prefix_bytes
  entry_count ← count "leaf entry count" max_leaf_entries
  stored_summary ← summary
  entries ← read_list entry_count read_entry
  finish
  pure (record { portable_prefix = prefix; entries = entries }, stored_summary)

pub read_child : Read ManifestChild
read_child = do
  edge ← u8
  value ← u8
  reference ← manifest_ref value
  s ← summary
  pure (record { edge = edge; child = reference; summary = s })

-- The payload of a node, up to `reader.finish()`, with the summary that it states.
pub read_node : Read (ManifestNode × ManifestSummary)
read_node = do
  read_schema
  prefix ← bytes "portable prefix" max_prefix_bytes
  child_count ← count "node child count" max_node_children
  stored_summary ← summary
  children ← read_list child_count read_child
  finish
  pure (record { portable_prefix = prefix; children = children }, stored_summary)
