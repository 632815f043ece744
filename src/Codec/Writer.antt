-- ===== src/Codec/Writer.antt =====
-- `struct Writer` of merkle_codec.rs, and the bodies of the `encode_*` functions that use it.
pub mod Wrote
pub mod Payload
use check_po.Prelude.{
  ℕ, ◌-◌, ◌^◌, Option, none, some, List, [], ◌∷◌, ◌++◌, String, length, ltb, if◌then◌else◌,
}
use check_po.Prelude.Result.{ok, err, ◌>>=◌}
use check_po.Prelude.Bytes.{to_be_bytes}
use check_po.Prelude.Int.{ℤ, i64_word}
use check_po.Prelude.Text.Utf8.{as_bytes}
use check_po.Codec.Checks.{usize_to_u32, validate_text}
use check_po.Codec.{
  CodecResult, invalid, limit, child_references_root, Digest32, root, node, leaf, ManifestRef,
  ManifestSummary, SnapshotRoot, LeafEntry, ManifestLeaf, ManifestChild, ManifestNode,
  payload_schema, tracked_scope_policy, path_key_policy, content_policy, new_timestamp,
  max_exact_path_bytes,
}

pub record Writer : Type 0 where
  pub bytes : List ℕ

abbrev pub new_writer : Writer
new_writer = record { bytes = [] }

-- A method that takes `&mut self` and may fail.
abbrev pub Write : Type 0
Write = Writer → CodecResult Writer

infixl 5 ◌>>◌
pub ◌>>◌ : Write → Write → Write
◌>>◌ f g w = f w >>= g

pub skip : Write
skip w = ok w

pub fail : CodecResult (Unit {0}) → Write
fail r w = r >>= λ _. ok w

pub raw : List ℕ → Write
raw value w = ok (record { bytes = w.bytes ++ value })

pub u8 : ℕ → Write
unfolding raw
u8 value = raw (value ∷ [])

pub u16 : ℕ → Write
unfolding raw
u16 value = raw (to_be_bytes 2 value)

pub u32 : ℕ → Write
unfolding raw
u32 value = raw (to_be_bytes 4 value)

pub u64 : ℕ → Write
unfolding raw
u64 value = raw (to_be_bytes 8 value)

pub i64 : ℤ → Write
unfolding raw
i64 value = raw (to_be_bytes 8 (i64_word value))

pub digest : Digest32 → Write
unfolding raw
digest value = raw value

pub bytes : List ℕ → Write
unfolding raw usize_to_u32
bytes value w = do
  len ← usize_to_u32 "byte string length" (length value)
  w' ← u32 len w
  raw value w'

pub string : List ℕ → Write
unfolding bytes
string value = bytes (as_bytes value)

pub summary : ManifestSummary → Write
summary s = do u64 s.entry_count; u64 s.logical_size_bytes; u64 s.total_exact_path_bytes

pub manifest_kind_byte : ManifestRef → CodecResult ℕ
manifest_kind_byte reference = elim reference.kind [
  | node ↦ ok 2
  | leaf ↦ ok 3
  | root ↦ err (invalid child_references_root)
]

-- `writer.u8(manifest_kind_byte(reference)?)`
pub manifest_kind : ManifestRef → Write
unfolding manifest_kind_byte
manifest_kind reference w = manifest_kind_byte reference >>= λ kind. u8 kind w

pub write_optional_manifest_ref : Option ManifestRef → Write
write_optional_manifest_ref none = u8 0
write_optional_manifest_ref (some reference) = do manifest_kind reference; digest reference.id

-- The `match root.parent` of `encode_root`.
pub write_parent : Option Digest32 → Write
write_parent none = u8 0
write_parent (some id) = do u8 1; digest id

-- The payload that `encode_root` writes.
pub write_root : SnapshotRoot → Write
write_root r = do
  u16 payload_schema
  raw r.project_id
  write_parent r.parent
  i64 r.created.unix_seconds
  u32 r.created.nanoseconds
  string r.checkpoint_name
  string r.tool_version
  u16 tracked_scope_policy
  u16 path_key_policy
  u16 content_policy
  write_optional_manifest_ref r.manifest
  summary r.summary

-- The body of the loop of `encode_leaf`.
pub write_entry : LeafEntry → Write
write_entry entry = do
  fail (validate_text "exact path" entry.exact_path max_exact_path_bytes)
  fail (new_timestamp entry.modified.unix_seconds entry.modified.nanoseconds >>= λ _. ok tt)
  string entry.exact_path
  u64 entry.size_bytes
  i64 entry.modified.unix_seconds
  u32 entry.modified.nanoseconds
  digest entry.object_id

pub write_entries : List LeafEntry → Write
write_entries [] = skip
write_entries (entry ∷ rest) = do write_entry entry; write_entries rest

-- `writer.u32(usize_to_u32(field, n)?)`
pub count : String → ℕ → Write
count field n w = usize_to_u32 field n >>= λ len. u32 len w

-- The payload that `encode_leaf` writes, given the summary that it has computed.
pub write_leaf : ManifestLeaf → ManifestSummary → Write
write_leaf l s = do
  u16 payload_schema
  bytes l.portable_prefix
  count "leaf entry count" (length l.entries)
  summary s
  write_entries l.entries

-- The body of the loop of `encode_node`.
pub write_child : ManifestChild → Write
write_child c = do u8 c.edge; manifest_kind c.child; digest c.child.id; summary c.summary

pub write_children : List ManifestChild → Write
write_children [] = skip
write_children (c ∷ rest) = do write_child c; write_children rest

-- The payload that `encode_node` writes.
pub write_node : ManifestNode → ManifestSummary → Write
write_node n s = do
  u16 payload_schema
  bytes n.portable_prefix
  count "node child count" (length n.children)
  summary s
  write_children n.children
