-- ===== src/Codec/Chunk.antt =====
-- The stored form of a chunk (`envelope`, `decode_envelope`), and `encode_root`, `decode_root`,
-- `encode_leaf`, `decode_leaf`, `encode_node`, `decode_node` of merkle_codec.rs.
pub mod Envelope
pub mod Values
pub mod Summaries
pub mod RoundTrip
pub mod Canonical
pub mod Sizes
use check_po.Prelude.{
  ℕ, ◌+◌, ◌-◌, ◌≡◌, Bool, true, false, not, ◌&&◌, List, [], ◌∷◌, ◌++◌, length, take, drop, get_or,
  ltb, ◌==◌, list_eq, if◌then◌else◌,
}
use check_po.Prelude.Result.{ok, err, ◌>>=◌, ◌>>◌, reject_if, ok_or}
use check_po.Prelude.Bytes.{to_be_bytes, from_be_bytes}
use check_po.Codec.{
  CodecResult, invalid, limit, overflow, truncated_envelope, bad_magic, wrong_chunk_kind,
  bad_version, bad_flags, payload_length_mismatch, empty_manifest_summary, leaf_summary_mismatch,
  node_summary_mismatch, magic, codec_version, envelope_len, max_prefix_bytes, max_leaf_entries,
  max_node_children, ChunkKind, root, node, leaf, kind_byte, parse_kind, maximum_stored_len,
  ManifestSummary, empty_summary, summary_eq, checked_add_u64, SnapshotRoot, ManifestLeaf,
  ManifestNode, leaf_summary, node_summary,
}
use check_po.Codec.Checks.{validate_root, validate_bytes, validate_count, usize_to_u32, is_none}
use check_po.Codec.Writer.{Write, new_writer, write_root, write_leaf, write_node}
use check_po.Codec.Reader.{Reader, Read, read_root, read_leaf, read_node}

pub envelope : ChunkKind → List ℕ → CodecResult (List ℕ)
envelope kind payload = do
  stored_len ←
      ok_or (checked_add_u64 envelope_len (length payload)) (overflow "stored chunk length")
  reject_if (ltb (maximum_stored_len kind) stored_len)
      (limit "stored chunk bytes" stored_len (maximum_stored_len kind))
  payload_len ← usize_to_u32 "payload length" (length payload)
  ok (
      magic
      ++ (kind_byte kind ∷ codec_version ∷ [])
      ++ to_be_bytes 2 0
      ++ to_be_bytes 4 payload_len
      ++ payload)

-- `==` on `ChunkKind`.
abbrev pub kind_eq : ChunkKind → ChunkKind → Bool
kind_eq a b = kind_byte a == kind_byte b

pub decode_envelope : List ℕ → ChunkKind → CodecResult (List ℕ)
decode_envelope stored expected_kind = do
  reject_if (ltb (maximum_stored_len expected_kind) (length stored))
      (limit "stored chunk bytes" (length stored) (maximum_stored_len expected_kind))
  reject_if (ltb (length stored) envelope_len) (invalid truncated_envelope)
  reject_if (not (list_eq (take 8 stored) magic)) (invalid bad_magic)
  found_kind ← parse_kind (get_or stored 8 0)
  reject_if (not (kind_eq found_kind expected_kind)) (invalid wrong_chunk_kind)
  reject_if (not (get_or stored 9 0 == codec_version)) (invalid (bad_version (get_or stored 9 0)))
  let flags = from_be_bytes (get_or stored 10 0 ∷ get_or stored 11 0 ∷ [])
  reject_if (not (flags == 0)) (invalid (bad_flags flags))
  let payload_len = from_be_bytes (take 4 (drop 12 stored))
  reject_if (not (payload_len == length stored - envelope_len))
      (invalid (payload_length_mismatch payload_len (length stored - envelope_len)))
  ok (drop envelope_len stored)

-- `writer.finish()` after the writes.
abbrev pub written : Write → CodecResult (List ℕ)
written f = f new_writer >>= λ w. ok w.bytes

-- What is read from the start of a payload.
abbrev pub parsed : {A : Type 0} → Read A → List ℕ → CodecResult A
parsed m payload = m (record { remaining = payload }) >>= λ p. ok p.0

pub encode_root : SnapshotRoot → CodecResult (List ℕ)
encode_root r = do validate_root r; payload ← written (write_root r); envelope root payload

pub decode_root : List ℕ → CodecResult SnapshotRoot
decode_root stored_bytes = do
  payload ← decode_envelope stored_bytes root
  r ← parsed read_root payload
  reject_if (is_none r.manifest && not (summary_eq r.summary empty_summary))
      (invalid empty_manifest_summary)
  validate_root r
  ok r

pub encode_leaf : ManifestLeaf → CodecResult (List ℕ)
encode_leaf l = do
  validate_bytes "portable prefix" l.portable_prefix max_prefix_bytes
  validate_count "leaf entry count" (length l.entries) max_leaf_entries
  s ← leaf_summary l
  payload ← written (write_leaf l s)
  envelope leaf payload

pub decode_leaf : List ℕ → CodecResult ManifestLeaf
decode_leaf stored_bytes = do
  payload ← decode_envelope stored_bytes leaf
  (l, stored_summary) ← parsed read_leaf payload
  s ← leaf_summary l
  reject_if (not (summary_eq s stored_summary)) (invalid leaf_summary_mismatch)
  ok l

pub encode_node : ManifestNode → CodecResult (List ℕ)
encode_node n = do
  validate_bytes "portable prefix" n.portable_prefix max_prefix_bytes
  validate_count "node child count" (length n.children) max_node_children
  s ← node_summary n
  payload ← written (write_node n s)
  envelope node payload

pub decode_node : List ℕ → CodecResult ManifestNode
decode_node stored_bytes = do
  payload ← decode_envelope stored_bytes node
  (n, stored_summary) ← parsed read_node payload
  s ← node_summary n
  reject_if (not (summary_eq s stored_summary)) (invalid node_summary_mismatch)
  ok n
