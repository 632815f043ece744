-- ===== src/Manifest/Leaf.antt =====
-- Loading a chunk and validating a leaf: `load_chunk` and `validate_leaf` of snapshot_v2.rs.
pub mod Loaded
pub mod Valid
mod Tests
use check_po.Prelude.{
  ℕ, ◌*◌, Bool, true, false, not, ◌&&◌, List, [], ◌∷◌, length, take, ltb, ◌==◌, list_eq,
  if◌then◌else◌,
}
use check_po.Prelude.Result.{ok, err, ◌>>=◌, ◌>>◌, reject_if}
use check_po.Codec.{
  ChunkKind, root, node, leaf, Digest32, ManifestRef, ManifestSummary, LeafEntry, ManifestLeaf,
  ManifestNode, leaf_summary,
}
use check_po.Codec.Chunk.{encode_leaf, decode_leaf, decode_node}
use check_po.Codec.Identity.{verify_manifest_id}
use check_po.Path.{is_nil}
use check_po.Manifest.{
  SnapshotV2Result, invalid, empty_leaf, noncanonical_leaf, prefix_not_lcp, points_to_root,
  leaf_over_target, from_codec, KeyedEntry, entry_of_leaf, portable_path_key_v1,
  validate_ordered_keys, common_prefix_len,
}

abbrev pub manifest_leaf_target_bytes : ℕ
manifest_leaf_target_bytes = 32 * 1024

-- A chunk with its stored bytes.
pub data DecodedChunk : Type 0 where
  a_node : ManifestNode → List ℕ → DecodedChunk
  a_leaf : ManifestLeaf → List ℕ → DecodedChunk

abbrev pub decoded : ChunkKind → List ℕ → SnapshotV2Result DecodedChunk
decoded node bytes = from_codec (decode_node bytes) >>= λ n. ok (a_node n bytes)
decoded leaf bytes = from_codec (decode_leaf bytes) >>= λ l. ok (a_leaf l bytes)
decoded root bytes = err (invalid points_to_root)

-- `source` is `load_manifest_chunk` of a `ManifestChunkSource`.
unfoldable pub load_chunk :
    (List ℕ → Digest32)
    → (ManifestRef → SnapshotV2Result (List ℕ))
    → ManifestRef
    → SnapshotV2Result DecodedChunk
load_chunk hash source reference = do
  bytes ← source reference
  from_codec (verify_manifest_id hash reference bytes)
  decoded reference.kind bytes

pub record ValidationInfo : Type 0 where
  pub summary : ManifestSummary
  pub first_key : List ℕ
  pub last_key : List ℕ
  pub maximum_relative_depth : ℕ

-- `first()` and `last()` of keys that are there.
abbrev pub first_key_of : List KeyedEntry → List ℕ
first_key_of [] = []
first_key_of (e ∷ es) = e.key

abbrev pub last_key_of : List KeyedEntry → List ℕ
last_key_of [] = []
last_key_of (e ∷ []) = e.key
last_key_of (e ∷ f ∷ es) = last_key_of (f ∷ es)

module _ (nfc : List ℕ → List ℕ) (to_lowercase : ℕ → ℕ × ℕ) where
  unfoldable pub key_entries : List LeafEntry → SnapshotV2Result (List KeyedEntry)
  key_entries [] = ok []
  key_entries (e ∷ es) = do
    key ← portable_path_key_v1 nfc to_lowercase e.exact_path
    rest ← key_entries es
    ok (record { key = key; entry = entry_of_leaf e } ∷ rest)

  unfoldable pub validate_leaf : ManifestLeaf → List ℕ → SnapshotV2Result ValidationInfo
  unfolding key_entries
  validate_leaf l stored_bytes = do
    canonical_bytes ← from_codec (encode_leaf l)
    reject_if (not (list_eq canonical_bytes stored_bytes)) (invalid noncanonical_leaf)
    reject_if (is_nil l.entries) (invalid empty_leaf)
    reject_if (ltb manifest_leaf_target_bytes (length stored_bytes) && not (length l.entries == 1))
        (invalid (leaf_over_target manifest_leaf_target_bytes))
    keyed ← key_entries l.entries
    validate_ordered_keys keyed
    let first_key = first_key_of keyed
    let last_key = last_key_of keyed
    reject_if
        (not (list_eq l.portable_prefix (take (common_prefix_len first_key last_key) first_key)))
        (invalid prefix_not_lcp)
    s ← from_codec (leaf_summary l)
    ok (record {
      summary = s;
      first_key = first_key;
      last_key = last_key;
      maximum_relative_depth = 0;
    })
