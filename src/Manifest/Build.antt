-- ===== src/Manifest/Build.antt =====
-- Building the tree: `build_range` and `insert_chunk` of snapshot_v2.rs.
pub mod Kept
mod Tests
use check_po.Prelude.{
  ℕ, zero, suc, ◌+◌, ◌≤◌, Bool, true, false, not, ◌&&◌, ◌||◌, Option, none, some, List, [], ◌∷◌,
  length, take, drop, get_elem?, ltb, ◌==◌, list_eq, if◌then◌else◌,
}
use check_po.Prelude.Result.{ok, err, ◌>>=◌, ◌>>◌, reject_if, ok_or}
use check_po.Prelude.Map.{Map, get, insert}
use check_po.Codec.{
  ChunkKind, root, node, leaf, kind_byte, Digest32, ManifestRef, ManifestSummary, LeafEntry,
  ManifestLeaf, ManifestChild, ManifestNode,
}
use check_po.Codec.Chunk.{encode_leaf, encode_node}
use check_po.Codec.Identity.{manifest_id, new_manifest_ref}
use check_po.Manifest.{
  SnapshotV2Result, invalid, too_deep, range_outside, empty_chunk, unary_node, hash_collision,
  from_codec, KeyedEntry, leaf_of_entry, common_prefix_len, edge_at, leaf_encoded_len,
  range_summary,
}
use check_po.Manifest.Leaf.{last_key_of}

-- `BTreeMap<ManifestRef, Vec<u8>>`: a key is the byte of the kind and the id.
abbrev pub Chunks : Type 0
Chunks = Map (List ℕ)

abbrev pub ref_key : ManifestRef → List ℕ
ref_key reference = kind_byte reference.kind ∷ reference.id

-- What `insert_chunk` does with the bytes that stand at the reference.
abbrev pub insert_at :
    Option (List ℕ) → ManifestRef → List ℕ → Chunks → SnapshotV2Result (ManifestRef × Chunks)
insert_at none reference bytes chunks = ok (reference, insert (ref_key reference) bytes chunks)
insert_at (some existing) reference bytes chunks =
    if not (list_eq existing bytes)
    then err (invalid (hash_collision (ref_key reference)))
    else ok (reference, chunks)

abbrev pub max_manifest_depth : ℕ
max_manifest_depth = 1024

pub record BuiltRange : Type 0 where
  pub reference : ManifestRef
  pub summary : ManifestSummary

-- `entries.get(range_start..range_end)`
abbrev pub range_of : List KeyedEntry → ℕ → ℕ → Option (List KeyedEntry)
range_of entries start end =
    if ltb end start || ltb (length entries) end then none else some (drop start (take end entries))

abbrev pub leaf_entries : List KeyedEntry → List LeafEntry
leaf_entries [] = []
leaf_entries (keyed ∷ range) = leaf_of_entry keyed.entry ∷ leaf_entries range

-- The two `while` loops: the edge, start and end of each child, from the child that is open.
unfoldable pub child_ranges : ℕ → ℕ → ℕ → ℕ → List KeyedEntry → List (ℕ × ℕ × ℕ)
child_ranges prefix_len edge child_start child_end [] = (edge, child_start, child_end) ∷ []
child_ranges prefix_len edge child_start child_end (keyed ∷ entries) =
    elim (edge_at keyed.key prefix_len == edge) [
      | true ↦ child_ranges prefix_len edge child_start (suc child_end) entries
      | false ↦
          (edge, child_start, child_end)
          ∷ child_ranges prefix_len (edge_at keyed.key prefix_len) child_end (suc child_end) entries
    ]

-- The children in their order, each built by `build`, with the chunks passed on.
unfoldable pub build_children :
    (ℕ → ℕ → Chunks → SnapshotV2Result (BuiltRange × Chunks))
    → List (ℕ × ℕ × ℕ)
    → Chunks
    → SnapshotV2Result (List ManifestChild × Chunks)
build_children build [] chunks = ok ([], chunks)
build_children build ((edge, start, end) ∷ ranges) chunks = do
  built ← build start end chunks
  rest ← build_children build ranges built.1
  let child : ManifestChild = record {
    edge = edge;
    child = built.0.reference;
    summary = built.0.summary;
  }
  ok (child ∷ rest.0, rest.1)

module _ (hash : List ℕ → Digest32) where
  unfoldable pub insert_chunk :
      ChunkKind → List ℕ → Chunks → SnapshotV2Result (ManifestRef × Chunks)
  insert_chunk kind bytes chunks = do
    id ← from_codec (manifest_id hash kind bytes)
    reference ← from_codec (new_manifest_ref kind id)
    insert_at (get (ref_key reference) chunks) reference bytes chunks

  abbrev pub build_leaf :
      List ℕ → List KeyedEntry → ManifestSummary → Chunks → SnapshotV2Result (BuiltRange × Chunks)
  build_leaf prefix range summary chunks = do
    leaf_bytes ←
        from_codec (encode_leaf (record { portable_prefix = prefix; entries = leaf_entries range }))
    inserted ← insert_chunk leaf leaf_bytes chunks
    ok (record { reference = inserted.0; summary = summary }, inserted.1)

  abbrev pub build_node :
      List ℕ
      → ManifestSummary
      → List ManifestChild × Chunks
      → SnapshotV2Result (BuiltRange × Chunks)
  build_node prefix summary built = do
    reject_if (ltb (length built.0) 2) (invalid unary_node)
    node_bytes ← from_codec (encode_node (record { portable_prefix = prefix; children = built.0 }))
    inserted ← insert_chunk node node_bytes built.1
    ok (record { reference = inserted.0; summary = summary }, inserted.1)

  -- `build_range` from the first entry of the range; `build` is the call for a child.
  abbrev pub build_within :
      (ℕ → ℕ → Chunks → SnapshotV2Result (BuiltRange × Chunks))
      → List ManifestSummary
      → ℕ
      → ℕ
      → ℕ
      → Chunks
      → List KeyedEntry
      → KeyedEntry
      → SnapshotV2Result (BuiltRange × Chunks)
  build_within build prefixes target start end chunks range first = do
    let prefix_len = common_prefix_len first.key (last_key_of range)
    let prefix = take prefix_len first.key
    summary ← range_summary prefixes start end
    encoded ← leaf_encoded_len prefix summary
    elim (not (ltb target encoded) || length range == 1) [
      | true ↦ build_leaf prefix range summary chunks
      | false ↦
          build_children build
            (child_ranges prefix_len (edge_at first.key prefix_len) start (suc start)
              (drop 1 range))
            chunks
          >>= build_node prefix summary
    ]

  -- The first argument counts the depths that are left: `max_manifest_depth + 1` less `depth`.
  unfoldable pub build_range :
      ℕ
      → List KeyedEntry
      → List ManifestSummary
      → ℕ
      → ℕ
      → ℕ
      → Chunks
      → SnapshotV2Result (BuiltRange × Chunks)
  build_range zero entries prefixes target start end chunks =
      err (invalid (too_deep max_manifest_depth))
  build_range (suc depths) entries prefixes target start end chunks = do
    range ← ok_or (range_of entries start end) (invalid range_outside)
    first ← ok_or (get_elem? range 0) (invalid empty_chunk)
    build_within (build_range depths entries prefixes target) prefixes target start end chunks range
        first
