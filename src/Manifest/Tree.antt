-- ===== src/Manifest/Tree.antt =====
-- The whole tree: `build_manifest` and `lookup_manifest_entry` of snapshot_v2.rs.
pub mod Sorted
pub mod Ladder
pub mod Search
pub mod Edges
pub mod Stored
pub mod Nodes
pub mod Bisect
pub mod Below
pub mod Children
pub mod Ranges
pub mod Found
pub mod Texts
pub mod Lookup
pub mod Tests
use check_po.Prelude.{
  ℕ, zero, suc, ◌+◌, ◌-◌, ◌/◌, Bool, true, false, Option, none, some, List, [], ◌∷◌, length,
  get_elem?, ltb, ◌==◌, if◌then◌else◌,
}
use check_po.Prelude.Result.{ok, err, ◌>>=◌, ◌>>◌, ok_or}
use check_po.Prelude.Map.{Comparison, less, equal, greater, compare_text, get}
use check_po.Codec.{
  Digest32, ManifestRef, ManifestSummary, empty_summary, LeafEntry, ManifestLeaf, ManifestChild,
  ManifestNode,
}
use check_po.Manifest.{
  SnapshotV2Result, missing, invalid, too_deep, ManifestEntry, entry_of_leaf, KeyedEntry,
  starts_with, edge_at, portable_path_key_v1, validate_ordered_keys, summary_prefixes,
}
use check_po.Manifest.Leaf.{manifest_leaf_target_bytes, DecodedChunk, a_node, a_leaf, load_chunk}
use check_po.Manifest.Build.{Chunks, ref_key, max_manifest_depth, BuiltRange, build_range}

pub record BuiltManifest : Type 0 where
  pub root : Option ManifestRef
  pub summary : ManifestSummary
  pub chunks : Chunks

-- `BuiltManifest::default()`
abbrev pub no_manifest : BuiltManifest
no_manifest = record { root = none; summary = empty_summary; chunks = [] }

-- `load_manifest_chunk` of the chunks of a built manifest.
abbrev pub load_manifest_chunk : Chunks → ManifestRef → SnapshotV2Result (List ℕ)
load_manifest_chunk chunks reference =
    ok_or (get (ref_key reference) chunks) (missing (ref_key reference))

-- `keyed.sort_by(|left, right| left.key.cmp(&right.key))`, which keeps equal keys in their order.
abbrev pub place_keyed :
    Comparison → KeyedEntry → KeyedEntry → List KeyedEntry → List KeyedEntry → List KeyedEntry
place_keyed less e x xs rest = e ∷ x ∷ xs
place_keyed equal e x xs rest = e ∷ x ∷ xs
place_keyed greater e x xs rest = x ∷ rest

unfoldable pub insert_keyed : KeyedEntry → List KeyedEntry → List KeyedEntry
insert_keyed e [] = e ∷ []
insert_keyed e (x ∷ xs) = place_keyed (compare_text e.key x.key) e x xs (insert_keyed e xs)

unfoldable pub sort_keyed : List KeyedEntry → List KeyedEntry
unfolding insert_keyed
sort_keyed [] = []
sort_keyed (e ∷ es) = insert_keyed e (sort_keyed es)

-- `binary_search_by_key` of the standard library, on the edges: the half that may hold the edge is
-- kept until one place is left. The comparison at a place; `base + half` is always there.
abbrev pub is_over : ℕ → Option ManifestChild → Bool
is_over edge none = false
is_over edge (some c) = ltb edge c.edge

-- One round, by whether more than one place is left.
abbrev pub halve : (ℕ → ℕ → ℕ) → ℕ → List ManifestChild → ℕ → ℕ → Bool → ℕ
halve next edge cs base size true =
    let half = size / 2 in
    next (if is_over edge (get_elem? cs (base + half)) then base else base + half) (size - half)
halve next edge cs base size false = base

-- The first argument bounds the places that are left.
unfoldable pub bisect : ℕ → ℕ → List ManifestChild → ℕ → ℕ → ℕ
bisect zero edge cs base size = base
bisect (suc rounds) edge cs base size = halve (bisect rounds edge cs) edge cs base size (ltb 1 size)

abbrev pub picked : ℕ → Option ManifestChild → Option ManifestChild
picked edge none = none
picked edge (some c) = if c.edge == edge then some c else none

unfoldable pub find_child : ℕ → List ManifestChild → Option ManifestChild
unfolding bisect
find_child edge cs = picked edge (get_elem? cs (bisect (length cs) edge cs 0 (length cs)))

abbrev pub to_child :
    (ManifestRef → SnapshotV2Result (Option ManifestEntry))
    → Option ManifestChild
    → SnapshotV2Result (Option ManifestEntry)
to_child next none = ok none
to_child next (some c) = next c.child

module _ (nfc : List ℕ → List ℕ) (to_lowercase : ℕ → ℕ × ℕ) where
  -- The keys of the entries.
  unfoldable pub keyed_entries : List ManifestEntry → SnapshotV2Result (List KeyedEntry)
  keyed_entries [] = ok []
  keyed_entries (entry ∷ entries) = do
    key ← portable_path_key_v1 nfc to_lowercase entry.exact_path
    rest ← keyed_entries entries
    ok (record { key = key; entry = entry } ∷ rest)

  -- How the binary search in a leaf goes on from `middle`.
  abbrev pub compared :
      (ℕ → ℕ → SnapshotV2Result (Option ManifestEntry))
      → Comparison
      → ℕ
      → ℕ
      → ℕ
      → LeafEntry
      → SnapshotV2Result (Option ManifestEntry)
  compared next less low middle high entry = next (middle + 1) high
  compared next greater low middle high entry = next low middle
  compared next equal low middle high entry = ok (some (entry_of_leaf entry))

  -- `entries[middle]` is there, since `middle < high`.
  abbrev pub probe :
      (ℕ → ℕ → SnapshotV2Result (Option ManifestEntry))
      → List ℕ
      → ℕ
      → ℕ
      → ℕ
      → Option LeafEntry
      → SnapshotV2Result (Option ManifestEntry)
  probe next key low middle high none = ok none
  probe next key low middle high (some entry) = do
    stored_key ← portable_path_key_v1 nfc to_lowercase entry.exact_path
    compared next (compare_text stored_key key) low middle high entry

  -- One round of the loop, by whether `low < high`.
  abbrev pub search_round :
      (ℕ → ℕ → SnapshotV2Result (Option ManifestEntry))
      → List LeafEntry
      → List ℕ
      → ℕ
      → ℕ
      → Bool
      → SnapshotV2Result (Option ManifestEntry)
  search_round next entries key low high true =
      let middle = low + (high - low) / 2 in
      probe next key low middle high (get_elem? entries middle)
  search_round next entries key low high false = ok none

  -- The binary search; its first argument bounds `high - low`.
  unfoldable pub search_leaf :
      ℕ → List LeafEntry → List ℕ → ℕ → ℕ → SnapshotV2Result (Option ManifestEntry)
  search_leaf zero entries key low high = ok none
  search_leaf (suc rounds) entries key low high =
      search_round (search_leaf rounds entries key) entries key low high (ltb low high)

  abbrev pub in_chunk :
      (ManifestRef → SnapshotV2Result (Option ManifestEntry))
      → List ℕ
      → DecodedChunk
      → SnapshotV2Result (Option ManifestEntry)
  in_chunk next key (a_leaf l bytes) =
      search_leaf (length l.entries) l.entries key 0 (length l.entries)
  in_chunk next key (a_node n bytes) = elim (starts_with key n.portable_prefix) [
    | true ↦ to_child next (find_child (edge_at key (length n.portable_prefix)) n.children)
    | false ↦ ok none
  ]

  module _ (hash : List ℕ → Digest32) where
    -- `build_range` from what was sorted.
    abbrev pub build_sorted : List KeyedEntry → ℕ → SnapshotV2Result BuiltManifest
    build_sorted keyed leaf_target_bytes = do
      validate_ordered_keys keyed
      prefixes ← summary_prefixes empty_summary keyed
      built ←
          build_range hash (suc max_manifest_depth) keyed prefixes leaf_target_bytes 0
            (length keyed) []
      ok (record { root = some built.0.reference; summary = built.0.summary; chunks = built.1 })

    unfoldable pub build_manifest_with_leaf_target :
        List ManifestEntry → ℕ → SnapshotV2Result BuiltManifest
    unfolding keyed_entries sort_keyed
    build_manifest_with_leaf_target [] leaf_target_bytes = ok no_manifest
    build_manifest_with_leaf_target (first ∷ entries) leaf_target_bytes =
        keyed_entries (first ∷ entries) >>= λ keyed.
        build_sorted (sort_keyed keyed) leaf_target_bytes

    unfoldable pub build_manifest : List ManifestEntry → SnapshotV2Result BuiltManifest
    unfolding build_manifest_with_leaf_target
    build_manifest entries = build_manifest_with_leaf_target entries manifest_leaf_target_bytes

    module _ (source : ManifestRef → SnapshotV2Result (List ℕ)) where
      -- The loop over the depths, with those that are left.
      unfoldable pub descend : ℕ → List ℕ → ManifestRef → SnapshotV2Result (Option ManifestEntry)
      unfolding search_leaf find_child
      descend zero key reference = err (invalid (too_deep max_manifest_depth))
      descend (suc depths) key reference =
          load_chunk hash source reference >>= in_chunk (descend depths key) key

      abbrev pub in_root : List ℕ → Option ManifestRef → SnapshotV2Result (Option ManifestEntry)
      in_root key none = ok none
      in_root key (some reference) = descend (suc max_manifest_depth) key reference

      unfoldable pub lookup_manifest_entry :
          Option ManifestRef → List ℕ → SnapshotV2Result (Option ManifestEntry)
      unfolding descend
      lookup_manifest_entry root exact_path =
          portable_path_key_v1 nfc to_lowercase exact_path >>= λ key. in_root key root
