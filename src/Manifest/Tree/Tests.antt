-- ===== src/Manifest/Tree/Tests.antt =====
-- A tree of a node and two leaves, and lookups in it.
use check_po.Prelude.{ℕ, ◌+◌, ◌≡◌, refl, some, List, [], ◌∷◌, ◌++◌, arith, if◌then◌else◌, list_eq}
use check_po.Prelude.Result.{ok}
use check_po.Prelude.Map.{get, insert, compare_text}
use check_po.Prelude.Bytes.{to_be_bytes, le_bytes}
use check_po.Prelude.Int.{i64_word}
use check_po.Prelude.Text.{
  codes, between, split, cons_head, ends_with, to_ascii_uppercase, strip_prefix,
}
use check_po.Prelude.Text.Utf8.{as_bytes, encode_char}
use check_po.Codec.{ManifestRef, node, checked_add}
use check_po.Codec.Layout.{leaf_bytes, entry_bytes, node_bytes, child_bytes}
use check_po.Codec.Identity.{node_hash_domain, manifest_id, domain_hash, new_manifest_ref}
use check_po.Codec.Samples.{sample_entry, sample_digest-IsArray}
use check_po.Codec.Pair.{
  length_hash, length_hash-IsArray, a_stored, b_stored, a_encodes, b_encodes, leaf_child,
  pair_summary, pair_stored, pair_encodes,
}
use check_po.Prelude.Decided.{IsText-decided}
use check_po.Path.{
  parse, check_segments, check_segment, is_windows_reserved_name, is_reserved_device_digit,
  is_windows_forbidden_character,
}
use check_po.Manifest.{
  ManifestEntry, entry_of_leaf, lower, portable_path_key_v1, validate_ordered_keys, check_pair,
  is_path_ancestor, summary_prefixes, entry_summary, common_prefix_len, edge_at, leaf_encoded_len,
  range_summary,
}
use check_po.Manifest.Build.{ref_key, insert_chunk, child_ranges, build_children, build_range}
use check_po.Manifest.Tree.{
  BuiltManifest, load_manifest_chunk, insert_keyed, sort_keyed, keyed_entries,
  build_manifest_with_leaf_target, lookup_manifest_entry,
}
use check_po.Manifest.Tree.Lookup.{EntryValues, entry_with, lookup_manifest_entry-build_manifest}

abbrev pub same_text : List ℕ → List ℕ
same_text s = s

abbrev pub ascii_lowercase : ℕ → ℕ × ℕ
ascii_lowercase c = if between 65 90 c then (c + 32, 0) else (c, 0)

abbrev unsorted : List ManifestEntry
unsorted =
    entry_of_leaf (sample_entry (codes "Assets/bb.cs"))
    ∷ entry_of_leaf (sample_entry (codes "Assets/a.cs"))
    ∷ []

unsorted-EntryValues : EntryValues unsorted
unsorted-EntryValues = (
  record {
    path = IsText-decided (codes "Assets/bb.cs") refl;
    size = omega arith;
    modified = (omega arith, omega arith);
    object = sample_digest-IsArray;
  },
  (
    record {
      path = IsText-decided (codes "Assets/a.cs") refl;
      size = omega arith;
      modified = (omega arith, omega arith);
      object = sample_digest-IsArray;
    },
    tt,
  ),
)

abbrev pub a_ref : ManifestRef
a_ref = (leaf_child 97 a_stored 11).child

abbrev pub b_ref : ManifestRef
b_ref = (leaf_child 98 b_stored 12).child

abbrev pub pair_ref : ManifestRef
pair_ref = record { kind = node; id = length_hash (node_hash_domain ++ pair_stored) }

abbrev pub tree : BuiltManifest
tree = record {
  root = some pair_ref;
  summary = pair_summary;
  chunks =
      insert (ref_key pair_ref) pair_stored
        (insert (ref_key b_ref) b_stored (insert (ref_key a_ref) a_stored []));
}

tree_built :
    build_manifest_with_leaf_target same_text ascii_lowercase length_hash unsorted 130 ≡ ok tree
unfolding keyed_entries portable_path_key_v1 lower parse check_segments check_segment
    is_windows_reserved_name is_reserved_device_digit is_windows_forbidden_character split cons_head
    ends_with to_ascii_uppercase strip_prefix as_bytes encode_char list_eq
    build_manifest_with_leaf_target insert_keyed sort_keyed validate_ordered_keys check_pair
    is_path_ancestor compare_text summary_prefixes entry_summary checked_add common_prefix_len
    edge_at leaf_encoded_len range_summary insert_chunk child_ranges build_children build_range get
    insert manifest_id domain_hash new_manifest_ref leaf_bytes entry_bytes node_bytes child_bytes
    to_be_bytes le_bytes i64_word
tree_built = rw (a_encodes, b_encodes, pair_encodes) refl

pub a_key :
    portable_path_key_v1 same_text ascii_lowercase (codes "Assets/A.cs") ≡ ok (codes "assets/a.cs")
unfolding portable_path_key_v1 lower parse check_segments check_segment is_windows_reserved_name
    is_reserved_device_digit is_windows_forbidden_character split cons_head ends_with
    to_ascii_uppercase strip_prefix as_bytes encode_char list_eq
a_key = refl

lookup_manifest_entry-build_manifest_example :
    lookup_manifest_entry same_text ascii_lowercase length_hash
      (load_manifest_chunk tree.chunks)
      tree.root
      (codes "Assets/A.cs")
    ≡ ok (entry_with same_text ascii_lowercase (codes "assets/a.cs") unsorted)
lookup_manifest_entry-build_manifest_example =
    lookup_manifest_entry-build_manifest same_text ascii_lowercase length_hash (λ s h. h)
      length_hash-IsArray unsorted 130 tree (codes "Assets/A.cs") (codes "assets/a.cs")
      unsorted-EntryValues tree_built a_key
