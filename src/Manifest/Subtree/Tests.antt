-- ===== src/Manifest/Subtree/Tests.antt =====
-- A manifest of one leaf that validates.
use check_po.Prelude.{◌≡◌, refl, some, List, [], length, list_eq}
use check_po.Prelude.Result.{ok}
use check_po.Prelude.Map.{get, insert, compare_text, mem}
use check_po.Prelude.Text.{codes, split, cons_head, ends_with, to_ascii_uppercase, strip_prefix}
use check_po.Prelude.Text.Utf8.{as_bytes, encode_char}
use check_po.Prelude.Bytes.{to_be_bytes, le_bytes}
use check_po.Prelude.Int.{i64_word}
use check_po.Codec.{checked_add, add_entries, leaf_entry_summary, leaf_summary}
use check_po.Codec.Layout.{leaf_bytes, entry_bytes}
use check_po.Codec.Identity.{manifest_id, domain_hash, verify_manifest_id}
use check_po.Codec.Pair.{length_hash, a_stored, a_encodes, a_decodes, path_summary}
use check_po.Path.{
  parse, check_segments, check_segment, is_windows_reserved_name, is_reserved_device_digit,
  is_windows_forbidden_character,
}
use check_po.Manifest.{
  KeyedEntry, lower, portable_path_key_v1, validate_ordered_keys, common_prefix_len,
}
use check_po.Manifest.Leaf.{load_chunk, key_entries, validate_leaf}
use check_po.Manifest.Build.{Chunks, ref_key}
use check_po.Manifest.Tree.{load_manifest_chunk}
use check_po.Manifest.Tree.Tests.{same_text, ascii_lowercase, a_ref, a_key}
use check_po.Manifest.Subtree.{
  saturating_add, ManifestValidationCache, empty_cache, validate_subtree, validate_manifest_cached,
}
use check_po.Manifest.Subtree.Children.{Trusted}
use check_po.Manifest.Subtree.Valid.{Holds, validate_manifest_cached-Holds}

abbrev alone : Chunks
alone = insert (ref_key a_ref) a_stored []

abbrev after : ManifestValidationCache
after = record {
  validated =
      insert (ref_key a_ref)
        (record {
          summary = path_summary 11;
          first_key = codes "assets/a.cs";
          last_key = codes "assets/a.cs";
          maximum_relative_depth = 0;
        })
        [];
  estimated_heap_bytes = 319;
}

empty-Trusted :
    Trusted same_text ascii_lowercase length_hash (load_manifest_chunk alone) empty_cache
unfolding get
empty-Trusted reference info h = absurd (cc h)

validates :
    validate_manifest_cached 33 200 length same_text ascii_lowercase length_hash
      (load_manifest_chunk alone)
      (some a_ref)
      (path_summary 11)
      empty_cache
    ≡ (ok tt, after)
unfolding validate_manifest_cached validate_subtree validate_leaf load_chunk key_entries
    portable_path_key_v1 lower parse check_segments check_segment is_windows_reserved_name
    is_reserved_device_digit is_windows_forbidden_character split cons_head ends_with
    to_ascii_uppercase strip_prefix as_bytes encode_char list_eq saturating_add
    validate_ordered_keys compare_text checked_add common_prefix_len get insert mem manifest_id
    domain_hash verify_manifest_id leaf_bytes entry_bytes to_be_bytes le_bytes i64_word add_entries
    leaf_entry_summary leaf_summary
validates = rw (a_decodes, a_encodes) refl

validate_manifest_cached-Holds_example :
    ((range : List KeyedEntry) × Holds 33 200 length same_text ascii_lowercase length_hash
        (load_manifest_chunk alone)
        a_ref
        (path_summary 11)
        (codes "Assets/A.cs")
        (codes "assets/a.cs")
        range)
    × Trusted same_text ascii_lowercase length_hash (load_manifest_chunk alone) after
validate_manifest_cached-Holds_example =
    validate_manifest_cached-Holds 33 200 length same_text ascii_lowercase length_hash
      (load_manifest_chunk alone) a_ref (path_summary 11) empty_cache after (codes "Assets/A.cs")
      (codes "assets/a.cs") empty-Trusted validates a_key
