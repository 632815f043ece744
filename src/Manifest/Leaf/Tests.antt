-- ===== src/Manifest/Leaf/Tests.antt =====
-- A leaf that loads and is valid.
use check_po.Prelude.{ℕ, ◌+◌, ◌≡◌, refl, List, ◌∷◌, ◌++◌, All, list_eq, if◌then◌else◌}
use check_po.Prelude.Result.{ok}
use check_po.Prelude.Map.{compare_text}
use check_po.Prelude.Text.{
  codes, between, split, cons_head, ends_with, to_ascii_uppercase, strip_prefix,
}
use check_po.Prelude.Text.Utf8.{as_bytes, encode_char}
use check_po.Prelude.Bytes.{to_be_bytes, le_bytes}
use check_po.Prelude.Int.{i64_word}
use check_po.Codec.{ManifestRef, leaf_summary}
use check_po.Codec.Layout.{leaf_bytes, entry_bytes}
use check_po.Codec.Chunk.{encode_leaf}
use check_po.Codec.Identity.{verify_manifest_id}
use check_po.Codec.Samples.{
  sample_leaf, sample_leaf_stored, sample_leaf_stored-IsByte, sample_leaf_encodes,
  sample_leaf_decodes, sample_leaf_summary, sample_summary, last_bytes, stored_ref,
  sample_leaf_verifies,
}
use check_po.Path.{
  parse, check_segments, check_segment, is_windows_reserved_name, is_reserved_device_digit,
  is_windows_forbidden_character,
}
use check_po.Manifest.{
  SnapshotV2Result, KeyedEntry, portable_path_key_v1, lower, common_prefix_len,
  validate_ordered_keys, check_pair, is_path_ancestor,
}
use check_po.Manifest.Keys.{IsLadder}
use check_po.Manifest.Leaf.{a_leaf, load_chunk, ValidationInfo, key_entries, validate_leaf}
use check_po.Manifest.Leaf.Loaded.{IsForm, load_chunk-IsForm}
use check_po.Manifest.Leaf.Valid.{StartsWith, validate_leaf-keys}

abbrev source : ManifestRef → SnapshotV2Result (List ℕ)
source r = ok sample_leaf_stored

sample-loads : load_chunk last_bytes source stored_ref ≡ ok (a_leaf sample_leaf sample_leaf_stored)
unfolding load_chunk
sample-loads = rw (sample_leaf_verifies, sample_leaf_decodes)

load_chunk-IsForm_example :
    (verify_manifest_id last_bytes stored_ref sample_leaf_stored ≡ ok tt)
    × IsForm (a_leaf sample_leaf sample_leaf_stored) sample_leaf_stored stored_ref.kind
load_chunk-IsForm_example =
    load_chunk-IsForm last_bytes source stored_ref sample_leaf_stored
      (a_leaf sample_leaf sample_leaf_stored) refl sample_leaf_stored-IsByte sample-loads

abbrev as_is : List ℕ → List ℕ
as_is s = s

abbrev ascii_lower : ℕ → ℕ × ℕ
ascii_lower c = if between 65 90 c then (c + 32, 0) else (0, 0)

abbrev sample_info : ValidationInfo
sample_info = record {
  summary = sample_summary;
  first_key = codes "assets/a.cs";
  last_key = codes "assets/b" ++ (195 ∷ 169 ∷ codes ".cs");
  maximum_relative_depth = 0;
}

sample-valid : validate_leaf as_is ascii_lower sample_leaf sample_leaf_stored ≡ ok sample_info
unfolding validate_leaf key_entries portable_path_key_v1 lower common_prefix_len
    validate_ordered_keys check_pair is_path_ancestor parse split cons_head check_segments
    check_segment ends_with list_eq is_windows_reserved_name is_reserved_device_digit
    is_windows_forbidden_character to_ascii_uppercase strip_prefix as_bytes encode_char compare_text
    to_be_bytes le_bytes leaf_bytes entry_bytes i64_word
sample-valid = rw (sample_leaf_encodes, sample_leaf_summary)

validate_leaf-keys_example :
    (encode_leaf sample_leaf ≡ ok sample_leaf_stored)
    × (leaf_summary sample_leaf ≡ ok sample_info.summary)
    × ((keyed : List KeyedEntry) × (key_entries as_is ascii_lower sample_leaf.entries ≡ ok keyed)
        × IsLadder keyed
        × All (StartsWith sample_leaf.portable_prefix) keyed)
validate_leaf-keys_example =
    validate_leaf-keys as_is ascii_lower sample_leaf sample_leaf_stored sample_info sample-valid
