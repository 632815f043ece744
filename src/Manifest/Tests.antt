-- ===== src/Manifest/Tests.antt =====
-- Concrete entries.
use check_po.Prelude.{
  ℕ, ◌+◌, ◌-◌, if◌then◌else◌, ◌≡◌, refl, ◌↔◌, arith, true, List, [], ◌∷◌, length, take, drop,
  list_eq,
}
use check_po.Prelude.Result.{ok}
use check_po.Prelude.Map.{compare_text}
use check_po.Prelude.Text.{
  codes, between, split, cons_head, ends_with, to_ascii_uppercase, strip_prefix,
}
use check_po.Prelude.Text.Utf8.{as_bytes, encode_char}
use check_po.Prelude.Int.{pos}
use check_po.Codec.{ManifestSummary, empty_summary, checked_add}
use check_po.Codec.Samples.{
  sample_digest, sample_leaf, sample_leaf_stored, sample_summary, sample_leaf-IsLeafValue,
  sample_leaf_encodes, sample_leaf_summary,
}
use check_po.Path.{
  parse, check_segments, check_segment, is_windows_reserved_name, is_reserved_device_digit,
  is_windows_forbidden_character,
}
use check_po.Manifest.{
  KeyedEntry, leaf_encoded_len, is_path_ancestor, check_pair, validate_ordered_keys, lower,
  portable_path_key_v1, entry_summary, summary_prefixes, range_summary,
}
use check_po.Manifest.Length.{leaf_encoded_len-encode_leaf}
use check_po.Manifest.Keys.{IsLadder, validate_ordered_keys_iff}
use check_po.Manifest.Portable.{IsPortableKey, portable_path_key_v1_iff}
use check_po.Manifest.Ranges.{range_summary-total}
use check_po.Manifest.Sums.{total}

leaf_encoded_len-encode_leaf_example :
    leaf_encoded_len sample_leaf.portable_prefix sample_summary ≡ ok (length sample_leaf_stored)
leaf_encoded_len-encode_leaf_example =
    leaf_encoded_len-encode_leaf sample_leaf sample_leaf_stored sample_summary
      sample_leaf-IsLeafValue sample_leaf_encodes sample_leaf_summary

abbrev keyed : List ℕ → KeyedEntry
keyed path = record {
  key = path;
  entry = record {
    exact_path = path;
    size_bytes = 7;
    modified = record { unix_seconds = pos 0; nanoseconds = 0 };
    object_id = sample_digest;
  };
}

-- A file, its companion, and a file below the first one's name.
abbrev three : List KeyedEntry
three = keyed (codes "assets/a") ∷ keyed (codes "assets/a.meta") ∷ keyed (codes "assets/a/b") ∷ []

-- The first entry is an ancestor of the third, and the list passes.
ancestor_escapes :
    (validate_ordered_keys three ≡ ok tt)
    × (is_path_ancestor (codes "assets/a") (codes "assets/a/b") ≡ true)
unfolding validate_ordered_keys check_pair is_path_ancestor strip_prefix compare_text list_eq
ancestor_escapes = (refl, refl)

three-validate : validate_ordered_keys three ≡ ok tt
three-validate = ancestor_escapes.0

validate_ordered_keys_iff_example : (validate_ordered_keys three ≡ ok tt) ↔ IsLadder three
validate_ordered_keys_iff_example = validate_ordered_keys_iff three

abbrev sums : List ManifestSummary
sums =
    empty_summary
    ∷ record { entry_count = 1; logical_size_bytes = 7; total_exact_path_bytes = 8 }
    ∷ record { entry_count = 2; logical_size_bytes = 14; total_exact_path_bytes = 21 }
    ∷ record { entry_count = 3; logical_size_bytes = 21; total_exact_path_bytes = 31 }
    ∷ []

three-sums : summary_prefixes empty_summary three ≡ ok sums
unfolding summary_prefixes entry_summary checked_add as_bytes encode_char
three-sums = refl

range_summary-total_example : range_summary sums 1 3 ≡ ok (total (take (3 - 1) (drop 1 three)))
range_summary-total_example =
    range_summary-total three sums 1 3 three-sums (omega arith) (omega arith)

-- Tables for the ASCII letters.
abbrev as_is : List ℕ → List ℕ
as_is s = s

abbrev ascii_lower : ℕ → ℕ × ℕ
ascii_lower c = if between 65 90 c then (c + 32, 0) else (0, 0)

abbrev named : List ℕ
named = codes "Assets/Main.cs"

named-key : portable_path_key_v1 as_is ascii_lower named ≡ ok (codes "assets/main.cs")
unfolding portable_path_key_v1 lower parse split cons_head check_segments check_segment ends_with
    list_eq is_windows_reserved_name is_reserved_device_digit is_windows_forbidden_character
    to_ascii_uppercase strip_prefix as_bytes encode_char
named-key = refl

portable_path_key_v1_iff_example :
    (portable_path_key_v1 as_is ascii_lower named ≡ ok (codes "assets/main.cs"))
    ↔ IsPortableKey as_is ascii_lower named (codes "assets/main.cs")
portable_path_key_v1_iff_example =
    portable_path_key_v1_iff as_is ascii_lower named (codes "assets/main.cs")
