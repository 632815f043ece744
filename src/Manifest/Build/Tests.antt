-- ===== src/Manifest/Build/Tests.antt =====
-- A tree of one leaf, built beside a chunk that is there.
use check_po.Prelude.{ℕ, ◌≡◌, refl, List, [], ◌∷◌, ◌++◌, list_eq}
use check_po.Prelude.Result.{ok}
use check_po.Prelude.Map.{get, insert, compare_text}
use check_po.Prelude.Text.{codes}
use check_po.Prelude.Text.Utf8.{as_bytes, encode_char}
use check_po.Codec.{ManifestSummary, empty_summary, leaf}
use check_po.Codec.Identity.{manifest_id, domain_hash, new_manifest_ref}
use check_po.Codec.Layout.{leaf_bytes, entry_bytes}
use check_po.Prelude.Bytes.{to_be_bytes, le_bytes}
use check_po.Prelude.Int.{i64_word}
use check_po.Codec.Samples.{
  sample_entry, sample_summary, sample_leaf_stored, sample_leaf_encodes, last_bytes, stored_ref,
}
use check_po.Manifest.{
  KeyedEntry, entry_of_leaf, common_prefix_len, leaf_encoded_len, range_summary,
}
use check_po.Manifest.Build.{Chunks, ref_key, BuiltRange, insert_chunk, build_range}

abbrev keyed : List ℕ → List ℕ → KeyedEntry
keyed key path = record { key = key; entry = entry_of_leaf (sample_entry path) }

abbrev two : List KeyedEntry
two =
    keyed (codes "assets/a.cs") (codes "Assets/a.cs")
    ∷ keyed (codes "assets/b" ++ 195 ∷ 169 ∷ codes ".cs") (codes "Assets/bé.cs")
    ∷ []

abbrev sums : List ManifestSummary
sums =
    empty_summary
    ∷ record { entry_count = 1; logical_size_bytes = 150; total_exact_path_bytes = 11 }
    ∷ sample_summary
    ∷ []

abbrev before : Chunks
before = (9 ∷ [], 1 ∷ []) ∷ []

abbrev out : BuiltRange × Chunks
out = (
  record { reference = stored_ref; summary = sample_summary },
  insert (ref_key stored_ref) sample_leaf_stored before,
)

inserts :
    insert_chunk last_bytes leaf sample_leaf_stored before
    ≡ ok (stored_ref, insert (ref_key stored_ref) sample_leaf_stored before)
unfolding insert_chunk manifest_id domain_hash new_manifest_ref get insert compare_text list_eq
    leaf_bytes entry_bytes to_be_bytes le_bytes as_bytes encode_char i64_word
inserts = refl

builds : build_range last_bytes 2 two sums 500 0 2 before ≡ ok out
unfolding build_range range_summary leaf_encoded_len common_prefix_len
builds = rw (sample_leaf_encodes, inserts)
