-- ===== src/Manifest/Iter/Tests.antt =====
-- The iterator on a tree of a node and two leaves.
use check_po.Prelude.{ℕ, ◌≡◌, refl, some, List, [], ◌∷◌, list_eq}
use check_po.Prelude.Result.{ok}
use check_po.Prelude.Map.{get, insert, compare_text}
use check_po.Prelude.Text.{codes}
use check_po.Prelude.Text.Utf8.{as_bytes, encode_char}
use check_po.Prelude.Bytes.{to_be_bytes, le_bytes}
use check_po.Prelude.Int.{i64_word}
use check_po.Codec.{LeafEntry}
use check_po.Codec.Layout.{leaf_bytes, entry_bytes, node_bytes, child_bytes}
use check_po.Codec.Identity.{manifest_id, domain_hash, verify_manifest_id}
use check_po.Codec.Samples.{sample_entry}
use check_po.Codec.Pair.{length_hash, a_decodes, b_decodes, pair_decodes}
use check_po.Manifest.Leaf.{load_chunk}
use check_po.Manifest.Build.{ref_key}
use check_po.Manifest.Tree.{load_manifest_chunk}
use check_po.Manifest.Tree.Tests.{a_ref, b_ref, pair_ref, tree}
use check_po.Manifest.Subtree.Walk.{walk}
use check_po.Manifest.Iter.{manifest_iter}
use check_po.Manifest.Iter.Yields.{entries_of, Distinct, Yields}
use check_po.Manifest.Iter.Order.{refs, manifest_iter-Yields}

abbrev two : List LeafEntry
two = sample_entry (codes "Assets/a.cs") ∷ sample_entry (codes "Assets/bb.cs") ∷ []

abbrev keys : List (List ℕ)
keys = ref_key pair_ref ∷ ref_key a_ref ∷ ref_key b_ref ∷ []

walks : walk length_hash (load_manifest_chunk tree.chunks) 2 pair_ref ≡ ok two
unfolding walk load_chunk list_eq compare_text get insert manifest_id domain_hash verify_manifest_id
    leaf_bytes entry_bytes node_bytes child_bytes as_bytes encode_char to_be_bytes le_bytes i64_word
walks = rw (pair_decodes, a_decodes, b_decodes) refl

refers : refs length_hash (load_manifest_chunk tree.chunks) 2 pair_ref ≡ ok keys
unfolding refs load_chunk list_eq compare_text get insert manifest_id domain_hash verify_manifest_id
    leaf_bytes entry_bytes node_bytes child_bytes as_bytes encode_char to_be_bytes le_bytes i64_word
refers = rw (pair_decodes, a_decodes, b_decodes) refl

keys-Distinct : Distinct keys
unfolding list_eq leaf_bytes entry_bytes node_bytes child_bytes as_bytes encode_char to_be_bytes
    le_bytes i64_word
keys-Distinct = ((refl, (refl, tt)), ((refl, tt), (tt, tt)))

manifest_iter-Yields_example :
    Yields length_hash
      (load_manifest_chunk tree.chunks)
      3
      (manifest_iter (some pair_ref))
      (entries_of two)
manifest_iter-Yields_example =
    manifest_iter-Yields length_hash (load_manifest_chunk tree.chunks) 2 pair_ref two keys walks
      refers keys-Distinct
