-- ===== src/Codec/Layout.antt =====
-- The persistent format of a chunk's payload as one list of bytes for each value: what
-- merkle_codec.rs states by the order of its writes.
use check_po.Prelude.{ℕ, Option, none, some, List, [], ◌∷◌, ◌++◌, length}
use check_po.Prelude.Bytes.{to_be_bytes}
use check_po.Prelude.Int.{i64_word}
use check_po.Prelude.Text.Utf8.{as_bytes}
use check_po.Codec.{
  Digest32, kind_byte, ManifestRef, Timestamp, ManifestSummary, SnapshotRoot, LeafEntry,
  ManifestLeaf, ManifestChild, ManifestNode, payload_schema, tracked_scope_policy, path_key_policy,
  content_policy,
}

abbrev pub blob_bytes : List ℕ → List ℕ
blob_bytes bs = to_be_bytes 4 (length bs) ++ bs

abbrev pub text_bytes : List ℕ → List ℕ
text_bytes s = blob_bytes (as_bytes s)

abbrev pub timestamp_bytes : Timestamp → List ℕ
timestamp_bytes t = to_be_bytes 8 (i64_word t.unix_seconds) ++ to_be_bytes 4 t.nanoseconds

abbrev pub summary_bytes : ManifestSummary → List ℕ
summary_bytes s =
    to_be_bytes 8 s.entry_count
    ++ (to_be_bytes 8 s.logical_size_bytes ++ to_be_bytes 8 s.total_exact_path_bytes)

abbrev pub ref_bytes : ManifestRef → List ℕ
ref_bytes r = (kind_byte r.kind ∷ []) ++ r.id

abbrev pub optional_ref_bytes : Option ManifestRef → List ℕ
optional_ref_bytes none = 0 ∷ []
optional_ref_bytes (some r) = ref_bytes r

abbrev pub parent_bytes : Option Digest32 → List ℕ
parent_bytes none = 0 ∷ []
parent_bytes (some id) = (1 ∷ []) ++ id

unfoldable pub root_bytes : SnapshotRoot → List ℕ
root_bytes r =
    to_be_bytes 2 payload_schema
    ++ (r.project_id
        ++ (parent_bytes r.parent
            ++ (timestamp_bytes r.created
                ++ (text_bytes r.checkpoint_name
                    ++ (text_bytes r.tool_version
                        ++ (to_be_bytes 2 tracked_scope_policy
                            ++ (to_be_bytes 2 path_key_policy
                                ++ (to_be_bytes 2 content_policy
                                    ++ (optional_ref_bytes r.manifest
                                        ++ summary_bytes r.summary)))))))))

unfoldable pub entry_bytes : LeafEntry → List ℕ
entry_bytes e =
    text_bytes e.exact_path
    ++ (to_be_bytes 8 e.size_bytes ++ (timestamp_bytes e.modified ++ e.object_id))

unfoldable pub child_bytes : ManifestChild → List ℕ
child_bytes c = (c.edge ∷ []) ++ (ref_bytes c.child ++ summary_bytes c.summary)

abbrev pub items_bytes {ℓ} : {A : Type ℓ} → (A → List ℕ) → List A → List ℕ
items_bytes f [] = []
items_bytes f (x ∷ xs) = f x ++ items_bytes f xs

unfoldable pub leaf_bytes : ManifestLeaf → ManifestSummary → List ℕ
leaf_bytes l s =
    to_be_bytes 2 payload_schema
    ++ (blob_bytes l.portable_prefix
        ++ (to_be_bytes 4 (length l.entries)
            ++ (summary_bytes s ++ items_bytes entry_bytes l.entries)))

unfoldable pub node_bytes : ManifestNode → ManifestSummary → List ℕ
node_bytes n s =
    to_be_bytes 2 payload_schema
    ++ (blob_bytes n.portable_prefix
        ++ (to_be_bytes 4 (length n.children)
            ++ (summary_bytes s ++ items_bytes child_bytes n.children)))
