-- ===== src/Codec/Identity.antt =====
-- The identifiers of stored chunks: `root_id`, `manifest_id` and their checks in merkle_codec.rs.
-- The hash function is blake3's, of all that the hasher was given.
pub mod Separate
use check_po.Prelude.{ℕ, not, Bool, List, [], ◌∷◌, ◌++◌, list_eq, if◌then◌else◌}
use check_po.Prelude.Result.{ok, err, ◌>>=◌}
use check_po.Prelude.Text.{codes}
use check_po.Codec.{
  CodecResult, invalid, root_digest_mismatch, manifest_digest_mismatch, root_as_manifest,
  reference_to_root, Digest32, ChunkKind, root, node, leaf, kind_byte, ManifestRef,
}

abbrev pub root_hash_domain : List ℕ
root_hash_domain = codes "checkpo.snapshot-root.v2" ++ (0 ∷ [])

abbrev pub node_hash_domain : List ℕ
node_hash_domain = codes "checkpo.manifest-node.v2" ++ (0 ∷ [])

abbrev pub leaf_hash_domain : List ℕ
leaf_hash_domain = codes "checkpo.manifest-leaf.v2" ++ (0 ∷ [])

-- `ManifestRef::new`
unfoldable pub new_manifest_ref : ChunkKind → Digest32 → CodecResult ManifestRef
new_manifest_ref root id = err (invalid reference_to_root)
new_manifest_ref node id = ok (record { kind = node; id = id })
new_manifest_ref leaf id = ok (record { kind = leaf; id = id })

module _ (hash : List ℕ → Digest32) where
  unfoldable pub domain_hash : List ℕ → List ℕ → Digest32
  domain_hash domain bytes = hash (domain ++ bytes)

  unfoldable pub root_id : List ℕ → Digest32
  unfolding domain_hash
  root_id stored_bytes = domain_hash root_hash_domain stored_bytes

  unfoldable pub verify_root_id : Digest32 → List ℕ → CodecResult (Unit {0})
  unfolding root_id
  verify_root_id expected stored_bytes =
      if not (list_eq (root_id stored_bytes) expected)
      then err (invalid (root_digest_mismatch expected (root_id stored_bytes)))
      else ok tt

  unfoldable pub manifest_id : ChunkKind → List ℕ → CodecResult Digest32
  unfolding domain_hash
  manifest_id node stored_bytes = ok (domain_hash node_hash_domain stored_bytes)
  manifest_id leaf stored_bytes = ok (domain_hash leaf_hash_domain stored_bytes)
  manifest_id root stored_bytes = err (invalid root_as_manifest)

  unfoldable pub verify_manifest_id : ManifestRef → List ℕ → CodecResult (Unit {0})
  unfolding manifest_id
  verify_manifest_id reference stored_bytes = manifest_id reference.kind stored_bytes >>= λ actual.
      if not (list_eq actual reference.id)
      then err (invalid (manifest_digest_mismatch (kind_byte reference.kind) reference.id actual))
      else ok tt
