-- ===== src/Manifest/Tree/Stored.antt =====
-- A chunk that was inserted loads again.
use check_po.Prelude.{
  ℕ, ◌≡◌, refl, sym, ap, subst, ◌∙◌, Option, none, some, List, list_eq, list_eq→eq, list_eq_refl,
  Bool-cases, inl, inr, ◌++◌, arith,
}
use check_po.Prelude.Result.{ok, >>=-eq_ok}
use check_po.Prelude.Map.{get, insert, get-insert_same}
use check_po.Codec.{
  ChunkKind, root, node, leaf, Digest32, ManifestRef, ManifestLeaf, ManifestNode, IsArray,
}
use check_po.Codec.Chunk.{encode_leaf, encode_node}
use check_po.Codec.Chunk.Values.{IsLeafValue, IsNodeValue}
use check_po.Codec.Chunk.RoundTrip.{decode_leaf-encode_leaf, decode_node-encode_node}
use check_po.Codec.Identity.{
  node_hash_domain, leaf_hash_domain, manifest_id, new_manifest_ref, verify_manifest_id,
}
use check_po.Manifest.{from_codec}
use check_po.Manifest.Leaf.{a_leaf, a_node, decoded, load_chunk}
use check_po.Manifest.Leaf.Loaded.{from_codec-eq_ok}
use check_po.Manifest.Build.{Chunks, ref_key, insert_at, insert_chunk}
use check_po.Manifest.Tree.{load_manifest_chunk}

-- The bytes stand at the reference.
insert_at-stores :
    (found : Option (List ℕ)) (reference : ManifestRef) (bytes : List ℕ) (chunks : Chunks)
    (out : ManifestRef × Chunks)
    → get (ref_key reference) chunks ≡ found
    → insert_at found reference bytes chunks ≡ ok out
    → (out.0 ≡ reference) × (get (ref_key reference) out.1 ≡ some bytes)
insert_at-stores none reference bytes chunks out f h =
    let same : (reference, insert (ref_key reference) bytes chunks) ≡ out = cc h in
    subst (λ o. (o.0 ≡ reference) × (get (ref_key reference) o.1 ≡ some bytes)) same
      (refl, get-insert_same (ref_key reference) bytes chunks)
insert_at-stores (some existing) reference bytes chunks out f h =
    elim (Bool-cases (list_eq existing bytes)) [
      | inl e ↦
          let same : (reference, chunks) ≡ out = ground arith in
          subst (λ o. (o.0 ≡ reference) × (get (ref_key reference) o.1 ≡ some bytes)) same
            (refl, f ∙ ap some (list_eq→eq existing bytes e))
      | inr e ↦ absurd (ground arith)
    ]

module _ (hash : List ℕ → Digest32) (digest : (bs : List ℕ) → IsArray 32 (hash bs)) where
  -- What the reference of an inserted chunk is.
  abbrev pub Names : ChunkKind → List ℕ → ManifestRef → Type 0
  Names kind bytes reference =
      (reference.kind ≡ kind)
      × IsArray 32 reference.id
      × (verify_manifest_id hash reference bytes ≡ ok tt)

  named :
      (kind : ChunkKind) (bytes id : List ℕ) (reference : ManifestRef)
      → manifest_id hash kind bytes ≡ ok id
      → new_manifest_ref kind id ≡ ok reference
      → Names kind bytes reference
  unfolding manifest_id new_manifest_ref verify_manifest_id
  named root bytes id reference h k = absurd (cc h)
  named node bytes id reference h k =
      let is : hash (node_hash_domain ++ bytes) ≡ id = cc h in
      let e : record { kind = node; id = id } ≡ reference = cc k in
      subst (Names node bytes) e (
        refl,
        subst (IsArray 32) is (digest (node_hash_domain ++ bytes)),
        rw (is, list_eq_refl id) refl,
      )
  named leaf bytes id reference h k =
      let is : hash (leaf_hash_domain ++ bytes) ≡ id = cc h in
      let e : record { kind = leaf; id = id } ≡ reference = cc k in
      subst (Names leaf bytes) e (
        refl,
        subst (IsArray 32) is (digest (leaf_hash_domain ++ bytes)),
        rw (is, list_eq_refl id) refl,
      )

  pub insert_chunk-stores :
      (kind : ChunkKind) (bytes : List ℕ) (chunks : Chunks) (out : ManifestRef × Chunks)
      → insert_chunk hash kind bytes chunks ≡ ok out
      → Names kind bytes out.0 × (get (ref_key out.0) out.1 ≡ some bytes)
  unfolding insert_chunk
  insert_chunk-stores kind bytes chunks out h =
      let (id, e1, h1) = >>=-eq_ok (from_codec (manifest_id hash kind bytes)) _ h in
      let (reference, e2, h2) = >>=-eq_ok (from_codec (new_manifest_ref kind id)) _ h1 in
      let (same, at) = insert_at-stores _ reference bytes chunks out refl h2 in
      let names =
        named kind bytes id reference (from_codec-eq_ok _ id e1)
          (from_codec-eq_ok _ reference e2) in
      (subst (Names kind bytes) (sym same) names, ap (λ r. get (ref_key r) out.1) same ∙ at)

  -- A chunk that stands at its reference loads as what its bytes decode to.
  loaded :
      (kind : ChunkKind) (bytes : List ℕ) (reference : ManifestRef) (chunks : Chunks)
      → Names kind bytes reference
      → get (ref_key reference) chunks ≡ some bytes
      → load_chunk hash (load_manifest_chunk chunks) reference ≡ decoded kind bytes
  unfolding load_chunk
  loaded kind bytes reference chunks (k, id, verifies) at =
      rw (at, verifies) (ap (λ x. decoded x bytes) k)

  pub load_chunk-leaf :
      (l : ManifestLeaf) (bytes : List ℕ) (reference : ManifestRef) (chunks : Chunks)
      → IsLeafValue l
      → encode_leaf l ≡ ok bytes
      → Names leaf bytes reference
      → get (ref_key reference) chunks ≡ some bytes
      → load_chunk hash (load_manifest_chunk chunks) reference ≡ ok (a_leaf l bytes)
  load_chunk-leaf l bytes reference chunks v e names at =
      loaded leaf bytes reference chunks names at ∙ rw (decode_leaf-encode_leaf l bytes v e) refl

  pub load_chunk-node :
      (n : ManifestNode) (bytes : List ℕ) (reference : ManifestRef) (chunks : Chunks)
      → IsNodeValue n
      → encode_node n ≡ ok bytes
      → Names node bytes reference
      → get (ref_key reference) chunks ≡ some bytes
      → load_chunk hash (load_manifest_chunk chunks) reference ≡ ok (a_node n bytes)
  load_chunk-node n bytes reference chunks v e names at =
      loaded node bytes reference chunks names at ∙ rw (decode_node-encode_node n bytes v e) refl
