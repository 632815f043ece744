-- ===== src/Codec/Tests.antt =====
-- The theorems on chunks at concrete chunks.
use check_po.Prelude.{◌≡◌, refl, ◌⊎◌}
use check_po.Prelude.Result.{ok}
use check_po.Codec.Reader.Values.{IsRoot, IsLeaf, IsNode}
use check_po.Codec.Chunk.{
  encode_root, decode_root, encode_leaf, decode_leaf, encode_node, decode_node,
}
use check_po.Codec.Identity.Separate.{Collision, verify_manifest_id-one_chunk}
use check_po.Codec.Chunk.RoundTrip.{
  decode_root-encode_root, decode_leaf-encode_leaf, decode_node-encode_node,
}
use check_po.Codec.Chunk.Canonical.{
  encode_root-decode_root, encode_leaf-decode_leaf, encode_node-decode_node,
}
use check_po.Codec.Chunk.Sizes.{encode_root-IsRoot_fits}
use check_po.Codec.Samples.{
  sample_root, sample_root-IsRootValue, sample_root-IsRoot, sample_root-IsCoherent,
  sample_root_stored, sample_root_stored-IsByte, sample_root_decodes, sample_leaf,
  sample_leaf_stored, sample_leaf-IsLeafValue, sample_leaf_stored-IsByte, sample_leaf_encodes,
  sample_leaf_decodes, sample_node, sample_node_stored, sample_node-IsNodeValue,
  sample_node_stored-IsByte, sample_node_encodes, sample_node_decodes, last_bytes, stored_ref,
  sample_leaf_verifies,
}

encode_root-IsRoot_fits_example : encode_root sample_root ≡ ok sample_root_stored
encode_root-IsRoot_fits_example =
    encode_root-IsRoot_fits sample_root sample_root-IsRoot sample_root-IsCoherent

decode_root-encode_root_example : decode_root sample_root_stored ≡ ok sample_root
decode_root-encode_root_example =
    decode_root-encode_root sample_root sample_root_stored sample_root-IsRootValue
      (encode_root-IsRoot_fits sample_root sample_root-IsRoot sample_root-IsCoherent)

encode_root-decode_root_example :
    (encode_root sample_root ≡ ok sample_root_stored) × IsRoot sample_root
encode_root-decode_root_example =
    encode_root-decode_root sample_root_stored sample_root sample_root_stored-IsByte
      sample_root_decodes

decode_leaf-encode_leaf_example : decode_leaf sample_leaf_stored ≡ ok sample_leaf
decode_leaf-encode_leaf_example =
    decode_leaf-encode_leaf sample_leaf sample_leaf_stored sample_leaf-IsLeafValue
      sample_leaf_encodes

encode_leaf-decode_leaf_example :
    (encode_leaf sample_leaf ≡ ok sample_leaf_stored) × IsLeaf sample_leaf
encode_leaf-decode_leaf_example =
    encode_leaf-decode_leaf sample_leaf_stored sample_leaf sample_leaf_stored-IsByte
      sample_leaf_decodes

decode_node-encode_node_example : decode_node sample_node_stored ≡ ok sample_node
decode_node-encode_node_example =
    decode_node-encode_node sample_node sample_node_stored sample_node-IsNodeValue
      sample_node_encodes

encode_node-decode_node_example :
    (encode_node sample_node ≡ ok sample_node_stored) × IsNode sample_node
encode_node-decode_node_example =
    encode_node-decode_node sample_node_stored sample_node sample_node_stored-IsByte
      sample_node_decodes

verify_manifest_id-one_chunk_example :
    ((stored_ref ≡ stored_ref) × (sample_leaf_stored ≡ sample_leaf_stored)) ⊎ Collision last_bytes
verify_manifest_id-one_chunk_example =
    verify_manifest_id-one_chunk last_bytes stored_ref stored_ref sample_leaf_stored
      sample_leaf_stored refl sample_leaf_verifies sample_leaf_verifies
