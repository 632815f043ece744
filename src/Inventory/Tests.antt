-- ===== src/Inventory/Tests.antt =====
-- An inventory that starts empty, and a snapshot that is added to it.
use check_po.Prelude.{ℕ, ◌≡◌, refl, true, some, List, [], ◌∷◌, arith, All}
use check_po.Prelude.Result.{ok}
use check_po.Prelude.Bytes.{IsByte, to_be_bytes, le_bytes}
use check_po.Prelude.Decided.{bytes_decided}
use check_po.Prelude.Slices.{joined}
use check_po.Codec.Samples.{sixteen, sample_digest, sample_digest-IsArray}
use check_po.Inventory.{
  add, InventoryState, SetLeaf, encode_state, decode_state, encode_set_leaf, decode_set_leaf,
  concat, ascending, valid_shape,
}
use check_po.Inventory.State.{IsStateValue, decode_state-encode_state}
use check_po.Inventory.State.Canonical.{encode_state-decode_state}
use check_po.Inventory.Leaf.{IsSetLeafValue, decode_set_leaf-encode_set_leaf}

abbrev sample_state : InventoryState
sample_state = record {
  project_id = sixteen;
  generation = 7;
  count = 3;
  operation = add;
  parent = some sample_digest;
  snapshot_id = some sample_digest;
  operation_id = sample_digest;
  set_root = sample_digest;
}

sample_state-IsStateValue : IsStateValue sample_state
sample_state-IsStateValue = record {
  project_id = (refl, bytes_decided sixteen refl);
  generation = omega arith;
  count = omega arith;
  parent = sample_digest-IsArray;
  snapshot_id = sample_digest-IsArray;
  operation_id = sample_digest-IsArray;
  set_root = sample_digest-IsArray;
}

decode_state-encode_state_example : decode_state (encode_state sample_state) ≡ ok sample_state
decode_state-encode_state_example =
    decode_state-encode_state sample_state sample_state-IsStateValue refl

encoded-IsByte : All IsByte (encode_state sample_state)
unfolding encode_state to_be_bytes le_bytes
encoded-IsByte = bytes_decided (encode_state sample_state) refl

encode_state-decode_state_example :
    IsStateValue sample_state
    × (valid_shape sample_state add ≡ true)
    × (encode_state sample_state ≡ encode_state sample_state)
encode_state-decode_state_example =
    encode_state-decode_state (encode_state sample_state) encoded-IsByte sample_state
      decode_state-encode_state_example

abbrev one_leaf : SetLeaf
one_leaf = record { project_id = sixteen; prefix = 1; ids = sample_digest ∷ [] }

abbrev leaf_stored : List ℕ
leaf_stored = joined (
    (67 ∷ 72 ∷ 75 ∷ 80 ∷ 73 ∷ 78 ∷ 76 ∷ 50 ∷ [])
    ∷ to_be_bytes 4 2
    ∷ sixteen
    ∷ (1 ∷ [])
    ∷ to_be_bytes 4 1
    ∷ concat (sample_digest ∷ [])
    ∷ [])

leaf_encodes : encode_set_leaf one_leaf ≡ ok leaf_stored
unfolding encode_set_leaf ascending
leaf_encodes = refl

one_leaf-IsSetLeafValue : IsSetLeafValue one_leaf
one_leaf-IsSetLeafValue = record {
  project_id = (refl, bytes_decided sixteen refl);
  prefix = omega arith;
  ids = (sample_digest-IsArray, tt);
}

decode_set_leaf-encode_set_leaf_example : decode_set_leaf leaf_stored ≡ ok one_leaf
decode_set_leaf-encode_set_leaf_example =
    decode_set_leaf-encode_set_leaf one_leaf leaf_stored one_leaf-IsSetLeafValue leaf_encodes
