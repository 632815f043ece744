-- ===== src/Codec/Pair.antt =====
-- Two leaves of one entry each and the node above them, with their stored bytes.
use check_po.Prelude.{ℕ, ◌≤◌, ◌≡◌, ◌++◌, refl, List, [], ◌∷◌, All, arith, length}
use check_po.Prelude.Result.{ok}
use check_po.Prelude.Bytes.{IsByte, to_be_bytes, le_bytes, length-to_be_bytes, to_be_bytes-IsByte}
use check_po.Prelude.Decided.{bytes_decided, IsText-decided}
use check_po.Prelude.Int.{i64_word}
use check_po.Prelude.Text.{codes}
use check_po.Prelude.Text.Utf8.{IsText, as_bytes, encode_char}
use check_po.Codec.{
  Digest32, IsArray, leaf, node, ManifestSummary, ManifestLeaf, ManifestChild, ManifestNode,
  max_prefix_bytes, max_exact_path_bytes, maximum_stored_len, checked_add, leaf_entry_summary,
  add_entries, leaf_summary, add_children, node_summary,
}
use check_po.Codec.Layout.{leaf_bytes, entry_bytes, node_bytes, child_bytes}
use check_po.Codec.Reader.Values.{IsLeaf, IsNode}
use check_po.Codec.Chunk.{encode_leaf, decode_leaf, encode_node, decode_node}
use check_po.Codec.Chunk.RoundTrip.{decode_leaf-encode_leaf, decode_node-encode_node}
use check_po.Codec.Chunk.Values.{IsLeafValue}
use check_po.Codec.Chunk.Envelope.{framed}
use check_po.Codec.Chunk.Canonical.{encode_leaf-IsLeaf-Fits, encode_node-IsNode-Fits}
use check_po.Codec.Identity.{leaf_hash_domain}
use check_po.Codec.Samples.{sample_entry, sample_digest-IsArray}

-- Thirty-two bytes that hold the length.
abbrev pub length_hash : List ℕ → Digest32
length_hash bs = to_be_bytes 32 (length bs)

pub length_hash-IsArray : (bs : List ℕ) → IsArray 32 (length_hash bs)
length_hash-IsArray bs = (length-to_be_bytes 32 (length bs), to_be_bytes-IsByte 32 (length bs))

abbrev pub single_leaf : List ℕ → List ℕ → ManifestLeaf
single_leaf prefix path = record { portable_prefix = prefix; entries = sample_entry path ∷ [] }

single_leaf-IsLeaf :
    (prefix path : List ℕ)
    → All IsByte prefix
    → length prefix ≤ max_prefix_bytes
    → IsText path
    → length (as_bytes path) ≤ max_exact_path_bytes
    → IsLeaf (single_leaf prefix path)
single_leaf-IsLeaf prefix path bytes short text fits = record {
  prefix = bytes;
  prefix_fits = short;
  entries = (
    record {
      path = text;
      path_fits = fits;
      size = omega arith;
      modified = (omega arith, omega arith);
      object = sample_digest-IsArray;
    },
    tt,
  );
  entries_fit = omega arith;
}

abbrev pub path_summary : ℕ → ManifestSummary
path_summary bytes = record {
  entry_count = 1;
  logical_size_bytes = 150;
  total_exact_path_bytes = bytes;
}

abbrev pub a_stored : List ℕ
a_stored =
    framed leaf
      (leaf_bytes (single_leaf (codes "assets/a.cs") (codes "Assets/a.cs")) (path_summary 11))

abbrev pub b_stored : List ℕ
b_stored =
    framed leaf
      (leaf_bytes (single_leaf (codes "assets/bb.cs") (codes "Assets/bb.cs")) (path_summary 12))

a_summary :
    leaf_summary (single_leaf (codes "assets/a.cs") (codes "Assets/a.cs")) ≡ ok (path_summary 11)
unfolding leaf_summary add_entries leaf_entry_summary checked_add as_bytes encode_char
a_summary = refl

b_summary :
    leaf_summary (single_leaf (codes "assets/bb.cs") (codes "Assets/bb.cs")) ≡ ok (path_summary 12)
unfolding leaf_summary add_entries leaf_entry_summary checked_add as_bytes encode_char
b_summary = refl

pub a_encodes : encode_leaf (single_leaf (codes "assets/a.cs") (codes "Assets/a.cs")) ≡ ok a_stored
unfolding leaf_bytes entry_bytes to_be_bytes le_bytes as_bytes encode_char i64_word
    maximum_stored_len
a_encodes =
    encode_leaf-IsLeaf-Fits (single_leaf (codes "assets/a.cs") (codes "Assets/a.cs"))
      (path_summary 11)
      (single_leaf-IsLeaf (codes "assets/a.cs") (codes "Assets/a.cs")
        (bytes_decided (codes "assets/a.cs") refl) (omega arith)
        (IsText-decided (codes "Assets/a.cs") refl) (omega arith))
      a_summary (omega arith)

single_leaf-IsLeafValue :
    (prefix path : List ℕ) → All IsByte prefix → IsText path → IsLeafValue (single_leaf prefix path)
single_leaf-IsLeafValue prefix path bytes text = record {
  prefix = bytes;
  entries = (
    record {
      path = text;
      size = omega arith;
      modified = (omega arith, omega arith);
      object = sample_digest-IsArray;
    },
    tt,
  );
}

pub a_decodes : decode_leaf a_stored ≡ ok (single_leaf (codes "assets/a.cs") (codes "Assets/a.cs"))
a_decodes =
    decode_leaf-encode_leaf (single_leaf (codes "assets/a.cs") (codes "Assets/a.cs")) a_stored
      (single_leaf-IsLeafValue (codes "assets/a.cs") (codes "Assets/a.cs")
        (bytes_decided (codes "assets/a.cs") refl) (IsText-decided (codes "Assets/a.cs") refl))
      a_encodes

pub b_encodes :
    encode_leaf (single_leaf (codes "assets/bb.cs") (codes "Assets/bb.cs")) ≡ ok b_stored
unfolding leaf_bytes entry_bytes to_be_bytes le_bytes as_bytes encode_char i64_word
    maximum_stored_len
b_encodes =
    encode_leaf-IsLeaf-Fits (single_leaf (codes "assets/bb.cs") (codes "Assets/bb.cs"))
      (path_summary 12)
      (single_leaf-IsLeaf (codes "assets/bb.cs") (codes "Assets/bb.cs")
        (bytes_decided (codes "assets/bb.cs") refl) (omega arith)
        (IsText-decided (codes "Assets/bb.cs") refl) (omega arith))
      b_summary (omega arith)

pub b_decodes :
    decode_leaf b_stored ≡ ok (single_leaf (codes "assets/bb.cs") (codes "Assets/bb.cs"))
b_decodes =
    decode_leaf-encode_leaf (single_leaf (codes "assets/bb.cs") (codes "Assets/bb.cs")) b_stored
      (single_leaf-IsLeafValue (codes "assets/bb.cs") (codes "Assets/bb.cs")
        (bytes_decided (codes "assets/bb.cs") refl) (IsText-decided (codes "Assets/bb.cs") refl))
      b_encodes

abbrev pub leaf_child : ℕ → List ℕ → ℕ → ManifestChild
leaf_child edge stored bytes = record {
  edge = edge;
  child = record { kind = leaf; id = length_hash (leaf_hash_domain ++ stored) };
  summary = path_summary bytes;
}

abbrev pub pair_node : ManifestNode
pair_node = record {
  portable_prefix = codes "assets/";
  children = leaf_child 97 a_stored 11 ∷ leaf_child 98 b_stored 12 ∷ [];
}

abbrev pub pair_summary : ManifestSummary
pair_summary = record { entry_count = 2; logical_size_bytes = 300; total_exact_path_bytes = 23 }

abbrev pub pair_stored : List ℕ
pair_stored = framed node (node_bytes pair_node pair_summary)

pair_node-IsNode : IsNode pair_node
pair_node-IsNode = record {
  prefix = bytes_decided (codes "assets/") refl;
  prefix_fits = omega arith;
  children = (
    record {
      edge = omega arith;
      child = (λ e. absurd (cc e), length_hash-IsArray (leaf_hash_domain ++ a_stored));
      summary = (omega arith, omega arith, omega arith);
    },
    (
      record {
        edge = omega arith;
        child = (λ e. absurd (cc e), length_hash-IsArray (leaf_hash_domain ++ b_stored));
        summary = (omega arith, omega arith, omega arith);
      },
      tt,
    ),
  );
  children_fit = omega arith;
}

pair_total : node_summary pair_node ≡ ok pair_summary
unfolding node_summary add_children checked_add
pair_total = refl

pub pair_encodes : encode_node pair_node ≡ ok pair_stored
unfolding node_bytes child_bytes to_be_bytes le_bytes maximum_stored_len
pair_encodes =
    encode_node-IsNode-Fits pair_node pair_summary pair_node-IsNode pair_total (omega arith)

pub pair_decodes : decode_node pair_stored ≡ ok pair_node
pair_decodes =
    decode_node-encode_node pair_node pair_stored
      (record {
        prefix = bytes_decided (codes "assets/") refl;
        children = (
          record {
            edge = omega arith;
            child = length_hash-IsArray (leaf_hash_domain ++ a_stored);
            summary = (omega arith, omega arith, omega arith);
          },
          (
            record {
              edge = omega arith;
              child = length_hash-IsArray (leaf_hash_domain ++ b_stored);
              summary = (omega arith, omega arith, omega arith);
            },
            tt,
          ),
        );
      })
      pair_encodes
