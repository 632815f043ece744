-- ===== src/Codec/Samples.antt =====
-- Concrete chunks.
use check_po.Prelude.{
  ℕ, ◌≡◌, refl, arith, some, ◌-◌, List, [], ◌∷◌, ◌++◌, All, length, drop, list_eq,
}
use check_po.Prelude.Result.{ok}
use check_po.Prelude.Bytes.{IsByte, to_be_bytes, le_bytes}
use check_po.Prelude.Decided.{bytes_decided, IsText-decided}
use check_po.Prelude.Int.{pos, negsuc, i64_word}
use check_po.Prelude.Text.{codes, trim, trim_start, is_whitespace}
use check_po.Prelude.Text.Utf8.{as_bytes, encode_char}
use check_po.Codec.{
  root, node, leaf, Digest32, IsArray, ManifestRef, ManifestSummary, SnapshotRoot, LeafEntry,
  ManifestLeaf, ManifestChild, ManifestNode, leaf_summary, node_summary, add_entries,
  leaf_entry_summary, add_children, checked_add, maximum_stored_len,
}
use check_po.Codec.Layout.{root_bytes, leaf_bytes, node_bytes, entry_bytes, child_bytes}
use check_po.Codec.Reader.Values.{IsRoot, IsLeaf, IsNode}
use check_po.Codec.Chunk.{
  decode_envelope, decode_root, encode_leaf, decode_leaf, encode_node, decode_node,
}
use check_po.Codec.Chunk.Values.{IsRootValue, IsLeafValue, IsNodeValue}
use check_po.Codec.Chunk.Envelope.{framed, decode_envelope-framed}
use check_po.Codec.Identity.{domain_hash, root_id, verify_root_id, manifest_id, verify_manifest_id}
use check_po.Codec.Chunk.RoundTrip.{
  decode_root-encode_root, decode_leaf-encode_leaf, decode_node-encode_node,
}
use check_po.Codec.Chunk.Canonical.{encode_leaf-IsLeaf-Fits, encode_node-IsNode-Fits}
use check_po.Codec.Chunk.Sizes.{IsCoherent, encode_root-IsRoot_fits}

abbrev pub sixteen : List ℕ
sixteen = 1 ∷ 2 ∷ 3 ∷ 4 ∷ 5 ∷ 6 ∷ 7 ∷ 8 ∷ 9 ∷ 10 ∷ 11 ∷ 12 ∷ 13 ∷ 14 ∷ 15 ∷ 255 ∷ []

abbrev pub sample_digest : Digest32
sample_digest = sixteen ++ sixteen

pub sample_digest-IsArray : IsArray 32 sample_digest
sample_digest-IsArray = (refl, bytes_decided sample_digest refl)

abbrev pub sample_root : SnapshotRoot
sample_root = record {
  project_id = sixteen;
  parent = some sample_digest;
  created = record { unix_seconds = negsuc 4; nanoseconds = 999_999_999 };
  checkpoint_name = codes "avant é";
  tool_version = codes "1.2";
  manifest = some (record { kind = leaf; id = sample_digest });
  summary = record { entry_count = 2; logical_size_bytes = 300; total_exact_path_bytes = 24 };
}

pub sample_root-IsRootValue : IsRootValue sample_root
sample_root-IsRootValue = record {
  project = (refl, bytes_decided sixteen refl);
  parent = sample_digest-IsArray;
  created = (omega arith, omega arith);
  name = IsText-decided (codes "avant é") refl;
  tool = IsText-decided (codes "1.2") refl;
  manifest = sample_digest-IsArray;
  summary = (omega arith, omega arith, omega arith);
}

pub sample_root-IsRoot : IsRoot sample_root
unfolding as_bytes encode_char
sample_root-IsRoot = record {
  project = (refl, bytes_decided sixteen refl);
  parent = sample_digest-IsArray;
  created = (omega arith, omega arith);
  name = IsText-decided (codes "avant é") refl;
  name_fits = omega arith;
  tool = IsText-decided (codes "1.2") refl;
  tool_fits = omega arith;
  manifest = (λ e. absurd (cc e), sample_digest-IsArray);
  summary = (omega arith, omega arith, omega arith);
}

pub sample_root-IsCoherent : IsCoherent sample_root
unfolding trim trim_start is_whitespace
sample_root-IsCoherent = record { trimmed = refl; named = refl; empty = refl }

abbrev pub sample_root_stored : List ℕ
sample_root_stored = framed root (root_bytes sample_root)

pub sample_root_stored-IsByte : All IsByte sample_root_stored
unfolding root_bytes to_be_bytes le_bytes as_bytes encode_char i64_word
sample_root_stored-IsByte = bytes_decided sample_root_stored refl

pub sample_root_decodes : decode_root sample_root_stored ≡ ok sample_root
sample_root_decodes =
    decode_root-encode_root sample_root sample_root_stored sample_root-IsRootValue
      (encode_root-IsRoot_fits sample_root sample_root-IsRoot sample_root-IsCoherent)

abbrev pub sample_entry : List ℕ → LeafEntry
sample_entry path = record {
  exact_path = path;
  size_bytes = 150;
  modified = record { unix_seconds = pos 1_700_000_000; nanoseconds = 5 };
  object_id = sample_digest;
}

abbrev pub sample_leaf : ManifestLeaf
sample_leaf = record {
  portable_prefix = codes "assets/";
  entries = sample_entry (codes "Assets/a.cs") ∷ sample_entry (codes "Assets/bé.cs") ∷ [];
}

abbrev pub sample_summary : ManifestSummary
sample_summary = record { entry_count = 2; logical_size_bytes = 300; total_exact_path_bytes = 24 }

abbrev pub sample_leaf_stored : List ℕ
sample_leaf_stored = framed leaf (leaf_bytes sample_leaf sample_summary)

pub sample_leaf-IsLeafValue : IsLeafValue sample_leaf
sample_leaf-IsLeafValue = record {
  prefix = bytes_decided (codes "assets/") refl;
  entries = (
    record {
      path = IsText-decided (codes "Assets/a.cs") refl;
      size = omega arith;
      modified = (omega arith, omega arith);
      object = sample_digest-IsArray;
    },
    (
      record {
        path = IsText-decided (codes "Assets/bé.cs") refl;
        size = omega arith;
        modified = (omega arith, omega arith);
        object = sample_digest-IsArray;
      },
      tt,
    ),
  );
}

pub sample_leaf-IsLeaf : IsLeaf sample_leaf
unfolding as_bytes encode_char
sample_leaf-IsLeaf = record {
  prefix = bytes_decided (codes "assets/") refl;
  prefix_fits = omega arith;
  entries = (
    record {
      path = IsText-decided (codes "Assets/a.cs") refl;
      path_fits = omega arith;
      size = omega arith;
      modified = (omega arith, omega arith);
      object = sample_digest-IsArray;
    },
    (
      record {
        path = IsText-decided (codes "Assets/bé.cs") refl;
        path_fits = omega arith;
        size = omega arith;
        modified = (omega arith, omega arith);
        object = sample_digest-IsArray;
      },
      tt,
    ),
  );
  entries_fit = omega arith;
}

pub sample_leaf_summary : leaf_summary sample_leaf ≡ ok sample_summary
unfolding leaf_summary add_entries leaf_entry_summary checked_add as_bytes encode_char
sample_leaf_summary = refl

pub sample_leaf_stored-IsByte : All IsByte sample_leaf_stored
unfolding leaf_bytes entry_bytes to_be_bytes le_bytes as_bytes encode_char i64_word
sample_leaf_stored-IsByte = bytes_decided sample_leaf_stored refl

pub sample_leaf_encodes : encode_leaf sample_leaf ≡ ok sample_leaf_stored
unfolding leaf_bytes entry_bytes to_be_bytes le_bytes as_bytes encode_char i64_word
    maximum_stored_len
sample_leaf_encodes =
    encode_leaf-IsLeaf-Fits sample_leaf sample_summary sample_leaf-IsLeaf sample_leaf_summary
      (omega arith)

pub sample_leaf_decodes : decode_leaf sample_leaf_stored ≡ ok sample_leaf
sample_leaf_decodes =
    decode_leaf-encode_leaf sample_leaf sample_leaf_stored sample_leaf-IsLeafValue
      sample_leaf_encodes

abbrev pub sample_child : ℕ → ManifestChild
sample_child edge = record {
  edge = edge;
  child = record { kind = leaf; id = sample_digest };
  summary = sample_summary;
}

abbrev pub sample_node : ManifestNode
sample_node = record {
  portable_prefix = codes "assets/";
  children = sample_child 97 ∷ sample_child 98 ∷ [];
}

abbrev pub sample_node_summary : ManifestSummary
sample_node_summary = record {
  entry_count = 4;
  logical_size_bytes = 600;
  total_exact_path_bytes = 48;
}

abbrev pub sample_node_stored : List ℕ
sample_node_stored = framed node (node_bytes sample_node sample_node_summary)

pub sample_node-IsNodeValue : IsNodeValue sample_node
sample_node-IsNodeValue = record {
  prefix = bytes_decided (codes "assets/") refl;
  children = (
    record {
      edge = omega arith;
      child = sample_digest-IsArray;
      summary = (omega arith, omega arith, omega arith);
    },
    (
      record {
        edge = omega arith;
        child = sample_digest-IsArray;
        summary = (omega arith, omega arith, omega arith);
      },
      tt,
    ),
  );
}

pub sample_node-IsNode : IsNode sample_node
sample_node-IsNode = record {
  prefix = bytes_decided (codes "assets/") refl;
  prefix_fits = omega arith;
  children = (
    record {
      edge = omega arith;
      child = (λ e. absurd (cc e), sample_digest-IsArray);
      summary = (omega arith, omega arith, omega arith);
    },
    (
      record {
        edge = omega arith;
        child = (λ e. absurd (cc e), sample_digest-IsArray);
        summary = (omega arith, omega arith, omega arith);
      },
      tt,
    ),
  );
  children_fit = omega arith;
}

pub sample_node_total : node_summary sample_node ≡ ok sample_node_summary
unfolding node_summary add_children checked_add
sample_node_total = refl

pub sample_node_stored-IsByte : All IsByte sample_node_stored
unfolding node_bytes child_bytes to_be_bytes le_bytes
sample_node_stored-IsByte = bytes_decided sample_node_stored refl

pub sample_node_encodes : encode_node sample_node ≡ ok sample_node_stored
unfolding node_bytes child_bytes to_be_bytes le_bytes maximum_stored_len
sample_node_encodes =
    encode_node-IsNode-Fits sample_node sample_node_summary sample_node-IsNode sample_node_total
      (omega arith)

pub sample_node_decodes : decode_node sample_node_stored ≡ ok sample_node
sample_node_decodes =
    decode_node-encode_node sample_node sample_node_stored sample_node-IsNodeValue
      sample_node_encodes

-- A hash function of 32 bytes: the last of them.
abbrev pub last_bytes : List ℕ → Digest32
last_bytes bs = drop (length bs - 32) bs

abbrev pub stored_ref : ManifestRef
stored_ref = record { kind = leaf; id = last_bytes sample_leaf_stored }

pub sample_leaf_verifies : verify_manifest_id last_bytes stored_ref sample_leaf_stored ≡ ok tt
unfolding verify_manifest_id manifest_id domain_hash leaf_bytes entry_bytes to_be_bytes le_bytes
    as_bytes encode_char i64_word list_eq
sample_leaf_verifies = refl

pub sample_leaf_as_root : verify_root_id last_bytes stored_ref.id sample_leaf_stored ≡ ok tt
unfolding verify_root_id root_id domain_hash leaf_bytes entry_bytes to_be_bytes le_bytes as_bytes
    encode_char i64_word list_eq
sample_leaf_as_root = refl

pub sample_root_opens : decode_envelope sample_root_stored root ≡ ok (root_bytes sample_root)
unfolding root_bytes to_be_bytes le_bytes as_bytes encode_char i64_word maximum_stored_len
sample_root_opens = decode_envelope-framed root (root_bytes sample_root) (omega arith)
