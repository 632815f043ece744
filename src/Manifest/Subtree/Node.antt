-- ===== src/Manifest/Subtree/Node.antt =====
-- A node that passes holds the entries of its children.
use check_po.Prelude.{
  ℕ, zero, suc, ◌≤◌, ◌<◌, ◌≡◌, refl, sym, ap, subst, ◌∙◌, Bool, true, false, not, none, some, List,
  [], ◌∷◌, arith, length, length-take, take, ltb, leb, list_eq, list_eq→eq, All,
}
use check_po.Prelude.Result.{ok, err, ◌>>=◌, reject_if, >>=-eq_ok, reject_if-eq_ok}
use check_po.Codec.{Digest32, ManifestRef, ManifestNode}
use check_po.Codec.Chunk.{encode_node}
use check_po.Manifest.{
  SnapshotV2Result, KeyedEntry, invalid, from_codec, common_prefix_len, leaf_encoded_len,
  noncanonical_node, few_children, prefix_not_descendant_lcp, node_fits_leaf,
}
use check_po.Manifest.Keys.{IsLadder}
use check_po.Manifest.Leaf.{
  manifest_leaf_target_bytes, a_node, load_chunk, ValidationInfo, last_key_of,
}
use check_po.Manifest.Sums.{total}
use check_po.Manifest.Build.{leaf_entries}
use check_po.Manifest.Tree.{descend, in_chunk}
use check_po.Manifest.Tree.Sorted.{find_key}
use check_po.Manifest.Tree.Search.{HasKey}
use check_po.Manifest.Tree.Below.{in_chunk-node}
use check_po.Manifest.Tree.Ranges.{prefix_len_fits, shared_prefix}
use check_po.Manifest.Subtree.{Gathered, check_edges, check_node, node_info, expect_keys}
use check_po.Manifest.Subtree.Walk.{
  check_edges-Ascending, walk_chunk, walk, Parted, Parted-walks, Parted-finds,
}
use check_po.Manifest.Subtree.Children.{Answers, Gathers}

pub not-eq_false : (b : Bool) → not b ≡ false → b ≡ true
not-eq_false true h = refl
not-eq_false false h = absurd (cc h)

module _ (nfc : List ℕ → List ℕ) (to_lowercase : ℕ → ℕ × ℕ) (hash : List ℕ → Digest32)
    (source : ManifestRef → SnapshotV2Result (List ℕ)) where
  pub check_node-edges :
      (n : ManifestNode) (stored : List ℕ)
      → check_node n stored ≡ ok tt
      → check_edges n.children ≡ ok tt
  unfolding check_node
  check_node-edges n stored h =
      let (encoded, e, h1) = >>=-eq_ok (from_codec (encode_node n)) _ h in
      let (u, same, h2) =
        >>=-eq_ok (reject_if (not (list_eq encoded stored)) (invalid noncanonical_node)) _ h1 in
      let (u', two, h3) =
        >>=-eq_ok (reject_if (ltb (length n.children) 2) (invalid few_children)) _ h2 in
      h3

  -- A node whose keys share its prefix.
  node_Tree :
      (depths : ℕ) (reference : ManifestRef) (n : ManifestNode) (stored : List ℕ) (all : Gathered)
      (x : KeyedEntry) (rest : List KeyedEntry) (info : ValidationInfo)
      → load_chunk hash source reference ≡ ok (a_node n stored)
      → check_edges n.children ≡ ok tt
      → IsLadder (x ∷ rest)
      → total (x ∷ rest) ≡ all.summary
      → All (HasKey nfc to_lowercase) (x ∷ rest)
      → all.maximum_relative_depth ≤ depths
      → Parted nfc to_lowercase hash source
          (length n.portable_prefix)
          all.maximum_relative_depth
          n.children
          (x ∷ rest)
      → node_info n.portable_prefix all x.key (last_key_of (x ∷ rest)) ≡ ok info
      → Answers nfc to_lowercase hash source (suc depths) reference (ok info)
  unfolding walk descend
  node_Tree depths reference n stored all x rest info loads edges ladder sums keys deep parted h =
      let lcp = common_prefix_len x.key (last_key_of (x ∷ rest)) in
      let (u, prefix, h1) =
        >>=-eq_ok
          (reject_if (not (list_eq n.portable_prefix (take lcp x.key)))
            (invalid prefix_not_descendant_lcp))
          _ h in
      let (encoded, e, h2) = >>=-eq_ok (leaf_encoded_len n.portable_prefix all.summary) _ h1 in
      let (u', big, h3) =
        >>=-eq_ok (reject_if (leb encoded manifest_leaf_target_bytes) (invalid node_fits_leaf)) _
          h2 in
      let form : record {
        summary = all.summary;
        first_key = x.key;
        last_key = last_key_of (x ∷ rest);
        maximum_relative_depth = all.maximum_relative_depth;
      }
          ≡ info =
        cc h3 in
      let same : n.portable_prefix ≡ take lcp x.key =
        list_eq→eq n.portable_prefix (take lcp x.key)
          (not-eq_false _ (reject_if-eq_ok _ _ prefix)) in
      let len : length n.portable_prefix ≡ lcp =
        ap length same ∙ length-take lcp x.key (prefix_len_fits x.key (last_key_of (x ∷ rest))) in
      let shared = shared_prefix x rest ladder in
      let shares : All (λ e. take (length n.portable_prefix) e.key ≡ n.portable_prefix) (x ∷ rest) =
        subst (λ m. All (λ e. take m e.key ≡ n.portable_prefix) (x ∷ rest)) (sym len)
          (subst (λ p. All (λ e. take lcp e.key ≡ p) (x ∷ rest)) (sym same) shared) in
      let low : All
          (λ e. take (length n.portable_prefix) e.key ≡ take (length n.portable_prefix) x.key)
          (x ∷ rest) =
        subst (λ m. All (λ e. take m e.key ≡ take m x.key) (x ∷ rest)) (sym len) shared in
      subst (λ i. Answers nfc to_lowercase hash source (suc depths) reference (ok i)) form
        (
          x ∷ rest,
          record {
            filled = omega arith;
            ladder = ladder;
            keys = keys;
            first = refl;
            last = refl;
            summed = sums;
            walks = walks;
            finds = λ key ds d. finds shares low key ds d;
          },
          omega (arith, deep),
        )
    where
      walks :
          (ds : ℕ)
          → all.maximum_relative_depth < ds
          → walk hash source ds reference ≡ ok (leaf_entries (x ∷ rest))
      walks zero d = absurd (omega arith)
      walks (suc ds) d =
          ap (λ c. c >>= walk_chunk (walk hash source ds)) loads
          ∙ Parted-walks nfc to_lowercase hash source (length n.portable_prefix)
              all.maximum_relative_depth ds n.children (x ∷ rest) (omega arith) parted

      finds :
          All (λ e. take (length n.portable_prefix) e.key ≡ n.portable_prefix) (x ∷ rest)
          → All
              (λ e. take (length n.portable_prefix) e.key ≡ take (length n.portable_prefix) x.key)
              (x ∷ rest)
          → (key : List ℕ) (ds : ℕ) → all.maximum_relative_depth < ds
          → descend nfc to_lowercase hash source ds key reference ≡ ok (find_key key (x ∷ rest))
      finds shares low key zero d = absurd (omega arith)
      finds shares low key (suc ds) d =
          ap
            (λ c. c >>= in_chunk nfc to_lowercase (descend nfc to_lowercase hash source ds key) key)
            loads
          ∙ in_chunk-node nfc to_lowercase key n stored (x ∷ rest)
              (descend nfc to_lowercase hash source ds key) shares
              (check_edges-Ascending nfc to_lowercase hash source n.children edges)
              (Parted-finds nfc to_lowercase hash source key (length n.portable_prefix)
                all.maximum_relative_depth ds x.key n.children (x ∷ rest) (omega arith) ladder low
                edges parted)

  pub node_Answers :
      (depths : ℕ) (reference : ManifestRef) (n : ManifestNode) (stored : List ℕ) (all : Gathered)
      (r : SnapshotV2Result ValidationInfo)
      → load_chunk hash source reference ≡ ok (a_node n stored)
      → check_edges n.children ≡ ok tt
      → Gathers nfc to_lowercase hash source
          (length n.portable_prefix)
          depths
          n.children
          []
          0
          (ok all)
      → expect_keys n.portable_prefix all all.first_key all.last_key ≡ r
      → Answers nfc to_lowercase hash source (suc depths) reference r
  node_Answers depths reference n stored all (err e) loads edges gathers h = tt
  node_Answers depths reference n stored all (ok info) loads edges ([], is, low, deep, keys, parted)
        h =
      let no : expect_keys n.portable_prefix all none all.last_key ≡ ok info =
        ap (λ o. expect_keys n.portable_prefix all o all.last_key) (sym is.first) ∙ h in
      absurd (cc no)
  node_Answers depths reference n stored all (ok info) loads edges
        (x ∷ rest, is, low, deep, keys, parted) h =
      node_Tree depths reference n stored all x rest info loads edges is.ladder is.summed keys deep
        parted
        (ap (λ o. expect_keys n.portable_prefix all (some x.key) o) (sym is.last)
          ∙ (ap (λ o. expect_keys n.portable_prefix all o all.last_key) (sym is.first) ∙ h))
