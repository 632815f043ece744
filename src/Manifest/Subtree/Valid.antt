-- ===== src/Manifest/Subtree/Valid.antt =====
-- What a manifest that validates promises to the lookup.
use check_po.Prelude.{ℕ, suc, ◌≡◌, ap, subst, ◌∙◌, arith, some, List, [], All, not}
use check_po.Prelude.Result.{ok, err, ◌>>=◌, reject_if, reject_if-eq_ok}
use check_po.Codec.{Digest32, ManifestRef, ManifestSummary, summary_eq}
use check_po.Codec.Chunk.Summaries.{summary_eq→eq}
use check_po.Manifest.Sums.{total}
use check_po.Manifest.Subtree.Node.{not-eq_false}
use check_po.Manifest.{
  SnapshotV2Result, KeyedEntry, invalid, root_summary_mismatch, portable_path_key_v1,
}
use check_po.Manifest.Keys.{IsLadder}
use check_po.Manifest.Leaf.{ValidationInfo}
use check_po.Manifest.Build.{max_manifest_depth, leaf_entries}
use check_po.Manifest.Tree.{in_root, lookup_manifest_entry}
use check_po.Manifest.Tree.Sorted.{find_key}
use check_po.Manifest.Tree.Search.{HasKey}
use check_po.Manifest.Subtree.{
  ManifestValidationCache, Validation, validate_subtree, root_checked, validate_manifest_cached,
}
use check_po.Manifest.Subtree.Walk.{walk}
use check_po.Manifest.Subtree.Children.{Trusted, Answers, Sound}
use check_po.Manifest.Subtree.Sound.{validate_subtree-Sound}

module _ (ref_size info_size : ℕ) (capacity : List ℕ → ℕ) (nfc : List ℕ → List ℕ)
    (to_lowercase : ℕ → ℕ × ℕ) (hash : List ℕ → Digest32)
    (source : ManifestRef → SnapshotV2Result (List ℕ)) where
  -- The entries are those of the leaves in their order, with increasing keys, and a lookup of the
  -- path finds the one with its key.
  abbrev pub Holds : ManifestRef → ManifestSummary → List ℕ → List ℕ → List KeyedEntry → Type 0
  Holds root expected path key range =
      (walk hash source (suc max_manifest_depth) root ≡ ok (leaf_entries range))
      × All (HasKey nfc to_lowercase) range
      × IsLadder range
      × (total range ≡ expected)
      × (lookup_manifest_entry nfc to_lowercase hash source (some root) path
          ≡ ok (find_key key range))

  root_Holds :
      (root : ManifestRef) (info : ValidationInfo) (expected : ManifestSummary) (path key : List ℕ)
      → info.summary ≡ expected
      → Answers nfc to_lowercase hash source (suc max_manifest_depth) root (ok info)
      → portable_path_key_v1 nfc to_lowercase path ≡ ok key
      → (range : List KeyedEntry) × Holds root expected path key range
  unfolding lookup_manifest_entry
  root_Holds root info expected path key sum (range, tree, deep) k = (
    range,
    (
      tree.walks (suc max_manifest_depth) deep,
      tree.keys,
      tree.ladder,
      tree.summed ∙ sum,
      ap (λ r. r >>= λ key. in_root nfc to_lowercase hash source key (some root)) k
          ∙ tree.finds key (suc max_manifest_depth) deep,
    ),
  )

  -- If what the cache says is so, and a manifest validates with it, then below its root stand
  -- entries whose keys increase, the leaves in their order hold just these, their summary is the
  -- expected one, a lookup of any path that has a portable key gives the entry with this key, or
  -- none when there is no such entry, and what the cache says then is so again.
  pub validate_manifest_cached-Holds :
      (root : ManifestRef) (expected : ManifestSummary) (cache cache' : ManifestValidationCache)
      (path key : List ℕ)
      → Trusted nfc to_lowercase hash source cache
      → validate_manifest_cached ref_size info_size capacity nfc to_lowercase hash source
          (some root)
          expected
          cache
        ≡ (ok tt, cache')
      → portable_path_key_v1 nfc to_lowercase path ≡ ok key
      → ((range : List KeyedEntry) × Holds root expected path key range)
        × Trusted nfc to_lowercase hash source cache'
  unfolding validate_manifest_cached
  validate_manifest_cached-Holds root expected cache cache' path key trusted h k =
      by
        (validate_subtree ref_size info_size capacity nfc to_lowercase hash source
          (suc max_manifest_depth) root (record { visited = []; cache = cache }))
        (validate_subtree-Sound nfc to_lowercase hash source ref_size info_size capacity
          (suc max_manifest_depth) (omega arith) root (record { visited = []; cache = cache })
          trusted)
        h
    where
      by :
          (m : SnapshotV2Result ValidationInfo × Validation)
          → Sound nfc to_lowercase hash source (suc max_manifest_depth) root m
          → root_checked ref_size info_size capacity nfc to_lowercase hash source expected m
            ≡ (ok tt, cache')
          → ((range : List KeyedEntry) × Holds root expected path key range)
            × Trusted nfc to_lowercase hash source cache'
      by (err e, state) (t, u) h = absurd (cc h)
      by (ok info, state) (t, answers) h =
          let same : state.cache ≡ cache' = cc h in
          let equal : reject_if (not (summary_eq info.summary expected))
                (invalid root_summary_mismatch)
              ≡ ok tt =
            cc h in
          let sum =
            summary_eq→eq info.summary expected (not-eq_false _ (reject_if-eq_ok _ _ equal)) in
          (
            root_Holds root info expected path key sum answers k,
            subst (Trusted nfc to_lowercase hash source) same t,
          )
