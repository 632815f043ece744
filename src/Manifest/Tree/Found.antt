-- ===== src/Manifest/Tree/Found.antt =====
-- A lookup in a range that `build_range` built finds what a search of its entries finds.
use check_po.Prelude.{
  ℕ, zero, suc, ◌≡◌, refl, sym, subst, Bool, true, false, not, ◌||◌, List, [], ◌∷◌, ◌++◌, arith,
  length, length-take, take, drop, get_elem?, ltb, ◌==◌, All,
}
use check_po.Prelude.Result.{ok, ◌>>=◌, ok_or, >>=-eq_ok}
use check_po.Prelude.Slices.{All-take}
use check_po.Prelude.Bytes.{IsByte}
use check_po.Codec.{Digest32, ManifestSummary, IsArray, IsSummary}
use check_po.Manifest.{
  SnapshotV2Result, invalid, KeyedEntry, common_prefix_len, edge_at, leaf_encoded_len,
  range_summary, range_outside, empty_chunk,
}
use check_po.Manifest.Keys.{IsLadder}
use check_po.Manifest.Leaf.{last_key_of}
use check_po.Manifest.Build.{
  Chunks, BuiltRange, child_ranges, build_leaf, build_node, build_children, build_within,
  build_range,
}
use check_po.Manifest.Build.Kept.{build_range-Holds}
use check_po.Manifest.Tree.Edges.{IsLadder-Rising, child_ranges-Split}
use check_po.Manifest.Tree.Nodes.{Good, Found, build_leaf-Found}
use check_po.Manifest.Tree.Children.{Builds, FoundBelow, build_children-Found, build_node-Found}
use check_po.Manifest.Tree.Ranges.{
  range_of-middle, range_summary-IsSummary, prefix_len_fits, shared_prefix,
}

module _ (nfc : List ℕ → List ℕ) (to_lowercase : ℕ → ℕ × ℕ) (hash : List ℕ → Digest32)
    (digest : (bs : List ℕ) → IsArray 32 (hash bs)) (key : List ℕ) (entries : List KeyedEntry)
    (prefixes : List ManifestSummary) (sums : All IsSummary prefixes) (target : ℕ) where
  within-Found :
      (depths : ℕ) (front : List KeyedEntry) (first : KeyedEntry) (rest back : List KeyedEntry)
      (start end : ℕ) (chunks : Chunks) (out : BuiltRange × Chunks)
      (build : ℕ → ℕ → Chunks → SnapshotV2Result (BuiltRange × Chunks))
      → Builds nfc to_lowercase hash digest key entries depths build
      → entries ≡ front ++ ((first ∷ rest) ++ back)
      → start ≡ length front
      → All (Good nfc to_lowercase) (first ∷ rest)
      → IsLadder (first ∷ rest)
      → build_within hash build prefixes target start end chunks (first ∷ rest) first ≡ ok out
      → Found nfc to_lowercase hash key (suc depths) (first ∷ rest) out
  within-Found depths front first rest back start end chunks out build ih whole s good ladder h =
      let n = common_prefix_len first.key (last_key_of (first ∷ rest)) in
      let (summary, e1, h1) = >>=-eq_ok (range_summary prefixes start end) _ h in
      let (encoded, e2, h2) = >>=-eq_ok (leaf_encoded_len (take n first.key) summary) _ h1 in
      by summary (range_summary-IsSummary prefixes start end summary sums e1)
        (not (ltb target encoded) || length (first ∷ rest) == 1) h2
    where
      by :
          (summary : ManifestSummary)
          → IsSummary summary
          → (fits : Bool)
          → elim fits [
            | true ↦
                build_leaf hash
                  (take (common_prefix_len first.key (last_key_of (first ∷ rest))) first.key)
                  (first ∷ rest)
                  summary
                  chunks
            | false ↦
                build_children build
                  (child_ranges
                    (common_prefix_len first.key (last_key_of (first ∷ rest)))
                    (edge_at first.key (common_prefix_len first.key (last_key_of (first ∷ rest))))
                    start
                    (suc start)
                    (drop 1 (first ∷ rest)))
                  chunks
                >>= build_node hash
                    (take (common_prefix_len first.key (last_key_of (first ∷ rest))) first.key)
                    summary
          ]
            ≡ ok out
          → Found nfc to_lowercase hash key (suc depths) (first ∷ rest) out
      by summary sum true h =
          build_leaf-Found nfc to_lowercase hash digest key depths
            (take (common_prefix_len first.key (last_key_of (first ∷ rest))) first.key)
            (first ∷ rest) summary chunks out good ladder (All-take IsByte _ first.key good.0.2) sum
            h
      by summary sum false h =
          let n = common_prefix_len first.key (last_key_of (first ∷ rest)) in
          let prefix = take n first.key in
          let ranges = child_ranges n (edge_at first.key n) start (suc start) rest in
          let (built, e, h1) = >>=-eq_ok (build_children build ranges chunks) _ h in
          let shared = shared_prefix first rest ladder in
          let split =
            child_ranges-Split n (edge_at first.key n) start (suc start) (first ∷ []) rest
              (omega arith) (omega arith) (refl, tt)
              (IsLadder-Rising n first.key first rest ladder shared) in
          let (below, kept) =
            build_children-Found nfc to_lowercase hash digest key entries depths n build ih ranges
              front (first ∷ rest) back start whole s good ladder split chunks built e in
          let len : length prefix ≡ n =
            length-take n first.key (prefix_len_fits first.key (last_key_of (first ∷ rest))) in
          build_node-Found nfc to_lowercase hash digest key depths prefix (first ∷ rest) summary
            built out
            (subst (λ m. All (λ e. take m e.key ≡ prefix) (first ∷ rest)) (sym len) shared)
            (All-take IsByte n first.key good.0.2) sum
            (subst (λ m. FoundBelow nfc to_lowercase hash digest key depths m (first ∷ rest) built)
              (sym len) below)
            h1

  pub build_range-Builds :
      (depths : ℕ)
      → Builds nfc to_lowercase hash digest key entries depths
          (build_range hash depths entries prefixes target)
  unfolding build_range
  build_range-Builds zero front part back start end chunks out whole s e good ladder h =
      absurd (cc h)
  build_range-Builds (suc depths) front part back start end chunks out whole s e good ladder h = (
    by (build_range-Builds depths) part whole good ladder (
        subst
          (λ o.
            (ok_or o (invalid range_outside) >>= λ range.
            ok_or (get_elem? range 0) (invalid empty_chunk) >>= λ first.
            build_within hash (build_range hash depths entries prefixes target) prefixes target
              start end chunks range first)
            ≡ ok out)
          (range_of-middle entries front part back start end whole s e) h),
    λ p v k.
        (build_range-Holds hash (suc depths) entries prefixes target start end chunks out p v h
          k).1,
  )
    where
      by :
          Builds nfc to_lowercase hash digest key entries depths
            (build_range hash depths entries prefixes target)
          → (part : List KeyedEntry) → entries ≡ front ++ (part ++ back)
          → All (Good nfc to_lowercase) part
          → IsLadder part
          → (ok_or (get_elem? part 0) (invalid empty_chunk) >>= λ first.
              build_within hash
                (build_range hash depths entries prefixes target)
                prefixes
                target
                start
                end
                chunks
                part
                first)
            ≡ ok out
          → Found nfc to_lowercase hash key (suc depths) part out
      by ih [] whole good ladder h = absurd (cc h)
      by ih (first ∷ rest) whole good ladder h =
          within-Found depths front first rest back start end chunks out
            (build_range hash depths entries prefixes target) ih whole s good ladder h
