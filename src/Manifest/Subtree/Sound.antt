-- ===== src/Manifest/Subtree/Sound.antt =====
-- A manifest that validates holds the entries that its lookups find.
use check_po.Prelude.{
  ℕ, zero, suc, ◌-◌, ◌≤◌, ◌<◌, ◌≡◌, refl, Bool, true, false, Option, none, some, List, [], ◌∷◌,
  arith, length, ltb, leb, if◌then◌else◌,
}
use check_po.Prelude.Result.{ok, err, ◌>>=◌, reject_if, reject_if-eq_ok}
use check_po.Prelude.Map.{mem, get}
use check_po.Codec.{Digest32, ManifestRef}
use check_po.Manifest.{SnapshotV2Result, invalid, too_deep, too_many_chunks, duplicate_range}
use check_po.Manifest.Leaf.{DecodedChunk, a_node, a_leaf, load_chunk, ValidationInfo, validate_leaf}
use check_po.Manifest.Build.{ref_key, max_manifest_depth}
use check_po.Manifest.Subtree.{
  max_manifest_validation_chunks, saturating_add, Validation, Step, then_step, Gathered,
  nothing_gathered, check_node, check_children, expect_keys, remember, validate_chunk, validate_new,
  validate_subtree,
}
use check_po.Manifest.Subtree.Children.{
  Trusted, Answers, Sound, GathersAll, check_children-GathersAll,
}
use check_po.Manifest.Subtree.Leaf.{leaf_Answers}
use check_po.Manifest.Subtree.Node.{check_node-edges, node_Answers}
use check_po.Manifest.Subtree.Remember.{remembered}

deep_enough :
    (d m : ℕ)
    → suc d ≤ suc max_manifest_depth
    → ltb max_manifest_depth (saturating_add (max_manifest_depth - d) m) ≡ false
    → m < suc d
unfolding saturating_add
deep_enough d m b h = ground arith

module _ (nfc : List ℕ → List ℕ) (to_lowercase : ℕ → ℕ × ℕ) (hash : List ℕ → Digest32)
    (source : ManifestRef → SnapshotV2Result (List ℕ)) (ref_size info_size : ℕ)
    (capacity : List ℕ → ℕ) where
  validate_chunk-Sound :
      (depths : ℕ) (reference : ManifestRef) (visit : ManifestRef → Step ValidationInfo)
      → suc depths ≤ suc max_manifest_depth
      → ((r : ManifestRef) (state : Validation)
          → Trusted nfc to_lowercase hash source state.cache
          → Sound nfc to_lowercase hash source depths r (visit r state))
      → (chunk : DecodedChunk) (state : Validation) → load_chunk hash source reference ≡ ok chunk
      → Trusted nfc to_lowercase hash source state.cache
      → Sound nfc to_lowercase hash source
          (suc depths)
          reference
          (validate_chunk ref_size info_size capacity nfc to_lowercase visit chunk state)
  validate_chunk-Sound depths reference visit b sound (a_leaf l stored) state loads trusted =
      (trusted, by (validate_leaf nfc to_lowercase l stored) refl)
    where
      by :
          (r : SnapshotV2Result ValidationInfo)
          → validate_leaf nfc to_lowercase l stored ≡ r
          → Answers nfc to_lowercase hash source (suc depths) reference r
      by (err e) h = tt
      by (ok info) h =
          leaf_Answers nfc to_lowercase hash source depths reference l stored info loads h
  validate_chunk-Sound depths reference visit b sound (a_node n stored) state loads trusted =
      checked (check_node n stored) refl
    where
      gathered :
          check_node n stored ≡ ok tt
          → (m : SnapshotV2Result Gathered × Validation)
          → GathersAll nfc to_lowercase hash source
              (length n.portable_prefix)
              depths
              n.children
              []
              0
              m
          → Sound nfc to_lowercase hash source (suc depths) reference (
              then_step m
                λ all state. (expect_keys n.portable_prefix all all.first_key all.last_key, state))
      gathered h (err e, state) (t, u) = (t, tt)
      gathered h (ok all, state) (t, gathers) = (
        t,
        node_Answers nfc to_lowercase hash source depths reference n stored all
            (expect_keys n.portable_prefix all all.first_key all.last_key) loads
            (check_node-edges nfc to_lowercase hash source n stored h) gathers refl,
      )

      checked :
          (r : SnapshotV2Result (Unit {0}))
          → check_node n stored ≡ r
          → Sound nfc to_lowercase hash source (suc depths) reference (
              then_step
                (r, state)
                λ _ state.
                  then_step
                    (check_children visit n.portable_prefix n.children nothing_gathered state)
                    (λ all state.
                      (expect_keys n.portable_prefix all all.first_key all.last_key, state)))
      checked (err e) h = (trusted, tt)
      checked (ok tt) h =
          gathered h (check_children visit n.portable_prefix n.children nothing_gathered state) (
            check_children-GathersAll nfc to_lowercase hash source depths visit n.portable_prefix
              (omega (arith, b)) sound n.children [] nothing_gathered state trusted
              (record { first = refl; last = refl; ladder = tt; summed = refl }) (omega arith))

  pub validate_subtree-Sound :
      (depths : ℕ)
      → depths ≤ suc max_manifest_depth
      → (reference : ManifestRef) (state : Validation)
      → Trusted nfc to_lowercase hash source state.cache
      → Sound nfc to_lowercase hash source depths reference (
          validate_subtree ref_size info_size capacity nfc to_lowercase hash source depths reference
            state)
  unfolding validate_subtree
  validate_subtree-Sound zero b reference state trusted = (trusted, tt)
  validate_subtree-Sound (suc depths) b reference state trusted =
      by (λ r s t. validate_subtree-Sound depths (omega (arith, b)) r s t)
        (leb max_manifest_validation_chunks (length state.visited))
        (mem (ref_key reference) state.visited)
    where
      visit : ManifestRef → Step ValidationInfo
      visit = validate_subtree ref_size info_size capacity nfc to_lowercase hash source depths

      next : Validation
      next = record { visited = ref_key reference ∷ state.visited; cache = state.cache }

      hit :
          (info : ValidationInfo) (r : SnapshotV2Result (Unit {0}))
          → get (ref_key reference) state.cache.validated ≡ some info
          → reject_if
              (ltb max_manifest_depth
                (saturating_add (max_manifest_depth - depths) info.maximum_relative_depth))
              (invalid (too_deep max_manifest_depth))
            ≡ r
          → Answers nfc to_lowercase hash source (suc depths) reference (r >>= λ _. ok info)
      hit info (err e) h k = tt
      hit info (ok tt) h k =
          let (range, tree) = trusted reference info h in
          (range, tree, deep_enough depths info.maximum_relative_depth b (reject_if-eq_ok _ _ k))

      Visits : Type 0
      Visits =
          (r : ManifestRef) (s : Validation)
          → Trusted nfc to_lowercase hash source s.cache
          → Sound nfc to_lowercase hash source depths r (visit r s)

      loaded :
          Visits
          → (r : SnapshotV2Result DecodedChunk) → load_chunk hash source reference ≡ r
          → Sound nfc to_lowercase hash source (suc depths) reference (
              then_step
                (r, next)
                λ chunk state.
                  then_step
                    (validate_chunk ref_size info_size capacity nfc to_lowercase visit chunk state)
                    (remember ref_size info_size capacity reference))
      loaded sound (err e) h = (trusted, tt)
      loaded sound (ok chunk) h =
          remembered nfc to_lowercase hash source ref_size info_size capacity (suc depths) reference
            (validate_chunk ref_size info_size capacity nfc to_lowercase visit chunk next)
            (validate_chunk-Sound depths reference visit b sound chunk next h trusted)

      new :
          Visits
          → (found : Option ValidationInfo) → get (ref_key reference) state.cache.validated ≡ found
          → Sound nfc to_lowercase hash source (suc depths) reference (
              validate_new ref_size info_size capacity nfc to_lowercase hash source visit
                (max_manifest_depth - depths)
                reference
                found
                next)
      new sound (some info) h = (trusted, hit info _ h refl)
      new sound none h = loaded sound (load_chunk hash source reference) refl

      by :
          Visits
          → (full seen : Bool)
          → Sound nfc to_lowercase hash source (suc depths) reference (
              if full
              then (err (invalid too_many_chunks), state)
              else if seen
              then (err (invalid (duplicate_range (ref_key reference))), state)
              else validate_new ref_size info_size capacity nfc to_lowercase hash source visit
                  (max_manifest_depth - depths)
                  reference
                  (get (ref_key reference) state.cache.validated)
                  next)
      by sound true seen = (trusted, tt)
      by sound false true = (trusted, tt)
      by sound false false = new sound (get (ref_key reference) state.cache.validated) refl
