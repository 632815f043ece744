-- ===== src/Manifest/Subtree/Children.antt =====
-- The children of a node that pass hold the parts of its entries.
use check_po.Prelude.{
  ℕ, suc, ◌≤◌, ◌<◌, ◌≡◌, refl, sym, ap, subst, some, List, [], ◌∷◌, ◌++◌, append_assoc, append-nil,
  arith, length, All, All-append,
}
use check_po.Prelude.Result.{ok, err}
use check_po.Prelude.Map.{get}
use check_po.Codec.{Digest32, ManifestRef, ManifestChild}
use check_po.Manifest.{SnapshotV2Result, KeyedEntry, edge_at}
use check_po.Manifest.Leaf.{ValidationInfo}
use check_po.Manifest.Build.{ref_key, max_manifest_depth}
use check_po.Manifest.Tree.Search.{HasKey}
use check_po.Manifest.Subtree.{
  saturating_add, max_of, ManifestValidationCache, Validation, Step, then_step, Gathered,
  check_child, check_children,
}
use check_po.Manifest.Subtree.Walk.{Tree, Parted}
use check_po.Manifest.Subtree.Gather.{
  IsGathered, IsGathered-next, check_child-eq_ok, saturating_add-suc, max_of-bounds,
}

module _ (nfc : List ℕ → List ℕ) (to_lowercase : ℕ → ℕ × ℕ) (hash : List ℕ → Digest32)
    (source : ManifestRef → SnapshotV2Result (List ℕ)) where
  -- What the cache says of a reference is so.
  abbrev pub Trusted : ManifestValidationCache → Type 0
  Trusted cache =
      (reference : ManifestRef) (info : ValidationInfo)
      → get (ref_key reference) cache.validated ≡ some info
      → (range : List KeyedEntry) × Tree nfc to_lowercase hash source reference info range

  abbrev pub Answers : ℕ → ManifestRef → SnapshotV2Result ValidationInfo → Type 0
  Answers depths reference (ok info) =
      (range : List KeyedEntry) × Tree nfc to_lowercase hash source reference info range
      × (info.maximum_relative_depth < depths)
  Answers depths reference (err e) = Unit

  -- The answer is so, and the cache is to be trusted, whatever the answer is.
  abbrev pub Sound : ℕ → ManifestRef → SnapshotV2Result ValidationInfo × Validation → Type 0
  Sound depths reference (answer, state) = Trusted state.cache × Answers depths reference answer

  abbrev pub Gathers :
      ℕ → ℕ → List ManifestChild → List KeyedEntry → ℕ → SnapshotV2Result Gathered → Type 0
  Gathers n depths cs range depth (ok all) =
      (rest : List KeyedEntry) × IsGathered (range ++ rest) all
      × (depth ≤ all.maximum_relative_depth)
      × (all.maximum_relative_depth ≤ depths)
      × All (HasKey nfc to_lowercase) rest
      × Parted nfc to_lowercase hash source n all.maximum_relative_depth cs rest
  Gathers n depths cs range depth (err e) = Unit

  abbrev pub GathersAll :
      ℕ
      → ℕ
      → List ManifestChild
      → List KeyedEntry
      → ℕ
      → SnapshotV2Result Gathered × Validation
      → Type 0
  GathersAll n depths cs range depth (answer, state) =
      Trusted state.cache × Gathers n depths cs range depth answer

  -- A child before those that follow.
  one_more :
      (prefix : List ℕ) (depths : ℕ) (c : ManifestChild) (cs : List ManifestChild)
      (info : ValidationInfo) (range part : List KeyedEntry) (g g' : Gathered)
      (out : SnapshotV2Result Gathered × Validation)
      → Tree nfc to_lowercase hash source c.child info part
      → info.maximum_relative_depth < depths
      → depths ≤ suc max_manifest_depth
      → g.maximum_relative_depth ≤ depths
      → check_child prefix c info g ≡ ok g'
      → (g'.maximum_relative_depth ≤ depths
          → GathersAll (length prefix) depths cs (range ++ part) g'.maximum_relative_depth out)
      → GathersAll (length prefix) depths (c ∷ cs) range g.maximum_relative_depth out
  one_more prefix depths c cs info range part g g' out tree d b l h rest =
      let (f, e, before, (sum, added, same)) = check_child-eq_ok prefix c info g g' h in
      let sat = saturating_add-suc info.maximum_relative_depth depths d b in
      let deep : g'.maximum_relative_depth
          ≡ max_of g.maximum_relative_depth (saturating_add info.maximum_relative_depth 1) =
        ap (λ (x : Gathered). x.maximum_relative_depth) (sym same) in
      let (low, high, top) =
        max_of-bounds g.maximum_relative_depth (saturating_add info.maximum_relative_depth 1) depths
          l (omega (arith, sat, d)) in
      by out (omega (arith, deep, low)) (omega (arith, deep, high, sat)) f e
        (rest (omega (arith, deep, top)))
    where
      by :
          (out : SnapshotV2Result Gathered × Validation)
          → g.maximum_relative_depth ≤ g'.maximum_relative_depth
          → info.maximum_relative_depth < g'.maximum_relative_depth
          → edge_at info.first_key (length prefix) ≡ c.edge
          → edge_at info.last_key (length prefix) ≡ c.edge
          → GathersAll (length prefix) depths cs (range ++ part) g'.maximum_relative_depth out
          → GathersAll (length prefix) depths (c ∷ cs) range g.maximum_relative_depth out
      by (err x, state) low high f e (trusted, u) = (trusted, tt)
      by (ok all, state) low high f e (trusted, (rest, is, deep, top, keys, parted)) = (
        trusted,
        (
          part ++ rest,
          subst (λ r. IsGathered r all) (append_assoc range part rest) is,
          omega (arith, low, deep),
          top,
          All-append (HasKey nfc to_lowercase) part rest tree.keys keys,
          (part, rest, info, refl, tree, omega (arith, high, deep), f, e, parted),
        ),
      )

  pub check_children-GathersAll :
      (depths : ℕ) (visit : ManifestRef → Step ValidationInfo) (prefix : List ℕ)
      → depths ≤ suc max_manifest_depth
      → ((reference : ManifestRef) (state : Validation)
          → Trusted state.cache
          → Sound depths reference (visit reference state))
      → (cs : List ManifestChild) (range : List KeyedEntry) (g : Gathered) (state : Validation)
      → Trusted state.cache
      → IsGathered range g
      → g.maximum_relative_depth ≤ depths
      → GathersAll
          (length prefix)
          depths
          cs
          range
          g.maximum_relative_depth
          (check_children visit prefix cs g state)
  unfolding check_children
  check_children-GathersAll depths visit prefix b sound [] range g state trusted is l = (
    trusted,
    ([], subst (λ r. IsGathered r g) (sym (append-nil range)) is, omega arith, l, tt, refl),
  )
  check_children-GathersAll depths visit prefix b sound (c ∷ cs) range g state trusted is l =
      by (visit c.child state) (sound c.child state trusted) (λ range g state t i k.
        check_children-GathersAll depths visit prefix b sound cs range g state t i k)
    where
      checked :
          (info : ValidationInfo) (part : List KeyedEntry) (state : Validation)
          → Trusted state.cache
          → Tree nfc to_lowercase hash source c.child info part
          → info.maximum_relative_depth < depths
          → ((range : List KeyedEntry) (g : Gathered) (state : Validation)
              → Trusted state.cache
              → IsGathered range g
              → g.maximum_relative_depth ≤ depths
              → GathersAll
                  (length prefix)
                  depths
                  cs
                  range
                  g.maximum_relative_depth
                  (check_children visit prefix cs g state))
          → (r : SnapshotV2Result Gathered) → check_child prefix c info g ≡ r
          → GathersAll
              (length prefix)
              depths
              (c ∷ cs)
              range
              g.maximum_relative_depth
              (then_step (r, state) (check_children visit prefix cs))
      checked info part state t tree d ih (err e) h = (t, tt)
      checked info part state t tree d ih (ok g') h =
          let (f, e, before, (sum, added, same)) = check_child-eq_ok prefix c info g g' h in
          let next : IsGathered (range ++ part) g' = subst (IsGathered (range ++ part)) same (
            IsGathered-next range part g info sum
              (max_of g.maximum_relative_depth (saturating_add info.maximum_relative_depth 1)) is
              tree.ladder tree.filled tree.first tree.last before tree.summed added) in
          one_more prefix depths c cs info range part g g' (check_children visit prefix cs g' state)
            tree d b l h (λ k. ih (range ++ part) g' state t next k)

      by :
          (m : SnapshotV2Result ValidationInfo × Validation)
          → Sound depths c.child m
          → ((range : List KeyedEntry) (g : Gathered) (state : Validation)
              → Trusted state.cache
              → IsGathered range g
              → g.maximum_relative_depth ≤ depths
              → GathersAll
                  (length prefix)
                  depths
                  cs
                  range
                  g.maximum_relative_depth
                  (check_children visit prefix cs g state))
          → GathersAll (length prefix) depths (c ∷ cs) range g.maximum_relative_depth (
              then_step m λ info state.
                then_step (check_child prefix c info g, state) (check_children visit prefix cs))
      by (err e, state) (t, u) ih = (t, tt)
      by (ok info, state) (t, (part, tree, d)) ih =
          checked info part state t tree d ih (check_child prefix c info g) refl
