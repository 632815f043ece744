-- ===== src/Manifest/Iter/Order.antt =====
-- The iterator gives the entries of the leaves in their order.
use check_po.Prelude.{
  ℕ, zero, suc, ◌≡◌, refl, sym, ap, subst, ◌∙◌, some, List, [], ◌∷◌, ◌++◌, append_assoc, append-nil,
  length,
}
use check_po.Prelude.Result.{ok, err, ◌>>=◌, >>=-eq_ok}
use check_po.Prelude.Map.{mem}
use check_po.Codec.{Digest32, LeafEntry, ManifestRef, ManifestChild}
use check_po.Manifest.{SnapshotV2Result, invalid, too_deep}
use check_po.Manifest.Leaf.{DecodedChunk, a_node, a_leaf, load_chunk}
use check_po.Manifest.Build.{ref_key, max_manifest_depth}
use check_po.Manifest.Subtree.Walk.{walk, walk_children, walk_chunk}
use check_po.Manifest.Iter.{manifest_iter, children_of, next}
use check_po.Manifest.Iter.Yields.{
  entries_of, Distinct, Fresh, Yields, Forest, finished, at_leaf, at_node, Forest-Yields,
}

-- The references that a walk of the children loads, one after the other.
abbrev pub refs_children :
    (ManifestRef → SnapshotV2Result (List (List ℕ)))
    → List ManifestChild
    → SnapshotV2Result (List (List ℕ))
refs_children next [] = ok []
refs_children next (c ∷ cs) =
    next c.child >>= λ front. refs_children next cs >>= λ back. ok (front ++ back)

abbrev pub refs_chunk :
    (ManifestRef → SnapshotV2Result (List (List ℕ)))
    → DecodedChunk
    → SnapshotV2Result (List (List ℕ))
refs_chunk next (a_leaf l bytes) = ok []
refs_chunk next (a_node n bytes) = refs_children next n.children

module _ (hash : List ℕ → Digest32) (source : ManifestRef → SnapshotV2Result (List ℕ)) where
  -- The references below a reference, with it, in the order of a walk.
  unfoldable pub refs : ℕ → ManifestRef → SnapshotV2Result (List (List ℕ))
  refs zero reference = err (invalid (too_deep max_manifest_depth))
  refs (suc depths) reference = load_chunk hash source reference >>= λ chunk.
      refs_chunk (refs depths) chunk >>= λ below. ok (ref_key reference ∷ below)

  -- What a walk of a reference adds to what is pending behind it.
  abbrev Grows : ℕ → Type 0
  Grows depths =
      (reference : ManifestRef) (es : List LeafEntry) (ks : List (List ℕ)) (rest : List ManifestRef)
      (es' : List LeafEntry) (ks' : List (List ℕ))
      → walk hash source depths reference ≡ ok es
      → refs depths reference ≡ ok ks
      → Forest hash source ks' rest es'
      → Forest hash source (ks ++ ks') (reference ∷ rest) (es ++ es')

  children_grow :
      (depths : ℕ)
      → Grows depths
      → (cs : List ManifestChild) (es : List LeafEntry) (ks : List (List ℕ))
        (rest : List ManifestRef) (es' : List LeafEntry) (ks' : List (List ℕ))
      → walk_children (walk hash source depths) cs ≡ ok es
      → refs_children (refs depths) cs ≡ ok ks
      → Forest hash source ks' rest es'
      → Forest hash source (ks ++ ks') (children_of cs ++ rest) (es ++ es')
  children_grow depths grows [] es ks rest es' ks' w r forest =
      let e : [] ≡ es = cc w in
      let k : [] ≡ ks = cc r in
      subst (λ x. Forest hash source (ks ++ ks') rest (x ++ es')) e
        (subst (λ x. Forest hash source (x ++ ks') rest es') k forest)
  children_grow depths grows (c ∷ cs) es ks rest es' ks' w r forest =
      let (fe, w1, w') = >>=-eq_ok (walk hash source depths c.child) _ w in
      let (be, w2, w'') = >>=-eq_ok (walk_children (walk hash source depths) cs) _ w' in
      let (fk, r1, r') = >>=-eq_ok (refs depths c.child) _ r in
      let (bk, r2, r'') = >>=-eq_ok (refs_children (refs depths) cs) _ r' in
      let e : fe ++ be ≡ es = cc w'' in
      let k : fk ++ bk ≡ ks = cc r'' in
      let behind = children_grow depths grows cs be bk rest es' ks' w2 r2 forest in
      let whole =
        grows c.child fe fk (children_of cs ++ rest) (be ++ es') (bk ++ ks') w1 r1 behind in
      subst (λ x. Forest hash source (ks ++ ks') (c.child ∷ (children_of cs ++ rest)) x)
        (sym (append_assoc fe be es') ∙ ap (λ x. x ++ es') e)
        (subst (λ x. Forest hash source x (c.child ∷ (children_of cs ++ rest)) (fe ++ (be ++ es')))
          (sym (append_assoc fk bk ks') ∙ ap (λ x. x ++ ks') k) whole)

  grows : (depths : ℕ) → Grows depths
  unfolding walk refs
  grows zero reference es ks rest es' ks' w r forest = absurd (cc w)
  grows (suc depths) reference es ks rest es' ks' w r forest =
      let (chunk, loads, w') = >>=-eq_ok (load_chunk hash source reference) _ w in
      let (chunk', loads', r') = >>=-eq_ok (load_chunk hash source reference) _ r in
      let same : chunk' ≡ chunk = cc (loads, loads') in
      let (below, r1, r2) = >>=-eq_ok (refs_chunk (refs depths) chunk) _ (
        subst
          (λ c. (refs_chunk (refs depths) c >>= λ below. ok (ref_key reference ∷ below)) ≡ ok ks)
          same r') in
      let k : ref_key reference ∷ below ≡ ks = cc r2 in
      subst (λ x. Forest hash source (x ++ ks') (reference ∷ rest) (es ++ es')) k
        (by (grows depths) chunk below loads w' r1)
    where
      by :
          Grows depths
          → (chunk : DecodedChunk) (below : List (List ℕ))
          → load_chunk hash source reference ≡ ok chunk
          → walk_chunk (walk hash source depths) chunk ≡ ok es
          → refs_chunk (refs depths) chunk ≡ ok below
          → Forest hash source (ref_key reference ∷ (below ++ ks')) (reference ∷ rest) (es ++ es')
      by ih (a_leaf l bytes) below loads w r =
          let e : l.entries ≡ es = cc w in
          let k : [] ≡ below = cc r in
          subst
            (λ x.
              Forest hash source (ref_key reference ∷ (below ++ ks')) (reference ∷ rest) (x ++ es'))
            e
            (subst
              (λ x.
                Forest hash source (ref_key reference ∷ (x ++ ks')) (reference ∷ rest)
                  (l.entries ++ es'))
              k (at_leaf reference l bytes ks' rest es' loads forest))
      by ih (a_node n bytes) below loads w r =
          at_node reference n bytes (below ++ ks') rest (es ++ es') loads
            (children_grow depths ih n.children es below rest es' ks' w r forest)

none_visited : (ks : List (List ℕ)) → Fresh [] ks
unfolding mem
none_visited [] = tt
none_visited (k ∷ ks) = (refl, none_visited ks)

-- If a walk from the root finds all chunks and no reference twice, then the iterator gives the
-- entries of the leaves in their order and then ends, where every call returns within any number of
-- rounds above the number of references.
pub manifest_iter-Yields :
    (hash : List ℕ → Digest32) (source : ManifestRef → SnapshotV2Result (List ℕ)) (depths : ℕ)
    (root : ManifestRef) (es : List LeafEntry) (ks : List (List ℕ))
    → walk hash source depths root ≡ ok es
    → refs hash source depths root ≡ ok ks
    → Distinct ks
    → Yields hash source (length ks) (manifest_iter (some root)) (entries_of es)
manifest_iter-Yields hash source depths root es ks w r distinct =
    Forest-Yields hash source ks (root ∷ []) es
      (subst (λ x. Forest hash source x (root ∷ []) es) (append-nil ks)
        (subst (λ x. Forest hash source (ks ++ []) (root ∷ []) x) (append-nil es)
          (grows hash source depths root es ks [] [] [] w r finished)))
      [] distinct (none_visited ks)
