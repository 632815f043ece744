-- ===== src/Manifest/Subtree/Walk.antt =====
-- The leaves below a reference in their order, and what a valid subtree holds.
use check_po.Prelude.{
  ℕ, zero, suc, ◌≤◌, ◌<◌, ◌≡◌, refl, sym, ap, subst, ◌∙◌, List, [], ◌∷◌, ◌++◌, arith, length, take,
  leb, All, All-of_append, false,
}
use check_po.Prelude.Result.{ok, err, ◌>>=◌, reject_if, >>=-eq_ok, reject_if-eq_ok}
use check_po.Codec.{Digest32, LeafEntry, ManifestRef, ManifestChild}
use check_po.Manifest.{
  SnapshotV2Result, KeyedEntry, leaf_of_entry, invalid, too_deep, edge_at, edges_unordered,
}
use check_po.Manifest.Keys.{IsLadder}
use check_po.Manifest.Leaf.{
  DecodedChunk, a_node, a_leaf, load_chunk, ValidationInfo, first_key_of, last_key_of,
}
use check_po.Manifest.Sums.{total}
use check_po.Manifest.Build.{leaf_entries, max_manifest_depth}
use check_po.Manifest.Tree.Bisect.{child_of, Ascending}
use check_po.Manifest.Tree.{to_child, descend}
use check_po.Manifest.Tree.Sorted.{find_key}
use check_po.Manifest.Tree.Search.{HasKey}
use check_po.Manifest.Tree.Ladder.{IsLadder-append}
use check_po.Manifest.Tree.Edges.{EdgeIs, EdgeOver, Rising, IsLadder-Rising, Rising-Over}
use check_po.Manifest.Tree.Below.{child_of-find}
use check_po.Manifest.Subtree.{check_edges}

-- The entries of the chunks that `walk` gives for the children, one after the other.
abbrev pub walk_children :
    (ManifestRef → SnapshotV2Result (List LeafEntry))
    → List ManifestChild
    → SnapshotV2Result (List LeafEntry)
walk_children next [] = ok []
walk_children next (c ∷ cs) =
    next c.child >>= λ front. walk_children next cs >>= λ back. ok (front ++ back)

abbrev pub walk_chunk :
    (ManifestRef → SnapshotV2Result (List LeafEntry))
    → DecodedChunk
    → SnapshotV2Result (List LeafEntry)
walk_chunk next (a_leaf l bytes) = ok l.entries
walk_chunk next (a_node n bytes) = walk_children next n.children

leaf_entries-append :
    (front back : List KeyedEntry)
    → leaf_entries (front ++ back) ≡ leaf_entries front ++ leaf_entries back
leaf_entries-append [] back = refl
leaf_entries-append (e ∷ front) back =
    ap (λ r. leaf_of_entry e.entry ∷ r) (leaf_entries-append front back)

-- All edges lie between the first and the last.
Rising-last :
    (n : ℕ) (x : KeyedEntry) (es : List KeyedEntry)
    → Rising n (edge_at x.key n) es
    → edge_at x.key n ≤ edge_at (last_key_of (x ∷ es)) n
Rising-last n x [] h = omega arith
Rising-last n x (y ∷ es) h = omega (arith, h.0, Rising-last n y es h.1)

one_edge :
    (n edge : ℕ) (x : KeyedEntry) (es : List KeyedEntry)
    → edge_at x.key n ≡ edge
    → Rising n (edge_at x.key n) es
    → edge_at (last_key_of (x ∷ es)) n ≡ edge
    → All (EdgeIs n edge) (x ∷ es)
one_edge n edge x [] f h l = (f, tt)
one_edge n edge x (y ∷ es) f h l =
    let same : edge_at y.key n ≡ edge = omega (arith, f, l, h.0, Rising-last n y es h.1) in
    (f, one_edge n edge y es same h.1 l)

module _ (hash : List ℕ → Digest32) (source : ManifestRef → SnapshotV2Result (List ℕ)) where
  -- The entries of the leaves below a reference, in their order, within some depths.
  unfoldable pub walk : ℕ → ManifestRef → SnapshotV2Result (List LeafEntry)
  walk zero reference = err (invalid (too_deep max_manifest_depth))
  walk (suc depths) reference = load_chunk hash source reference >>= walk_chunk (walk depths)

module _ (nfc : List ℕ → List ℕ) (to_lowercase : ℕ → ℕ × ℕ) (hash : List ℕ → Digest32)
    (source : ManifestRef → SnapshotV2Result (List ℕ)) where
  -- The entries below a reference: their keys increase from the first to the last that the
  -- information names, its summary is theirs, walking finds them, and a lookup finds what a search
  -- of them finds.
  pub record Tree (reference : ManifestRef) (info : ValidationInfo) (range : List KeyedEntry)
      : Type 0 where
    pub filled : 1 ≤ length range
    pub ladder : IsLadder range
    pub keys : All (HasKey nfc to_lowercase) range
    pub first : first_key_of range ≡ info.first_key
    pub last : last_key_of range ≡ info.last_key
    pub summed : total range ≡ info.summary
    pub walks :
        (depths : ℕ)
        → info.maximum_relative_depth < depths
        → walk hash source depths reference ≡ ok (leaf_entries range)
    pub finds :
        (key : List ℕ) (depths : ℕ)
        → info.maximum_relative_depth < depths
        → descend nfc to_lowercase hash source depths key reference ≡ ok (find_key key range)

  -- The entries are those of the children, whose trees are at most so deep.
  abbrev pub Parted : ℕ → ℕ → List ManifestChild → List KeyedEntry → Type 0
  Parted n depth [] range = range ≡ []
  Parted n depth (c ∷ cs) range =
      (part : List KeyedEntry) × (more : List KeyedEntry) × (info : ValidationInfo) × (range
        ≡ part ++ more)
      × Tree c.child info part
      × (info.maximum_relative_depth < depth)
      × (edge_at info.first_key n ≡ c.edge)
      × (edge_at info.last_key n ≡ c.edge)
      × Parted n depth cs more

  pub Parted-walks :
      (n depth depths : ℕ) (cs : List ManifestChild) (range : List KeyedEntry)
      → depth ≤ depths
      → Parted n depth cs range
      → walk_children (walk hash source depths) cs ≡ ok (leaf_entries range)
  Parted-walks n depth depths [] range l h = ap (λ r. ok (leaf_entries r)) (sym h)
  Parted-walks n depth depths (c ∷ cs) range l (part, more, info, cut, tree, d, f, e, rest) =
      rw (tree.walks depths (omega (arith, l, d)), Parted-walks n depth depths cs more l rest)
        (ap ok (sym (leaf_entries-append part more)) ∙ ap (λ r. ok (leaf_entries r)) (sym cut))

  part_EdgeIs :
      (n edge : ℕ) (low : List ℕ) (part : List KeyedEntry)
      → IsLadder part
      → All (λ x. take n x.key ≡ take n low) part
      → edge_at (first_key_of part) n ≡ edge
      → edge_at (last_key_of part) n ≡ edge
      → All (EdgeIs n edge) part
  part_EdgeIs n edge low [] ladder shared f l = tt
  part_EdgeIs n edge low (x ∷ es) ladder shared f l =
      one_edge n edge x es f (IsLadder-Rising n low x es ladder shared) l

  over_edge :
      (n edge : ℕ) (low : List ℕ) (more : List KeyedEntry)
      → IsLadder more
      → All (λ x. take n x.key ≡ take n low) more
      → edge < edge_at (first_key_of more) n
      → All (EdgeOver n edge) more
  over_edge n edge low [] ladder shared l = tt
  over_edge n edge low (x ∷ es) ladder shared l =
      (l, Rising-Over n edge (edge_at x.key n) es l (IsLadder-Rising n low x es ladder shared))

  first_of-append :
      (part more : List KeyedEntry)
      → 1 ≤ length part
      → first_key_of (part ++ more) ≡ first_key_of part
  first_of-append [] more l = absurd (omega arith)
  first_of-append (x ∷ part) more l = refl

  edges_step :
      (c d : ManifestChild) (cs : List ManifestChild)
      → check_edges (c ∷ d ∷ cs) ≡ ok tt
      → (c.edge < d.edge) × (check_edges (d ∷ cs) ≡ ok tt)
  unfolding check_edges
  edges_step c d cs h =
      let (u, e, rest) = >>=-eq_ok (reject_if (leb d.edge c.edge) (invalid edges_unordered)) _ h in
      (less (reject_if-eq_ok _ _ e), rest)
    where
      less : leb d.edge c.edge ≡ false → c.edge < d.edge
      less h = ground arith

  all_over :
      (low : ℕ) (c : ManifestChild) (cs : List ManifestChild)
      → low < c.edge
      → check_edges (c ∷ cs) ≡ ok tt
      → All (λ (d : ManifestChild). low < d.edge) (c ∷ cs)
  all_over low c [] l h = (l, tt)
  all_over low c (d ∷ cs) l h =
      let (step, rest) = edges_step c d cs h in (l, all_over low d cs (omega (arith, l, step)) rest)

  pub check_edges-Ascending : (cs : List ManifestChild) → check_edges cs ≡ ok tt → Ascending cs
  check_edges-Ascending [] h = tt
  check_edges-Ascending (c ∷ []) h = (tt, tt)
  check_edges-Ascending (c ∷ d ∷ cs) h =
      let (step, rest) = edges_step c d cs h in
      (all_over c.edge d cs step rest, check_edges-Ascending (d ∷ cs) rest)

  -- The entries behind a part have greater edges.
  more_EdgeOver :
      (n depth : ℕ) (low : List ℕ) (c : ManifestChild) (cs : List ManifestChild)
      (more : List KeyedEntry)
      → IsLadder more
      → All (λ x. take n x.key ≡ take n low) more
      → check_edges (c ∷ cs) ≡ ok tt
      → Parted n depth cs more
      → All (EdgeOver n c.edge) more
  more_EdgeOver n depth low c [] more ladder shared h rest =
      subst (All (EdgeOver n c.edge)) (sym rest) tt
  more_EdgeOver n depth low c (d ∷ cs) more ladder shared h
        (part, behind, info, cut, tree, b, f, l, rest) =
      let key : first_key_of more ≡ info.first_key =
        ap first_key_of cut ∙ first_of-append part behind tree.filled ∙ tree.first in
      let at : edge_at (first_key_of more) n ≡ d.edge = ap (λ k. edge_at k n) key ∙ f in
      over_edge n c.edge low more ladder shared
        (subst (λ e. c.edge < e) (sym at) (edges_step c d cs h).0)

  edges_tail :
      (c : ManifestChild) (cs : List ManifestChild)
      → check_edges (c ∷ cs) ≡ ok tt
      → check_edges cs ≡ ok tt
  unfolding check_edges
  edges_tail c [] h = refl
  edges_tail c (d ∷ cs) h = (edges_step c d cs h).1

  pub Parted-finds :
      (key : List ℕ) (n depth depths : ℕ) (low : List ℕ) (cs : List ManifestChild)
      (range : List KeyedEntry)
      → depth ≤ depths
      → IsLadder range
      → All (λ x. take n x.key ≡ take n low) range
      → check_edges cs ≡ ok tt
      → Parted n depth cs range
      → to_child (descend nfc to_lowercase hash source depths key) (child_of (edge_at key n) cs)
        ≡ ok (find_key key range)
  unfolding child_of
  Parted-finds key n depth depths low [] range l ladder shared h rest =
      ap (λ r. ok (find_key key r)) (sym rest)
  Parted-finds key n depth depths low (c ∷ cs) range l ladder shared h
        (part, more, info, cut, tree, d, f, e, rest) =
      let ladders = IsLadder-append part more (subst IsLadder cut ladder) in
      let shares =
        All-of_append (λ x. take n x.key ≡ take n low) part more
          (subst (All (λ x. take n x.key ≡ take n low)) cut shared) in
      child_of-find key n c.edge part more c cs (descend nfc to_lowercase hash source depths key)
        refl
        (part_EdgeIs n c.edge low part tree.ladder shares.0 (ap (λ k. edge_at k n) tree.first ∙ f)
          (ap (λ k. edge_at k n) tree.last ∙ e))
        (more_EdgeOver n depth low c cs more ladders.1 shares.1 h rest)
        (tree.finds key depths (omega (arith, l, d)))
        (Parted-finds key n depth depths low cs more l ladders.1 shares.1 (edges_tail c cs h) rest)
      ∙ ap (λ r. ok (find_key key r)) (sym cut)
