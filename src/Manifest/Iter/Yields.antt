-- ===== src/Manifest/Iter/Yields.antt =====
-- The rounds of the iterator, when no reference is pending twice.
use check_po.Prelude.{
  ℕ, zero, suc, ◌<◌, ◌≡◌, refl, ◌∙◌, false, none, some, List, [], ◌∷◌, ◌++◌, arith, length, list_eq,
  All,
}
use check_po.Prelude.Result.{ok}
use check_po.Prelude.Map.{mem}
use check_po.Codec.{Digest32, LeafEntry, ManifestRef, ManifestLeaf, ManifestNode}
use check_po.Manifest.{SnapshotV2Result, ManifestEntry, entry_of_leaf}
use check_po.Manifest.Leaf.{a_node, a_leaf, load_chunk}
use check_po.Manifest.Build.{ref_key}
use check_po.Manifest.Iter.{ManifestIter, children_of, Next, next_loop, next}

abbrev pub entries_of : List LeafEntry → List ManifestEntry
entries_of [] = []
entries_of (e ∷ es) = entry_of_leaf e ∷ entries_of es

-- No key is there twice.
abbrev pub Distinct : List (List ℕ) → Type 0
Distinct [] = Unit
Distinct (k ∷ ks) = All (λ x. list_eq k x ≡ false) ks × Distinct ks

-- None of the keys is among the visited ones.
abbrev pub Fresh : List (List ℕ) → List (List ℕ) → Type 0
Fresh visited ks = All (λ k. mem k visited ≡ false) ks

Fresh-visit :
    (k : List ℕ) (visited ks : List (List ℕ))
    → All (λ x. list_eq k x ≡ false) ks
    → Fresh visited ks
    → Fresh (k ∷ visited) ks
unfolding mem
Fresh-visit k visited [] d f = tt
Fresh-visit k visited (x ∷ ks) d f = (rw (d.0) (f.0), Fresh-visit k visited ks d.1 f.1)

module _ (hash : List ℕ → Digest32) (source : ManifestRef → SnapshotV2Result (List ℕ)) where
  -- With more rounds than the number, the iterator gives just these entries, and then the end.
  abbrev pub Yields : ℕ → ManifestIter → List ManifestEntry → Type 0
  Yields n it [] =
      (it' : ManifestIter) × ((rounds : ℕ)
        → n < rounds
        → next hash source rounds it ≡ some (none, it'))
  Yields n it (e ∷ es) =
      (it' : ManifestIter) × ((rounds : ℕ)
        → n < rounds
        → next hash source rounds it ≡ some (some (ok e), it'))
      × Yields n it' es

  Yields-more :
      (n : ℕ) (it : ManifestIter) (es : List ManifestEntry) → Yields n it es → Yields (suc n) it es
  Yields-more n it [] (it', h) = (it', λ rounds l. h rounds (omega (arith, l)))
  Yields-more n it (e ∷ es) (it', h, rest) =
      (it', (λ rounds l. h rounds (omega (arith, l))), Yields-more n it' es rest)

  -- A round before.
  Yields-round :
      (n : ℕ) (it again : ManifestIter) (es : List ManifestEntry)
      → ((rounds : ℕ) → next hash source (suc rounds) it ≡ next hash source rounds again)
      → Yields n again es
      → Yields (suc n) it es
  Yields-round n it again [] same (it', h) = (it', shifted (some (none, it')) h)
    where
      shifted :
          (out : Next)
          → ((rounds : ℕ) → n < rounds → next hash source rounds again ≡ out)
          → (rounds : ℕ) → suc n < rounds
          → next hash source rounds it ≡ out
      shifted out h zero l = absurd (omega (arith, l))
      shifted out h (suc rounds) l = same rounds ∙ h rounds (omega (arith, l))
  Yields-round n it again (e ∷ es) same (it', h, rest) =
      (it', shifted (some (some (ok e), it')) h, Yields-more n it' es rest)
    where
      shifted :
          (out : Next)
          → ((rounds : ℕ) → n < rounds → next hash source rounds again ≡ out)
          → (rounds : ℕ) → suc n < rounds
          → next hash source rounds it ≡ out
      shifted out h zero l = absurd (omega (arith, l))
      shifted out h (suc rounds) l = same rounds ∙ h rounds (omega (arith, l))

  -- The pending references lead through these keys to these entries.
  pub data Forest : List (List ℕ) → List ManifestRef → List LeafEntry → Type 0 where
    finished : Forest [] [] []
    at_leaf :
        (reference : ManifestRef) (l : ManifestLeaf) (bytes : List ℕ) (ks : List (List ℕ))
        (rest : List ManifestRef) (es : List LeafEntry)
        → load_chunk hash source reference ≡ ok (a_leaf l bytes)
        → Forest ks rest es
        → Forest (ref_key reference ∷ ks) (reference ∷ rest) (l.entries ++ es)
    at_node :
        (reference : ManifestRef) (n : ManifestNode) (bytes : List ℕ) (ks : List (List ℕ))
        (rest : List ManifestRef) (es : List LeafEntry)
        → load_chunk hash source reference ≡ ok (a_node n bytes)
        → Forest ks (children_of n.children ++ rest) es
        → Forest (ref_key reference ∷ ks) (reference ∷ rest) es

  abbrev going : List ManifestRef → List (List ℕ) → List LeafEntry → ManifestIter
  going pending visited entries = record {
    pending = pending;
    visited = visited;
    leaf_entries = entries;
    failed = false;
  }

  -- The entries of the leaf that is open come first.
  open_leaf :
      (n : ℕ) (pending : List ManifestRef) (visited : List (List ℕ)) (front es : List LeafEntry)
      → Yields n (going pending visited []) (entries_of es)
      → Yields n (going pending visited front) (entries_of (front ++ es))
  unfolding next next_loop
  open_leaf n pending visited [] es h = h
  open_leaf n pending visited (e ∷ front) es h =
      (going pending visited front, first, open_leaf n pending visited front es h)
    where
      first :
          (rounds : ℕ)
          → n < rounds
          → next hash source rounds (going pending visited (e ∷ front))
            ≡ some (some (ok (entry_of_leaf e)), going pending visited front)
      first zero l = absurd (omega (arith, l))
      first (suc rounds) l = refl

  leaf_round :
      (reference : ManifestRef) (l : ManifestLeaf) (bytes : List ℕ) (rest : List ManifestRef)
      (visited : List (List ℕ)) (rounds : ℕ)
      → load_chunk hash source reference ≡ ok (a_leaf l bytes)
      → mem (ref_key reference) visited ≡ false
      → next hash source (suc rounds) (going (reference ∷ rest) visited [])
        ≡ next hash source rounds (going rest (ref_key reference ∷ visited) l.entries)
  unfolding next next_loop
  leaf_round reference l bytes rest visited rounds loads fresh = rw (fresh, loads) refl

  node_round :
      (reference : ManifestRef) (n : ManifestNode) (bytes : List ℕ) (rest : List ManifestRef)
      (visited : List (List ℕ)) (rounds : ℕ)
      → load_chunk hash source reference ≡ ok (a_node n bytes)
      → mem (ref_key reference) visited ≡ false
      → next hash source (suc rounds) (going (reference ∷ rest) visited [])
        ≡ next hash source rounds
            (going (children_of n.children ++ rest) (ref_key reference ∷ visited) [])
  unfolding next next_loop
  node_round reference n bytes rest visited rounds loads fresh = rw (fresh, loads) refl

  pub Forest-Yields :
      (ks : List (List ℕ)) (pending : List ManifestRef) (es : List LeafEntry)
      → Forest ks pending es
      → (visited : List (List ℕ)) → Distinct ks
      → Fresh visited ks
      → Yields (length ks) (going pending visited []) (entries_of es)
  unfolding next next_loop
  Forest-Yields _ _ _ finished visited d f = (going [] visited [], ended)
    where
      ended :
          (rounds : ℕ)
          → 0 < rounds
          → next hash source rounds (going [] visited []) ≡ some (none, going [] visited [])
      ended zero l = absurd (omega (arith, l))
      ended (suc rounds) l = refl
  Forest-Yields _ _ _ (at_leaf reference l bytes ks rest es loads forest) visited d f =
      Yields-round (length ks) (going (reference ∷ rest) visited [])
        (going rest (ref_key reference ∷ visited) l.entries) (entries_of (l.entries ++ es))
        (λ rounds. leaf_round reference l bytes rest visited rounds loads f.0)
        (open_leaf (length ks) rest (ref_key reference ∷ visited) l.entries es (
          Forest-Yields ks rest es forest (ref_key reference ∷ visited) d.1
            (Fresh-visit (ref_key reference) visited ks d.0 f.1)))
  Forest-Yields _ _ _ (at_node reference n bytes ks rest es loads forest) visited d f =
      Yields-round (length ks) (going (reference ∷ rest) visited [])
        (going (children_of n.children ++ rest) (ref_key reference ∷ visited) []) (entries_of es)
        (λ rounds. node_round reference n bytes rest visited rounds loads f.0)
        (Forest-Yields ks (children_of n.children ++ rest) es forest (ref_key reference ∷ visited)
          d.1 (Fresh-visit (ref_key reference) visited ks d.0 f.1))
