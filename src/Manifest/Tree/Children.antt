-- ===== src/Manifest/Tree/Children.antt =====
-- A lookup in a node that was built finds what a search of its range finds.
use check_po.Prelude.{
  ◌<◌, ℕ, suc, ◌+◌, ◌≤◌, ◌≡◌, refl, sym, ap, subst, ◌∙◌, List, [], ◌∷◌, ◌++◌, arith, length,
  length-append, append_assoc, take, ltb, All, All-of_append,
}
use check_po.Prelude.Result.{ok, ◌>>=◌, reject_if, >>=-eq_ok}
use check_po.Prelude.Bytes.{IsByte}
use check_po.Codec.{
  Digest32, node, ManifestSummary, ManifestChild, ManifestNode, IsArray, IsSummary,
}
use check_po.Codec.Chunk.{encode_node}
use check_po.Codec.Chunk.Values.{IsChildValue, IsNodeValue}
use check_po.Manifest.{SnapshotV2Result, KeyedEntry, from_codec, edge_at, unary_node, invalid}
use check_po.Manifest.Keys.{IsLadder}
use check_po.Manifest.Leaf.Loaded.{from_codec-eq_ok}
use check_po.Manifest.Build.{Chunks, ref_key, insert_chunk, BuiltRange, build_node, build_children}
use check_po.Manifest.Build.Kept.{insert_chunk-Keeps}
use check_po.Manifest.Tree.Bisect.{child_of, Ascending}
use check_po.Manifest.Tree.{load_manifest_chunk, to_child, in_chunk, descend}
use check_po.Manifest.Tree.Below.{child_of-find, in_chunk-node}
use check_po.Manifest.Tree.Sorted.{find_key}
use check_po.Manifest.Tree.Ladder.{IsLadder-append}
use check_po.Manifest.Tree.Edges.{EdgeIs, EdgeOver, Split}
use check_po.Manifest.Tree.Stored.{insert_chunk-stores, load_chunk-node}
use check_po.Manifest.Tree.Nodes.{Kept, Good, Found, get_or-IsByte}

module _ (nfc : List ℕ → List ℕ) (to_lowercase : ℕ → ℕ × ℕ) (hash : List ℕ → Digest32)
    (digest : (bs : List ℕ) → IsArray 32 (hash bs)) (key : List ℕ) where
  -- What `build` makes of a part of the entries: `front` and `back` are what stands around it.
  abbrev pub Builds :
      List KeyedEntry → ℕ → (ℕ → ℕ → Chunks → SnapshotV2Result (BuiltRange × Chunks)) → Type 0
  Builds entries depths build =
      (front part back : List KeyedEntry) (start end : ℕ) (chunks : Chunks)
      (out : BuiltRange × Chunks)
      → entries ≡ front ++ (part ++ back)
      → start ≡ length front
      → end ≡ start + length part
      → All (Good nfc to_lowercase) part
      → IsLadder part
      → build start end chunks ≡ ok out
      → Found nfc to_lowercase hash key depths part out × Kept chunks out.1

  -- The children are values of their types, their edges increase, and the one with the edge of the key leads to what a
  -- search of all parts finds.
  abbrev pub FoundBelow : ℕ → ℕ → List KeyedEntry → List ManifestChild × Chunks → Type 0
  FoundBelow depths n range built =
      All IsChildValue built.0
      × Ascending built.0
      × ((low : ℕ) → All (EdgeOver n low) range → All (λ (d : ManifestChild). low < d.edge) built.0)
      × ((final : Chunks)
          → Kept built.1 final
          → to_child (descend nfc to_lowercase hash (load_manifest_chunk final) depths key)
              (child_of (edge_at key n) built.0)
            ≡ ok (find_key key range))

  part_edge :
      (n edge : ℕ) (part : List KeyedEntry)
      → 1 ≤ length part
      → All (Good nfc to_lowercase) part
      → All (EdgeIs n edge) part
      → IsByte edge
  unfolding edge_at
  part_edge n edge [] l good is = absurd (omega arith)
  part_edge n edge (e ∷ part) l good is = subst IsByte is.0 (get_or-IsByte n e.key good.0.2)

  part_over :
      (n edge low : ℕ) (part : List KeyedEntry)
      → 1 ≤ length part
      → All (EdgeIs n edge) part
      → All (EdgeOver n low) part
      → low < edge
  part_over n edge low [] l is over = absurd (omega arith)
  part_over n edge low (e ∷ part) l is over = omega (arith, is.0, over.0)

  pub build_children-Found :
      (entries : List KeyedEntry) (depths n : ℕ)
      (build : ℕ → ℕ → Chunks → SnapshotV2Result (BuiltRange × Chunks))
      → Builds entries depths build
      → (ranges : List (ℕ × ℕ × ℕ)) (front range back : List KeyedEntry) (at : ℕ)
      → entries ≡ front ++ (range ++ back)
      → at ≡ length front
      → All (Good nfc to_lowercase) range
      → IsLadder range
      → Split n at ranges range
      → (chunks : Chunks) (built : List ManifestChild × Chunks)
      → build_children build ranges chunks ≡ ok built
      → FoundBelow depths n range built × Kept chunks built.1
  unfolding build_children child_of
  build_children-Found entries depths n build ih [] front range back at whole place good ladder
        split chunks built h =
      let same : ([], chunks) ≡ built = cc h in
      subst (λ b. FoundBelow depths n range b × Kept chunks b.1) same
        (
          (tt, tt, (λ low over. tt), λ final kept. ap (λ r. ok (find_key key r)) (sym split)),
          λ p v k. k,
        )
  build_children-Found entries depths n build ih ((edge, start, end) ∷ ranges) front range back at
        whole place good ladder split chunks built h =
      let (part, more, cut, s, e, l, is, over, rest_split) = split in
      let (first, e1, h1) = >>=-eq_ok (build start end chunks) _ h in
      let (rest, e2, h2) = >>=-eq_ok (build_children build ranges first.1) _ h1 in
      let c : ManifestChild = record {
        edge = edge;
        child = first.0.reference;
        summary = first.0.summary;
      } in
      let same : (c ∷ rest.0, rest.1) ≡ built = cc h2 in
      let goods =
        All-of_append (Good nfc to_lowercase) part more
          (subst (All (Good nfc to_lowercase)) cut good) in
      let ladders = IsLadder-append part more (subst IsLadder cut ladder) in
      let around : entries ≡ front ++ (part ++ (more ++ back)) =
        whole
        ∙ ap (λ r. front ++ (r ++ back)) cut
        ∙ ap (λ r. front ++ r) (append_assoc part more back) in
      let behind : entries ≡ (front ++ part) ++ (more ++ back) =
        around ∙ sym (append_assoc front part (more ++ back)) in
      let ((id, sums, find), kept) =
        ih front part (more ++ back) start end chunks first around (s ∙ place)
          (e ∙ ap (λ x. x + length part) (sym s)) goods.0 ladders.0 e1 in
      let ((values, up, overs, finds), keeps) =
        build_children-Found entries depths n build ih ranges (front ++ part) more back end behind
          (e ∙ (omega (arith, place, length-append front part))) goods.1 ladders.1 rest_split
          first.1 rest e2 in
      subst (λ b. FoundBelow depths n range b × Kept chunks b.1) same
        (
          (
            (
              record { edge = part_edge n edge part l goods.0 is; child = id; summary = sums },
              values,
            ),
            (overs edge over, up),
            (λ low all.
                let alls =
                  All-of_append (EdgeOver n low) part more (subst (All (EdgeOver n low)) cut all) in
                (part_over n edge low part l is alls.0, overs low alls.1)),
            λ final k.
                child_of-find key n edge part more c rest.0
                  (descend nfc to_lowercase hash (load_manifest_chunk final) depths key) refl is
                  over (find final (λ p v x. k p v (keeps p v x))) (finds final k)
                ∙ ap (λ r. ok (find_key key r)) (sym cut),
          ),
          λ p v x. keeps p v (kept p v x),
        )

  pub build_node-Found :
      (depths : ℕ) (prefix : List ℕ) (range : List KeyedEntry) (summary : ManifestSummary)
      (built : List ManifestChild × Chunks) (out : BuiltRange × Chunks)
      → All (λ e. take (length prefix) e.key ≡ prefix) range
      → All IsByte prefix
      → IsSummary summary
      → FoundBelow depths (length prefix) range built
      → build_node hash prefix summary built ≡ ok out
      → Found nfc to_lowercase hash key (suc depths) range out
  unfolding descend
  build_node-Found depths prefix range summary built out shared bytes sums
        (values, up, overs, finds) h =
      let (u, e0, h0) = >>=-eq_ok (reject_if (ltb (length built.0) 2) (invalid unary_node)) _ h in
      let n : ManifestNode = record { portable_prefix = prefix; children = built.0 } in
      let (stored, e1, h1) = >>=-eq_ok (from_codec (encode_node n)) _ h0 in
      let (i, e2, h2) = >>=-eq_ok (insert_chunk hash node stored built.1) _ h1 in
      let b : BuiltRange = record { reference = i.0; summary = summary } in
      let same : (b, i.1) ≡ out = cc h2 in
      let (names, at) = insert_chunk-stores hash digest node stored built.1 i e2 in
      let value : IsNodeValue n = record { prefix = bytes; children = values } in
      subst (Found nfc to_lowercase hash key (suc depths) range) same (
        names.1,
        sums,
        λ final kept.
            ap
              (λ c.
                c
                >>= in_chunk nfc to_lowercase
                    (descend nfc to_lowercase hash (load_manifest_chunk final) depths key) key)
              (load_chunk-node hash digest n stored i.0 final value (from_codec-eq_ok _ stored e1)
                names (kept (ref_key i.0) stored at))
            ∙ in_chunk-node nfc to_lowercase key n stored range
                (descend nfc to_lowercase hash (load_manifest_chunk final) depths key) shared up
                (finds final
                  (λ p v x. kept p v (insert_chunk-Keeps hash node stored built.1 i p v e2 x).1)),
      )
