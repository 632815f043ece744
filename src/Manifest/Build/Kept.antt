-- ===== src/Manifest/Build/Kept.antt =====
-- Building a range stores its chunk and keeps what is stored.
use check_po.Prelude.{
  ℕ, zero, suc, ◌≡◌, refl, ap, subst, ◌∙◌, Bool, true, false, inl, inr, Option, none, some, List,
  [], ◌∷◌, list_eq, length, take, drop, get_elem?, ltb, not, ◌||◌, ◌==◌, list_eq→eq, Bool-cases,
  arith,
}
use check_po.Prelude.Result.{ok, ◌>>=◌, >>=-eq_ok, reject_if, ok_or}
use check_po.Prelude.Map.{is_some, get, insert, get-insert_same, get-insert_other}
use check_po.Codec.{
  ChunkKind, node, leaf, Digest32, ManifestRef, ManifestSummary, ManifestChild, ManifestLeaf,
  ManifestNode,
}
use check_po.Codec.Identity.{manifest_id, new_manifest_ref}
use check_po.Manifest.{
  SnapshotV2Result, from_codec, KeyedEntry, invalid, unary_node, range_outside, empty_chunk,
  common_prefix_len, edge_at, leaf_encoded_len, range_summary,
}
use check_po.Manifest.Build.{
  Chunks, ref_key, insert_at, insert_chunk, BuiltRange, build_children, build_leaf, build_node,
  build_range, leaf_entries, range_of, child_ranges,
}
use check_po.Manifest.Leaf.{last_key_of}
use check_po.Codec.Chunk.{encode_leaf, encode_node}

-- The bytes stand at the reference, and what stood at a key still stands there.
abbrev pub Keeps : List ℕ → List ℕ → List ℕ → (ManifestRef × Chunks) → Type 0
Keeps bytes p v out = (get (ref_key out.0) out.1 ≡ some bytes) × (get p out.1 ≡ some v)

insert_at-Keeps :
    (found : Option (List ℕ)) (reference : ManifestRef) (bytes : List ℕ) (chunks : Chunks)
    (out : ManifestRef × Chunks) (p v : List ℕ)
    → get (ref_key reference) chunks ≡ found
    → insert_at found reference bytes chunks ≡ ok out
    → get p chunks ≡ some v
    → Keeps bytes p v out
insert_at-Keeps none reference bytes chunks out p v f h k =
    let same : (reference, insert (ref_key reference) bytes chunks) ≡ out = cc h in
    subst (Keeps bytes p v) same (
      get-insert_same (ref_key reference) bytes chunks,
      elim (Bool-cases (list_eq (ref_key reference) p)) [
        | inl e ↦
            let n : get p chunks ≡ none =
              subst (λ x. get x chunks ≡ none) (list_eq→eq (ref_key reference) p e) f in
            absurd (cc (n, k))
        | inr e ↦ get-insert_other p (ref_key reference) bytes chunks e ∙ k
      ],
    )
insert_at-Keeps (some existing) reference bytes chunks out p v f h k =
    elim (Bool-cases (list_eq existing bytes)) [
      | inl e ↦
          let same : (reference, chunks) ≡ out = ground arith in
          subst (Keeps bytes p v) same (f ∙ ap some (list_eq→eq existing bytes e), k)
      | inr e ↦ absurd (ground arith)
    ]

-- If inserting a chunk succeeds, then its bytes are stored at the reference that it returns, and
-- bytes that were stored at any key before are stored there still.
pub insert_chunk-Keeps :
    (hash : List ℕ → Digest32) (kind : ChunkKind) (bytes : List ℕ) (chunks : Chunks)
    (out : ManifestRef × Chunks) (p v : List ℕ)
    → insert_chunk hash kind bytes chunks ≡ ok out
    → get p chunks ≡ some v
    → Keeps bytes p v out
unfolding insert_chunk
insert_chunk-Keeps hash kind bytes chunks out p v h k =
    let (id, e1, h1) = >>=-eq_ok (from_codec (manifest_id hash kind bytes)) _ h in
    let (reference, e2, h2) = >>=-eq_ok (from_codec (new_manifest_ref kind id)) _ h1 in
    insert_at-Keeps _ reference bytes chunks out p v refl h2 k

-- A chunk stands at the reference, and what stood at a key still stands there.
abbrev pub Holds : List ℕ → List ℕ → (BuiltRange × Chunks) → Type 0
Holds p v out = (is_some (get (ref_key out.0.reference) out.1) ≡ true) × (get p out.1 ≡ some v)

insert-Holds :
    (hash : List ℕ → Digest32) (kind : ChunkKind) (bytes : List ℕ) (summary : ManifestSummary)
    (chunks : Chunks) (out : BuiltRange × Chunks) (p v : List ℕ)
    → (insert_chunk hash kind bytes chunks >>= λ i.
        ok (record { reference = i.0; summary = summary }, i.1))
      ≡ ok out
    → get p chunks ≡ some v
    → Holds p v out
insert-Holds hash kind bytes summary chunks out p v h k =
    let (i, e, h1) = >>=-eq_ok (insert_chunk hash kind bytes chunks) _ h in
    let kept = insert_chunk-Keeps hash kind bytes chunks i p v e k in
    let built : BuiltRange = record { reference = i.0; summary = summary } in
    let same : (built, i.1) ≡ out = cc h1 in subst (Holds p v) same (ap is_some kept.0, kept.1)

pub build_children-keeps :
    (build : ℕ → ℕ → Chunks → SnapshotV2Result (BuiltRange × Chunks)) (p v : List ℕ)
    → ((start end : ℕ) (chunks : Chunks) (out : BuiltRange × Chunks)
        → build start end chunks ≡ ok out
        → get p chunks ≡ some v
        → Holds p v out)
    → (ranges : List (ℕ × ℕ × ℕ)) (chunks : Chunks) (out : List ManifestChild × Chunks)
    → build_children build ranges chunks ≡ ok out
    → get p chunks ≡ some v
    → get p out.1 ≡ some v
unfolding build_children
build_children-keeps build p v ih [] chunks out h k =
    let same : chunks ≡ out.1 = cc h in subst (λ c. get p c ≡ some v) same k
build_children-keeps build p v ih ((edge, start, end) ∷ ranges) chunks out h k =
    let (built, e1, h1) = >>=-eq_ok (build start end chunks) _ h in
    let (rest, e2, h2) = >>=-eq_ok (build_children build ranges built.1) _ h1 in
    let same : rest.1 ≡ out.1 = cc h2 in
    let first = ih start end chunks built e1 k in
    subst (λ c. get p c ≡ some v) same
      (build_children-keeps build p v ih ranges built.1 rest e2 first.1)

build_node-Holds :
    (hash : List ℕ → Digest32) (prefix : List ℕ) (summary : ManifestSummary)
    (built : List ManifestChild × Chunks) (out : BuiltRange × Chunks) (p v : List ℕ)
    → build_node hash prefix summary built ≡ ok out
    → get p built.1 ≡ some v
    → Holds p v out
build_node-Holds hash prefix summary built out p v h k =
    let (u, e1, h1) = >>=-eq_ok (reject_if (ltb (length built.0) 2) (invalid unary_node)) _ h in
    let n : ManifestNode = record { portable_prefix = prefix; children = built.0 } in
    let (node_bytes, e2, h2) = >>=-eq_ok (from_codec (encode_node n)) _ h1 in
    insert-Holds hash node node_bytes summary built.1 out p v h2 k

build_leaf-Holds :
    (hash : List ℕ → Digest32) (prefix : List ℕ) (range : List KeyedEntry)
    (summary : ManifestSummary) (chunks : Chunks) (out : BuiltRange × Chunks) (p v : List ℕ)
    → build_leaf hash prefix range summary chunks ≡ ok out
    → get p chunks ≡ some v
    → Holds p v out
build_leaf-Holds hash prefix range summary chunks out p v h k =
    let l : ManifestLeaf = record { portable_prefix = prefix; entries = leaf_entries range } in
    let (leaf_bytes, e, h1) = >>=-eq_ok (from_codec (encode_leaf l)) _ h in
    insert-Holds hash leaf leaf_bytes summary chunks out p v h1 k

-- If building a range succeeds, at any depth, then a chunk is stored at the reference of the range,
-- and bytes that were stored at any key before are stored there still.
pub build_range-Holds :
    (hash : List ℕ → Digest32) (depths : ℕ) (entries : List KeyedEntry)
    (prefixes : List ManifestSummary) (target : ℕ) (start end : ℕ) (chunks : Chunks)
    (out : BuiltRange × Chunks) (p v : List ℕ)
    → build_range hash depths entries prefixes target start end chunks ≡ ok out
    → get p chunks ≡ some v
    → Holds p v out
unfolding build_range
build_range-Holds hash zero entries prefixes target start end chunks out p v h k = absurd (cc h)
build_range-Holds hash (suc depths) entries prefixes target start end chunks out p v h k =
    let (range, e1, h1) =
      >>=-eq_ok (ok_or (range_of entries start end) (invalid range_outside)) _ h in
    let (first, e2, h2) = >>=-eq_ok (ok_or (get_elem? range 0) (invalid empty_chunk)) _ h1 in
    let prefix_len = common_prefix_len first.key (last_key_of range) in
    let prefix = take prefix_len first.key in
    let (summary, e3, h3) = >>=-eq_ok (range_summary prefixes start end) _ h2 in
    let (encoded, e4, h4) = >>=-eq_ok (leaf_encoded_len prefix summary) _ h3 in
    by range first prefix_len prefix summary
      (λ s e c o. build_range-Holds hash depths entries prefixes target s e c o p v)
      (not (ltb target encoded) || length range == 1) h4
  where
    by :
        (range : List KeyedEntry) (first : KeyedEntry) (prefix_len : ℕ) (prefix : List ℕ)
        (summary : ManifestSummary)
        → ((s e : ℕ) (c : Chunks) (o : BuiltRange × Chunks)
            → build_range hash depths entries prefixes target s e c ≡ ok o
            → get p c ≡ some v
            → Holds p v o)
        → (fits : Bool)
        → elim fits [
          | true ↦ build_leaf hash prefix range summary chunks
          | false ↦
              build_children
                (build_range hash depths entries prefixes target)
                (child_ranges prefix_len
                  (edge_at first.key prefix_len)
                  start
                  (suc start)
                  (drop 1 range))
                chunks
              >>= build_node hash prefix summary
        ]
          ≡ ok out
        → Holds p v out
    by range first prefix_len prefix summary ih true h =
        build_leaf-Holds hash prefix range summary chunks out p v h k
    by range first prefix_len prefix summary ih false h =
        let ranges =
          child_ranges prefix_len (edge_at first.key prefix_len) start (suc start) (drop 1 range) in
        let (built, e, h1) =
          >>=-eq_ok (build_children (build_range hash depths entries prefixes target) ranges chunks)
            _ h in
        build_node-Holds hash prefix summary built out p v h1 (
          build_children-keeps (build_range hash depths entries prefixes target) p v ih ranges
            chunks built e k)
