-- ===== src/Codec/Chunk/RoundTrip.antt =====
-- What an encoder wrote, its decoder reads back.
use check_po.Prelude.{
  String, ℕ, ◌≤◌, ◌<◌, ◌≡◌, false, not, ◌&&◌, Option, none, some, List, [], ◌∷◌, arith, length, All,
}
use check_po.Prelude.Result.{ok, >>=-eq_ok}
use check_po.Prelude.Text.Utf8.{as_bytes}
use check_po.Codec.{
  root, node, leaf, ManifestRef, ManifestSummary, SnapshotRoot, LeafEntry, ManifestLeaf,
  ManifestChild, ManifestNode, leaf_summary, node_summary, max_checkpoint_name_bytes,
  max_tool_version_bytes, max_prefix_bytes, max_leaf_entries, max_node_children, empty_summary,
  summary_eq,
}
use check_po.Codec.Checks.{validate_root, validate_bytes, validate_count, is_none}
use check_po.Codec.Layout.{root_bytes, leaf_bytes, node_bytes}
use check_po.Codec.Writer.{Write, new_writer, write_root, write_leaf, write_node}
use check_po.Codec.Writer.Wrote.{Wrote, IsManifest}
use check_po.Codec.Writer.Payload.{
  Wrote-root, Wrote-leaf, Wrote-node, IsStorableEntry, IsStorableChild,
}
use check_po.Codec.Reader.Reads.{IsOptionalRef}
use check_po.Codec.Reader.Values.{IsRoot, IsEntry, IsLeaf, IsChild, IsNode}
use check_po.Codec.Reader.Payload.{ReadsAll-root, ReadsAll-leaf, ReadsAll-node}
use check_po.Codec.Chunk.{
  written, encode_root, decode_root, encode_leaf, decode_leaf, encode_node, decode_node,
}
use check_po.Codec.Chunk.Envelope.{Fits, framed, envelope-eq_ok, decode_envelope-framed}
use check_po.Codec.Chunk.Values.{
  IsOptionalRefValue, IsRootValue, IsEntryValue, IsLeafValue, IsChildValue, IsNodeValue,
}
use check_po.Codec.Chunk.Summaries.{summary_eq_refl, leaf_summary-IsSummary, node_summary-IsSummary}

-- What `validate_root` leaves.
pub record Validated (r : SnapshotRoot) : Type 0 where
  pub name_fits : length (as_bytes r.checkpoint_name) ≤ max_checkpoint_name_bytes
  pub tool_fits : length (as_bytes r.tool_version) ≤ max_tool_version_bytes
  pub nanoseconds_fit : r.created.nanoseconds < 1_000_000_000
  pub empty : (is_none r.manifest && not (summary_eq r.summary empty_summary)) ≡ false

validate_root-Validated : (r : SnapshotRoot) → validate_root r ≡ ok tt → Validated r
unfolding validate_root
validate_root-Validated r h = ground arith

written-eq_ok :
    {f : Write} {bs : List ℕ} {C : Type 0}
    → Wrote f bs C
    → (payload : List ℕ) → written f ≡ ok payload
    → (payload ≡ bs) × C
written-eq_ok {f} p payload h =
    let (w, e, e') = >>=-eq_ok (f new_writer) (λ w. ok w.bytes) h in
    let (bytes, c) = p.appends new_writer w e in
    (let same : w.bytes ≡ payload = cc e' in cc (same, bytes), c)

optional_ref : (o : Option ManifestRef) → IsOptionalRefValue o → IsManifest o → IsOptionalRef o
optional_ref none v m = tt
optional_ref (some r) v m = (m, v)

-- A root that encodes is within the limits that its decoder checks.
pub encode_root-IsRoot :
    (r : SnapshotRoot) (stored : List ℕ)
    → IsRootValue r
    → encode_root r ≡ ok stored
    → IsRoot r × Validated r × (stored ≡ framed root (root_bytes r)) × Fits root (root_bytes r)
unfolding encode_root
encode_root-IsRoot r stored v h =
    let (u, checked, h1) = >>=-eq_ok (validate_root r) _ h in
    let (payload, wrote, h2) = >>=-eq_ok (written (write_root r)) _ h1 in
    let (same, manifest) = written-eq_ok (Wrote-root r) payload wrote in
    let valid = validate_root-Validated r checked in
    let (frame, fits) = envelope-eq_ok root payload stored h2 in
    (
      record {
        project = v.project;
        parent = v.parent;
        created = (v.created.0, valid.nanoseconds_fit);
        name = v.name;
        name_fits = valid.name_fits;
        tool = v.tool;
        tool_fits = valid.tool_fits;
        manifest = optional_ref r.manifest v.manifest manifest;
        summary = v.summary;
      },
      valid,
      rw same at frame,
      rw same at fits,
    )

-- A root that encodes, decodes to itself.
pub decode_root-encode_root :
    (r : SnapshotRoot) (stored : List ℕ)
    → IsRootValue r
    → encode_root r ≡ ok stored
    → decode_root stored ≡ ok r
unfolding decode_root encode_root
decode_root-encode_root r stored v h =
    let (is_root, valid, frame, fits) = encode_root-IsRoot r stored v h in
    let (u, checked, h1) = >>=-eq_ok (validate_root r) _ h in
    rw (
      frame,
      decode_envelope-framed root (root_bytes r) fits,
      (ReadsAll-root r is_root).at,
      valid.empty,
      checked,
    )

validate_bytes-eq_ok :
    (field : String) (bs : List ℕ) (bound : ℕ) {u : Unit {0}}
    → validate_bytes field bs bound ≡ ok u
    → length bs ≤ bound
unfolding validate_bytes
validate_bytes-eq_ok field bs bound h = ground arith

validate_count-eq_ok :
    (field : String) (n bound : ℕ) {u : Unit {0}} → validate_count field n bound ≡ ok u → n ≤ bound
unfolding validate_count
validate_count-eq_ok field n bound h = ground arith

entries_valid :
    (es : List LeafEntry) → All IsEntryValue es → All IsStorableEntry es → All IsEntry es
entries_valid [] v s = tt
entries_valid (e ∷ es) v s = (
  record {
    path = v.0.path;
    path_fits = s.0.path_fits;
    size = v.0.size;
    modified = (v.0.modified.0, s.0.nanoseconds_fit);
    object = v.0.object;
  },
  entries_valid es v.1 s.1,
)

children_valid :
    (cs : List ManifestChild) → All IsChildValue cs → All IsStorableChild cs → All IsChild cs
children_valid [] v s = tt
children_valid (c ∷ cs) v s = (
  record { edge = v.0.edge; child = (s.0, v.0.child); summary = v.0.summary },
  children_valid cs v.1 s.1,
)

pub encode_leaf-IsLeaf :
    (l : ManifestLeaf) (stored : List ℕ)
    → IsLeafValue l
    → encode_leaf l ≡ ok stored
    → IsLeaf l
      × ((s : ManifestSummary) × (leaf_summary l ≡ ok s)
          × (stored ≡ framed leaf (leaf_bytes l s))
          × Fits leaf (leaf_bytes l s))
unfolding encode_leaf
encode_leaf-IsLeaf l stored v h =
    let (u, prefix, h1) =
      >>=-eq_ok (validate_bytes "portable prefix" l.portable_prefix max_prefix_bytes) _ h in
    let (u', count, h2) =
      >>=-eq_ok (validate_count "leaf entry count" (length l.entries) max_leaf_entries) _ h1 in
    let (s, sum, h3) = >>=-eq_ok (leaf_summary l) _ h2 in
    let (payload, wrote, h4) = >>=-eq_ok (written (write_leaf l s)) _ h3 in
    let (same, entries) = written-eq_ok (Wrote-leaf l s) payload wrote in
    let (frame, fits) = envelope-eq_ok leaf payload stored h4 in
    (
      record {
        prefix = v.prefix;
        prefix_fits = validate_bytes-eq_ok _ l.portable_prefix _ prefix;
        entries = entries_valid l.entries v.entries entries;
        entries_fit = validate_count-eq_ok _ (length l.entries) _ count;
      },
      (s, sum, rw same at frame, rw same at fits),
    )

-- A leaf that encodes, decodes to itself.
pub decode_leaf-encode_leaf :
    (l : ManifestLeaf) (stored : List ℕ)
    → IsLeafValue l
    → encode_leaf l ≡ ok stored
    → decode_leaf stored ≡ ok l
unfolding decode_leaf
decode_leaf-encode_leaf l stored v h =
    let (is_leaf, (s, sum, frame, fits)) = encode_leaf-IsLeaf l stored v h in
    rw (
      frame,
      decode_envelope-framed leaf (leaf_bytes l s) fits,
      (ReadsAll-leaf s (leaf_summary-IsSummary l s sum) l is_leaf).at,
      sum,
      summary_eq_refl s,
    )

pub encode_node-IsNode :
    (n : ManifestNode) (stored : List ℕ)
    → IsNodeValue n
    → encode_node n ≡ ok stored
    → IsNode n
      × ((s : ManifestSummary) × (node_summary n ≡ ok s)
          × (stored ≡ framed node (node_bytes n s))
          × Fits node (node_bytes n s))
unfolding encode_node
encode_node-IsNode n stored v h =
    let (u, prefix, h1) =
      >>=-eq_ok (validate_bytes "portable prefix" n.portable_prefix max_prefix_bytes) _ h in
    let (u', count, h2) =
      >>=-eq_ok (validate_count "node child count" (length n.children) max_node_children) _ h1 in
    let (s, sum, h3) = >>=-eq_ok (node_summary n) _ h2 in
    let (payload, wrote, h4) = >>=-eq_ok (written (write_node n s)) _ h3 in
    let (same, children) = written-eq_ok (Wrote-node n s) payload wrote in
    let (frame, fits) = envelope-eq_ok node payload stored h4 in
    (
      record {
        prefix = v.prefix;
        prefix_fits = validate_bytes-eq_ok _ n.portable_prefix _ prefix;
        children = children_valid n.children v.children children;
        children_fit = validate_count-eq_ok _ (length n.children) _ count;
      },
      (s, sum, rw same at frame, rw same at fits),
    )

-- A node that encodes, decodes to itself.
pub decode_node-encode_node :
    (n : ManifestNode) (stored : List ℕ)
    → IsNodeValue n
    → encode_node n ≡ ok stored
    → decode_node stored ≡ ok n
unfolding decode_node
decode_node-encode_node n stored v h =
    let (is_node, (s, sum, frame, fits)) = encode_node-IsNode n stored v h in
    rw (
      frame,
      decode_envelope-framed node (node_bytes n s) fits,
      (ReadsAll-node s (node_summary-IsSummary n s sum) n is_node).at,
      sum,
      summary_eq_refl s,
    )
