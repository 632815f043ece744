-- ===== src/Codec/Chunk/Canonical.antt =====
-- What a decoder accepts is what its encoder writes: a stored chunk has one form.
use check_po.Prelude.{
  String, ℕ, ◌≤◌, ◌≡◌, ◌∙◌, subst, not, ◌&&◌, Option, none, some, List, [], ◌∷◌, arith, length, All,
}
use check_po.Prelude.Result.{ok, reject_if, >>=-eq_ok}
use check_po.Prelude.Bytes.{IsByte}
use check_po.Codec.{
  CodecError, root, node, leaf, ManifestRef, ManifestSummary, SnapshotRoot, LeafEntry, ManifestLeaf,
  ManifestChild, ManifestNode, leaf_summary, node_summary, max_prefix_bytes, max_leaf_entries,
  max_node_children, empty_summary, summary_eq,
}
use check_po.Codec.Checks.{validate_root, validate_bytes, validate_count, is_none}
use check_po.Codec.Layout.{root_bytes, leaf_bytes, node_bytes}
use check_po.Codec.Writer.{Write, new_writer, write_root, write_leaf, write_node}
use check_po.Codec.Writer.Wrote.{Writes, IsManifest}
use check_po.Codec.Writer.Payload.{
  Writes-root, Writes-leaf, Writes-node, IsStorableEntry, IsStorableChild,
}
use check_po.Codec.Reader.{Read, read_root, read_leaf, read_node}
use check_po.Codec.Reader.Reads.{IsOptionalRef, reader}
use check_po.Codec.Reader.Values.{IsRoot, IsEntry, IsLeaf, IsChild, IsNode}
use check_po.Codec.Reader.Canonical.{Whole}
use check_po.Codec.Reader.Whole.{Whole-IsRoot, Whole-IsLeaf, Whole-IsNode}
use check_po.Codec.Chunk.{
  decode_envelope, written, parsed, encode_root, decode_root, encode_leaf, decode_leaf, encode_node,
  decode_node,
}
use check_po.Codec.Chunk.Envelope.{Fits, framed, envelope-framed, decode_envelope-eq_ok}
use check_po.Codec.Chunk.Summaries.{summary_eq→eq}

parsed-Whole :
    {A : Type 0} {m : Read A} {Q : A → List ℕ → Type 0}
    → Whole m Q
    → (payload : List ℕ) (a : A) → All IsByte payload
    → parsed m payload ≡ ok a
    → Q a payload
parsed-Whole {m} {Q} p payload a bytes h =
    let ((b, r'), e, e') = >>=-eq_ok (m (reader payload)) (λ x. ok x.0) h in
    subst (λ x. Q x payload) (let same : b ≡ a = cc e' in same)
      (p.from (reader payload) r' b bytes e)

pub written-Writes : {f : Write} {bs : List ℕ} → Writes f bs → written f ≡ ok bs
written-Writes p = rw (p.runs new_writer)

is_manifest : (o : Option ManifestRef) → IsOptionalRef o → IsManifest o
is_manifest none h = tt
is_manifest (some r) h = h.0

pub written_root : (r : SnapshotRoot) → IsRoot r → written (write_root r) ≡ ok (root_bytes r)
written_root r is_root = written-Writes (
    Writes-root r (omega (arith, is_root.name_fits)) (omega (arith, is_root.tool_fits))
      (is_manifest r.manifest is_root.manifest))

-- If a string of bytes decodes to a root, then the root encodes to that string of bytes, and the
-- root has 16 bytes of project, 32 bytes in each digest, well-formed texts within their limits and
-- counters of 64 bits.
pub encode_root-decode_root :
    (stored : List ℕ) (r : SnapshotRoot)
    → All IsByte stored
    → decode_root stored ≡ ok r
    → (encode_root r ≡ ok stored) × IsRoot r
unfolding decode_root encode_root
encode_root-decode_root stored r bytes h =
    let (payload, opened, h1) = >>=-eq_ok (decode_envelope stored root) _ h in
    let (r', read, h2) = >>=-eq_ok (parsed read_root payload) _ h1 in
    let (frame, fits, payload_ok) = decode_envelope-eq_ok stored root payload bytes opened in
    let (form, is_root) = parsed-Whole Whole-IsRoot payload r' payload_ok read in
    let (u, coherent, h3) =
      >>=-eq_ok (reject_if (is_none r'.manifest && not (summary_eq r'.summary empty_summary)) _) _
        h2 in
    let (u', valid, h4) = >>=-eq_ok (validate_root r') _ h3 in
    let same : r' ≡ r = cc h4 in
    subst (λ x. (encode_root x ≡ ok stored) × IsRoot x) same
      (
        unfold encode_root in
            rw (valid, written_root r' is_root, ← form, envelope-framed root payload fits, frame),
        is_root,
      )

storable_entries : (es : List LeafEntry) → All IsEntry es → All IsStorableEntry es
storable_entries [] h = tt
storable_entries (e ∷ es) h = (
  record { path_fits = h.0.path_fits; nanoseconds_fit = h.0.modified.1 },
  storable_entries es h.1,
)

storable_children : (cs : List ManifestChild) → All IsChild cs → All IsStorableChild cs
storable_children [] h = tt
storable_children (c ∷ cs) h = (h.0.child.0, storable_children cs h.1)

validate_bytes_within :
    (field : String) (bs : List ℕ) (bound : ℕ)
    → length bs ≤ bound
    → validate_bytes field bs bound ≡ ok tt
unfolding validate_bytes
validate_bytes_within field bs bound h = ground arith

validate_count_within :
    (field : String) (n bound : ℕ) → n ≤ bound → validate_count field n bound ≡ ok tt
unfolding validate_count
validate_count_within field n bound h = ground arith

summary_check :
    (s t : ManifestSummary) (e : CodecError) {u : Unit {0}}
    → reject_if (not (summary_eq s t)) e ≡ ok u
    → s ≡ t
summary_check s t e h = summary_eq→eq s t (ground arith)

-- A leaf within the limits whose summary does not overflow encodes to the layout of its
-- fields behind the header, when that is within a megabyte.
pub encode_leaf-IsLeaf-Fits :
    (l : ManifestLeaf) (s : ManifestSummary)
    → IsLeaf l
    → leaf_summary l ≡ ok s
    → Fits leaf (leaf_bytes l s)
    → encode_leaf l ≡ ok (framed leaf (leaf_bytes l s))
unfolding encode_leaf
encode_leaf-IsLeaf-Fits l s is_leaf sum fits =
    let wrote : written (write_leaf l s) ≡ ok (leaf_bytes l s) = written-Writes (
      Writes-leaf l s (omega (arith, is_leaf.prefix_fits)) (omega (arith, is_leaf.entries_fit))
        (storable_entries l.entries is_leaf.entries)) in
    rw (
      validate_bytes_within "portable prefix" l.portable_prefix max_prefix_bytes
          is_leaf.prefix_fits,
      validate_count_within "leaf entry count" (length l.entries) max_leaf_entries
          is_leaf.entries_fit,
      sum,
      wrote,
      envelope-framed leaf (leaf_bytes l s) fits,
    )

pub encode_node-IsNode-Fits :
    (n : ManifestNode) (s : ManifestSummary)
    → IsNode n
    → node_summary n ≡ ok s
    → Fits node (node_bytes n s)
    → encode_node n ≡ ok (framed node (node_bytes n s))
unfolding encode_node
encode_node-IsNode-Fits n s is_node sum fits =
    let wrote : written (write_node n s) ≡ ok (node_bytes n s) = written-Writes (
      Writes-node n s (omega (arith, is_node.prefix_fits)) (omega (arith, is_node.children_fit))
        (storable_children n.children is_node.children)) in
    rw (
      validate_bytes_within "portable prefix" n.portable_prefix max_prefix_bytes
          is_node.prefix_fits,
      validate_count_within "node child count" (length n.children) max_node_children
          is_node.children_fit,
      sum,
      wrote,
      envelope-framed node (node_bytes n s) fits,
    )

-- If a string of bytes decodes to a leaf, then the leaf encodes to that string of bytes, and the
-- leaf is within the limits of the format.
pub encode_leaf-decode_leaf :
    (stored : List ℕ) (l : ManifestLeaf)
    → All IsByte stored
    → decode_leaf stored ≡ ok l
    → (encode_leaf l ≡ ok stored) × IsLeaf l
unfolding decode_leaf
encode_leaf-decode_leaf stored l bytes h =
    let (payload, opened, h1) = >>=-eq_ok (decode_envelope stored leaf) _ h in
    let ((l', t), read, h2) = >>=-eq_ok (parsed read_leaf payload) _ h1 in
    let (frame, fits, payload_ok) = decode_envelope-eq_ok stored leaf payload bytes opened in
    let (form, is_leaf, t_ok) = parsed-Whole Whole-IsLeaf payload (l', t) payload_ok read in
    let (s, sum, h3) = >>=-eq_ok (leaf_summary l') _ h2 in
    let (u, stated, h4) = >>=-eq_ok (reject_if (not (summary_eq s t)) _) _ h3 in
    let st : s ≡ t = summary_check s t _ stated in
    let same : l' ≡ l = cc h4 in
    subst (λ x. (encode_leaf x ≡ ok stored) × IsLeaf x) same
      (
        encode_leaf-IsLeaf-Fits l' t is_leaf (rw st at sum) (rw form at fits) ∙ cc (frame, form),
        is_leaf,
      )

-- If a string of bytes decodes to a node, then the node encodes to that string of bytes, and the
-- node is within the limits of the format.
pub encode_node-decode_node :
    (stored : List ℕ) (n : ManifestNode)
    → All IsByte stored
    → decode_node stored ≡ ok n
    → (encode_node n ≡ ok stored) × IsNode n
unfolding decode_node
encode_node-decode_node stored n bytes h =
    let (payload, opened, h1) = >>=-eq_ok (decode_envelope stored node) _ h in
    let ((n', t), read, h2) = >>=-eq_ok (parsed read_node payload) _ h1 in
    let (frame, fits, payload_ok) = decode_envelope-eq_ok stored node payload bytes opened in
    let (form, is_node, t_ok) = parsed-Whole Whole-IsNode payload (n', t) payload_ok read in
    let (s, sum, h3) = >>=-eq_ok (node_summary n') _ h2 in
    let (u, stated, h4) = >>=-eq_ok (reject_if (not (summary_eq s t)) _) _ h3 in
    let st : s ≡ t = summary_check s t _ stated in
    let same : n' ≡ n = cc h4 in
    subst (λ x. (encode_node x ≡ ok stored) × IsNode x) same
      (
        encode_node-IsNode-Fits n' t is_node (rw st at sum) (rw form at fits) ∙ cc (frame, form),
        is_node,
      )
