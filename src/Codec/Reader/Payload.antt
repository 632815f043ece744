-- ===== src/Codec/Reader/Payload.antt =====
-- The payloads of the layout are read back whole.
use check_po.Prelude.{
  ℕ, ◌≡◌, refl, Option, none, some, List, [], ◌∷◌, ◌++◌, append_assoc, append-nil, arith, length,
  All, String, ◌==◌, false,
}
use check_po.Prelude.Result.{ok}
use check_po.Prelude.Bytes.{to_be_bytes}
use check_po.Codec.{
  root, node, leaf, ChunkKind, kind_byte, Digest32, ManifestRef, ManifestSummary, SnapshotRoot,
  LeafEntry, ManifestLeaf, ManifestChild, ManifestNode, IsSummary, payload_schema,
}
use check_po.Codec.Checks.{require_schema, require_policy}
use check_po.Codec.Layout.{
  summary_bytes, parent_bytes, optional_ref_bytes, root_bytes, entry_bytes, child_bytes,
  items_bytes, leaf_bytes, node_bytes,
}
use check_po.Codec.Reader.{
  Read, ◌>>=◌, ◌>>◌, pure, read_parent, read_schema, read_policy, read_optional_manifest_ref,
  read_list, read_entry, read_child, finish, read_root, read_leaf, read_node,
}
use check_po.Codec.Reader.Reads.{
  reader, Reads, Reads-bind, Reads-bind_nil, Reads-pure, Reads-lift, Reads-take, Reads-u8,
  Reads-u16, Reads-u64, Reads-digest, Reads-bytes, Reads-string, Reads-count, Reads-summary,
  Reads-timestamp, IsOptionalRef, Reads-ref,
}
use check_po.Codec.Reader.Values.{IsParent, IsRoot, IsEntry, IsLeaf, IsChild, IsNode}

-- `m` reads `a` off the whole of `bs`.
pub record ReadsAll {A : Type 0} (m : Read A) (bs : List ℕ) (a : A) : Type 0 where
  pub at : m (reader bs) ≡ ok (a, reader [])

module _ {A B : Type 0} {m : Read A} (f : A → Read B) {bs : List ℕ} {a : A} {b : B} where
  ReadsAll-bind :
      {cs : List ℕ} → Reads m bs a → ReadsAll (f a) cs b → ReadsAll (m >>= f) (bs ++ cs) b
  unfolding ◌>>=◌
  ReadsAll-bind {cs} p q = record { at = rw (p.at cs, ◌>>=◌) q.at }

  ReadsAll-bind_last : Reads m bs a → ReadsAll (f a) [] b → ReadsAll (m >>= f) bs b
  unfolding ◌>>=◌
  ReadsAll-bind_last p q = record { at = rw (rw append-nil at (p.at []), ◌>>=◌) q.at }

ReadsAll-finish : {A : Type 0} (a : A) → ReadsAll (finish >> pure a) [] a
unfolding finish pure ◌>>=◌
ReadsAll-finish a = record { at = refl }

Reads-schema : Reads read_schema (to_be_bytes 2 payload_schema) tt
unfolding read_schema require_schema
Reads-schema = Reads-bind_nil _ (Reads-u16 payload_schema (omega arith)) (Reads-lift _ tt refl)

Reads-policy : (label : String) → Reads (read_policy label 1) (to_be_bytes 2 1) tt
unfolding read_policy require_policy
Reads-policy label = Reads-bind_nil _ (Reads-u16 1 (omega arith)) (Reads-lift _ tt refl)

Reads-parent : (o : Option Digest32) → IsParent o → Reads read_parent (parent_bytes o) o
unfolding read_parent
Reads-parent none h = Reads-bind_nil _ (Reads-u8 0) (Reads-pure none)
Reads-parent (some id) h =
    Reads-bind _ (Reads-u8 1) (Reads-bind_nil _ (Reads-digest id h) (Reads-pure (some id)))

kind_byte_nonzero : (k : ChunkKind) → (kind_byte k == 0) ≡ false
kind_byte_nonzero root = refl
kind_byte_nonzero node = refl
kind_byte_nonzero leaf = refl

Reads-optional :
    (o : Option ManifestRef)
    → IsOptionalRef o
    → Reads read_optional_manifest_ref (optional_ref_bytes o) o
unfolding read_optional_manifest_ref
Reads-optional none h = Reads-bind_nil _ (Reads-u8 0) (Reads-pure none)
Reads-optional (some r) h =
    Reads-bind _ (Reads-u8 (kind_byte r.kind))
      (rw (kind_byte_nonzero r.kind) (Reads-bind_nil _ (Reads-ref r h) (Reads-pure (some r))))

module _ (r : SnapshotRoot) (h : IsRoot r) where
  pub ReadsAll-root : ReadsAll read_root (root_bytes r) r
  unfolding read_root root_bytes
  ReadsAll-root = ReadsAll-bind _ Reads-schema (
      ReadsAll-bind _ (Reads-take 16 r.project_id h.project.0) (
        ReadsAll-bind _ (Reads-parent r.parent h.parent) (
          ReadsAll-bind _ (Reads-timestamp r.created h.created) (
            ReadsAll-bind _
              (Reads-string _ _ r.checkpoint_name h.name h.name_fits (omega (arith, h.name_fits)))
              (ReadsAll-bind _
                (Reads-string _ _ r.tool_version h.tool h.tool_fits (omega (arith, h.tool_fits)))
                (ReadsAll-bind _ (Reads-policy "tracked scope") (
                  ReadsAll-bind _ (Reads-policy "path key") (
                    ReadsAll-bind _ (Reads-policy "content") (
                      ReadsAll-bind _ (Reads-optional r.manifest h.manifest) (
                        ReadsAll-bind_last _ (Reads-summary r.summary h.summary)
                          (ReadsAll-finish r)))))))))))

Reads-list :
    {A : Type 0} (item : Read A) (layout : A → List ℕ) (P : A → Type 0)
    → ((a : A) → P a → Reads item (layout a) a)
    → (xs : List A) → All P xs
    → Reads (read_list (length xs) item) (items_bytes layout xs) xs
unfolding read_list
Reads-list item layout P each [] h = Reads-pure []
Reads-list item layout P each (x ∷ xs) h =
    Reads-bind _ (each x h.0)
      (Reads-bind_nil _ (Reads-list item layout P each xs h.1) (Reads-pure (x ∷ xs)))

Reads-entry : (e : LeafEntry) → IsEntry e → Reads read_entry (entry_bytes e) e
unfolding read_entry entry_bytes
Reads-entry e h =
    Reads-bind _ (Reads-string _ _ e.exact_path h.path h.path_fits (omega (arith, h.path_fits))) (
      Reads-bind _ (Reads-u64 e.size_bytes h.size) (
        Reads-bind _ (Reads-timestamp e.modified h.modified)
          (Reads-bind_nil _ (Reads-digest e.object_id h.object) (Reads-pure e))))

Reads-child : (c : ManifestChild) → IsChild c → Reads read_child (child_bytes c) c
unfolding read_child child_bytes
Reads-child c h = Reads-bind _ (Reads-u8 c.edge) (
    rw (append_assoc (kind_byte c.child.kind ∷ []) c.child.id (summary_bytes c.summary)) (
      Reads-bind _ (Reads-u8 (kind_byte c.child.kind)) (
        Reads-bind _ (Reads-ref c.child h.child)
          (Reads-bind_nil _ (Reads-summary c.summary h.summary) (Reads-pure c)))))

module _ (s : ManifestSummary) (fits : IsSummary s) where
  pub ReadsAll-leaf : (l : ManifestLeaf) → IsLeaf l → ReadsAll read_leaf (leaf_bytes l s) (l, s)
  unfolding read_leaf leaf_bytes
  ReadsAll-leaf l h = ReadsAll-bind _ Reads-schema (
      ReadsAll-bind _
        (Reads-bytes _ _ l.portable_prefix h.prefix_fits (omega (arith, h.prefix_fits)))
        (ReadsAll-bind _
          (Reads-count _ _ (length l.entries) h.entries_fit (omega (arith, h.entries_fit)))
          (ReadsAll-bind _ (Reads-summary s fits) (
            ReadsAll-bind_last _
              (Reads-list read_entry entry_bytes IsEntry Reads-entry l.entries h.entries)
              (ReadsAll-finish (l, s))))))

  pub ReadsAll-node : (n : ManifestNode) → IsNode n → ReadsAll read_node (node_bytes n s) (n, s)
  unfolding read_node node_bytes
  ReadsAll-node n h = ReadsAll-bind _ Reads-schema (
      ReadsAll-bind _
        (Reads-bytes _ _ n.portable_prefix h.prefix_fits (omega (arith, h.prefix_fits)))
        (ReadsAll-bind _
          (Reads-count _ _ (length n.children) h.children_fit (omega (arith, h.children_fit)))
          (ReadsAll-bind _ (Reads-summary s fits) (
            ReadsAll-bind_last _
              (Reads-list read_child child_bytes IsChild Reads-child n.children h.children)
              (ReadsAll-finish (n, s))))))
