-- ===== src/Codec/Writer/Payload.antt =====
-- The payloads that the encoders write, against the layout.
use check_po.Prelude.{
  ℕ, ◌^◌, ◌≤◌, ◌<◌, ◌≡◌, ◌≢◌, List, [], ◌∷◌, ◌++◌, append_assoc, append-nil, arith, length, All,
}
use check_po.Prelude.Result.{ok, ◌>>=◌}
use check_po.Prelude.Text.Utf8.{as_bytes}
use check_po.Codec.{
  CodecResult, root, ManifestSummary, SnapshotRoot, LeafEntry, ManifestLeaf, ManifestChild,
  ManifestNode, payload_schema, tracked_scope_policy, path_key_policy, content_policy,
  max_exact_path_bytes, new_timestamp,
}
use check_po.Codec.Checks.{validate_text}
use check_po.Codec.Layout.{
  root_bytes, entry_bytes, child_bytes, items_bytes, leaf_bytes, node_bytes,
}
use check_po.Codec.Writer.{
  Write, ◌>>◌, skip, write_root, write_entry, write_entries, write_leaf, write_child,
  write_children, write_node,
}
use check_po.Codec.Writer.Wrote.{
  Wrote, Writes, Wrote-map, Wrote-Writes, Wrote-then, Writes-then, Writes-Wrote, Wrote-Writes_last,
  fail-Wrote, fail-Writes, Writes-raw, Writes-u8, Writes-u16, Writes-u32, Writes-u64, Writes-i64,
  Writes-digest, Writes-summary, Wrote-count, Writes-count, Wrote-bytes, Writes-bytes, Wrote-string,
  Writes-string, Wrote-manifest_kind, Writes-manifest_kind, IsManifest, Wrote-optional,
  Writes-optional, Writes-parent,
}

module _ {f g h : Write} {bs cs ds : List ℕ} where
  -- Two writes that the layout groups.
  Writes-pair : Writes f bs → Writes g cs → Writes h ds → Writes (f >> (g >> h)) ((bs ++ cs) ++ ds)
  Writes-pair p q r = rw (append_assoc bs cs ds) (Writes-then p (Writes-then q r))

  Writes-Wrote_pair :
      {C : Type 0}
      → Writes f bs
      → Writes g cs
      → Wrote h ds C
      → Wrote (f >> (g >> h)) ((bs ++ cs) ++ ds) C
  Writes-Wrote_pair p q r = rw (append_assoc bs cs ds) (Writes-Wrote p (Writes-Wrote q r))

  Wrote-Writes_pair :
      {C : Type 0}
      → Wrote f bs C
      → Writes g cs
      → Writes h ds
      → Wrote (f >> (g >> h)) ((bs ++ cs) ++ ds) C
  Wrote-Writes_pair p q r = rw (append_assoc bs cs ds) (Wrote-Writes_last p (Writes-then q r))

module _ (r : SnapshotRoot) where
  -- When a root's payload is written, its manifest reference is to a node or a leaf.
  pub Wrote-root : Wrote (write_root r) (root_bytes r) (IsManifest r.manifest)
  unfolding write_root root_bytes
  Wrote-root = Writes-Wrote (Writes-u16 payload_schema) (
      Writes-Wrote (Writes-raw r.project_id) (
        Writes-Wrote (Writes-parent r.parent) (
          Writes-Wrote_pair (Writes-i64 r.created.unix_seconds) (Writes-u32 r.created.nanoseconds) (
            Wrote-map (λ c. c.1.1)
              (Wrote-then (Wrote-string r.checkpoint_name) (
                Wrote-then (Wrote-string r.tool_version) (
                  Writes-Wrote (Writes-u16 tracked_scope_policy) (
                    Writes-Wrote (Writes-u16 path_key_policy) (
                      Writes-Wrote (Writes-u16 content_policy) (
                        Wrote-Writes_last (Wrote-optional r.manifest)
                          (Writes-summary r.summary)))))))))))

  pub Writes-root :
      length (as_bytes r.checkpoint_name) < 2 ^ 32
      → length (as_bytes r.tool_version) < 2 ^ 32
      → IsManifest r.manifest
      → Writes (write_root r) (root_bytes r)
  unfolding write_root root_bytes
  Writes-root name tool manifest = Writes-then (Writes-u16 payload_schema) (
      Writes-then (Writes-raw r.project_id) (
        Writes-then (Writes-parent r.parent) (
          Writes-pair (Writes-i64 r.created.unix_seconds) (Writes-u32 r.created.nanoseconds) (
            Writes-then (Writes-string r.checkpoint_name name) (
              Writes-then (Writes-string r.tool_version tool) (
                Writes-then (Writes-u16 tracked_scope_policy) (
                  Writes-then (Writes-u16 path_key_policy) (
                    Writes-then (Writes-u16 content_policy) (
                      Writes-then (Writes-optional r.manifest manifest)
                        (Writes-summary r.summary))))))))))

-- What the loop of `encode_leaf` checks of an entry.
pub record IsStorableEntry (e : LeafEntry) : Type 0 where
  pub path_fits : length (as_bytes e.exact_path) ≤ max_exact_path_bytes
  pub nanoseconds_fit : e.modified.nanoseconds < 1_000_000_000

module _ (e : LeafEntry) where
  path_check :
      validate_text "exact path" e.exact_path max_exact_path_bytes ≡ ok tt
      → length (as_bytes e.exact_path) ≤ max_exact_path_bytes
  unfolding validate_text
  path_check h = ground arith

  check_path :
      length (as_bytes e.exact_path) ≤ max_exact_path_bytes
      → validate_text "exact path" e.exact_path max_exact_path_bytes ≡ ok tt
  unfolding validate_text
  check_path h = ground arith

  abbrev time_check : CodecResult (Unit {0})
  time_check = new_timestamp e.modified.unix_seconds e.modified.nanoseconds >>= λ _. ok tt

  time_fits : time_check ≡ ok tt → e.modified.nanoseconds < 1_000_000_000
  unfolding new_timestamp
  time_fits h = ground arith

  fits_time : e.modified.nanoseconds < 1_000_000_000 → time_check ≡ ok tt
  unfolding new_timestamp
  fits_time h = ground arith

  pub Wrote-entry : Wrote (write_entry e) (entry_bytes e) (IsStorableEntry e)
  unfolding write_entry entry_bytes
  Wrote-entry =
      Wrote-map (λ c. record { path_fits = path_check c.0; nanoseconds_fit = time_fits c.1.0 })
        (fail-Wrote _ (
          fail-Wrote _ (
            Wrote-Writes_last (Wrote-string e.exact_path) (
              Writes-then (Writes-u64 e.size_bytes) (
                Writes-pair (Writes-i64 e.modified.unix_seconds) (Writes-u32 e.modified.nanoseconds)
                  (Writes-digest e.object_id))))))

  pub Writes-entry : IsStorableEntry e → Writes (write_entry e) (entry_bytes e)
  unfolding write_entry entry_bytes
  Writes-entry h = fail-Writes _ (check_path h.path_fits) (
      fail-Writes _ (fits_time h.nanoseconds_fit) (
        Writes-then (Writes-string e.exact_path (omega (arith, h.path_fits))) (
          Writes-then (Writes-u64 e.size_bytes) (
            Writes-pair (Writes-i64 e.modified.unix_seconds) (Writes-u32 e.modified.nanoseconds)
              (Writes-digest e.object_id)))))

pub Wrote-entries :
    (es : List LeafEntry)
    → Wrote (write_entries es) (items_bytes entry_bytes es) (All IsStorableEntry es)
unfolding write_entries
Wrote-entries [] = Wrote-Writes (record { runs = λ w. unfold skip in rw append-nil })
Wrote-entries (e ∷ es) = Wrote-then (Wrote-entry e) (Wrote-entries es)

pub Writes-entries :
    (es : List LeafEntry)
    → All IsStorableEntry es
    → Writes (write_entries es) (items_bytes entry_bytes es)
unfolding write_entries
Writes-entries [] h = record { runs = λ w. unfold skip in rw append-nil }
Writes-entries (e ∷ es) h = Writes-then (Writes-entry e h.0) (Writes-entries es h.1)

-- A child points to a node or a leaf.
abbrev pub IsStorableChild : ManifestChild → Type 0
IsStorableChild c = c.child.kind ≢ root

module _ (c : ManifestChild) where
  pub Wrote-child : Wrote (write_child c) (child_bytes c) (IsStorableChild c)
  unfolding write_child child_bytes
  Wrote-child = Writes-Wrote (Writes-u8 c.edge) (
      Wrote-Writes_pair (Wrote-manifest_kind c.child) (Writes-digest c.child.id)
        (Writes-summary c.summary))

  pub Writes-child : IsStorableChild c → Writes (write_child c) (child_bytes c)
  unfolding write_child child_bytes
  Writes-child h = Writes-then (Writes-u8 c.edge) (
      Writes-pair (Writes-manifest_kind c.child h) (Writes-digest c.child.id)
        (Writes-summary c.summary))

pub Wrote-children :
    (cs : List ManifestChild)
    → Wrote (write_children cs) (items_bytes child_bytes cs) (All IsStorableChild cs)
unfolding write_children
Wrote-children [] = Wrote-Writes (record { runs = λ w. unfold skip in rw append-nil })
Wrote-children (c ∷ cs) = Wrote-then (Wrote-child c) (Wrote-children cs)

pub Writes-children :
    (cs : List ManifestChild)
    → All IsStorableChild cs
    → Writes (write_children cs) (items_bytes child_bytes cs)
unfolding write_children
Writes-children [] h = record { runs = λ w. unfold skip in rw append-nil }
Writes-children (c ∷ cs) h = Writes-then (Writes-child c h.0) (Writes-children cs h.1)

module _ (l : ManifestLeaf) (s : ManifestSummary) where
  pub Wrote-leaf : Wrote (write_leaf l s) (leaf_bytes l s) (All IsStorableEntry l.entries)
  unfolding write_leaf leaf_bytes
  Wrote-leaf = Writes-Wrote (Writes-u16 payload_schema) (
      Wrote-map (λ c. c.1.1)
        (Wrote-then (Wrote-bytes l.portable_prefix) (
          Wrote-then (Wrote-count _ (length l.entries))
            (Writes-Wrote (Writes-summary s) (Wrote-entries l.entries)))))

  pub Writes-leaf :
      length l.portable_prefix < 2 ^ 32
      → length l.entries < 2 ^ 32
      → All IsStorableEntry l.entries
      → Writes (write_leaf l s) (leaf_bytes l s)
  unfolding write_leaf leaf_bytes
  Writes-leaf prefix fits entries = Writes-then (Writes-u16 payload_schema) (
      Writes-then (Writes-bytes l.portable_prefix prefix) (
        Writes-then (Writes-count _ (length l.entries) fits)
          (Writes-then (Writes-summary s) (Writes-entries l.entries entries))))

module _ (n : ManifestNode) (s : ManifestSummary) where
  pub Wrote-node : Wrote (write_node n s) (node_bytes n s) (All IsStorableChild n.children)
  unfolding write_node node_bytes
  Wrote-node = Writes-Wrote (Writes-u16 payload_schema) (
      Wrote-map (λ c. c.1.1)
        (Wrote-then (Wrote-bytes n.portable_prefix) (
          Wrote-then (Wrote-count _ (length n.children))
            (Writes-Wrote (Writes-summary s) (Wrote-children n.children)))))

  pub Writes-node :
      length n.portable_prefix < 2 ^ 32
      → length n.children < 2 ^ 32
      → All IsStorableChild n.children
      → Writes (write_node n s) (node_bytes n s)
  unfolding write_node node_bytes
  Writes-node prefix fits children = Writes-then (Writes-u16 payload_schema) (
      Writes-then (Writes-bytes n.portable_prefix prefix) (
        Writes-then (Writes-count _ (length n.children) fits)
          (Writes-then (Writes-summary s) (Writes-children n.children children))))
