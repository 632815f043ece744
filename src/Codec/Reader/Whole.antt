-- ===== src/Codec/Reader/Whole.antt =====
-- A payload that is read whole is the layout of the value that comes out, and that value is
-- within the limits.
use check_po.Prelude.{◌≡◌, append-nil}
use check_po.Codec.{IsSummary}
use check_po.Codec.Layout.{root_bytes, entry_bytes, child_bytes, leaf_bytes, node_bytes}
use check_po.Codec.Reader.{read_entry, read_child, read_root, read_leaf, read_node}
use check_po.Codec.Reader.Values.{IsRoot, IsEntry, IsLeaf, IsChild, IsNode}
use check_po.Codec.Reader.Inverse.{
  Exact, Exact-bind, Takes-bind, Takes-pure, Exact-take_bytes, Exact-u8, Exact-u64, Exact-digest,
  Exact-bytes, Exact-string, Exact-count, Exact-summary, Exact-timestamp, Takes-IsRef,
}
use check_po.Codec.Reader.Canonical.{
  Exact-schema, Exact-policy, Exact-parent, Exact-optional, Exact-list, Whole, Whole-bind,
  Whole-finish, Whole-takes,
}

pub Whole-IsRoot : Whole read_root (λ r bs. (bs ≡ root_bytes r) × IsRoot r)
unfolding read_root root_bytes
Whole-IsRoot = Whole-bind _ _ Exact-schema λ _ _.
    Whole-bind _ _ (Exact-take_bytes 16) λ project project_ok.
      Whole-bind _ _ Exact-parent λ parent parent_ok.
        Whole-bind _ _ Exact-timestamp λ created created_ok.
          Whole-bind _ _ (Exact-string _ _) λ name name_ok.
            Whole-bind _ _ (Exact-string _ _) λ tool tool_ok.
              Whole-bind _ _ (Exact-policy "tracked scope" _) λ _ _.
                Whole-bind _ _ (Exact-policy "path key" _) λ _ _.
                  Whole-bind _ _ (Exact-policy "content" _) λ _ _.
                    Whole-bind _ _ Exact-optional λ manifest manifest_ok.
                      Whole-bind _ _ Exact-summary λ s s_ok. Whole-finish _ _ (
                        rw append-nil,
                        record {
                          project = project_ok;
                          parent = parent_ok;
                          created = created_ok;
                          name = name_ok.0;
                          name_fits = name_ok.1;
                          tool = tool_ok.0;
                          tool_fits = tool_ok.1;
                          manifest = manifest_ok;
                          summary = s_ok;
                        },
                      )

Exact-IsEntry : Exact read_entry entry_bytes IsEntry
unfolding read_entry entry_bytes
Exact-IsEntry = Exact-bind _ _ (Exact-string _ _) λ path path_ok.
    Exact-bind _ _ Exact-u64 λ size size_ok. Exact-bind _ _ Exact-timestamp λ modified modified_ok.
      Exact-bind _ _ Exact-digest λ object object_ok. Takes-pure _ _ (
        rw append-nil,
        record {
          path = path_ok.0;
          path_fits = path_ok.1;
          size = size_ok;
          modified = modified_ok;
          object = object_ok;
        },
      )

Exact-IsChild : Exact read_child child_bytes IsChild
unfolding read_child child_bytes
Exact-IsChild = Exact-bind _ _ Exact-u8 λ edge edge_ok. Exact-bind _ _ Exact-u8 λ value value_ok.
    Takes-bind _ (Takes-IsRef value) λ child bs child_ok. Exact-bind _ _ Exact-summary λ s s_ok.
      Takes-pure _ _ (
        rw (child_ok.0, child_ok.1, append-nil),
        record { edge = edge_ok; child = child_ok.2; summary = s_ok },
      )

pub Whole-IsLeaf : Whole read_leaf (λ p bs. (bs ≡ leaf_bytes p.0 p.1) × IsLeaf p.0 × IsSummary p.1)
unfolding read_leaf leaf_bytes
Whole-IsLeaf = Whole-bind _ _ Exact-schema λ _ _.
    Whole-bind _ _ (Exact-bytes _ _) λ prefix prefix_ok. Whole-bind _ _ (Exact-count _ _) λ n n_ok.
      Whole-bind _ _ Exact-summary λ s s_ok.
        Whole-takes _ _ (Exact-list Exact-IsEntry n) λ entries bs entries_ok. Whole-finish _ _ (
          rw (append-nil, entries_ok.0, entries_ok.1),
          record {
            prefix = prefix_ok.1;
            prefix_fits = prefix_ok.0;
            entries = entries_ok.2;
            entries_fit = rw entries_ok.1 n_ok;
          },
          s_ok,
        )

pub Whole-IsNode : Whole read_node (λ p bs. (bs ≡ node_bytes p.0 p.1) × IsNode p.0 × IsSummary p.1)
unfolding read_node node_bytes
Whole-IsNode = Whole-bind _ _ Exact-schema λ _ _.
    Whole-bind _ _ (Exact-bytes _ _) λ prefix prefix_ok. Whole-bind _ _ (Exact-count _ _) λ n n_ok.
      Whole-bind _ _ Exact-summary λ s s_ok.
        Whole-takes _ _ (Exact-list Exact-IsChild n) λ children bs children_ok. Whole-finish _ _ (
          rw (append-nil, children_ok.0, children_ok.1),
          record {
            prefix = prefix_ok.1;
            prefix_fits = prefix_ok.0;
            children = children_ok.2;
            children_fit = rw children_ok.1 n_ok;
          },
          s_ok,
        )
