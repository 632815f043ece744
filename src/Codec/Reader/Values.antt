-- ===== src/Codec/Reader/Values.antt =====
-- The values of the Rust types, and the limits that the decoders put on them.
use check_po.Prelude.{◌≤◌, Option, none, some, length, All}
use check_po.Prelude.Bytes.{IsByte, IsU64}
use check_po.Prelude.Text.Utf8.{IsText, as_bytes}
use check_po.Codec.{
  IsArray, Digest32, SnapshotRoot, LeafEntry, ManifestLeaf, ManifestChild, ManifestNode,
  IsTimestamp, IsSummary, max_exact_path_bytes, max_prefix_bytes, max_checkpoint_name_bytes,
  max_tool_version_bytes, max_leaf_entries, max_node_children,
}
use check_po.Codec.Reader.Reads.{IsRef, IsOptionalRef}

abbrev pub IsParent : Option Digest32 → Type 0
IsParent none = Unit
IsParent (some id) = IsArray 32 id

pub record IsRoot (r : SnapshotRoot) : Type 0 where
  pub project : IsArray 16 r.project_id
  pub parent : IsParent r.parent
  pub created : IsTimestamp r.created
  pub name : IsText r.checkpoint_name
  pub name_fits : length (as_bytes r.checkpoint_name) ≤ max_checkpoint_name_bytes
  pub tool : IsText r.tool_version
  pub tool_fits : length (as_bytes r.tool_version) ≤ max_tool_version_bytes
  pub manifest : IsOptionalRef r.manifest
  pub summary : IsSummary r.summary

pub record IsEntry (e : LeafEntry) : Type 0 where
  pub path : IsText e.exact_path
  pub path_fits : length (as_bytes e.exact_path) ≤ max_exact_path_bytes
  pub size : IsU64 e.size_bytes
  pub modified : IsTimestamp e.modified
  pub object : IsArray 32 e.object_id

pub record IsLeaf (l : ManifestLeaf) : Type 0 where
  pub prefix : All IsByte l.portable_prefix
  pub prefix_fits : length l.portable_prefix ≤ max_prefix_bytes
  pub entries : All IsEntry l.entries
  pub entries_fit : length l.entries ≤ max_leaf_entries

pub record IsChild (c : ManifestChild) : Type 0 where
  pub edge : IsByte c.edge
  pub child : IsRef c.child
  pub summary : IsSummary c.summary

pub record IsNode (n : ManifestNode) : Type 0 where
  pub prefix : All IsByte n.portable_prefix
  pub prefix_fits : length n.portable_prefix ≤ max_prefix_bytes
  pub children : All IsChild n.children
  pub children_fit : length n.children ≤ max_node_children
