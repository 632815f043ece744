-- ===== src/Codec/Chunk/Values.antt =====
-- The values that the Rust types of merkle_codec.rs hold, before any check.
use check_po.Prelude.{Option, none, some, All}
use check_po.Prelude.Bytes.{IsByte, IsU32, IsU64}
use check_po.Prelude.Text.Utf8.{IsText}
use check_po.Codec.{
  IsArray, IsI64, Timestamp, ManifestRef, SnapshotRoot, LeafEntry, ManifestLeaf, ManifestChild,
  ManifestNode, IsSummary,
}
use check_po.Codec.Reader.Values.{IsParent}

abbrev pub IsTimestampValue : Timestamp → Type 0
IsTimestampValue t = IsI64 t.unix_seconds × IsU32 t.nanoseconds

abbrev pub IsOptionalRefValue : Option ManifestRef → Type 0
IsOptionalRefValue none = Unit
IsOptionalRefValue (some r) = IsArray 32 r.id

pub record IsRootValue (r : SnapshotRoot) : Type 0 where
  pub project : IsArray 16 r.project_id
  pub parent : IsParent r.parent
  pub created : IsTimestampValue r.created
  pub name : IsText r.checkpoint_name
  pub tool : IsText r.tool_version
  pub manifest : IsOptionalRefValue r.manifest
  pub summary : IsSummary r.summary

pub record IsEntryValue (e : LeafEntry) : Type 0 where
  pub path : IsText e.exact_path
  pub size : IsU64 e.size_bytes
  pub modified : IsTimestampValue e.modified
  pub object : IsArray 32 e.object_id

pub record IsLeafValue (l : ManifestLeaf) : Type 0 where
  pub prefix : All IsByte l.portable_prefix
  pub entries : All IsEntryValue l.entries

pub record IsChildValue (c : ManifestChild) : Type 0 where
  pub edge : IsByte c.edge
  pub child : IsArray 32 c.child.id
  pub summary : IsSummary c.summary

pub record IsNodeValue (n : ManifestNode) : Type 0 where
  pub prefix : All IsByte n.portable_prefix
  pub children : All IsChildValue n.children
