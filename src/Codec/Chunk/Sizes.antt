-- ===== src/Codec/Chunk/Sizes.antt =====
-- The lengths of the payloads.
use check_po.Prelude.{
  ℕ, ◌+◌, ◌≤◌, ◌≡◌, false, not, ◌&&◌, Option, none, some, List, [], ◌∷◌, arith, length,
  length-append, list_eq_refl,
}
use check_po.Prelude.Result.{ok}
use check_po.Prelude.Bytes.{length-to_be_bytes}
use check_po.Prelude.Text.{trim}
use check_po.Prelude.Text.Utf8.{as_bytes}
use check_po.Codec.{
  root, Digest32, ManifestRef, SnapshotRoot, LeafEntry, new_timestamp, empty_summary, summary_eq,
  maximum_stored_len,
}
use check_po.Codec.Checks.{validate_root, validate_text, validate_bytes, is_empty, is_none}
use check_po.Codec.Layout.{parent_bytes, optional_ref_bytes, root_bytes, entry_bytes}
use check_po.Codec.Reader.Reads.{IsOptionalRef}
use check_po.Codec.Reader.Values.{IsParent, IsRoot}
use check_po.Codec.Chunk.{encode_root}
use check_po.Codec.Chunk.Envelope.{framed, Fits, envelope-framed}
use check_po.Codec.Chunk.Canonical.{written_root}

length-parent_bytes : (o : Option Digest32) → IsParent o → length (parent_bytes o) ≤ 33
length-parent_bytes none h = omega arith
length-parent_bytes (some id) h = omega (arith, h.0)

length-optional_ref_bytes :
    (o : Option ManifestRef) → IsOptionalRef o → length (optional_ref_bytes o) ≤ 33
length-optional_ref_bytes none h = omega arith
length-optional_ref_bytes (some r) h = omega (arith, h.1.0)

length-root_bytes :
    (r : SnapshotRoot)
    → length (root_bytes r)
      ≡ 52
        + length r.project_id
        + length (parent_bytes r.parent)
        + length (as_bytes r.checkpoint_name)
        + length (as_bytes r.tool_version)
        + length (optional_ref_bytes r.manifest)
unfolding root_bytes
length-root_bytes r = simp (length-append, length-to_be_bytes, arith) (omega arith)

root_bytes-Fits : (r : SnapshotRoot) → IsRoot r → Fits root (root_bytes r)
unfolding maximum_stored_len
root_bytes-Fits r h = omega (
  arith,
  length-root_bytes r,
  h.project.0,
  length-parent_bytes r.parent h.parent,
  length-optional_ref_bytes r.manifest h.manifest,
  h.name_fits,
  h.tool_fits,
)

-- What `validate_root` asks beyond the limits.
pub record IsCoherent (r : SnapshotRoot) : Type 0 where
  pub trimmed : trim r.checkpoint_name ≡ r.checkpoint_name
  pub named : is_empty r.checkpoint_name ≡ false
  pub empty : (is_none r.manifest && not (summary_eq r.summary empty_summary)) ≡ false

validate_root-IsCoherent : (r : SnapshotRoot) → IsRoot r → IsCoherent r → validate_root r ≡ ok tt
unfolding validate_root validate_text validate_bytes new_timestamp
validate_root-IsCoherent r h c = ground (
  arith,
  h.name_fits,
  h.tool_fits,
  h.created,
  c.trimmed,
  c.named,
  c.empty,
  list_eq_refl r.checkpoint_name,
)

-- A root within the limits of the format whose name is trimmed and not empty, and whose summary
-- is zero when it has no manifest, always encodes, to the layout of its fields behind the header.
pub encode_root-IsRoot_fits :
    (r : SnapshotRoot) → IsRoot r → IsCoherent r → encode_root r ≡ ok (framed root (root_bytes r))
unfolding encode_root
encode_root-IsRoot_fits r h c = rw (
  validate_root-IsCoherent r h c,
  written_root r h,
  envelope-framed root (root_bytes r) (root_bytes-Fits r h),
)

-- A leaf's payload takes 34 bytes, its prefix, and for each entry 56 bytes and its path.
entries_len : List LeafEntry → ℕ
entries_len [] = 0
entries_len (e ∷ es) = 56 + length (as_bytes e.exact_path) + entries_len es

length-entry_bytes :
    (e : LeafEntry)
    → length e.object_id ≡ 32
    → length (entry_bytes e) ≡ 56 + length (as_bytes e.exact_path)
unfolding entry_bytes
length-entry_bytes e h = simp (length-append, length-to_be_bytes, arith) (omega (arith, h))
