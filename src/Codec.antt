-- ===== src/Codec.antt =====
-- The data of CheckPo.Core/src/storage/merkle_codec.rs: chunks of the snapshot format, their
-- limits, their summaries and the errors of the codec.
pub mod Writer
pub mod Reader
pub mod Checks
pub mod Layout
pub mod Chunk
pub mod Identity
pub mod Samples
pub mod Pair
mod Tests
use check_po.Prelude.{
  ℕ, ◌+◌, ◌*◌, ◌^◌, ◌≤◌, ◌<◌, ◌≡◌, refl, Bool, true, false, Option, none, some, List, [], ◌∷◌, ◌++◌,
  String, length, All, leb, ltb, ◌==◌, ◌&&◌, list_eq, if◌then◌else◌,
}
use check_po.Prelude.Result.{Result, ok, err, ◌>>=◌, ◌>>◌, reject_if, ok_or}
use check_po.Prelude.Bytes.{IsByte, IsU16, IsU32, IsU64}
use check_po.Prelude.Int.{ℤ}
use check_po.Prelude.Text.{codes}
use check_po.Prelude.Text.Utf8.{IsText, as_bytes}

-- b"CPMRKL2\0"
abbrev pub magic : List ℕ
magic = 67 ∷ 80 ∷ 77 ∷ 82 ∷ 75 ∷ 76 ∷ 50 ∷ 0 ∷ []

abbrev pub codec_version : ℕ
codec_version = 1

abbrev pub envelope_len : ℕ
envelope_len = 16

abbrev pub max_root_bytes : ℕ
max_root_bytes = 64 * 1024

abbrev pub max_manifest_chunk_bytes : ℕ
max_manifest_chunk_bytes = 1024 * 1024

abbrev pub max_exact_path_bytes : ℕ
max_exact_path_bytes = 128 * 1024

abbrev pub max_checkpoint_name_bytes : ℕ
max_checkpoint_name_bytes = 4 * 1024

abbrev pub max_tool_version_bytes : ℕ
max_tool_version_bytes = 256

abbrev pub max_prefix_bytes : ℕ
max_prefix_bytes = max_exact_path_bytes

abbrev pub max_leaf_entries : ℕ
max_leaf_entries = 16384

abbrev pub max_node_children : ℕ
max_node_children = 256

abbrev pub payload_schema : ℕ
payload_schema = 1

abbrev pub tracked_scope_policy : ℕ
tracked_scope_policy = 1

abbrev pub path_key_policy : ℕ
path_key_policy = 1

abbrev pub content_policy : ℕ
content_policy = 1

-- The texts of `CodecError::Invalid`, each with the values that it prints.
pub data Message : Type 0 where
  unknown_chunk_kind : ℕ → Message
  reference_to_root : Message
  nanoseconds_out_of_range : ℕ → Message
  root_digest_mismatch : List ℕ → List ℕ → Message
  manifest_digest_mismatch : ℕ → List ℕ → List ℕ → Message
  root_as_manifest : Message
  unknown_parent_kind : ℕ → Message
  empty_manifest_summary : Message
  untrimmed_name : Message
  leaf_summary_mismatch node_summary_mismatch : Message
  child_references_root : Message
  unknown_manifest_kind : ℕ → Message
  truncated_envelope bad_magic wrong_chunk_kind : Message
  bad_version bad_flags : ℕ → Message
  payload_length_mismatch : ℕ → ℕ → Message
  unsupported_schema : ℕ → Message
  unsupported_policy : String → ℕ → Message
  truncated_payload : ℕ → ℕ → Message
  not_utf8 : String → Message
  trailing_bytes : ℕ → Message

pub data CodecError : Type 0 where
  invalid : Message → CodecError
  limit : String → ℕ → ℕ → CodecError
  overflow : String → CodecError

abbrev pub CodecResult {ℓ} : Type ℓ → Type ℓ
CodecResult = Result CodecError

-- [u8; 32]
abbrev pub Digest32 : Type 0
Digest32 = List ℕ

abbrev pub IsArray : ℕ → List ℕ → Type 0
IsArray n bs = (length bs ≡ n) × All IsByte bs

pub data ChunkKind : Type 0 where
  root node leaf : ChunkKind

-- `kind as u8`
abbrev pub kind_byte : ChunkKind → ℕ
kind_byte root = 1
kind_byte node = 2
kind_byte leaf = 3

-- `ChunkKind::parse`
pub parse_kind : ℕ → CodecResult ChunkKind
parse_kind value =
    if value == 1
    then ok root
    else if value == 2
    then ok node
    else if value == 3
    then ok leaf
    else err (invalid (unknown_chunk_kind value))

unfoldable pub maximum_stored_len : ChunkKind → ℕ
maximum_stored_len root = max_root_bytes
maximum_stored_len node = max_manifest_chunk_bytes
maximum_stored_len leaf = max_manifest_chunk_bytes

pub record ManifestRef : Type 0 where
  pub kind : ChunkKind
  pub id : Digest32

-- i64 seconds and u32 nanoseconds.
pub record Timestamp : Type 0 where
  pub unix_seconds : ℤ
  pub nanoseconds : ℕ

-- `Timestamp::new`
pub new_timestamp : ℤ → ℕ → CodecResult Timestamp
new_timestamp unix_seconds nanoseconds =
    if leb 1_000_000_000 nanoseconds
    then err (invalid (nanoseconds_out_of_range nanoseconds))
    else ok (record { unix_seconds = unix_seconds; nanoseconds = nanoseconds })

-- Three u64 counters.
pub record ManifestSummary : Type 0 where
  pub entry_count : ℕ
  pub logical_size_bytes : ℕ
  pub total_exact_path_bytes : ℕ

-- `ManifestSummary::default()`
abbrev pub empty_summary : ManifestSummary
empty_summary = record { entry_count = 0; logical_size_bytes = 0; total_exact_path_bytes = 0 }

-- `==` on summaries, derived field by field.
abbrev pub summary_eq : ManifestSummary → ManifestSummary → Bool
summary_eq a b =
    a.entry_count == b.entry_count
    && a.logical_size_bytes == b.logical_size_bytes
    && a.total_exact_path_bytes == b.total_exact_path_bytes

-- `u64::checked_add` and `usize::checked_add` of a 64-bit target.
abbrev pub checked_add_u64 : ℕ → ℕ → Option ℕ
checked_add_u64 a b = if ltb (a + b) (2 ^ 64) then some (a + b) else none

-- `ManifestSummary::checked_add`
unfoldable pub checked_add : ManifestSummary → ManifestSummary → CodecResult ManifestSummary
checked_add a b = do
  entries ← ok_or (checked_add_u64 a.entry_count b.entry_count) (overflow "manifest entry count")
  size ←
      ok_or (checked_add_u64 a.logical_size_bytes b.logical_size_bytes)
        (overflow "manifest logical size")
  paths ←
      ok_or (checked_add_u64 a.total_exact_path_bytes b.total_exact_path_bytes)
        (overflow "manifest exact path bytes")
  ok (record { entry_count = entries; logical_size_bytes = size; total_exact_path_bytes = paths })

pub record SnapshotRoot : Type 0 where
  pub project_id : List ℕ
  pub parent : Option Digest32
  pub created : Timestamp
  pub checkpoint_name : List ℕ
  pub tool_version : List ℕ
  pub manifest : Option ManifestRef
  pub summary : ManifestSummary

pub record LeafEntry : Type 0 where
  pub exact_path : List ℕ
  pub size_bytes : ℕ
  pub modified : Timestamp
  pub object_id : Digest32

pub record ManifestLeaf : Type 0 where
  pub portable_prefix : List ℕ
  pub entries : List LeafEntry

pub record ManifestChild : Type 0 where
  pub edge : ℕ
  pub child : ManifestRef
  pub summary : ManifestSummary

pub record ManifestNode : Type 0 where
  pub portable_prefix : List ℕ
  pub children : List ManifestChild

-- `u64::try_from(usize)`
abbrev pub u64_of_usize : ℕ → Option ℕ
u64_of_usize n = if ltb n (2 ^ 64) then some n else none

-- What one entry adds, and the loop of `ManifestLeaf::summary`.
unfoldable pub leaf_entry_summary : LeafEntry → CodecResult ManifestSummary
leaf_entry_summary entry = do
  paths ←
      ok_or (u64_of_usize (length (as_bytes entry.exact_path))) (overflow "exact path byte count")
  ok (record {
    entry_count = 1;
    logical_size_bytes = entry.size_bytes;
    total_exact_path_bytes = paths;
  })

unfoldable pub add_entries : ManifestSummary → List LeafEntry → CodecResult ManifestSummary
unfolding leaf_entry_summary checked_add
add_entries summary [] = ok summary
add_entries summary (entry ∷ rest) = do
  one ← leaf_entry_summary entry
  summary' ← checked_add summary one
  add_entries summary' rest

-- `ManifestLeaf::summary`
unfoldable pub leaf_summary : ManifestLeaf → CodecResult ManifestSummary
unfolding add_entries
leaf_summary l = add_entries empty_summary l.entries

pub add_children : ManifestSummary → List ManifestChild → CodecResult ManifestSummary
unfolding checked_add
add_children summary [] = ok summary
add_children summary (child ∷ rest) = do
  summary' ← checked_add summary child.summary
  add_children summary' rest

-- `ManifestNode::summary`
pub node_summary : ManifestNode → CodecResult ManifestSummary
unfolding add_children
node_summary n = add_children empty_summary n.children

-- The values of the Rust types: fixed arrays, machine integers, texts.
abbrev pub IsI64 : ℤ → Type 0
IsI64 = check_po.Prelude.Int.IsI64

abbrev pub IsTimestamp : Timestamp → Type 0
IsTimestamp t = IsI64 t.unix_seconds × (t.nanoseconds < 1_000_000_000)

abbrev pub IsSummary : ManifestSummary → Type 0
IsSummary s = IsU64 s.entry_count × IsU64 s.logical_size_bytes × IsU64 s.total_exact_path_bytes
