-- ===== src/Manifest.antt =====
-- CheckPo.Core/src/storage/snapshot_v2.rs: keys of paths, their order, and the length of a leaf.
pub mod Length
pub mod Keys
pub mod Prefix
pub mod Portable
pub mod Sums
pub mod Ranges
pub mod Leaf
pub mod Build
pub mod Tree
pub mod Subtree
pub mod Iter
mod Tests
use check_po.Prelude.{
  ℕ, zero, suc, ◌+◌, ◌-◌, ◌*◌, ◌^◌, Bool, true, false, not, ◌&&◌, ◌||◌, Option, none, some, List,
  [], ◌∷◌, ◌++◌, length, get_elem?, get_or, ltb, ◌==◌, list_eq, if◌then◌else◌,
}
use check_po.Prelude.Result.{Result, ok, err, ◌>>=◌, ◌>>◌, reject_if, ok_or}
use check_po.Prelude.Map.{Comparison, less, equal, greater, compare_text}
use check_po.Prelude.Text.{between, strip_prefix}
use check_po.Prelude.Text.Utf8.{as_bytes}
use check_po.Codec.{
  CodecError, limit, Timestamp, Digest32, ManifestSummary, LeafEntry, checked_add, checked_add_u64,
  u64_of_usize, max_exact_path_bytes,
}
use check_po.Path.{PathError, PathResult, TrackedUnityFilePath, parse}

-- The texts of `SnapshotV2Error::Invalid`, each with the values that it prints.
pub data Complaint : Type 0 where
  bad_path : PathError → Complaint
  bad_lowercase : ℕ → Complaint
  leaf_length_overflow entry_count_overflow path_count_overflow path_length_overflow : Complaint
  empty_leaf noncanonical_leaf prefix_not_lcp points_to_root : Complaint
  leaf_over_target too_deep : ℕ → Complaint
  range_outside empty_chunk unary_node : Complaint
  empty_root_summary root_summary_mismatch cache_full cache_heavy too_many_chunks : Complaint
  noncanonical_node few_children edges_unordered child_summary_mismatch edge_mismatch : Complaint
  ranges_unordered child_conflict prefix_not_descendant_lcp node_fits_leaf : Complaint
  duplicate_range : List ℕ → Complaint
  hash_collision : List ℕ → Complaint
  range_start range_end entries_not_monotonic sizes_not_monotonic paths_not_monotonic : Complaint
  collision not_increasing ancestor_conflict : List ℕ → List ℕ → Complaint

pub data SnapshotV2Error : Type 0 where
  codec : CodecError → SnapshotV2Error
  invalid : Complaint → SnapshotV2Error
  missing : List ℕ → SnapshotV2Error

abbrev pub SnapshotV2Result {ℓ} : Type ℓ → Type ℓ
SnapshotV2Result = Result SnapshotV2Error

pub record ManifestEntry : Type 0 where
  pub exact_path : List ℕ
  pub size_bytes : ℕ
  pub modified : Timestamp
  pub object_id : Digest32

-- `From<LeafEntry>` and `From<ManifestEntry>`.
abbrev pub entry_of_leaf : LeafEntry → ManifestEntry
entry_of_leaf entry = record {
  exact_path = entry.exact_path;
  size_bytes = entry.size_bytes;
  modified = entry.modified;
  object_id = entry.object_id;
}

abbrev pub leaf_of_entry : ManifestEntry → LeafEntry
leaf_of_entry entry = record {
  exact_path = entry.exact_path;
  size_bytes = entry.size_bytes;
  modified = entry.modified;
  object_id = entry.object_id;
}

pub record KeyedEntry : Type 0 where
  pub key : List ℕ
  pub entry : ManifestEntry

-- `usize::checked_add` and `checked_mul` with `ok_or`.
abbrev pub add_usize : ℕ → ℕ → SnapshotV2Result ℕ
add_usize a b = ok_or (checked_add_u64 a b) (invalid leaf_length_overflow)

abbrev pub mul_usize : ℕ → ℕ → SnapshotV2Result ℕ
mul_usize a b = if ltb (a * b) (2 ^ 64) then ok (a * b) else err (invalid leaf_length_overflow)

-- `usize::try_from` of a u64 never fails on 64 bits; it is written as the code has it.
unfoldable pub leaf_encoded_len : List ℕ → ManifestSummary → SnapshotV2Result ℕ
leaf_encoded_len prefix summary = do
  fixed ← add_usize 16 (2 + 4 + length prefix + 4 + 24)
  entry_count ← ok_or (u64_of_usize summary.entry_count) (invalid entry_count_overflow)
  paths ← ok_or (u64_of_usize summary.total_exact_path_bytes) (invalid path_count_overflow)
  entries ← mul_usize entry_count 56
  value ← add_usize fixed entries
  add_usize value paths

-- `left.iter().zip(right).take_while(..).count()`
unfoldable pub common_prefix_len : List ℕ → List ℕ → ℕ
common_prefix_len [] right = 0
common_prefix_len (x ∷ left) [] = 0
common_prefix_len (x ∷ left) (y ∷ right) =
    let rest = common_prefix_len left right in if x == y then suc rest else 0

unfoldable pub edge_at : List ℕ → ℕ → ℕ
edge_at key prefix_len = get_or key prefix_len 0

-- `starts_with` of slices.
abbrev pub starts_with : List ℕ → List ℕ → Bool
starts_with child parent = elim (strip_prefix parent child) [ none ↦ false | some _ ↦ true ]

abbrev pub is_slash : Option ℕ → Bool
is_slash none = false
is_slash (some b) = b == 47

unfoldable pub is_path_ancestor : List ℕ → List ℕ → Bool
is_path_ancestor parent child =
    ltb (length parent) (length child)
    && starts_with child parent
    && is_slash (get_elem? child (length parent))

abbrev pub is_greater : Comparison → Bool
is_greater greater = true
is_greater _ = false

-- The body of the loop over `entries.windows(2)`.
unfoldable pub check_pair : KeyedEntry → KeyedEntry → SnapshotV2Result (Unit {0})
check_pair previous current = do
  reject_if (list_eq previous.key current.key)
      (invalid (collision previous.entry.exact_path current.entry.exact_path))
  reject_if (is_greater (compare_text previous.key current.key))
      (invalid (not_increasing previous.entry.exact_path current.entry.exact_path))
  reject_if (is_path_ancestor previous.key current.key)
      (invalid (ancestor_conflict previous.entry.exact_path current.entry.exact_path))

unfoldable pub validate_ordered_keys : List KeyedEntry → SnapshotV2Result (Unit {0})
unfolding check_pair
validate_ordered_keys [] = ok tt
validate_ordered_keys (last ∷ []) = ok tt
validate_ordered_keys (previous ∷ current ∷ entries) =
    check_pair previous current >>= λ _. validate_ordered_keys (current ∷ entries)

-- `map_err` on the result of `TrackedUnityFilePath::parse`.
abbrev pub check_path : PathResult TrackedUnityFilePath → SnapshotV2Result (Unit {0})
check_path (ok _) = ok tt
check_path (err e) = err (invalid (bad_path e))

-- The Unicode data: normalization form C, and the lower case of a character as at most two.
module _ (nfc : List ℕ → List ℕ) (to_lowercase : ℕ → ℕ × ℕ) where
  -- `char::from_u32(..).ok_or_else(..)`
  abbrev pub scalar : ℕ → SnapshotV2Result ℕ
  scalar c =
      if between 0 0xd7ff c || between 0xe000 0x10ffff c
      then ok c
      else err (invalid (bad_lowercase c))

  -- What one character adds: `take_while` stops at the first zero.
  abbrev pub lowered_char : ℕ → SnapshotV2Result (List ℕ)
  lowered_char c =
      let first = (to_lowercase c).0 in
      let second = (to_lowercase c).1 in
      if first == 0 && second == 0
      then ok (c ∷ [])
      else if first == 0
      then ok []
      else scalar first >>= λ a.
          if second == 0 then ok (a ∷ []) else scalar second >>= λ b. ok (a ∷ b ∷ [])

  unfoldable pub lower : List ℕ → SnapshotV2Result (List ℕ)
  lower [] = ok []
  lower (c ∷ s) = do front ← lowered_char c; rest ← lower s; ok (front ++ rest)

  unfoldable pub portable_path_key_v1 : List ℕ → SnapshotV2Result (List ℕ)
  unfolding lower parse
  portable_path_key_v1 exact_path = do
    reject_if (ltb max_exact_path_bytes (length (as_bytes exact_path)))
        (codec (limit "exact path" (length (as_bytes exact_path)) max_exact_path_bytes))
    check_path (parse exact_path)
    lowered ← lower (nfc exact_path)
    let key = as_bytes (nfc lowered)
    reject_if (ltb max_exact_path_bytes (length key))
        (codec (limit "portable path key" (length key) max_exact_path_bytes))
    ok key

unfoldable pub entry_summary : ManifestEntry → SnapshotV2Result ManifestSummary
entry_summary entry = do
  paths ← ok_or (u64_of_usize (length (as_bytes entry.exact_path))) (invalid path_length_overflow)
  ok (record {
    entry_count = 1;
    logical_size_bytes = entry.size_bytes;
    total_exact_path_bytes = paths;
  })

-- `map_err(SnapshotV2Error::from)`
abbrev pub from_codec {ℓ} : {A : Type ℓ} → Result CodecError A → SnapshotV2Result A
from_codec (ok a) = ok a
from_codec (err e) = err (codec e)

-- The loop that fills `summary_prefixes`, from its last element.
unfoldable pub summary_prefixes :
    ManifestSummary → List KeyedEntry → SnapshotV2Result (List ManifestSummary)
unfolding entry_summary checked_add
summary_prefixes last [] = ok (last ∷ [])
summary_prefixes last (keyed_entry ∷ keyed) = do
  one ← entry_summary keyed_entry.entry
  next ← from_codec (checked_add last one)
  rest ← summary_prefixes next keyed
  ok (last ∷ rest)

abbrev pub checked_sub : ℕ → ℕ → Option ℕ
checked_sub a b = if ltb a b then none else some (a - b)

unfoldable pub range_summary : List ManifestSummary → ℕ → ℕ → SnapshotV2Result ManifestSummary
range_summary prefixes start end = do
  before ← ok_or (get_elem? prefixes start) (invalid range_start)
  after ← ok_or (get_elem? prefixes end) (invalid range_end)
  entries ← ok_or (checked_sub after.entry_count before.entry_count) (invalid entries_not_monotonic)
  size ←
      ok_or (checked_sub after.logical_size_bytes before.logical_size_bytes)
        (invalid sizes_not_monotonic)
  paths ←
      ok_or (checked_sub after.total_exact_path_bytes before.total_exact_path_bytes)
        (invalid paths_not_monotonic)
  ok (record { entry_count = entries; logical_size_bytes = size; total_exact_path_bytes = paths })
