-- ===== src/Codec/Checks.antt =====
-- The guards of merkle_codec.rs.
use check_po.Prelude.{
  ℕ, ◌-◌, ◌^◌, Bool, not, ◌&&◌, ◌||◌, Option, List, [], String, length, ltb, ◌==◌, list_eq, none,
  some, true, false, if◌then◌else◌,
}
use check_po.Prelude.Result.{ok, err, ◌>>=◌, ◌>>◌, reject_if}
use check_po.Prelude.Text.{trim}
use check_po.Prelude.Text.Utf8.{as_bytes}
use check_po.Codec.{
  CodecResult, invalid, limit, unsupported_schema, unsupported_policy, untrimmed_name,
  empty_manifest_summary, payload_schema, SnapshotRoot, empty_summary, summary_eq, new_timestamp,
  max_checkpoint_name_bytes, max_tool_version_bytes,
}

unfoldable pub require_schema : ℕ → CodecResult (Unit {0})
require_schema found =
    if found == payload_schema then ok tt else err (invalid (unsupported_schema found))

unfoldable pub require_policy : String → ℕ → ℕ → CodecResult (Unit {0})
require_policy label found expected =
    if found == expected then ok tt else err (invalid (unsupported_policy label found))

unfoldable pub validate_bytes : String → List ℕ → ℕ → CodecResult (Unit {0})
validate_bytes field value bound =
    if ltb bound (length value) then err (limit field (length value) bound) else ok tt

unfoldable pub validate_text : String → List ℕ → ℕ → CodecResult (Unit {0})
unfolding validate_bytes
validate_text field value bound = validate_bytes field (as_bytes value) bound

unfoldable pub validate_count : String → ℕ → ℕ → CodecResult (Unit {0})
validate_count field value bound = if ltb bound value then err (limit field value bound) else ok tt

-- `u32::try_from(usize)`
unfoldable pub usize_to_u32 : String → ℕ → CodecResult ℕ
usize_to_u32 field value =
    if ltb value (2 ^ 32) then ok value else err (limit field value (2 ^ 32 - 1))

abbrev pub is_empty {ℓ} : {A : Type ℓ} → List A → Bool
is_empty [] = true
is_empty _ = false

abbrev pub is_none {ℓ} : {A : Type ℓ} → Option A → Bool
is_none none = true
is_none (some _) = false

unfoldable pub validate_root : SnapshotRoot → CodecResult (Unit {0})
unfolding validate_text trim new_timestamp
validate_root r = do
  validate_text "checkpoint name" r.checkpoint_name max_checkpoint_name_bytes
  reject_if
      (is_empty (trim r.checkpoint_name)
        || not (list_eq (trim r.checkpoint_name) r.checkpoint_name))
      (invalid untrimmed_name)
  validate_text "tool version" r.tool_version max_tool_version_bytes
  new_timestamp r.created.unix_seconds r.created.nanoseconds >>= λ _. ok tt
  reject_if (is_none r.manifest && not (summary_eq r.summary empty_summary))
      (invalid empty_manifest_summary)
