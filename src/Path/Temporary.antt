-- ===== src/Path/Temporary.antt =====
-- The names of CheckPo's temporary files in path.rs.
pub mod Names
use check_po.Prelude.{
  ℕ, Bool, true, false, ◌&&◌, ◌||◌, Option, none, some, List, [], ◌∷◌, ◌++◌, length, all_true, ◌==◌,
}
use check_po.Prelude.Text.{codes, strip_prefix, strip_suffix, split_once}
use check_po.Prelude.Text.Utf8.{as_bytes}
use check_po.Path.Id.{is_lower_hex, and_then}

unfoldable pub is_lowercase_hex : List ℕ → ℕ → Bool
is_lowercase_hex value expected_len =
    length (as_bytes value) == expected_len && all_true is_lower_hex (as_bytes value)

abbrev pub is_lowercase_hex_uuid : List ℕ → Bool
is_lowercase_hex_uuid value = is_lowercase_hex value 32

-- `Option::is_some_and`
abbrev pub is_some_and {ℓ} : {A : Type ℓ} → Option A → (A → Bool) → Bool
is_some_and none p = false
is_some_and (some a) p = p a

-- `is_checkpo_atomic_materialization_temporary_file_name`
unfoldable pub is_materialization_name : List ℕ → Bool
is_materialization_name name =
    is_some_and (and_then (strip_prefix (codes ".checkpo-") name) (strip_suffix (codes ".tmp")))
      is_lowercase_hex_uuid

-- The `-r-` form of `is_checkpo_owned_temporary_file_name`.
abbrev pub is_restore_name : List ℕ → Bool
is_restore_name name =
    is_some_and
      (and_then (and_then (strip_prefix (codes ".checkpo-r-") name) (strip_suffix (codes ".tmp")))
        (split_once 45))
      (λ p. is_lowercase_hex p.0 16 && is_lowercase_hex_uuid p.1)

-- `is_checkpo_owned_temporary_file_name`
unfoldable pub is_owned_name : List ℕ → Bool
unfolding is_materialization_name
is_owned_name name = is_materialization_name name || is_restore_name name
