-- ===== src/Plan/Scope.antt =====
-- The paths that a discard concerns: companions and descendants, in plan.rs.
pub mod Companion
use check_po.Prelude.{
  ℕ, Bool, true, false, ◌||◌, Option, none, some, List, [], ◌∷◌, ◌++◌, ◌==◌, list_eq, if◌then◌else◌,
}
use check_po.Prelude.Result.{ok, err}
use check_po.Prelude.Map.{is_some}
use check_po.Prelude.Text.{codes, strip_prefix, strip_suffix}
use check_po.Path.{PathResult, TrackedUnityFilePath, parse, is_absolute}
use check_po.Path.Temporary.{is_some_and}

-- `Result::ok`
abbrev parsed : PathResult TrackedUnityFilePath → Option TrackedUnityFilePath
parsed (ok path) = some path
parsed (err e) = none

abbrev candidate : Option (List ℕ) → List ℕ → List ℕ
candidate (some asset) value = asset
candidate none value = value ++ codes ".meta"

unfoldable pub unity_asset_companion_path : List ℕ → Option TrackedUnityFilePath
unfolding parse
unity_asset_companion_path value =
    if is_some (strip_prefix (codes "Assets/") value)
    then parsed (parse (candidate (strip_suffix (codes ".meta") value) value))
    else none

-- `suffix.starts_with('/')` is the test of `Path::is_absolute`.
unfoldable pub path_is_strict_descendant : List ℕ → List ℕ → Bool
path_is_strict_descendant candidate root = is_some_and (strip_prefix root candidate) is_absolute

unfoldable pub path_is_same_or_descendant : List ℕ → List ℕ → Bool
unfolding path_is_strict_descendant
path_is_same_or_descendant candidate root =
    list_eq candidate root || path_is_strict_descendant candidate root
