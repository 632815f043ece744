-- ===== src/Path.antt =====
-- CheckPo.Core/src/path.rs: the paths of tracked files, as a Unix target reads them, and the
-- names of CheckPo's temporary files. Identifiers are in Path/Id.
pub mod Id
pub mod Device
pub mod Temporary
pub mod Tracked
pub mod Accepts
pub mod Inside
mod Tests
use check_po.Prelude.{
  ℕ, ◌<◌, Bool, true, false, not, ◌&&◌, ◌||◌, Option, none, some, List, [], ◌∷◌, ◌++◌, any_true,
  length, ltb, leb, ◌==◌, list_eq, if◌then◌else◌,
}
use check_po.Prelude.Result.{Result, ok, err, ◌>>=◌, ◌>>◌, reject_if}
use check_po.Prelude.Text.{codes, strip_prefix, split, join, ends_with, to_ascii_uppercase}

-- The reasons of `invalid_path`.
pub data Reason : Type 0 where
  empty_path backslash colon absolute root_alone empty_segment dot_segment : Reason
  trailing_space_or_dot forbidden_character reserved_name : Reason

-- The errors of path.rs, each with the input that it prints.
pub data PathError : Type 0 where
  invalid_tracked_path : List ℕ → Reason → PathError
  outside_tracked_scope : List ℕ → PathError

abbrev pub PathResult {ℓ} : Type ℓ → Type ℓ
PathResult = Result PathError

-- `TrackedUnityFilePath(String)`
abbrev pub TrackedUnityFilePath : Type 0
TrackedUnityFilePath = List ℕ

abbrev pub slash : ℕ
slash = 47

abbrev pub is_nil {ℓ} : {A : Type ℓ} → List A → Bool
is_nil [] = true
is_nil (x ∷ xs) = false

-- The part before the first dot.
abbrev pub stem_of : List (List ℕ) → List ℕ → List ℕ
stem_of [] segment = segment
stem_of (stem ∷ rest) segment = stem

unfoldable pub is_reserved_device_digit : List ℕ → Bool
is_reserved_device_digit [] = false
is_reserved_device_digit (c ∷ []) = leb 49 c && leb c 57 || c == 0xb9 || c == 0xb2 || c == 0xb3
is_reserved_device_digit (c ∷ d ∷ s) = false

-- `strip_prefix(..).is_some_and(is_reserved_device_digit)`
abbrev pub device : Option (List ℕ) → Bool
device none = false
device (some rest) = is_reserved_device_digit rest

unfoldable pub is_windows_reserved_name : List ℕ → Bool
unfolding is_reserved_device_digit
is_windows_reserved_name segment =
    let upper = to_ascii_uppercase (stem_of (split 46 segment) segment) in
    list_eq upper (codes "CON")
    || list_eq upper (codes "PRN")
    || list_eq upper (codes "AUX")
    || list_eq upper (codes "NUL")
    || list_eq upper (codes "CONIN$")
    || list_eq upper (codes "CONOUT$")
    || device (strip_prefix (codes "COM") upper)
    || device (strip_prefix (codes "LPT") upper)

unfoldable pub is_windows_forbidden_character : ℕ → Bool
is_windows_forbidden_character c =
    leb c 0x1f || c == 60 || c == 62 || c == 34 || c == 124 || c == 63 || c == 42

-- `match segments[0]`
abbrev pub is_tracked_root : List ℕ → Bool
is_tracked_root segment =
    list_eq segment (codes "Assets")
    || list_eq segment (codes "Packages")
    || list_eq segment (codes "ProjectSettings")

-- The body of the loop over the segments.
unfoldable pub check_segment : List ℕ → List ℕ → PathResult (Unit {0})
check_segment input segment = do
  reject_if (is_nil segment) (invalid_tracked_path input empty_segment)
  reject_if (list_eq segment (codes ".") || list_eq segment (codes ".."))
      (invalid_tracked_path input dot_segment)
  reject_if (ends_with 32 segment || ends_with 46 segment)
      (invalid_tracked_path input trailing_space_or_dot)
  reject_if (any_true is_windows_forbidden_character segment)
      (invalid_tracked_path input forbidden_character)
  reject_if (is_windows_reserved_name segment) (invalid_tracked_path input reserved_name)

unfoldable pub check_segments : List ℕ → List (List ℕ) → PathResult (Unit {0})
unfolding check_segment
check_segments input [] = ok tt
check_segments input (segment ∷ segments) =
    check_segment input segment >>= λ _. check_segments input segments

-- `Path::is_absolute`
abbrev pub is_absolute : List ℕ → Bool
is_absolute [] = false
is_absolute (c ∷ s) = c == slash

abbrev pub head_or : List (List ℕ) → List ℕ
head_or [] = []
head_or (segment ∷ segments) = segment

-- `TrackedUnityFilePath::parse`
unfoldable pub parse : List ℕ → PathResult TrackedUnityFilePath
unfolding check_segments split
parse input = do
  reject_if (is_nil input) (invalid_tracked_path input empty_path)
  reject_if (any_true (λ c. c == 92) input) (invalid_tracked_path input backslash)
  reject_if (any_true (λ c. c == 58) input) (invalid_tracked_path input colon)
  reject_if (is_absolute input) (invalid_tracked_path input absolute)
  let segments = split slash input
  reject_if (ltb (length segments) 2) (invalid_tracked_path input root_alone)
  reject_if (not (is_tracked_root (head_or segments))) (outside_tracked_scope input)
  check_segments input segments
  ok input

-- `parse_tracked_paths`
unfoldable pub parse_tracked_paths : List (List ℕ) → PathResult (List TrackedUnityFilePath)
unfolding parse
parse_tracked_paths [] = ok []
parse_tracked_paths (path ∷ paths) = do
  first ← parse path
  rest ← parse_tracked_paths paths
  ok (first ∷ rest)

-- `PathBuf::join`, and `to_project_path` on it.
abbrev pub path_join : List ℕ → List ℕ → List ℕ
path_join base path =
    if is_absolute path
    then path
    else if is_nil base || ends_with slash base
    then base ++ path
    else base ++ (slash ∷ path)

unfoldable pub to_project_path : TrackedUnityFilePath → List ℕ → List ℕ
to_project_path path project_root = path_join project_root path
